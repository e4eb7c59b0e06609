-- ===== src/Bpe/Short.antt =====
-- src/bp_bpe.c `merge_short` against the specification.
use bytepair.Base.{ℕ, zero, suc, ◌+◌, ◌<◌, ◌≤◌, ltb, Bool-cases}
use bytepair.Base.{==_iff, ne→==, le→ltb}
use bytepair.Base.{List, ◌∷◌, length, take, drop, length-append, length-take, length-drop}
use bytepair.Base.{arith, ◌≡◌, refl, inl, inr, ◌≢◌}
use mathlib.Core.Path.{subst}
use bytepair.Vocab.{BpVocab}
use bytepair.Bpe.{find_best, merge_at, merge_loop, merge_short}
use bytepair.Bpe.Spec.{merged, Encodes, done, merge, MergesAt-unique}
use bytepair.Bpe.Search.{find_best-FindsNext}

-- A merge takes one id away.
pub length-merge_at :
    (ids : List ℕ) (i id : ℕ) → suc i < length ids → length (merge_at ids i id) + 1 ≡ length ids
unfolding merge_at
length-merge_at ids i id h = omega (
  arith,
  length-append (take i ids) (id ∷ drop (i + 2) ids),
  length-take i ids,
  length-drop (i + 2) ids,
)

-- The two ways out of a round.
loop_stops :
    (v : BpVocab) (fuel : ℕ) (ids : List ℕ)
    → (find_best v ids).at ≡ length ids
    → merge_loop v fuel ids ≡ ids
unfolding merge_loop
loop_stops v zero ids e = refl
loop_stops v (suc fuel) ids e = elim (Bool-cases (ltb (length ids) 2)) [
  | inl short ↦ rw short
  | inr long ↦ rw (long, (==_iff _ _).1 e)
]

loop_out : (v : BpVocab) (ids : List ℕ) → merge_loop v 0 ids ≡ ids
unfolding merge_loop
loop_out v ids = refl

loop_merges :
    (v : BpVocab) (fuel : ℕ) (ids : List ℕ)
    → 2 ≤ length ids
    → (find_best v ids).at ≢ length ids
    → merge_loop v (suc fuel) ids
      ≡ merge_loop v fuel (merge_at ids (find_best v ids).at (find_best v ids).id)
unfolding merge_loop
loop_merges v fuel ids long ne = rw (le→ltb _ _ long, ne→== _ _ ne)

merge_loop-Encodes :
    (v : BpVocab) (fuel : ℕ) (ids : List ℕ)
    → length ids ≤ fuel
    → Encodes v ids (merge_loop v fuel ids)
merge_loop-Encodes v zero ids h = rw (loop_out v ids) (done (λ j lt. absurd (omega arith)))
merge_loop-Encodes v (suc fuel) ids h = elim (find_best-FindsNext v ids) [
  | inl (none_left, at_end) ↦ rw (loop_stops v (suc fuel) ids at_end) (done none_left)
  | inr (next, id_eq) ↦
      rw
        (loop_merges v fuel ids (omega (arith, next.inside))
          (λ e. absurd (omega (arith, e, next.inside))))
        (merge (find_best v ids).at next (
          rw (← id_eq) (
            merge_loop-Encodes v fuel (merge_at ids (find_best v ids).at (find_best v ids).id) (
              omega (
                arith,
                length-merge_at ids (find_best v ids).at (find_best v ids).id next.inside,
              )))))
]

-- `merge_short` ends with no pair left to merge, and every round merged the pair of lowest rank,
-- the leftmost on a tie: fuel for one round per id is enough.
pub merge_short-Encodes : (v : BpVocab) (ids : List ℕ) → Encodes v ids (merge_short v ids)
unfolding merge_short
merge_short-Encodes v ids = merge_loop-Encodes v (length ids) ids (omega arith)

Encodes-unique :
    {v : BpVocab} {ids out out' : List ℕ} → Encodes v ids out → Encodes v ids out' → out ≡ out'
Encodes-unique (done h) (done k) = refl
Encodes-unique (done h) (merge i m e) = absurd (omega (arith, h i m.inside, m.ranked))
Encodes-unique (merge i m e) (done h) = absurd (omega (arith, h i m.inside, m.ranked))
Encodes-unique {v} {ids} {out' = out'} (merge i m e) (merge j n f) =
    Encodes-unique e (subst (λ k. Encodes v (merged v ids k) out') (MergesAt-unique n m) f)

-- Whatever encoding the specification derives for the ids is the one that `merge_short` returns.
pub merge_short_unique :
    (v : BpVocab) (ids out : List ℕ) → Encodes v ids out → out ≡ merge_short v ids
merge_short_unique v ids out e = Encodes-unique e (merge_short-Encodes v ids)
