-- ===== src/Bpe/Search.antt =====
-- src/bp_bpe.c `merge_short`: the scan for the next merge against the specification.
use bytepair.Base.{ℕ, zero, suc, ◌+◌, ◌<◌, ◌≤◌, ltb, Bool-cases, ltb→lt, ltb→le}
use bytepair.Base.{List, [], ◌∷◌, get_or, length, arith, ◌≡◌, refl, ◌⊎◌, inl, inr, ap, ◌∙◌}
use bytepair.Vocab.{BpVocab}
use bytepair.Bpe.{no_rank, Best, better, scan_best, find_best}
use bytepair.Bpe.Spec.{rank_of, id_of, rank_at, MergesAt, IsMerged}

-- `r` stands at the pair `k` of the suffix `l`, which begins at index `i`.
record FoundAt (v : BpVocab) (i : ℕ) (l : List ℕ) (best r : Best) (k : ℕ) : Type 0 where
  at : r.at ≡ i + k
  rank : r.rank ≡ rank_at v l k
  id : r.id ≡ id_of v (get_or l k 0) (get_or l (suc k) 0)
  inside : suc k < length l
  lower : r.rank < best.rank
  earlier : (j : ℕ) → j < k → r.rank < rank_at v l j
  later : (j : ℕ) → k < j → suc j < length l → r.rank ≤ rank_at v l j

record Keeps (v : BpVocab) (l : List ℕ) (best r : Best) : Type 0 where
  same : r ≡ best
  above : (j : ℕ) → suc j < length l → best.rank ≤ rank_at v l j

abbrev Scanned : BpVocab → ℕ → List ℕ → Best → Best → Type 0
Scanned v i l best r = Keeps v l best r ⊎ ((k : ℕ) × FoundAt v i l best r k)

-- One round: the pair at `i` is taken exactly if it ranks below the best so far.
better_taken :
    (v : BpVocab) (i x y : ℕ) (best : Best)
    → best.rank ≤ no_rank
    → rank_of v x y < best.rank
    → better v i x y best ≡ record { rank = rank_of v x y; id = id_of v x y; at = i }
unfolding better rank_of id_of
better_taken v i x y best h lt = ground arith

better_left :
    (v : BpVocab) (i x y : ℕ) (best : Best) → best.rank ≤ rank_of v x y → better v i x y best ≡ best
unfolding better rank_of
better_left v i x y best h = ground arith

module _ (v : BpVocab) (i x y : ℕ) (l : List ℕ) (best : Best) where
  abbrev whole : List ℕ
  whole = x ∷ y ∷ l

  -- The pair at the head was passed over.
  pass :
      {r : Best}
      → best.rank ≤ rank_of v x y
      → Scanned v (suc i) (y ∷ l) best r
      → Scanned v i whole best r
  pass {r} le (inl kept) = inl (record { same = kept.same; above = above })
    where
      above : (j : ℕ) → suc j < length whole → best.rank ≤ rank_at v whole j
      above zero h = le
      above (suc j) h = kept.above j (omega arith)
  pass {r} le (inr (k, f)) = inr (
    suc k,
    record {
      at = omega (arith, f.at);
      rank = f.rank;
      id = f.id;
      inside = omega (arith, f.inside);
      lower = f.lower;
      earlier = earlier;
      later = later;
    },
  )
    where
      earlier : (j : ℕ) → j < suc k → r.rank < rank_at v whole j
      earlier zero h = omega (arith, f.lower)
      earlier (suc j) h = f.earlier j (omega arith)

      later : (j : ℕ) → suc k < j → suc j < length whole → r.rank ≤ rank_at v whole j
      later zero h lt = absurd (omega arith)
      later (suc j) h lt = f.later j (omega arith) (omega arith)

  abbrev head_best : Best
  head_best = record { rank = rank_of v x y; id = id_of v x y; at = i }

  -- The pair at the head was taken, and kept or beaten further on.
  take_head :
      {r : Best}
      → rank_of v x y < best.rank
      → Scanned v (suc i) (y ∷ l) head_best r
      → Scanned v i whole best r
  take_head {r} lt (inl kept) = inr (
    0,
    record {
      at = ap (λ b. b.at) kept.same ∙ omega arith;
      rank = ap (λ b. b.rank) kept.same;
      id = ap (λ b. b.id) kept.same;
      inside = omega arith;
      lower = omega (arith, ap (λ (b : Best). b.rank) kept.same);
      earlier = λ j h. absurd (omega arith);
      later = later;
    },
  )
    where
      later : (j : ℕ) → 0 < j → suc j < length whole → r.rank ≤ rank_at v whole j
      later zero h h' = absurd (omega arith)
      later (suc j) h h' =
          omega (arith, kept.above j (omega arith), ap (λ (b : Best). b.rank) kept.same)
  take_head {r} lt (inr (k, f)) = inr (
    suc k,
    record {
      at = omega (arith, f.at);
      rank = f.rank;
      id = f.id;
      inside = omega (arith, f.inside);
      lower = omega (arith, f.lower);
      earlier = earlier;
      later = later;
    },
  )
    where
      earlier : (j : ℕ) → j < suc k → r.rank < rank_at v whole j
      earlier zero h = f.lower
      earlier (suc j) h = f.earlier j (omega arith)

      later : (j : ℕ) → suc k < j → suc j < length whole → r.rank ≤ rank_at v whole j
      later zero h lt' = absurd (omega arith)
      later (suc j) h lt' = f.later j (omega arith) (omega arith)

scan_best-Scanned :
    (v : BpVocab) (i : ℕ) (l : List ℕ) (best : Best)
    → best.rank ≤ no_rank
    → Scanned v i l best (scan_best v i l best)
unfolding scan_best
scan_best-Scanned v i [] best h = inl (record { same = refl; above = λ j lt. absurd (omega arith) })
scan_best-Scanned v i (x ∷ []) best h =
    inl (record { same = refl; above = λ j lt. absurd (omega arith) })
scan_best-Scanned v i (x ∷ y ∷ l) best h = elim (Bool-cases (ltb (rank_of v x y) best.rank)) [
  | inl e ↦
      let lt = ltb→lt _ _ e in
      rw (better_taken v i x y best h lt)
        (take_head v i x y l best lt (scan_best-Scanned v (suc i) (y ∷ l) _ (omega arith)))
  | inr e ↦
      let le = ltb→le _ _ e in
      rw (better_left v i x y best le)
        (pass v i x y l best le (scan_best-Scanned v (suc i) (y ∷ l) best h))
]

-- `find_best` answers with the index and the id of the pair that merges next, or with the length of
-- the array exactly when no pair merges.
abbrev pub FindsNext : BpVocab → List ℕ → Best → Type 0
FindsNext v ids best =
    (IsMerged v ids × (best.at ≡ length ids))
    ⊎ (MergesAt v ids best.at
        × (best.id ≡ id_of v (get_or ids best.at 0) (get_or ids (suc best.at) 0)))

pub find_best-FindsNext : (v : BpVocab) (ids : List ℕ) → FindsNext v ids (find_best v ids)
unfolding find_best
find_best-FindsNext v ids = answer _ (scan_best-Scanned v 0 ids _ (omega arith))
  where
    answer :
        (r : Best)
        → Scanned v 0 ids (record { rank = no_rank; id = 0; at = length ids }) r
        → (IsMerged v ids × (r.at ≡ length ids))
          ⊎ (MergesAt v ids r.at × (r.id ≡ id_of v (get_or ids r.at 0) (get_or ids (suc r.at) 0)))
    answer r (inl kept) = inl (kept.above, ap (λ b. b.at) kept.same)
    answer r (inr (k, f)) =
        let e : r.at ≡ k = omega (arith, f.at) in
        inr (
          rw e (record {
            inside = f.inside;
            ranked = omega (arith, f.rank, f.lower);
            earlier = λ j h. omega (arith, f.rank, f.earlier j h);
            later = λ j h h'. omega (arith, f.rank, f.later j h h');
          }),
          rw e f.id,
        )
