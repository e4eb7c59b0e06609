-- ===== src/Bpe/Boundary.antt =====
-- docs/CENSUS.md, the boundary lemma: a merge inside a stretch of the ids is the merge of the stretch
-- alone, so what an encoding holds is the encoding of a stretch.
use bytepair.Base.{ℕ, zero, suc, ◌+◌, ◌-◌, ◌<◌, ◌≤◌, List, [], ◌∷◌, length, get_or, take, drop}
use bytepair.Base.{arith, ◌≡◌, refl, sym, ap, ◌∙◌}
use mathlib.Core.Path.{subst, ap₂}
use native.Mathlib.Decide.{dec_lt}
use bytepair.Vocab.{BpVocab}
use bytepair.Bpe.{merge_at}
use bytepair.Bpe.Short.{length-merge_at}
use bytepair.Bpe.Spec.{rank_of, rank_at, id_of, MergesAt, merged, Encodes, done, merge}
use bytepair.Bpe.Stretch.{
  stretch_before, stretch_behind, stretch_around, stretch, get_or-stretch, length-stretch,
}

module _ (v : BpVocab) where
  rank_at-stretch :
      (ids : List ℕ) (a n k : ℕ) → suc k < n → rank_at v (stretch ids a n) k ≡ rank_at v ids (a + k)
  rank_at-stretch ids a n k h =
      rw (get_or-stretch ids a n k (omega arith), get_or-stretch ids a n (suc k) h)
        (ap (λ m. rank_of v (get_or ids (a + k) 0) (get_or ids m 0)) {x = a + suc k} (omega arith))

  -- The pair that merges next in all the ids, if it lies in a stretch, is the one of the stretch.
  stretch-MergesAt :
      (ids : List ℕ) (i a j n : ℕ)
      → MergesAt v ids i
      → i ≡ a + j
      → suc j < n
      → a + n ≤ length ids
      → MergesAt v (stretch ids a n) j
  stretch-MergesAt ids i a j n m e h l = record {
    inside = omega (arith, len);
    ranked = omega (arith, here, m.ranked);
    earlier = λ k lt.
        omega
          (arith, here, rank_at-stretch ids a n k (omega arith), m.earlier (a + k) (omega arith));
    later = λ k lt inside. omega (
      arith,
      here,
      rank_at-stretch ids a n k (omega (arith, len)),
      m.later (a + k) (omega arith) (omega (arith, len)),
    );
  }
    where
      len : length (stretch ids a n) ≡ n
      len = length-stretch ids a n l

      here : rank_at v (stretch ids a n) j ≡ rank_at v ids i
      here = rank_at-stretch ids a n j h ∙ ap (rank_at v ids) (sym e)

  -- A stretch of the ids that encodes to `t` alone.
  pub record Part (ids : List ℕ) (t : ℕ) : Type 0 where
    pub start : ℕ
    pub size : ℕ
    pub inside : start + size ≤ length ids
    pub whole : Encodes v (take size (drop start ids)) (t ∷ [])

  around-Part :
      (ids : List ℕ) (t i j : ℕ)
      → MergesAt v ids i
      → (p : Part (merged v ids i) t) → i ≡ p.start + j
      → j < p.size
      → suc (p.start + p.size) ≤ length ids
      → Part ids t
  around-Part ids t i j m p e h l = record {
    start = p.start;
    size = suc p.size;
    inside = omega arith;
    whole =
        merge j (stretch-MergesAt ids i p.start j (suc p.size) m e (omega arith) (omega arith)) (
          subst (λ s. Encodes v s (t ∷ []))
            (stretch_around ids i _ p.start j p.size e h m.inside
              ∙ ap₂ (λ x y. merge_at (stretch ids p.start (suc p.size)) j (id_of v x y))
                  (place j i (omega arith) e) (place (suc j) (suc i) (omega arith) (omega arith)))
            p.whole);
  }
    where
      place :
          (k m : ℕ)
          → k < suc p.size
          → m ≡ p.start + k
          → get_or ids m 0 ≡ get_or (stretch ids p.start (suc p.size)) k 0
      place k m lt same =
          ap (λ x. get_or ids x 0) same ∙ sym (get_or-stretch ids p.start (suc p.size) k lt)

  merge-Part : (ids : List ℕ) (t i : ℕ) → MergesAt v ids i → Part (merged v ids i) t → Part ids t
  merge-Part ids t i m p = elim (dec_lt i p.start) [
    | yes behind ↦ record {
      start = suc p.start;
      size = p.size;
      inside = omega (arith, p.inside, len, m.inside);
      whole =
          subst (λ s. Encodes v (take p.size s) (t ∷ []))
            (stretch_behind ids i _ p.start behind m.inside) p.whole;
    }
    | no ahead ↦ elim (dec_lt i (p.start + p.size)) [
      | yes within ↦
          around-Part ids t i (i - p.start) m p (omega arith) (omega arith)
            (omega (arith, p.inside, len, m.inside))
      | no in_front ↦ record {
        start = p.start;
        size = p.size;
        inside = omega (arith, m.inside);
        whole =
            subst (λ s. Encodes v s (t ∷ []))
              (stretch_before ids i _ p.start p.size (omega arith) m.inside) p.whole;
      }
    ]
  ]
    where
      len : length (merged v ids i) + 1 ≡ length ids
      len =
          omega (
            arith,
            length-merge_at ids i (id_of v (get_or ids i 0) (get_or ids (suc i) 0)) m.inside,
          )

  one : (ids : List ℕ) (k : ℕ) → k < length ids → take 1 (drop k ids) ≡ get_or ids k 0 ∷ []
  one [] k h = absurd (omega arith)
  one (x ∷ ids) zero h = refl
  one (x ∷ ids) (suc k) h = one ids k (omega arith)

  -- Whatever id stands in the encoding of a sequence of ids, some stretch of the sequence has
  -- that id alone as its encoding.
  pub Encodes-Part :
      {ids out : List ℕ} (k : ℕ) → Encodes v ids out → k < length out → Part ids (get_or out k 0)
  Encodes-Part {ids} k (done stays) h = record {
    start = k;
    size = 1;
    inside = omega arith;
    whole =
        subst (λ s. Encodes v s (get_or ids k 0 ∷ [])) (sym (one ids k h))
          (done (λ j lt. absurd (omega arith)));
  }
  Encodes-Part {ids} k (merge i m e) h = merge-Part ids _ i m (Encodes-Part k e h)
