-- ===== src/Encode/Match.antt =====
-- src/bp_encode.c `match_added`, against a search of all added records.
use bytepair.Base.{ℕ, zero, suc, ◌+◌, ◌<◌, ◌≤◌, leb, true, false, Bool-cases, leb→le, leb→lt}
use bytepair.Base.{none, some, List, [], ◌∷◌, length, get_or, take, drop, All, count_from}
use bytepair.Base.{All-get_or, arith, ◌≡◌, inl, inr}
use mathlib.Core.Path.{subst}
use bytepair.Vocab.{BpvAdded, BpVocab, no_added, token_bytes}
use bytepair.Encode.{matches, match_in, match_added, is_first_byte}
use bytepair.Loader.Matcher.{first_byte, longest_first}
use bytepair.Loader.Longest.{
  All-map, IsDescending, longest_first-IsDescending, longest_first-All, All-longest_first,
}

-- What the loader checks of an added record.
pub record IsAdded (v : BpVocab) (a : BpvAdded) : Type 0 where
  pub below : a.id < v.hdr.vocab_count
  pub long : 0 < a.len
  pub inside : a.offset < length v.blob
  pub spelt : token_bytes v a.id ≡ take a.len (drop a.offset v.blob)

-- What the loader makes of the added records.
pub record AddedProper (v : BpVocab) : Type 0 where
  pub counted : length v.added ≡ v.hdr.added_count
  pub all_added : All (IsAdded v) v.added
  pub ordered : take v.hdr.added_count v.added_order ≡ longest_first v.added
  pub first_bytes : All (λ a. is_first_byte v (first_byte v.blob a) ≡ true) v.added

-- A property of the places `i` to `i + n` is one of the list of them.
count_from-All :
    (P : ℕ → Type 0) (i n : ℕ) → ((k : ℕ) → i ≤ k → k < i + n → P k) → All P (count_from i n)
count_from-All P i zero f = tt
count_from-All P i (suc n) f = (
  f i (omega arith) (omega arith),
  count_from-All P (suc i) n (λ k lo hi. f k (omega arith) (omega arith)),
)

All-count_from : (P : ℕ → Type 0) (i n k : ℕ) → All P (count_from i n) → i ≤ k → k < i + n → P k
All-count_from P i zero k h lo hi = absurd (omega arith)
All-count_from P i (suc n) k (p, h) lo hi = elim (Bool-cases (leb k i)) [
  | inl e ↦ subst P (omega (arith, leb→le _ _ e)) p
  | inr e ↦ All-count_from P (suc i) n k h (omega (arith, leb→lt _ _ e)) (omega arith)
]

-- A property of all entries, from one of all places.
All-places :
    (Q : BpvAdded → Type 0) (added : List BpvAdded)
    → ((k : ℕ) → k < length added → Q (get_or added k no_added))
    → All Q added
All-places Q [] f = tt
All-places Q (a ∷ added) f =
    (f 0 (omega arith), All-places Q added (λ k h. f (suc k) (omega arith)))

module _ (v : BpVocab) (p : List ℕ) where
  abbrev at : ℕ → BpvAdded
  at k = get_or v.added k no_added

  match_in-some :
      (order : List ℕ) (a : BpvAdded)
      → IsDescending v.added order
      → match_in v p order ≡ some a
      → (matches v p a ≡ true) × All (λ k. matches v p (at k) ≡ true → (at k).len ≤ a.len) order
  unfolding match_in
  match_in-some [] a d e = absurd (cc)
  match_in-some (k ∷ order) a (below, d) e = elim (Bool-cases (matches v p (at k))) [
    | inl hit ↦
        let same : at k ≡ a = cc (rw hit at e) in
        subst
          (λ b.
            (matches v p b ≡ true)
            × All (λ j. matches v p (at j) ≡ true → (at j).len ≤ b.len) (k ∷ order))
          same (hit, ((λ m. omega arith), All-map order (λ j le m. le) below))
    | inr miss ↦
        let (found, rest) = match_in-some order a d (rw miss at e) in
        (found, ((λ m. absurd (cc)), rest))
  ]

  match_in-none :
      (order : List ℕ) → match_in v p order ≡ none → All (λ k. matches v p (at k) ≡ false) order
  unfolding match_in
  match_in-none [] e = tt
  match_in-none (k ∷ order) e = elim (Bool-cases (matches v p (at k))) [
    | inl hit ↦ absurd (cc (rw hit at e))
    | inr miss ↦ (miss, match_in-none order (rw miss at e))
  ]

  match_in-All :
      (Q : BpvAdded → Type 0) (order : List ℕ) (a : BpvAdded)
      → All (λ k. Q (at k)) order
      → match_in v p order ≡ some a
      → Q a
  unfolding match_in
  match_in-All Q [] a h e = absurd (cc)
  match_in-All Q (k ∷ order) a (q, h) e = elim (Bool-cases (matches v p (at k))) [
    | inl hit ↦ let same : at k ≡ a = cc (rw hit at e) in subst Q same q
    | inr miss ↦ match_in-All Q order a h (rw miss at e)
  ]

  module _ (proper : AddedProper v) where
    -- What holds of every added record holds of a match.
    pub match_added-All :
        (Q : BpvAdded → Type 0) (a : BpvAdded) → All Q v.added → match_added v p ≡ some a → Q a
    unfolding match_added
    match_added-All Q a all e =
        match_in-All Q (longest_first v.added) a
          (longest_first-All v.added (λ k. Q (at k))
            (count_from-All (λ k. Q (at k)) 0 (length v.added)
              (λ k lo hi. All-get_or Q v.added k no_added all (omega arith))))
          (subst (λ l. match_in v p l ≡ some a) proper.ordered e)

    -- With proper added records, a match at the front of `p` is a record of the vocabulary
    -- whose bytes stand there, and no added record whose bytes stand there is longer.
    pub match_added_longest :
        (a : BpvAdded)
        → match_added v p ≡ some a
        → IsAdded v a
          × (matches v p a ≡ true)
          × All (λ b. matches v p b ≡ true → b.len ≤ a.len) v.added
    unfolding match_added
    match_added_longest a e =
        let hit : match_in v p (longest_first v.added) ≡ some a =
          subst (λ l. match_in v p l ≡ some a) proper.ordered e in
        let (found, longest) =
          match_in-some (longest_first v.added) a (longest_first-IsDescending v.added) hit in
        let everywhere =
          All-longest_first v.added (λ k. matches v p (at k) ≡ true → (at k).len ≤ a.len) longest in
        (
          match_added-All (IsAdded v) a proper.all_added e,
          found,
          All-places (λ b. matches v p b ≡ true → b.len ≤ a.len) v.added
              (λ k lt.
                All-count_from (λ k. matches v p (at k) ≡ true → (at k).len ≤ a.len) 0
                  (length v.added) k everywhere (omega arith) (omega arith)),
        )

    -- With proper added records, where no match is found no added record's bytes stand at the
    -- front of `p`.
    pub match_added-none : match_added v p ≡ none → All (λ b. matches v p b ≡ false) v.added
    unfolding match_added
    match_added-none e =
        let everywhere =
          All-longest_first v.added (λ k. matches v p (at k) ≡ false)
            (match_in-none (longest_first v.added)
              (subst (λ l. match_in v p l ≡ none) proper.ordered e)) in
        All-places (λ b. matches v p b ≡ false) v.added
          (λ k lt.
            All-count_from (λ k. matches v p (at k) ≡ false) 0 (length v.added) k everywhere
              (omega arith) (omega arith))
