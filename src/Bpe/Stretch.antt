-- ===== src/Bpe/Stretch.antt =====
-- src/bp_bpe.c `merge_short`: what a merge does to a stretch of the ids.
use bytepair.Base.{ℕ, zero, suc, ◌+◌, ◌<◌, ◌≤◌, List, [], ◌∷◌, ◌++◌, length, get_or, take, drop}
use bytepair.Base.{length-take, length-drop, get_or-drop, arith, ◌≡◌, refl, ap, ◌∙◌}
use bytepair.Bpe.{merge_at}

merge_at_next :
    (x : ℕ) (ids : List ℕ) (i id : ℕ) → merge_at (x ∷ ids) (suc i) id ≡ x ∷ merge_at ids i id
unfolding merge_at
merge_at_next x ids i id = ap (λ k. x ∷ (take i ids ++ (id ∷ drop k (x ∷ ids)))) two
  where
    two : suc i + 2 ≡ suc (i + 2)
    two = omega arith

-- The ids in front of a merge stay.
pub stretch_before :
    (ids : List ℕ) (i id a n : ℕ)
    → a + n ≤ i
    → suc i < length ids
    → take n (drop a (merge_at ids i id)) ≡ take n (drop a ids)
stretch_before ids i id zero zero h l = refl
stretch_before ids zero id zero (suc n) h l = absurd (omega arith)
stretch_before [] (suc i) id zero (suc n) h l = absurd (omega arith)
stretch_before (x ∷ ids) (suc i) id zero (suc n) h l =
    rw (merge_at_next x ids i id)
      (ap (λ r. x ∷ r) (stretch_before ids i id zero n (omega arith) (omega arith)))
stretch_before ids zero id (suc a) n h l = absurd (omega arith)
stretch_before [] (suc i) id (suc a) n h l = absurd (omega arith)
stretch_before (x ∷ ids) (suc i) id (suc a) n h l =
    rw (merge_at_next x ids i id) (stretch_before ids i id a n (omega arith) (omega arith))

-- The ids behind a merge move up by one.
pub stretch_behind :
    (ids : List ℕ) (i id a : ℕ)
    → i < a
    → suc i < length ids
    → drop a (merge_at ids i id) ≡ drop (suc a) ids
stretch_behind ids i id zero h l = absurd (omega arith)
stretch_behind [] i id (suc a) h l = absurd (omega arith)
stretch_behind (x ∷ []) i id (suc a) h l = absurd (omega arith)
stretch_behind (x ∷ y ∷ ids) zero id (suc a) h l = unfold merge_at in refl
stretch_behind (x ∷ y ∷ ids) (suc i) id (suc a) h l =
    rw (merge_at_next x (y ∷ ids) i id)
      (stretch_behind (y ∷ ids) i id a (omega arith) (omega arith))

take-merge_at :
    (ids : List ℕ) (j n id : ℕ)
    → j < n
    → suc j < length ids
    → take n (merge_at ids j id) ≡ merge_at (take (suc n) ids) j id
take-merge_at ids j zero id h l = absurd (omega arith)
take-merge_at [] j (suc n) id h l = absurd (omega arith)
take-merge_at (x ∷ []) j (suc n) id h l = absurd (omega arith)
take-merge_at (x ∷ y ∷ ids) zero (suc n) id h l = unfold merge_at in refl
take-merge_at (x ∷ y ∷ ids) (suc j) (suc n) id h l =
    rw (merge_at_next x (y ∷ ids) j id, merge_at_next x (take (suc n) (y ∷ ids)) j id)
      (ap (λ r. x ∷ r) (take-merge_at (y ∷ ids) j n id (omega arith) (omega arith)))

-- A merge inside a stretch is a merge of the stretch.
pub stretch_around :
    (ids : List ℕ) (i id a j n : ℕ)
    → i ≡ a + j
    → j < n
    → suc i < length ids
    → take n (drop a (merge_at ids i id)) ≡ merge_at (take (suc n) (drop a ids)) j id
stretch_around ids i id zero j n e h l =
    let same : i ≡ j = omega arith in rw same (take-merge_at ids j n id h (omega arith))
stretch_around [] i id (suc a) j n e h l = absurd (omega arith)
stretch_around (x ∷ ids) zero id (suc a) j n e h l = absurd (omega arith)
stretch_around (x ∷ ids) (suc i) id (suc a) j n e h l =
    rw (merge_at_next x ids i id) (stretch_around ids i id a j n (omega arith) h (omega arith))

abbrev pub stretch : List ℕ → ℕ → ℕ → List ℕ
stretch ids a n = take n (drop a ids)

get_or-take : (n k : ℕ) (xs : List ℕ) → k < n → get_or (take n xs) k 0 ≡ get_or xs k 0
get_or-take zero k xs h = absurd (omega arith)
get_or-take (suc n) k [] h = refl
get_or-take (suc n) zero (x ∷ xs) h = refl
get_or-take (suc n) (suc k) (x ∷ xs) h = get_or-take n k xs (omega arith)

pub get_or-stretch :
    (ids : List ℕ) (a n k : ℕ) → k < n → get_or (stretch ids a n) k 0 ≡ get_or ids (a + k) 0
get_or-stretch ids a n k h = get_or-take n k (drop a ids) h ∙ get_or-drop a k ids 0

pub length-stretch : (ids : List ℕ) (a n : ℕ) → a + n ≤ length ids → length (stretch ids a n) ≡ n
length-stretch ids a n h = omega (arith, length-take n (drop a ids), length-drop a ids)
