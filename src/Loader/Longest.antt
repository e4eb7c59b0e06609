-- ===== src/Loader/Longest.antt =====
-- src/bp_vocab.c: the insertion sort of `added_order`.
use mathlib.Core.List.{reverse_aux}
use bytepair.Base.{ℕ, zero, suc, ◌+◌, ◌≤◌, ltb, Bool-cases, ltb→lt, ltb→le, count_from}
use bytepair.Base.{List, [], ◌∷◌, length, All, arith, ◌≡◌, refl, ap, inl, inr}
use bytepair.Vocab.{BpvAdded}
use bytepair.Loader.Matcher.{len_at, insert_place, sort_loop, longest_first}

pub All-map {ℓ} :
    {A : Type ℓ} {P Q : A → Type 0} (xs : List A) → ((x : A) → P x → Q x) → All P xs → All Q xs
All-map [] f h = tt
All-map (x ∷ xs) f (p, h) = (f x p, All-map xs f h)

module _ (added : List BpvAdded) where
  -- The nearest entry first: none in front of it is shorter.
  abbrev IsFront : List ℕ → Type 0
  IsFront [] = Unit
  IsFront (k ∷ front) = All (λ x. len_at added k ≤ len_at added x) front × IsFront front

  -- No entry behind is longer.
  abbrev pub IsDescending : List ℕ → Type 0
  IsDescending [] = Unit
  IsDescending (k ∷ order) = All (λ x. len_at added x ≤ len_at added k) order × IsDescending order

  module _ (P : ℕ → Type 0) where
    insert_place-All :
        (k : ℕ) (front : List ℕ) → P k → All P front → All P (insert_place added k front)
    unfolding insert_place
    insert_place-All k [] pk h = (pk, tt)
    insert_place-All k (x ∷ front) pk (px, h) =
        elim (Bool-cases (ltb (len_at added x) (len_at added k))) [
          | inl e ↦ rw e (px, insert_place-All k front pk h)
          | inr e ↦ rw e (pk, (px, h))
        ]

    All-insert_place :
        (k : ℕ) (front : List ℕ) → All P (insert_place added k front) → P k × All P front
    unfolding insert_place
    All-insert_place k [] (pk, h) = (pk, tt)
    All-insert_place k (x ∷ front) h = elim (Bool-cases (ltb (len_at added x) (len_at added k))) [
      | inl e ↦
          let (px, rest) = rw e at h in
          let (pk, pf) = All-insert_place k front rest in (pk, (px, pf))
      | inr e ↦ rw e at h
    ]

    reverse_aux-All : (front acc : List ℕ) → All P front → All P acc → All P (reverse_aux front acc)
    reverse_aux-All [] acc h k = k
    reverse_aux-All (x ∷ front) acc (px, h) k = reverse_aux-All front (x ∷ acc) h (px, k)

    All-reverse_aux : (front acc : List ℕ) → All P (reverse_aux front acc) → All P front × All P acc
    All-reverse_aux [] acc h = (tt, h)
    All-reverse_aux (x ∷ front) acc h =
        let (pf, (px, pa)) = All-reverse_aux front (x ∷ acc) h in ((px, pf), pa)

    sort_loop-All :
        (front order : List ℕ) → All P front → All P order → All P (sort_loop added front order)
    unfolding sort_loop
    sort_loop-All front [] h k = reverse_aux-All front [] h tt
    sort_loop-All front (x ∷ order) h (px, k) =
        sort_loop-All (insert_place added x front) order (insert_place-All x front px h) k

    All-sort_loop :
        (front order : List ℕ) → All P (sort_loop added front order) → All P front × All P order
    unfolding sort_loop
    All-sort_loop front [] h = ((All-reverse_aux front [] h).0, tt)
    All-sort_loop front (x ∷ order) h =
        let (inserted, rest) = All-sort_loop (insert_place added x front) order h in
        let (px, pf) = All-insert_place x front inserted in (pf, (px, rest))

    -- The sort keeps what holds of all entries, and loses none.
    pub longest_first-All : All P (count_from 0 (length added)) → All P (longest_first added)
    unfolding longest_first
    longest_first-All h = sort_loop-All [] (count_from 0 (length added)) tt h

    pub All-longest_first : All P (longest_first added) → All P (count_from 0 (length added))
    unfolding longest_first
    All-longest_first h = (All-sort_loop [] (count_from 0 (length added)) h).1

  insert_place-IsFront :
      (k : ℕ) (front : List ℕ) → IsFront front → IsFront (insert_place added k front)
  unfolding insert_place
  insert_place-IsFront k [] h = (tt, tt)
  insert_place-IsFront k (x ∷ front) (f, h) =
      elim (Bool-cases (ltb (len_at added x) (len_at added k))) [
        | inl e ↦ rw e (
          insert_place-All (λ y. len_at added x ≤ len_at added y) k front
              (omega (arith, ltb→lt _ _ e)) f,
          insert_place-IsFront k front h,
        )
        | inr e ↦
            let le = ltb→le _ _ e in
            rw e ((le, All-map front (λ y p. omega (arith, le, p)) f), (f, h))
      ]

  -- Every entry of `front` is as long as every one of `acc`.
  abbrev Above : List ℕ → List ℕ → Type 0
  Above front acc = All (λ x. All (λ y. len_at added y ≤ len_at added x) acc) front

  Above-cons :
      (x : ℕ) (front acc : List ℕ)
      → All (λ y. len_at added x ≤ len_at added y) front
      → Above front acc
      → Above front (x ∷ acc)
  Above-cons x [] acc f h = tt
  Above-cons x (y ∷ front) acc (le, f) (p, h) = ((le, p), Above-cons x front acc f h)

  reverse_aux-IsDescending :
      (front acc : List ℕ)
      → IsFront front
      → IsDescending acc
      → Above front acc
      → IsDescending (reverse_aux front acc)
  reverse_aux-IsDescending [] acc h k a = k
  reverse_aux-IsDescending (x ∷ front) acc (f, h) k (p, a) =
      reverse_aux-IsDescending front (x ∷ acc) h (p, k) (Above-cons x front acc f a)

  Above-nil : (front : List ℕ) → Above front []
  Above-nil [] = tt
  Above-nil (x ∷ front) = (tt, Above-nil front)

  sort_loop-IsDescending :
      (front order : List ℕ) → IsFront front → IsDescending (sort_loop added front order)
  unfolding sort_loop
  sort_loop-IsDescending front [] h = reverse_aux-IsDescending front [] h tt (Above-nil front)
  sort_loop-IsDescending front (x ∷ order) h =
      sort_loop-IsDescending (insert_place added x front) order (insert_place-IsFront x front h)

  pub longest_first-IsDescending : IsDescending (longest_first added)
  unfolding longest_first
  longest_first-IsDescending = sort_loop-IsDescending [] (count_from 0 (length added)) tt

  length-insert_place :
      (k : ℕ) (front : List ℕ) → length (insert_place added k front) ≡ suc (length front)
  unfolding insert_place
  length-insert_place k [] = refl
  length-insert_place k (x ∷ front) = elim (Bool-cases (ltb (len_at added x) (len_at added k))) [
    | inl e ↦ rw e (ap suc (length-insert_place k front))
    | inr e ↦ rw e refl
  ]

  length-reverse_aux :
      (front acc : List ℕ) → length (reverse_aux front acc) ≡ length front + length acc
  length-reverse_aux [] acc = omega arith
  length-reverse_aux (x ∷ front) acc = omega (arith, length-reverse_aux front (x ∷ acc))

  length-sort_loop :
      (front order : List ℕ) → length (sort_loop added front order) ≡ length front + length order
  unfolding sort_loop
  length-sort_loop front [] = length-reverse_aux front []
  length-sort_loop front (x ∷ order) =
      omega
        (arith, length-sort_loop (insert_place added x front) order, length-insert_place x front)

  length-count_from : (i n : ℕ) → length (count_from i n) ≡ n
  length-count_from i zero = refl
  length-count_from i (suc n) = ap suc (length-count_from (suc i) n)

  pub length-longest_first : length (longest_first added) ≡ length added
  unfolding longest_first
  length-longest_first =
      omega (
        arith,
        length-sort_loop [] (count_from 0 (length added)),
        length-count_from 0 (length added),
      )
