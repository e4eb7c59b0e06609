-- ===== src/Base/Slots.antt =====
-- Lists read and written at an index: writes, swaps, cuts, and what they permute.
use Prim.Native.Nat.{ℕ, zero, suc, ◌<◌}
use mathlib.Core.Path.{◌≡◌, refl, ap, ◌∙◌}
use mathlib.Core.Logic.{∥∥₁_elim}
use mathlib.Core.List.{List, [], ◌∷◌, ◌++◌, Permᴰ, Perm, Mem, not-mem-nil, forall_mem-cons}
use mathlib.Core.List.Perm
use native.Mathlib.Nat.{ℕ_set}
use native.Mathlib.Omega.{arith}
use bytepair.Base.Tests.{◌==◌, if◌then◌else◌}
use bytepair.Base.Lists.{length, get_or, set, take}

module _ {ℓ} {A : Type ℓ} where
  pub get_or-set :
      (xs : List A) (i j : ℕ) (v d : A)
      → i < length xs
      → get_or (set xs i v) j d ≡ (if i == j then v else get_or xs j d)
  get_or-set [] i j v d h = absurd (omega arith)
  get_or-set (x ∷ xs) zero zero v d h = refl
  get_or-set (x ∷ xs) zero (suc j) v d h = ground arith
  get_or-set (x ∷ xs) (suc i) zero v d h = ground arith
  get_or-set (x ∷ xs) (suc i) (suc j) v d h = ground (arith, get_or-set xs i j v d)

  pub get_or-take :
      (n : ℕ) (xs : List A) (i : ℕ) (d : A) → i < n → get_or (take n xs) i d ≡ get_or xs i d
  get_or-take zero xs i d h = absurd (omega arith)
  get_or-take (suc n) [] i d h = refl
  get_or-take (suc n) (x ∷ xs) zero d h = refl
  get_or-take (suc n) (x ∷ xs) (suc i) d h = get_or-take n xs i d (omega arith)

  pub get_or-append_left :
      (xs ys : List A) (i : ℕ) (d : A) → i < length xs → get_or (xs ++ ys) i d ≡ get_or xs i d
  get_or-append_left [] ys i d h = absurd (omega arith)
  get_or-append_left (x ∷ xs) ys zero d h = refl
  get_or-append_left (x ∷ xs) ys (suc i) d h = get_or-append_left xs ys i d (omega arith)

  pub length-Perm : {xs ys : List A} → Perm xs ys → length xs ≡ length ys
  length-Perm p = ∥∥₁_elim p (ℕ_set _ _) same
    where
      same : {xs ys : List A} → Permᴰ xs ys → length xs ≡ length ys
      same Permᴰ.nil = refl
      same (Permᴰ.cons e p) = ap suc (same p)
      same (Permᴰ.swap e f) = refl
      same (Permᴰ.trans p q) = same p ∙ same q

  -- A write puts one element in the place of another.
  pub set-Perm :
      (xs : List A) (i : ℕ) (v d : A) → i < length xs → Perm (get_or xs i d ∷ set xs i v) (v ∷ xs)
  set-Perm [] i v d h = absurd (omega arith)
  set-Perm (x ∷ xs) zero v d h = Perm.swap v x xs
  set-Perm (x ∷ xs) (suc i) v d h =
      Perm.trans (Perm.swap x (get_or xs i d) (set xs i v))
        (Perm.trans (Perm.cons x (set-Perm xs i v d (omega arith))) (Perm.swap v x xs))

  -- The last element, moved to the front.
  pub last-Perm :
      (n : ℕ) (xs : List A) (d : A) → length xs ≡ suc n → Perm (get_or xs n d ∷ take n xs) xs
  last-Perm zero (x ∷ []) d h = Perm.rfl
  last-Perm (suc n) (x ∷ xs) d h =
      Perm.trans (Perm.swap x (get_or xs n d) (take n xs))
        (Perm.cons x (last-Perm n xs d (omega arith)))
  last-Perm n xs d h = absurd (omega arith)

  -- A property of all the elements, from the one at each index.
  pub each_of_mem {κ} :
      (P : A → Type κ) (proper : (x : A) → IsProp (P x)) (xs : List A) (d : A)
      → ((i : ℕ) → i < length xs → P (get_or xs i d))
      → (x : A) → Mem x xs
      → P x
  each_of_mem P proper [] d h = λ x m. absurd (not-mem-nil m)
  each_of_mem P proper (y ∷ xs) d h =
      (forall_mem-cons proper).1
        (h 0 (omega arith), each_of_mem P proper xs d λ i lt. h (suc i) (omega arith))
