-- ===== src/Base/Memory.antt =====
-- A block of memory as a list: `memcpy` into it at an offset, cell by cell.
use Prim.Native.Nat.{ℕ, zero, suc, ◌+◌, ◌-◌, ◌≤◌}
use mathlib.Core.Path.{◌≡◌, refl, ap, ◌∙◌}
use mathlib.Core.List.{List, [], ◌∷◌, ◌++◌}
use native.Mathlib.Nat.{zero-add}
use native.Mathlib.Omega.{arith}
use bytepair.Base.Lists.{
  length, set, take, drop, length-set, length-take, take-append_right, take-append_left, take_all,
  drop-append_right, drop-drop,
}

module _ {ℓ} {A : Type ℓ} where
  -- Cells past the end of the block are not written.
  unfoldable pub write_at : List A → ℕ → List A → List A
  write_at buf i [] = buf
  write_at buf i (x ∷ xs) = write_at (set buf i x) (suc i) xs

  pub length-write_at :
      (buf : List A) (i : ℕ) (xs : List A) → length (write_at buf i xs) ≡ length buf
  unfolding write_at
  length-write_at buf i [] = refl
  length-write_at buf i (x ∷ xs) = length-write_at (set buf i x) (suc i) xs ∙ length-set buf i x

  -- A write inside the block replaces just the cells that it covers.
  write_at-cons :
      (b : A) (buf : List A) (i : ℕ) (xs : List A)
      → write_at (b ∷ buf) (suc i) xs ≡ b ∷ write_at buf i xs
  unfolding write_at
  write_at-cons b buf i [] = refl
  write_at-cons b buf i (x ∷ xs) = write_at-cons b (set buf i x) (suc i) xs

  pub write_at_lem :
      (buf : List A) (i : ℕ) (xs : List A)
      → i + length xs ≤ length buf
      → write_at buf i xs ≡ take i buf ++ (xs ++ drop (length xs) (drop i buf))
  unfolding write_at
  write_at_lem buf zero [] h = refl
  write_at_lem [] zero (x ∷ xs) h = absurd (omega arith)
  write_at_lem (b ∷ buf) zero (x ∷ xs) h =
      write_at-cons x buf 0 xs ∙ ap (λ t. x ∷ t) (write_at_lem buf 0 xs (omega arith))
  write_at_lem [] (suc i) xs h = absurd (omega arith)
  write_at_lem (b ∷ buf) (suc i) xs h =
      write_at-cons b buf i xs ∙ ap (λ t. b ∷ t) (write_at_lem buf i xs (omega arith))

  -- The cells in front of the write stay, and the written ones follow them.
  pub take-write_at :
      (buf : List A) (i : ℕ) (xs : List A)
      → i + length xs ≤ length buf
      → take (i + length xs) (write_at buf i xs) ≡ take i buf ++ xs
  take-write_at buf i xs h = rw (write_at_lem buf i xs h) (
      take-append_right (i + length xs) (take i buf) _ (omega (arith, length-take i buf))
      ∙ ap (λ t. take i buf ++ t)
          (rw exact
            (take-append_left (length xs) xs _ (omega arith) ∙ take_all _ xs (omega arith))))
    where
      exact : i + length xs - length (take i buf) ≡ length xs
      exact = omega (arith, length-take i buf)

  pub take-write_at_start :
      (buf xs : List A) → length xs ≤ length buf → take (length xs) (write_at buf 0 xs) ≡ xs
  take-write_at_start buf xs h = rw zero-add at (take-write_at buf 0 xs (omega arith))

  -- So do the cells behind it.
  pub drop-write_at :
      (buf : List A) (i : ℕ) (xs : List A)
      → i + length xs ≤ length buf
      → drop (i + length xs) (write_at buf i xs) ≡ drop (i + length xs) buf
  drop-write_at buf i xs h = rw (write_at_lem buf i xs h) (
      drop-append_right (i + length xs) (take i buf) _ (omega (arith, length-take i buf))
      ∙ rw exact (
          drop-append_right (length xs) xs _ (omega arith)
          ∙ rw nothing (drop-drop (length xs) i buf)))
    where
      exact : i + length xs - length (take i buf) ≡ length xs
      exact = omega (arith, length-take i buf)

      nothing : length xs - length xs ≡ 0
      nothing = omega arith

-- `n` numbers from `i` on.
abbrev pub count_from : ℕ → ℕ → List ℕ
count_from i zero = []
count_from i (suc n) = i ∷ count_from (suc i) n

-- `n` cells as `calloc` leaves them.
abbrev pub zeros : ℕ → List ℕ
zeros zero = []
zeros (suc n) = 0 ∷ zeros n
