-- ===== src/Cli/Bench/Stride.antt =====
-- cli/main.c `bench_worker`: the documents `first`, `first + step`, ... of all threads together.
use bytepair.Base.{ℕ, zero, suc, ◌+◌, ◌-◌, ◌*◌, ◌<◌, ◌≤◌, ltb, if◌then◌else◌, Bool-cases, ltb→le}
use native.Mathlib.Nat.{suc-mul}
use bytepair.Base.{arith, ◌≡◌, refl, ap, sym, ◌∙◌, inl, inr, le→ltb, lt→ltb}

-- The sum of `f` at `k` numbers from `a` on.
abbrev pub sum_from : (ℕ → ℕ) → ℕ → ℕ → ℕ
sum_from f a zero = 0
sum_from f a (suc k) = f a + sum_from f (a + 1) k

-- What a thread sums up.
unfoldable pub stride : (ℕ → ℕ) → ℕ → ℕ → ℕ → ℕ → ℕ
stride f n k zero d = 0
stride f n k (suc fuel) d =
    let rest = stride f n k fuel (d + k) in if ltb d n then f d + rest else 0

sum_from-same :
    (f g : ℕ → ℕ) (a k : ℕ)
    → ((d : ℕ) → a ≤ d → d < a + k → f d ≡ g d)
    → sum_from f a k ≡ sum_from g a k
sum_from-same f g a zero same = refl
sum_from-same f g a (suc k) same = omega (
  arith,
  same a (omega arith) (omega arith),
  sum_from-same f g (a + 1) k λ d lo hi. same d (omega arith) (omega arith),
)

sum_from-zero : (a k : ℕ) → sum_from (λ d. 0) a k ≡ 0
sum_from-zero a zero = refl
sum_from-zero a (suc k) = omega (arith, sum_from-zero (a + 1) k)

sum_from-add :
    (f g : ℕ → ℕ) (a k : ℕ) → sum_from (λ d. f d + g d) a k ≡ sum_from f a k + sum_from g a k
sum_from-add f g a zero = omega arith
sum_from-add f g a (suc k) = omega (arith, sum_from-add f g (a + 1) k)

sum_from-shift : (f : ℕ → ℕ) (a k s : ℕ) → sum_from (λ d. f (d + s)) a k ≡ sum_from f (a + s) k
sum_from-shift f a zero s = refl
sum_from-shift f a (suc k) s =
    ap (λ r. f (a + s) + r)
      (sum_from-shift f (a + 1) k s
        ∙ ap (λ b. sum_from f b k) {x = a + 1 + s} {y = a + s + 1} (omega arith))

sum_from-append :
    (f : ℕ → ℕ) (a m k : ℕ) → sum_from f a (m + k) ≡ sum_from f a m + sum_from f (a + m) k
sum_from-append f a zero k =
    ap (sum_from f a) {x = 0 + k} {y = k} (omega arith)
    ∙ ap (λ b. sum_from f b k) {x = a} {y = a + 0} (omega arith)
    ∙ omega arith
sum_from-append f a (suc m) k =
    ap (sum_from f a) {x = suc m + k} {y = suc (m + k)} (omega arith)
    ∙ omega (
      arith,
      sum_from-append f (a + 1) m k,
      ap (λ b. sum_from f b k) {x = a + 1 + m} {y = a + suc m} (omega arith),
    )

module _ (f : ℕ → ℕ) (n k : ℕ) where
  -- `f` below `n`, nothing from there on.
  abbrev below : ℕ → ℕ
  below d = if ltb d n then f d else 0

  stride_out : (fuel d : ℕ) → n ≤ d → stride f n k fuel d ≡ 0
  unfolding stride
  stride_out zero d out = refl
  stride_out (suc fuel) d out = rw (le→ltb d n out) refl

  stride_step : (fuel d : ℕ) → stride f n k (suc fuel) d ≡ below d + stride f n k fuel (d + k)
  unfolding stride
  stride_step fuel d = elim (Bool-cases (ltb d n)) [
    | inl inside ↦ rw inside refl
    | inr out ↦ rw (out, stride_out fuel (d + k) (omega (arith, ltb→le _ _ out))) refl
  ]

  mul_step : (fuel : ℕ) → k + fuel * k ≡ suc fuel * k
  mul_step fuel = omega (arith, suc-mul fuel k)

  threads-below : (fuel a : ℕ) → sum_from (stride f n k fuel) a k ≡ sum_from below a (fuel * k)
  unfolding stride
  threads-below zero a = sum_from-zero a k ∙ ap (sum_from below a) {x = 0} {y = 0 * k} (omega arith)
  threads-below (suc fuel) a =
      sum_from-same (stride f n k (suc fuel)) (λ d. below d + stride f n k fuel (d + k)) a k
        (λ d lo hi. stride_step fuel d)
      ∙ sum_from-add below (λ d. stride f n k fuel (d + k)) a k
      ∙ ap (λ r. sum_from below a k + r)
          (sum_from-shift (stride f n k fuel) a k k ∙ threads-below fuel (a + k))
      ∙ sym (sum_from-append below a k (fuel * k))
      ∙ ap (sum_from below a) {x = k + fuel * k} {y = suc fuel * k} (mul_step fuel)

  -- All threads together sum up every document once.
  pub threads-all : (fuel : ℕ) → n ≤ fuel * k → sum_from (stride f n k fuel) 0 k ≡ sum_from f 0 n
  threads-all fuel enough =
      let rest : n + (fuel * k - n) ≡ fuel * k = omega arith in
      threads-below fuel 0
      ∙ ap (sum_from below 0) (sym rest)
      ∙ sum_from-append below 0 n (fuel * k - n)
      ∙ omega (
        arith,
        sum_from-same below f 0 n λ d lo hi. rw (lt→ltb d n (omega arith)) refl,
        sum_from-same below (λ d. 0) (0 + n) (fuel * k - n)
            λ d lo hi. rw (le→ltb d n (omega arith)) refl,
        sum_from-zero (0 + n) (fuel * k - n),
      )
