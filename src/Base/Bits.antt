-- ===== src/Base/Bits.antt =====
-- Masks and disjoint fields as arithmetic, at every width.
use Prim.Native.Nat.{ℕ, zero, suc, ◌+◌, ◌-◌, ◌*◌, ◌/◌, ◌%◌, ◌^◌, ◌≤◌, ◌<◌, min, max}
use Prim.Native.Nat.{bit_and, bit_or, digits, bit_and-bitwise, bit_or-bitwise}
use mathlib.Core.Path.{◌≡◌, refl, sym, ap, ◌∙◌}
use native.Mathlib.Omega.{arith}
use native.Mathlib.Nat.{pow-suc, one-le-pow}

module _ (low : ℕ → ℕ) (op : ℕ → ℕ → ℕ) where
  -- Two runs of the digit recursion agree where both have fuel for the first number.
  enough_fuel : (k l x y : ℕ) → x ≤ k → x ≤ l → digits low op k x y ≡ digits low op l x y
  enough_fuel zero zero x y hk hl = refl
  enough_fuel zero (suc l) zero y hk hl = refl
  enough_fuel (suc k) zero zero y hk hl = refl
  enough_fuel (suc k) (suc l) zero y hk hl = refl
  enough_fuel zero (suc l) (suc x) y hk hl = absurd (omega (arith, hk))
  enough_fuel (suc k) zero (suc x) y hk hl = absurd (omega (arith, hl))
  enough_fuel (suc k) (suc l) (suc x) y hk hl =
      ap (λ d. d * 2 + op (suc x % 2) (y % 2))
        (enough_fuel k l (suc x / 2) (y / 2) (omega (arith, hk)) (omega (arith, hl)))

  -- A digit off a number that has one.
  lowest_digit :
      (x y : ℕ)
      → digits low op (suc x) (suc x) y
        ≡ digits low op (suc x / 2) (suc x / 2) (y / 2) * 2 + op (suc x % 2) (y % 2)
  lowest_digit x y =
      ap (λ d. d * 2 + op (suc x % 2) (y % 2))
        (enough_fuel x (suc x / 2) (suc x / 2) (y / 2) (omega arith) (omega arith))

pub and_low : (a b : ℕ) → bit_and a b ≡ bit_and (a / 2) (b / 2) * 2 + min (a % 2) (b % 2)
and_low zero b = omega (arith, bit_and-bitwise 0 (b / 2), bit_and-bitwise 0 b)
and_low (suc x) b =
    bit_and-bitwise (suc x) b
    ∙ lowest_digit (λ y. 0) min x b
    ∙ ap (λ d. d * 2 + min (suc x % 2) (b % 2)) (sym (bit_and-bitwise (suc x / 2) (b / 2)))

pub or_low : (a b : ℕ) → bit_or a b ≡ bit_or (a / 2) (b / 2) * 2 + max (a % 2) (b % 2)
or_low zero b = omega (arith, bit_or-bitwise 0 (b / 2), bit_or-bitwise 0 b)
or_low (suc x) b =
    bit_or-bitwise (suc x) b
    ∙ lowest_digit (λ y. y) max x b
    ∙ ap (λ d. d * 2 + max (suc x % 2) (b % 2)) (sym (bit_or-bitwise (suc x / 2) (b / 2)))

-- Halving reaches zero: both laws go up from `x / 2` to `x`.
or_zero_below : (k x : ℕ) → x ≤ k → bit_or x 0 ≡ x
or_zero_below k zero hk = refl
or_zero_below (suc k) (suc x) hk =
    omega (arith, or_zero_below k (suc x / 2) (omega arith), or_low (suc x) 0)
or_zero_below zero (suc x) hk = absurd (omega (arith, hk))

and_zero_below : (k x : ℕ) → x ≤ k → bit_and x 0 ≡ 0
and_zero_below k zero hk = refl
and_zero_below (suc k) (suc x) hk =
    omega (arith, and_zero_below k (suc x / 2) (omega arith), and_low (suc x) 0)
and_zero_below zero (suc x) hk = absurd (omega (arith, hk))

twice_shift : (q k : ℕ) → q * 2 ^ suc k ≡ 2 * (q * 2 ^ k)
twice_shift q k = omega (arith, ap (λ (t : ℕ). q * t) (pow-suc 2 k))

-- `(q << k) | r` is a sum when `r` fits in `k` bits.
pub or_shift : (k q r : ℕ) → r < 2 ^ k → bit_or (q * 2 ^ k) r ≡ q * 2 ^ k + r
or_shift zero q r h = ground (arith, or_zero_below q q (omega arith))
or_shift (suc k) q r h =
    ground (arith, or_low (q * 2 ^ suc k) r, twice_shift q k, or_shift k q (r / 2) (omega arith))

-- The same with the high field as one number.
pub or_disjoint : (k q x r : ℕ) → x ≡ q * 2 ^ k → r < 2 ^ k → bit_or x r ≡ x + r
or_disjoint k q x r e h = rw e (or_shift k q r h)

and_shift : (k q r : ℕ) → r < 2 ^ k → bit_and (q * 2 ^ k + r) (2 ^ k - 1) ≡ r
and_shift zero q r h = ground (arith, and_zero_below (q * 1 + r) (q * 1 + r) (omega arith))
and_shift (suc k) q r h = ground (
  arith,
  and_low (q * 2 ^ suc k + r) (2 ^ suc k - 1),
  twice_shift q k,
  pow-suc 2 k,
  and_shift k q (r / 2) (omega arith),
)

-- `a & (2^k - 1)` is the remainder by `2^k`.
pub and_mask : (k a : ℕ) → bit_and a (2 ^ k - 1) ≡ a % 2 ^ k
and_mask k a = ground (arith, one-le-pow k 2, and_shift k (a / 2 ^ k) (a % 2 ^ k))
