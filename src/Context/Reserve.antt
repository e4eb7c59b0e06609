-- ===== src/Context/Reserve.antt =====
-- src/bp_util.c: the doubling loop and the reserve calls.
use native.Mathlib.Nat.{pow-suc}
use bytepair.Base.{ℕ, zero, suc, ◌+◌, ◌-◌, ◌*◌, ◌%◌, ◌^◌, ◌<◌, ◌≤◌, ◌==◌, if◌then◌else◌}
use bytepair.Base.{Bool, true, Bool-cases, leb, some}
use bytepair.Base.{arith, ◌≡◌, refl, ap, inl, inr}
use bytepair.Context.{grow, size_bits, bp_buf_reserve, bp_ids_reserve}

double : (cap k : ℕ) → cap * 2 ^ suc k ≡ cap * 2 * 2 ^ k
double cap k = omega (arith, ap (λ (t : ℕ). cap * t) (pow-suc 2 k))

-- Below 2^63 no doubling wraps, and the loop stops at less than twice what is needed.
grow_bounds :
    (fuel need cap : ℕ)
    → need ≤ 2 ^ 63
    → need ≤ cap * 2 ^ fuel
    → (need ≤ grow fuel need cap) × (grow fuel need cap < 2 * need + 1 + (cap - 2 * need))
unfolding grow
grow_bounds zero need cap small enough = (omega arith, omega arith)
grow_bounds (suc fuel) need cap small enough =
    ground (arith, double cap fuel, grow_bounds fuel need (cap * 2 % size_bits) small)

-- For a need up to 2^63, a capacity that `bp_buf_reserve` returns is enough: 64 doublings pass
-- every such need.
pub bp_buf_reserve_enough :
    (alloc : ℕ → Bool) (cap need : ℕ) {cap' : ℕ}
    → need ≤ 2 ^ 63
    → bp_buf_reserve alloc cap need ≡ some cap'
    → need ≤ cap'
unfolding bp_buf_reserve
bp_buf_reserve_enough alloc cap need small e =
    ground (arith, grow_bounds 64 need (if cap == 0 then 4096 else cap) small)

-- For a need up to 2^63, a capacity that `bp_ids_reserve` returns is enough: 64 doublings pass
-- every such need.
pub bp_ids_reserve_enough :
    (alloc : ℕ → Bool) (ids_cap need : ℕ) {cap' : ℕ}
    → need ≤ 2 ^ 63
    → bp_ids_reserve alloc ids_cap need ≡ some cap'
    → need ≤ cap'
unfolding bp_ids_reserve
bp_ids_reserve_enough alloc ids_cap need small e =
    ground (arith, grow_bounds 64 need (if ids_cap == 0 then 1024 else ids_cap) small)

-- Every block that is asked for is found.
abbrev pub IsGranting : (ℕ → Bool) → Type 0
IsGranting alloc = (n : ℕ) → alloc n ≡ true

pub bp_buf_reserve_granted :
    (alloc : ℕ → Bool) (cap need : ℕ)
    → IsGranting alloc
    → (cap' : ℕ) × (bp_buf_reserve alloc cap need ≡ some cap')
unfolding bp_buf_reserve
bp_buf_reserve_granted alloc cap need grants = elim (Bool-cases (leb need cap)) [
  | inl enough ↦ (cap, rw enough refl)
  | inr small ↦
      let cap' = grow 64 need (if cap == 0 then 4096 else cap) in
      (cap', rw (small, grants cap') refl)
]

pub bp_ids_reserve_granted :
    (alloc : ℕ → Bool) (cap need : ℕ)
    → IsGranting alloc
    → (cap' : ℕ) × (bp_ids_reserve alloc cap need ≡ some cap')
unfolding bp_ids_reserve
bp_ids_reserve_granted alloc cap need grants = elim (Bool-cases (leb need cap)) [
  | inl enough ↦ (cap, rw enough refl)
  | inr small ↦
      let cap' = grow 64 need (if cap == 0 then 1024 else cap) in
      (cap', rw (small, grants (cap' * 4 % size_bits)) refl)
]
