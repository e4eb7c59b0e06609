-- ===== src/Scan/Run/Scalar.antt =====
-- src/bp_scan.c `run_letters` and `run_symbols` without the vector kernels: bounds of the run loops.
use bytepair.Base.{ℕ, zero, suc, ◌+◌, ◌<◌, ◌≤◌, ltb, if◌then◌else◌, Bool-cases}
use bytepair.Base.{Bool, true, false, ltb→lt, ltb→le, lt→ltb, le→ltb}
use bytepair.Base.{List, [], ◌∷◌, length, get_or, drop}
use bytepair.Base.{arith, ◌≡◌, refl, sym, ap, ◌∙◌, inl, inr, length-drop}
use bytepair.Utf8.{bp_utf8_next}
use bytepair.Utf8.Decode.{adv_bounds}
use bytepair.Scan.Kernel.{byte, first_failing}
use bytepair.Scan.Run.{extend}

-- Decoding inside the text moves on, and stays inside.
pub adv_inside :
    (t : List ℕ) (j : ℕ)
    → j < length t
    → (1 ≤ (bp_utf8_next (drop j t)).adv) × (j + (bp_utf8_next (drop j t)).adv ≤ length t)
adv_inside t j h =
    let (lo, hi) = adv_bounds (drop j t) (omega (arith, length-drop j t)) in
    (lo, omega (arith, hi, length-drop j t))

pub first_failing_lem :
    (test : ℕ → Bool) (l : List ℕ)
    → (first_failing test l ≤ length l)
      × ((first_failing test l < length l) → test (get_or l (first_failing test l) 0) ≡ false)
unfolding first_failing
first_failing_lem test [] = (omega arith, λ h. absurd (omega arith))
first_failing_lem test (b ∷ l) = elim (Bool-cases (test b)) [
  | inr fails ↦ rw fails (omega arith, λ h. fails)
  | inl passes ↦
      let (le, stop) = first_failing_lem test l in rw passes (omega arith, λ h. stop (omega arith))
]

module _ (kernel : List ℕ → ℕ → ℕ) (keeps : ℕ → Bool) (t : List ℕ) where
  abbrev pub scalar : ℕ → ℕ → ℕ
  scalar = extend kernel keeps false t

  -- The scalar round, on each of its branches.
  pub scalar_out : (fuel j : ℕ) → length t ≤ j → scalar fuel j ≡ j
  unfolding extend
  scalar_out zero j h = refl
  scalar_out (suc fuel) j h = rw (le→ltb _ _ h)

  pub scalar_stop : (fuel j : ℕ) → byte t j < 0x80 → keeps (byte t j) ≡ false → scalar fuel j ≡ j
  unfolding extend
  scalar_stop zero j a k = refl
  scalar_stop (suc fuel) j a k = elim (Bool-cases (ltb j (length t))) [
    | inr out ↦ rw out
    | inl in_text ↦ rw (in_text, lt→ltb _ _ a, k)
  ]

  pub scalar_next :
      (fuel j : ℕ)
      → j < length t
      → byte t j < 0x80
      → keeps (byte t j) ≡ true
      → scalar (suc fuel) j ≡ scalar fuel (j + 1)
  unfolding extend
  scalar_next fuel j h a k = rw (lt→ltb _ _ h, lt→ltb _ _ a, k)

  pub decoded_round :
      (simd : Bool) (fuel j : ℕ)
      → j < length t
      → 0x80 ≤ byte t j
      → extend kernel keeps simd t (suc fuel) j ≡ (
          if keeps (bp_utf8_next (drop j t)).cp
          then extend kernel keeps simd t fuel (j + (bp_utf8_next (drop j t)).adv)
          else j)
  unfolding extend
  decoded_round simd fuel j h a = rw (lt→ltb _ _ h, le→ltb _ _ a)

  -- The fuel does not matter once it covers the bytes left.
  pub scalar_fuel : (f g j : ℕ) → length t ≤ j + f → length t ≤ j + g → scalar f j ≡ scalar g j
  scalar_fuel zero g j hf hg = scalar_out 0 j (omega arith) ∙ sym (scalar_out g j (omega arith))
  scalar_fuel (suc f) zero j hf hg =
      scalar_out (suc f) j (omega arith) ∙ sym (scalar_out 0 j (omega arith))
  scalar_fuel (suc f) (suc g) j hf hg = elim (Bool-cases (ltb j (length t))) [
    | inr out ↦ scalar_out (suc f) j (ltb→le _ _ out) ∙ sym (scalar_out (suc g) j (ltb→le _ _ out))
    | inl in_text ↦
        let inside = ltb→lt _ _ in_text in
        elim (Bool-cases (ltb (byte t j) 0x80)) [
          | inr wide ↦
              let (more, _) = adv_inside t j inside in
              decoded_round false f j inside (ltb→le _ _ wide)
              ∙ ap (λ r. if keeps (bp_utf8_next (drop j t)).cp then r else j)
                  (scalar_fuel f g (j + (bp_utf8_next (drop j t)).adv) (omega arith) (omega arith))
              ∙ sym (decoded_round false g j inside (ltb→le _ _ wide))
          | inl ascii ↦ elim (Bool-cases (keeps (byte t j))) [
            | inr stop ↦
                scalar_stop (suc f) j (ltb→lt _ _ ascii) stop
                ∙ sym (scalar_stop (suc g) j (ltb→lt _ _ ascii) stop)
            | inl more ↦
                scalar_next f j inside (ltb→lt _ _ ascii) more
                ∙ scalar_fuel f g (j + 1) (omega arith) (omega arith)
                ∙ sym (scalar_next g j inside (ltb→lt _ _ ascii) more)
          ]
        ]
  ]

  -- A run never goes back, and never past the end.
  pub extend_bounds :
      (simd : Bool) (fuel j : ℕ)
      → ((i : ℕ) → i ≤ length t → (i ≤ kernel t i) × (kernel t i ≤ length t))
      → j ≤ length t
      → (j ≤ extend kernel keeps simd t fuel j) × (extend kernel keeps simd t fuel j ≤ length t)
  unfolding extend
  extend_bounds simd zero j hk h = (omega arith, h)
  extend_bounds simd (suc fuel) j hk h = elim (Bool-cases (ltb j (length t))) [
    | inr out ↦ rw out (omega arith, h)
    | inl in_text ↦ rw in_text (
        ground (
          arith,
          hk j h,
          adv_inside t j (ltb→lt _ _ in_text),
          extend_bounds simd fuel (kernel t j) hk,
          extend_bounds simd fuel (j + 1) hk,
          extend_bounds simd fuel (j + (bp_utf8_next (drop j t)).adv) hk,
        ))
  ]
