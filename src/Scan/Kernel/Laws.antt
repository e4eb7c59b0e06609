-- ===== src/Scan/Kernel/Laws.antt =====
-- src/bp_scan_avx2.c: the vector kernels and their byte loops.
use bytepair.Base.{ℕ, zero, suc, ◌+◌, ◌-◌, ◌<◌, ◌≤◌, ltb, Bool-cases}
use bytepair.Base.{Bool, true, false, ltb→lt, ltb→le, lt→ltb, all_below, all_below_sound}
use bytepair.Base.{List, [], ◌∷◌, length, take, drop, All, All-drop, All-take, drop_step, drop_all}
use bytepair.Base.{arith, ◌≡◌, refl, sym, ap, ◌∙◌, inl, inr, ◌⊎◌, length-drop, drop-drop}
use bytepair.Utf8.Laws.{IsByte}
use bytepair.Scan.Kernel.{
  byte, in_range, letter_lane, symbol_lane, letter_byte, symbol_byte, first_failing, byte_loop,
  vector_loop, letter_run_avx2, symbol_run_avx2,
}

unfoldable pub same : Bool → Bool → Bool
same true b = b
same false true = false
same false false = true

pub same→eq : (a b : Bool) → same a b ≡ true → a ≡ b
unfolding same
same→eq true b h = sym h
same→eq false true h = cc
same→eq false false h = refl

-- The lanes test what the byte loops test, on every byte.
letter_lane-eq : (b : ℕ) → b < 256 → letter_lane b ≡ letter_byte b
unfolding same letter_lane letter_byte in_range all_below
letter_lane-eq b h =
    same→eq _ _ (all_below_sound 256 (λ b. same (letter_lane b) (letter_byte b)) b refl h)

symbol_lane-eq : (b : ℕ) → b < 256 → symbol_lane b ≡ symbol_byte b
unfolding same symbol_lane symbol_byte in_range all_below
symbol_lane-eq b h =
    same→eq _ _ (all_below_sound 256 (λ b. same (symbol_lane b) (symbol_byte b)) b refl h)

module _ (test : ℕ → Bool) where
  -- A test on the first `n` elements either fails among them or says nothing of the rest.
  first_failing-take :
      (n : ℕ) (l : List ℕ)
      → n ≤ length l
      → ((first_failing test (take n l) < n)
          × (first_failing test l ≡ first_failing test (take n l)))
        ⊎ ((first_failing test (take n l) ≡ n)
            × (first_failing test l ≡ n + first_failing test (drop n l)))
  unfolding first_failing
  first_failing-take zero l h = inr (refl, omega arith)
  first_failing-take (suc n) [] h = absurd (omega arith)
  first_failing-take (suc n) (b ∷ l) h = elim (Bool-cases (test b)) [
    | inr fails ↦ rw fails (inl (omega arith, refl))
    | inl passes ↦ rw passes (elim (first_failing-take n l (omega arith)) [
      | inl (lt, e) ↦ inl (omega arith, ap suc e)
      | inr (all, e) ↦ inr (ap suc all, omega (arith, e))
    ])
  ]

  byte_loop-count :
      (fuel : ℕ) (t : List ℕ) (i : ℕ)
      → length t ≤ i + fuel
      → byte_loop test fuel t i ≡ i + first_failing test (drop i t)
  unfolding byte_loop first_failing
  byte_loop-count zero t i h = rw (drop_all i t (omega arith)) (omega arith)
  byte_loop-count (suc fuel) t i h = elim (Bool-cases (ltb i (length t))) [
    | inr out ↦ rw (out, drop_all i t (ltb→le _ _ out)) (omega arith)
    | inl in_text ↦
        rw (in_text, drop_step i t 0 (ltb→lt _ _ in_text))
          (elim (Bool-cases (test (byte t i))) [
            | inr fails ↦ rw fails (omega arith)
            | inl passes ↦ rw passes (omega (arith, byte_loop-count fuel t (i + 1) (omega arith)))
          ])
  ]

  module _ (lane : ℕ → Bool) (agree : (b : ℕ) → b < 256 → lane b ≡ test b) where
    first_failing-agree : (l : List ℕ) → All IsByte l → first_failing lane l ≡ first_failing test l
    unfolding first_failing
    first_failing-agree [] h = refl
    first_failing-agree (b ∷ l) (hb, h) = rw (agree b hb, first_failing-agree l h)

    vector_loop-count :
        (fuel : ℕ) (t : List ℕ) (i : ℕ)
        → All IsByte t
        → vector_loop lane test fuel t i ≡ i + first_failing test (drop i t)
    unfolding vector_loop
    vector_loop-count zero t i h = byte_loop-count (length t - i) t i (omega arith)
    vector_loop-count (suc fuel) t i h = elim (Bool-cases (ltb (length t) (i + 32))) [
      | inl short ↦ rw short (byte_loop-count (length t - i) t i (omega arith))
      | inr room ↦
          rw
            (
              room,
              first_failing-agree (take 32 (drop i t))
                  (All-take IsByte 32 _ (All-drop IsByte i t h)),
            )
            (elim (first_failing-take 32 (drop i t)
              (omega (arith, length-drop i t, ltb→le _ _ room))) [
                | inl (lt, e) ↦ rw (lt→ltb _ _ lt) (ap (λ k. i + k) (sym e))
                | inr (all, e) ↦ rw all (
                    vector_loop-count fuel t (i + 32) h
                    ∙ rw (← drop-drop 32 i t) (omega (arith, e)))
              ])
    ]

-- On a text of bytes the letter kernel stops at the first byte that is no ASCII letter, exactly
-- where its byte loop alone would stop.
pub letter_run_avx2-count :
    (t : List ℕ) (i : ℕ)
    → All IsByte t
    → letter_run_avx2 t i ≡ i + first_failing letter_byte (drop i t)
unfolding letter_run_avx2
letter_run_avx2-count t i h =
    vector_loop-count letter_byte letter_lane letter_lane-eq (length t) t i h

-- On a text of bytes the symbol kernel stops at the first byte that is no ASCII symbol, exactly
-- where its byte loop alone would stop.
pub symbol_run_avx2-count :
    (t : List ℕ) (i : ℕ)
    → All IsByte t
    → symbol_run_avx2 t i ≡ i + first_failing symbol_byte (drop i t)
unfolding symbol_run_avx2
symbol_run_avx2-count t i h =
    vector_loop-count symbol_byte symbol_lane symbol_lane-eq (length t) t i h
