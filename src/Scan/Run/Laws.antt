-- ===== src/Scan/Run/Laws.antt =====
-- src/bp_scan.c `run_letters` and `run_symbols`: the vector kernels in the run loops.
use bytepair.Base.{ℕ, zero, suc, ◌+◌, ◌<◌, ◌≤◌, ltb, leb, if◌then◌else◌, Bool-cases}
use bytepair.Base.{Bool, true, false, ltb→lt, ltb→le, lt→ltb, le→ltb, leb→le, leb→lt, ◌||◌, ◌&&◌}
use bytepair.Base.{List, length, drop, All, drop_step, drop_all, get_or-drop, All-get_or}
use bytepair.Base.{arith, ◌≡◌, refl, sym, ap, ◌∙◌, inl, inr, length-drop}
use bytepair.Utf8.{bp_utf8_next}
use bytepair.Utf8.Laws.{IsByte}
use bytepair.Scan.Kernel.{byte, first_failing}
use bytepair.Scan.Run.{extend}
use bytepair.Scan.Run.Scalar.{
  scalar, adv_inside, first_failing_lem, scalar_out, scalar_stop, scalar_next, decoded_round,
  scalar_fuel,
}

-- `test` is what the kernel counts: the ASCII bytes on which the run goes on.
pub record Counts (kernel : List ℕ → ℕ → ℕ) (keeps test : ℕ → Bool) : Type 0 where
  pub counts : (t : List ℕ) (i : ℕ) → All IsByte t → kernel t i ≡ i + first_failing test (drop i t)
  pub ascii : (b : ℕ) → b < 256 → test b ≡ (ltb b 0x80 && keeps b)

module _ {kernel : List ℕ → ℕ → ℕ} {keeps test : ℕ → Bool} (k : Counts kernel keeps test)
    (t : List ℕ) (bytes : All IsByte t) where
  abbrev reached : ℕ → ℕ
  reached j = j + first_failing test (drop j t)

  reached_inside : (j : ℕ) → j ≤ length t → reached j ≤ length t
  reached_inside j h = omega (arith, (first_failing_lem test (drop j t)).0, length-drop j t)

  reached_fails : (j : ℕ) → reached j < length t → test (byte t (reached j)) ≡ false
  reached_fails j h =
      rw (← get_or-drop j (first_failing test (drop j t)) t 0)
        ((first_failing_lem test (drop j t)).1 (omega (arith, length-drop j t)))

  pub kernel_bounds : (j : ℕ) → j ≤ length t → (j ≤ kernel t j) × (kernel t j ≤ length t)
  kernel_bounds j h = rw (k.counts t j bytes) (omega arith, reached_inside j h)

  reached_out : (j : ℕ) → length t ≤ j → reached j ≡ j
  unfolding first_failing
  reached_out j h = rw (drop_all j t h) (omega arith)

  reached_here : (j : ℕ) → j < length t → test (byte t j) ≡ false → reached j ≡ j
  unfolding first_failing
  reached_here j h fails = rw (drop_step j t 0 h, fails) (omega arith)

  reached_next : (j : ℕ) → j < length t → test (byte t j) ≡ true → reached j ≡ reached (j + 1)
  unfolding first_failing
  reached_next j h passes = rw (drop_step j t 0 h, passes) (omega arith)

  byte_small : (j : ℕ) → j < length t → byte t j < 256
  byte_small j h = All-get_or IsByte t j 0 bytes h

  passes_ascii : (b : ℕ) → b < 256 → test b ≡ true → (b < 0x80) × (keeps b ≡ true)
  passes_ascii b small h = ground (arith, k.ascii b)

  fails_ascii : (b : ℕ) → b < 0x80 → test b ≡ false → keeps b ≡ false
  fails_ascii b lt h = ground (arith, k.ascii b)

  -- The scalar loop walks over what the kernel skips.
  scalar_skips :
      (fuel j : ℕ)
      → length t ≤ j + fuel
      → scalar kernel keeps t fuel j ≡ scalar kernel keeps t fuel (reached j)
  scalar_skips zero j h = ap (scalar kernel keeps t 0) (sym (reached_out j (omega arith)))
  scalar_skips (suc fuel) j h = elim (Bool-cases (ltb j (length t))) [
    | inr out ↦ ap (scalar kernel keeps t (suc fuel)) (sym (reached_out j (ltb→le _ _ out)))
    | inl in_text ↦
        let inside = ltb→lt _ _ in_text in
        elim (Bool-cases (test (byte t j))) [
          | inr fails ↦ ap (scalar kernel keeps t (suc fuel)) (sym (reached_here j inside fails))
          | inl passes ↦
              let (ascii, more) = passes_ascii (byte t j) (byte_small j inside) passes in
              scalar_next kernel keeps t fuel j inside ascii more
              ∙ scalar_skips fuel (j + 1) (omega arith)
              ∙ ap (scalar kernel keeps t fuel) (sym (reached_next j inside passes))
              ∙ scalar_fuel kernel keeps t fuel (suc fuel) (reached j)
                  (omega (arith, reached_next j inside passes))
                  (omega (arith, reached_next j inside passes))
        ]
  ]

  vector_round :
      (fuel j : ℕ)
      → j < length t
      → byte t j < 0x80
      → extend kernel keeps true t (suc fuel) j ≡ (
          if leb (length t) (reached j) || ltb (byte t (reached j)) 0x80
          then reached j
          else extend kernel keeps true t fuel (reached j))
  unfolding extend
  vector_round fuel j h a = rw (lt→ltb _ _ h, lt→ltb _ _ a, k.counts t j bytes)

  -- Where the vector round stops, so does the scalar loop.
  scalar_stops :
      (fuel j : ℕ)
      → (leb (length t) (reached j) || ltb (byte t (reached j)) 0x80) ≡ true
      → scalar kernel keeps t fuel (reached j) ≡ reached j
  scalar_stops fuel j h = elim (Bool-cases (leb (length t) (reached j))) [
    | inl out ↦ scalar_out kernel keeps t fuel (reached j) (leb→le _ _ out)
    | inr more ↦
        let inside = leb→lt _ _ more in
        let ascii = ltb→lt _ _ (rw more at h) in
        scalar_stop kernel keeps t fuel (reached j) ascii
          (fails_ascii (byte t (reached j)) ascii (reached_fails j inside))
  ]

  -- A vector round that goes on has moved.
  moved : (j : ℕ) → j < length t → byte t j < 0x80 → 0x80 ≤ byte t (reached j) → j < reached j
  moved j inside ascii wide = elim (Bool-cases (test (byte t j))) [
    | inl passes ↦ omega (arith, reached_next j inside passes)
    | inr fails ↦ absurd (omega (arith, ap (byte t) (reached_here j inside fails)))
  ]

  vector_out : (fuel j : ℕ) → length t ≤ j → extend kernel keeps true t fuel j ≡ j
  unfolding extend
  vector_out zero j h = refl
  vector_out (suc fuel) j h = rw (le→ltb _ _ h)

  -- The loop with the kernel ends where the scalar loop ends.
  pub vector-eq-scalar :
      (fuel j : ℕ)
      → length t ≤ j + fuel
      → extend kernel keeps true t fuel j ≡ scalar kernel keeps t fuel j
  vector-eq-scalar zero j h =
      vector_out 0 j (omega arith) ∙ sym (scalar_out kernel keeps t 0 j (omega arith))
  vector-eq-scalar (suc fuel) j h = elim (Bool-cases (ltb j (length t))) [
    | inr out ↦
        vector_out (suc fuel) j (ltb→le _ _ out)
        ∙ sym (scalar_out kernel keeps t (suc fuel) j (ltb→le _ _ out))
    | inl in_text ↦
        let inside = ltb→lt _ _ in_text in
        elim (Bool-cases (ltb (byte t j) 0x80)) [
          | inr wide ↦
              let (more, _) = adv_inside t j inside in
              decoded_round kernel keeps t true fuel j inside (ltb→le _ _ wide)
              ∙ ap (λ r. if keeps (bp_utf8_next (drop j t)).cp then r else j)
                  (vector-eq-scalar fuel (j + (bp_utf8_next (drop j t)).adv) (omega arith))
              ∙ sym (decoded_round kernel keeps t false fuel j inside (ltb→le _ _ wide))
          | inl narrow ↦
              let ascii = ltb→lt _ _ narrow in
              vector_round fuel j inside ascii
              ∙ elim (Bool-cases (leb (length t) (reached j) || ltb (byte t (reached j)) 0x80)) [
                | inl stops ↦
                    rw stops (sym (scalar_skips (suc fuel) j h ∙ scalar_stops (suc fuel) j stops))
                | inr goes ↦ rw goes (
                    let far = moved j inside ascii (wide_end j goes) in
                    vector-eq-scalar fuel (reached j) (omega arith)
                    ∙ scalar_fuel kernel keeps t fuel (suc fuel) (reached j) (omega arith)
                        (omega arith)
                    ∙ sym (scalar_skips (suc fuel) j h))
              ]
        ]
  ]
    where
      wide_end :
          (j : ℕ)
          → (leb (length t) (reached j) || ltb (byte t (reached j)) 0x80) ≡ false
          → 0x80 ≤ byte t (reached j)
      wide_end j h = ground arith
