-- ===== src/Scan/Bounds.antt =====
-- src/bp_scan.c: where a pretoken may end.
use bytepair.Base.{ℕ, ◌+◌, ◌-◌, ◌<◌, ◌≤◌, ltb, ◌==◌, if◌then◌else◌, Bool-cases}
use bytepair.Base.{Bool, true, false, ◌&&◌, not}
use bytepair.Base.{List, length, All, arith, ◌≡◌, refl, inl, inr}
use bytepair.Utf8.Laws.{IsByte}
use bytepair.Tables.{UcTables, has, cc_l, cc_n, cc_s, cc_nl, ClassesProper}
use bytepair.Scan.Kernel.{byte, letter_run_avx2, symbol_run_avx2}
use bytepair.Scan.Run.Scalar.{extend_bounds}
use bytepair.Scan.Run.Laws.{kernel_bounds}
use bytepair.Scan.Simd.{letters, symbols}
use bytepair.Scan.{
  peek, is_letter, is_symbol, run_letters, run_symbols, run_newlines, try_contraction, rest_end,
  word_end, span_end,
}
use bytepair.Scan.Spaces.{
  Within, try_contraction_bounds, peek_bounds, peek_ascii, peek-IsClass, space_left,
  run_newlines_bounds, space_end_bounds,
}

module _ (u : UcTables) (proper : ClassesProper u) (simd : Bool) (t : List ℕ)
    (bytes : All IsByte t) where
  run_letters_bounds :
      (j : ℕ) → j ≤ length t → (j ≤ run_letters u simd t j) × (run_letters u simd t j ≤ length t)
  unfolding run_letters
  run_letters_bounds j h =
      extend_bounds letter_run_avx2 (is_letter u) t simd (length t - j) j
        (kernel_bounds (letters u proper) t bytes) h

  run_symbols_bounds :
      (j : ℕ) → j ≤ length t → (j ≤ run_symbols u simd t j) × (run_symbols u simd t j ≤ length t)
  unfolding run_symbols
  run_symbols_bounds j h =
      extend_bounds symbol_run_avx2 (is_symbol u) t simd (length t - j) j
        (kernel_bounds (symbols u proper) t bytes) h

  symbols_end_bounds :
      (i j : ℕ)
      → Within t i j
      → Within t i (run_newlines t (length t - run_symbols u simd t j) (run_symbols u simd t j))
  symbols_end_bounds i j (h, h') = omega (
    arith,
    run_symbols_bounds j h',
    run_newlines_bounds t (length t - run_symbols u simd t j) (run_symbols u simd t j)
        (run_symbols_bounds j h').1,
  )

  rest_end_bounds :
      (i : ℕ)
      → i < length t
      → has (peek u t i).cl cc_l ≡ false
      → (have_nx : Bool) → (have_nx ≡ true → i + (peek u t i).adv < length t)
      → Within t i (rest_end u simd t i (peek u t i) have_nx (peek u t (i + (peek u t i).adv)))
  unfolding rest_end
  rest_end_bounds i h no_letter have_nx next = elim (Bool-cases (has (peek u t i).cl cc_n)) [
    | inl number ↦ rw number (peek_bounds u t i h)
    | inr no_number ↦ rw no_number (elim (Bool-cases (spaced)) [
      | inl both ↦ rw both (symbols_end_bounds i (i + 1 + (peek u t after).adv) (two both))
      | inr single ↦ rw single (elim (Bool-cases (not (has (peek u t i).cl (cc_l + cc_n + cc_s)))) [
        | inl symbol ↦ rw symbol (symbols_end_bounds i after (peek_bounds u t i h))
        | inr other ↦ rw other (
            space_end_bounds u t i h (
              space_left (peek u t i).cl (peek-IsClass u t i proper) no_letter no_number
                (not_not _ other)))
      ])
    ])
  ]
    where
      after : ℕ
      after = i + (peek u t i).adv

      spaced : Bool
      spaced = byte t i == b' ' && have_nx && not (has (peek u t after).cl (cc_l + cc_n + cc_s))

      not_not : (b : Bool) → not b ≡ false → b ≡ true
      not_not true e = refl
      not_not false e = cc

      two : spaced ≡ true → Within t i (i + 1 + (peek u t after).adv)
      two e = ground (arith, peek_ascii u t i, next, peek_bounds u t after)

  -- For proper class tables and a text of bytes, with or without the vector kernels, a pretoken
  -- that starts inside the text ends behind its start, and not past the end of the text.
  pub span_end_bounds : (i : ℕ) → i < length t → Within t i (span_end u simd t i)
  unfolding span_end word_end
  span_end_bounds i h =
      elim (Bool-cases ((if byte t i == 39 then try_contraction t i else 0) == 0)) [
        | inr some_match ↦ rw some_match (ground (arith, try_contraction_bounds t i))
        | inl no_match ↦ rw no_match (elim (Bool-cases (has (peek u t i).cl cc_l)) [
          | inl letter ↦ rw letter (omega (arith, first, run_letters_bounds after first.1))
          | inr no_letter ↦ rw no_letter (elim (Bool-cases (prefixed)) [
            | inl word ↦ rw word (
                let second = peek_bounds u t after (inner word) in
                omega (
                  arith,
                  first,
                  second,
                  run_letters_bounds (after + (peek u t after).adv) second.1,
                ))
            | inr other ↦ rw other (rest_end_bounds i h no_letter have_nx (λ e. ground arith))
          ])
        ])
      ]
    where
      after : ℕ
      after = i + (peek u t i).adv

      first : Within t i after
      first = peek_bounds u t i h

      have_nx : Bool
      have_nx = not (has (peek u t i).cl (cc_l + cc_n + cc_nl)) && ltb after (length t)

      prefixed : Bool
      prefixed = have_nx && has (peek u t after).cl cc_l

      inner : prefixed ≡ true → after < length t
      inner e = ground arith
