-- ===== src/Scan/Simd.antt =====
-- src/bp_scan.c: the spans with the vector kernels and without.
use bytepair.Base.{ℕ, ◌+◌, ◌-◌, ◌<◌, ltb, ◌==◌, Bool-cases}
use bytepair.Base.{true, false, ◌&&◌, not, all_below, all_below_sound, ltb→lt}
use bytepair.Base.{List, length, All, arith, ◌≡◌, refl, ◌∙◌, inl, inr}
use bytepair.Utf8.{malformed}
use bytepair.Utf8.Laws.{IsByte}
use bytepair.Tables.{UcTables, has, cc_l, cc_n, cc_s, ascii_class, ClassesProper}
use bytepair.Scan.Kernel.{letter_byte, symbol_byte, letter_run_avx2, symbol_run_avx2}
use bytepair.Scan.Kernel.Laws.{same, same→eq, letter_run_avx2-count, symbol_run_avx2-count}
use bytepair.Scan.Run.Laws.{Counts, vector-eq-scalar}
use bytepair.Scan.{is_letter, is_symbol, run_letters, run_symbols, rest_end, word_end, span_end}

letter_table : (b : ℕ) → b < 256 → letter_byte b ≡ (ltb b 0x80 && has (ascii_class b) cc_l)
unfolding same letter_byte ascii_class all_below
letter_table b h = same→eq _ _ (
    all_below_sound 256 (λ b. same (letter_byte b) (ltb b 0x80 && has (ascii_class b) cc_l)) b refl
      h)

symbol_table :
    (b : ℕ)
    → b < 256
    → symbol_byte b ≡ (ltb b 0x80 && not (has (ascii_class b) (cc_l + cc_n + cc_s)))
unfolding same symbol_byte ascii_class all_below
symbol_table b h = same→eq _ _ (
    all_below_sound 256
      (λ b. same (symbol_byte b) (ltb b 0x80 && not (has (ascii_class b) (cc_l + cc_n + cc_s)))) b
      refl h)

module _ (u : UcTables) (proper : ClassesProper u) where
  pub letters : Counts letter_run_avx2 (is_letter u) letter_byte
  unfolding is_letter
  letters = record {
    counts = letter_run_avx2-count;
    ascii = λ b h. letter_table b h ∙ elim (Bool-cases (ltb b 0x80)) [
      | inr wide ↦ rw wide
      | inl narrow ↦ rw (narrow, proper.ascii b (ltb→lt _ _ narrow), ordinary b (ltb→lt _ _ narrow))
    ];
  }
    where
      ordinary : (b : ℕ) → b < 128 → (b == malformed) ≡ false
      ordinary b h = ground arith

  pub symbols : Counts symbol_run_avx2 (is_symbol u) symbol_byte
  unfolding is_symbol
  symbols = record {
    counts = symbol_run_avx2-count;
    ascii = λ b h. symbol_table b h ∙ elim (Bool-cases (ltb b 0x80)) [
      | inr wide ↦ rw wide
      | inl narrow ↦ rw (narrow, proper.ascii b (ltb→lt _ _ narrow), ordinary b (ltb→lt _ _ narrow))
    ];
  }
    where
      ordinary : (b : ℕ) → b < 128 → (b == malformed) ≡ false
      ordinary b h = ground arith

  module _ (t : List ℕ) (bytes : All IsByte t) where
    run_letters-simd : (j : ℕ) → run_letters u true t j ≡ run_letters u false t j
    unfolding run_letters
    run_letters-simd j = vector-eq-scalar letters t bytes (length t - j) j (omega arith)

    run_symbols-simd : (j : ℕ) → run_symbols u true t j ≡ run_symbols u false t j
    unfolding run_symbols
    run_symbols-simd j = vector-eq-scalar symbols t bytes (length t - j) j (omega arith)

    -- On any text of bytes, malformed or not, and at any position, the vector kernels change no span.
    pub span_end-simd : (i : ℕ) → span_end u true t i ≡ span_end u false t i
    unfolding span_end word_end rest_end
    span_end-simd i = simp (run_letters-simd, run_symbols-simd)
