-- ===== src/Samples/Classes.antt =====
-- A class table for the examples, with what the generator guarantees of one.
use bytepair.Base.{
  count_from, ℕ, zero, suc, ◌*◌, ◌/◌, ◌%◌, ◌^◌, ◌<◌, ltb, ◌==◌, if◌then◌else◌, ==_iff, Bool, true,
}
use bytepair.Base.{
  Bool-cases, all_below, all_below_sound, bit_and, bit_or, and_mask, or_disjoint, le→ltb,
}
use bytepair.Base.{[], ◌∷◌, get_or, map, arith, ◌≡◌, refl, ◌∙◌, ◌⊎◌, inl, inr, ◌||◌}
use bytepair.Tables.{UcTables, bp_char_class, two_level, ascii_class, ClassesProper}

-- Every block of code points gets the classes of the first, which are zero past ASCII.
abbrev class_of_low : ℕ → ℕ
class_of_low b = if ltb b 128 then ascii_class b else 0

abbrev pub sample_tables : UcTables
sample_tables = record {
  cc_index = 0 ∷ [];
  cc_blocks = map class_of_low (count_from 0 256);
  ccc_index = 0 ∷ [];
  ccc_blocks = [];
  qc_lo = [];
  qc_hi = [];
  qc_val = [];
  decomp_cp = [];
  decomp_off = [];
  decomp_len = [];
  decomp_pool = [];
  compose_key = [];
  compose_val = [];
}

abbrev is_class : ℕ → Bool
is_class c = c == 0 || (c == 1 || (c == 2 || (c == 4 || c == 12)))

class_cases : (c : ℕ) → is_class c ≡ true → (c ≡ 0) ⊎ (c ≡ 1) ⊎ (c ≡ 2) ⊎ (c ≡ 4) ⊎ (c ≡ 12)
class_cases c h = ground arith

rows : all_below 256 (λ b. is_class (get_or sample_tables.cc_blocks b 0)) ≡ true
unfolding all_below ascii_class
rows = refl

low_rows : all_below 128 (λ b. get_or sample_tables.cc_blocks b 0 == ascii_class b) ≡ true
unfolding all_below ascii_class
low_rows = refl

no_block : (i : ℕ) → get_or sample_tables.cc_index i 0 ≡ 0
no_block zero = refl
no_block (suc i) = refl

row_of :
    (cp : ℕ)
    → bit_or (get_or sample_tables.cc_index (cp / 2 ^ 8) 0 * 2 ^ 8) (bit_and cp 255) ≡ cp % 256
row_of cp =
    rw (no_block (cp / 2 ^ 8), and_mask 8 cp)
      (or_disjoint 8 0 0 (cp % 256) refl (omega arith) ∙ omega arith)

sample-class :
    (cp : ℕ)
    → bp_char_class sample_tables cp
      ≡ (if ltb 0x10FFFF cp then 0 else get_or sample_tables.cc_blocks (cp % 256) 0)
unfolding bp_char_class two_level
sample-class cp = rw (row_of cp)

low_class : (b : ℕ) → b < 128 → bp_char_class sample_tables b ≡ ascii_class b
low_class b h =
    rw (sample-class b, le→ltb 0x10FFFF b (omega arith), within)
      ((==_iff _ _).0 (
        all_below_sound 128 (λ x. get_or sample_tables.cc_blocks x 0 == ascii_class x) b low_rows
          h))
  where
    within : b % 256 ≡ b
    within = omega arith

pub sample-ClassesProper : ClassesProper sample_tables
sample-ClassesProper = record {
  values = λ cp. elim (Bool-cases (ltb 0x10FFFF cp)) [
    | inl e ↦ inl (sample-class cp ∙ rw e)
    | inr e ↦
        rw (sample-class cp, e)
          (class_cases _ (
            all_below_sound 256 (λ b. is_class (get_or sample_tables.cc_blocks b 0)) (cp % 256) rows
              (omega arith)))
  ];
  ascii = λ b h. low_class b h;
}
