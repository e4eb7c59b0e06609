-- ===== src/Tables.antt =====
-- src/tables/bp_uctables.h and bp_uctables.c: the lookups over the generated Unicode arrays. The
-- arrays themselves are data that tools/gen_tables.py writes, and enter as a record.
pub mod Lookup
pub mod SelfTest
use bytepair.Base.{ℕ, ◌*◌, ◌/◌, ◌^◌, ◌<◌, ltb, leb, ◌==◌, if◌then◌else◌, ◌&&◌, ◌||◌, not, Bool}
use bytepair.Base.{List, get_or, bit_and, bit_or, ◌≡◌, ◌⊎◌}

pub record UcTables : Type 0 where
  pub cc_index : List ℕ
  pub cc_blocks : List ℕ
  pub ccc_index : List ℕ
  pub ccc_blocks : List ℕ
  pub qc_lo : List ℕ
  pub qc_hi : List ℕ
  pub qc_val : List ℕ
  pub decomp_cp : List ℕ
  pub decomp_off : List ℕ
  pub decomp_len : List ℕ
  pub decomp_pool : List ℕ
  pub compose_key : List ℕ
  pub compose_val : List ℕ

-- `BP_CC_L`, `BP_CC_N`, `BP_CC_S`, `BP_CC_NL`
abbrev pub cc_l : ℕ
cc_l = 1

abbrev pub cc_n : ℕ
cc_n = 2

abbrev pub cc_s : ℕ
cc_s = 4

abbrev pub cc_nl : ℕ
cc_nl = 8

-- `cl & bits`, as a condition
abbrev pub has : ℕ → ℕ → Bool
has cl bits = not (bit_and cl bits == 0)

-- The two-level lookup: blocks of 256 code points.
unfoldable pub two_level : List ℕ → List ℕ → ℕ → ℕ
two_level index blocks cp =
    if ltb 0x10FFFF cp
    then 0
    else get_or blocks (bit_or (get_or index (cp / 2 ^ 8) 0 * 2 ^ 8) (bit_and cp 0xFF)) 0

unfoldable pub bp_char_class : UcTables → ℕ → ℕ
bp_char_class u cp = two_level u.cc_index u.cc_blocks cp

unfoldable pub bp_ccc : UcTables → ℕ → ℕ
bp_ccc u cp = two_level u.ccc_index u.ccc_blocks cp

-- The class of an ASCII character, as the vector kernels know it.
unfoldable pub ascii_class : ℕ → ℕ
ascii_class b =
    if (leb b'A' b && leb b b'Z') || (leb b'a' b && leb b b'z')
    then 1
    else if leb b'0' b && leb b b'9'
    then 2
    else if b == 10 || b == 13
    then 12
    else if b == 32 || (leb 9 b && leb b 13)
    then 4
    else 0

-- What the generator guarantees of the class arrays: five values, and the ASCII rows.
pub record ClassesProper (u : UcTables) : Type 0 where
  pub values :
      (cp : ℕ)
      → (bp_char_class u cp ≡ 0)
        ⊎ (bp_char_class u cp ≡ 1)
        ⊎ (bp_char_class u cp ≡ 2)
        ⊎ (bp_char_class u cp ≡ 4)
        ⊎ (bp_char_class u cp ≡ 12)
  pub ascii : (b : ℕ) → b < 128 → bp_char_class u b ≡ ascii_class b
