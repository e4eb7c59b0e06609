-- ===== src/Census/Units.antt =====
-- src/bp_census.c `cp_unit` to `alignment_units`: the classes that the characters of a token may have,
-- where its first and its last bytes may be parts of characters.
use bytepair.Base.{ℕ, zero, suc, ◌+◌, ◌-◌, ◌*◌, ◌/◌, ◌^◌, ltb, leb, ◌==◌, if◌then◌else◌}
use bytepair.Base.{bit_and, bit_or, Bool, true, false, ◌&&◌, ◌||◌, not, Option, none, some}
use bytepair.Base.{List, [], ◌∷◌, ◌++◌, length, get_or, take, drop}
use bytepair.Utf8.{malformed, is_cont, bp_utf8_next}
use bytepair.Tables.{UcTables, bp_char_class, cc_l, cc_n, cc_s}
use bytepair.Tables.Lookup.{bp_nfc_qc}
use bytepair.Encode.{is_set}

-- `U_L` and the others
abbrev pub u_l : ℕ
u_l = 1

abbrev pub u_n : ℕ
u_n = 2

abbrev pub u_sp : ℕ
u_sp = 4

abbrev pub u_snl : ℕ
u_snl = 8

abbrev pub u_so : ℕ
u_so = 16

abbrev pub u_o : ℕ
u_o = 32

unfoldable pub unit_of_class : ℕ → ℕ
unit_of_class c =
    if is_set c cc_l
    then u_l
    else if is_set c cc_n
    then u_n
    else if is_set c cc_s
    then u_so
    else u_o

unfoldable pub cp_unit : UcTables → ℕ → ℕ
cp_unit u cp =
    if cp == 32
    then u_sp
    else if cp == 13 || cp == 10
    then u_snl
    else unit_of_class (bp_char_class u cp)

-- `bits` and `any_qcyes`
pub record Bits : Type 0 where
  pub bits : ℕ
  pub any_qcyes : Bool

abbrev pub no_bits : Bits
no_bits = record { bits = 0; any_qcyes = false }

-- `bits |= cp_unit_qc(cp, &any_qcyes)`
unfoldable pub cp_unit_qc : UcTables → ℕ → Bits → Bits
cp_unit_qc u cp b = record {
  bits = bit_or b.bits (cp_unit u cp);
  any_qcyes = not (bp_nfc_qc u cp == 0) || b.any_qcyes;
}

-- The class bits of a character, whether it never occurs in normal form, and its bytes.
pub record CharUnit : Type 0 where
  pub bits : ℕ
  pub qcno : Bool
  pub adv : ℕ

-- `none` where `bits` is 0.
unfoldable pub partial : Bits → ℕ → Option CharUnit
partial b adv =
    if b.bits == 0 then none else some (record { bits = b.bits; qcno = not b.any_qcyes; adv = adv })

-- `low = (low << 6) | (p[i] & 63)`
unfoldable pub low_bits : ℕ → List ℕ → ℕ
low_bits low [] = low
low_bits low (b ∷ p) = low_bits (bit_or (low * 2 ^ 6) (bit_and b 63)) p

unfoldable pub is_surrogate : ℕ → Bool
is_surrogate cp = leb 0xD800 cp && leb cp 0xDFFF

-- The loop over `high`, which stops behind `hi`.
unfoldable pub high_loop : UcTables → ℕ → ℕ → ℕ → ℕ → ℕ → ℕ → Bits → Bits
high_loop u k low lo hi zero high b = b
high_loop u k low lo hi (suc fuel) high b =
    let cp = bit_or (high * 2 ^ (6 * k)) low in
    let rest =
      high_loop u k low lo hi fuel (high + 1)
        (if ltb cp lo || is_surrogate cp then b else cp_unit_qc u cp b) in
    if ltb hi cp then b else rest

-- One round of the loop over `m`: the characters of `m` bytes.
unfoldable pub chars_of : UcTables → ℕ → ℕ → ℕ → Bits → Bits
chars_of u k low m b =
    let lo = if m == 2 then 0x80 else if m == 3 then 0x800 else 0x10000 in
    let hi = if m == 2 then 0x7FF else if m == 3 then 0xFFFF else 0x10FFFF in
    high_loop u k low lo hi (hi / 2 ^ (6 * k) + 2) 0 b

-- `for (m = k + 1; m <= 4; m++)`
unfoldable pub length_loop : UcTables → ℕ → ℕ → ℕ → ℕ → Bits → Bits
length_loop u k low zero m b = b
length_loop u k low (suc rounds) m b = length_loop u k low rounds (m + 1) (chars_of u k low m b)

unfoldable pub partial_prefix_bits : UcTables → List ℕ → ℕ → Option CharUnit
partial_prefix_bits u p k =
    partial (length_loop u k (low_bits 0 (take k p)) (4 - k) (k + 1) no_bits) k

unfoldable pub utf8_len_from_lead : ℕ → ℕ
utf8_len_from_lead b =
    if ltb b 0x80
    then 1
    else if leb 0xC2 b && leb b 0xDF
    then 2
    else if leb 0xE0 b && leb b 0xEF
    then 3
    else if leb 0xF0 b && leb b 0xF4
    then 4
    else 0

unfoldable pub all_cont : List ℕ → Bool
all_cont [] = true
all_cont (b ∷ p) = is_cont b && all_cont p

-- `0x80 | (v & 63)`
abbrev pub cont_of : ℕ → ℕ
cont_of v = bit_or 0x80 (bit_and v 63)

-- The last `n` bytes, from the low bits of `v` at the end.
unfoldable pub cont_tail : ℕ → ℕ → List ℕ
cont_tail zero v = []
cont_tail (suc n) v = cont_tail n (v / 2 ^ 6) ++ cont_of v ∷ []

-- `for (c = 0; c < combos; c++)`
unfoldable pub combo_loop : UcTables → List ℕ → ℕ → ℕ → ℕ → Bits → Bits
combo_loop u p need zero c b = b
combo_loop u p need (suc rounds) c b =
    let s = bp_utf8_next (p ++ cont_tail (need - length p) c) in
    combo_loop u p need rounds (c + 1)
      (if not (s.cp == malformed) && s.adv == need then cp_unit_qc u s.cp b else b)

-- The list ends with the `have` bytes.
unfoldable pub partial_suffix_bits : UcTables → List ℕ → Option CharUnit
partial_suffix_bits u p =
    let need = utf8_len_from_lead (get_or p 0 0) in
    if need == 0 || leb need (length p)
    then none
    else if not (all_cont (drop 1 p))
    then none
    else partial (combo_loop u p need (64 ^ (need - length p)) 0 no_bits) (length p)

-- A round of the `while (i < n)`.
unfoldable pub next_unit : UcTables → List ℕ → Option CharUnit
next_unit u p =
    let need = utf8_len_from_lead (get_or p 0 0) in
    let s = bp_utf8_next p in
    if need == 0
    then none
    else if leb need (length p)
    then (if s.cp == malformed || not (s.adv == need)
        then none
        else some (record { bits = cp_unit u s.cp; qcno = bp_nfc_qc u s.cp == 0; adv = s.adv }))
    else partial_suffix_bits u p

abbrev pub max_units : ℕ
max_units = 260

unfoldable pub put_unit : CharUnit → Option (List CharUnit) → Option (List CharUnit)
put_unit x none = none
put_unit x (some xs) = some (x ∷ xs)

-- `m` units stand in front. A round takes a byte at least.
unfoldable pub unit_loop : UcTables → ℕ → ℕ → List ℕ → Option (List CharUnit)
unit_loop u zero m p = some []
unit_loop u (suc fuel) m [] = some []
unit_loop u (suc fuel) m (b ∷ p) = elim (next_unit u (b ∷ p)) [
  | none ↦ none
  | some x ↦
      put_unit x (if leb max_units m then none else unit_loop u fuel (m + 1) (drop x.adv (b ∷ p)))
]

unfoldable pub with_lead : UcTables → List ℕ → Option CharUnit → Option (List CharUnit)
with_lead u t none = none
with_lead u t (some x) = put_unit x (unit_loop u (length t) 1 (drop x.adv t))

-- The units, or `none` for 0. The list is not empty.
unfoldable pub alignment_units : UcTables → List ℕ → ℕ → Option (List CharUnit)
alignment_units u t lead_k =
    let units =
      if lead_k == 0
      then unit_loop u (length t) 0 t
      else if not (all_cont (take lead_k t))
      then none
      else with_lead u t (partial_prefix_bits u t lead_k) in
    elim units [ none ↦ none | some xs ↦ if length xs == 0 then none else some xs ]
