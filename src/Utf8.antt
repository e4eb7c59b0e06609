-- ===== src/Utf8.antt =====
-- src/bp_util.c `bp_utf8_next` and the encoder at the end of src/bp_nfc.c `bp_nfc`.
-- A pointer `p` with its limit `end` is the list of the bytes from `p` up to `end`.
pub mod Laws
pub mod Decode
use bytepair.Base.{ℕ, ◌-◌, ◌*◌, ◌/◌, ◌%◌, ◌^◌, bit_and, bit_or}
use bytepair.Base.{Bool, ◌&&◌, ◌||◌, not, ltb, leb, ◌==◌, if◌then◌else◌}
use bytepair.Base.{List, [], ◌∷◌, length, get_or}

-- The code point 0xFFFFFFFF that stands for a malformed byte.
abbrev pub malformed : ℕ
malformed = 0xFFFFFFFF

-- What the call returns, and what it stores in `*adv`.
pub record Step : Type 0 where
  pub cp : ℕ
  pub adv : ℕ

-- `goto bad`
abbrev pub bad : Step
bad = record { cp = malformed; adv = 1 }

-- `(b & 0xC0) == 0x80`
unfoldable pub is_cont : ℕ → Bool
is_cont b = bit_and b 0xC0 == 0x80

abbrev byte : List ℕ → ℕ → ℕ
byte p i = get_or p i 0

-- The masks keep every operand of `<<` below 2^6, so no shift leaves 32 bits.
unfoldable pub code_point_of_two : ℕ → ℕ → ℕ
code_point_of_two a b = bit_or (bit_and a 0x1F * 2 ^ 6) (bit_and b 0x3F)

unfoldable pub code_point_of_three : ℕ → ℕ → ℕ → ℕ
code_point_of_three a b c =
    bit_or (bit_or (bit_and a 0x0F * 2 ^ 12) (bit_and b 0x3F * 2 ^ 6)) (bit_and c 0x3F)

unfoldable pub code_point_of_four : ℕ → ℕ → ℕ → ℕ → ℕ
code_point_of_four a b c d =
    bit_or
      (bit_or (bit_or (bit_and a 0x07 * 2 ^ 18) (bit_and b 0x3F * 2 ^ 12)) (bit_and c 0x3F * 2 ^ 6))
      (bit_and d 0x3F)

-- `b0 < 0xE0`
unfoldable pub lead_of_two : List ℕ → Step
lead_of_two p =
    if ltb (length p) 2 || not (is_cont (byte p 1))
    then bad
    else record { cp = code_point_of_two (byte p 0) (byte p 1); adv = 2 }

-- `b0 < 0xF0`: overlong forms and surrogates are refused.
unfoldable pub lead_of_three : List ℕ → Step
lead_of_three p =
    if ltb (length p) 3 || not (is_cont (byte p 1)) || not (is_cont (byte p 2))
    then bad
    else (let cp = code_point_of_three (byte p 0) (byte p 1) (byte p 2) in
        if ltb cp 0x800 || (leb 0xD800 cp && leb cp 0xDFFF)
        then bad
        else record { cp = cp; adv = 3 })

-- `b0 < 0xF5`
unfoldable pub lead_of_four : List ℕ → Step
lead_of_four p =
    if ltb (length p) 4
      || not (is_cont (byte p 1))
      || not (is_cont (byte p 2))
      || not (is_cont (byte p 3))
    then bad
    else (let cp = code_point_of_four (byte p 0) (byte p 1) (byte p 2) (byte p 3) in
        if ltb cp 0x10000 || ltb 0x10FFFF cp then bad else record { cp = cp; adv = 4 })

unfoldable pub bp_utf8_next : List ℕ → Step
bp_utf8_next p =
    let b0 = byte p 0 in
    if ltb b0 0x80
    then record { cp = b0; adv = 1 }
    else if ltb b0 0xC2
    then bad
    else if ltb b0 0xE0
    then lead_of_two p
    else if ltb b0 0xF0
    then lead_of_three p
    else if ltb b0 0xF5
    then lead_of_four p
    else bad

-- One entry of the encoder's loop: a sentinel 0x110000 + byte is its byte again.
unfoldable pub encode_cp : ℕ → List ℕ
encode_cp cp =
    if leb 0x110000 cp
    then ((cp - 0x110000) % 256) ∷ []
    else if ltb cp 0x80
    then cp ∷ []
    else if ltb cp 0x800
    then bit_or 0xC0 (cp / 2 ^ 6 % 256) ∷ bit_or 0x80 (bit_and cp 0x3F) ∷ []
    else if ltb cp 0x10000
    then bit_or 0xE0 (cp / 2 ^ 12 % 256)
      ∷ bit_or 0x80 (bit_and (cp / 2 ^ 6) 0x3F)
      ∷ bit_or 0x80 (bit_and cp 0x3F)
      ∷ []
    else bit_or 0xF0 (cp / 2 ^ 18 % 256)
      ∷ bit_or 0x80 (bit_and (cp / 2 ^ 12) 0x3F)
      ∷ bit_or 0x80 (bit_and (cp / 2 ^ 6) 0x3F)
      ∷ bit_or 0x80 (bit_and cp 0x3F)
      ∷ []
