-- ===== src/Utf8/Laws.antt =====
-- UTF-8 byte by byte: the arithmetic that the reader and the writer share.
use bytepair.Base.{ℕ, ◌+◌, ◌*◌, ◌/◌, ◌%◌, ◌^◌, ◌<◌, bit_and, bit_or}
use bytepair.Base.{◌&&◌, ltb, leb, if◌then◌else◌, all_below, table_eq}
use bytepair.Base.{List, [], ◌∷◌, arith, and_mask, or_shift, or_disjoint}
use bytepair.Base.{◌≡◌, refl, ◌⊎◌}
use bytepair.Utf8.{is_cont, code_point_of_two, code_point_of_three, code_point_of_four, encode_cp}

abbrev pub IsByte : ℕ → Type 0
IsByte b = b < 256

-- A code point that is not a surrogate.
abbrev pub IsScalar : ℕ → Type 0
IsScalar cp = (cp < 0x110000) × ((cp < 0xD800) ⊎ (0xDFFF < cp))

top_bits : (b : ℕ) → b < 256 → bit_and b 0xC0 ≡ b / 64 * 64
top_bits = table_eq 256 (λ b. bit_and b 0xC0) (λ b. b / 64 * 64) (unfold all_below in refl)

pub is_cont_iff : (b : ℕ) → b < 256 → is_cont b ≡ (leb 128 b && ltb b 192)
unfolding is_cont
is_cont_iff b h = ground (arith, top_bits b h)

pub two_arith : (a b : ℕ) → code_point_of_two a b ≡ a % 32 * 64 + b % 64
unfolding code_point_of_two
two_arith a b =
    omega (arith, and_mask 5 a, and_mask 6 b, or_shift 6 (bit_and a 0x1F) (bit_and b 0x3F))

pub three_arith : (a b c : ℕ) → code_point_of_three a b c ≡ a % 16 * 4096 + b % 64 * 64 + c % 64
unfolding code_point_of_three
three_arith a b c =
    let hi = bit_and a 0x0F * 2 ^ 12 in
    let mid = bit_and b 0x3F * 2 ^ 6 in
    let top : bit_or hi mid ≡ hi + mid =
      or_disjoint 12 (bit_and a 0x0F) hi mid refl (omega (arith, and_mask 6 b)) in
    let all : bit_or (bit_or hi mid) (bit_and c 0x3F) ≡ bit_or hi mid + bit_and c 0x3F =
      or_disjoint 6 (bit_and a 0x0F * 64 + bit_and b 0x3F) (bit_or hi mid) (bit_and c 0x3F)
        (omega (arith, top)) (omega (arith, and_mask 6 c)) in
    omega (arith, top, all, and_mask 4 a, and_mask 6 b, and_mask 6 c)

pub four_arith :
    (a b c d : ℕ)
    → code_point_of_four a b c d ≡ a % 8 * 262144 + b % 64 * 4096 + c % 64 * 64 + d % 64
unfolding code_point_of_four
four_arith a b c d =
    let p = bit_and a 0x07 * 2 ^ 18 in
    let q = bit_and b 0x3F * 2 ^ 12 in
    let r = bit_and c 0x3F * 2 ^ 6 in
    let e₁ : bit_or p q ≡ p + q =
      or_disjoint 18 (bit_and a 0x07) p q refl (omega (arith, and_mask 6 b)) in
    let e₂ : bit_or (bit_or p q) r ≡ bit_or p q + r =
      or_disjoint 12 (bit_and a 0x07 * 64 + bit_and b 0x3F) (bit_or p q) r (omega (arith, e₁))
        (omega (arith, and_mask 6 c)) in
    let e₃ : bit_or (bit_or (bit_or p q) r) (bit_and d 0x3F)
        ≡ bit_or (bit_or p q) r + bit_and d 0x3F =
      or_disjoint 6 (bit_and a 0x07 * 4096 + bit_and b 0x3F * 64 + bit_and c 0x3F)
        (bit_or (bit_or p q) r) (bit_and d 0x3F) (omega (arith, e₁, e₂))
        (omega (arith, and_mask 6 d)) in
    omega (arith, e₁, e₂, e₃, and_mask 3 a, and_mask 6 b, and_mask 6 c, and_mask 6 d)

-- What `encode_cp` writes, in plain arithmetic.
cont_byte : (x : ℕ) → bit_or 0x80 (bit_and x 0x3F) ≡ 128 + x % 64
cont_byte x =
    omega (
      arith,
      and_mask 6 x,
      or_disjoint 6 2 0x80 (bit_and x 0x3F) refl (omega (arith, and_mask 6 x)),
    )

two_lead : (x : ℕ) → x < 32 → bit_or 0xC0 (x % 256) ≡ 192 + x
two_lead x h = omega (arith, or_disjoint 6 3 0xC0 (x % 256) refl (omega arith))

three_lead : (x : ℕ) → x < 16 → bit_or 0xE0 (x % 256) ≡ 224 + x
three_lead x h = omega (arith, or_disjoint 5 7 0xE0 (x % 256) refl (omega arith))

four_lead : (x : ℕ) → x < 8 → bit_or 0xF0 (x % 256) ≡ 240 + x
four_lead x h = omega (arith, or_disjoint 4 15 0xF0 (x % 256) refl (omega arith))

abbrev pub encoding : ℕ → List ℕ
encoding cp =
    if ltb cp 128
    then cp ∷ []
    else if ltb cp 2048
    then (192 + cp / 64) ∷ (128 + cp % 64) ∷ []
    else if ltb cp 65536
    then (224 + cp / 4096) ∷ (128 + cp / 64 % 64) ∷ (128 + cp % 64) ∷ []
    else (240 + cp / 262144) ∷ (128 + cp / 4096 % 64) ∷ (128 + cp / 64 % 64) ∷ (128 + cp % 64) ∷ []

pub encode_cp-encoding : (cp : ℕ) → cp < 0x110000 → encode_cp cp ≡ encoding cp
unfolding encode_cp
encode_cp-encoding cp h = ground (
  arith,
  cont_byte cp,
  cont_byte (cp / 64),
  cont_byte (cp / 4096),
  two_lead (cp / 64),
  three_lead (cp / 4096),
  four_lead (cp / 262144),
)
