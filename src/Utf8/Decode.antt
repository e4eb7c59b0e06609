-- ===== src/Utf8/Decode.antt =====
-- `bp_utf8_next` against the encoder: both directions, and the bounds of `*adv`.
use bytepair.Base.{ℕ, ◌+◌, ◌/◌, ◌%◌, ◌<◌, ◌≤◌, ltb, Bool-cases}
use bytepair.Base.{List, [], ◌∷◌, ◌++◌, length, All, take, arith}
use bytepair.Base.{◌≡◌, refl, sym, ◌∙◌, ◌≢◌, inl, inr}
use bytepair.Utf8.{
  Step, malformed, lead_of_two, lead_of_three, lead_of_four, bp_utf8_next, encode_cp,
}
use bytepair.Utf8.Laws.{
  IsByte, IsScalar, is_cont_iff, two_arith, three_arith, four_arith, encoding, encode_cp-encoding,
}

all_leads : Unit {0}
unfolding bp_utf8_next lead_of_two lead_of_three lead_of_four
all_leads = tt

-- On a non-empty list the reader takes a byte at least, and stays inside the list.
pub adv_bounds :
    (p : List ℕ) → 0 < length p → (1 ≤ (bp_utf8_next p).adv) × ((bp_utf8_next p).adv ≤ length p)
unfolding all_leads
adv_bounds p h = ground arith

next-encoding :
    (cp : ℕ) (rest : List ℕ)
    → IsScalar cp
    → bp_utf8_next (encoding cp ++ rest) ≡ record { cp = cp; adv = length (encoding cp) }
unfolding all_leads
next-encoding cp rest (lt, gap) = elim (Bool-cases (ltb cp 128)) [
  | inl one ↦ rw one (ground arith)
  | inr more ↦ rw more (elim (Bool-cases (ltb cp 2048)) [
    | inl two ↦
        rw two
          (ground (arith, is_cont_iff (128 + cp % 64), two_arith (192 + cp / 64) (128 + cp % 64)))
    | inr more₂ ↦ rw more₂ (elim (Bool-cases (ltb cp 65536)) [
      | inl three ↦ rw three (
          ground (
            arith,
            is_cont_iff (128 + cp % 64),
            is_cont_iff (128 + cp / 64 % 64),
            three_arith (224 + cp / 4096) (128 + cp / 64 % 64) (128 + cp % 64),
          ))
      | inr four ↦ rw four (
          ground (
            arith,
            is_cont_iff (128 + cp % 64),
            is_cont_iff (128 + cp / 64 % 64),
            is_cont_iff (128 + cp / 4096 % 64),
            four_arith (240 + cp / 262144) (128 + cp / 4096 % 64) (128 + cp / 64 % 64)
                (128 + cp % 64),
          ))
    ])
  ])
]

-- Reading what the writer made of a scalar value gives it back, and takes exactly those bytes,
-- whatever follows.
pub next-encode_cp :
    (cp : ℕ) (rest : List ℕ)
    → IsScalar cp
    → bp_utf8_next (encode_cp cp ++ rest) ≡ record { cp = cp; adv = length (encode_cp cp) }
next-encode_cp cp rest h = rw (encode_cp-encoding cp h.0) (next-encoding cp rest h)

-- What is accepted is a scalar value, and its bytes are its encoding.
abbrev pub Accepts : List ℕ → Step → Type 0
Accepts p s = IsScalar s.cp × (s.adv ≤ length p) × (take s.adv p ≡ encode_cp s.cp)

abbrev Reads : List ℕ → Step → Type 0
Reads p s = s.cp ≢ malformed → IsScalar s.cp × (s.adv ≤ length p) × (take s.adv p ≡ encoding s.cp)

two_sound :
    (a : ℕ) (p : List ℕ) → 0xC2 ≤ a → a < 0xE0 → All IsByte p → Reads (a ∷ p) (lead_of_two (a ∷ p))
unfolding lead_of_two
two_sound a [] lo hi h = λ ne. absurd (ne refl)
two_sound a (b ∷ p) lo hi (hb, h) = ground (arith, is_cont_iff b hb, two_arith a b)

three_sound :
    (a : ℕ) (p : List ℕ)
    → 0xE0 ≤ a
    → a < 0xF0
    → All IsByte p
    → Reads (a ∷ p) (lead_of_three (a ∷ p))
unfolding lead_of_three
three_sound a [] lo hi h = λ ne. absurd (ne refl)
three_sound a (b ∷ []) lo hi h = λ ne. absurd (ne refl)
three_sound a (b ∷ c ∷ p) lo hi (hb, (hc, h)) =
    ground (arith, is_cont_iff b hb, is_cont_iff c hc, three_arith a b c)

four_sound :
    (a : ℕ) (p : List ℕ) → 0xF0 ≤ a → a < 0xF5 → All IsByte p → Reads (a ∷ p) (lead_of_four (a ∷ p))
unfolding lead_of_four
four_sound a [] lo hi h = λ ne. absurd (ne refl)
four_sound a (b ∷ []) lo hi h = λ ne. absurd (ne refl)
four_sound a (b ∷ c ∷ []) lo hi h = λ ne. absurd (ne refl)
four_sound a (b ∷ c ∷ d ∷ p) lo hi (hb, (hc, (hd, h))) =
    ground (arith, is_cont_iff b hb, is_cont_iff c hc, is_cont_iff d hd, four_arith a b c d)

next-Reads : (a : ℕ) (p : List ℕ) → All IsByte (a ∷ p) → Reads (a ∷ p) (bp_utf8_next (a ∷ p))
unfolding bp_utf8_next
next-Reads a p (ha, h) = ground (arith, two_sound a p, three_sound a p, four_sound a p)

-- On a non-empty list of bytes, an answer other than `malformed` is a scalar value, and the bytes
-- that it takes are in the list and are its encoding.
pub next-Accepts :
    (p : List ℕ)
    → All IsByte p
    → 0 < length p
    → (bp_utf8_next p).cp ≢ malformed
    → Accepts p (bp_utf8_next p)
next-Accepts [] h l ne = absurd (omega arith)
next-Accepts (a ∷ p) h l ne =
    let (scalar, fits, bytes) = next-Reads a p h ne in
    (scalar, fits, bytes ∙ sym (encode_cp-encoding (bp_utf8_next (a ∷ p)).cp scalar.0))
