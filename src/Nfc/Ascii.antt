-- ===== src/Nfc/Ascii.antt =====
-- src/bp_nfc.c `all_ascii`: which bytes it accepts, a word of eight at a time.
pub mod Fixed
use mathlib.Core.Logic.{◌↔◌}
use bytepair.Base.{ℕ, zero, suc, ◌+◌, ◌*◌, ◌/◌, ◌%◌, ◌<◌, ◌≤◌, leb, ◌==◌, not, bit_and, and_low}
use bytepair.Base.{if◌then◌else◌, Bool, true, false, Bool-cases, ==_iff, ==→ne, leb→le}
use bytepair.Base.{List, [], ◌∷◌, length, get_or, take, drop, All, All-take, All-drop, length-take}
use bytepair.Base.{length-drop, arith, ◌≡◌, refl, ap, sym, ◌∙◌, inl, inr}
use bytepair.Utf8.Laws.{IsByte}
use bytepair.Context.{le_word}
use bytepair.Nfc.{all_ascii, all_ascii_words}

abbrev pub IsAscii : ℕ → Type 0
IsAscii b = b < 0x80

and_even : (a m : ℕ) → bit_and a (2 * m) ≡ bit_and (a / 2) m * 2
and_even a m =
    omega (arith, and_low a (2 * m), ap (bit_and (a / 2)) {x = 2 * m / 2} {y = m} (omega arith))

and_odd : (a m : ℕ) → bit_and a (1 + 2 * m) ≡ bit_and (a / 2) m * 2 + a % 2
and_odd a m =
    omega (
      arith,
      and_low a (1 + 2 * m),
      ap (bit_and (a / 2)) {x = (1 + 2 * m) / 2} {y = m} (omega arith),
    )

-- The top bit of the lowest byte, and those of the other bytes.
and_byte :
    (b x y : ℕ)
    → b < 256
    → (bit_and (b + 256 * x) (128 + 256 * y) ≡ 0) ↔ (IsAscii b × (bit_and x y ≡ 0))
and_byte b x y small =
    let a = b + 256 * x in
    let bits : bit_and a (128 + 256 * y) ≡ (bit_and x y * 2 + b / 128) * 128 =
      ap (bit_and a) {x = 128 + 256 * y} {y = 2 * (2 * (2 * (2 * (2 * (2 * (2 * (1 + 2 * y)))))))}
        (omega arith)
      ∙ omega (
        arith,
        and_even a (2 * (2 * (2 * (2 * (2 * (2 * (1 + 2 * y))))))),
        and_even (a / 2) (2 * (2 * (2 * (2 * (2 * (1 + 2 * y)))))),
        and_even (a / 2 / 2) (2 * (2 * (2 * (2 * (1 + 2 * y))))),
        and_even (a / 2 / 2 / 2) (2 * (2 * (2 * (1 + 2 * y)))),
        and_even (a / 2 / 2 / 2 / 2) (2 * (2 * (1 + 2 * y))),
        and_even (a / 2 / 2 / 2 / 2 / 2) (2 * (1 + 2 * y)),
        and_even (a / 2 / 2 / 2 / 2 / 2 / 2) (1 + 2 * y),
        and_odd (a / 2 / 2 / 2 / 2 / 2 / 2 / 2) y,
        ap (λ t. bit_and t y) {x = a / 2 / 2 / 2 / 2 / 2 / 2 / 2 / 2} {y = x} (omega arith),
      ) in
    (
      λ e. (omega (arith, bits, e), omega (arith, bits, e)),
      λ (low, rest). omega (arith, bits, low, rest),
    )

-- The top bits of `n` bytes.
abbrev top_bits : ℕ → ℕ
top_bits zero = 0
top_bits (suc n) = 128 + 256 * top_bits n

and_word :
    (w : List ℕ) → All IsByte w → (bit_and (le_word w) (top_bits (length w)) ≡ 0) ↔ All IsAscii w
unfolding le_word
and_word [] bytes = (λ e. tt, λ a. refl)
and_word (b ∷ w) (small, bytes) =
    let one = and_byte b (le_word w) (top_bits (length w)) small in
    let rest = and_word w bytes in
    (
      λ e. let (low, others) = one.0 e in (low, rest.0 others),
      λ (low, others). one.1 (low, rest.1 others),
    )

All-take-drop :
    (n : ℕ) (p : List ℕ) → All IsAscii (take n p) → All IsAscii (drop n p) → All IsAscii p
All-take-drop zero p front back = back
All-take-drop (suc n) [] front back = tt
All-take-drop (suc n) (b ∷ p) (low, front) back = (low, All-take-drop n p front back)

eight_bytes :
    (p : List ℕ)
    → All IsByte p
    → 8 ≤ length p
    → (bit_and (le_word (take 8 p)) 0x8080808080808080 ≡ 0) ↔ All IsAscii (take 8 p)
eight_bytes p bytes long =
    let full : length (take 8 p) ≡ 8 = omega (arith, length-take 8 p) in
    let word = and_word (take 8 p) (All-take IsByte 8 p bytes) in
    (
      λ e. word.0 (ap (λ n. bit_and (le_word (take 8 p)) (top_bits n)) full ∙ e),
      λ low. ap (λ n. bit_and (le_word (take 8 p)) (top_bits n)) (sym full) ∙ word.1 low,
    )

one_byte : (b : ℕ) → b < 256 → (bit_and b 0x80 ≡ 0) ↔ IsAscii b
one_byte b small =
    let one = and_byte b 0 0 small in
    (
      λ e. (one.0 (ap (λ a. bit_and a 128) {x = b + 256 * 0} {y = b} (omega arith) ∙ e)).0,
      λ low. ap (λ a. bit_and a 128) {x = b} {y = b + 256 * 0} (omega arith) ∙ one.1 (low, refl),
    )

all_ascii_words-IsAscii :
    (fuel : ℕ) (p : List ℕ)
    → length p < fuel
    → All IsByte p
    → (all_ascii_words fuel p ≡ true) ↔ All IsAscii p
unfolding all_ascii_words
all_ascii_words-IsAscii zero p enough bytes = absurd (omega arith)
all_ascii_words-IsAscii (suc fuel) [] enough bytes = (λ e. tt, λ a. refl)
all_ascii_words-IsAscii (suc fuel) (b ∷ p) enough (small, bytes) =
    elim (Bool-cases (leb 8 (suc (length p)))) [
      | inl long ↦
          let q = b ∷ p in
          let word = eight_bytes q (small, bytes) (leb→le 8 _ long) in
          let rest =
            all_ascii_words-IsAscii fuel (drop 8 q) (omega (arith, length-drop 8 q))
              (All-drop IsByte 8 q (small, bytes)) in
          elim (Bool-cases (bit_and (le_word (take 8 q)) 0x8080808080808080 == 0)) [
            | inl clear ↦
                rw (all_ascii_words, long, clear)
                  (
                    λ e. All-take-drop 8 q (word.0 ((==_iff _ _).0 clear)) (rest.0 e),
                    λ low. rest.1 (All-drop IsAscii 8 q low),
                  )
            | inr set ↦
                rw (all_ascii_words, long, set)
                  (
                    λ e. absurd (cc e),
                    λ low. absurd (==→ne _ _ set (word.1 (All-take IsAscii 8 q low))),
                  )
          ]
      | inr short ↦
          let one = one_byte b small in
          let more : (suc (length p) == 0) ≡ false = ground arith in
          let rest = all_ascii_words-IsAscii fuel p (omega arith) bytes in
          elim (Bool-cases (bit_and b 0x80 == 0)) [
            | inl clear ↦
                rw (all_ascii_words, short, more, clear)
                  (λ e. (one.0 ((==_iff _ _).0 clear), rest.0 e), λ (low, others). rest.1 others)
            | inr set ↦
                rw (all_ascii_words, short, more, set)
                  (λ e. absurd (cc e), λ (low, others). absurd (==→ne _ _ set (one.1 low)))
          ]
    ]

pub all_ascii-IsAscii : (p : List ℕ) → All IsByte p → (all_ascii p ≡ true) ↔ All IsAscii p
unfolding all_ascii
all_ascii-IsAscii p bytes = all_ascii_words-IsAscii (suc (length p)) p (omega arith) bytes
