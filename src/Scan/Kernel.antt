-- ===== src/Scan/Kernel.antt =====
-- src/bp_scan_avx2.c: the vector kernels. A vector of 32 bytes is a list of them, an operation on it
-- works lane by lane, and `__builtin_ctz` of the complemented mask is the first lane that fails.
pub mod Laws
use bytepair.Base.{ℕ, zero, suc, ◌+◌, ◌-◌, ◌%◌, min, ltb, leb, ◌==◌, if◌then◌else◌}
use bytepair.Base.{Bool, true, false, ◌&&◌, ◌||◌, not}
use bytepair.Base.{List, [], ◌∷◌, length, get_or, take, drop, bit_or}

abbrev pub byte : List ℕ → ℕ → ℕ
byte t i = get_or t i 0

-- One lane of `in_range`: `_mm256_sub_epi8` wraps at 8 bits, and the lanes compare unsigned.
unfoldable pub in_range : ℕ → ℕ → ℕ → Bool
in_range v lo span = let x = (v + 256 - lo) % 256 in min x span == x

unfoldable pub letter_lane : ℕ → Bool
letter_lane b = in_range (bit_or b 0x20) b'a' 25

-- `ascii & ~bad`
unfoldable pub symbol_lane : ℕ → Bool
symbol_lane b =
    ltb b 0x80
    && not (in_range (bit_or b 0x20) b'a' 25 || in_range b b'0' 9 || (in_range b 9 4 || b == 32))

-- The tests of the byte loops behind the vector loops.
unfoldable pub letter_byte : ℕ → Bool
letter_byte b = let b' = bit_or b 0x20 in not (ltb b' b'a' || ltb b'z' b')

unfoldable pub symbol_byte : ℕ → Bool
symbol_byte b =
    let l = bit_or b 0x20 in
    not (
      leb 0x80 b
      || (leb b'a' l && leb l b'z')
      || (leb b'0' b && leb b b'9')
      || (b == 32 || (leb 9 b && leb b 13)))

-- The number of lanes in front of the first that fails.
unfoldable pub first_failing : (ℕ → Bool) → List ℕ → ℕ
first_failing lane [] = 0
first_failing lane (b ∷ v) = if lane b then suc (first_failing lane v) else 0

-- `while (i < len)`, a byte in each round.
unfoldable pub byte_loop : (ℕ → Bool) → ℕ → List ℕ → ℕ → ℕ
byte_loop test zero t i = i
byte_loop test (suc fuel) t i =
    let rest = byte_loop test fuel t (i + 1) in
    if ltb i (length t) && test (byte t i) then rest else i

-- `while (i + 32 <= len)`, and the byte loop behind it.
unfoldable pub vector_loop : (ℕ → Bool) → (ℕ → Bool) → ℕ → List ℕ → ℕ → ℕ
vector_loop lane test zero t i = byte_loop test (length t - i) t i
vector_loop lane test (suc fuel) t i =
    let rest = vector_loop lane test fuel t (i + 32) in
    let k = first_failing lane (take 32 (drop i t)) in
    if ltb (length t) (i + 32)
    then byte_loop test (length t - i) t i
    else if ltb k 32
    then i + k
    else rest

unfoldable pub letter_run_avx2 : List ℕ → ℕ → ℕ
letter_run_avx2 t i = vector_loop letter_lane letter_byte (length t) t i

unfoldable pub symbol_run_avx2 : List ℕ → ℕ → ℕ
symbol_run_avx2 t i = vector_loop symbol_lane symbol_byte (length t) t i
