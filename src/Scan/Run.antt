-- ===== src/Scan/Run.antt =====
-- src/bp_scan.c `run_letters` and `run_symbols`: one loop, with the kernel that it calls and the test
-- that continues it.
pub mod Scalar
pub mod Laws
use bytepair.Base.{ℕ, zero, suc, ◌+◌, ltb, leb, ◌==◌, if◌then◌else◌, Bool, true, false, ◌||◌, not}
use bytepair.Base.{List, length, get_or, drop}
use bytepair.Utf8.{bp_utf8_next}
use bytepair.Scan.Kernel.{byte}

-- `keeps` is asked of the code point; an ASCII byte is its own.
unfoldable pub extend : (List ℕ → ℕ → ℕ) → (ℕ → Bool) → Bool → List ℕ → ℕ → ℕ → ℕ
extend kernel keeps simd t zero j = j
extend kernel keeps simd t (suc fuel) j =
    let b = byte t j in
    let k = kernel t j in
    let vector = extend kernel keeps simd t fuel k in
    let next = extend kernel keeps simd t fuel (j + 1) in
    let s = bp_utf8_next (drop j t) in
    let decoded = extend kernel keeps simd t fuel (j + s.adv) in
    if not (ltb j (length t))
    then j
    else if ltb b 0x80
    then (if simd
        then (if leb (length t) k || ltb (byte t k) 0x80 then k else vector)
        else (if keeps b then next else j))
    else (if keeps s.cp then decoded else j)
