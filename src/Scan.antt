-- ===== src/Scan.antt =====
-- src/bp_scan.c: the split regex of profile 1, compiled by hand. The text is a list of bytes, a
-- position an index into it, and `len` its length; a loop's fuel is the bytes left.
pub mod Kernel
pub mod Run
pub mod Spaces
pub mod Simd
pub mod Bounds
pub mod Text
use bytepair.Base.{ℕ, zero, suc, ◌+◌, ◌-◌, ltb, leb, ◌==◌, if◌then◌else◌, Bool, true, false}
use bytepair.Base.{◌&&◌, ◌||◌, not, List, length, get_or, take, drop, bit_or}
use bytepair.Utf8.{bp_utf8_next, malformed}
use bytepair.Tables.{UcTables, bp_char_class, has, cc_l, cc_n, cc_s, cc_nl}
use bytepair.Scan.Kernel.{byte, letter_run_avx2, symbol_run_avx2}
use bytepair.Scan.Run.{extend}

-- `bp_cp`
pub record BpCp : Type 0 where
  pub cp : ℕ
  pub adv : ℕ
  pub cl : ℕ

unfoldable pub peek : UcTables → List ℕ → ℕ → BpCp
peek u t i =
    let b = byte t i in
    let s = bp_utf8_next (drop i t) in
    if ltb b 0x80 then record { cp = b; adv = 1; cl = bp_char_class u b } else record {
      cp = s.cp;
      adv = s.adv;
      cl = if s.cp == malformed then 0 else bp_char_class u s.cp;
    }

-- `byte | 0x20`
abbrev lower : ℕ → ℕ
lower b = bit_or b 0x20

-- A1, at an apostrophe: the length of the contraction, or 0.
unfoldable pub try_contraction : List ℕ → ℕ → ℕ
try_contraction t i =
    let n = length t - i in
    let a = lower (byte t (i + 1)) in
    let b = lower (byte t (i + 2)) in
    if ltb n 2
    then 0
    else if a == b's' || a == b't' || a == b'm' || a == b'd'
    then 2
    else if byte t (i + 1) == 0xC5 && leb 3 n && byte t (i + 2) == 0xBF
    then 3
    else if ltb n 3
    then 0
    else if (a == b'r' && b == b'e') || (a == b'v' && b == b'e') || (a == b'l' && b == b'l')
    then 3
    else 0

-- What continues a letter run, and a symbol run: a malformed byte is a symbol.
unfoldable pub is_letter : UcTables → ℕ → Bool
is_letter u cp = not (cp == malformed) && has (bp_char_class u cp) cc_l

unfoldable pub is_symbol : UcTables → ℕ → Bool
is_symbol u cp = cp == malformed || not (has (bp_char_class u cp) (cc_l + cc_n + cc_s))

unfoldable pub run_letters : UcTables → Bool → List ℕ → ℕ → ℕ
run_letters u simd t j = extend letter_run_avx2 (is_letter u) simd t (length t - j) j

unfoldable pub run_symbols : UcTables → Bool → List ℕ → ℕ → ℕ
run_symbols u simd t j = extend symbol_run_avx2 (is_symbol u) simd t (length t - j) j

-- `while (j < len && (t[j] == '\r' || t[j] == '\n')) j++`
unfoldable pub run_newlines : List ℕ → ℕ → ℕ → ℕ
run_newlines t zero j = j
run_newlines t (suc fuel) j =
    let rest = run_newlines t fuel (j + 1) in
    if ltb j (length t) && (byte t j == 13 || byte t j == 10) then rest else j

-- The state of the walk over a whitespace run.
pub record Walk : Type 0 where
  pub j : ℕ
  pub last_nl_end : ℕ
  pub last_cp_start : ℕ
  pub ncp : ℕ

unfoldable pub walk_spaces : UcTables → List ℕ → ℕ → Walk → Walk
walk_spaces u t zero s = s
walk_spaces u t (suc fuel) s =
    let w = peek u t s.j in
    let rest = walk_spaces u t fuel (record {
      j = s.j + w.adv;
      last_nl_end = if has w.cl cc_nl then s.j + w.adv else s.last_nl_end;
      last_cp_start = s.j;
      ncp = s.ncp + 1;
    }) in
    if ltb s.j (length t) && has w.cl cc_s then rest else s

-- A5, A6 and A7 tell apart by where the run ends and what it holds.
unfoldable pub space_end : UcTables → List ℕ → ℕ → ℕ
space_end u t i =
    let s =
      walk_spaces u t (length t - i)
        (record { j = i; last_nl_end = 0; last_cp_start = i; ncp = 0 }) in
    if not (s.last_nl_end == 0)
    then s.last_nl_end
    else if s.j == length t
    then length t
    else if leb 2 s.ncp
    then s.last_cp_start
    else s.j

-- A3 to A7, where neither a contraction nor a letter run begins.
unfoldable pub rest_end : UcTables → Bool → List ℕ → ℕ → BpCp → Bool → BpCp → ℕ
rest_end u simd t i cur have_nx nx =
    let symbols = cc_l + cc_n + cc_s in
    let newlines = λ (j : ℕ). run_newlines t (length t - j) j in
    if has cur.cl cc_n
    then i + cur.adv
    else if byte t i == b' ' && have_nx && not (has nx.cl symbols)
    then newlines (run_symbols u simd t (i + 1 + nx.adv))
    else if not (has cur.cl symbols)
    then newlines (run_symbols u simd t (i + cur.adv))
    else space_end u t i

-- A2 and the rest. `nx` is read only where the code reads it.
unfoldable pub word_end : UcTables → Bool → List ℕ → ℕ → ℕ
word_end u simd t i =
    let cur = peek u t i in
    let nx = peek u t (i + cur.adv) in
    let have_nx = not (has cur.cl (cc_l + cc_n + cc_nl)) && ltb (i + cur.adv) (length t) in
    if has cur.cl cc_l
    then run_letters u simd t (i + cur.adv)
    else if have_nx && has nx.cl cc_l
    then run_letters u simd t (i + cur.adv + nx.adv)
    else rest_end u simd t i cur have_nx nx

-- The end of the pretoken that begins at `i`: one round of the `while` up to its `EMIT`.
unfoldable pub span_end : UcTables → Bool → List ℕ → ℕ → ℕ
span_end u simd t i =
    let m = (if byte t i == 39 then try_contraction t i else 0) in
    if m == 0 then word_end u simd t i else i + m
