-- ===== src/Tables/SelfTest.antt =====
-- src/tables/bp_uctables_selftest.c: the generated cases, and the program that counts how many of them
-- the lookups fail. What it prints is left out.
pub mod Exact
use bytepair.Base.{ℕ, ◌+◌, ◌==◌, if◌then◌else◌, List, [], ◌∷◌, length}
use bytepair.Tables.{UcTables, bp_char_class, bp_ccc}
use bytepair.Tables.Lookup.{bp_nfc_qc, bp_decomp, bp_compose}

pub record U32Case : Type 0 where
  pub cp : ℕ
  pub want : ℕ

abbrev pub u32_case : ℕ → ℕ → U32Case
u32_case cp want = record { cp = cp; want = want }

pub record DecompCase : Type 0 where
  pub cp : ℕ
  pub n : ℕ
  pub out : List ℕ

abbrev pub decomp_case : ℕ → ℕ → List ℕ → DecompCase
decomp_case cp n out = record { cp = cp; n = n; out = out }

pub record ComposeCase : Type 0 where
  pub a : ℕ
  pub b : ℕ
  pub want : ℕ

abbrev pub compose_case : ℕ → ℕ → ℕ → ComposeCase
compose_case a b want = record { a = a; b = b; want = want }

unfoldable pub class_cases : List U32Case
class_cases =
    u32_case 0 0
    ∷ u32_case 0x9 4
    ∷ u32_case 0xA 12
    ∷ u32_case 0xD 12
    ∷ u32_case 0x20 4
    ∷ u32_case 0x27 0
    ∷ u32_case 0x30 2
    ∷ u32_case 0x41 1
    ∷ u32_case 0x5A 1
    ∷ u32_case 0x7A 1
    ∷ u32_case 0x85 4
    ∷ u32_case 0xA0 4
    ∷ u32_case 0xB2 2
    ∷ u32_case 0xC9 1
    ∷ u32_case 0x301 0
    ∷ u32_case 0x660 2
    ∷ u32_case 0x6F0 2
    ∷ u32_case 0xF20 2
    ∷ u32_case 0x180E 0
    ∷ u32_case 0x1680 4
    ∷ u32_case 0x2000 4
    ∷ u32_case 0x200A 4
    ∷ u32_case 0x200B 0
    ∷ u32_case 0x2028 4
    ∷ u32_case 0x2029 4
    ∷ u32_case 0x202F 4
    ∷ u32_case 0x205F 4
    ∷ u32_case 0x2160 2
    ∷ u32_case 0x3000 4
    ∷ u32_case 0x3042 1
    ∷ u32_case 0x4E00 1
    ∷ u32_case 0xAC00 1
    ∷ u32_case 0xFFFD 0
    ∷ u32_case 0x10000 1
    ∷ u32_case 0x1D7CE 2
    ∷ u32_case 0x1F600 0
    ∷ u32_case 0xE0001 0
    ∷ u32_case 0x10FFFF 0
    ∷ []

unfoldable pub ccc_cases : List U32Case
ccc_cases =
    u32_case 0x41 0
    ∷ u32_case 0x300 230
    ∷ u32_case 0x301 230
    ∷ u32_case 0x316 220
    ∷ u32_case 0x334 1
    ∷ u32_case 0x345 240
    ∷ u32_case 0x5B0 10
    ∷ u32_case 0x93C 7
    ∷ u32_case 0xE38 103
    ∷ u32_case 0x3099 8
    ∷ u32_case 0x1E00 0
    ∷ u32_case 0x10FFFF 0
    ∷ u32_case 0x897 0
    ∷ u32_case 0x7FD 0
    ∷ u32_case 0x9FE 0
    ∷ u32_case 0xC3C 0
    ∷ u32_case 0x1ABF 0
    ∷ u32_case 0x1DF9 0
    ∷ u32_case 0x1E130 0
    ∷ u32_case 0x1193D 0
    ∷ u32_case 0x89A 0
    ∷ u32_case 0x10EFD 0
    ∷ []

unfoldable pub qc_cases : List U32Case
qc_cases =
    u32_case 0x41 1
    ∷ u32_case 0x300 2
    ∷ u32_case 0x344 0
    ∷ u32_case 0x958 0
    ∷ u32_case 0x9DC 0
    ∷ u32_case 0xF43 0
    ∷ u32_case 0x1E69 1
    ∷ u32_case 0x2126 0
    ∷ u32_case 0x212B 0
    ∷ u32_case 0xFB1D 0
    ∷ u32_case 0x1D160 0
    ∷ []

unfoldable pub decomp_cases : List DecompCase
decomp_cases =
    decomp_case 0x41 0 (0 ∷ 0 ∷ 0 ∷ 0 ∷ [])
    ∷ decomp_case 0xC0 2 (0x41 ∷ 0x300 ∷ 0 ∷ 0 ∷ [])
    ∷ decomp_case 0xC9 2 (0x45 ∷ 0x301 ∷ 0 ∷ 0 ∷ [])
    ∷ decomp_case 0x1D5 3 (0x55 ∷ 0x308 ∷ 0x304 ∷ 0 ∷ [])
    ∷ decomp_case 0x344 2 (0x308 ∷ 0x301 ∷ 0 ∷ 0 ∷ [])
    ∷ decomp_case 0x958 2 (0x915 ∷ 0x93C ∷ 0 ∷ 0 ∷ [])
    ∷ decomp_case 0x1E69 3 (0x73 ∷ 0x323 ∷ 0x307 ∷ 0 ∷ [])
    ∷ decomp_case 0x1F82 4 (0x3B1 ∷ 0x313 ∷ 0x300 ∷ 0x345 ∷ [])
    ∷ decomp_case 0x2126 1 (0x3A9 ∷ 0 ∷ 0 ∷ 0 ∷ [])
    ∷ decomp_case 0x212B 2 (0x41 ∷ 0x30A ∷ 0 ∷ 0 ∷ [])
    ∷ decomp_case 0x2ADC 2 (0x2ADD ∷ 0x338 ∷ 0 ∷ 0 ∷ [])
    ∷ decomp_case 0xAC00 0 (0 ∷ 0 ∷ 0 ∷ 0 ∷ [])
    ∷ decomp_case 0xD7A3 0 (0 ∷ 0 ∷ 0 ∷ 0 ∷ [])
    ∷ decomp_case 0x1109A 2 (0x11099 ∷ 0x110BA ∷ 0 ∷ 0 ∷ [])
    ∷ decomp_case 0x105C9 0 (0 ∷ 0 ∷ 0 ∷ 0 ∷ [])
    ∷ decomp_case 0x11383 0 (0 ∷ 0 ∷ 0 ∷ 0 ∷ [])
    ∷ decomp_case 0x113C5 0 (0 ∷ 0 ∷ 0 ∷ 0 ∷ [])
    ∷ decomp_case 0x11938 0 (0 ∷ 0 ∷ 0 ∷ 0 ∷ [])
    ∷ decomp_case 0x16121 0 (0 ∷ 0 ∷ 0 ∷ 0 ∷ [])
    ∷ decomp_case 0x16D68 0 (0 ∷ 0 ∷ 0 ∷ 0 ∷ [])
    ∷ []

unfoldable pub compose_cases : List ComposeCase
compose_cases =
    compose_case 0x41 0x301 0xC1
    ∷ compose_case 0x45 0x301 0xC9
    ∷ compose_case 0x41 0x30A 0xC5
    ∷ compose_case 0x43 0x327 0xC7
    ∷ compose_case 0x55 0x308 0xDC
    ∷ compose_case 0x928 0x93C 0x929
    ∷ compose_case 0x915 0x93C 0
    ∷ compose_case 0x1100 0x1161 0
    ∷ compose_case 0xAC00 0x11A8 0
    ∷ compose_case 0x41 0x41 0
    ∷ compose_case 0 0 0
    ∷ compose_case 0x3A9 0x301 0x38F
    ∷ compose_case 0x73 0x323 0x1E63
    ∷ compose_case 0x1E63 0x307 0x1E69
    ∷ compose_case 0x11935 0x11930 0
    ∷ compose_case 0x113C2 0x113C2 0
    ∷ compose_case 0x1611E 0x1611E 0
    ∷ compose_case 0x16D67 0x16D67 0
    ∷ compose_case 0x105D2 0x307 0
    ∷ []

-- `failures` after the call.
unfoldable pub check : ℕ → ℕ → ℕ → ℕ
check got want failures = if got == want then failures else failures + 1

unfoldable pub check_cases : (ℕ → ℕ) → List U32Case → ℕ → ℕ
check_cases look [] failures = failures
check_cases look (c ∷ cs) failures = check_cases look cs (check (look c.cp) c.want failures)

unfoldable pub check_elements : List ℕ → List ℕ → ℕ → ℕ
check_elements [] want failures = failures
check_elements (x ∷ got) [] failures = failures
check_elements (x ∷ got) (y ∷ want) failures = check_elements got want (check x y failures)

unfoldable pub check_decomp : UcTables → List DecompCase → ℕ → ℕ
check_decomp u [] failures = failures
check_decomp u (c ∷ cs) failures =
    let got = bp_decomp u c.cp in
    let counted = check (length got) c.n failures in
    check_decomp u cs (if length got == c.n then check_elements got c.out counted else counted)

unfoldable pub check_compose : UcTables → List ComposeCase → ℕ → ℕ
check_compose u [] failures = failures
check_compose u (c ∷ cs) failures =
    check_compose u cs (check (bp_compose u c.a c.b) c.want failures)

-- `failures` at the end of `main`.
unfoldable pub run_cases : UcTables → ℕ
run_cases u =
    let classes = check_cases (bp_char_class u) class_cases 0 in
    let above = check (bp_char_class u 0xFFFFFFFF) 0 (check (bp_char_class u 0x110000) 0 classes) in
    let marks = check (bp_ccc u 0x110000) 0 (check_cases (bp_ccc u) ccc_cases above) in
    let quick = check_cases (bp_nfc_qc u) qc_cases marks in
    check_compose u compose_cases (check_decomp u decomp_cases quick)

-- The exit code.
unfoldable pub self_test : UcTables → ℕ
self_test u = if run_cases u == 0 then 0 else 1
