-- ===== src/Tables/Lookup.antt =====
-- src/tables/bp_uctables.c `bp_nfc_qc`, `bp_decomp`, `bp_compose`: binary searches over the arrays.
-- Each round halves the range, so as many rounds as there are entries are enough.
use bytepair.Base.{ℕ, zero, suc, ◌+◌, ◌-◌, ◌*◌, ◌/◌, ◌%◌, ◌^◌, ltb, if◌then◌else◌, bit_or}
use bytepair.Base.{List, [], length, get_or, take, drop, Option, none, some}
use bytepair.Tables.{UcTables}

-- The index of `key` between `lo` and `hi`.
unfoldable pub find_key : List ℕ → ℕ → ℕ → ℕ → ℕ → Option ℕ
find_key keys key zero lo hi = none
find_key keys key (suc fuel) lo hi =
    let mid = lo + (hi - lo) / 2 in
    let k = get_or keys mid 0 in
    let left = find_key keys key fuel lo mid in
    let right = find_key keys key fuel (mid + 1) hi in
    if ltb lo hi then (if ltb key k then left else if ltb k key then right else some mid) else none

-- The value of the range that holds `cp`, or `Yes`.
unfoldable pub find_range : UcTables → ℕ → ℕ → ℕ → ℕ → ℕ
find_range u cp zero lo hi = 1
find_range u cp (suc fuel) lo hi =
    let mid = lo + (hi - lo) / 2 in
    let left = find_range u cp fuel lo mid in
    let right = find_range u cp fuel (mid + 1) hi in
    if ltb lo hi
    then (if ltb cp (get_or u.qc_lo mid 0)
        then left
        else if ltb (get_or u.qc_hi mid 0) cp
        then right
        else get_or u.qc_val mid 0)
    else 1

-- 0 is No, 1 is Yes, 2 is Maybe.
unfoldable pub bp_nfc_qc : UcTables → ℕ → ℕ
bp_nfc_qc u cp = find_range u cp (length u.qc_lo) 0 (length u.qc_lo)

-- The code points written to `out`; the empty list is the return value 0.
unfoldable pub bp_decomp : UcTables → ℕ → List ℕ
bp_decomp u cp = elim (find_key u.decomp_cp cp (length u.decomp_cp) 0 (length u.decomp_cp)) [
  | none ↦ []
  | some mid ↦ take (get_or u.decomp_len mid 0) (drop (get_or u.decomp_off mid 0) u.decomp_pool)
]

unfoldable pub bp_compose : UcTables → ℕ → ℕ → ℕ
bp_compose u a b =
    let key = bit_or (a * 2 ^ 32 % 2 ^ 64) b in
    elim (find_key u.compose_key key (length u.compose_key) 0 (length u.compose_key)) [
      | none ↦ 0
      | some mid ↦ get_or u.compose_val mid 0
    ]
