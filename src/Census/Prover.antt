-- ===== src/Census/Prover.antt =====
-- src/bp_census.c `fits_pretoken_language` to `prove_impossible`.
use bytepair.Base.{ℕ, zero, suc, ◌+◌, ltb, leb, ◌==◌, if◌then◌else◌, bit_or, min, count_from}
use bytepair.Base.{Bool, true, false, ◌&&◌, ◌||◌, not, none, some}
use bytepair.Base.{List, [], ◌∷◌, length, get_or, drop, map}
use bytepair.Utf8.{malformed, bp_utf8_next}
use bytepair.Tables.{UcTables, bp_char_class, cc_l}
use bytepair.Encode.{is_set}
use bytepair.Census.{Reason, no_reason, invalid_utf8, pretoken_shape, contraction, nfc_excluded}
use bytepair.Census.Units.{u_l, u_n, u_sp, u_snl, u_so, u_o, CharUnit, all_cont, alignment_units}

-- Every unit has one of these bits.
unfoldable pub all_have : ℕ → List ℕ → Bool
all_have mask [] = true
all_have mask (x ∷ units) = is_set x mask && all_have mask units

-- `while (i < nu && (u[i] & mask)) i++`
unfoldable pub skip : ℕ → List ℕ → List ℕ
skip mask [] = []
skip mask (x ∷ units) = let rest = skip mask units in if is_set x mask then rest else x ∷ units

-- SP? O+ NL*
unfoldable pub fits_symbols : List ℕ → Bool
fits_symbols units =
    let start = if is_set (get_or units 0 0) u_sp then drop 1 units else units in
    let behind = skip u_o start in
    length (skip u_snl behind) == 0 && (ltb (length behind) (length start) || length units == 1)

unfoldable pub fits_pretoken_language : List ℕ → Bool
fits_pretoken_language units =
    if all_have u_l units || all_have (u_sp + u_so + u_snl) units
    then true
    else if length units == 1 && is_set (get_or units 0 0) (u_n + u_sp + u_so + u_o)
    then true
    else if is_set (get_or units 0 0) (u_sp + u_so + u_o)
        && (all_have u_l (drop 1 units) && leb 2 (length units))
    then true
    else fits_symbols units

-- The length of the contraction at the front, behind the apostrophe's test.
unfoldable pub contraction_len : List ℕ → ℕ
contraction_len t =
    let a = bit_or (get_or t 1 0) 0x20 in
    let b = bit_or (get_or t 2 0) 0x20 in
    if a == b's' || (a == b't' || (a == b'm' || a == b'd'))
    then 2
    else if leb 3 (length t) && (get_or t 1 0 == 0xC5 && get_or t 2 0 == 0xBF)
    then 3
    else if leb 3 (length t)
        && (a == b'r' && b == b'e' || (a == b'v' && b == b'e' || a == b'l' && b == b'l'))
    then 3
    else 0

-- The `while (p < end)`, where a round takes a byte at least.
unfoldable pub letters_only : UcTables → ℕ → List ℕ → Bool
letters_only u zero p = true
letters_only u (suc fuel) p =
    let s = bp_utf8_next p in
    let rest = letters_only u fuel (drop s.adv p) in
    if length p == 0
    then true
    else if s.cp == malformed
    then false
    else if ltb (length p) s.adv
    then false
    else if not (is_set (bp_char_class u s.cp) cc_l)
    then false
    else rest

unfoldable pub blocked_by_contraction : UcTables → List ℕ → Bool
blocked_by_contraction u t =
    let m = contraction_len t in
    if ltb (length t) 2 || not (get_or t 0 0 == 0x27)
    then false
    else if m == 0 || leb (length t) m
    then false
    else letters_only u (length t) (drop m t)

unfoldable pub any_qcno : List CharUnit → Bool
any_qcno [] = false
any_qcno (x ∷ xs) = x.qcno || any_qcno xs

-- Behind the loop over the alignments.
unfoldable pub unaligned : List ℕ → Bool → Bool → Reason
unaligned t any_alignment fits_only_with_qcno =
    if fits_only_with_qcno
    then nfc_excluded
    else if leb (length t) 3 && all_cont t
    then no_reason
    else if any_alignment
    then pretoken_shape
    else invalid_utf8

-- The alignments `k` of the list.
unfoldable pub align_loop : UcTables → List ℕ → List ℕ → Bool → Bool → Reason
align_loop u t [] any_alignment fits_only = unaligned t any_alignment fits_only
align_loop u t (k ∷ ks) any_alignment fits_only = elim (alignment_units u t k) [
  | none ↦ align_loop u t ks any_alignment fits_only
  | some xs ↦
      let fits = fits_pretoken_language (map (λ x. x.bits) xs) in
      let rest = align_loop u t ks true (fits || fits_only) in
      if fits && not (any_qcno xs) then no_reason else rest
]

unfoldable pub prove_impossible : UcTables → List ℕ → Reason
prove_impossible u t =
    if blocked_by_contraction u t
    then contraction
    else align_loop u t (count_from 0 (min 4 (length t))) false false
