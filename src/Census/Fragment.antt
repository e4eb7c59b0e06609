-- ===== src/Census/Fragment.antt =====
-- src/bp_census.c `try_fragment_exhaustive`: all completions of a short token by one character, and
-- by one more that takes the completing byte away.
use bytepair.Base.{ℕ, zero, suc, ◌+◌, ◌-◌, ◌/◌, ◌^◌, ltb, ◌==◌, if◌then◌else◌, count_from}
use bytepair.Base.{Bool, ◌&&◌, ◌||◌, not, List, [], ◌∷◌, ◌++◌, length, get_or}
use bytepair.Utf8.{is_cont}
use bytepair.Context.{BpCtx}
use bytepair.Tables.{UcTables}
use bytepair.Vocab.{BpVocab, pair_empty}
use bytepair.Vocab.Pairs.{bp_pair_lookup}
use bytepair.Bpe.{rank_bits}
use bytepair.Census.Units.{utf8_len_from_lead, all_cont, cont_of}
use bytepair.Census.Search.{Affixes, Found, try_all}
use bytepair.Census.Glue.{repeated, for_each}

-- `n` continuation bytes, from the low bits of `v` at the front.
unfoldable pub cont_run : ℕ → ℕ → List ℕ
cont_run zero v = []
cont_run (suc n) v = cont_of v ∷ cont_run n (v / 2 ^ 6)

-- A completing byte and the character that follows, of lead `yy`.
unfoldable pub follower : ℕ → ℕ → List ℕ
follower x yy =
    let pad = if yy == 0xE0 then 0xA0 else if yy == 0xF0 then 0x90 else 0x80 in
    let m = if ltb 0x7E yy then utf8_len_from_lead yy else 1 in x ∷ yy ∷ repeated (m - 1) pad

-- `yy > 0x7E && utf8_len_from_lead(yy) == 0`
unfoldable pub no_lead : ℕ → Bool
no_lead yy = ltb 0x7E yy && utf8_len_from_lead yy == 0

abbrev with_suffix : List ℕ → List Affixes
with_suffix suf = record { pre = []; suf = suf } ∷ []

unfoldable pub follow_at : ℕ → ℕ → List Affixes
follow_at b yy = if no_lead yy then [] else with_suffix (follower b yy)

-- The completions by one character, and by two where a byte is missing.
unfoldable pub complete_affixes : List ℕ → List Affixes
complete_affixes tb =
    let need = utf8_len_from_lead (get_or tb 0 0) in
    let missing = need - length tb in
    let one = for_each (λ v. with_suffix (cont_run missing v)) (count_from 0 (64 ^ missing)) in
    let two = for_each (λ b. for_each (follow_at b) (count_from 0x21 212)) (count_from 0x80 64) in
    if not (ltb (length tb) need) || ltb 2 missing
    then []
    else if missing == 1
    then one ++ two
    else one

-- The rank of `steal` is below that of `absorb`.
unfoldable pub outranks : ℕ → ℕ → Bool
outranks steal absorb = not (steal == pair_empty) && ltb (rank_bits steal) (rank_bits absorb)

unfoldable pub steal_at : BpVocab → ℕ → ℕ → ℕ → List Affixes
steal_at v absorb xx yy =
    let steal = bp_pair_lookup v (get_or v.byte_id xx 0) (get_or v.byte_id yy 0) in
    if no_lead yy then [] else if outranks steal absorb then with_suffix (follower xx yy) else []

unfoldable pub steal_round : BpVocab → ℕ → ℕ → List Affixes
steal_round v first xx =
    let absorb = bp_pair_lookup v (get_or v.byte_id first 0) (get_or v.byte_id xx 0) in
    if absorb == pair_empty then [] else for_each (steal_at v absorb xx) (count_from 0x20 213)

-- The targeted rank steal, for a bare lead of a 2-byte character.
unfoldable pub steal_affixes : BpVocab → List ℕ → List Affixes
steal_affixes v tb =
    let first = get_or tb 0 0 in
    if length tb == 1 && utf8_len_from_lead first == 2
    then for_each (steal_round v first) (count_from 0x80 64)
    else []

unfoldable pub run_at : ℕ → ℕ → ℕ → ℕ → Affixes
run_at lead off behind_len v = record {
  pre = lead ∷ cont_run (off - 1) v;
  suf = cont_run behind_len (v / 64 ^ (off - 1));
}

abbrev one_run : Affixes → List Affixes
one_run a = a ∷ []

unfoldable pub run_offset : ℕ → ℕ → ℕ → ℕ → List Affixes
run_offset tn lead m off =
    let padn = off - 1 + (m - off - tn) in
    if ltb 2 padn
    then []
    else for_each (λ v. one_run (run_at lead off (m - off - tn) v)) (count_from 0 (64 ^ padn))

-- `off + tn <= m`; no round where the lead is none.
unfoldable pub run_lead : ℕ → ℕ → List Affixes
run_lead tn lead =
    let m = utf8_len_from_lead lead in
    if m == 0 then [] else for_each (run_offset tn lead m) (count_from 1 (m - tn))

-- The continuation bytes inside one character.
unfoldable pub run_affixes : List ℕ → List Affixes
run_affixes tb = if all_cont tb then for_each (run_lead (length tb)) (count_from 0xC2 51) else []

unfoldable pub fragment_affixes : BpVocab → List ℕ → List Affixes
fragment_affixes v tb =
    let first = get_or tb 0 0 in
    if ltb 3 (length tb)
    then []
    else if utf8_len_from_lead first == 0 && not (is_cont first)
    then []
    else complete_affixes tb ++ (steal_affixes v tb ++ run_affixes tb)

unfoldable pub try_fragment_exhaustive : (ℕ → Bool) → UcTables → ℕ → List ℕ → BpCtx → Found
try_fragment_exhaustive alloc u t tb c = try_all alloc u t tb (fragment_affixes c.v tb) c
