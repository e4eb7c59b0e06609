-- ===== src/Census/Report.antt =====
-- src/bp_census.c `bp_census_run` and `bp_census_witness`; what they print is left out, but for the two
-- ways to print bytes.
use bytepair.Base.{ℕ, zero, suc, ◌+◌, ◌/◌, ◌%◌, ltb, leb, ◌==◌, if◌then◌else◌, set, zeros}
use bytepair.Base.{Bool, true, ◌&&◌, ◌||◌, not, Option, none, some}
use bytepair.Base.{List, [], ◌∷◌, ◌++◌, length, get_or}
use bytepair.Context.{BpCtx}
use bytepair.Tables.{UcTables}
use bytepair.Vocab.{BpVocab, token_len}
use bytepair.Encode.{count, error, Reply, block_of}
use bytepair.Census.{
  Verdict, added, self, context, impossible, unresolved, Reason, no_reason, merge_order,
  invalid_utf8, pretoken_shape, contraction, nfc_excluded,
}
use bytepair.Census.Search.{contains_id, ctx_of, encode_witness}
use bytepair.Census.Token.{Cres, Judged, census_token}

-- A digit of `%02x` or `%04x`
abbrev pub hex_digit : ℕ → ℕ
hex_digit n = if ltb n 10 then b'0' + n else b'W' + n

unfoldable pub put_hex : List ℕ → List ℕ
put_hex [] = []
put_hex (b ∷ p) = hex_digit (b / 16) ∷ hex_digit (b % 16) ∷ put_hex p

unfoldable pub json_char : ℕ → List ℕ
json_char b =
    if b == 0x22 || b == 0x5C
    then 0x5C ∷ b ∷ []
    else if leb 0x20 b && ltb b 0x7F
    then b ∷ []
    else 0x5C ∷ b'u' ∷ b'0' ∷ b'0' ∷ hex_digit (b / 16) ∷ hex_digit (b % 16) ∷ []

unfoldable pub put_json_text : List ℕ → List ℕ
put_json_text [] = []
put_json_text (b ∷ p) = json_char b ++ put_json_text p

unfoldable pub verdict_index : Verdict → ℕ
verdict_index added = 0
verdict_index self = 1
verdict_index context = 2
verdict_index impossible = 3
verdict_index unresolved = 4

unfoldable pub reason_index : Reason → ℕ
reason_index no_reason = 0
reason_index merge_order = 1
reason_index invalid_utf8 = 2
reason_index pretoken_shape = 3
reason_index contraction = 4
reason_index nfc_excluded = 5

pub record Tally : Type 0 where
  pub counts : List ℕ
  pub reasons : List ℕ
  pub reverified : ℕ
  pub reverify_failed : ℕ
  pub ctx : BpCtx

abbrev pub one_more : List ℕ → ℕ → List ℕ
one_more xs i = set xs i (get_or xs i 0 + 1)

-- `counts[r.verdict]++; if (r.verdict == CV_IMPOSSIBLE) reasons[r.reason]++`
unfoldable pub tallied : Tally → Judged → Tally
tallied s j = record s {
  counts = one_more s.counts (verdict_index j.res.verdict);
  reasons = elim j.res.verdict [
    | impossible ↦ one_more s.reasons (reason_index j.res.reason)
    | _ ↦ s.reasons
  ];
  ctx = j.ctx;
}

-- `m <= 0 || !contains_id(ids, m, t)`
unfoldable pub misses : ℕ → Reply → Bool
misses t r = elim r.code [
  | count m ↦ m == 0 || not (contains_id (block_of r.out) m t)
  | error e ↦ true
]

unfoldable pub reverify : ℕ → Tally → Reply → Tally
reverify t s r = record s {
  reverified = s.reverified + 1;
  reverify_failed = if misses t r then s.reverify_failed + 1 else s.reverify_failed;
  ctx = ctx_of s.ctx r.ctx;
}

-- A verdict with a witness is encoded once more.
unfoldable pub checked : (ℕ → Bool) → UcTables → ℕ → Tally → Cres → Tally
checked alloc u t s res = elim res.verdict [
  | self ↦ reverify t s (encode_witness alloc u s.ctx res.witness)
  | context ↦ reverify t s (encode_witness alloc u s.ctx res.witness)
  | _ ↦ s
]

-- A round of `for (t = 0; t < n; t++)`
unfoldable pub census_step : (ℕ → Bool) → UcTables → BpVocab → Bool → ℕ → Tally → Tally
census_step alloc u v deep t s =
    let j = census_token alloc u v s.ctx t deep in
    if token_len v t == 0 then s else checked alloc u t (tallied s j) j.res

unfoldable pub census_loop : (ℕ → Bool) → UcTables → BpVocab → Bool → ℕ → ℕ → Tally → Tally
census_loop alloc u v deep zero t s = s
census_loop alloc u v deep (suc n) t s =
    census_loop alloc u v deep n (t + 1) (census_step alloc u v deep t s)

-- The sums that are printed; `exit_code` is the value returned.
unfoldable pub bp_census_run : (ℕ → Bool) → UcTables → BpVocab → BpCtx → Bool → ℕ → Tally
bp_census_run alloc u v c deep limit =
    let n = if not (limit == 0) && ltb limit v.hdr.vocab_count then limit else v.hdr.vocab_count in
    census_loop alloc u v deep n 0
      (record { counts = zeros 5; reasons = zeros 6; reverified = 0; reverify_failed = 0; ctx = c })

unfoldable pub exit_code : Tally → ℕ
exit_code s = if s.reverify_failed == 0 then 0 else 1

-- `none` is the return value 1; otherwise the result, and the answer to its witness if it has one.
pub record Shown : Type 0 where
  pub res : Cres
  pub ids : Option Reply

unfoldable pub shown_ids : (ℕ → Bool) → UcTables → Judged → Shown
shown_ids alloc u j = record {
  res = j.res;
  ids =
      if length j.res.witness == 0 then none else some (encode_witness alloc u j.ctx j.res.witness);
}

unfoldable pub bp_census_witness : (ℕ → Bool) → UcTables → BpVocab → BpCtx → ℕ → Option Shown
bp_census_witness alloc u v c t =
    if leb v.hdr.vocab_count t
    then none
    else some (shown_ids alloc u (census_token alloc u v c t true))
