-- ===== src/Decode.antt =====
-- src/bp_encode.c `bp_decode`.
pub mod Special
pub mod Laws
use bytepair.Base.{ℕ, zero, suc, ◌+◌, ◌/◌, ltb, leb, ◌==◌, if◌then◌else◌}
use bytepair.Base.{Bool, true, false, ◌&&◌, ◌||◌, not, Option, none, some}
use bytepair.Base.{List, [], ◌∷◌, length, get_or, take}
use bytepair.Sink.{Sink, bp_sink_put}
use bytepair.Vocab.{BpVocab, no_added, token_len, token_bytes}
use bytepair.Context.{BpCtx}
use bytepair.Encode.{
  Error, range, arg, Code, count, error, Reply, block_of, is_null, is_set, bp_skip_special,
}

-- `while (lo < hi)`: the `special` bit of the added record of `id`, if there is one. Each round
-- shortens the range, so as many rounds as there are records are enough.
unfoldable pub is_special : BpVocab → ℕ → ℕ → ℕ → ℕ → Bool
is_special v id zero lo hi = false
is_special v id (suc fuel) lo hi =
    let mid = (lo + hi) / 2 in
    let a = get_or v.added mid no_added in
    let right = is_special v id fuel (mid + 1) hi in
    let left = is_special v id fuel lo mid in
    if ltb lo hi
    then (if ltb a.id id then right else if ltb id a.id then left else is_set a.flags 1)
    else false

unfoldable pub is_skipped : BpVocab → ℕ → ℕ → Bool
is_skipped v flags id =
    is_set flags bp_skip_special && is_special v id v.hdr.added_count 0 v.hdr.added_count

-- The `for` over the ids; the block of bytes fills like a sink.
pub record Decoded : Type 0 where
  pub code : Code
  pub sink : Sink

unfoldable pub decode_loop : BpVocab → ℕ → List ℕ → Sink → Decoded
decode_loop v flags [] sink = record { code = count sink.total; sink = sink }
decode_loop v flags (id ∷ ids) sink =
    let skip = decode_loop v flags ids sink in
    let put = decode_loop v flags ids (bp_sink_put sink (token_bytes v id)) in
    if leb v.hdr.vocab_count id
    then record { code = error range; sink = sink }
    else if is_skipped v flags id
    then skip
    else if token_len v id == 0
    then record { code = error range; sink = sink }
    else put

unfoldable pub decode_reply : BpCtx → Option (List ℕ) → Decoded → Reply
decode_reply c out d = record {
  code = d.code;
  ctx = some c;
  out = elim out [ none ↦ none | some block ↦ some d.sink.out ];
}

unfoldable pub bp_decode : Option BpCtx → Option (List ℕ) → ℕ → Option (List ℕ) → ℕ → ℕ → Reply
bp_decode none ids n out out_cap flags = record { code = error arg; ctx = none; out = out }
bp_decode (some c) ids n out out_cap flags =
    if (is_null ids && not (n == 0)) || (is_null out && not (out_cap == 0))
    then record { code = error arg; ctx = some c; out = out }
    else decode_reply c out (
        decode_loop c.v flags (take n (block_of ids))
          (record { out = block_of out; cap = out_cap; total = 0 }))
