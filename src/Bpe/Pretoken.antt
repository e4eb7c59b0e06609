-- ===== src/Bpe/Pretoken.antt =====
-- src/bp_bpe.c `merge_long` (its buffers and its output) and `bp_bpe_pretoken`, with the cache.
pub mod Cache
pub mod Served
pub mod Tiny
pub mod Filled
pub mod Encodes
use bytepair.Base.{ℕ, ◌+◌, ◌*◌, ◌%◌, ◌-◌, ltb, leb, ◌==◌, if◌then◌else◌, bit_and}
use bytepair.Base.{Bool, true, false, ◌&&◌, not, Option, none, some}
use bytepair.Base.{List, [], ◌∷◌, length, get_or, set, take, map, write_at}
use bytepair.Sink.{Sink, bp_sink_put, bp_sink_put1}
use bytepair.Vocab.{BpVocab, pair_empty}
use bytepair.Vocab.Pairs.{bp_pair_lookup}
use bytepair.Context.{CacheEnt, BpCtx, bp_buf_reserve, bp_ids_reserve, bp_hash_bytes}
use bytepair.Bpe.{id_bits, merge_short}
use bytepair.Bpe.Long.{LongRun, finished, out_of_memory, out_of_fuel, run_long, collect}

-- The status of a call: 0 or `BP_E_NOMEM`.
pub data Status : Type 0 where
  ok no_memory : Status

-- What a call leaves behind: its status, and the context and the sink that it has changed.
pub record Outcome : Type 0 where
  pub status : Status
  pub ctx : BpCtx
  pub sink : Sink

-- `sizeof(node)` and `sizeof(heap_ent)`
abbrev pub node_size : ℕ
node_size = 16

abbrev pub heap_ent_size : ℕ
heap_ent_size = 12

abbrev pub short_max : ℕ
short_max = 64

abbrev pub cache_max_bytes : ℕ
cache_max_bytes = 38

abbrev pub cache_max_ids : ℕ
cache_max_ids = 16

-- `ids[i] = v->byte_id[p[i]]`
unfoldable pub byte_ids : BpVocab → List ℕ → List ℕ
byte_ids v p = map (λ b. get_or v.byte_id b 0) p

-- A run that does not end in the given rounds is answered like a lack of memory.
unfoldable pub merge_long : (ℕ → Bool) → BpCtx → List ℕ → Sink → Outcome
merge_long alloc c p sink =
    let n = length p in
    elim (bp_buf_reserve alloc c.work_cap (n * node_size + 2 * n * heap_ent_size)) [
      | none ↦ record { status = no_memory; ctx = c; sink = sink }
      | some work ↦
          let c' = record c { work_cap = work } in
          elim (run_long c.v p) [
            | out_of_memory ↦ record { status = no_memory; ctx = c'; sink = sink }
            | out_of_fuel ↦ record { status = no_memory; ctx = c'; sink = sink }
            | finished nd ↦ elim (bp_ids_reserve alloc c.ids_cap n) [
              | none ↦ record { status = no_memory; ctx = c'; sink = sink }
              | some room ↦ record {
                status = ok;
                ctx = record c' { ids_cap = room };
                sink = bp_sink_put sink (collect n nd 0);
              }
            ]
          ]
    ]

-- `!memcmp(a, b, n)` on blocks of one length.
unfoldable pub same_bytes : List ℕ → List ℕ → Bool
same_bytes [] [] = true
same_bytes [] (y ∷ ys) = false
same_bytes (x ∷ xs) [] = false
same_bytes (x ∷ xs) (y ∷ ys) = x == y && same_bytes xs ys

abbrev pub no_cache_ent : CacheEnt
no_cache_ent = record { hash = 0; len = 0; nids = 0; bytes = []; ids = [] }

unfoldable pub cache_hit : CacheEnt → ℕ → List ℕ → Bool
cache_hit ent h p =
    ent.len == length p && (ent.hash == h && same_bytes (take (length p) ent.bytes) p)

unfoldable pub fill : CacheEnt → ℕ → List ℕ → List ℕ → CacheEnt
fill ent h p ids = record {
  hash = h;
  len = length p % 256;
  nids = length ids % 256;
  bytes = write_at ent.bytes 0 p;
  ids = write_at ent.ids 0 ids;
}

-- The two-byte case: one lookup, whatever the rank.
unfoldable pub put_two : BpVocab → ℕ → ℕ → Sink → Sink
put_two v a b sink =
    let val = bp_pair_lookup v a b in
    if val == pair_empty
    then bp_sink_put1 (bp_sink_put1 sink a) b
    else bp_sink_put1 sink (id_bits val)

-- Behind a miss, or with no cache for this pretoken: `slots` is the cache with the entry's index.
unfoldable pub encode_miss :
    (ℕ → Bool) → BpCtx → List ℕ → Sink → Option (List CacheEnt × ℕ × ℕ) → Outcome
encode_miss alloc c p sink place =
    if ltb short_max (length p)
    then merge_long alloc c p sink
    else (let ids = merge_short c.v (byte_ids c.v p) in
        let stored : BpCtx = elim place [
          | none ↦ c
          | some (cache, h, i) ↦
              if leb (length ids) cache_max_ids
              then record c {
                cache = some (set cache i (fill (get_or cache i no_cache_ent) h p ids));
              }
              else c
        ] in
        record { status = ok; ctx = stored; sink = bp_sink_put sink ids })

-- The entry is looked for if there is a cache and the pretoken fits one.
unfoldable pub encode_with : (ℕ → Bool) → BpCtx → List ℕ → Sink → Option (List CacheEnt) → Outcome
encode_with alloc c p sink none = encode_miss alloc c p sink none
encode_with alloc c p sink (some cache) =
    let h = bp_hash_bytes p in
    let i = bit_and h c.cache_mask in
    let ent = get_or cache i no_cache_ent in
    if leb (length p) cache_max_bytes
    then (if cache_hit ent h p
        then record { status = ok; ctx = c; sink = bp_sink_put sink (take ent.nids ent.ids) }
        else encode_miss alloc c p sink (some (cache, h, i)))
    else encode_miss alloc c p sink none

unfoldable pub encode_cached : (ℕ → Bool) → BpCtx → List ℕ → Sink → Outcome
encode_cached alloc c p sink = encode_with alloc c p sink c.cache

unfoldable pub bp_bpe_pretoken : (ℕ → Bool) → BpCtx → List ℕ → Sink → Outcome
bp_bpe_pretoken alloc c [] sink = record { status = ok; ctx = c; sink = sink }
bp_bpe_pretoken alloc c (b ∷ []) sink = record {
  status = ok;
  ctx = c;
  sink = bp_sink_put1 sink (get_or c.v.byte_id b 0);
}
bp_bpe_pretoken alloc c (a ∷ b ∷ []) sink = record {
  status = ok;
  ctx = c;
  sink = put_two c.v (get_or c.v.byte_id a 0) (get_or c.v.byte_id b 0) sink;
}
bp_bpe_pretoken alloc c (x ∷ y ∷ z ∷ p) sink = encode_cached alloc c (x ∷ y ∷ z ∷ p) sink
