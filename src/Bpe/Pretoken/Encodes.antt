-- ===== src/Bpe/Pretoken/Encodes.antt =====
-- src/bp_bpe.c `bp_bpe_pretoken`, path by path.
use mathlib.Core.Path.{subst}
use bytepair.Base.{◌^◌, ℕ, ◌*◌, ◌+◌, ◌<◌, ◌≤◌, ltb, leb}
use bytepair.Base.{Bool, true, Bool-cases, leb→le, le→ltb}
use bytepair.Base.{Option, none, some, bit_and}
use bytepair.Base.{List, [], ◌∷◌, ◌++◌, length, get_or, take, All-get_or}
use bytepair.Base.{arith, ◌≡◌, refl, inl, inr, append-nil}
use bytepair.Sink.{Sink, bp_sink_put}
use bytepair.Sink.Laws.{Buffer, Holds, bp_sink_put-Holds}
use bytepair.Context.{CacheEnt, BpCtx, bp_hash_bytes}
use bytepair.Bpe.Pretoken.Served.{IsServed}
use bytepair.Context.Reserve.{IsGranting, bp_buf_reserve_granted, bp_ids_reserve_granted}
use bytepair.Bpe.Long.Encodes.{run_long-merge_short}
use bytepair.Bpe.{merge_short}
use bytepair.Bpe.Spec.{RanksProper}
use bytepair.Bpe.Pretoken.{
  ok, byte_ids, no_cache_ent, cache_hit, encode_miss, encode_with, encode_cached, bp_bpe_pretoken,
  cache_max_bytes, short_max, node_size, heap_ent_size, merge_long,
}
use bytepair.Bpe.Pretoken.Cache.{encode_bytes, IsEntry, IsCached, slot_inside, hit_right, Puts}
use bytepair.Bpe.Pretoken.Tiny.{merge_none, merge_one, put1-Holds, put_two-Holds}
use bytepair.Bpe.Pretoken.Filled.{entry, refilled-IsCached}

module _ (alloc : ℕ → Bool) (c : BpCtx) (p : List ℕ) {orig : Buffer} {xs : List ℕ}
    {sink : Sink} where
  -- The heap path, on a system that grants its buffers.
  long-Puts :
      IsGranting alloc
      → IsCached c
      → RanksProper c.v
      → length p < 2 ^ 31
      → 0 < length p
      → Holds orig xs sink
      → Puts c p orig xs (merge_long alloc c p sink)
  unfolding merge_long encode_bytes
  long-Puts grants cached ranks small some_bytes held =
      let n = length p in
      let (work, worked) =
        bp_buf_reserve_granted alloc c.work_cap (n * node_size + 2 * n * heap_ent_size) grants in
      let (room, roomed) = bp_ids_reserve_granted alloc c.ids_cap n grants in
      let (nd, ends, same) = run_long-merge_short c.v p ranks small some_bytes in
      rw (merge_long, worked, ends, roomed)
        (record {
          status_ok = refl;
          same_vocab = refl;
          still_cached = cached;
          held = rw same (bp_sink_put-Holds held (merge_short c.v (byte_ids c.v p)));
        })

  -- With no entry to fill the cache stays as it is.
  miss_alone :
      IsCached c
      → RanksProper c.v
      → IsServed alloc p
      → Holds orig xs sink
      → Puts c p orig xs (encode_miss alloc c p sink none)
  unfolding encode_miss encode_bytes
  miss_alone cached ranks served held = elim (Bool-cases (ltb short_max (length p))) [
    | inr short ↦ rw short (record {
      status_ok = refl;
      same_vocab = refl;
      still_cached = cached;
      held = bp_sink_put-Holds held (merge_short c.v (byte_ids c.v p));
    })
    | inl long ↦ elim served [
      | inl short ↦ absurd (ground arith)
      | inr (grants, small) ↦ rw long (long-Puts grants cached ranks small (ground arith) held)
    ]
  ]

  miss_stored :
      (entries : List CacheEnt) (h : ℕ)
      → IsCached c
      → c.cache ≡ some entries
      → length p ≤ 38
      → Holds orig xs sink
      → Puts c p orig xs (encode_miss alloc c p sink (some (entries, h, bit_and h c.cache_mask)))
  unfolding encode_miss encode_bytes
  miss_stored entries h cached here short held =
      elim (Bool-cases (leb (length (encode_bytes c.v p)) 16)) [
        | inl few ↦
            rw (le→ltb 64 (length p) (omega arith), few)
              (record {
                status_ok = refl;
                same_vocab = refl;
                still_cached =
                    refilled-IsCached c p entries h (cached entries here) short (leb→le _ _ few);
                held = bp_sink_put-Holds held (encode_bytes c.v p);
              })
        | inr many ↦
            rw (le→ltb 64 (length p) (omega arith), many)
              (record {
                status_ok = refl;
                same_vocab = refl;
                still_cached = cached;
                held = bp_sink_put-Holds held (encode_bytes c.v p);
              })
      ]

  hit-Puts :
      (entries : List CacheEnt) (h : ℕ)
      → IsCached c
      → c.cache ≡ some entries
      → 0 < length p
      → cache_hit (entry c p entries h) h p ≡ true
      → Holds orig xs sink
      → Puts c p orig xs (record {
        status = ok;
        ctx = c;
        sink = bp_sink_put sink (take (entry c p entries h).nids (entry c p entries h).ids);
      })
  hit-Puts entries h cached here some_bytes hit held = record {
    status_ok = refl;
    same_vocab = refl;
    still_cached = cached;
    held =
        subst (λ ids. Holds orig (xs ++ ids) (bp_sink_put sink stored)) right
          (bp_sink_put-Holds held stored);
  }
    where
      stored : List ℕ
      stored = take (entry c p entries h).nids (entry c p entries h).ids

      right : take (entry c p entries h).nids (entry c p entries h).ids ≡ encode_bytes c.v p
      right =
          hit_right (entry c p entries h) h p
            (All-get_or (IsEntry c.v) entries (bit_and h c.cache_mask) no_cache_ent
              (cached entries here).all_right (slot_inside h (cached entries here)))
            some_bytes hit

  with-Puts :
      (cache : Option (List CacheEnt))
      → c.cache ≡ cache
      → IsCached c
      → RanksProper c.v
      → 0 < length p
      → IsServed alloc p
      → Holds orig xs sink
      → Puts c p orig xs (encode_with alloc c p sink cache)
  unfolding encode_with
  with-Puts none here cached ranks some_bytes served held = miss_alone cached ranks served held
  with-Puts (some entries) here cached ranks some_bytes served held =
      elim (Bool-cases (leb (length p) cache_max_bytes)) [
        | inr too_long ↦ rw too_long (miss_alone cached ranks served held)
        | inl fits ↦ elim (Bool-cases (cache_hit (entry c p entries h) h p)) [
          | inl hit ↦ rw (fits, hit) (hit-Puts entries h cached here some_bytes hit held)
          | inr no_hit ↦
              rw (fits, no_hit) (miss_stored entries h cached here (leb→le _ _ fits) held)
        ]
      ]
    where
      h : ℕ
      h = bp_hash_bytes p

-- For a context whose cache holds encodings and a vocabulary without merges of rank 0xFFFFFFFF: a
-- pretoken of at most 64 bytes, or of fewer than 2^31 where every buffer is granted, has its
-- encoding put behind what the sink holds, whether or not the cache knows it and on whichever
-- path; the call succeeds, and the context keeps its vocabulary and a cache that holds encodings.
pub bp_bpe_pretoken-Puts :
    (alloc : ℕ → Bool) (c : BpCtx) (p : List ℕ) {orig : Buffer} {xs : List ℕ} {sink : Sink}
    → IsCached c
    → RanksProper c.v
    → IsServed alloc p
    → Holds orig xs sink
    → Puts c p orig xs (bp_bpe_pretoken alloc c p sink)
unfolding bp_bpe_pretoken encode_cached encode_bytes byte_ids
bp_bpe_pretoken-Puts alloc c [] {orig} {xs} {sink} cached ranks served held = record {
  status_ok = refl;
  same_vocab = refl;
  still_cached = cached;
  held = rw (merge_none c.v, append-nil) held;
}
bp_bpe_pretoken-Puts alloc c (a ∷ []) {orig} {xs} {sink} cached ranks served held = record {
  status_ok = refl;
  same_vocab = refl;
  still_cached = cached;
  held = rw (merge_one c.v (get_or c.v.byte_id a 0)) (put1-Holds held (get_or c.v.byte_id a 0));
}
bp_bpe_pretoken-Puts alloc c (a ∷ b ∷ []) cached ranks served held = record {
  status_ok = refl;
  same_vocab = refl;
  still_cached = cached;
  held = put_two-Holds held c.v (get_or c.v.byte_id a 0) (get_or c.v.byte_id b 0) ranks;
}
bp_bpe_pretoken-Puts alloc c (x ∷ y ∷ z ∷ p) cached ranks served held =
    with-Puts alloc c (x ∷ y ∷ z ∷ p) c.cache refl cached ranks (omega arith) served held
