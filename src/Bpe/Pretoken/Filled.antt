-- ===== src/Bpe/Pretoken/Filled.antt =====
-- src/bp_bpe.c `bp_bpe_pretoken`: the entry of the cache that a miss fills.
use mathlib.Core.Path.{subst}
use bytepair.Base.{ℕ, ◌≤◌}
use bytepair.Base.{some, bit_and}
use bytepair.Base.{List, length, get_or, set, All-get_or, length-set}
use bytepair.Base.{◌∙◌}
use bytepair.Context.{CacheEnt, BpCtx}
use bytepair.Bpe.Pretoken.{no_cache_ent, fill}
use bytepair.Bpe.Pretoken.Cache.{
  encode_bytes, IsEntry, IsCache, IsCached, slot_inside, All-set, fill-IsEntry,
}

module _ (c : BpCtx) (p : List ℕ) where
  abbrev pub entry : List CacheEnt → ℕ → CacheEnt
  entry entries h = get_or entries (bit_and h c.cache_mask) no_cache_ent

  abbrev refilled : List CacheEnt → ℕ → List CacheEnt
  refilled entries h =
      set entries (bit_and h c.cache_mask) (fill (entry entries h) h p (encode_bytes c.v p))

  refilled-IsCache :
      (entries : List CacheEnt) (h : ℕ)
      → IsCache c.v c.cache_mask entries
      → length p ≤ 38
      → length (encode_bytes c.v p) ≤ 16
      → IsCache c.v c.cache_mask (refilled entries h)
  refilled-IsCache entries h k short few = record {
    log2 = k.log2;
    mask_eq = k.mask_eq;
    size_eq = length-set entries (bit_and h c.cache_mask) _ ∙ k.size_eq;
    all_right = All-set (IsEntry c.v) entries (bit_and h c.cache_mask) _ k.all_right (
        fill-IsEntry (entry entries h) h p
          (All-get_or (IsEntry c.v) entries (bit_and h c.cache_mask) no_cache_ent k.all_right
            (slot_inside h k))
          short few);
  }

  pub refilled-IsCached :
      (entries : List CacheEnt) (h : ℕ)
      → IsCache c.v c.cache_mask entries
      → length p ≤ 38
      → length (encode_bytes c.v p) ≤ 16
      → IsCached (record c { cache = some (refilled entries h) })
  refilled-IsCached entries h k short few es e =
      subst (IsCache c.v c.cache_mask) (cc e) (refilled-IsCache entries h k short few)
