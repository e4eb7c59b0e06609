-- ===== src/Context.antt =====
-- src/bp_internal.h `bp_buf`, `bp_cache_ent`, `struct bp_ctx`, `bp_hash_bytes`, and src/bp_util.c
-- `bp_buf_reserve`, `bp_ids_reserve`. A scratch buffer is its capacity: what it holds is written
-- before it is read in every call, so its users carry the contents as values. Whether `realloc`
-- finds a block of so many bytes is the parameter `alloc`.
pub mod Reserve
use bytepair.Base.{ℕ, zero, suc, ◌+◌, ◌-◌, ◌*◌, ◌/◌, ◌%◌, ◌^◌, bit_xor}
use bytepair.Base.{ltb, leb, ◌==◌, if◌then◌else◌, Bool, true, false, Option, none, some}
use bytepair.Base.{List, [], ◌∷◌, length, take, drop}
use bytepair.Vocab.{BpVocab}
use bytepair.Vocab.Pairs.{bp_fmix64}

pub record CacheEnt : Type 0 where
  pub hash : ℕ
  pub len : ℕ
  pub nids : ℕ
  pub bytes : List ℕ
  pub ids : List ℕ

-- `none` in `cache` is the null pointer.
pub record BpCtx : Type 0 where
  pub v : BpVocab
  pub norm_cap : ℕ
  pub work_cap : ℕ
  pub ids_cap : ℕ
  pub cache : Option (List CacheEnt)
  pub cache_mask : ℕ
  pub env_force_scalar : Bool

abbrev pub size_bits : ℕ
size_bits = 2 ^ 64

-- `while (cap < need) cap *= 2`, wrapping like `size_t`.
unfoldable pub grow : ℕ → ℕ → ℕ → ℕ
grow zero need cap = cap
grow (suc fuel) need cap = elim (ltb cap need) [
  | true ↦ grow fuel need (cap * 2 % size_bits)
  | false ↦ cap
]

-- The new capacity, or `none` for -1. 64 doublings pass every `need` up to 2^63.
unfoldable pub bp_buf_reserve : (ℕ → Bool) → ℕ → ℕ → Option ℕ
bp_buf_reserve alloc cap need =
    if leb need cap
    then some cap
    else (let cap' = grow 64 need (if cap == 0 then 4096 else cap) in
        if alloc cap' then some cap' else none)

unfoldable pub bp_ids_reserve : (ℕ → Bool) → ℕ → ℕ → Option ℕ
bp_ids_reserve alloc ids_cap need =
    if leb need ids_cap
    then some ids_cap
    else (let cap' = grow 64 need (if ids_cap == 0 then 1024 else ids_cap) in
        if alloc (cap' * 4 % size_bits) then some cap' else none)

-- A little-endian word of at most 8 bytes.
unfoldable pub le_word : List ℕ → ℕ
le_word [] = 0
le_word (b ∷ p) = b + 256 * le_word p

-- The `while (n >= 8)` and the rest; a round takes 8 bytes, so `n` rounds are enough.
unfoldable pub hash_words : ℕ → ℕ → List ℕ → ℕ
hash_words zero h p = h
hash_words (suc fuel) h p =
    let rest = hash_words fuel (bp_fmix64 (bit_xor h (le_word (take 8 p)))) (drop 8 p) in
    if leb 8 (length p)
    then rest
    else if length p == 0
    then h
    else bp_fmix64 (bit_xor h (le_word p))

unfoldable pub bp_hash_bytes : List ℕ → ℕ
bp_hash_bytes p =
    hash_words (suc (length p))
      (bit_xor 0xcbf29ce484222325 (length p * 0x9e3779b97f4a7c15 % 2 ^ 64)) p
