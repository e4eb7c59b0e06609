-- ===== src/Bpe/Pretoken/Cache.antt =====
-- src/bp_bpe.c: the pretoken cache, what its entries must hold, and a hit and a refill.
use native.Mathlib.Nat.{mod-lt, one-le-pow}
use bytepair.Base.{ℕ, zero, suc, ◌-◌, ◌%◌, ◌^◌, ◌<◌, ◌≤◌}
use bytepair.Base.{true, bit_and, and_mask}
use bytepair.Base.{some}
use bytepair.Base.{List, [], ◌∷◌, ◌++◌, length, set, take, All}
use bytepair.Base.{length-write_at, take-write_at_start}
use bytepair.Base.{arith, ◌≡◌, refl, sym, ap, ◌∙◌, ◌⊎◌, inl, inr}
use bytepair.Sink.Laws.{Buffer, Holds}
use bytepair.Vocab.{BpVocab}
use bytepair.Context.{CacheEnt, BpCtx}
use bytepair.Bpe.{merge_short}
use bytepair.Bpe.Pretoken.{Outcome, ok, byte_ids, same_bytes, cache_hit, fill}

-- The encoding of the bytes of a pretoken.
unfoldable pub encode_bytes : BpVocab → List ℕ → List ℕ
encode_bytes v p = merge_short v (byte_ids v p)

-- An entry is empty, or it holds an encoding.
pub record IsEntry (v : BpVocab) (e : CacheEnt) : Type 0 where
  pub bytes_room : length e.bytes ≡ 38
  pub ids_room : length e.ids ≡ 16
  pub right : (e.len ≡ 0) ⊎ (take e.nids e.ids ≡ encode_bytes v (take e.len e.bytes))

pub record IsCache (v : BpVocab) (mask : ℕ) (entries : List CacheEnt) : Type 0 where
  pub log2 : ℕ
  pub mask_eq : mask ≡ 2 ^ log2 - 1
  pub size_eq : length entries ≡ 2 ^ log2
  pub all_right : All (IsEntry v) entries

-- A context without a cache, or with one that holds encodings.
abbrev pub IsCached : BpCtx → Type 0
IsCached c = (entries : List CacheEnt) → c.cache ≡ some entries → IsCache c.v c.cache_mask entries

pub same_bytes→eq : (xs ys : List ℕ) → same_bytes xs ys ≡ true → xs ≡ ys
unfolding same_bytes
same_bytes→eq [] [] h = refl
same_bytes→eq [] (y ∷ ys) h = cc
same_bytes→eq (x ∷ xs) [] h = cc
same_bytes→eq (x ∷ xs) (y ∷ ys) h = ground (arith, same_bytes→eq xs ys)

pub slot_inside :
    {v : BpVocab} {mask : ℕ} {entries : List CacheEnt} (h : ℕ)
    → IsCache v mask entries
    → bit_and h mask < length entries
slot_inside h k =
    rw (k.mask_eq, and_mask k.log2 h, k.size_eq) (mod-lt h (one-le-pow k.log2 2 (omega arith)))

pub All-set {ℓ} :
    {A : Type ℓ} (P : A → Type 0) (xs : List A) (i : ℕ) (x : A)
    → All P xs
    → P x
    → All P (set xs i x)
All-set P [] i x h px = tt
All-set P (y ∷ xs) zero x (py, h) px = (px, h)
All-set P (y ∷ xs) (suc i) x (py, h) px = (py, All-set P xs i x h px)

-- A hit is a hit on these bytes, whatever the hash is worth.
pub hit_right :
    {v : BpVocab} (e : CacheEnt) (h : ℕ) (p : List ℕ)
    → IsEntry v e
    → 0 < length p
    → cache_hit e h p ≡ true
    → take e.nids e.ids ≡ encode_bytes v p
unfolding cache_hit
hit_right {v} e h p entry some_bytes hit = elim entry.right [
  | inl empty ↦ absurd (omega (arith, empty, len_eq))
  | inr held ↦ held ∙ ap (encode_bytes v) (rw len_eq bytes_eq)
]
  where
    len_eq : e.len ≡ length p
    len_eq = ground arith

    bytes_eq : take (length p) e.bytes ≡ p
    bytes_eq = same_bytes→eq _ _ (ground arith)

-- What is stored on a miss is right.
pub fill-IsEntry :
    {v : BpVocab} (e : CacheEnt) (h : ℕ) (p : List ℕ)
    → IsEntry v e
    → length p ≤ 38
    → length (encode_bytes v p) ≤ 16
    → IsEntry v (fill e h p (encode_bytes v p))
unfolding fill
fill-IsEntry {v} e h p entry short few = record {
  bytes_room = length-write_at e.bytes 0 p ∙ entry.bytes_room;
  ids_room = length-write_at e.ids 0 (encode_bytes v p) ∙ entry.ids_room;
  right = inr (
      rw (small_ids, small_bytes)
        (take-write_at_start e.ids (encode_bytes v p) (omega (arith, entry.ids_room))
          ∙ ap (encode_bytes v)
              (sym (take-write_at_start e.bytes p (omega (arith, entry.bytes_room))))));
}
  where
    small_bytes : length p % 256 ≡ length p
    small_bytes = omega arith

    small_ids : length (encode_bytes v p) % 256 ≡ length (encode_bytes v p)
    small_ids = omega arith

-- The call puts exactly the encoding of `p` behind what the sink holds, and succeeds.
pub record Puts (c : BpCtx) (p : List ℕ) (orig : Buffer) (xs : List ℕ) (o : Outcome) : Type 0 where
  pub status_ok : o.status ≡ ok
  pub same_vocab : o.ctx.v ≡ c.v
  pub still_cached : IsCached o.ctx
  pub held : Holds orig (xs ++ encode_bytes c.v p) o.sink
