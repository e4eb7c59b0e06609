-- ===== src/Loader/Session.antt =====
-- src/bp_vocab.c `bp_ctx_new`, and a session: open a vocabulary, make a context, encode and decode.
use bytepair.Base.{ℕ, zero, suc, ◌-◌, ◌^◌, ◌≤◌, ◌==◌, Bool-cases, Option-cases}
use bytepair.Base.{Bool, false, none, some, ◌<◌, List, length, All}
use bytepair.Base.{arith, ◌≡◌, refl, sym, ap, inl, inr}
use mathlib.Core.Path.{subst}
use bytepair.Utf8.Laws.{IsByte}
use bytepair.Tables.{UcTables, ClassesProper}
use bytepair.Vocab.{BpVocab}
use bytepair.Context.{CacheEnt, BpCtx}
use bytepair.Bpe.Bytes.{IsCoherent}
use bytepair.Bpe.Pretoken.Cache.{IsEntry, IsCache, IsCached}
use bytepair.Bpe.Spec.{RanksProper}
use bytepair.Encode.{bp_encode}
use bytepair.Encode.Match.{AddedProper}
use bytepair.Encode.Rounds.{IsPieceServed, split}
use bytepair.Encode.RoundTrip.{IsVocab, decode_answer, IsDecoded}
use bytepair.Encode.Restored.{normalized, normalized_kept, IsPieceKept}
use bytepair.Encode.Whole.{decode-encode_normalized}
use bytepair.Loader.Open.{
  Host, opened, bp_vocab_open, ℤ, pos, negsuc, log2_of, empty_ents, new_ctx, bp_ctx_new,
}
use bytepair.Loader.Opened.{bp_vocab_open-IsOpened}

length-empty_ents : (n : ℕ) → length (empty_ents n) ≡ n
unfolding empty_ents
length-empty_ents zero = refl
length-empty_ents (suc n) = ap suc (length-empty_ents n)

empty_ents-All : (v : BpVocab) (n : ℕ) → All (IsEntry v) (empty_ents n)
unfolding empty_ents
empty_ents-All v zero = tt
empty_ents-All v (suc n) =
    (record { bytes_room = refl; ids_room = refl; right = inl refl }, empty_ents-All v n)

new_ctx-IsCached : (os : Host) (v : BpVocab) (lg : ℕ) → IsCached (new_ctx os v lg)
unfolding new_ctx
new_ctx-IsCached os v lg entries e = elim (Bool-cases (lg == 0)) [
  | inl z ↦ absurd (cc (rw z at e))
  | inr nz ↦
      let same : empty_ents (2 ^ lg) ≡ entries = cc (rw nz at e) in
      rw nz (
        subst (IsCache v (2 ^ lg - 1)) same (record {
          log2 = lg;
          mask_eq = refl;
          size_eq = length-empty_ents (2 ^ lg);
          all_right = empty_ents-All v (2 ^ lg);
        }))
]

new_ctx-off : (os : Host) (v : BpVocab) (lg : ℕ) → lg ≡ 0 → (new_ctx os v lg).cache ≡ none
unfolding new_ctx
new_ctx-off os v lg e = rw e refl

new_ctx-on :
    (os : Host) (v : BpVocab) (lg : ℕ)
    → 0 < lg
    → (entries : List CacheEnt) × ((new_ctx os v lg).cache ≡ some entries)
      × (length entries ≡ 2 ^ lg)
      × ((new_ctx os v lg).cache_mask ≡ 2 ^ lg - 1)
unfolding new_ctx
new_ctx-on os v lg some_bits =
    let nz : (lg == 0) ≡ false = ground arith in
    rw nz (empty_ents (2 ^ lg), refl, length-empty_ents (2 ^ lg), refl)

-- What a context answered by `bp_ctx_new` is like.
pub record IsNew (v : BpVocab) (cache_log2 : ℤ) (c : BpCtx) : Type 0 where
  pub log2 : ℕ
  pub asked : log2_of cache_log2 ≡ some log2
  pub small : log2 ≤ 24
  pub same_vocab : c.v ≡ v
  pub off : log2 ≡ 0 → c.cache ≡ none
  pub on :
      0 < log2
      → (entries : List CacheEnt) × (c.cache ≡ some entries)
        × (length entries ≡ 2 ^ log2)
        × (c.cache_mask ≡ 2 ^ log2 - 1)
  pub cached : IsCached c

log2_small : (k : ℤ) (lg : ℕ) → log2_of k ≡ some lg → lg ≤ 24
unfolding log2_of
log2_small (pos n) lg e = ground arith
log2_small (negsuc zero) lg e = ground arith
log2_small (negsuc (suc n)) lg e = ground arith

granted-IsNew :
    (os : Host) (v : BpVocab) (k : ℤ) (c : BpCtx) (lg : ℕ)
    → log2_of k ≡ some lg
    → bp_ctx_new os (some v) k ≡ some c
    → IsNew v k c
unfolding bp_ctx_new
granted-IsNew os v k c lg asked e =
    let made : new_ctx os v lg ≡ c = ground arith in
    subst (IsNew v k) made (record {
      log2 = lg;
      asked = asked;
      small = log2_small k lg asked;
      same_vocab = unfold new_ctx in refl;
      off = new_ctx-off os v lg;
      on = new_ctx-on os v lg;
      cached = new_ctx-IsCached os v lg;
    })

-- A context that `bp_ctx_new` makes over `v` is over `v`, and the logarithm that it was asked
-- for, 15 by default, is at most 24: with 0 there is no cache, and with any other the cache has
-- two to that power entries, a mask of one less, and holds encodings.
pub bp_ctx_new-IsNew :
    (os : Host) (v : BpVocab) (k : ℤ) (c : BpCtx) → bp_ctx_new os (some v) k ≡ some c → IsNew v k c
unfolding bp_ctx_new
bp_ctx_new-IsNew os v k c e = elim (Option-cases (log2_of k)) [
  | inl refused ↦ absurd (cc (rw (refused, bp_ctx_new) at e))
  | inr (lg, asked) ↦ granted-IsNew os v k c lg asked e
]

-- The same for a text that need not be kept.
session-normalized :
    (os : Host) (null : Bool) (v : BpVocab) (k : ℤ) (c : BpCtx) (alloc : ℕ → Bool) (u : UcTables)
    (t block back : List ℕ) (flags : ℕ)
    → ((file : List ℕ) → os.file ≡ some file → All IsByte file)
    → bp_vocab_open os null ≡ opened v
    → bp_ctx_new os (some v) k ≡ some c
    → RanksProper v
    → IsCoherent v
    → ClassesProper u
    → All IsByte t
    → All (IsPieceServed alloc u v) (split v flags t)
    → length (normalized u v flags t) ≤ length block
    → IsDecoded back (normalized u v flags t) (
        decode_answer
          (bp_encode alloc u (some c) (some t) (length t) (some block) (length block) flags)
          back)
session-normalized os null v k c alloc u t block back flags bytes got made ranks coherent classes
      texts served room =
    let o = bp_vocab_open-IsOpened os null v bytes got in
    let n = bp_ctx_new-IsNew os v k c made in
    let voc : IsVocab v = record {
      ranks = ranks;
      coherent = coherent;
      in_range = o.in_range;
      bytes = o.bytes;
    } in
    let back_to = sym n.same_vocab in
    let decoded =
      decode-encode_normalized alloc u c t block back flags classes texts
        (subst IsVocab back_to voc) (subst AddedProper back_to o.added) n.cached
        (subst (λ w. All (IsPieceServed alloc u w) (split w flags t)) back_to served)
        (subst (λ w. length (normalized u w flags t) ≤ length block) back_to room) in
    subst
      (λ w. IsDecoded back (normalized u w flags t) (
        decode_answer
          (bp_encode alloc u (some c) (some t) (length t) (some block) (length block) flags) back))
      n.same_vocab decoded

-- For a file of bytes that `bp_vocab_open` opens as `v`, a context that `bp_ctx_new` makes over
-- it, whatever the cache, a vocabulary without merges of rank 0xFFFFFFFF whose merges join the
-- bytes of their parts, proper class tables, and a text of bytes whose pieces between its added
-- tokens are kept by the normaliser, as all are without the NFC flag of the vocabulary, and have
-- served pretokens (at most 64 bytes or, where every buffer is granted, fewer than 2^31):
-- encoding it into a block with room for an id per byte and decoding what was written gives the
-- number of its bytes, and `back` holds as many of the bytes of the text itself as it has cells
-- for.
pub session :
    (os : Host) (null : Bool) (v : BpVocab) (k : ℤ) (c : BpCtx) (alloc : ℕ → Bool) (u : UcTables)
    (t block back : List ℕ) (flags : ℕ)
    → ((file : List ℕ) → os.file ≡ some file → All IsByte file)
    → bp_vocab_open os null ≡ opened v
    → bp_ctx_new os (some v) k ≡ some c
    → RanksProper v
    → IsCoherent v
    → ClassesProper u
    → All IsByte t
    → All (IsPieceServed alloc u v) (split v flags t)
    → All (IsPieceKept u v) (split v flags t)
    → length t ≤ length block
    → IsDecoded back t (
        decode_answer
          (bp_encode alloc u (some c) (some t) (length t) (some block) (length block) flags)
          back)
session os null v k c alloc u t block back flags bytes got made ranks coherent classes texts served
      kept room =
    let o = bp_vocab_open-IsOpened os null v bytes got in
    let same = normalized_kept u v t o.added flags kept in
    subst
      (λ s. IsDecoded back s (
        decode_answer
          (bp_encode alloc u (some c) (some t) (length t) (some block) (length block) flags) back))
      same
      (session-normalized os null v k c alloc u t block back flags bytes got made ranks coherent
        classes texts served (omega (arith, room, ap length same)))
