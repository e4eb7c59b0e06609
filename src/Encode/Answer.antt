-- ===== src/Encode/Answer.antt =====
-- src/bp_encode.c `bp_encode`, `bp_count`: the answers for a text with added tokens.
use bytepair.Base.{sym, ◌∙◌, none, ℕ, suc, ◌≤◌, Bool-cases, ◌==◌, ◌||◌}
use bytepair.Base.{Bool, true, false, some, List, [], ◌∷◌, length, All}
use bytepair.Base.{take_all}
use bytepair.Base.{arith, ◌≡◌, refl, ap, inl, inr}
use mathlib.Core.Path.{subst}
use bytepair.Utf8.Laws.{IsByte}
use bytepair.Sink.Laws.{Buffer, start-Holds}
use bytepair.Bpe.Pretoken.{Outcome}
use bytepair.Vocab.{BpVocab}
use bytepair.Context.{BpCtx}
use bytepair.Tables.{UcTables, ClassesProper}
use bytepair.Bpe.Pretoken.Cache.{IsCached}
use bytepair.Bpe.Spec.{RanksProper}
use bytepair.Scan.Text.Laws.{Appends}
use bytepair.Encode.{
  count, Reply, reply_of, bp_count, bp_raw, is_set, encode_text, use_simd, bp_encode,
}
use bytepair.Encode.Match.{AddedProper}
use bytepair.Encode.Split.{text, pieces}
use bytepair.Encode.Laws.{Replies, reply_of-Replies}
use bytepair.Encode.Rounds.{piece_ids, IsPieceServed, split}
use bytepair.Encode.Loop.{encode_loop-Appends, last-Appends}

pub split_plain :
    (v : BpVocab) (flags : ℕ) (t : List ℕ)
    → (is_set flags bp_raw || v.hdr.added_count == 0) ≡ true
    → split v flags t ≡ text t ∷ []
unfolding split
split_plain v flags t e = rw e

pub split_cut :
    (v : BpVocab) (flags : ℕ) (t : List ℕ)
    → (is_set flags bp_raw || v.hdr.added_count == 0) ≡ false
    → split v flags t ≡ pieces v t (length t) 0 0
unfolding split
split_cut v flags t e = rw e

-- What `bp_count` answers, and the context that it leaves behind.
pub record Counts (v : BpVocab) (n : ℕ) (r : Reply) : Type 0 where
  pub counted : r.code ≡ count n
  pub next : BpCtx
  pub next_ctx : r.ctx ≡ some next
  pub same_vocab : next.v ≡ v
  pub still_cached : IsCached next

reply_of-Counts :
    {v : BpVocab} {orig : Buffer} {ids : List ℕ} {o : Outcome}
    → Appends v orig [] ids o
    → Counts v (length ids) (reply_of none o)
unfolding reply_of
reply_of-Counts {o} put = record {
  counted = rw put.status_ok (ap count put.held.counted);
  next = o.ctx;
  next_ctx = refl;
  same_vocab = put.same_vocab;
  still_cached = put.still_cached;
}

module _ (alloc : ℕ → Bool) (u : UcTables) (classes : ClassesProper u) where
  encode_text-Appends :
      (c : BpCtx) (t block : List ℕ) (cap flags : ℕ)
      → All IsByte t
      → IsCached c
      → RanksProper c.v
      → AddedProper c.v
      → All (IsPieceServed alloc u c.v) (split c.v flags t)
      → cap ≤ length block
      → Appends c.v
          (record { cells = block; room = cap })
          []
          (piece_ids u c.v (split c.v flags t))
          (encode_text alloc u c t (record { out = block; cap = cap; total = 0 }) flags)
  unfolding encode_text
  encode_text-Appends c t block cap flags bytes cached ranks proper direct room =
      elim (Bool-cases (is_set flags bp_raw || c.v.hdr.added_count == 0)) [
        | inl plain ↦
            rw (plain, split_plain c.v flags t plain)
              (last-Appends alloc u classes (record { cells = block; room = cap }) c.v ranks c t []
                (record { out = block; cap = cap; total = 0 }) (use_simd c flags) refl bytes cached
                (subst (All (IsPieceServed alloc u c.v)) (split_plain c.v flags t plain) direct)
                (start-Holds block cap room))
        | inr cut ↦
            rw (cut, split_cut c.v flags t cut)
              (encode_loop-Appends alloc u classes (record { cells = block; room = cap }) c.v ranks
                proper t bytes (use_simd c flags) (suc (length t)) (length t) 0 0 c []
                (record { out = block; cap = cap; total = 0 }) (omega arith) (omega arith) refl
                cached (start-Holds block cap room)
                (subst (All (IsPieceServed alloc u c.v)) (split_cut c.v flags t cut) direct))
      ]

  -- For proper class tables, a context whose cache holds encodings, a vocabulary without merges
  -- of rank 0xFFFFFFFF and with proper added records, a `cap` within the block, and a text of
  -- bytes with served pieces between its added tokens (kept by normalisation and with pretokens
  -- of at most 64 bytes or, where every buffer is granted, any with pretokens of fewer than
  -- 2^31 bytes): `bp_encode` returns the number of ids of the pieces, the encodings of the
  -- pretokens of their normal forms and the ids of the matched tokens in order, the block holds
  -- the first `cap` of them with the caller's own cells behind, and the context left behind has
  -- the same vocabulary and a cache that holds encodings.
  pub bp_encode_pieces :
      (c : BpCtx) (t block : List ℕ) (cap flags : ℕ)
      → All IsByte t
      → IsCached c
      → RanksProper c.v
      → AddedProper c.v
      → All (IsPieceServed alloc u c.v) (split c.v flags t)
      → cap ≤ length block
      → Replies c.v block cap
          (piece_ids u c.v (split c.v flags t))
          (bp_encode alloc u (some c) (some t) (length t) (some block) cap flags)
  unfolding bp_encode
  bp_encode_pieces c t block cap flags bytes cached ranks proper direct room =
      rw (take_all (length t) t (omega arith)) (
        reply_of-Replies
          (encode_text-Appends c t block cap flags bytes cached ranks proper direct room))

  pub bp_count_pieces :
      (c : BpCtx) (t : List ℕ) (flags : ℕ)
      → All IsByte t
      → IsCached c
      → RanksProper c.v
      → AddedProper c.v
      → All (IsPieceServed alloc u c.v) (split c.v flags t)
      → Counts c.v
          (length (piece_ids u c.v (split c.v flags t)))
          (bp_count alloc u (some c) (some t) (length t) flags)
  unfolding bp_count bp_encode
  bp_count_pieces c t flags bytes cached ranks proper direct =
      rw (take_all (length t) t (omega arith)) (
        reply_of-Counts
          (encode_text-Appends c t [] 0 flags bytes cached ranks proper direct (omega arith)))

  -- Under the conditions of `bp_encode_pieces`, whatever `cap` within its block a call of
  -- `bp_encode` has, `bp_count` returns what that call returns.
  pub bp_count-encode_pieces :
      (c : BpCtx) (t block : List ℕ) (cap flags : ℕ)
      → All IsByte t
      → IsCached c
      → RanksProper c.v
      → AddedProper c.v
      → All (IsPieceServed alloc u c.v) (split c.v flags t)
      → cap ≤ length block
      → (bp_count alloc u (some c) (some t) (length t) flags).code
        ≡ (bp_encode alloc u (some c) (some t) (length t) (some block) cap flags).code
  bp_count-encode_pieces c t block cap flags bytes cached ranks proper served room =
      (bp_count_pieces c t flags bytes cached ranks proper served).counted
      ∙ sym (bp_encode_pieces c t block cap flags bytes cached ranks proper served room).counted
