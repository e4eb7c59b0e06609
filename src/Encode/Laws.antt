-- ===== src/Encode/Laws.antt =====
-- What `bp_encode` answers for a text without added tokens that needs no normalisation.
use bytepair.Base.{ℕ, ◌≤◌, ◌==◌, Bool-cases}
use bytepair.Base.{Bool, true, false, ◌||◌, some, ==_iff}
use bytepair.Base.{List, [], ◌∷◌, length, take_all, All}
use bytepair.Base.{arith, ◌≡◌, refl, sym, ap, inl, inr}
use bytepair.Utf8.Laws.{IsByte}
use bytepair.Sink.{Sink}
use bytepair.Sink.Laws.{Buffer, Holds, filled, Holds-filled, start-Holds}
use bytepair.Vocab.{BpVocab}
use bytepair.Context.{BpCtx}
use bytepair.Tables.{UcTables, ClassesProper}
use bytepair.Nfc.Form.{
  normal_form, normal_form-bytes, normal_form-empty, IsNormalizable, bp_nfc-IsNormalized,
}
use bytepair.Bpe.Pretoken.{Outcome}
use bytepair.Bpe.Pretoken.Cache.{IsCached}
use bytepair.Bpe.Pretoken.Served.{IsServed}
use bytepair.Bpe.Spec.{RanksProper}
use bytepair.Scan.Text.{bp_scan_gpt4, pretokens, spans_from}
use bytepair.Scan.Text.Laws.{
  pretokens-simd, encode_spans, Appends, Encodable, IsServed-Encodable, nothing_more,
  bp_scan_gpt4-Appends,
}
use bytepair.Encode.{
  bp_raw, is_set, count, scan_normalized, encode_segment, use_simd, encode_text, Reply, reply_of,
  bp_encode,
}
use mathlib.Core.Path.{subst}

-- The ids of a text: the encodings of its pretokens.
abbrev pub text_ids : UcTables → BpVocab → List ℕ → List ℕ
text_ids u v t = encode_spans v (pretokens u false t)

-- The pretokens that the engine encodes with the buffers it gets.
abbrev pub AreServed : (ℕ → Bool) → UcTables → List ℕ → Type 0
AreServed alloc u t = All (IsServed alloc) (pretokens u false t)

-- The ids of a text between added tokens: those of its normal form.
abbrev pub segment_ids : UcTables → BpVocab → List ℕ → List ℕ
segment_ids u v t = text_ids u v (normal_form u v t)

-- A text for which the normaliser and the engine get the buffers that they need.
abbrev pub IsTextServed : (ℕ → Bool) → UcTables → BpVocab → List ℕ → Type 0
IsTextServed alloc u v t = IsNormalizable alloc u v t × AreServed alloc u (normal_form u v t)

-- The text meets no added token: the flags turn them off, or there are none.
abbrev pub IsPlain : BpVocab → ℕ → Type 0
IsPlain v flags = (is_set flags bp_raw || v.hdr.added_count == 0) ≡ true

-- The answer to a call that puts `ids`. The next call finds a sound context again.
pub record Replies (v : BpVocab) (block : List ℕ) (cap : ℕ) (ids : List ℕ) (r : Reply)
    : Type 0 where
  pub counted : r.code ≡ count (length ids)
  pub stored : r.out ≡ some (filled (record { cells = block; room = cap }) ids)
  pub next : BpCtx
  pub next_ctx : r.ctx ≡ some next
  pub same_vocab : next.v ≡ v
  pub still_cached : IsCached next

All-Encodable :
    (alloc : ℕ → Bool) (v : BpVocab) (orig : Buffer) (ps : List (List ℕ))
    → RanksProper v
    → All (IsServed alloc) ps
    → All (Encodable alloc v orig) ps
All-Encodable alloc v orig [] ranks h = tt
All-Encodable alloc v orig (p ∷ ps) ranks (short, h) =
    (IsServed-Encodable alloc v orig p ranks short, All-Encodable alloc v orig ps ranks h)

pub reply_of-Replies :
    {v : BpVocab} {block ids : List ℕ} {cap : ℕ} {o : Outcome}
    → Appends v (record { cells = block; room = cap }) [] ids o
    → Replies v block cap ids (reply_of (some block) o)
unfolding reply_of
reply_of-Replies {o} put = record {
  counted = rw put.status_ok (ap count put.held.counted);
  stored = ap some (Holds-filled put.held);
  next = o.ctx;
  next_ctx = refl;
  same_vocab = put.same_vocab;
  still_cached = put.still_cached;
}

module _ (alloc : ℕ → Bool) (u : UcTables) (proper : ClassesProper u) where
  scan-Appends :
      (c : BpCtx) (t : List ℕ) (orig : Buffer) (xs : List ℕ) (sink : Sink) (simd : Bool)
      → All IsByte t
      → IsCached c
      → RanksProper c.v
      → AreServed alloc u t
      → Holds orig xs sink
      → Appends c.v orig xs (text_ids u c.v t) (bp_scan_gpt4 alloc u c t sink simd)
  scan-Appends c t orig xs sink false bytes cached ranks short held =
      bp_scan_gpt4-Appends alloc u false t orig c.v proper bytes c xs sink refl cached
        (All-Encodable alloc c.v orig (pretokens u false t) ranks short) held
  scan-Appends c t orig xs sink true bytes cached ranks short held =
      subst (λ ps. Appends c.v orig xs (encode_spans c.v ps) (bp_scan_gpt4 alloc u c t sink true))
        (pretokens-simd u proper t bytes)
        (bp_scan_gpt4-Appends alloc u true t orig c.v proper bytes c xs sink refl cached
          (All-Encodable alloc c.v orig (pretokens u true t) ranks
            (subst (All (IsServed alloc)) (sym (pretokens-simd u proper t bytes)) short))
          held)

  no_pretokens : (t : List ℕ) → length t ≡ 0 → pretokens u false t ≡ []
  unfolding pretokens spans_from
  no_pretokens [] e = refl
  no_pretokens (x ∷ t) e = absurd (omega arith)

  -- A segment is put as the encodings of the pretokens of its normal form, with or without the
  -- vector kernels.
  pub encode_segment-Appends :
      (c : BpCtx) (t : List ℕ) (orig : Buffer) (xs : List ℕ) (sink : Sink) (simd : Bool)
      → All IsByte t
      → IsCached c
      → RanksProper c.v
      → IsTextServed alloc u c.v t
      → Holds orig xs sink
      → Appends c.v orig xs (segment_ids u c.v t) (encode_segment alloc u c t sink simd)
  unfolding encode_segment scan_normalized
  encode_segment-Appends c t orig xs sink simd bytes cached ranks (can, served) held =
      elim (Bool-cases (length t == 0)) [
        | inl e ↦
            rw (e, normal_form-empty u c.v t e, no_pretokens t ((==_iff (length t) 0).0 e))
              (nothing_more alloc u simd t orig c.v c xs sink refl cached held)
        | inr e ↦
            let n = bp_nfc-IsNormalized alloc u c t can in
            rw (e, n.same)
              (scan-Appends (record c { work_cap = n.work; norm_cap = n.norm })
                (normal_form u c.v t) orig xs sink simd (normal_form-bytes u c.v t bytes) cached
                ranks served held)
      ]

  -- For proper class tables, a context whose cache holds encodings, a vocabulary without merges
  -- of rank 0xFFFFFFFF, a text of bytes that normalisation keeps, meets no added token and has
  -- only served pretokens (at most 64 bytes, or fewer than 2^31 where every buffer is granted),
  -- and a `cap` within the block: `bp_encode` returns the number of ids of the pretokens'
  -- encodings, the block holds the first `cap` of them with the caller's own cells behind, and
  -- the context left behind has the same vocabulary and a cache that holds encodings.
  pub bp_encode-Replies :
      (c : BpCtx) (t block : List ℕ) (cap flags : ℕ)
      → All IsByte t
      → IsCached c
      → RanksProper c.v
      → IsTextServed alloc u c.v t
      → IsPlain c.v flags
      → cap ≤ length block
      → Replies c.v block cap
          (segment_ids u c.v t)
          (bp_encode alloc u (some c) (some t) (length t) (some block) cap flags)
  unfolding bp_encode encode_text
  bp_encode-Replies c t block cap flags bytes cached ranks served plain room =
      rw (take_all (length t) t (omega arith), plain)
        (reply_of-Replies (
          encode_segment-Appends c t (record { cells = block; room = cap }) []
            (record { out = block; cap = cap; total = 0 }) (use_simd c flags) bytes cached ranks
            served (start-Holds block cap room)))
