-- ===== src/Encode/RoundTrip.antt =====
-- src/bp_encode.c: `bp_decode` on what `bp_encode` answers.
use bytepair.Base.{ℕ, ◌≤◌}
use bytepair.Base.{Bool, false, some}
use bytepair.Base.{List, [], ◌∷◌, ◌++◌, length, take, concat, All}
use bytepair.Base.{take_all, take-append_left}
use bytepair.Base.{arith, ◌≡◌, refl, sym, ap, ◌∙◌, inr}
use bytepair.Utf8.Laws.{IsByte}
use bytepair.Sink.Laws.{filled}
use bytepair.Vocab.{BpVocab, token_bytes}
use bytepair.Context.{BpCtx}
use bytepair.Tables.{UcTables, ClassesProper}
use bytepair.Nfc.Form.{normal_form, normal_form-bytes}
use bytepair.Bpe.Bytes.{expand, IsCoherent, MergesInRange}
use bytepair.Bpe.Pretoken.Cache.{IsCached}
use bytepair.Bpe.Spec.{RanksProper}
use bytepair.Scan.Text.{pretokens}
use bytepair.Scan.Text.Laws.{pretokens-partition}
use bytepair.Encode.{count, error, Reply, bp_encode}
use bytepair.Encode.Laws.{text_ids, segment_ids, IsTextServed, IsPlain, Replies, bp_encode-Replies}
use bytepair.Decode.{is_skipped, bp_decode}
use bytepair.Decode.Laws.{IsLegal, written_bytes, bp_decode_written}
use mathlib.Core.Path.{subst}
use bytepair.Encode.Spelling.{
  IsToken, BytesProper, empty_token, expand-encode_spans, encode_spans-IsToken, length-encode_spans,
}

IsToken-IsLegal : (v : BpVocab) (ids : List ℕ) → All (IsToken v) ids → All (IsLegal v 0) ids
IsToken-IsLegal v [] h = tt
IsToken-IsLegal v (id ∷ ids) (one, h) = (
  record { below = one.below; written = inr (λ e. one.long (empty_token v id e)) },
  IsToken-IsLegal v ids h,
)

shown-expand : (v : BpVocab) (ids : List ℕ) → written_bytes v 0 ids ≡ expand v ids
unfolding is_skipped
shown-expand v [] = refl
shown-expand v (id ∷ ids) = ap (λ t. token_bytes v id ++ t) (shown-expand v ids)

pub concat-bytes : (ps : List (List ℕ)) → All IsByte (concat ps) → All (All IsByte) ps
concat-bytes [] h = tt
concat-bytes (p ∷ ps) h = (All-prefix p (concat ps) h, concat-bytes ps (All-suffix p (concat ps) h))
  where
    All-prefix : (xs ys : List ℕ) → All IsByte (xs ++ ys) → All IsByte xs
    All-prefix [] ys h = tt
    All-prefix (x ∷ xs) ys (one, h) = (one, All-prefix xs ys h)

    All-suffix : (xs ys : List ℕ) → All IsByte (xs ++ ys) → All IsByte ys
    All-suffix [] ys h = h
    All-suffix (x ∷ xs) ys (one, h) = All-suffix xs ys h

take-filled :
    (block ids : List ℕ)
    → length ids ≤ length block
    → take (length ids) (filled (record { cells = block; room = length block }) ids) ≡ ids
take-filled block ids h =
    rw (take_all (length block) ids h)
      (take-append_left (length ids) ids _ (omega arith) ∙ take_all (length ids) ids (omega arith))

-- A vocabulary whose tokens spell what they stand for.
pub record IsVocab (v : BpVocab) : Type 0 where
  pub ranks : RanksProper v
  pub coherent : IsCoherent v
  pub in_range : MergesInRange v
  pub bytes : BytesProper v

-- What decoding the answer of a call into `back` gives.
unfoldable pub decode_answer : Reply → List ℕ → Reply
decode_answer r back = elim r.code [
  | count n ↦ bp_decode r.ctx r.out n (some back) (length back) 0
  | error e ↦ r
]

-- The number of the bytes `t`, and as many of them as `back` has cells for.
pub record IsDecoded (back t : List ℕ) (r : Reply) : Type 0 where
  pub counted : r.code ≡ count (length t)
  pub stored : r.out ≡ some (filled (record { cells = back; room = length back }) t)

decode_tokens :
    (c : BpCtx) (cells ids : List ℕ) {t : List ℕ} (back : List ℕ)
    → take (length ids) cells ≡ ids
    → All (IsToken c.v) ids
    → expand c.v ids ≡ t
    → IsDecoded back t (bp_decode (some c) (some cells) (length ids) (some back) (length back) 0)
decode_tokens c cells ids back same tokens spelt =
    rw
      (
        bp_decode_written c cells (length ids) back (length back) 0
            (subst (All (IsLegal c.v 0)) (sym same) (IsToken-IsLegal c.v ids tokens)) (omega arith),
        same,
        shown-expand c.v ids,
        spelt,
      )
      (record { counted = refl; stored = refl })

-- What the caller reads back after a call whose answer holds all ids.
pub decode_answer-ids :
    (v : BpVocab) (ids t block back : List ℕ) (r : Reply)
    → expand v ids ≡ t
    → All (IsToken v) ids
    → length ids ≤ length block
    → Replies v block (length block) ids r
    → IsDecoded back t (decode_answer r back)
unfolding decode_answer
decode_answer-ids v ids t block back r spelt tokens room rep =
    rw (rep.counted, rep.stored, rep.next_ctx)
      (decode_tokens rep.next (filled (record { cells = block; room = length block }) ids) ids back
        (take-filled block ids room) (subst (λ w. All (IsToken w) ids) (sym rep.same_vocab) tokens)
        (subst (λ w. expand w ids ≡ t) (sym rep.same_vocab) spelt))

module _ (alloc : ℕ → Bool) (u : UcTables) (proper : ClassesProper u) (c : BpCtx) (t : List ℕ)
    (bytes : All IsByte t) (voc : IsVocab c.v) where
  abbrev spans : List (List ℕ)
  spans = pretokens u false t

  joined : concat spans ≡ t
  joined = (pretokens-partition u proper false t bytes).0

  spans-bytes : All (All IsByte) spans
  spans-bytes = concat-bytes spans (subst (All IsByte) (sym joined) bytes)

  -- A text never has more ids than bytes.
  pub length-text_ids : length (text_ids u c.v t) ≤ length t
  length-text_ids = omega (arith, length-encode_spans c.v voc.bytes spans, ap length joined)

  pub expand-text_ids : expand c.v (text_ids u c.v t) ≡ t
  expand-text_ids =
      expand-encode_spans c.v voc.bytes spans voc.coherent voc.in_range spans-bytes ∙ joined

  pub text_ids-IsToken : All (IsToken c.v) (text_ids u c.v t)
  text_ids-IsToken = encode_spans-IsToken c.v voc.bytes spans voc.coherent voc.in_range spans-bytes

-- For proper class tables, a context whose cache holds encodings, a vocabulary whose tokens spell
-- what they stand for, and a text of bytes that normalisation keeps, meets no added token and has
-- only served pretokens (at most 64 bytes, or fewer than 2^31 where every buffer is granted):
-- encoding it into a block of ids as long as the text and decoding what was written gives the
-- number of its bytes, and `back` holds as many of them as it has cells for.
pub decode-encode :
    (alloc : ℕ → Bool) (u : UcTables) (c : BpCtx) (t block back : List ℕ) (flags : ℕ)
    → ClassesProper u
    → All IsByte t
    → IsVocab c.v
    → IsCached c
    → IsTextServed alloc u c.v t
    → IsPlain c.v flags
    → length (normal_form u c.v t) ≤ length block
    → IsDecoded back (normal_form u c.v t) (
        decode_answer
          (bp_encode alloc u (some c) (some t) (length t) (some block) (length block) flags)
          back)
decode-encode alloc u c t block back flags proper bytes voc cached served plain room =
    let nf = normal_form u c.v t in
    let ok = normal_form-bytes u c.v t bytes in
    decode_answer-ids c.v (segment_ids u c.v t) nf block back
      (bp_encode alloc u (some c) (some t) (length t) (some block) (length block) flags)
      (expand-text_ids alloc u proper c nf ok voc) (text_ids-IsToken alloc u proper c nf ok voc)
      (omega (arith, length-text_ids alloc u proper c nf ok voc))
      (bp_encode-Replies alloc u proper c t block (length block) flags bytes cached voc.ranks served
        plain (omega arith))
