-- ===== src/Encode/Whole.antt =====
-- src/bp_encode.c: `bp_decode` on the answer for a text with added tokens.
use bytepair.Base.{ℕ, zero, suc, ◌+◌, ◌-◌, ◌≤◌, Bool-cases, Option-cases, ◌==◌, ◌||◌}
use bytepair.Base.{Bool, true, some, List, [], ◌∷◌, ◌++◌, length, take, drop, All}
use bytepair.Base.{All-take, All-drop, All-append, length-append, length-take}
use bytepair.Base.{append-nil, leb, leb→le, both}
use bytepair.Base.{arith, ◌≢◌, ◌≡◌, sym, ap, ◌∙◌, inl, inr}
use mathlib.Core.Path.{subst}
use bytepair.Utf8.Laws.{IsByte}
use bytepair.Vocab.{BpvAdded, BpVocab, token_bytes}
use bytepair.Context.{BpCtx}
use bytepair.Tables.{UcTables, ClassesProper}
use bytepair.Bpe.Bytes.{expand, expand-append}
use bytepair.Bpe.Pretoken.Cache.{IsCached}
use bytepair.Scan.Text.{slice}
use bytepair.Encode.{bp_raw, is_set, matches, match_added, count, bp_encode}
use bytepair.Encode.Match.{IsAdded, AddedProper, match_added_longest}
use bytepair.Encode.Split.{text, pieces, pieces_skip, pieces_hit}
use bytepair.Encode.Laws.{segment_ids}
use bytepair.Nfc.Form.{normal_form, normal_form-bytes}
use bytepair.Encode.Restored.{piece_bytes, normalized, normalized_kept, IsPieceKept}
use bytepair.Encode.Rounds.{piece_ids, IsPieceServed, split}
use bytepair.Encode.Spelling.{IsToken}
use bytepair.Bpe.Pretoken.Cache.{same_bytes→eq}
use bytepair.Encode.RoundTrip.{
  IsVocab, decode_answer, IsDecoded, decode_answer-ids, expand-text_ids, text_ids-IsToken,
  length-text_ids,
}
use bytepair.Encode.Answer.{split_plain, split_cut, bp_encode_pieces}

-- The ids stand for these bytes, each for one byte at least.
record Spells (v : BpVocab) (ids s : List ℕ) : Type 0 where
  pub bytes : expand v ids ≡ s
  pub tokens : All (IsToken v) ids
  pub few : length ids ≤ length s

append-Spells :
    {v : BpVocab} {xs ys s t : List ℕ}
    → Spells v xs s
    → Spells v ys t
    → Spells v (xs ++ ys) (s ++ t)
append-Spells {v} {xs} {ys} {s} {t} a b = record {
  bytes = expand-append v xs ys ∙ rw (a.bytes, b.bytes);
  tokens = All-append (IsToken v) xs ys a.tokens b.tokens;
  few = omega (arith, a.few, b.few, length-append xs ys, length-append s t);
}

-- A match, at its position in the text.
match-Spells :
    (v : BpVocab) (p : List ℕ) (a : BpvAdded)
    → IsAdded v a
    → matches v p a ≡ true
    → Spells v (a.id ∷ []) (token_bytes v a.id)
unfolding matches
match-Spells v p a good m = record {
  bytes = append-nil (token_bytes v a.id);
  tokens = (record { below = good.below; long = long }, tt);
  few = omega (arith, good.long, inside, length-take a.len p, ap length same);
}
  where
    inside : a.len ≤ length p
    inside = leb→le _ _ (both (leb a.len (length p)) _ m).0

    same : token_bytes v a.id ≡ take a.len p
    same = good.spelt ∙ sym (same_bytes→eq _ _ (both (leb a.len (length p)) _ m).1)

    long : token_bytes v a.id ≢ []
    long e =
        absurd (omega (arith, good.long, inside, length-take a.len p, ap length (sym same ∙ e)))

module _ (alloc : ℕ → Bool) (u : UcTables) (classes : ClassesProper u) (c : BpCtx) (t : List ℕ)
    (bytes : All IsByte t) (voc : IsVocab c.v) where
  text-Spells : (s : List ℕ) → All IsByte s → Spells c.v (segment_ids u c.v s) (normal_form u c.v s)
  text-Spells s h =
      let nf = normal_form u c.v s in
      let ok = normal_form-bytes u c.v s h in
      record {
        bytes = expand-text_ids alloc u classes c nf ok voc;
        tokens = text_ids-IsToken alloc u classes c nf ok voc;
        few = length-text_ids alloc u classes c nf ok voc;
      }

  slice-bytes : (a b : ℕ) → All IsByte (slice t a b)
  slice-bytes a b = All-take IsByte (b - a) (drop a t) (All-drop IsByte a t bytes)

  last-Spells :
      (s : List ℕ)
      → All IsByte s
      → Spells c.v (piece_ids u c.v (text s ∷ [])) (piece_bytes u c.v (text s ∷ []))
  last-Spells s h =
      rw (append-nil (segment_ids u c.v s), append-nil (normal_form u c.v s)) (text-Spells s h)

  module _ (proper : AddedProper c.v) where
    pieces-Spells :
        (n seg i : ℕ)
        → Spells c.v
            (piece_ids u c.v (pieces c.v t n seg i))
            (piece_bytes u c.v (pieces c.v t n seg i))
    unfolding pieces
    pieces-Spells zero seg i = last-Spells (slice t seg (length t)) (slice-bytes seg (length t))
    pieces-Spells (suc n) seg i = elim (Option-cases (match_added c.v (drop i t))) [
      | inl miss ↦
          subst (λ ps. Spells c.v (piece_ids u c.v ps) (piece_bytes u c.v ps))
            (sym (pieces_skip c.v proper t n seg i miss)) (pieces-Spells n seg (i + 1))
      | inr (a, hit) ↦
          let (good, m, _) = match_added_longest c.v (drop i t) proper a hit in
          subst (λ ps. Spells c.v (piece_ids u c.v ps) (piece_bytes u c.v ps))
            (sym (pieces_hit c.v proper t n seg i a hit))
            (append-Spells (text-Spells (slice t seg i) (slice-bytes seg i)) (
              append-Spells (match-Spells c.v (drop i t) a good m)
                (pieces-Spells n (i + a.len) (i + a.len))))
    ]

    -- The ids of a text stand for its normalised form, however it is split.
    split-Spells :
        (flags : ℕ) → Spells c.v (piece_ids u c.v (split c.v flags t)) (normalized u c.v flags t)
    split-Spells flags = elim (Bool-cases (is_set flags bp_raw || c.v.hdr.added_count == 0)) [
      | inl plain ↦ rw (split_plain c.v flags t plain) (last-Spells t bytes)
      | inr cut ↦ rw (split_cut c.v flags t cut) (pieces-Spells (length t) 0 0)
    ]

-- What comes back is the normalised text, where the pieces need not be kept.
pub decode-encode_normalized :
    (alloc : ℕ → Bool) (u : UcTables) (c : BpCtx) (t block back : List ℕ) (flags : ℕ)
    → ClassesProper u
    → All IsByte t
    → IsVocab c.v
    → AddedProper c.v
    → IsCached c
    → All (IsPieceServed alloc u c.v) (split c.v flags t)
    → length (normalized u c.v flags t) ≤ length block
    → IsDecoded back (normalized u c.v flags t) (
        decode_answer
          (bp_encode alloc u (some c) (some t) (length t) (some block) (length block) flags)
          back)
decode-encode_normalized alloc u c t block back flags classes bytes voc proper cached direct room =
    let s = split-Spells alloc u classes c t bytes voc proper flags in
    decode_answer-ids c.v (piece_ids u c.v (split c.v flags t)) (normalized u c.v flags t) block
      back (bp_encode alloc u (some c) (some t) (length t) (some block) (length block) flags)
      s.bytes s.tokens (omega (arith, s.few))
      (bp_encode_pieces alloc u classes c t block (length block) flags bytes cached voc.ranks proper
        direct (omega arith))

-- For proper class tables, a context whose cache holds encodings, over a vocabulary without
-- merges of rank 0xFFFFFFFF, whose tokens spell what they stand for and with proper added
-- records, and a text of bytes whose pieces between its added tokens are kept by the normaliser,
-- as all are without the NFC flag of the vocabulary, and have served pretokens (at most 64 bytes
-- or, where every buffer is granted, fewer than 2^31): encoding it into a block with room for an
-- id per byte and decoding what was written gives the number of its bytes, and `back` holds as
-- many of the bytes of the text itself as it has cells for.
pub decode-encode_added :
    (alloc : ℕ → Bool) (u : UcTables) (c : BpCtx) (t block back : List ℕ) (flags : ℕ)
    → ClassesProper u
    → All IsByte t
    → IsVocab c.v
    → AddedProper c.v
    → IsCached c
    → All (IsPieceServed alloc u c.v) (split c.v flags t)
    → All (IsPieceKept u c.v) (split c.v flags t)
    → length t ≤ length block
    → IsDecoded back t (
        decode_answer
          (bp_encode alloc u (some c) (some t) (length t) (some block) (length block) flags)
          back)
decode-encode_added alloc u c t block back flags classes bytes voc proper cached direct kept room =
    let same = normalized_kept u c.v t proper flags kept in
    subst
      (λ s. IsDecoded back s (
        decode_answer
          (bp_encode alloc u (some c) (some t) (length t) (some block) (length block) flags) back))
      same
      (decode-encode_normalized alloc u c t block back flags classes bytes voc proper cached direct
        (omega (arith, room, ap length same)))

-- Under the conditions of `bp_encode_pieces` and for a vocabulary whose tokens spell what they
-- stand for, whatever the room of its block, `bp_encode` returns a count that is at most the
-- number of bytes of the text normalised piece by piece.
pub bp_encode_pieces_fit :
    (alloc : ℕ → Bool) (u : UcTables) (c : BpCtx) (t block : List ℕ) (cap flags : ℕ)
    → ClassesProper u
    → All IsByte t
    → IsVocab c.v
    → AddedProper c.v
    → IsCached c
    → All (IsPieceServed alloc u c.v) (split c.v flags t)
    → cap ≤ length block
    → (n : ℕ) × ((bp_encode alloc u (some c) (some t) (length t) (some block) cap flags).code
        ≡ count n)
      × (n ≤ length (normalized u c.v flags t))
bp_encode_pieces_fit alloc u c t block cap flags classes bytes voc proper cached served room = (
  length (piece_ids u c.v (split c.v flags t)),
  (bp_encode_pieces alloc u classes c t block cap flags bytes cached voc.ranks proper served
      room).counted,
  (split-Spells alloc u classes c t bytes voc proper flags).few,
)
