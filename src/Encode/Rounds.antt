-- ===== src/Encode/Rounds.antt =====
-- src/bp_encode.c `bp_encode`: the rounds of its loop over the added tokens, and what it should put.
use bytepair.Base.{ℕ, zero, suc, ◌+◌, ◌-◌, if◌then◌else◌, ◌==◌, ◌||◌}
use bytepair.Base.{Bool, none, some, List, [], ◌∷◌, ◌++◌, length, drop}
use bytepair.Base.{◌≡◌, refl, sym}
use mathlib.Core.Path.{subst}
use bytepair.Sink.{Sink, bp_sink_put1}
use bytepair.Sink.Laws.{Buffer, Holds, bp_sink_put-Holds, bp_sink_put1-put}
use bytepair.Vocab.{BpvAdded, BpVocab}
use bytepair.Context.{BpCtx}
use bytepair.Tables.{UcTables}
use bytepair.Bpe.Pretoken.{ok}
use bytepair.Scan.Text.{slice}
use bytepair.Encode.{bp_raw, is_set, match_added, find_first, encode_segment, encode_loop}
use bytepair.Encode.Split.{Piece, text, token, pieces}
use bytepair.Encode.Laws.{segment_ids, IsTextServed}

-- The ids of the pieces, in order.
abbrev pub piece_ids : UcTables → BpVocab → List Piece → List ℕ
piece_ids u v [] = []
piece_ids u v (text s ∷ ps) = segment_ids u v s ++ piece_ids u v ps
piece_ids u v (token a ∷ ps) = a.id ∷ piece_ids u v ps

-- A piece that the code gets its buffers for.
abbrev pub IsPieceServed : (ℕ → Bool) → UcTables → BpVocab → Piece → Type 0
IsPieceServed alloc u v (text s) = IsTextServed alloc u v s
IsPieceServed alloc u v (token a) = Unit

-- How a call with these flags splits its text.
unfoldable pub split : BpVocab → ℕ → List ℕ → List Piece
split v flags t =
    if is_set flags bp_raw || v.hdr.added_count == 0 then text t ∷ [] else pieces v t (length t) 0 0

module _ (alloc : ℕ → Bool) (u : UcTables) (simd : Bool) (t : List ℕ) (fuel seg i : ℕ) (c : BpCtx)
    (sink : Sink) where
  pub loop_none :
      find_first c.v (length t - i) t i ≡ none
      → encode_loop alloc u simd t (suc fuel) seg i c sink
        ≡ encode_segment alloc u c (slice t seg (length t)) sink simd
  unfolding encode_loop
  loop_none e = rw (e, encode_loop)

  pub loop_skip :
      (at : ℕ)
      → find_first c.v (length t - i) t i ≡ some at
      → match_added c.v (drop at t) ≡ none
      → encode_loop alloc u simd t (suc fuel) seg i c sink
        ≡ encode_loop alloc u simd t fuel seg (at + 1) c sink
  unfolding encode_loop
  loop_skip at e miss = rw (e, miss, encode_loop)

  pub loop_hit :
      (at : ℕ) (a : BpvAdded)
      → find_first c.v (length t - i) t i ≡ some at
      → match_added c.v (drop at t) ≡ some a
      → (encode_segment alloc u c (slice t seg at) sink simd).status ≡ ok
      → encode_loop alloc u simd t (suc fuel) seg i c sink
        ≡ encode_loop alloc u simd t fuel
            (at + a.len)
            (at + a.len)
            (encode_segment alloc u c (slice t seg at) sink simd).ctx
            (bp_sink_put1 (encode_segment alloc u c (slice t seg at) sink simd).sink a.id)
  unfolding encode_loop
  loop_hit at a e hit fine = rw (e, hit, fine, encode_loop)

pub loop_end :
    (alloc : ℕ → Bool) (u : UcTables) (simd : Bool) (t : List ℕ) (seg i : ℕ) (c : BpCtx)
    (sink : Sink)
    → encode_loop alloc u simd t zero seg i c sink
      ≡ encode_segment alloc u c (slice t seg (length t)) sink simd
unfolding encode_loop
loop_end alloc u simd t seg i c sink = refl

pub bp_sink_put1-Holds :
    {orig : Buffer} {xs : List ℕ} {s : Sink} (id : ℕ)
    → Holds orig xs s
    → Holds orig (xs ++ id ∷ []) (bp_sink_put1 s id)
bp_sink_put1-Holds {orig} {xs} {s} id h =
    subst (Holds orig (xs ++ id ∷ [])) (sym (bp_sink_put1-put s id)) (bp_sink_put-Holds h (id ∷ []))
