-- ===== src/Encode/Loop.antt =====
-- src/bp_encode.c `bp_encode`: what its loop over the added tokens puts, against the split of the text.
use bytepair.Base.{ℕ, zero, suc, ◌+◌, ◌-◌, ◌≤◌, Option-cases}
use bytepair.Base.{Bool, Option, none, some, List, [], ◌∷◌, ◌++◌, length, drop, All}
use bytepair.Base.{All-take, All-drop}
use bytepair.Base.{arith, ◌≡◌, refl, sym, ◌∙◌, inl, inr, append_assoc, append-nil}
use mathlib.Core.Path.{subst}
use bytepair.Utf8.Laws.{IsByte}
use bytepair.Sink.{Sink}
use bytepair.Sink.Laws.{Buffer, Holds}
use bytepair.Vocab.{BpvAdded, BpVocab}
use bytepair.Context.{BpCtx}
use bytepair.Tables.{UcTables, ClassesProper}
use bytepair.Bpe.Pretoken.{Outcome}
use bytepair.Bpe.Pretoken.Cache.{IsCached}
use bytepair.Bpe.Spec.{RanksProper}
use bytepair.Scan.Text.{slice}
use bytepair.Scan.Text.Laws.{Appends}
use bytepair.Encode.{match_added, find_first, encode_segment, encode_loop}
use bytepair.Encode.Match.{AddedProper, match_added_longest}
use bytepair.Encode.Split.{
  Piece, text, pieces, pieces_end, pieces_skip, pieces_hit, find_first-StopsAt, find_first-none,
}
use bytepair.Encode.Laws.{segment_ids, encode_segment-Appends}
use bytepair.Encode.Rounds.{
  piece_ids, IsPieceServed, loop_none, loop_skip, loop_hit, loop_end, bp_sink_put1-Holds,
}

module _ (alloc : ℕ → Bool) (u : UcTables) (classes : ClassesProper u) (orig : Buffer) (v : BpVocab)
    (ranks : RanksProper v) where
  -- A piece of text is put as the encodings of its pretokens.
  text-Appends :
      (c : BpCtx) (s xs : List ℕ) (sink : Sink) (simd : Bool)
      → c.v ≡ v
      → All IsByte s
      → IsCached c
      → IsPieceServed alloc u v (text s)
      → Holds orig xs sink
      → Appends v orig xs (segment_ids u v s) (encode_segment alloc u c s sink simd)
  text-Appends c s xs sink simd same bytes cached direct held =
      subst
        (λ w.
          RanksProper w
          → IsPieceServed alloc u w (text s)
          → Appends w orig xs (segment_ids u w s) (encode_segment alloc u c s sink simd))
        same
        (λ r d. encode_segment-Appends alloc u classes c s orig xs sink simd bytes cached r d held)
        ranks direct

  -- A call that puts `ids`, the id of a token, and a call that puts the others.
  join-Appends :
      (xs ids rest : List ℕ) (id : ℕ) (o : Outcome)
      → Appends v orig ((xs ++ ids) ++ id ∷ []) rest o
      → Appends v orig xs (ids ++ id ∷ rest) o
  join-Appends xs ids rest id o a = record {
    status_ok = a.status_ok;
    same_vocab = a.same_vocab;
    still_cached = a.still_cached;
    held =
        subst (λ l. Holds orig l o.sink)
          (append_assoc (xs ++ ids) (id ∷ []) rest ∙ append_assoc xs ids (id ∷ rest)) a.held;
  }

  pub last-Appends :
      (c : BpCtx) (s xs : List ℕ) (sink : Sink) (simd : Bool)
      → c.v ≡ v
      → All IsByte s
      → IsCached c
      → All (IsPieceServed alloc u v) (text s ∷ [])
      → Holds orig xs sink
      → Appends v orig xs (piece_ids u v (text s ∷ [])) (encode_segment alloc u c s sink simd)
  last-Appends c s xs sink simd same bytes cached direct held =
      subst (λ ids. Appends v orig xs ids (encode_segment alloc u c s sink simd))
        (sym (append-nil (segment_ids u v s)))
        (text-Appends c s xs sink simd same bytes cached direct.0 held)

  module _ (proper : AddedProper v) (t : List ℕ) (bytes : All IsByte t) (simd : Bool) where
    slice-bytes : (a b : ℕ) → All IsByte (slice t a b)
    slice-bytes a b = All-take IsByte (b - a) (drop a t) (All-drop IsByte a t bytes)

    -- What is put for some pieces is put for the same pieces by the same call.
    same-Appends :
        {ps qs : List Piece} {o done : Outcome} (xs : List ℕ)
        → ps ≡ qs
        → o ≡ done
        → (All (IsPieceServed alloc u v) qs → Appends v orig xs (piece_ids u v qs) done)
        → All (IsPieceServed alloc u v) ps
        → Appends v orig xs (piece_ids u v ps) o
    same-Appends {ps} {qs} {o} {done} xs e run f direct =
        subst (λ r. Appends v orig xs (piece_ids u v ps) r) (sym run)
          (subst (λ rs. Appends v orig xs (piece_ids u v rs) done) (sym e)
            (f (subst (All (IsPieceServed alloc u v)) e direct)))

    -- The loop puts the pieces of the split.
    pub encode_loop-Appends :
        (fuel n seg i : ℕ) (c : BpCtx) (xs : List ℕ) (sink : Sink)
        → length t ≤ fuel + i
        → length t ≤ n + i
        → c.v ≡ v
        → IsCached c
        → Holds orig xs sink
        → All (IsPieceServed alloc u v) (pieces v t n seg i)
        → Appends v orig xs
            (piece_ids u v (pieces v t n seg i))
            (encode_loop alloc u simd t fuel seg i c sink)
    encode_loop-Appends zero n seg i c xs sink run enough same cached held direct =
        same-Appends xs (pieces_end v proper t n seg i (omega arith))
          (loop_end alloc u simd t seg i c sink)
          (λ d.
            last-Appends c (slice t seg (length t)) xs sink simd same (slice-bytes seg (length t))
              cached d held)
          direct
    encode_loop-Appends (suc fuel) n seg i c xs sink run enough same cached held direct =
        elim (Option-cases (find_first v (length t - i) t i)) [
          | inl e ↦
              same-Appends xs (find_first-none v proper t (length t - i) n seg i (omega arith) e)
                (loop_none alloc u simd t fuel seg i c sink (here none e))
                (λ d.
                  last-Appends c (slice t seg (length t)) xs sink simd same
                    (slice-bytes seg (length t)) cached d held)
                direct
          | inr (at, e) ↦
              let s = find_first-StopsAt v proper t (length t - i) n seg i at enough e in
              elim (Option-cases (match_added v (drop at t))) [
                | inl miss ↦
                    same-Appends xs (s.same ∙ pieces_skip v proper t s.fuel seg at miss)
                      (loop_skip alloc u simd t fuel seg i c sink at (here (some at) e)
                        (there at none miss))
                      (encode_loop-Appends fuel s.fuel seg (at + 1) c xs sink
                        (omega (arith, s.behind)) (omega (arith, s.enough)) same cached held)
                      direct
                | inr (a, hit) ↦
                    let (good, _, _) = match_added_longest v (drop at t) proper a hit in
                    same-Appends xs (s.same ∙ pieces_hit v proper t s.fuel seg at a hit) refl
                      (λ (d, (_, ds)).
                        let o =
                          text-Appends c (slice t seg at) xs sink simd same (slice-bytes seg at)
                            cached d held in
                        subst (Appends v orig xs _)
                          (sym (
                            loop_hit alloc u simd t fuel seg i c sink at a (here (some at) e)
                              (there at (some a) hit) o.status_ok))
                          (join-Appends xs (segment_ids u v (slice t seg at)) _ a.id _ (
                            encode_loop-Appends fuel s.fuel (at + a.len) (at + a.len) _ _ _
                              (omega (arith, s.behind, good.long))
                              (omega (arith, s.enough, good.long)) o.same_vocab o.still_cached
                              (bp_sink_put1-Holds a.id o.held) ds)))
                      direct
              ]
        ]
      where
        here :
            (r : Option ℕ)
            → find_first v (length t - i) t i ≡ r
            → find_first c.v (length t - i) t i ≡ r
        here r = subst (λ w. find_first w (length t - i) t i ≡ r) (sym same)

        there :
            (at : ℕ) (r : Option BpvAdded)
            → match_added v (drop at t) ≡ r
            → match_added c.v (drop at t) ≡ r
        there at r = subst (λ w. match_added w (drop at t) ≡ r) (sym same)
