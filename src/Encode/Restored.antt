-- ===== src/Encode/Restored.antt =====
-- src/bp_encode.c `bp_encode`: the text that its ids stand for.
use bytepair.Base.{ℕ, zero, suc, ◌+◌, ◌-◌, ◌≤◌, ◌==◌, ◌||◌, true, Bool-cases, Option-cases}
use bytepair.Base.{List, [], ◌∷◌, ◌++◌, length, take, drop, arith, ◌≡◌, sym, ap, ◌∙◌, inl, inr}
use bytepair.Base.{All, append-nil, both, leb}
use bytepair.Base.{take_all, length-drop, drop-drop, take-append-drop, take-drop-drop}
use bytepair.Vocab.{BpVocab, BpvAdded, token_bytes}
use bytepair.Tables.{UcTables}
use bytepair.Nfc.Form.{normal_form, normal_form-keeps}
use bytepair.Nfc.{is_kept}
use bytepair.Scan.Text.{slice}
use bytepair.Bpe.Pretoken.Cache.{same_bytes→eq}
use bytepair.Encode.{bp_raw, is_set, matches, match_added}
use bytepair.Encode.Match.{AddedProper, IsAdded, match_added_longest}
use bytepair.Encode.Split.{Piece, text, token, pieces, pieces_skip, pieces_hit}
use bytepair.Encode.Rounds.{split}
use bytepair.Encode.Answer.{split_plain, split_cut}

-- The bytes of the pieces: normal forms, and the added tokens as they are.
abbrev pub piece_bytes : UcTables → BpVocab → List Piece → List ℕ
piece_bytes u v [] = []
piece_bytes u v (text s ∷ ps) = normal_form u v s ++ piece_bytes u v ps
piece_bytes u v (token a ∷ ps) = token_bytes v a.id ++ piece_bytes u v ps

-- A text with every piece between its added tokens in normal form.
abbrev pub normalized : UcTables → BpVocab → ℕ → List ℕ → List ℕ
normalized u v flags t = piece_bytes u v (split v flags t)

-- The normaliser keeps the piece.
abbrev pub IsPieceKept : UcTables → BpVocab → Piece → Type 0
IsPieceKept u v (text s) = is_kept u v s ≡ true
IsPieceKept u v (token a) = Unit

matched_bytes :
    (v : BpVocab) (p : List ℕ) (a : BpvAdded)
    → IsAdded v a
    → matches v p a ≡ true
    → token_bytes v a.id ≡ take a.len p
unfolding matches
matched_bytes v p a good m =
    good.spelt ∙ sym (same_bytes→eq _ _ (both (leb a.len (length p)) _ m).1)

module _ (u : UcTables) (v : BpVocab) (t : List ℕ) where
  kept_text : (s : List ℕ) → All (IsPieceKept u v) (text s ∷ []) → piece_bytes u v (text s ∷ []) ≡ s
  kept_text s (kept, _) = append-nil (normal_form u v s) ∙ normal_form-keeps u v s kept

  last-kept :
      (seg : ℕ)
      → All (IsPieceKept u v) (text (slice t seg (length t)) ∷ [])
      → piece_bytes u v (text (slice t seg (length t)) ∷ []) ≡ drop seg t
  last-kept seg kept =
      kept_text (slice t seg (length t)) kept
      ∙ take_all (length t - seg) (drop seg t) (omega (arith, length-drop seg t))

  sewn : (a b n : ℕ) → a ≤ b → slice t a b ++ (take n (drop b t) ++ drop (b + n) t) ≡ drop a t
  sewn a b n h =
      ap (λ r. slice t a b ++ (take n (drop b t) ++ r)) (sym (drop-drop n b t))
      ∙ ap (λ r. slice t a b ++ r) (take-append-drop n (drop b t))
      ∙ take-drop-drop a b t h

  module _ (proper : AddedProper v) where
    pieces-kept :
        (n seg i : ℕ)
        → seg ≤ i
        → length t ≤ n + i
        → All (IsPieceKept u v) (pieces v t n seg i)
        → piece_bytes u v (pieces v t n seg i) ≡ drop seg t
    unfolding pieces
    pieces-kept zero seg i behind enough kept = last-kept seg kept
    pieces-kept (suc n) seg i behind enough kept = elim (Option-cases (match_added v (drop i t))) [
      | inl miss ↦
          ap (piece_bytes u v) (pieces_skip v proper t n seg i miss)
          ∙ pieces-kept n seg (i + 1) (omega arith) (omega arith)
              (rw (pieces_skip v proper t n seg i miss) at kept)
      | inr (a, hit) ↦
          let (good, m, _) = match_added_longest v (drop i t) proper a hit in
          let (here, (_, rest)) = rw (pieces_hit v proper t n seg i a hit) at kept in
          ap (piece_bytes u v) (pieces_hit v proper t n seg i a hit)
          ∙ rw
              (
                normal_form-keeps u v (slice t seg i) here,
                matched_bytes v (drop i t) a good m,
                pieces-kept n (i + a.len) (i + a.len) (omega arith) (omega (arith, good.long)) rest,
              )
              (sewn seg i a.len behind)
    ]

    -- With proper added records, a text whose pieces between the added tokens are all kept by
    -- the normaliser is the same after it is normalised piece by piece.
    pub normalized_kept :
        (flags : ℕ) → All (IsPieceKept u v) (split v flags t) → normalized u v flags t ≡ t
    normalized_kept flags kept = elim (Bool-cases (is_set flags bp_raw || v.hdr.added_count == 0)) [
      | inl plain ↦
          ap (piece_bytes u v) (split_plain v flags t plain)
          ∙ kept_text t (rw (split_plain v flags t plain) at kept)
      | inr cut ↦
          ap (piece_bytes u v) (split_cut v flags t cut)
          ∙ pieces-kept (length t) 0 0 (omega arith) (omega arith)
              (rw (split_cut v flags t cut) at kept)
    ]
