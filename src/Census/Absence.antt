-- ===== src/Census/Absence.antt =====
-- src/bp_census.c, the proof behind `merge-order`, on texts with added tokens.
use bytepair.Base.{ℕ, zero, suc, ◌+◌, ◌-◌, ◌==◌, Bool-cases, Option-cases, false, ◌||◌}
use bytepair.Base.{List, [], ◌∷◌, length, take, drop, take_all, All, All-take, All-drop}
use bytepair.Base.{arith, ◌≡◌, refl, sym, ◌∙◌, inl, inr}
use mathlib.Core.Path.{subst}
use bytepair.Utf8.Laws.{IsByte}
use bytepair.Vocab.{BpvAdded, BpVocab}
use bytepair.Tables.{UcTables, ClassesProper}
use bytepair.Encode.{bp_raw, is_set, match_added}
use bytepair.Encode.Match.{AddedProper, match_added-All}
use bytepair.Encode.Split.{Piece, text, token, pieces, pieces_skip, pieces_hit}
use bytepair.Encode.Rounds.{piece_ids, split}
use bytepair.Encode.Answer.{split_plain, split_cut}
use bytepair.Encode.Laws.{segment_ids}
use bytepair.Census.Search.{contains_id}
use bytepair.Census.Token.{is_added}
use bytepair.Census.Emission.{IsAbsent, contains_id-append}

not_added-All :
    (records : List BpvAdded) (t : ℕ)
    → is_added records t ≡ false
    → All (λ a. (a.id == t) ≡ false) records
unfolding is_added
not_added-All [] t e = tt
not_added-All (a ∷ records) t e = elim (Bool-cases (a.id == t)) [
  | inl here ↦ absurd (cc (rw here at e))
  | inr on ↦ (on, not_added-All records t (rw on at e))
]

module _ (u : UcTables) (v : BpVocab) (t : ℕ) where
  -- The token is in no piece.
  Lacks : Piece → Type 0
  Lacks (text s) = IsAbsent t (segment_ids u v s)
  Lacks (token a) = (a.id == t) ≡ false

  piece_ids-IsAbsent : (ps : List Piece) → All Lacks ps → IsAbsent t (piece_ids u v ps)
  unfolding contains_id Lacks
  piece_ids-IsAbsent [] h = refl
  piece_ids-IsAbsent (text s ∷ ps) (one, h) =
      contains_id-append (segment_ids u v s) (piece_ids u v ps) t
      ∙ rw (one, piece_ids-IsAbsent ps h) refl
  piece_ids-IsAbsent (token a ∷ ps) (one, h) = rw one (piece_ids-IsAbsent ps h)

  module _ (proper : AddedProper v) (classes : ClassesProper u)
      (absent : (s : List ℕ) → All IsByte s → IsAbsent t (segment_ids u v s))
      (other : is_added (take v.hdr.added_count v.added) t ≡ false) where
    added-lack : All (λ a. (a.id == t) ≡ false) v.added
    added-lack = not_added-All v.added t (
        subst (λ l. is_added l t ≡ false)
          (take_all v.hdr.added_count v.added (omega (arith, proper.counted))) other)

    pieces-Lacks : (s : List ℕ) (n seg i : ℕ) → All IsByte s → All Lacks (pieces v s n seg i)
    unfolding pieces Lacks
    pieces-Lacks s zero seg i bytes =
        (absent _ (All-take IsByte (length s - seg) (drop seg s) (All-drop IsByte seg s bytes)), tt)
    pieces-Lacks s (suc n) seg i bytes = elim (Option-cases (match_added v (drop i s))) [
      | inl miss ↦
          subst (All Lacks) (sym (pieces_skip v proper s n seg i miss))
            (pieces-Lacks s n seg (i + 1) bytes)
      | inr (a, hit) ↦ subst (All Lacks) (sym (pieces_hit v proper s n seg i a hit)) (
        absent _ (All-take IsByte (i - seg) (drop seg s) (All-drop IsByte seg s bytes)),
        (
          match_added-All v (drop i s) proper (λ b. (b.id == t) ≡ false) a added-lack hit,
          pieces-Lacks s n (i + a.len) (i + a.len) bytes,
        ),
      )
    ]

    -- No split of a text of bytes has the token.
    pub split-IsAbsent :
        (s : List ℕ) (flags : ℕ) → All IsByte s → IsAbsent t (piece_ids u v (split v flags s))
    unfolding Lacks
    split-IsAbsent s flags bytes =
        piece_ids-IsAbsent (split v flags s)
          (elim (Bool-cases (is_set flags bp_raw || v.hdr.added_count == 0)) [
            | inl plain ↦ rw (split_plain v flags s plain) (absent s bytes, tt)
            | inr cut ↦ rw (split_cut v flags s cut) (pieces-Lacks s (length s) 0 0 bytes)
          ])
