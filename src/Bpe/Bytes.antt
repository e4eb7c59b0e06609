-- ===== src/Bpe/Bytes.antt =====
-- What an encoding keeps: the bytes that its ids stand for, and the range of its ids.
use bytepair.Base.{ℕ, zero, suc, ◌+◌, ◌<◌, ◌≤◌, List, [], ◌∷◌, ◌++◌, get_or, length, take, All}
use bytepair.Base.{
  arith, ◌≡◌, ◌≢◌, refl, sym, ap, ◌∙◌, append_assoc, All-append, All-take, All-drop, All-get_or,
}
use bytepair.Vocab.{BpVocab, token_bytes, pair_empty}
use bytepair.Vocab.Pairs.{bp_pair_lookup}
use bytepair.Bpe.{no_rank, merge_at}
use bytepair.Bpe.Short.{length-merge_at}
use bytepair.Bpe.Spec.{rank_of, id_of, MergesAt, merged, Encodes, done, merge}

-- The bytes of a sequence of ids.
abbrev pub expand : BpVocab → List ℕ → List ℕ
expand v [] = []
expand v (x ∷ ids) = token_bytes v x ++ expand v ids

pub expand-append :
    (v : BpVocab) (xs ys : List ℕ) → expand v (xs ++ ys) ≡ expand v xs ++ expand v ys
expand-append v [] ys = refl
expand-append v (x ∷ xs) ys =
    ap (λ t. token_bytes v x ++ t) (expand-append v xs ys)
    ∙ sym (append_assoc (token_bytes v x) (expand v xs) (expand v ys))

-- Every merge of the table joins the bytes of its parts. The loader does not check this.
pub record IsCoherent (v : BpVocab) : Type 0 where
  pub joins :
      (x y : ℕ)
      → x < v.hdr.vocab_count
      → y < v.hdr.vocab_count
      → bp_pair_lookup v x y ≢ pair_empty
      → token_bytes v (id_of v x y) ≡ token_bytes v x ++ token_bytes v y

-- Every merge of two ids of the vocabulary makes one.
pub record MergesInRange (v : BpVocab) : Type 0 where
  pub below :
      (x y : ℕ)
      → x < v.hdr.vocab_count
      → y < v.hdr.vocab_count
      → bp_pair_lookup v x y ≢ pair_empty
      → id_of v x y < v.hdr.vocab_count

pub ranked_found :
    (v : BpVocab) (x y : ℕ) → rank_of v x y < no_rank → bp_pair_lookup v x y ≢ pair_empty
unfolding rank_of
ranked_found v x y h = ground arith

module _ (v : BpVocab) where
  expand-merge_at :
      (ids : List ℕ) (i id : ℕ)
      → suc i < length ids
      → token_bytes v id ≡ token_bytes v (get_or ids i 0) ++ token_bytes v (get_or ids (suc i) 0)
      → expand v (merge_at ids i id) ≡ expand v ids
  unfolding merge_at
  expand-merge_at [] i id h e = absurd (omega arith)
  expand-merge_at (x ∷ []) i id h e = absurd (omega arith)
  expand-merge_at (x ∷ y ∷ ids) zero id h e =
      rw e (append_assoc (token_bytes v x) (token_bytes v y) (expand v ids))
  expand-merge_at (x ∷ y ∷ ids) (suc i) id h e =
      rw two (ap (λ t. token_bytes v x ++ t) (expand-merge_at (y ∷ ids) i id (omega arith) e))
    where
      two : suc i + 2 ≡ suc (i + 2)
      two = omega arith

  -- What holds for the ids, and for each id that a merge makes of such ids, holds for the encoding.
  pub Encodes-All :
      (P : ℕ → Type 0) {ids out : List ℕ}
      → ((x y : ℕ) → P x → P y → bp_pair_lookup v x y ≢ pair_empty → P (id_of v x y))
      → All P ids
      → Encodes v ids out
      → All P out
  unfolding merge_at
  Encodes-All P made all (done h) = all
  Encodes-All P {ids} made all (merge i m e) =
      Encodes-All P made
        (All-append P (take i ids) _ (All-take P i ids all) (
          made _ _ (All-get_or P ids i 0 all (omega (arith, m.inside)))
              (All-get_or P ids (suc i) 0 all m.inside) (ranked_found v _ _ m.ranked),
          All-drop P (i + 2) ids all,
        ))
        e

  -- Encoding never takes more ids than there were.
  pub Encodes-length : {ids out : List ℕ} → Encodes v ids out → length out ≤ length ids
  Encodes-length (done h) = omega arith
  Encodes-length {ids} (merge i m e) = omega (
    arith,
    Encodes-length e,
    length-merge_at ids i (id_of v (get_or ids i 0) (get_or ids (suc i) 0)) m.inside,
  )

  merged-below :
      (ids : List ℕ) (i : ℕ)
      → MergesInRange v
      → MergesAt v ids i
      → All (λ x. x < v.hdr.vocab_count) ids
      → All (λ x. x < v.hdr.vocab_count) (merged v ids i)
  unfolding merge_at
  merged-below ids i r m all = All-append _ (take i ids) _ (All-take _ i ids all) (
    r.below _ _ (All-get_or _ ids i 0 all (omega (arith, m.inside)))
        (All-get_or _ ids (suc i) 0 all m.inside) (ranked_found v _ _ m.ranked),
    All-drop _ (i + 2) ids all,
  )

  -- Where every merge joins the bytes of its parts and makes an id of the vocabulary, encoding
  -- ids of the vocabulary never changes the bytes that they stand for.
  pub Encodes-expand :
      {ids out : List ℕ}
      → IsCoherent v
      → MergesInRange v
      → All (λ x. x < v.hdr.vocab_count) ids
      → Encodes v ids out
      → expand v out ≡ expand v ids
  Encodes-expand co r all (done h) = refl
  Encodes-expand {ids} co r all (merge i m e) =
      Encodes-expand co r (merged-below ids i r m all) e
      ∙ expand-merge_at ids i _ m.inside (
          co.joins _ _ (All-get_or _ ids i 0 all (omega (arith, m.inside)))
            (All-get_or _ ids (suc i) 0 all m.inside) (ranked_found v _ _ m.ranked))
