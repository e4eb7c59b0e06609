-- ===== src/Encode/Spelling.antt =====
-- The encoding of a text against its bytes: what its ids spell, and how many there are.
use bytepair.Base.{ℕ, suc, ◌<◌, ◌≤◌}
use bytepair.Base.{List, [], ◌∷◌, ◌++◌, length, get_or, concat, All}
use bytepair.Base.{All-append, length-append}
use bytepair.Base.{arith, ◌≡◌, ◌≢◌, refl, sym, ap, ◌∙◌}
use bytepair.Utf8.Laws.{IsByte}
use bytepair.Vocab.{BpVocab, token_len, token_bytes, pair_empty}
use bytepair.Vocab.Pairs.{bp_pair_lookup}
use bytepair.Bpe.Spec.{id_of}
use bytepair.Bpe.Short.{merge_short-Encodes}
use bytepair.Bpe.Bytes.{
  expand, expand-append, IsCoherent, MergesInRange, Encodes-expand, Encodes-All, Encodes-length,
}
use bytepair.Bpe.Pretoken.{byte_ids}
use bytepair.Bpe.Pretoken.Cache.{encode_bytes}
use bytepair.Scan.Text.Laws.{encode_spans}

-- An id that stands for bytes.
pub record IsToken (v : BpVocab) (id : ℕ) : Type 0 where
  pub below : id < v.hdr.vocab_count
  pub long : token_bytes v id ≢ []

-- The id of each byte stands for that byte.
pub record BytesProper (v : BpVocab) : Type 0 where
  pub spells : (b : ℕ) → IsByte b → token_bytes v (get_or v.byte_id b 0) ≡ b ∷ []
  pub token : (b : ℕ) → IsByte b → IsToken v (get_or v.byte_id b 0)

pub empty_token : (v : BpVocab) (id : ℕ) → token_len v id ≡ 0 → token_bytes v id ≡ []
unfolding token_bytes
empty_token v id e = rw e

left_empty : (xs ys : List ℕ) → xs ++ ys ≡ [] → xs ≡ []
left_empty [] ys e = refl
left_empty (x ∷ xs) ys e = absurd (cc)

module _ (v : BpVocab) (bytes : BytesProper v) where
  pub expand-byte_ids : (p : List ℕ) → All IsByte p → expand v (byte_ids v p) ≡ p
  unfolding byte_ids
  expand-byte_ids [] h = refl
  expand-byte_ids (b ∷ p) (one, h) = rw (bytes.spells b one) (ap (λ t. b ∷ t) (expand-byte_ids p h))

  byte_ids-IsToken : (p : List ℕ) → All IsByte p → All (IsToken v) (byte_ids v p)
  unfolding byte_ids
  byte_ids-IsToken [] h = tt
  byte_ids-IsToken (b ∷ p) (one, h) = (bytes.token b one, byte_ids-IsToken p h)

  length-byte_ids : (p : List ℕ) → length (byte_ids v p) ≡ length p
  unfolding byte_ids
  length-byte_ids [] = refl
  length-byte_ids (b ∷ p) = ap suc (length-byte_ids p)

  pub byte_ids-below : (p : List ℕ) → All IsByte p → All (λ x. x < v.hdr.vocab_count) (byte_ids v p)
  unfolding byte_ids
  byte_ids-below [] h = tt
  byte_ids-below (b ∷ p) (one, h) = ((bytes.token b one).below, byte_ids-below p h)

  expand-encode_bytes :
      (p : List ℕ) → IsCoherent v → MergesInRange v → All IsByte p → expand v (encode_bytes v p) ≡ p
  unfolding encode_bytes
  expand-encode_bytes p co r h =
      Encodes-expand v co r (byte_ids-below p h) (merge_short-Encodes v (byte_ids v p))
      ∙ expand-byte_ids p h

  merged-IsToken :
      IsCoherent v
      → MergesInRange v
      → (x y : ℕ) → IsToken v x
      → IsToken v y
      → bp_pair_lookup v x y ≢ pair_empty
      → IsToken v (id_of v x y)
  merged-IsToken co r x y tx ty found = record {
    below = r.below x y tx.below ty.below found;
    long = λ e. tx.long (
        left_empty (token_bytes v x) (token_bytes v y)
          (sym (co.joins x y tx.below ty.below found) ∙ e));
  }

  encode_bytes-IsToken :
      (p : List ℕ)
      → IsCoherent v
      → MergesInRange v
      → All IsByte p
      → All (IsToken v) (encode_bytes v p)
  unfolding encode_bytes
  encode_bytes-IsToken p co r h =
      Encodes-All v (IsToken v) (merged-IsToken co r) (byte_ids-IsToken p h)
        (merge_short-Encodes v (byte_ids v p))

  length-encode_bytes : (p : List ℕ) → length (encode_bytes v p) ≤ length p
  unfolding encode_bytes
  length-encode_bytes p =
      omega (arith, Encodes-length v (merge_short-Encodes v (byte_ids v p)), length-byte_ids p)

  pub expand-encode_spans :
      (ps : List (List ℕ))
      → IsCoherent v
      → MergesInRange v
      → All (All IsByte) ps
      → expand v (encode_spans v ps) ≡ concat ps
  expand-encode_spans [] co r h = refl
  expand-encode_spans (p ∷ ps) co r (one, h) =
      expand-append v (encode_bytes v p) (encode_spans v ps)
      ∙ rw (expand-encode_bytes p co r one, expand-encode_spans ps co r h)

  pub encode_spans-IsToken :
      (ps : List (List ℕ))
      → IsCoherent v
      → MergesInRange v
      → All (All IsByte) ps
      → All (IsToken v) (encode_spans v ps)
  encode_spans-IsToken [] co r h = tt
  encode_spans-IsToken (p ∷ ps) co r (one, h) =
      All-append (IsToken v) (encode_bytes v p) (encode_spans v ps)
        (encode_bytes-IsToken p co r one) (encode_spans-IsToken ps co r h)

  pub length-encode_spans : (ps : List (List ℕ)) → length (encode_spans v ps) ≤ length (concat ps)
  length-encode_spans [] = omega arith
  length-encode_spans (p ∷ ps) = omega (
    arith,
    length-encode_bytes p,
    length-encode_spans ps,
    length-append (encode_bytes v p) (encode_spans v ps),
    length-append p (concat ps),
  )
