-- ===== src/Census/Emission.antt =====
-- src/bp_census.c, the proof behind `merge-order`: a token that its own bytes do not make is never made.
use bytepair.Base.{ℕ, zero, suc, ◌<◌, ◌==◌, Bool-cases, ==_iff}
use bytepair.Base.{true, false, ◌||◌, List, [], ◌∷◌, ◌++◌, length, get_or, take, drop, All}
use bytepair.Base.{All-take, All-drop, append-nil, arith, ◌≡◌, ◌≢◌, inl, inr, refl, sym, ap, ◌∙◌}
use mathlib.Core.Path.{subst}
use bytepair.Utf8.Laws.{IsByte}
use bytepair.Vocab.{BpVocab, token_bytes}
use bytepair.Tables.{UcTables, ClassesProper}
use bytepair.Bpe.Short.{merge_short-Encodes, merge_short_unique}
use bytepair.Bpe.Spec.{Encodes}
use bytepair.Bpe.Boundary.{Encodes-Part}
use bytepair.Bpe.Bytes.{IsCoherent, MergesInRange, Encodes-expand}
use bytepair.Bpe.Pretoken.{byte_ids}
use bytepair.Bpe.Pretoken.Cache.{encode_bytes}
use bytepair.Scan.Text.{pretokens}
use bytepair.Scan.Text.Laws.{encode_spans, pretokens-partition}
use bytepair.Encode.Laws.{text_ids}
use bytepair.Encode.Spelling.{BytesProper, expand-byte_ids, byte_ids-below}
use bytepair.Encode.RoundTrip.{concat-bytes}
use bytepair.Census.Search.{contains_id}

take-byte_ids : (v : BpVocab) (n : ℕ) (p : List ℕ) → take n (byte_ids v p) ≡ byte_ids v (take n p)
unfolding byte_ids
take-byte_ids v zero p = refl
take-byte_ids v (suc n) [] = refl
take-byte_ids v (suc n) (b ∷ p) = ap (λ r. get_or v.byte_id b 0 ∷ r) (take-byte_ids v n p)

drop-byte_ids : (v : BpVocab) (n : ℕ) (p : List ℕ) → drop n (byte_ids v p) ≡ byte_ids v (drop n p)
unfolding byte_ids
drop-byte_ids v zero p = refl
drop-byte_ids v (suc n) [] = refl
drop-byte_ids v (suc n) (b ∷ p) = drop-byte_ids v n p

module _ (v : BpVocab) (bytes : BytesProper v) (co : IsCoherent v) (r : MergesInRange v) where
  -- Bytes that encode to `t` alone are the bytes of `t`.
  alone :
      (q : List ℕ) (t : ℕ)
      → All IsByte q
      → Encodes v (byte_ids v q) (t ∷ [])
      → encode_bytes v (token_bytes v t) ≡ t ∷ []
  unfolding encode_bytes
  alone q t h e =
      let spelt : token_bytes v t ≡ q =
        sym (append-nil (token_bytes v t))
        ∙ Encodes-expand v co r (byte_ids-below v bytes q h) e
        ∙ expand-byte_ids v bytes q h in
      ap (encode_bytes v) spelt ∙ sym (merge_short_unique v (byte_ids v q) (t ∷ []) e)

  -- An id in the encoding of bytes is the whole encoding of its own bytes.
  pub encode_bytes-alone :
      (p : List ℕ) (k : ℕ)
      → All IsByte p
      → k < length (encode_bytes v p)
      → encode_bytes v (token_bytes v (get_or (encode_bytes v p) k 0))
        ≡ get_or (encode_bytes v p) k 0 ∷ []
  unfolding encode_bytes
  encode_bytes-alone p k h lt =
      let part = Encodes-Part v k (merge_short-Encodes v (byte_ids v p)) lt in
      let q = take part.size (drop part.start p) in
      alone q _ (All-take IsByte part.size (drop part.start p) (All-drop IsByte part.start p h)) (
        subst (λ ids. Encodes v ids (get_or (encode_bytes v p) k 0 ∷ []))
          (ap (take part.size) (drop-byte_ids v part.start p)
            ∙ take-byte_ids v part.size (drop part.start p))
          part.whole)

-- Where an id that is contained stands.
record At (ids : List ℕ) (t : ℕ) : Type 0 where
  pub place : ℕ
  pub inside : place < length ids
  pub same : get_or ids place 0 ≡ t

contains_id-At : (ids : List ℕ) (n t : ℕ) → contains_id ids n t ≡ true → At ids t
unfolding contains_id
contains_id-At ids zero t e = absurd (cc)
contains_id-At [] (suc n) t e = absurd (cc)
contains_id-At (x ∷ ids) (suc n) t e = elim (Bool-cases (x == t)) [
  | inl here ↦ record { place = 0; inside = omega arith; same = (==_iff x t).0 here }
  | inr on ↦
      let a = contains_id-At ids n t (rw on at e) in
      record { place = suc a.place; inside = omega (arith, a.inside); same = a.same }
]

pub contains_id-append :
    (xs ys : List ℕ) (t : ℕ)
    → contains_id (xs ++ ys) (length (xs ++ ys)) t
      ≡ (contains_id xs (length xs) t || contains_id ys (length ys) t)
unfolding contains_id
contains_id-append [] ys t = refl
contains_id-append (x ∷ xs) ys t = elim (Bool-cases (x == t)) [
  | inl here ↦ rw here refl
  | inr on ↦ rw on (contains_id-append xs ys t)
]

-- The token is not among the ids.
abbrev pub IsAbsent : ℕ → List ℕ → Type 0
IsAbsent t ids = contains_id ids (length ids) t ≡ false

module _ (v : BpVocab) (bytes : BytesProper v) (co : IsCoherent v) (r : MergesInRange v) (t : ℕ)
    (other : encode_bytes v (token_bytes v t) ≢ t ∷ []) where
  encode_bytes-IsAbsent : (p : List ℕ) → All IsByte p → IsAbsent t (encode_bytes v p)
  encode_bytes-IsAbsent p h =
      elim (Bool-cases (contains_id (encode_bytes v p) (length (encode_bytes v p)) t)) [
        | inr absent ↦ absent
        | inl found ↦
            let a = contains_id-At (encode_bytes v p) (length (encode_bytes v p)) t found in
            absurd (
              other (
                subst (λ x. encode_bytes v (token_bytes v x) ≡ x ∷ []) a.same
                  (encode_bytes-alone v bytes co r p a.place h a.inside)))
      ]

  encode_spans-IsAbsent :
      (ps : List (List ℕ)) → All (All IsByte) ps → IsAbsent t (encode_spans v ps)
  unfolding contains_id
  encode_spans-IsAbsent [] h = refl
  encode_spans-IsAbsent (p ∷ ps) (one, h) =
      contains_id-append (encode_bytes v p) (encode_spans v ps) t
      ∙ rw (encode_bytes-IsAbsent p one, encode_spans-IsAbsent ps h) refl

  -- Where every merge joins the bytes of its parts and makes an id of the vocabulary, and byte
  -- ids stand for their bytes, for proper class tables: a token that is not all of the encoding
  -- of its own bytes is not among the encodings of the pretokens of any list of bytes.
  pub text_ids-IsAbsent :
      (u : UcTables) (s : List ℕ) → ClassesProper u → All IsByte s → IsAbsent t (text_ids u v s)
  text_ids-IsAbsent u s classes h = encode_spans-IsAbsent (pretokens u false s) (
      concat-bytes (pretokens u false s)
        (subst (All IsByte) (sym (pretokens-partition u classes false s h).0) h))
