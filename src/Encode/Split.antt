-- ===== src/Encode/Split.antt =====
-- src/bp_encode.c `bp_encode`: the split of a text at its added tokens, by a search at every position,
-- and the loop that jumps from one possible first byte to the next.
use bytepair.Base.{ℕ, zero, suc, ◌+◌, ◌<◌, ◌≤◌, ltb, leb, Bool-cases, Option-cases}
use bytepair.Base.{true, false, both, leb→le, ltb→lt, ltb→le, le→ltb}
use bytepair.Base.{none, some, List, [], ◌∷◌, length, get_or, take, drop, get_or-drop, length-drop}
use bytepair.Base.{arith, ◌≡◌, refl, sym, ap, ◌∙◌, inl, inr}
use bytepair.Vocab.{BpvAdded, BpVocab}
use bytepair.Bpe.Pretoken.Cache.{same_bytes→eq}
use bytepair.Scan.Text.{slice}
use bytepair.Encode.{matches, match_added, is_first_byte, find_first}
use bytepair.Encode.Match.{AddedProper, match_added-All, match_added_longest}
use bytepair.Loader.Matcher.{first_byte}

-- A stretch of text, or an added token.
pub data Piece : Type 0 where
  text : List ℕ → Piece
  token : BpvAdded → Piece

-- From `i` on, with the text from `seg` on not yet cut off: a match cuts, the longest first.
unfoldable pub pieces : BpVocab → List ℕ → ℕ → ℕ → ℕ → List Piece
pieces v t zero seg i = text (slice t seg (length t)) ∷ []
pieces v t (suc n) seg i = elim (match_added v (drop i t)) [
  | none ↦ pieces v t n seg (i + 1)
  | some a ↦ text (slice t seg i) ∷ token a ∷ pieces v t n (i + a.len) (i + a.len)
]

get_or-take : (n : ℕ) (xs : List ℕ) → 0 < n → get_or (take n xs) 0 0 ≡ get_or xs 0 0
get_or-take zero xs h = absurd (omega arith)
get_or-take (suc n) [] h = refl
get_or-take (suc n) (x ∷ xs) h = refl

module _ (v : BpVocab) (proper : AddedProper v) (t : List ℕ) where
  -- A match begins with the first byte of its token.
  matched_first :
      (p : List ℕ) (a : BpvAdded)
      → matches v p a ≡ true
      → 0 < a.len
      → get_or p 0 0 ≡ first_byte v.blob a
  unfolding matches
  matched_first p a m long =
      sym (get_or-take a.len p long)
      ∙ ap (λ l. get_or l 0 0) (same_bytes→eq _ _ (both _ _ m).1)
      ∙ get_or-take a.len (drop a.offset v.blob) long
      ∙ get_or-drop a.offset 0 v.blob 0
      ∙ ap (λ k. get_or v.blob k 0) {y = a.offset} (omega arith)

  matched_inside : (p : List ℕ) (a : BpvAdded) → matches v p a ≡ true → a.len ≤ length p
  unfolding matches
  matched_inside p a m = leb→le _ _ (both (leb a.len (length p)) _ m).0

  -- Where no token may begin, none is found.
  no_match : (i : ℕ) → is_first_byte v (get_or t i 0) ≡ false → match_added v (drop i t) ≡ none
  no_match i off = elim (Option-cases (match_added v (drop i t))) [
    | inl e ↦ e
    | inr (a, e) ↦
        let (good, m, _) = match_added_longest v (drop i t) proper a e in
        let first =
          match_added-All v (drop i t) proper (λ a. is_first_byte v (first_byte v.blob a) ≡ true) a
            proper.first_bytes e in
        let same : get_or t i 0 ≡ first_byte v.blob a =
          ap (λ k. get_or t k 0) {x = i} (omega arith)
          ∙ sym (get_or-drop i 0 t 0)
          ∙ matched_first (drop i t) a m good.long in
        absurd (cc (rw (← same) at first))
  ]

  pub pieces_skip :
      (n seg i : ℕ)
      → match_added v (drop i t) ≡ none
      → pieces v t (suc n) seg i ≡ pieces v t n seg (i + 1)
  unfolding pieces
  pieces_skip n seg i e = rw (e, pieces)

  pub pieces_hit :
      (n seg i : ℕ) (a : BpvAdded)
      → match_added v (drop i t) ≡ some a
      → pieces v t (suc n) seg i
        ≡ text (slice t seg i) ∷ token a ∷ pieces v t n (i + a.len) (i + a.len)
  unfolding pieces
  pieces_hit n seg i a e = rw (e, pieces)

  -- Behind the text there is no match.
  no_match_behind : (i : ℕ) → length t ≤ i → match_added v (drop i t) ≡ none
  no_match_behind i h = elim (Option-cases (match_added v (drop i t))) [
    | inl e ↦ e
    | inr (a, e) ↦
        let (good, m, _) = match_added_longest v (drop i t) proper a e in
        absurd (omega (arith, good.long, matched_inside (drop i t) a m, length-drop i t))
  ]

  pub pieces_end :
      (n seg i : ℕ) → length t ≤ i → pieces v t n seg i ≡ text (slice t seg (length t)) ∷ []
  unfolding pieces
  pieces_end zero seg i h = refl
  pieces_end (suc n) seg i h =
      pieces_skip n seg i (no_match_behind i h) ∙ pieces_end n seg (i + 1) (omega arith)

  -- Where the search for a first byte stops, the split has not cut in between.
  pub record StopsAt (n seg i at : ℕ) : Type 0 where
    pub fuel : ℕ
    pub enough : length t ≤ suc fuel + at
    pub behind : i ≤ at
    pub inside : at < length t
    pub same : pieces v t n seg i ≡ pieces v t (suc fuel) seg at

  stops_here : (n seg i at : ℕ) → length t ≤ n + i → i < length t → i ≡ at → StopsAt n seg i at
  stops_here zero seg i at h lt e = absurd (omega arith)
  stops_here (suc n) seg i at h lt e = record {
    fuel = n;
    enough = omega arith;
    behind = omega arith;
    inside = omega arith;
    same = ap (pieces v t (suc n) seg) e;
  }

  stops_later :
      (n seg i at : ℕ)
      → match_added v (drop i t) ≡ none
      → StopsAt n seg (i + 1) at
      → StopsAt (suc n) seg i at
  stops_later n seg i at e s = record {
    fuel = s.fuel;
    enough = s.enough;
    behind = omega (arith, s.behind);
    inside = s.inside;
    same = pieces_skip n seg i e ∙ s.same;
  }

  pub find_first-StopsAt :
      (m n seg i at : ℕ) → length t ≤ n + i → find_first v m t i ≡ some at → StopsAt n seg i at
  unfolding find_first
  find_first-StopsAt zero n seg i at h e = absurd (cc)
  find_first-StopsAt (suc m) zero seg i at h e =
      absurd (cc (rw (le→ltb i (length t) (omega arith)) at e))
  find_first-StopsAt (suc m) (suc n) seg i at h e = elim (Bool-cases (ltb i (length t))) [
    | inr out ↦ absurd (cc (rw out at e))
    | inl in_text ↦ elim (Bool-cases (is_first_byte v (get_or t i 0))) [
      | inl stop ↦ stops_here (suc n) seg i at h (ltb→lt _ _ in_text) (cc (rw (in_text, stop) at e))
      | inr go ↦
          stops_later n seg i at (no_match i go)
            (find_first-StopsAt m n seg (i + 1) at (omega arith) (rw (in_text, go) at e))
    ]
  ]

  pub find_first-none :
      (m n seg i : ℕ)
      → length t ≤ m + i
      → find_first v m t i ≡ none
      → pieces v t n seg i ≡ text (slice t seg (length t)) ∷ []
  unfolding find_first pieces
  find_first-none zero n seg i h e = pieces_end n seg i (omega arith)
  find_first-none (suc m) zero seg i h e = refl
  find_first-none (suc m) (suc n) seg i h e = elim (Bool-cases (ltb i (length t))) [
    | inr out ↦ pieces_end (suc n) seg i (ltb→le _ _ out)
    | inl in_text ↦ elim (Bool-cases (is_first_byte v (get_or t i 0))) [
      | inl stop ↦ absurd (cc (rw (in_text, stop) at e))
      | inr go ↦
          pieces_skip n seg i (no_match i go)
          ∙ find_first-none m n seg (i + 1) (omega arith) (rw (in_text, go) at e)
    ]
  ]
