-- ===== src/Loader/Tokens.antt =====
-- src/bp_vocab.c: the checks on the offsets, on the ids of the bytes and on the added records.
use bytepair.Base.{ℕ, zero, suc, ◌+◌, ◌<◌, ◌≤◌, leb}
use bytepair.Base.{true, both, ltb→lt, leb→le, ==_iff}
use bytepair.Base.{List, [], ◌∷◌, length, get_or, take, drop, drop_step}
use bytepair.Base.{arith, ◌≡◌, refl, sym, ap, ◌∙◌}
use mathlib.Core.Path.{subst}
use bytepair.Utf8.Laws.{IsByte}
use bytepair.Vocab.{BpvHeader, BpVocab, token_len, token_bytes}
use bytepair.Encode.Spelling.{BytesProper}
use bytepair.Loader.Content.{ascending, width_of, bytes_ok}

ascending_head :
    (x : ℕ) (l : List ℕ) (j : ℕ)
    → ascending (x ∷ l) ≡ true
    → j < length (x ∷ l)
    → x ≤ get_or (x ∷ l) j 0
unfolding ascending
ascending_head x l zero a h = omega arith
ascending_head x [] (suc j) a h = absurd (omega arith)
ascending_head x (y ∷ l) (suc j) a h =
    let (le, rest) = both (leb x y) (ascending (y ∷ l)) a in
    omega (arith, leb→le x y le, ascending_head y l j rest (omega arith))

ascending_tail : (x : ℕ) (l : List ℕ) → ascending (x ∷ l) ≡ true → ascending l ≡ true
unfolding ascending
ascending_tail x [] a = refl
ascending_tail x (y ∷ l) a = (both (leb x y) (ascending (y ∷ l)) a).1

pub ascending_lem :
    (l : List ℕ) (i j : ℕ) → ascending l ≡ true → i ≤ j → j < length l → get_or l i 0 ≤ get_or l j 0
ascending_lem [] i j a le h = absurd (omega arith)
ascending_lem (x ∷ l) zero j a le h = ascending_head x l j a h
ascending_lem (x ∷ l) (suc i) zero a le h = absurd (omega arith)
ascending_lem (x ∷ l) (suc i) (suc j) a le h =
    ascending_lem l i j (ascending_tail x l a) (omega arith) (omega arith)

-- The id of the byte `b` has its one byte, which is `b`.
pub record ByteAt (h : BpvHeader) (tok_off blob : List ℕ) (b id : ℕ) : Type 0 where
  pub below : id < h.vocab_count
  pub one : width_of tok_off id ≡ 1
  pub there : get_or blob (get_or tok_off id 0) 0 ≡ b

bytes_ok_step :
    (h : BpvHeader) (tok_off blob : List ℕ) (i id : ℕ) (ids : List ℕ)
    → bytes_ok h tok_off blob i (id ∷ ids) ≡ true
    → ByteAt h tok_off blob i id × (bytes_ok h tok_off blob (suc i) ids ≡ true)
unfolding bytes_ok
bytes_ok_step h tok_off blob i id ids ok =
    let (below, ok₁) = both _ _ ok in
    let (one, ok₂) = both _ _ ok₁ in
    let (there, rest) = both _ _ ok₂ in
    (
      record { below = ltb→lt _ _ below; one = (==_iff _ _).0 one; there = (==_iff _ _).0 there },
      rest,
    )

pub bytes_ok-ByteAt :
    (h : BpvHeader) (tok_off blob : List ℕ) (i : ℕ) (ids : List ℕ) (b : ℕ)
    → bytes_ok h tok_off blob i ids ≡ true
    → b < length ids
    → ByteAt h tok_off blob (i + b) (get_or ids b 0)
bytes_ok-ByteAt h tok_off blob i [] b ok lt = absurd (omega arith)
bytes_ok-ByteAt h tok_off blob i (id ∷ ids) zero ok lt =
    subst (λ k. ByteAt h tok_off blob k id) (omega arith)
      (bytes_ok_step h tok_off blob i id ids ok).0
bytes_ok-ByteAt h tok_off blob i (id ∷ ids) (suc b) ok lt =
    subst (λ k. ByteAt h tok_off blob k (get_or ids b 0)) (omega arith)
      (bytes_ok-ByteAt h tok_off blob (suc i) ids b (bytes_ok_step h tok_off blob i id ids ok).1
        (omega arith))

take_one : (xs : List ℕ) (i : ℕ) → i < length xs → take 1 (drop i xs) ≡ get_or xs i 0 ∷ []
take_one xs i h = rw (drop_step i xs 0 h) refl

-- The offsets ascend and end within the blob.
pub record OffsetsProper (v : BpVocab) : Type 0 where
  pub counted : length v.tok_off ≡ v.hdr.vocab_count + 1
  pub ascends : ascending v.tok_off ≡ true
  pub inside : get_or v.tok_off v.hdr.vocab_count 0 ≤ length v.blob

module _ (v : BpVocab) (offsets : OffsetsProper v) where
  open offsets use {counted, ascends, inside}

  -- Where an id of the vocabulary has its bytes.
  pub token-inside :
      (id : ℕ)
      → id < v.hdr.vocab_count
      → (get_or v.tok_off id 0 ≤ get_or v.tok_off (id + 1) 0)
        × (get_or v.tok_off (id + 1) 0 ≤ length v.blob)
  token-inside id h = (
    ascending_lem v.tok_off id (id + 1) ascends (omega arith) (omega arith),
    omega (
      arith,
      inside,
      ascending_lem v.tok_off (id + 1) v.hdr.vocab_count ascends (omega arith) (omega arith),
    ),
  )

  byte-token_bytes : (b id : ℕ) → ByteAt v.hdr v.tok_off v.blob b id → token_bytes v id ≡ b ∷ []
  unfolding token_bytes token_len width_of
  byte-token_bytes b id at =
      rw
        (
          at.one,
          take_one v.blob (get_or v.tok_off id 0) (omega (arith, at.one, token-inside id at.below)),
        )
        (ap (λ x. x ∷ []) at.there)

  pub bytes-BytesProper :
      ((b : ℕ) → IsByte b → ByteAt v.hdr v.tok_off v.blob b (get_or v.byte_id b 0)) → BytesProper v
  bytes-BytesProper at = record {
    spells = λ b h. byte-token_bytes b (get_or v.byte_id b 0) (at b h);
    token = λ b h. record {
      below = (at b h).below;
      long = λ e. absurd (cc (sym (byte-token_bytes b (get_or v.byte_id b 0) (at b h)) ∙ e));
    };
  }
