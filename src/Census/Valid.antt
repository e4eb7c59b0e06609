-- ===== src/Census/Valid.antt =====
-- src/bp_census.c `utf8_valid`, against the encodings of scalar values.
use bytepair.Base.{ℕ, zero, suc, ◌<◌, ◌≤◌, ◌==◌, Bool-cases, ==_iff}
use bytepair.Base.{true, false, List, [], ◌∷◌, ◌++◌, length, take, drop, All, All-drop}
use bytepair.Base.{
  take-append-drop, length-append, length-drop, arith, ◌≡◌, ◌≢◌, ◌↔◌, refl, sym, ap, ◌∙◌, inl, inr,
}
use mathlib.Core.Path.{subst}
use bytepair.Utf8.{malformed, encode_cp, bp_utf8_next}
use bytepair.Utf8.Laws.{IsByte, IsScalar}
use bytepair.Utf8.Decode.{next-encode_cp, next-Accepts, adv_bounds}
use bytepair.Census.Search.{valid_loop, utf8_valid}

-- The encodings of the scalar values, in order.
abbrev pub text_of : List ℕ → List ℕ
text_of [] = []
text_of (cp ∷ cps) = encode_cp cp ++ text_of cps

pub record IsUtf8 (p : List ℕ) : Type 0 where
  pub cps : List ℕ
  pub scalars : All IsScalar cps
  pub spelt : text_of cps ≡ p

not_zero : (n : ℕ) → 0 < n → (n == 0) ≡ false
not_zero n h = ground arith

not_malformed : (cp : ℕ) → IsScalar cp → (cp == malformed) ≡ false
not_malformed cp h = ground (arith, h.0)

drop-front : (xs ys : List ℕ) → drop (length xs) (xs ++ ys) ≡ ys
drop-front [] ys = refl
drop-front (x ∷ xs) ys = drop-front xs ys

next-IsUtf8 :
    (p : List ℕ)
    → All IsByte p
    → 0 < length p
    → (bp_utf8_next p).cp ≢ malformed
    → IsUtf8 (drop (bp_utf8_next p).adv p)
    → IsUtf8 p
next-IsUtf8 p bytes more good r =
    let (scalar, _, same) = next-Accepts p bytes more good in
    record {
      cps = (bp_utf8_next p).cp ∷ r.cps;
      scalars = (scalar, r.scalars);
      spelt =
          ap (λ x. x ++ text_of r.cps) (sym same)
          ∙ ap (λ x. take (bp_utf8_next p).adv p ++ x) r.spelt
          ∙ take-append-drop (bp_utf8_next p).adv p;
    }

valid_loop-IsUtf8 :
    (fuel : ℕ) (p : List ℕ) → All IsByte p → length p ≤ fuel → valid_loop fuel p ≡ true → IsUtf8 p
unfolding valid_loop
valid_loop-IsUtf8 fuel [] bytes h e = record { cps = []; scalars = tt; spelt = refl }
valid_loop-IsUtf8 zero (b ∷ p) bytes h e = absurd (omega arith)
valid_loop-IsUtf8 (suc fuel) (b ∷ p) bytes h e =
    let s = bp_utf8_next (b ∷ p) in
    elim (Bool-cases (s.cp == malformed)) [
      | inl bad ↦ absurd (cc (rw (not_zero (length (b ∷ p)) (omega arith), bad) at e))
      | inr good ↦
          next-IsUtf8 (b ∷ p) bytes (omega arith)
            (λ k. absurd (cc (sym good ∙ (==_iff s.cp malformed).1 k)))
            (valid_loop-IsUtf8 fuel (drop s.adv (b ∷ p)) (All-drop IsByte s.adv (b ∷ p) bytes)
              (omega (arith, (adv_bounds (b ∷ p) (omega arith)).0, length-drop s.adv (b ∷ p)))
              (rw (not_zero (length (b ∷ p)) (omega arith), good) at e))
    ]

encoded_some : (cp : ℕ) (rest : List ℕ) → IsScalar cp → 0 < length (encode_cp cp ++ rest)
unfolding encode_cp
encoded_some cp rest h = ground (arith, length-append (encode_cp cp) rest)

text_of-valid : (fuel : ℕ) (cps : List ℕ) → All IsScalar cps → valid_loop fuel (text_of cps) ≡ true
unfolding valid_loop
text_of-valid zero cps h = refl
text_of-valid (suc fuel) [] h = refl
text_of-valid (suc fuel) (cp ∷ cps) (scalar, h) =
    let more = (encoded_some cp (text_of cps) scalar) in
    rw
      (
        not_zero (length (encode_cp cp ++ text_of cps)) more,
        next-encode_cp cp (text_of cps) scalar,
        not_malformed cp scalar,
        drop-front (encode_cp cp) (text_of cps),
      )
      (text_of-valid fuel cps h)

-- On a list of bytes, `utf8_valid` answers yes exactly where the list is the encodings of scalar
-- values, one behind the other.
pub utf8_valid-IsUtf8 : (p : List ℕ) → All IsByte p → (utf8_valid p ≡ true) ↔ IsUtf8 p
unfolding utf8_valid
utf8_valid-IsUtf8 p bytes = (
  valid_loop-IsUtf8 (length p) p bytes (omega arith),
  λ r.
      subst (λ q. valid_loop (length p) q ≡ true) r.spelt
        (text_of-valid (length p) r.cps r.scalars),
)
