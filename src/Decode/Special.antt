-- ===== src/Decode/Special.antt =====
-- src/bp_encode.c `bp_decode`: which tokens are special, from the list of the added records.
pub mod Search
use mathlib.Core.Logic.{◌≢◌}
use bytepair.Base.{ℕ, zero, suc, ◌+◌, ◌/◌, ◌<◌, ◌≤◌, ltb, ◌==◌, ==_iff, ==→ne, ne→==}
use mathlib.Core.Path.{subst}
use bytepair.Base.{Bool, true, false, ◌&&◌, ◌||◌, Bool-cases, List, [], ◌∷◌, length, get_or, All}
use bytepair.Base.{
  All-get_or, lt→ltb, ltb→lt, ltb→le, arith, ◌≡◌, refl, ap, sym, ◌∙◌, ◌⊎◌, inl, inr,
}
use bytepair.Vocab.{BpVocab, BpvAdded, no_added}
use bytepair.Encode.{is_set, bp_skip_special}
use bytepair.Decode.{is_special, is_skipped}

-- One of the records has this id, and the bit that says special.
abbrev pub special : List BpvAdded → ℕ → Bool
special [] id = false
special (a ∷ added) id = (a.id == id && is_set a.flags 1) || special added id

-- Every record has a smaller id than those behind it.
abbrev pub Ascends : List BpvAdded → Type 0
Ascends [] = Unit
Ascends (a ∷ added) = All (λ b. a.id < b.id) added × Ascends added

abbrev pub at : List BpvAdded → ℕ → BpvAdded
at added k = get_or added k no_added

pub Ascends-at :
    (added : List BpvAdded) (i j : ℕ)
    → Ascends added
    → i < j
    → j < length added
    → (at added i).id < (at added j).id
Ascends-at [] i j up lt inside = absurd (omega arith)
Ascends-at (a ∷ added) zero zero up lt inside = absurd (omega arith)
Ascends-at (a ∷ added) zero (suc j) (first, up) lt inside =
    All-get_or (λ b. a.id < b.id) added j no_added first (omega arith)
Ascends-at (a ∷ added) (suc i) zero up lt inside = absurd (omega arith)
Ascends-at (a ∷ added) (suc i) (suc j) (first, up) lt inside =
    Ascends-at added i j up (omega arith) (omega arith)

special-above :
    (added : List BpvAdded) (id : ℕ) → All (λ b. id < b.id) added → special added id ≡ false
special-above [] id above = refl
special-above (a ∷ added) id (one, above) =
    let other : (a.id == id) ≡ false = ground arith in rw other (special-above added id above)

pub special_found :
    (added : List BpvAdded) (id k : ℕ)
    → Ascends added
    → k < length added
    → (at added k).id ≡ id
    → special added id ≡ is_set (at added k).flags 1
special_found [] id k up inside e = absurd (omega arith)
special_found (a ∷ added) id zero (first, up) inside e =
    rw
      (
        (==_iff a.id id).1 e,
        special-above added id (subst (λ i. All (λ b. i < b.id) added) e first),
      )
      (or_false (is_set a.flags 1))
  where
    or_false : (b : Bool) → (b || false) ≡ b
    or_false true = refl
    or_false false = refl
special_found (a ∷ added) id (suc k) (first, up) inside e =
    let here = All-get_or (λ b. a.id < b.id) added k no_added first (omega arith) in
    let other : (a.id == id) ≡ false = ground (arith, here, e) in
    rw other (special_found added id k up (omega arith) e)

pub special_missed :
    (added : List BpvAdded) (id : ℕ)
    → ((k : ℕ) → k < length added → (at added k).id ≢ id)
    → special added id ≡ false
special_missed [] id gone = refl
special_missed (a ∷ added) id gone =
    rw (ne→== a.id id (gone 0 (omega arith)))
      (special_missed added id (λ k inside. gone (suc k) (omega arith)))

nowhere-cons :
    (a : BpvAdded) (added : List BpvAdded) (id : ℕ)
    → a.id ≢ id
    → ((k : ℕ) → k < length added → (at added k).id ≢ id)
    → (k : ℕ) → k < length (a ∷ added)
    → (at (a ∷ added) k).id ≢ id
nowhere-cons a added id ne gone zero inside = ne
nowhere-cons a added id ne gone (suc k) inside = gone k (omega arith)

-- The place of an id, or that it has none.
pub place_of :
    (added : List BpvAdded) (id : ℕ)
    → ((k : ℕ) × (k < length added) × ((at added k).id ≡ id))
      ⊎ ((k : ℕ) → k < length added → (at added k).id ≢ id)
place_of [] id = inr (λ k inside e. absurd (omega arith))
place_of (a ∷ added) id = elim (Bool-cases (a.id == id)) [
  | inl e ↦ inl (0, omega arith, (==_iff _ _).0 e)
  | inr ne ↦ elim (place_of added id) [
    | inl (k, inside, e) ↦ inl (suc k, omega arith, e)
    | inr gone ↦ inr (nowhere-cons a added id (==→ne _ _ ne) gone)
  ]
]

pub at_mono :
    (added : List BpvAdded) (i j : ℕ)
    → Ascends added
    → i ≤ j
    → j < length added
    → (at added i).id ≤ (at added j).id
at_mono added i j up le inside = elim (Bool-cases (ltb i j)) [
  | inl lt ↦ omega (arith, Ascends-at added i j up (ltb→lt _ _ lt) inside)
  | inr ge ↦ omega (arith, ap (λ k. (at added k).id) {x = i} {y = j} (omega (arith, ltb→le _ _ ge)))
]
