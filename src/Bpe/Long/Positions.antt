-- ===== src/Bpe/Long/Positions.antt =====
-- Lists of positions: the element at an index, and the list without it.
use mathlib.Core.Logic.{◌≢◌}
use bytepair.Base.{ℕ, zero, suc, ◌+◌, ◌<◌, ltb, if◌then◌else◌}
use bytepair.Base.{
  List, [], ◌∷◌, ◌++◌, map, length, get_or, take, drop, arith, ◌≡◌, refl, ap, ◌∙◌, sym,
}
use bytepair.Bpe.{merge_at}

abbrev pub at : List ℕ → ℕ → ℕ
at ps a = get_or ps a 0

-- The list without the element at an index.
abbrev pub without : List ℕ → ℕ → List ℕ
without [] k = []
without (x ∷ xs) zero = xs
without (x ∷ xs) (suc k) = x ∷ without xs k

pub length-without : (xs : List ℕ) (k : ℕ) → k < length xs → length (without xs k) + 1 ≡ length xs
length-without [] k h = absurd (omega arith)
length-without (x ∷ xs) zero h = omega arith
length-without (x ∷ xs) (suc k) h = omega (arith, length-without xs k)

pub at-without :
    (xs : List ℕ) (k a : ℕ) → at (without xs k) a ≡ (if ltb a k then at xs a else at xs (suc a))
at-without [] k a = ground arith
at-without (x ∷ xs) zero a = ground arith
at-without (x ∷ xs) (suc k) zero = ground arith
at-without (x ∷ xs) (suc k) (suc a) = ground (arith, at-without xs k a)

merge_at-cons :
    (x : ℕ) (xs : List ℕ) (k id : ℕ) → merge_at (x ∷ xs) (suc k) id ≡ x ∷ merge_at xs k id
unfolding merge_at
merge_at-cons x xs k id =
    ap (λ n. x ∷ (take k xs ++ (id ∷ drop n (x ∷ xs)))) {x = suc k + 2} {y = suc (k + 2)}
      (omega arith)

-- The ids after a merge.
pub merge_at-ids :
    (f g : ℕ → ℕ) (ps : List ℕ) (k : ℕ)
    → suc k < length ps
    → ((a : ℕ) → a < length ps → a ≢ k → g (at ps a) ≡ f (at ps a))
    → map g (without ps (suc k)) ≡ merge_at (map f ps) k (g (at ps k))
unfolding merge_at
merge_at-ids f g [] k h same = absurd (omega arith)
merge_at-ids f g (p ∷ []) k h same = absurd (omega arith)
merge_at-ids f g (p ∷ q ∷ ps) zero h same =
    ap (λ r. g p ∷ r) (map_same ps (λ a lt. same (suc (suc a)) (omega arith) (omega arith)))
  where
    map_same :
        (xs : List ℕ) → ((a : ℕ) → a < length xs → g (at xs a) ≡ f (at xs a)) → map g xs ≡ map f xs
    map_same [] eq = refl
    map_same (x ∷ xs) eq = cc (eq 0 (omega arith), map_same xs (λ a lt. eq (suc a) (omega arith)))
merge_at-ids f g (p ∷ q ∷ ps) (suc k) h same =
    ap (λ x. x ∷ map g (without (q ∷ ps) (suc k))) (same 0 (omega arith) (omega arith))
    ∙ ap (λ r. f p ∷ r)
        (merge_at-ids f g (q ∷ ps) k (omega arith)
          λ a lt ne. same (suc a) (omega arith) (omega arith))
    ∙ sym (merge_at-cons (f p) (map f (q ∷ ps)) k (g (at (q ∷ ps) k)))
