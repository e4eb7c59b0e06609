-- ===== src/Cli/Documents.antt =====
-- cli/main.c `cmd_bench`: the split of the input into documents.
use bytepair.Base.{ℕ, ◌+◌, ◌-◌, ◌*◌, ◌/◌, ◌<◌, ◌≤◌, ltb, leb, ◌==◌, if◌then◌else◌}
use bytepair.Base.{
  ◌&&◌, List, [], ◌∷◌, length, get_or, drop, Bool-cases, both, leb→le, ltb→lt, ltb→le,
}
use mathlib.Core.Path.{subst}
use bytepair.Base.{arith, ◌≡◌, refl, inl, inr}

-- The entries of `off` from 1 on, for the bytes from `i` on.
unfoldable pub document_loop : List ℕ → ℕ → ℕ → List ℕ
document_loop [] i last = if ltb last i then i ∷ [] else []
document_loop (b ∷ t) i last =
    let cut = (i + 1) ∷ document_loop t (i + 1) (i + 1) in
    let on = document_loop t (i + 1) last in if b == 10 && leb 8192 (i - last) then cut else on

unfoldable pub document_offsets : List ℕ → List ℕ
document_offsets t = 0 ∷ document_loop t 0 0

-- The size of `off`
unfoldable pub offsets_cap : ℕ → ℕ
offsets_cap len = len / 4096 + 2

-- From `a` to `b`, every step forward.
abbrev pub Rises : ℕ → List ℕ → ℕ → Type 0
Rises a [] b = a ≡ b
Rises a (x ∷ xs) b = (a < x) × Rises x xs b

document_loop-Rises :
    (t : List ℕ) (i last : ℕ) → last ≤ i → Rises last (document_loop t i last) (i + length t)
unfolding document_loop
document_loop-Rises [] i last h = elim (Bool-cases (ltb last i)) [
  | inl e ↦ rw e (ltb→lt _ _ e, omega arith)
  | inr e ↦ rw e (omega (arith, ltb→le _ _ e))
]
document_loop-Rises (b ∷ t) i last h = elim (Bool-cases (b == 10 && leb 8192 (i - last))) [
  | inl e ↦ rw e (
    omega arith,
    subst (Rises (i + 1) (document_loop t (i + 1) (i + 1))) (omega arith)
        (document_loop-Rises t (i + 1) (i + 1) (omega arith)),
  )
  | inr e ↦ rw e (
      subst (Rises last (document_loop t (i + 1) last)) (omega arith)
        (document_loop-Rises t (i + 1) last (omega arith)))
]

length-document_loop :
    (t : List ℕ) (i last : ℕ)
    → last ≤ i
    → length (document_loop t i last) * 8193 ≤ (i - last) + length t + 8192
unfolding document_loop
length-document_loop [] i last h = elim (Bool-cases (ltb last i)) [
  | inl e ↦ rw e (omega (arith, ltb→lt _ _ e))
  | inr e ↦ rw e (omega arith)
]
length-document_loop (b ∷ t) i last h = elim (Bool-cases (b == 10 && leb 8192 (i - last))) [
  | inl e ↦ rw e (
      omega (
        arith,
        leb→le 8192 (i - last) (both (b == 10) (leb 8192 (i - last)) e).1,
        length-document_loop t (i + 1) (i + 1) (omega arith),
      ))
  | inr e ↦ rw e (omega (arith, length-document_loop t (i + 1) last (omega arith)))
]

-- For any input, the offsets of the bench's documents start at 0 and rise strictly to the length
-- of the input, and there are no more of them than the array has entries.
pub document_offsets_fit :
    (t : List ℕ)
    → (get_or (document_offsets t) 0 1 ≡ 0)
      × Rises 0 (drop 1 (document_offsets t)) (length t)
      × (length (document_offsets t) ≤ offsets_cap (length t))
unfolding document_offsets offsets_cap
document_offsets_fit t = (
  refl,
  subst (Rises 0 (document_loop t 0 0)) (omega arith) (document_loop-Rises t 0 0 (omega arith)),
  omega (arith, length-document_loop t 0 0 (omega arith)),
)
