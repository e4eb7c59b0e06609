-- ===== src/Bpe/Heap/Order.antt =====
-- The order that src/bp_bpe.c `heap_less` gives the entries, and the heap order of the array.
use mathlib.Core.List.{Perm}
use mathlib.Core.List.Perm
use bytepair.Base.{ℕ, zero, suc, ◌-◌, ◌/◌, ◌<◌, ◌==◌, if◌then◌else◌, true, false}
use bytepair.Base.{List, length, set, arith, ◌≡◌}
use bytepair.Base.{length-set, get_or-set, set-Perm}
use bytepair.Bpe.Heap.{HeapEnt, no_ent, heap_less, ent, swap}

-- `b` does not go before `a`.
abbrev pub IsAtMost : HeapEnt → HeapEnt → Type 0
IsAtMost a b = heap_less b a ≡ false

abbrev pub parent : ℕ → ℕ
parent c = (c - 1) / 2

pub IsAtMost-trans : (a b c : HeapEnt) → IsAtMost a b → IsAtMost b c → IsAtMost a c
unfolding heap_less
IsAtMost-trans a b c p q = ground arith

pub IsAtMost-of_less : (a b : HeapEnt) → heap_less a b ≡ true → IsAtMost a b
unfolding heap_less
IsAtMost-of_less a b p = ground arith

pub IsAtMost-refl : (a : HeapEnt) → IsAtMost a a
unfolding heap_less
IsAtMost-refl a = ground arith

-- Every edge of the tree is in order.
abbrev pub IsHeap : List HeapEnt → Type 0
IsHeap h = (c : ℕ) → 0 < c → c < length h → IsAtMost (ent h (parent c)) (ent h c)

-- The edges past `i`, from its parent to its children, are in order.
abbrev pub IsBridged : List HeapEnt → ℕ → Type 0
IsBridged h i =
    (c : ℕ) → 0 < c → c < length h → parent c ≡ i → 0 < i → IsAtMost (ent h (parent i)) (ent h c)

-- A heap of the entries of `h`.
abbrev pub Sifted : List HeapEnt → List HeapEnt → Type 0
Sifted h g = IsHeap g × Perm g h

pub length-swap : (h : List HeapEnt) (i j : ℕ) → length (swap h i j) ≡ length h
unfolding swap
length-swap h i j = simp length-set

module _ (h : List HeapEnt) (i j : ℕ) (hi : i < length h) (hj : j < length h) where
  pub ent-swap :
      (c : ℕ)
      → ent (swap h i j) c ≡ (if j == c then ent h i else if i == c then ent h j else ent h c)
  unfolding swap
  ent-swap c = rw (
    get_or-set (set h i (ent h j)) j c (ent h i) no_ent (rw length-set hj),
    get_or-set h i c (ent h j) no_ent hi,
  )

  pub swap-Perm : Perm (swap h i j) h
  unfolding swap
  swap-Perm =
      let g = set h i (ent h j) in
      let kept : ent g j ≡ ent h j = ground (arith, get_or-set h i j (ent h j) no_ent) in
      let second = rw kept at (set-Perm g j (ent h i) no_ent (rw length-set hj)) in
      Perm.cons_inv (Perm.trans second (set-Perm h i (ent h j) no_ent hi))

root_least_below :
    (k : ℕ) (h : List HeapEnt) (i : ℕ)
    → IsHeap h
    → i < k
    → i < length h
    → IsAtMost (ent h 0) (ent h i)
root_least_below zero h i ord f p = absurd (omega arith)
root_least_below (suc k) h zero ord f p = IsAtMost-refl (ent h 0)
root_least_below (suc k) h (suc i) ord f p =
    IsAtMost-trans (ent h 0) (ent h (parent (suc i))) (ent h (suc i))
      (root_least_below k h (parent (suc i)) ord (omega arith) (omega arith))
      (ord (suc i) (omega arith) p)

pub root_least : (h : List HeapEnt) (i : ℕ) → IsHeap h → i < length h → IsAtMost (ent h 0) (ent h i)
root_least h i ord p = root_least_below (suc i) h i ord (omega arith) p
