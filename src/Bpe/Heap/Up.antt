-- ===== src/Bpe/Heap/Up.antt =====
-- src/bp_bpe.c `heap_push`: the loop that lifts the new entry.
use mathlib.Core.Logic.{◌≢◌}
use mathlib.Core.List.Perm
use bytepair.Base.{ℕ, zero, suc, ◌<◌, ◌==◌, true, Bool-cases}
use bytepair.Base.{List, length, arith, ◌≡◌, inl, inr}
use bytepair.Bpe.Heap.{HeapEnt, ent, heap_less, swap, sift_up}
use bytepair.Bpe.Heap.Order.{
  IsAtMost, IsBridged, Sifted, parent, IsAtMost-trans, IsAtMost-of_less, length-swap, ent-swap,
  swap-Perm,
}

-- Only the edge above `i` may be out of order.
pub record UpInv (h : List HeapEnt) (i : ℕ) : Type 0 where
  pub inside : i < length h
  pub edges : (c : ℕ) → 0 < c → c < length h → c ≢ i → IsAtMost (ent h (parent c)) (ent h c)
  pub bridged : IsBridged h i

module _ (h : List HeapEnt) (i : ℕ) (inv : UpInv h i) (pos : 0 < i)
    (less : heap_less (ent h i) (ent h (parent i)) ≡ true) where
  above : parent i < length h
  above = omega (arith, inv.inside)

  swap-UpInv : UpInv (swap h i (parent i)) (parent i)
  swap-UpInv =
      let at = ent-swap h i (parent i) inv.inside above in
      let size = length-swap h i (parent i) in
      let fall = IsAtMost-of_less (ent h i) (ent h (parent i)) less in
      record {
        inside = rw size above;
        edges = λ c p q ne. ground (
          arith,
          at c,
          at (parent c),
          inv.edges c,
          inv.bridged c,
          IsAtMost-trans (ent h i) (ent h (parent i)) (ent h c),
        );
        bridged = λ c p q r s. ground (
          arith,
          at c,
          at (parent (parent i)),
          inv.edges c,
          inv.edges (parent i),
          IsAtMost-trans (ent h (parent (parent i))) (ent h (parent i)) (ent h c),
        );
      }

pub sift_up-Sifted :
    (fuel : ℕ) (h : List HeapEnt) (i : ℕ) → i < suc fuel → UpInv h i → Sifted h (sift_up fuel h i)
unfolding sift_up
sift_up-Sifted zero h i f inv = (λ c p q. inv.edges c p q (omega arith), Perm.rfl)
sift_up-Sifted (suc fuel) h i f inv = elim (Bool-cases (i == 0)) [
  | inl root ↦ rw root ((λ c p q. inv.edges c p q (ground arith), Perm.rfl))
  | inr below ↦ elim (Bool-cases (heap_less (ent h i) (ent h (parent i)))) [
    | inr settled ↦ rw (below, settled) ((λ c p q. ground (arith, inv.edges c), Perm.rfl))
    | inl less ↦
        let pos : 0 < i = ground arith in
        let up =
          sift_up-Sifted fuel (swap h i (parent i)) (parent i) (omega arith)
            (swap-UpInv h i inv pos less) in
        rw (below, less)
          ((up.0, Perm.trans up.1 (swap-Perm h i (parent i) inv.inside (above h i inv pos less))))
  ]
]
