-- ===== src/Bpe/Long/Cover.antt =====
-- src/bp_bpe.c `merge_long`: the heap holds an entry for each pair of the list that merges.
use mathlib.Core.List.{Mem, mem-cons_self, mem-cons_of_mem}
use mathlib.Core.List.Perm
use mathlib.Core.Option.{some_inj}
use mathlib.Core.Path.{subst}
use bytepair.Base.{ℕ, ◌+◌, ◌≤◌, ◌==◌, false, Bool-cases}
use bytepair.Base.{Option, none, some, length-Perm}
use bytepair.Base.{List, length, arith, ◌≡◌, refl, inl, inr}
use bytepair.Vocab.{BpVocab, pair_empty}
use bytepair.Vocab.Pairs.{bp_pair_lookup}
use bytepair.Bpe.{rank_bits}
use bytepair.Bpe.Heap.{HeapEnt, heap_push}
use bytepair.Bpe.Heap.Order.{IsHeap}
use bytepair.Bpe.Heap.Laws.{heap_push-Sifted}
use bytepair.Bpe.Long.{Node, node, push_pair, push_neighbours}

abbrev pub val_of : BpVocab → List Node → ℕ → ℕ → ℕ
val_of v nd l r = bp_pair_lookup v (node nd l).id (node nd r).id

abbrev pub DoesMerge : BpVocab → List Node → ℕ → ℕ → Type 0
DoesMerge v nd l r = (val_of v nd l r == pair_empty) ≡ false

abbrev pub entry : BpVocab → List Node → ℕ → ℕ → HeapEnt
entry v nd l r = record { rank = rank_bits (val_of v nd l r); pos = l; gen = (node nd l).gen }

abbrev pub IsCovered : BpVocab → List Node → List HeapEnt → ℕ → ℕ → Type 0
IsCovered v nd heap l r = DoesMerge v nd l r → Mem (entry v nd l r) heap

-- `more` is a heap with the entries of `heap` and at most `n` others.
pub record Grown (heap : List HeapEnt) (n : ℕ) (more : List HeapEnt) : Type 0 where
  pub ordered : IsHeap more
  pub size : length more ≤ length heap + n
  pub kept : (x : HeapEnt) → Mem x heap → Mem x more

Grown-refl : {heap : List HeapEnt} → IsHeap heap → (n : ℕ) → Grown heap n heap
Grown-refl ord n = record { ordered = ord; size = omega arith; kept = λ x m. m }

Grown-trans :
    {a b c : List HeapEnt} {m n k : ℕ} → Grown a m b → Grown b n c → m + n ≤ k → Grown a k c
Grown-trans g h le = record {
  ordered = h.ordered;
  size = omega (arith, g.size, h.size);
  kept = λ x i. h.kept x (g.kept x i);
}

heap_push-Grown :
    (heap : List HeapEnt) (e : HeapEnt)
    → IsHeap heap
    → Grown heap 1 (heap_push heap e) × Mem e (heap_push heap e)
heap_push-Grown heap e ord =
    let (ordered, same) = heap_push-Sifted heap e ord in
    (
      record {
        ordered = ordered;
        size = omega (arith, length-Perm same);
        kept = λ x m. (Perm.mem_iff same).1 (mem-cons_of_mem e m);
      },
      (Perm.mem_iff same).1 mem-cons_self,
    )

module _ (v : BpVocab) (nd : List Node) where
  pub push_pair-Grown :
      (l r : ℕ) (heap : List HeapEnt)
      → IsHeap heap
      → Grown heap 1 (push_pair v nd l r heap) × IsCovered v nd (push_pair v nd l r heap) l r
  unfolding push_pair
  push_pair-Grown l r heap ord = elim (Bool-cases (val_of v nd l r == pair_empty)) [
    | inl apart ↦ rw apart ((Grown-refl ord 1, λ f. absurd (cc f)))
    | inr joined ↦
        let (grown, in_heap) = heap_push-Grown heap (entry v nd l r) ord in
        rw joined ((grown, λ f. in_heap))
  ]

  -- The push with the neighbour that there may be.
  abbrev push_left : ℕ → Option ℕ → List HeapEnt → List HeapEnt
  push_left i none heap = heap
  push_left i (some l) heap = push_pair v nd l i heap

  abbrev push_right : ℕ → Option ℕ → List HeapEnt → List HeapEnt
  push_right i none heap = heap
  push_right i (some r) heap = push_pair v nd i r heap

  push_left-Grown :
      (i : ℕ) (o : Option ℕ) (heap : List HeapEnt)
      → IsHeap heap
      → Grown heap 1 (push_left i o heap)
        × ((l : ℕ) → o ≡ some l → IsCovered v nd (push_left i o heap) l i)
  push_left-Grown i none heap ord = (Grown-refl ord 1, λ l e. absurd (cc e))
  push_left-Grown i (some k) heap ord =
      let (g, c) = push_pair-Grown k i heap ord in
      (g, λ l e. subst (λ m. IsCovered v nd (push_pair v nd k i heap) m i) (some_inj.0 e) c)

  push_right-Grown :
      (i : ℕ) (o : Option ℕ) (heap : List HeapEnt)
      → IsHeap heap
      → Grown heap 1 (push_right i o heap)
        × ((r : ℕ) → o ≡ some r → IsCovered v nd (push_right i o heap) i r)
  push_right-Grown i none heap ord = (Grown-refl ord 1, λ r e. absurd (cc e))
  push_right-Grown i (some k) heap ord =
      let (g, c) = push_pair-Grown i k heap ord in
      (g, λ r e. subst (λ m. IsCovered v nd (push_pair v nd i k heap) i m) (some_inj.0 e) c)

  push_neighbours_eq :
      (i : ℕ) (heap : List HeapEnt)
      → push_neighbours v nd i heap
        ≡ push_right i (node nd i).next (push_left i (node nd i).prev heap)
  unfolding push_neighbours
  push_neighbours_eq i heap = split (node nd i).prev (node nd i).next
    where
      split :
          (o p : Option ℕ)
          → (elim p as (λ _. List HeapEnt) [
            | none ↦ (elim o as (λ _. List HeapEnt) [
              | none ↦ heap
              | some l ↦ push_pair v nd l i heap
            ])
            | some r ↦
                push_pair v nd i r
                  (elim o as (λ _. List HeapEnt) [ none ↦ heap | some l ↦ push_pair v nd l i heap ])
          ])
            ≡ push_right i p (push_left i o heap)
      split none none = refl
      split none (some r) = refl
      split (some l) none = refl
      split (some l) (some r) = refl

  -- Both pushes behind a merge at `i`.
  pub push_neighbours-Grown :
      (i : ℕ) (heap : List HeapEnt)
      → IsHeap heap
      → Grown heap 2 (push_neighbours v nd i heap)
        × ((l : ℕ) → (node nd i).prev ≡ some l → IsCovered v nd (push_neighbours v nd i heap) l i)
        × ((r : ℕ) → (node nd i).next ≡ some r → IsCovered v nd (push_neighbours v nd i heap) i r)
  push_neighbours-Grown i heap ord =
      let (g, c) = push_left-Grown i (node nd i).prev heap ord in
      let (h, d) =
        push_right-Grown i (node nd i).next (push_left i (node nd i).prev heap) g.ordered in
      rw (push_neighbours_eq i heap)
        ((Grown-trans g h (omega arith), λ l e f. h.kept (entry v nd l i) (c l e f), d))
