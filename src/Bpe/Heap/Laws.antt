-- ===== src/Bpe/Heap/Laws.antt =====
-- src/bp_bpe.c `heap_push`, `heap_pop`: the array as a priority queue.
use mathlib.Core.Bool.{Bool-set}
use mathlib.Core.List.{Perm, Mem, perm_append_singleton}
use mathlib.Core.List.Perm
use native.Mathlib.Decide.{dec_lt}
use bytepair.Base.{ℕ, zero, suc, ◌-◌, ◌<◌, ◌==◌, List, [], ◌∷◌, ◌++◌, length, set, take}
use bytepair.Base.{
  arith, ◌≡◌, refl, ap, if◌then◌else◌, length-append, length-set, length-take, get_or-take,
}
use bytepair.Base.{get_or-append_left, get_or-set, last-Perm, set-Perm, each_of_mem}
use bytepair.Bpe.Heap.{HeapEnt, no_ent, ent, heap_push, heap_pop, sift_down}
use bytepair.Bpe.Heap.Order.{IsAtMost, IsHeap, Sifted, parent, root_least}
use bytepair.Bpe.Heap.Up.{UpInv, sift_up-Sifted}
use bytepair.Bpe.Heap.Down.{DownInv, sift_down-Sifted}

-- A pop takes one entry, none goes before it, and what it leaves is a heap.
pub record Popped (h : List HeapEnt) (top : HeapEnt) (rest : List HeapEnt) : Type 0 where
  pub heap : IsHeap rest
  pub same : Perm (top ∷ rest) h
  pub least : (x : HeapEnt) → Mem x h → IsAtMost top x

append-UpInv : (h : List HeapEnt) (e : HeapEnt) → IsHeap h → UpInv (h ++ (e ∷ [])) (length h)
append-UpInv h e ord =
    let size = length-append h (e ∷ []) in
    let at : (c : ℕ) → c < length h → ent (h ++ (e ∷ [])) c ≡ ent h c =
      λ c. get_or-append_left h (e ∷ []) c no_ent in
    record {
      inside = omega arith;
      edges = λ c p q ne. ground (arith, ord c, at c, at (parent c));
      bridged = λ c p q r s. absurd (omega arith);
    }

-- `heap_push` makes a heap of the entries of a heap and the new one.
pub heap_push-Sifted :
    (h : List HeapEnt) (e : HeapEnt)
    → IsHeap h
    → IsHeap (heap_push h e) × Perm (heap_push h e) (e ∷ h)
unfolding heap_push
heap_push-Sifted h e ord =
    let (heap, same) =
      sift_up-Sifted (length h) (h ++ (e ∷ [])) (length h) (omega arith) (append-UpInv h e ord) in
    (heap, Perm.trans same (perm_append_singleton e h))

sift_down_none : (n : ℕ) (h : List HeapEnt) → n ≡ 0 → sift_down n h 0 ≡ h
unfolding sift_down
sift_down_none zero h e = refl
sift_down_none (suc n) h e = absurd (omega arith)

module _ (h : List HeapEnt) (n : ℕ) (size : length h ≡ suc n) where
  -- The last entry, written over the root.
  abbrev g : List HeapEnt
  g = set h 0 (ent h n)

  -- What `heap_pop` hands to the loop.
  abbrev cut : List HeapEnt
  cut = take n g

  cut-Perm : Perm (ent h 0 ∷ cut) h
  cut-Perm =
      let kept : ent g n ≡ ent h n = ground (arith, get_or-set h 0 n (ent h n) no_ent) in
      let size' = length-set h 0 (ent h n) in
      let whole = rw kept at (last-Perm n g no_ent (omega arith)) in
      let traded = set-Perm h 0 (ent h n) no_ent (omega arith) in
      Perm.cons_inv (
        Perm.trans (Perm.swap (ent h 0) (ent h n) cut)
          (Perm.trans (Perm.cons (ent h 0) whole) traded))

  cut-size : length cut ≡ n
  cut-size = omega (arith, length-take n g, length-set h 0 (ent h n))

  cut-DownInv : 0 < n → IsHeap h → DownInv cut 0
  cut-DownInv pos ord =
      let at : (c : ℕ) → ent g c ≡ (if 0 == c then ent h n else ent h c) =
        λ c. get_or-set h 0 c (ent h n) no_ent (omega arith) in
      let kept : (c : ℕ) → c < n → ent cut c ≡ ent g c = λ c. get_or-take n g c no_ent in
      record {
        inside = omega (arith, cut-size);
        edges = λ c p q ne.
            ground (arith, cut-size, ord c, at c, at (parent c), kept c, kept (parent c));
        bridged = λ c p q r s. absurd (omega arith);
      }

  sunk-Sifted : IsHeap h → Sifted cut (sift_down n cut 0)
  sunk-Sifted ord = elim (dec_lt 0 n) [
    | yes pos ↦ sift_down-Sifted n cut 0 (omega (arith, cut-size)) (cut-DownInv pos ord)
    | no none_left ↦
        rw (sift_down_none n cut (omega arith))
          ((λ c p q. absurd (omega (arith, cut-size)), Perm.rfl))
  ]

  heap_pop_eq : heap_pop h ≡ sift_down n cut 0
  unfolding heap_pop
  heap_pop_eq =
      ap (λ k. sift_down k (take k (set h 0 (ent h k))) 0) {x = length h - 1} (omega arith)

-- From a heap that is not empty, `heap_pop` takes the entry at the root: the entries left are the
-- others, they are a heap again, and none of them goes before the one taken.
pub heap_pop-Sifted : (h : List HeapEnt) → IsHeap h → 0 < length h → Popped h (ent h 0) (heap_pop h)
heap_pop-Sifted h ord pos =
    let n = length h - 1 in
    let size : length h ≡ suc n = omega arith in
    let (heap, same) = sunk-Sifted h n size ord in
    rw (heap_pop_eq h n size) (record {
      heap = heap;
      same = Perm.trans (Perm.cons (ent h 0) same) (cut-Perm h n size);
      least =
          each_of_mem (λ x. IsAtMost (ent h 0) x) (λ x. Bool-set _ _) h no_ent
            (λ i. root_least h i ord);
    })
