-- ===== src/Bpe/Long/Merge.antt =====
-- src/bp_bpe.c `merge_long`: a round for the entry of a pair of the list.
use mathlib.Core.Option.{some_inj}
use bytepair.Base.{ℕ, suc, ◌+◌, ◌<◌, ◌≤◌, true}
use bytepair.Base.{some, length-Perm, ==→ne, ==_refl}
use bytepair.Base.{List, ◌∷◌, length, arith, ◌≡◌, refl, ap, sym, ◌∙◌}
use bytepair.Vocab.{BpVocab}
use bytepair.Bpe.{rank_bits, id_bits}
use bytepair.Bpe.Spec.{RanksProper, id_of, MergesAt, merged}
use bytepair.Bpe.Heap.{HeapEnt, heap_pop}
use bytepair.Bpe.Heap.Laws.{Popped, heap_pop-Sifted}
use bytepair.Bpe.Long.{Node, node, is_fresh, merge_nodes, push_neighbours}
use bytepair.Bpe.Long.Positions.{at, without}
use bytepair.Bpe.Long.Shrink.{Shrunk, merge_nodes-Shrunk}
use bytepair.Bpe.Long.Chain.{ids_of}
use bytepair.Bpe.Long.Cover.{val_of, DoesMerge, entry, push_neighbours-Grown}
use bytepair.Bpe.Long.Round.{LongInv, at-ids_of, top-MergesAt, merge-LongInv}

module _ (v : BpVocab) (n : ℕ) (ranks : RanksProper v) where
  module _ {nd : List Node} {top : HeapEnt} {hs : List HeapEnt} {ps : List ℕ}
      (inv : LongInv v n nd (top ∷ hs) ps) where
    abbrev pub IsOfPair : ℕ → Type 0
    IsOfPair a = entry v nd (at ps a) (at ps (suc a)) ≡ top

    pub next_of_pair :
        (a : ℕ) → suc a < length ps → IsOfPair a → (node nd top.pos).next ≡ some (at ps (suc a))
    next_of_pair a lt same = rw (← ap (λ x. x.pos) same) (inv.linked.next a lt)

    pub fresh_of_pair : (a : ℕ) → suc a < length ps → IsOfPair a → is_fresh nd top ≡ true
    unfolding is_fresh
    fresh_of_pair a lt same =
        rw (← same, inv.linked.next a lt, ==_refl (node nd (at ps a)).gen) refl

    pub val_of_pair :
        (a j : ℕ)
        → suc a < length ps
        → (node nd top.pos).next ≡ some j
        → IsOfPair a
        → val_of v nd top.pos j ≡ val_of v nd (at ps a) (at ps (suc a))
    val_of_pair a j lt e same =
        let here : at ps a ≡ top.pos = ap (λ x. x.pos) same in
        let there : j ≡ at ps (suc a) = some_inj.0 (sym e ∙ next_of_pair a lt same) in
        rw (there, here) refl

    pub popped : Popped (top ∷ hs) top (heap_pop (top ∷ hs))
    popped = heap_pop-Sifted (top ∷ hs) inv.ordered (omega arith)

    pub pop_size : length (heap_pop (top ∷ hs)) + 1 ≡ length (top ∷ hs)
    pop_size = omega (arith, length-Perm popped.same)

    -- A merge: the pair at index `k` of the list is the one the entry stands for.
    module _ (k : ℕ) (lt : suc k < length ps) (pos : at ps k ≡ top.pos)
        (joined : DoesMerge v nd (at ps k) (at ps (suc k)))
        (rank : rank_bits (val_of v nd (at ps k) (at ps (suc k))) ≡ top.rank) where
      abbrev pub new_id : ℕ
      new_id = id_bits (val_of v nd (at ps k) (at ps (suc k)))

      abbrev pub nd' : List Node
      nd' = merge_nodes nd (at ps k) (at ps (suc k)) new_id

      shrunk : Shrunk nd ps k new_id nd'
      shrunk = merge_nodes-Shrunk inv.linked k lt new_id

      pub ids_eq : merged v (ids_of nd ps) k ≡ ids_of nd' (without ps (suc k))
      unfolding id_of
      ids_eq = rw (at-ids_of nd ps k (omega arith), at-ids_of nd ps (suc k) lt) (sym shrunk.ids)

      pub next_inv :
          LongInv v n nd'
            (push_neighbours v nd' (at ps k) (heap_pop (top ∷ hs)))
            (without ps (suc k))
      next_inv = merge-LongInv inv popped lt (sym pos) shrunk.unlinked

      pub next_size :
          length (push_neighbours v nd' (at ps k) (heap_pop (top ∷ hs))) ≤ length (top ∷ hs) + 1
      next_size = omega (
        arith,
        (push_neighbours-Grown v nd' (at ps k) (heap_pop (top ∷ hs)) popped.heap).0.size,
        pop_size,
      )

      pub next_merges : MergesAt v (ids_of nd ps) k
      next_merges =
          let proper =
            ranks.proper (node nd (at ps k)).id (node nd (at ps (suc k))).id (==→ne _ _ joined) in
          top-MergesAt inv popped k lt joined proper (sym rank) (sym pos)
