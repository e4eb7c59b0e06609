-- ===== src/Bpe/Long/Seed.antt =====
-- src/bp_bpe.c `merge_long`: the heap that the loop starts with.
use mathlib.Core.Path.{subst}
use native.Mathlib.Decide.{ℕ_discrete}
use bytepair.Base.{ℕ, zero, suc, ◌+◌, ◌-◌, ◌<◌, ◌≤◌}
use bytepair.Base.{List, [], length, arith, sym}
use bytepair.Vocab.{BpVocab}
use bytepair.Bpe.Heap.{HeapEnt}
use bytepair.Bpe.Heap.Order.{IsHeap}
use bytepair.Bpe.Long.{Node, push_pair, seed_heap}
use bytepair.Bpe.Long.Cover.{IsCovered, entry, push_pair-Grown}
use bytepair.Bpe.Long.Round.{LongInv}
use bytepair.Base.{◌^◌}
use bytepair.Bpe.Long.Start.{start_nodes, start_range, length-range, position, start-Linked}

-- The heap after the first `i` pairs.
record Seeded (v : BpVocab) (nd : List Node) (i : ℕ) (heap : List HeapEnt) : Type 0 where
  ordered : IsHeap heap
  size : length heap ≤ i
  covered : (a : ℕ) → a < i → IsCovered v nd heap a (suc a)

seed_heap-Seeded :
    (v : BpVocab) (nd : List Node) (left i : ℕ) (heap : List HeapEnt)
    → Seeded v nd i heap
    → Seeded v nd (i + left) (seed_heap v nd left i heap)
unfolding seed_heap
seed_heap-Seeded v nd zero i heap s = subst (λ k. Seeded v nd k heap) {x = i} (omega arith) s
seed_heap-Seeded v nd (suc left) i heap s =
    let more = push_pair v nd i (i + 1) heap in
    let (g, c) = push_pair-Grown v nd i (i + 1) heap s.ordered in
    let c' : IsCovered v nd more i (suc i) =
      subst (λ k. IsCovered v nd more i k) {x = i + 1} (omega arith) c in
    subst (λ k. Seeded v nd k (seed_heap v nd left (suc i) more)) {x = suc i + left} (omega arith)
      (seed_heap-Seeded v nd left (suc i) more (record {
        ordered = g.ordered;
        size = omega (arith, g.size, s.size);
        covered = λ a lt. elim (ℕ_discrete a i) [
          | yes e ↦ subst (λ k. IsCovered v nd more k (suc k)) (sym e) c'
          | no ne ↦ λ joined. g.kept (entry v nd a (suc a)) (s.covered a (omega arith) joined)
        ];
      }))

-- The invariant of the loop holds at the start.
pub start-LongInv :
    (v : BpVocab) (p : List ℕ)
    → length p < 2 ^ 31
    → 0 < length p
    → LongInv v
        (length p)
        (start_nodes v p)
        (seed_heap v (start_nodes v p) (length p - 1) 0 [])
        (start_range v p)
start-LongInv v p small pos =
    let size = length-range 0 (length p) in
    let s = seed_heap-Seeded v (start_nodes v p) (length p - 1) 0 [] (record {
      ordered = λ c q r. absurd (omega arith);
      size = omega arith;
      covered = λ a lt. absurd (omega arith);
    }) in
    record {
      linked = start-Linked v p small pos;
      ordered = s.ordered;
      covered = λ a inn.
          rw
            (
              position v p small a (omega (arith, size)),
              position v p small (suc a) (omega (arith, size)),
            )
            (s.covered a (omega (arith, size)));
      room = omega (arith, size, s.size);
      fits = omega (arith, size);
    }
