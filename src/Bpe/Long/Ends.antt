-- ===== src/Bpe/Long/Ends.antt =====
-- src/bp_bpe.c `merge_long`: the rounds of `while (hn)` together.
use mathlib.Core.Logic.{◌≢◌}
use mathlib.Core.Option.{some_inj}
use bytepair.Base.{ℕ, zero, suc, ◌+◌, ◌*◌, ◌<◌, ◌≤◌, ◌==◌, true, false}
use bytepair.Base.{Bool-cases, some, Option-cases, ==_iff, ==→ne}
use bytepair.Base.{List, [], ◌∷◌, length, arith, ◌≡◌, refl, ap, sym, ◌∙◌, inl, inr}
use bytepair.Vocab.{BpVocab, pair_empty}
use bytepair.Bpe.{rank_bits, id_bits}
use bytepair.Bpe.Spec.{RanksProper, Encodes, done, merge}
use bytepair.Bpe.Heap.{HeapEnt, heap_pop}
use bytepair.Bpe.Long.{
  Node, node, is_fresh, merge_nodes, push_neighbours, LongRun, finished, long_loop, collect,
}
use bytepair.Bpe.Long.Positions.{at, without, length-without}
use bytepair.Bpe.Long.Chain.{ids_of}
use bytepair.Bpe.Long.Cover.{val_of, DoesMerge, entry}
use bytepair.Bpe.Long.Loop.{
  collect_from, loop_dead, loop_stale, loop_apart, loop_changed, loop_merges,
}
use bytepair.Bpe.Long.Round.{LongInv, empty-IsMerged, skip-LongInv}
use bytepair.Bpe.Long.Merge.{
  next_of_pair, fresh_of_pair, val_of_pair, popped, pop_size, ids_eq, next_inv, next_size,
  next_merges,
}

-- How the loop ends for nodes whose ids are `ids`.
pub record Finishes (v : BpVocab) (n : ℕ) (ids : List ℕ) (run : LongRun) : Type 0 where
  pub nodes : List Node
  pub ends : run ≡ finished nodes
  pub right : Encodes v ids (collect n nodes 0)

module _ (v : BpVocab) (n : ℕ) (ranks : RanksProper v) where
  -- An empty heap ends the loop.
  empty-Finishes :
      (fuel : ℕ) (nd : List Node) (ps : List ℕ)
      → LongInv v n nd [] ps
      → Finishes v n (ids_of nd ps) (long_loop v (2 * n) fuel nd [])
  unfolding long_loop
  empty-Finishes fuel nd ps inv =
      let l = inv.linked in
      let walk : collect n nd 0 ≡ ids_of nd ps =
        rw l.start at (collect_from nd ps l n 0 l.some_node (omega (arith, inv.fits))) in
      record { nodes = nd; ends = refl; right = rw walk (done (empty-IsMerged inv refl)) }

  -- One round, when the rounds behind it end as they should.
  module _ {fuel : ℕ} {nd : List Node} {top : HeapEnt} {hs : List HeapEnt} {ps : List ℕ}
      (inv : LongInv v n nd (top ∷ hs) ps) (enough : length (top ∷ hs) + 2 * length ps ≤ suc fuel)
      (rest_ends : (nd' : List Node) (heap : List HeapEnt) (ps' : List ℕ)
        → LongInv v n nd' heap ps'
        → length heap + 2 * length ps' ≤ fuel
        → Finishes v n (ids_of nd' ps') (long_loop v (2 * n) fuel nd' heap)) where
    skip-Finishes :
        ((a : ℕ)
          → suc a < length ps
          → DoesMerge v nd (at ps a) (at ps (suc a))
          → entry v nd (at ps a) (at ps (suc a)) ≢ top)
        → Finishes v n (ids_of nd ps) (long_loop v (2 * n) fuel nd (heap_pop (top ∷ hs)))
    skip-Finishes idle =
        rest_ends nd (heap_pop (top ∷ hs)) ps (skip-LongInv inv (popped v n ranks inv) idle)
          (omega (arith, pop_size v n ranks inv))

    -- The rounds behind a merge of the nodes `i` and `j`.
    abbrev after_merge : ℕ → ℕ → LongRun
    after_merge i j =
        let nd' = merge_nodes nd i j (id_bits (val_of v nd i j)) in
        long_loop v (2 * n) fuel nd' (push_neighbours v nd' i (heap_pop (top ∷ hs)))

    merge-Finishes :
        (k j : ℕ)
        → suc k < length ps
        → at ps k ≡ top.pos
        → (node nd top.pos).next ≡ some j
        → is_fresh nd top ≡ true
        → (val_of v nd top.pos j == pair_empty) ≡ false
        → (rank_bits (val_of v nd top.pos j) == top.rank) ≡ true
        → Finishes v n (ids_of nd ps) (long_loop v (2 * n) (suc fuel) nd (top ∷ hs))
    merge-Finishes k j lt pos e fresh joined same =
        let next : (node nd top.pos).next ≡ some (at ps (suc k)) =
          rw (← pos) (inv.linked.next k lt) in
        let j_eq : j ≡ at ps (suc k) = some_inj.0 (sym e ∙ next) in
        let joins : DoesMerge v nd (at ps k) (at ps (suc k)) = rw (pos, ← j_eq) joined in
        let rank : rank_bits (val_of v nd (at ps k) (at ps (suc k))) ≡ top.rank =
          rw (pos, ← j_eq) ((==_iff _ _).0 same) in
        let size = pop_size v n ranks inv in
        let after = next_inv v n ranks inv k lt pos joins rank in
        let grown = next_size v n ranks inv k lt pos joins rank in
        let shorter = length-without ps (suc k) lt in
        let rest = rest_ends _ _ (without ps (suc k)) after (omega (arith, grown, shorter)) in
        let run =
          loop_merges v n fuel nd top hs j e fresh joined same (omega (arith, inv.room, size)) in
        rw (run ∙ ap (λ i. after_merge i j) (sym pos) ∙ ap (after_merge (at ps k)) j_eq) (record {
          nodes = rest.nodes;
          ends = rest.ends;
          right =
              merge k (next_merges v n ranks inv k lt pos joins rank)
                (rw (ids_eq v n ranks inv k lt pos joins rank) rest.right);
        })

    round-Finishes : Finishes v n (ids_of nd ps) (long_loop v (2 * n) (suc fuel) nd (top ∷ hs))
    round-Finishes = elim (Option-cases (node nd top.pos).next) [
      | inl e ↦
          rw (loop_dead v n fuel nd top hs e)
            (skip-Finishes λ a lt _ same. absurd (cc (next_of_pair v n ranks inv a lt same, e)))
      | inr (j, e) ↦ elim (Bool-cases (is_fresh nd top)) [
        | inr stale ↦ rw (loop_stale v n fuel nd top hs j e stale) (
            skip-Finishes λ a lt _ same. absurd (cc (fresh_of_pair v n ranks inv a lt same, stale)))
        | inl fresh ↦ elim (Bool-cases (val_of v nd top.pos j == pair_empty)) [
          | inl apart ↦ rw (loop_apart v n fuel nd top hs j e apart) (
              skip-Finishes λ a lt joins same.
                absurd (cc (val_of_pair v n ranks inv a j lt e same, apart, joins)))
          | inr joined ↦ elim (Bool-cases (rank_bits (val_of v nd top.pos j) == top.rank)) [
            | inr changed ↦ rw (loop_changed v n fuel nd top hs j e changed) (
                skip-Finishes λ a lt _ same. absurd (
                  ==→ne _ _ changed (
                    ap rank_bits (val_of_pair v n ranks inv a j lt e same)
                    ∙ ap (λ x. x.rank) same)))
            | inl same ↦
                let (k, lt, pos) = inv.linked.live top.pos j e in
                merge-Finishes k j lt pos e fresh joined same
          ]
        ]
      ]
    ]

  -- With a round for each entry and two for each node the loop ends.
  pub long_loop-Finishes :
      (fuel : ℕ) (nd : List Node) (heap : List HeapEnt) (ps : List ℕ)
      → LongInv v n nd heap ps
      → length heap + 2 * length ps ≤ fuel
      → Finishes v n (ids_of nd ps) (long_loop v (2 * n) fuel nd heap)
  long_loop-Finishes fuel nd [] ps inv f = empty-Finishes fuel nd ps inv
  long_loop-Finishes zero nd (top ∷ hs) ps inv f = absurd (omega arith)
  long_loop-Finishes (suc fuel) nd (top ∷ hs) ps inv f =
      round-Finishes inv f (long_loop-Finishes fuel)
