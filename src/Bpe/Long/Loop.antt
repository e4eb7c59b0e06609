-- ===== src/Bpe/Long/Loop.antt =====
-- src/bp_bpe.c `merge_long`: `while (hn)` as a whole, and the walk along the list behind it.
use native.Mathlib.Decide.{ℕ_discrete}
use bytepair.Base.{ℕ, zero, suc, ◌+◌, ◌*◌, ◌<◌, ◌≤◌, ◌==◌, true, false}
use bytepair.Base.{Bool-cases, none, some}
use bytepair.Base.{List, ◌∷◌, length, drop, arith, ◌≡◌, refl, ap, ◌∙◌, inl, inr}
use bytepair.Base.{le→ltb, drop_step, drop_all}
use bytepair.Vocab.{BpVocab, pair_empty}
use bytepair.Bpe.{rank_bits, id_bits}
use bytepair.Bpe.Spec.{Encodes}
use bytepair.Bpe.Heap.{HeapEnt, heap_pop}
use bytepair.Bpe.Long.{
  Node, node, is_fresh, merge_nodes, make_room, push_neighbours, LongRun, finished, long_loop,
  collect,
}
use bytepair.Bpe.Long.Positions.{at}
use bytepair.Bpe.Long.Chain.{Linked, ids_of}
use bytepair.Bpe.Long.Cover.{val_of}
use bytepair.Bpe.Long.Round.{at-ids_of, length-ids_of}

drop_ids :
    (nd : List Node) (ps : List ℕ) (a : ℕ)
    → a < length ps
    → drop a (ids_of nd ps) ≡ (node nd (at ps a)).id ∷ drop (a + 1) (ids_of nd ps)
drop_ids nd ps a lt =
    rw (← at-ids_of nd ps a lt) (drop_step a (ids_of nd ps) 0 (omega (arith, length-ids_of nd ps)))

-- The walk from the node with index `a` of the list.
pub collect_from :
    (nd : List Node) (ps : List ℕ)
    → Linked nd ps
    → (fuel a : ℕ) → a < length ps
    → length ps ≤ fuel + a
    → collect fuel nd (at ps a) ≡ drop a (ids_of nd ps)
unfolding collect
collect_from nd ps l zero a lt le = absurd (omega arith)
collect_from nd ps l (suc fuel) a lt le = elim (ℕ_discrete (suc a) (length ps)) [
  | yes end ↦
      rw
        (
          collect,
          l.last a end,
          drop_ids nd ps a lt,
          drop_all (a + 1) (ids_of nd ps) (omega (arith, end, length-ids_of nd ps)),
        )
        refl
  | no more ↦
      rw (collect, l.next a (omega arith), drop_ids nd ps a lt)
        (ap (λ r. (node nd (at ps a)).id ∷ r)
          (collect_from nd ps l fuel (suc a) (omega arith) (omega arith)
            ∙ ap (λ k. drop k (ids_of nd ps)) {x = suc a} {y = a + 1} (omega arith)))
]

-- How the loop ends for nodes whose ids are `ids`.
pub record Finishes (v : BpVocab) (n : ℕ) (ids : List ℕ) (run : LongRun) : Type 0 where
  pub nodes : List Node
  pub ends : run ≡ finished nodes
  pub right : Encodes v ids (collect n nodes 0)

module _ (v : BpVocab) (n fuel : ℕ) (nd : List Node) (top : HeapEnt) (hs : List HeapEnt) where
  abbrev round : LongRun
  round = long_loop v (2 * n) (suc fuel) nd (top ∷ hs)

  abbrev skipped : LongRun
  skipped = long_loop v (2 * n) fuel nd (heap_pop (top ∷ hs))

  pub loop_dead : (node nd top.pos).next ≡ none → round ≡ skipped
  unfolding long_loop
  loop_dead e = rw (long_loop, e) refl

  module _ (j : ℕ) (e : (node nd top.pos).next ≡ some j) where
    pub loop_stale : is_fresh nd top ≡ false → round ≡ skipped
    unfolding long_loop
    loop_stale stale = rw (long_loop, e, stale) refl

    pub loop_apart : (val_of v nd top.pos j == pair_empty) ≡ true → round ≡ skipped
    unfolding long_loop
    loop_apart apart = elim (Bool-cases (is_fresh nd top)) [
      | inl fresh ↦ rw (long_loop, e, fresh, apart) refl
      | inr stale ↦ loop_stale stale
    ]

    pub loop_changed : (rank_bits (val_of v nd top.pos j) == top.rank) ≡ false → round ≡ skipped
    unfolding long_loop
    loop_changed changed = elim (Bool-cases (is_fresh nd top)) [
      | inl fresh ↦ elim (Bool-cases (val_of v nd top.pos j == pair_empty)) [
        | inl apart ↦ loop_apart apart
        | inr joined ↦ rw (long_loop, e, fresh, joined, changed) refl
      ]
      | inr stale ↦ loop_stale stale
    ]

    abbrev pub joined_nodes : List Node
    joined_nodes = merge_nodes nd top.pos j (id_bits (val_of v nd top.pos j))

    pub loop_merges :
        is_fresh nd top ≡ true
        → (val_of v nd top.pos j == pair_empty) ≡ false
        → (rank_bits (val_of v nd top.pos j) == top.rank) ≡ true
        → length (heap_pop (top ∷ hs)) + 2 ≤ 2 * n
        → round
          ≡ long_loop v
              (2 * n)
              fuel
              joined_nodes
              (push_neighbours v joined_nodes top.pos (heap_pop (top ∷ hs)))
    unfolding long_loop make_room
    loop_merges fresh joined same room =
        rw (long_loop, e, fresh, joined, same, make_room, le→ltb _ _ room) refl
