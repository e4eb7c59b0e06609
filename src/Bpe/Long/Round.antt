-- ===== src/Bpe/Long/Round.antt =====
-- src/bp_bpe.c `merge_long`: one round of `while (hn)`.
use mathlib.Core.Logic.{◌≢◌}
use mathlib.Core.List.{Mem, mem_of_ne_of_mem, not-mem-nil}
use mathlib.Core.List.Perm
use mathlib.Core.Path.{subst}
use native.Mathlib.Decide.{dec_lt, ℕ_discrete}
use bytepair.Base.{ℕ, zero, suc, ◌+◌, ◌*◌, ◌<◌, ◌≤◌, ◌==◌, true}
use bytepair.Base.{Bool-cases, length-Perm}
use bytepair.Base.{List, [], ◌∷◌, length, get_or, arith, ◌≡◌, refl, ap, sym, ◌∙◌, inl, inr, ◌⊎◌}
use bytepair.Vocab.{BpVocab, pair_empty}
use bytepair.Bpe.{rank_bits, no_rank}
use bytepair.Bpe.Spec.{rank_of, rank_at, MergesAt, IsMerged}
use bytepair.Bpe.Heap.{HeapEnt, heap_less}
use bytepair.Bpe.Heap.Order.{IsHeap}
use bytepair.Bpe.Heap.Laws.{Popped}
use bytepair.Bpe.Long.{Node, node, push_neighbours}
use bytepair.Bpe.Long.Positions.{at, without, length-without, at-without}
use bytepair.Bpe.Long.Unlink.{Unlinked}
use bytepair.Bpe.Long.Chain.{Linked, ids_of, at_inj, Unlinked-Linked}
use bytepair.Bpe.Long.Cover.{val_of, DoesMerge, entry, IsCovered, push_neighbours-Grown}

-- The nodes `ps` are linked, and the heap knows each pair of them that merges. With each merge the
-- list gets shorter by one and the heap longer by at most one.
pub record LongInv (v : BpVocab) (n : ℕ) (nd : List Node) (heap : List HeapEnt) (ps : List ℕ)
    : Type 0 where
  pub linked : Linked nd ps
  pub ordered : IsHeap heap
  pub covered : (a : ℕ) → suc a < length ps → IsCovered v nd heap (at ps a) (at ps (suc a))
  pub room : length heap + length ps < 2 * n
  pub fits : length ps ≤ n

pub length-ids_of : (nd : List Node) (ps : List ℕ) → length (ids_of nd ps) ≡ length ps
length-ids_of nd [] = refl
length-ids_of nd (p ∷ ps) = ap suc (length-ids_of nd ps)

pub at-ids_of :
    (nd : List Node) (ps : List ℕ) (a : ℕ)
    → a < length ps
    → get_or (ids_of nd ps) a 0 ≡ (node nd (at ps a)).id
at-ids_of nd [] a lt = absurd (omega arith)
at-ids_of nd (p ∷ ps) zero lt = refl
at-ids_of nd (p ∷ ps) (suc a) lt = at-ids_of nd ps a (omega arith)

module _ (v : BpVocab) (nd : List Node) (ps : List ℕ) where
  -- The rank of a pair, by the value of its nodes.
  pub rank_at-nodes :
      (a : ℕ)
      → suc a < length ps
      → (DoesMerge v nd (at ps a) (at ps (suc a))
          × (rank_at v (ids_of nd ps) a ≡ rank_bits (val_of v nd (at ps a) (at ps (suc a)))))
        ⊎ (((val_of v nd (at ps a) (at ps (suc a)) == pair_empty) ≡ true)
            × (rank_at v (ids_of nd ps) a ≡ no_rank))
  unfolding rank_of
  rank_at-nodes a lt =
      rw (at-ids_of nd ps a (omega arith), at-ids_of nd ps (suc a) lt)
        (elim (Bool-cases (val_of v nd (at ps a) (at ps (suc a)) == pair_empty)) [
          | inl apart ↦ inr (apart, rw apart refl)
          | inr joined ↦ inl (joined, rw joined refl)
        ])

module _ {v : BpVocab} {n : ℕ} {nd : List Node} {heap : List HeapEnt} {ps : List ℕ}
    (inv : LongInv v n nd heap ps) where
  -- An empty heap: no pair is left.
  pub empty-IsMerged : heap ≡ [] → IsMerged v (ids_of nd ps)
  empty-IsMerged e a lt =
      let lt' : suc a < length ps = omega (arith, length-ids_of nd ps) in
      elim (rank_at-nodes v nd ps a lt') [
        | inl (joined, same) ↦ absurd (
            not-mem-nil (
              subst (λ h. Mem (entry v nd (at ps a) (at ps (suc a))) h) e
                (inv.covered a lt' joined)))
        | inr (_, none_left) ↦ omega arith
      ]

  module _ {top : HeapEnt} {rest : List HeapEnt} (popped : Popped heap top rest) where
    shorter : suc (length rest) ≡ length heap
    shorter = length-Perm popped.same

    -- An entry that stands for no pair.
    pub skip-LongInv :
        ((a : ℕ)
          → suc a < length ps
          → DoesMerge v nd (at ps a) (at ps (suc a))
          → entry v nd (at ps a) (at ps (suc a)) ≢ top)
        → LongInv v n nd rest ps
    skip-LongInv idle = record {
      linked = inv.linked;
      ordered = popped.heap;
      covered = λ a lt joined.
          mem_of_ne_of_mem (idle a lt joined)
            ((Perm.mem_iff popped.same).1 (inv.covered a lt joined));
      room = omega (arith, inv.room, shorter);
      fits = inv.fits;
    }

    -- The entry of a pair: that pair is the next one.
    pub top-MergesAt :
        (k : ℕ)
        → suc k < length ps
        → DoesMerge v nd (at ps k) (at ps (suc k))
        → rank_bits (val_of v nd (at ps k) (at ps (suc k))) < no_rank
        → top.rank ≡ rank_bits (val_of v nd (at ps k) (at ps (suc k)))
        → top.pos ≡ at ps k
        → MergesAt v (ids_of nd ps) k
    unfolding heap_less
    top-MergesAt k lt joined proper rank pos =
        let size = length-ids_of nd ps in
        let here : rank_at v (ids_of nd ps) k ≡ top.rank = elim (rank_at-nodes v nd ps k lt) [
          | inl (_, same) ↦ same ∙ sym rank
          | inr (e, _) ↦ absurd (cc (e, joined))
        ] in
        record {
          inside = omega (arith, size);
          ranked = omega (arith, here);
          earlier = λ a before. elim (rank_at-nodes v nd ps a (omega arith)) [
            | inl (joins, same) ↦ ground (
              arith,
              popped.least (entry v nd (at ps a) (at ps (suc a)))
                  (inv.covered a (omega arith) joins),
              inv.linked.ascending a k before (omega arith),
            )
            | inr (_, e) ↦ omega (arith, here)
          ];
          later = λ a behind inn. elim (rank_at-nodes v nd ps a (omega (arith, size))) [
            | inl (joins, same) ↦ ground (
              arith,
              popped.least (entry v nd (at ps a) (at ps (suc a)))
                  (inv.covered a (omega (arith, size)) joins),
            )
            | inr (_, e) ↦ omega (arith, here)
          ];
        }

    -- A merge of the pair that the entry stands for.
    module _ {k id : ℕ} {nd' : List Node} (lt : suc k < length ps) (pos : top.pos ≡ at ps k)
        (u : Unlinked nd (at ps k) (at ps (suc k)) id nd') where
      abbrev left_over : List ℕ
      left_over = without ps (suc k)

      abbrev pushed : List HeapEnt
      pushed = push_neighbours v nd' (at ps k) rest

      linked' : Linked nd' left_over
      linked' = Unlinked-Linked inv.linked lt u

      apart : (b : ℕ) → b < length ps → b ≢ k → at ps b ≢ at ps k
      apart b inn ne e = ne (at_inj inv.linked b k inn (omega arith) e)

      low : (a : ℕ) → a < suc k → at left_over a ≡ at ps a
      low a h = ground (arith, at-without ps (suc k) a)

      high : (a : ℕ) → suc k ≤ a → at left_over a ≡ at ps (suc a)
      high a h = ground (arith, at-without ps (suc k) a)

      -- A pair away from the merge is covered as before.
      old_pair :
          (b : ℕ)
          → suc b < length ps
          → b ≢ k
          → suc b ≢ k
          → IsCovered v nd' pushed (at ps b) (at ps (suc b))
      old_pair b inn ne ne' =
          let grown = (push_neighbours-Grown v nd' (at ps k) rest popped.heap).0 in
          let off = apart b (omega arith) ne in
          let off' = apart (suc b) inn ne' in
          rw (u.ids_kept (at ps b) off, u.ids_kept (at ps (suc b)) off', u.gens_kept (at ps b) off)
            (λ joined. grown.kept (entry v nd (at ps b) (at ps (suc b))) (
              mem_of_ne_of_mem (λ e. off (ap (λ x. x.pos) e ∙ pos))
                ((Perm.mem_iff popped.same).1 (inv.covered b inn joined))))

      covered' :
          (a : ℕ)
          → suc a < length left_over
          → IsCovered v nd' pushed (at left_over a) (at left_over (suc a))
      covered' a inn =
          let size = length-without ps (suc k) lt in
          let (grown, left, right) = push_neighbours-Grown v nd' (at ps k) rest popped.heap in
          elim (ℕ_discrete a k) [
            | yes at_k ↦
                let here : at left_over a ≡ at ps k = low a (omega arith) ∙ ap (at ps) at_k in
                let next = linked'.next a inn in
                rw here (right (at left_over (suc a)) (rw here at next))
            | no off_k ↦ elim (ℕ_discrete (suc a) k) [
              | yes at_k ↦
                  let here : at left_over (suc a) ≡ at ps k =
                    low (suc a) (omega arith) ∙ ap (at ps) at_k in
                  let prev = linked'.prev a inn in rw here (left (at left_over a) (rw here at prev))
              | no off_k' ↦ elim (dec_lt a k) [
                | yes before ↦
                    rw (low a (omega arith), low (suc a) (omega arith))
                      (old_pair a (omega (arith, size)) off_k off_k')
                | no after ↦
                    rw (high a (omega arith), high (suc a) (omega arith))
                      (old_pair (suc a) (omega (arith, size)) (omega arith) (omega arith))
              ]
            ]
          ]

      pub merge-LongInv : LongInv v n nd' pushed left_over
      merge-LongInv =
          let size = length-without ps (suc k) lt in
          let grown = (push_neighbours-Grown v nd' (at ps k) rest popped.heap).0 in
          record {
            linked = linked';
            ordered = grown.ordered;
            covered = covered';
            room = omega (arith, size, grown.size, inv.room, shorter);
            fits = omega (arith, size, inv.fits);
          }
