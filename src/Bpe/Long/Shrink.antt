-- ===== src/Bpe/Long/Shrink.antt =====
-- src/bp_bpe.c `merge_long`: a merge of two neighbours, in terms of the list that the nodes stand for.
use mathlib.Core.Logic.{◌≢◌}
use mathlib.Core.Option.{some_inj}
use bytepair.Base.{ℕ, suc, ◌<◌, some, List, length, arith, ◌≡◌, ◌∙◌, sym, ap}
use bytepair.Bpe.{merge_at}
use bytepair.Bpe.Long.{Node, node, merge_nodes}
use bytepair.Bpe.Long.Positions.{at, without, merge_at-ids}
use bytepair.Bpe.Long.Unlink.{Unlinked, merge_nodes-Unlinked}
use bytepair.Bpe.Long.Chain.{Linked, ids_of, at_inj, Unlinked-Linked}

-- The nodes with the `k`-th and the next one of the list `ps` joined to one with the id `id`.
pub record Shrunk (nd : List Node) (ps : List ℕ) (k id : ℕ) (nd' : List Node) : Type 0 where
  pub unlinked : Unlinked nd (at ps k) (at ps (suc k)) id nd'
  pub linked : Linked nd' (without ps (suc k))
  pub ids : ids_of nd' (without ps (suc k)) ≡ merge_at (ids_of nd ps) k id

module _ {nd : List Node} {ps : List ℕ} (l : Linked nd ps) (k : ℕ) (lt : suc k < length ps)
    (id : ℕ) where
  -- What stands behind the second node of the pair.
  ahead :
      (q : ℕ)
      → (node nd (at ps (suc k))).next ≡ some q
      → (q < length nd) × (q ≢ at ps k) × (q ≢ at ps (suc k))
  ahead q e =
      let (b, inn, same) = l.live (at ps (suc k)) q e in
      let b_eq : b ≡ suc k = at_inj l b (suc k) (omega arith) lt same in
      let more : suc (suc k) < length ps = omega arith in
      let q_eq : q ≡ at ps (suc (suc k)) = some_inj.0 (sym e ∙ l.next (suc k) more) in
      let near = l.ascending k (suc k) (omega arith) lt in
      let far = l.ascending (suc k) (suc (suc k)) (omega arith) more in
      (
        rw q_eq (l.inside (suc (suc k)) more),
        λ f. absurd (omega (arith, f, q_eq, near, far)),
        λ f. absurd (omega (arith, f, q_eq, far)),
      )

  abbrev nd' : List Node
  nd' = merge_nodes nd (at ps k) (at ps (suc k)) id

  unlinked : Unlinked nd (at ps k) (at ps (suc k)) id nd'
  unlinked =
      merge_nodes-Unlinked nd (at ps k) (at ps (suc k)) id (l.inside k (omega arith))
        (l.inside (suc k) lt)
        (λ e. absurd (omega (arith, e, l.ascending k (suc k) (omega arith) lt)))
        (omega (arith, l.inside k (omega arith), l.fits)) ahead

  -- On nodes that are linked as the list `ps`, with positions that an `int32_t` holds, joining
  -- the nodes at two neighbouring places leaves nodes that are linked as `ps` without the
  -- second place, whose ids are the old ones with the pair merged by `merge_at`, and outside
  -- the joined node every id and every generation is kept.
  pub merge_nodes-Shrunk : Shrunk nd ps k id nd'
  merge_nodes-Shrunk = record {
    unlinked = unlinked;
    linked = Unlinked-Linked l lt unlinked;
    ids =
        merge_at-ids (λ p. (node nd p).id) (λ p. (node nd' p).id) ps k lt
          (λ a inn ne. unlinked.ids_kept (at ps a) (λ e. ne (at_inj l a k inn (omega arith) e)))
        ∙ ap (merge_at (ids_of nd ps) k) unlinked.new_id;
  }
