-- ===== src/Bpe/Long/Unlink.antt =====
-- src/bp_bpe.c `merge_long`: what the five writes of a merge leave in each node.
use mathlib.Core.Logic.{◌≢◌}
use bytepair.Base.{ℕ, ◌+◌, ◌<◌, ◌%◌, ◌^◌, ◌==◌, if◌then◌else◌, none, some, Option-cases}
use bytepair.Base.{List, length, set, arith, ◌≡◌, ◌∙◌, inl, inr, length-set, get_or-set}
use bytepair.Bpe.Long.{Node, no_node, node, link, merge_nodes}

-- The cast to `int32_t` keeps a position below 2^31.
pub link-some : (i : ℕ) → i < 2 ^ 31 → link i ≡ some i
link-some i small = ground arith

-- `nd'` is `nd` with the node `j` taken out behind `i`, which has the id `id`.
pub record Unlinked (nd : List Node) (i j id : ℕ) (nd' : List Node) : Type 0 where
  pub size : length nd' ≡ length nd
  pub new_id : (node nd' i).id ≡ id
  pub new_next : (node nd' i).next ≡ (node nd j).next
  pub dead : (node nd' j).next ≡ none
  pub behind : (q : ℕ) → (node nd j).next ≡ some q → (node nd' q).prev ≡ some i
  pub ids_kept : (q : ℕ) → q ≢ i → (node nd' q).id ≡ (node nd q).id
  pub gens_kept : (q : ℕ) → q ≢ i → (node nd' q).gen ≡ (node nd q).gen
  pub next_kept : (q : ℕ) → q ≢ i → q ≢ j → (node nd' q).next ≡ (node nd q).next
  pub prev_kept : (q : ℕ) → q ≢ j → (node nd j).next ≢ some q → (node nd' q).prev ≡ (node nd q).prev

-- The same before `nd[j]` is marked dead.
record Bypassed (nd : List Node) (i j id : ℕ) (nd' : List Node) : Type 0 where
  size : length nd' ≡ length nd
  new_id : (node nd' i).id ≡ id
  new_next : (node nd' i).next ≡ (node nd j).next
  behind : (q : ℕ) → (node nd j).next ≡ some q → (node nd' q).prev ≡ some i
  ids_kept : (q : ℕ) → q ≢ i → (node nd' q).id ≡ (node nd q).id
  gens_kept : (q : ℕ) → q ≢ i → (node nd' q).gen ≡ (node nd q).gen
  next_kept : (q : ℕ) → q ≢ i → (node nd' q).next ≡ (node nd q).next
  prev_kept : (q : ℕ) → (node nd j).next ≢ some q → (node nd' q).prev ≡ (node nd q).prev

abbrev dead_node : Node → Node
dead_node a = record a { prev = none; next = none }

abbrev back_to : ℕ → Node → Node
back_to i a = record a { prev = some i }

module _ {nd : List Node} {i j id : ℕ} (hj : j < length nd) (apart : i ≢ j) {nd₂ : List Node} where
  Bypassed-Unlinked :
      ((q : ℕ) → (node nd j).next ≡ some q → q ≢ j)
      → Bypassed nd i j id nd₂
      → Unlinked nd i j id (set nd₂ j (dead_node (node nd₂ j)))
  Bypassed-Unlinked ahead b =
      let nd' : List Node = set nd₂ j (dead_node (node nd₂ j)) in
      let at : (q : ℕ) → node nd' q ≡ (if j == q then dead_node (node nd₂ j) else node nd₂ q) =
        λ q. get_or-set nd₂ j q (dead_node (node nd₂ j)) no_node (omega (arith, b.size)) in
      record {
        size = length-set nd₂ j (dead_node (node nd₂ j)) ∙ b.size;
        new_id = ground (arith, at i, b.new_id);
        new_next = ground (arith, at i, b.new_next);
        dead = ground (arith, at j);
        behind = λ q e. ground (arith, at q, ahead q e, b.behind q e);
        ids_kept = λ q ne. ground (arith, at q, b.ids_kept q ne);
        gens_kept = λ q ne. ground (arith, at q, b.gens_kept q ne);
        next_kept = λ q ne other. ground (arith, at q, b.next_kept q ne);
        prev_kept = λ q other far. ground (arith, at q, b.prev_kept q far);
      }

module _ (nd : List Node) (i j id : ℕ) (hi : i < length nd) (hj : j < length nd)
    (apart : i ≢ j) where
  abbrev new_node : Node
  new_node = record (node nd i) {
    id = id;
    gen = ((node nd i).gen + 1) % 2 ^ 32;
    next = (node nd j).next;
  }

  abbrev nd₁ : List Node
  nd₁ = set nd i new_node

  at_new : (q : ℕ) → node nd₁ q ≡ (if i == q then new_node else node nd q)
  at_new q = get_or-set nd i q new_node no_node hi

  new-Bypassed : (node nd j).next ≡ none → Bypassed nd i j id nd₁
  new-Bypassed e = record {
    size = length-set nd i new_node;
    new_id = ground (arith, at_new i);
    new_next = ground (arith, at_new i);
    behind = λ q f. absurd (cc (e, f));
    ids_kept = λ q ne. ground (arith, at_new q);
    gens_kept = λ q ne. ground (arith, at_new q);
    next_kept = λ q ne. ground (arith, at_new q);
    prev_kept = λ q far. ground (arith, at_new q);
  }

  back-Bypassed :
      (k : ℕ)
      → (node nd j).next ≡ some k
      → k < length nd
      → k ≢ i
      → Bypassed nd i j id (set nd₁ k (back_to i (node nd₁ k)))
  back-Bypassed k e hk ne =
      let size = length-set nd i new_node in
      let nd₂ : List Node = set nd₁ k (back_to i (node nd₁ k)) in
      let at : (q : ℕ) → node nd₂ q ≡ (if k == q then back_to i (node nd₁ k) else node nd₁ q) =
        λ q. get_or-set nd₁ k q (back_to i (node nd₁ k)) no_node (omega (arith, size)) in
      record {
        size = length-set nd₁ k (back_to i (node nd₁ k)) ∙ size;
        new_id = ground (arith, at i, at_new i);
        new_next = ground (arith, at i, at_new i);
        behind = λ q f. ground (arith, at q, e, f);
        ids_kept = λ q far. ground (arith, at q, at_new q);
        gens_kept = λ q far. ground (arith, at q, at_new q);
        next_kept = λ q far. ground (arith, at q, at_new q);
        prev_kept = λ q far. ground (arith, at q, at_new q, e);
      }

  -- A merge takes `j` out of the links and leaves the other nodes.
  pub merge_nodes-Unlinked :
      i < 2 ^ 31
      → ((k : ℕ) → (node nd j).next ≡ some k → (k < length nd) × (k ≢ i) × (k ≢ j))
      → Unlinked nd i j id (merge_nodes nd i j id)
  unfolding merge_nodes
  merge_nodes-Unlinked small ahead =
      let old : (node nd₁ j).next ≡ (node nd j).next = ground (arith, at_new j) in
      let past : (q : ℕ) → (node nd j).next ≡ some q → q ≢ j = λ q f. (ahead q f).2 in
      elim (Option-cases (node nd j).next) [
        | inl e ↦ rw (old, e) (Bypassed-Unlinked hj apart past (new-Bypassed e))
        | inr (k, e) ↦
            rw (old, e, link-some i small)
              (Bypassed-Unlinked hj apart past (back-Bypassed k e (ahead k e).0 (ahead k e).1))
      ]
