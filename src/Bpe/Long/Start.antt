-- ===== src/Bpe/Long/Start.antt =====
-- src/bp_bpe.c `merge_long`: the nodes that the loop starts with.
use native.Mathlib.Decide.{dec_lt, ℕ_discrete}
use bytepair.Base.{
  ℕ, zero, suc, ◌+◌, ◌-◌, ◌<◌, ◌≤◌, ltb, ◌==◌, if◌then◌else◌, lt→ltb, le→ltb, ne→==,
}
use bytepair.Base.{◌^◌, none, some, List, [], ◌∷◌, length, get_or, arith, ◌≡◌, refl, ap, ◌∙◌}
use bytepair.Vocab.{BpVocab}
use bytepair.Bpe.Pretoken.{byte_ids}
use bytepair.Bpe.Long.{Node, no_node, node, init_nodes, link}
use bytepair.Bpe.Long.Positions.{at}
use bytepair.Bpe.Long.Unlink.{link-some}
use bytepair.Bpe.Long.Chain.{Linked, ids_of}

length-init_nodes : (v : BpVocab) (n i : ℕ) (p : List ℕ) → length (init_nodes v n i p) ≡ length p
unfolding init_nodes
length-init_nodes v n i [] = refl
length-init_nodes v n i (b ∷ p) = ap suc (length-init_nodes v n (suc i) p)

abbrev node_of : BpVocab → ℕ → ℕ → ℕ → Node
node_of v n k b = record {
  id = get_or v.byte_id b 0;
  prev = if k == 0 then none else some (k - 1);
  next = if ltb (k + 1) n then some (k + 1) else none;
  gen = 0;
}

-- The node that the code makes, where the links fit their type.
cast_node :
    (v : BpVocab) (n k b : ℕ)
    → n < 2 ^ 31
    → k < n
    → record {
      id = get_or v.byte_id b 0;
      prev = if k == 0 then none else link (k - 1);
      next = if ltb (k + 1) n then link (k + 1) else none;
      gen = 0;
    }
      ≡ node_of v n k b
cast_node v n k b small inside =
    rw (link-some (k - 1) (omega arith), link-some (k + 1) (omega arith)) refl

node-init_nodes :
    (v : BpVocab) (n i : ℕ) (p : List ℕ) (a : ℕ)
    → n < 2 ^ 31
    → i + length p ≤ n
    → a < length p
    → node (init_nodes v n i p) a ≡ node_of v n (i + a) (get_or p a 0)
unfolding init_nodes
node-init_nodes v n i [] a small fits lt = absurd (omega arith)
node-init_nodes v n i (b ∷ p) zero small fits lt =
    cast_node v n i b small (omega arith)
    ∙ ap (λ k. node_of v n k b) {x = i} {y = i + 0} (omega arith)
node-init_nodes v n i (b ∷ p) (suc a) small fits lt =
    node-init_nodes v n (suc i) p a small (omega arith) (omega arith)
    ∙ ap (λ k. node_of v n k (get_or p a 0)) {x = suc i + a} {y = i + suc a} (omega arith)

past_the_end : (nd : List Node) (q : ℕ) → length nd ≤ q → node nd q ≡ no_node
past_the_end [] q le = refl
past_the_end (x ∷ nd) zero le = absurd (omega arith)
past_the_end (x ∷ nd) (suc q) le = past_the_end nd q (omega arith)

-- The positions from `i` on, `n` of them.
abbrev pub range : ℕ → ℕ → List ℕ
range i zero = []
range i (suc n) = i ∷ range (suc i) n

pub length-range : (i n : ℕ) → length (range i n) ≡ n
length-range i zero = refl
length-range i (suc n) = ap suc (length-range (suc i) n)

at-range : (i n a : ℕ) → a < n → at (range i n) a ≡ i + a
at-range i zero a lt = absurd (omega arith)
at-range i (suc n) zero lt = omega arith
at-range i (suc n) (suc a) lt = omega (arith, at-range (suc i) n a)

-- The ids of the nodes from `i` on, when they are those of the bytes.
ids_of-range :
    (v : BpVocab) (nd : List Node) (p : List ℕ) (i : ℕ)
    → ((a : ℕ) → a < length p → (node nd (i + a)).id ≡ get_or v.byte_id (get_or p a 0) 0)
    → ids_of nd (range i (length p)) ≡ byte_ids v p
unfolding byte_ids
ids_of-range v nd [] i same = refl
ids_of-range v nd (b ∷ p) i same =
    ap (λ k. (node nd k).id ∷ ids_of nd (range (suc i) (length p))) {x = i} {y = i + 0}
      (omega arith)
    ∙ ap (λ x. x ∷ ids_of nd (range (suc i) (length p))) (same 0 (omega arith))
    ∙ ap (λ r. get_or v.byte_id b 0 ∷ r)
        (ids_of-range v nd p (suc i) λ a lt.
          ap (λ k. (node nd k).id) {x = suc i + a} {y = i + suc a} (omega arith)
          ∙ same (suc a) (omega arith))

-- The nodes of a pretoken, and the positions along their list.
module _ (v : BpVocab) (p : List ℕ) where
  abbrev pub start_nodes : List Node
  start_nodes = init_nodes v (length p) 0 p

  abbrev pub start_range : List ℕ
  start_range = range 0 (length p)

module _ (v : BpVocab) (p : List ℕ) (small : length p < 2 ^ 31) where
  start_at :
      (a : ℕ) → a < length p → node (start_nodes v p) a ≡ node_of v (length p) a (get_or p a 0)
  start_at a lt =
      node-init_nodes v (length p) 0 p a small (omega arith) lt
      ∙ ap (λ k. node_of v (length p) k (get_or p a 0)) {x = 0 + a} {y = a} (omega arith)

  pub start-ids : ids_of (start_nodes v p) (start_range v p) ≡ byte_ids v p
  start-ids = ids_of-range v (start_nodes v p) p 0 λ a lt.
      ap (λ k. (node (start_nodes v p) k).id) {x = 0 + a} {y = a} (omega arith)
      ∙ ap (λ x. x.id) (start_at a lt)

  pub position : (a : ℕ) → a < length p → at (start_range v p) a ≡ a
  position a lt = omega (arith, at-range 0 (length p) a lt)

  start-next :
      (a : ℕ)
      → a < length p
      → (node (start_nodes v p) a).next ≡ (if ltb (a + 1) (length p) then some (a + 1) else none)
  start-next a lt = ap (λ x. x.next) (start_at a lt)

  start-prev :
      (a : ℕ)
      → a < length p
      → (node (start_nodes v p) a).prev ≡ (if a == 0 then none else some (a - 1))
  start-prev a lt = ap (λ x. x.prev) (start_at a lt)

  next_inside : (a : ℕ) → suc a < length p → (node (start_nodes v p) a).next ≡ some (suc a)
  next_inside a lt =
      start-next a (omega arith)
      ∙ rw (lt→ltb (a + 1) (length p) (omega arith)) (ap some (omega arith))

  next_last : (a : ℕ) → suc a ≡ length p → (node (start_nodes v p) a).next ≡ none
  next_last a e = start-next a (omega arith) ∙ rw (le→ltb (a + 1) (length p) (omega arith)) refl

  prev_inside : (a : ℕ) → suc a < length p → (node (start_nodes v p) (suc a)).prev ≡ some a
  prev_inside a lt =
      start-prev (suc a) lt
      ∙ rw (ne→== (suc a) 0 (λ e. absurd (omega arith))) (ap some (omega arith))

  live_inside :
      (q r : ℕ)
      → (node (start_nodes v p) q).next ≡ some r
      → (a : ℕ) × (suc a < length (start_range v p)) × (at (start_range v p) a ≡ q)
  live_inside q r e = elim (dec_lt (suc q) (length p)) [
    | yes lt ↦ (q, omega (arith, length-range 0 (length p)), position q (omega arith))
    | no ge ↦ elim (ℕ_discrete (suc q) (length p)) [
      | yes end ↦ absurd (cc (next_last q end, e))
      | no out ↦
          let gone =
            past_the_end (start_nodes v p) q (omega (arith, length-init_nodes v (length p) 0 p)) in
          absurd (cc (ap (λ x. x.next) gone, e))
    ]
  ]

  pub start-Linked : 0 < length p → Linked (start_nodes v p) (start_range v p)
  start-Linked pos =
      let size = length-range 0 (length p) in
      record {
        some_node = omega (arith, size);
        fits = omega (arith, small, length-init_nodes v (length p) 0 p);
        start = position 0 pos;
        ascending = λ a b lt inn.
            omega (arith, size, position a (omega (arith, size)), position b (omega (arith, size)));
        inside = λ a inn.
            omega
              (arith, size, position a (omega (arith, size)), length-init_nodes v (length p) 0 p);
        next = λ a inn.
            rw (position a (omega (arith, size)), position (suc a) (omega (arith, size)))
              (next_inside a (omega (arith, size)));
        last = λ a e. rw (position a (omega (arith, size))) (next_last a (omega (arith, size)));
        prev = λ a inn.
            rw (position a (omega (arith, size)), position (suc a) (omega (arith, size)))
              (prev_inside a (omega (arith, size)));
        first = start-prev 0 pos;
        live = live_inside;
      }
