-- ===== src/Bpe/Long.antt =====
-- src/bp_bpe.c `node`, `merge_long`: the long path, a linked list with a lazy heap.
-- `none` in `prev` and `next` is what is negative in their type, `int32_t`; `link` is the cast.
pub mod Positions
pub mod Chain
pub mod Shrink
pub mod Cover
pub mod Round
pub mod Loop
pub mod Merge
pub mod Ends
pub mod Start
pub mod Seed
pub mod Encodes
pub mod Unlink
use bytepair.Base.{ℕ, zero, suc, ◌+◌, ◌-◌, ◌*◌, ◌%◌, ◌^◌, ltb, ◌==◌, if◌then◌else◌}
use bytepair.Base.{Bool, true, false, ◌&&◌, ◌||◌, not, Option, none, some}
use bytepair.Base.{List, [], ◌∷◌, length, get_or, set}
use bytepair.Vocab.{BpVocab, pair_empty}
use bytepair.Vocab.Pairs.{bp_pair_lookup}
use bytepair.Bpe.{rank_bits, id_bits}
use bytepair.Bpe.Heap.{HeapEnt, ent, heap_push, heap_pop}

pub record Node : Type 0 where
  pub id : ℕ
  pub prev : Option ℕ
  pub next : Option ℕ
  pub gen : ℕ

abbrev pub no_node : Node
no_node = record { id = 0; prev = none; next = none; gen = 0 }

abbrev pub node : List Node → ℕ → Node
node nd i = get_or nd i no_node

-- `(int32_t)i`: what is negative, which every test on a link takes for -1, is `none`.
abbrev pub link : ℕ → Option ℕ
link i = if ltb (i % 2 ^ 32) (2 ^ 31) then some (i % 2 ^ 32) else none

-- `nd[i]` for the bytes from `p + i` on; `n` is the length of the whole pretoken.
unfoldable pub init_nodes : BpVocab → ℕ → ℕ → List ℕ → List Node
init_nodes v n i [] = []
init_nodes v n i (b ∷ p) =
    record {
      id = get_or v.byte_id b 0;
      prev = if i == 0 then none else link (i - 1);
      next = if ltb (i + 1) n then link (i + 1) else none;
      gen = 0;
    }
    ∷ init_nodes v n (suc i) p

-- Pushes the pair of the nodes `l` and `r`, if it merges, with the generation of `l`.
unfoldable pub push_pair : BpVocab → List Node → ℕ → ℕ → List HeapEnt → List HeapEnt
push_pair v nd l r heap =
    let val = bp_pair_lookup v (node nd l).id (node nd r).id in
    if val == pair_empty
    then heap
    else heap_push heap (record { rank = rank_bits val; pos = l; gen = (node nd l).gen })

-- The `for` over `i + 1 < n`, with the rounds left.
unfoldable pub seed_heap : BpVocab → List Node → ℕ → ℕ → List HeapEnt → List HeapEnt
seed_heap v nd zero i heap = heap
seed_heap v nd (suc left) i heap = seed_heap v nd left (suc i) (push_pair v nd i (i + 1) heap)

-- `nd[i].gen != e.gen || nd[i].next < 0`, its negation.
unfoldable pub is_fresh : List Node → HeapEnt → Bool
is_fresh nd e =
    (node nd e.pos).gen == e.gen && elim (node nd e.pos).next [ none ↦ false | some j ↦ true ]

-- `nd[i]` takes the merged id and the place of `nd[j]` in the list; `nd[j]` is dead.
unfoldable pub merge_nodes : List Node → ℕ → ℕ → ℕ → List Node
merge_nodes nd i j id =
    let a = record (node nd i) {
      id = id;
      gen = ((node nd i).gen + 1) % 2 ^ 32;
      next = (node nd j).next;
    } in
    let nd₁ = set nd i a in
    let nd₂ : List Node = elim (node nd₁ j).next [
      | none ↦ nd₁
      | some k ↦ set nd₁ k (record (node nd₁ k) { prev = link i })
    ] in
    set nd₂ j (record (node nd₂ j) { prev = none; next = none })

-- The entries that are still fresh, in order, and the heap pushed anew from them.
unfoldable pub keep_fresh : List Node → List HeapEnt → List HeapEnt
keep_fresh nd [] = []
keep_fresh nd (e ∷ h) = let rest = keep_fresh nd h in if is_fresh nd e then e ∷ rest else rest

unfoldable pub push_all : List HeapEnt → List HeapEnt → List HeapEnt
push_all heap [] = heap
push_all heap (e ∷ es) = push_all (heap_push heap e) es

unfoldable pub compact : List Node → List HeapEnt → List HeapEnt
compact nd heap = push_all [] (keep_fresh nd heap)

-- `none` is the `return BP_E_NOMEM` after a compaction that frees no room.
unfoldable pub make_room : List Node → ℕ → List HeapEnt → Option (List HeapEnt)
make_room nd heap_cap heap =
    if ltb heap_cap (length heap + 2)
    then (let heap' = compact nd heap in
        if ltb heap_cap (length heap' + 2) then none else some heap')
    else some heap

-- The two pushes behind a merge: with the left neighbour, then with the right one.
unfoldable pub push_neighbours : BpVocab → List Node → ℕ → List HeapEnt → List HeapEnt
push_neighbours v nd i heap =
    let heap' : List HeapEnt = elim (node nd i).prev [
      | none ↦ heap
      | some l ↦ push_pair v nd l i heap
    ] in
    elim (node nd i).next [ none ↦ heap' | some r ↦ push_pair v nd i r heap' ]

-- How the loop ends. `out_of_fuel` is no outcome of the code.
pub data LongRun : Type 0 where
  finished : List Node → LongRun
  out_of_memory out_of_fuel : LongRun

-- `while (hn)`: one entry of the heap is taken in each round.
unfoldable pub long_loop : BpVocab → ℕ → ℕ → List Node → List HeapEnt → LongRun
long_loop v heap_cap fuel nd [] = finished nd
long_loop v heap_cap zero nd (x ∷ xs) = out_of_fuel
long_loop v heap_cap (suc fuel) nd (x ∷ xs) =
    let e = ent (x ∷ xs) 0 in
    let heap = heap_pop (x ∷ xs) in
    let i = e.pos in
    let skip = long_loop v heap_cap fuel nd heap in
    elim (node nd i).next [
      | none ↦ skip
      | some j ↦
          let val = bp_pair_lookup v (node nd i).id (node nd j).id in
          let nd' = merge_nodes nd i j (id_bits val) in
          let merged : LongRun = elim (make_room nd' heap_cap heap) [
            | none ↦ out_of_memory
            | some roomy ↦ long_loop v heap_cap fuel nd' (push_neighbours v nd' i roomy)
          ] in
          if not (is_fresh nd e)
          then skip
          else if val == pair_empty || not (rank_bits val == e.rank)
          then skip
          else merged
    ]

-- The ids along `next` from node `i`; the list has no more nodes than the array.
unfoldable pub collect : ℕ → List Node → ℕ → List ℕ
collect zero nd i = []
collect (suc fuel) nd i = elim (node nd i).next [
  | none ↦ (node nd i).id ∷ []
  | some j ↦ (node nd i).id ∷ collect fuel nd j
]

-- From the nodes set up to the end of the loop, for a pretoken of `n` bytes. Each merge takes a node
-- away and adds at most one entry to the heap, so 4 * n rounds are enough.
unfoldable pub run_long : BpVocab → List ℕ → LongRun
run_long v p =
    let n = length p in
    let nd = init_nodes v n 0 p in long_loop v (2 * n) (4 * n) nd (seed_heap v nd (n - 1) 0 [])
