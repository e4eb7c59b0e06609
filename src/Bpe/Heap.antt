-- ===== src/Bpe/Heap.antt =====
-- src/bp_bpe.c `heap_ent`, `heap_less`, `heap_push`, `heap_pop`: a binary min-heap in an array.
-- The list is `h[0 .. *hn)`.
pub mod Order
pub mod Up
pub mod Down
pub mod Laws
use bytepair.Base.{ℕ, zero, suc, ◌+◌, ◌-◌, ◌*◌, ◌/◌, ltb, ◌==◌, if◌then◌else◌, Bool}
use bytepair.Base.{◌&&◌, not, List, [], ◌∷◌, ◌++◌, length, get_or, set, take}

pub record HeapEnt : Type 0 where
  pub rank : ℕ
  pub pos : ℕ
  pub gen : ℕ

abbrev pub no_ent : HeapEnt
no_ent = record { rank = 0; pos = 0; gen = 0 }

unfoldable pub heap_less : HeapEnt → HeapEnt → Bool
heap_less a b = if not (a.rank == b.rank) then ltb a.rank b.rank else ltb a.pos b.pos

abbrev pub ent : List HeapEnt → ℕ → HeapEnt
ent h i = get_or h i no_ent

unfoldable pub swap : List HeapEnt → ℕ → ℕ → List HeapEnt
swap h i j = set (set h i (ent h j)) j (ent h i)

-- The `while (i)`; the parent lies below `i`, so `i` rounds are enough.
unfoldable pub sift_up : ℕ → List HeapEnt → ℕ → List HeapEnt
sift_up zero h i = h
sift_up (suc fuel) h i =
    let p = (i - 1) / 2 in
    let rest = sift_up fuel (swap h i p) p in
    if i == 0 then h else if not (heap_less (ent h i) (ent h p)) then h else rest

unfoldable pub heap_push : List HeapEnt → HeapEnt → List HeapEnt
heap_push h e = sift_up (length h) (h ++ (e ∷ [])) (length h)

-- The smallest of `i` and its two children.
unfoldable pub smallest : List HeapEnt → ℕ → ℕ
smallest h i =
    let l = 2 * i + 1 in
    let r = l + 1 in
    let m = (if ltb l (length h) && heap_less (ent h l) (ent h i) then l else i) in
    if ltb r (length h) && heap_less (ent h r) (ent h m) then r else m

-- The `for (;;)`; each round goes to a larger index, so as many rounds as there are cells are enough.
unfoldable pub sift_down : ℕ → List HeapEnt → ℕ → List HeapEnt
sift_down zero h i = h
sift_down (suc fuel) h i =
    let m = smallest h i in let rest = sift_down fuel (swap h i m) m in if m == i then h else rest

-- The heap after the pop; the entry popped is `ent h 0`.
unfoldable pub heap_pop : List HeapEnt → List HeapEnt
heap_pop h = let hn = length h - 1 in sift_down hn (take hn (set h 0 (ent h hn))) 0
