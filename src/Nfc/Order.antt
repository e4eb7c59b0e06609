-- ===== src/Nfc/Order.antt =====
-- src/bp_nfc.c: the insertion sort of the canonical ordering.
use mathlib.Core.List.{reverse_aux}
use bytepair.Base.{◌<◌, ◌≤◌, ltb, ◌==◌, Bool-cases, List, [], ◌∷◌, arith, ◌≡◌, ◌⊎◌, inl, inr}
use bytepair.Base.{==_iff, ltb→lt, ltb→le}
use bytepair.Nfc.{Cpe, insert_back, order_loop, canonical_order}

-- `x` may stand in front of `y`: `y` starts a run, or its class is not the smaller one.
abbrev pub Before : Cpe → Cpe → Type 0
Before x y = (y.ccc ≡ 0) ⊎ (x.ccc ≤ y.ccc)

-- `x` may stand in front of the first entry.
abbrev pub Leads : Cpe → List Cpe → Type 0
Leads x [] = Unit
Leads x (y ∷ ys) = Before x y

-- Neighbours are in order all along the list.
abbrev pub IsOrdered : List Cpe → Type 0
IsOrdered [] = Unit
IsOrdered (x ∷ xs) = Leads x xs × IsOrdered xs

-- The same with the nearest entry first.
abbrev Follows : List Cpe → Cpe → Type 0
Follows [] x = Unit
Follows (y ∷ ys) x = Before y x

abbrev IsFront : List Cpe → Type 0
IsFront [] = Unit
IsFront (x ∷ xs) = Follows xs x × IsFront xs

insert_back-Follows :
    (t x : Cpe) (front : List Cpe) → Before t x → Follows front x → Follows (insert_back t front) x
unfolding insert_back
insert_back-Follows t x [] b f = b
insert_back-Follows t x (y ∷ front) b f = elim (Bool-cases (ltb t.ccc y.ccc)) [
  | inl e ↦ rw e f
  | inr e ↦ rw e b
]

insert_back-IsFront : (t : Cpe) (front : List Cpe) → IsFront front → IsFront (insert_back t front)
unfolding insert_back
insert_back-IsFront t [] h = (tt, tt)
insert_back-IsFront t (x ∷ front) (f, h) = elim (Bool-cases (ltb t.ccc x.ccc)) [
  | inl e ↦ rw e (
    insert_back-Follows t x front (inr (omega (arith, ltb→lt _ _ e))) f,
    insert_back-IsFront t front h,
  )
  | inr e ↦ rw e (inr (ltb→le _ _ e), (f, h))
]

starts_run : (t : Cpe) (front : List Cpe) → t.ccc ≡ 0 → Follows front t
starts_run t [] e = tt
starts_run t (y ∷ front) e = inl e

abbrev Joins : List Cpe → List Cpe → Type 0
Joins front [] = Unit
Joins front (x ∷ acc) = Follows front x

Joins-Leads : (x : Cpe) (front acc : List Cpe) → Joins (x ∷ front) acc → Leads x acc
Joins-Leads x front [] j = tt
Joins-Leads x front (y ∷ acc) j = j

reverse_aux-IsOrdered :
    (front acc : List Cpe)
    → IsFront front
    → IsOrdered acc
    → Joins front acc
    → IsOrdered (reverse_aux front acc)
reverse_aux-IsOrdered [] acc h k j = k
reverse_aux-IsOrdered (x ∷ front) acc (f, h) k j =
    reverse_aux-IsOrdered front (x ∷ acc) h (Joins-Leads x front acc j, k) f

order_loop-IsOrdered : (front buf : List Cpe) → IsFront front → IsOrdered (order_loop front buf)
unfolding order_loop
order_loop-IsOrdered front [] h = reverse_aux-IsOrdered front [] h tt tt
order_loop-IsOrdered front (t ∷ buf) h = elim (Bool-cases (t.ccc == 0)) [
  | inl e ↦ rw e (order_loop-IsOrdered (t ∷ front) buf (starts_run t front ((==_iff _ _).0 e), h))
  | inr e ↦ rw e (order_loop-IsOrdered (insert_back t front) buf (insert_back-IsFront t front h))
]

-- The canonical reordering of the Unicode standard: neighbours change places where both have a class
-- and the first has the greater one.
pub data Reorders : List Cpe → List Cpe → Type 0 where
  same : {xs : List Cpe} → Reorders xs xs
  exchange :
      {x y : Cpe} {xs : List Cpe} → 0 < y.ccc → y.ccc < x.ccc → Reorders (x ∷ y ∷ xs) (y ∷ x ∷ xs)
  under : {x : Cpe} {xs ys : List Cpe} → Reorders xs ys → Reorders (x ∷ xs) (x ∷ ys)
  chain : {xs ys zs : List Cpe} → Reorders xs ys → Reorders ys zs → Reorders xs zs

reverse_aux-Reorders :
    (front : List Cpe) {xs ys : List Cpe}
    → Reorders xs ys
    → Reorders (reverse_aux front xs) (reverse_aux front ys)
reverse_aux-Reorders [] r = r
reverse_aux-Reorders (x ∷ front) r = reverse_aux-Reorders front (under r)

insert_back-Reorders :
    (t : Cpe) (front acc : List Cpe)
    → 0 < t.ccc
    → Reorders (reverse_aux front (t ∷ acc)) (reverse_aux (insert_back t front) acc)
unfolding insert_back
insert_back-Reorders t [] acc mark = same
insert_back-Reorders t (x ∷ front) acc mark = elim (Bool-cases (ltb t.ccc x.ccc)) [
  | inl e ↦ rw e (
      chain (reverse_aux-Reorders front (exchange mark (ltb→lt _ _ e)))
        (insert_back-Reorders t front (x ∷ acc) mark))
  | inr e ↦ rw e same
]

order_loop-Reorders :
    (front buf : List Cpe) → Reorders (reverse_aux front buf) (order_loop front buf)
unfolding order_loop
order_loop-Reorders front [] = same
order_loop-Reorders front (t ∷ buf) = elim (Bool-cases (t.ccc == 0)) [
  | inl e ↦ rw e (order_loop-Reorders (t ∷ front) buf)
  | inr e ↦ rw e (
      chain (insert_back-Reorders t front buf (ground arith))
        (order_loop-Reorders (insert_back t front) buf))
]

-- The insertion sort of the normaliser gives the canonical ordering of the Unicode standard: its
-- result comes from the entries by exchanges of neighbours that both have a class, the first a
-- greater one, and no two neighbours are left that could be exchanged.
pub canonical_order-IsOrdered :
    (buf : List Cpe) → IsOrdered (canonical_order buf) × Reorders buf (canonical_order buf)
unfolding canonical_order
canonical_order-IsOrdered buf = (order_loop-IsOrdered [] buf tt, order_loop-Reorders [] buf)
