-- ===== src/Bpe/Heap/Down.antt =====
-- src/bp_bpe.c `heap_pop`: the loop that sinks the entry at the root.
use mathlib.Core.Logic.{◌≢◌}
use mathlib.Core.List.Perm
use bytepair.Base.{ℕ, zero, suc, ◌+◌, ◌*◌, ◌<◌, ◌==◌, ltb, ◌&&◌, if◌then◌else◌}
use bytepair.Base.{Bool-cases, List, length, arith, ◌≡◌, refl, inl, inr, ◌⊎◌}
use bytepair.Bpe.Heap.{HeapEnt, ent, heap_less, swap, smallest, sift_down}
use bytepair.Bpe.Heap.Order.{
  IsAtMost, IsBridged, Sifted, parent, IsAtMost-trans, IsAtMost-of_less, IsAtMost-refl, length-swap,
  ent-swap, swap-Perm,
}

-- Only the edges below `i` may be out of order.
pub record DownInv (h : List HeapEnt) (i : ℕ) : Type 0 where
  pub inside : i < length h
  pub edges : (c : ℕ) → 0 < c → c < length h → parent c ≢ i → IsAtMost (ent h (parent c)) (ent h c)
  pub bridged : IsBridged h i

-- `m` is `i` or a child of it, and goes before neither `i` nor a child.
record IsSmallest (h : List HeapEnt) (i m : ℕ) : Type 0 where
  inside : m < length h
  near : (m ≡ i) ⊎ ((m ≡ 2 * i + 1) ⊎ (m ≡ 2 * i + 2))
  at_most : IsAtMost (ent h m) (ent h i)
  least : (c : ℕ) → 0 < c → c < length h → parent c ≡ i → IsAtMost (ent h m) (ent h c)

-- The better of two indices, if the second one is inside.
pick : List HeapEnt → ℕ → ℕ → ℕ
pick h c m = if ltb c (length h) && heap_less (ent h c) (ent h m) then c else m

smallest-pick :
    (h : List HeapEnt) (i : ℕ) → smallest h i ≡ pick h (2 * i + 1 + 1) (pick h (2 * i + 1) i)
unfolding smallest pick
smallest-pick h i = refl

record Picked (h : List HeapEnt) (c m k : ℕ) : Type 0 where
  inside : k < length h
  near : (k ≡ m) ⊎ (k ≡ c)
  old : IsAtMost (ent h k) (ent h m)
  new : c < length h → IsAtMost (ent h k) (ent h c)

pick-Picked : (h : List HeapEnt) (c m : ℕ) → m < length h → Picked h c m (pick h c m)
unfolding pick
pick-Picked h c m p = elim (Bool-cases (ltb c (length h))) [
  | inr out ↦ rw out (record {
    inside = p;
    near = inl refl;
    old = IsAtMost-refl (ent h m);
    new = λ q. absurd (ground arith);
  })
  | inl inn ↦ elim (Bool-cases (heap_less (ent h c) (ent h m))) [
    | inl less ↦
        rw (inn, less)
          (record {
            inside = ground arith;
            near = inr refl;
            old = IsAtMost-of_less (ent h c) (ent h m) less;
            new = λ q. IsAtMost-refl (ent h c);
          })
    | inr keep ↦
        rw (inn, keep)
          (record { inside = p; near = inl refl; old = IsAtMost-refl (ent h m); new = λ q. keep })
  ]
]

smallest-IsSmallest : (h : List HeapEnt) (i : ℕ) → i < length h → IsSmallest h i (smallest h i)
smallest-IsSmallest h i p =
    let l = pick-Picked h (2 * i + 1) i p in
    let m₁ = pick h (2 * i + 1) i in
    let r = pick-Picked h (2 * i + 1 + 1) m₁ l.inside in
    let m₂ = pick h (2 * i + 1 + 1) m₁ in
    rw (smallest-pick h i) (record {
      inside = r.inside;
      near = omega (arith, l.near, r.near);
      at_most = IsAtMost-trans (ent h m₂) (ent h m₁) (ent h i) r.old l.old;
      least = λ c pos q e. elim (child c pos e) [
        | inl left ↦ rw left (
            IsAtMost-trans (ent h m₂) (ent h m₁) (ent h (2 * i + 1)) r.old
              (l.new (omega (arith, left))))
        | inr right ↦ rw right (r.new (omega (arith, right)))
      ];
    })
  where
    child : (c : ℕ) → 0 < c → parent c ≡ i → (c ≡ 2 * i + 1) ⊎ (c ≡ 2 * i + 1 + 1)
    child c pos e = omega arith

module _ (h : List HeapEnt) (i m : ℕ) (inv : DownInv h i) (s : IsSmallest h i m)
    (moved : m ≢ i) where
  swap-DownInv : DownInv (swap h i m) m
  swap-DownInv =
      let at = ent-swap h i m inv.inside s.inside in
      let size = length-swap h i m in
      record {
        inside = rw size s.inside;
        edges = λ c p q ne.
            ground (
              arith,
              at c,
              at (parent c),
              inv.edges c,
              inv.bridged m,
              s.least c,
              s.at_most,
              s.near,
            );
        bridged = λ c p q r t. ground (arith, at c, at (parent m), inv.edges c, s.near);
      }

pub sift_down-Sifted :
    (fuel : ℕ) (h : List HeapEnt) (i : ℕ)
    → length h < fuel + i + 1
    → DownInv h i
    → Sifted h (sift_down fuel h i)
unfolding sift_down
sift_down-Sifted zero h i f inv = absurd (omega (arith, inv.inside))
sift_down-Sifted (suc fuel) h i f inv =
    let s = smallest-IsSmallest h i inv.inside in
    elim (Bool-cases (smallest h i == i)) [
      | inl stays ↦ rw stays ((λ c p q. ground (arith, inv.edges c, s.least c), Perm.rfl))
      | inr moves ↦
          let moved : smallest h i ≢ i = ground arith in
          let down =
            sift_down-Sifted fuel (swap h i (smallest h i)) (smallest h i)
              (omega (arith, length-swap h i (smallest h i), s.near))
              (swap-DownInv h i (smallest h i) inv s moved) in
          rw moves ((down.0, Perm.trans down.1 (swap-Perm h i (smallest h i) inv.inside s.inside)))
    ]
