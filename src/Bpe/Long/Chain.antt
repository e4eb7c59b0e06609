-- ===== src/Bpe/Long/Chain.antt =====
-- src/bp_bpe.c `merge_long`: the nodes reached along `next`, as the list of their positions.
use mathlib.Core.Logic.{◌≢◌}
use bytepair.Base.{ℕ, suc, ◌+◌, ◌-◌, ◌^◌, ◌<◌, ◌≤◌, ltb, if◌then◌else◌, none, some}
use native.Mathlib.Decide.{dec_lt, ℕ_discrete}
use mathlib.Core.Option.{some_inj}
use bytepair.Base.{List, map, length, arith, ◌≡◌, ap, ◌∙◌, sym}
use bytepair.Bpe.Long.{Node, node}
use bytepair.Bpe.Long.Positions.{at, without, length-without, at-without}
use bytepair.Bpe.Long.Unlink.{Unlinked}

abbrev pub ids_of : List Node → List ℕ → List ℕ
ids_of nd ps = map (λ p. (node nd p).id) ps

-- The positions of the nodes in their order, from 0 on; an `int32_t` holds every position.
pub record Linked (nd : List Node) (ps : List ℕ) : Type 0 where
  pub some_node : 0 < length ps
  pub fits : length nd ≤ 2 ^ 31
  pub start : at ps 0 ≡ 0
  pub ascending : (a b : ℕ) → a < b → b < length ps → at ps a < at ps b
  pub inside : (a : ℕ) → a < length ps → at ps a < length nd
  pub next : (a : ℕ) → suc a < length ps → (node nd (at ps a)).next ≡ some (at ps (suc a))
  pub last : (a : ℕ) → suc a ≡ length ps → (node nd (at ps a)).next ≡ none
  pub prev : (a : ℕ) → suc a < length ps → (node nd (at ps (suc a))).prev ≡ some (at ps a)
  pub first : (node nd 0).prev ≡ none
  pub live : (q r : ℕ) → (node nd q).next ≡ some r → (a : ℕ) × (suc a < length ps) × (at ps a ≡ q)

module _ {nd : List Node} {ps : List ℕ} (l : Linked nd ps) where
  pub at_inj : (a b : ℕ) → a < length ps → b < length ps → at ps a ≡ at ps b → a ≡ b
  at_inj a b p q e = ground (arith, l.ascending a b, l.ascending b a)

module _ {nd nd' : List Node} {ps : List ℕ} {k id : ℕ} (l : Linked nd ps) (h : suc k < length ps)
    (u : Unlinked nd (at ps k) (at ps (suc k)) id nd') where
  abbrev ps' : List ℕ
  ps' = without ps (suc k)

  abbrev i : ℕ
  i = at ps k

  abbrev j : ℕ
  j = at ps (suc k)

  low : (a : ℕ) → a < suc k → at ps' a ≡ at ps a
  low a lt = ground (arith, at-without ps (suc k) a)

  high : (a : ℕ) → suc k ≤ a → at ps' a ≡ at ps (suc a)
  high a le = ground (arith, at-without ps (suc k) a)

  size : length ps' + 1 ≡ length ps
  size = length-without ps (suc k) h

  -- The element of the chain that an element of the new one was.
  abbrev old_at : ℕ → ℕ
  old_at a = if ltb a (suc k) then a else suc a

  at_old : (a : ℕ) → at ps' a ≡ at ps (old_at a)
  at_old a = ground (arith, low a, high a)

  ne_i : (a : ℕ) → a < length ps → a ≢ k → at ps a ≢ i
  ne_i a lt ne e = ne (at_inj l a k lt (omega (arith, h)) e)

  ne_j : (a : ℕ) → a < length ps → a ≢ suc k → at ps a ≢ j
  ne_j a lt ne e = ne (at_inj l a (suc k) lt h e)

  far : (a : ℕ) → a < length ps → a ≢ suc (suc k) → (node nd j).next ≢ some (at ps a)
  far a lt ne e = elim (dec_lt (suc (suc k)) (length ps)) [
    | yes more ↦ ne (at_inj l a (suc (suc k)) lt more (some_inj.0 (cc (e, l.next (suc k) more))))
    | no end ↦ absurd (cc (e, l.last (suc k) (omega (arith, h))))
  ]

  new_next_at : (a : ℕ) → suc a < length ps' → (node nd' (at ps' a)).next ≡ some (at ps' (suc a))
  new_next_at a lt = elim (dec_lt a k) [
    | yes below ↦
        rw
          (
            low a (omega (arith, below)),
            low (suc a) (omega (arith, below)),
            u.next_kept (at ps a) (ne_i a (omega arith) (omega arith))
                (ne_j a (omega arith) (omega arith)),
          )
          (l.next a (omega (arith, h)))
    | no not_below ↦ elim (ℕ_discrete a k) [
      | yes e ↦
          rw (e, low k (omega arith), high (suc k) (omega arith), u.new_next)
            (l.next (suc k) (omega (arith, size)))
      | no above ↦
          rw
            (
              high a (omega arith),
              high (suc a) (omega arith),
              u.next_kept (at ps (suc a)) (ne_i (suc a) (omega (arith, size)) (omega arith))
                  (ne_j (suc a) (omega (arith, size)) (omega arith)),
            )
            (l.next (suc a) (omega (arith, size)))
    ]
  ]

  new_last_at : (a : ℕ) → suc a ≡ length ps' → (node nd' (at ps' a)).next ≡ none
  new_last_at a e = elim (ℕ_discrete a k) [
    | yes at_k ↦ rw (at_k, low k (omega arith), u.new_next) (l.last (suc k) (omega (arith, size)))
    | no above ↦
        rw
          (
            high a (omega (arith, size, h)),
            u.next_kept (at ps (suc a))
                (ne_i (suc a) (omega (arith, size, h)) (omega (arith, size, h)))
                (ne_j (suc a) (omega (arith, size, h)) (omega (arith, size, h))),
          )
          (l.last (suc a) (omega (arith, size)))
  ]

  new_prev_at : (a : ℕ) → suc a < length ps' → (node nd' (at ps' (suc a))).prev ≡ some (at ps' a)
  new_prev_at a lt = elim (dec_lt a k) [
    | yes below ↦
        rw
          (
            low a (omega (arith, below)),
            low (suc a) (omega (arith, below)),
            u.prev_kept (at ps (suc a)) (ne_j (suc a) (omega (arith, h)) (omega arith))
                (far (suc a) (omega (arith, h)) (omega arith)),
          )
          (l.prev a (omega (arith, h)))
    | no not_below ↦ elim (ℕ_discrete a k) [
      | yes e ↦
          rw (e, low k (omega arith), high (suc k) (omega arith))
            (u.behind (at ps (suc (suc k))) (l.next (suc k) (omega (arith, size))))
      | no above ↦
          rw
            (
              high a (omega arith),
              high (suc a) (omega arith),
              u.prev_kept (at ps (suc (suc a)))
                  (ne_j (suc (suc a)) (omega (arith, size)) (omega arith))
                  (far (suc (suc a)) (omega (arith, size)) (omega arith)),
            )
            (l.prev (suc a) (omega (arith, size)))
    ]
  ]

  new_first : (node nd' 0).prev ≡ none
  new_first =
      let off_j : 0 ≢ j = λ e. ne_j 0 (omega (arith, h)) (omega arith) (l.start ∙ e) in
      let away : (node nd j).next ≢ some 0 =
        λ e. far 0 (omega (arith, h)) (omega arith) (rw l.start e) in
      rw (u.prev_kept 0 off_j away) l.first

  stays :
      (b q : ℕ)
      → suc b < length ps
      → at ps b ≡ q
      → q ≢ i
      → q ≢ j
      → (a : ℕ) × (suc a < length ps') × (at ps' a ≡ q)
  stays b q lt same off_i off_j =
      let not_k : b ≢ k = λ e. off_i (cc (same, e)) in
      let not_next : b ≢ suc k = λ e. off_j (cc (same, e)) in
      elim (dec_lt b k) [
        | yes before ↦ (b, omega (arith, size, h), low b (omega arith) ∙ same)
        | no after ↦
            let back : suc (b - 1) ≡ b = omega arith in
            (b - 1, omega (arith, size), high (b - 1) (omega arith) ∙ ap (at ps) back ∙ same)
      ]

  new_live :
      (q r : ℕ) → (node nd' q).next ≡ some r → (a : ℕ) × (suc a < length ps') × (at ps' a ≡ q)
  new_live q r e = elim (ℕ_discrete q i) [
    | yes at_i ↦
        let e' : (node nd j).next ≡ some r = cc (u.new_next, e, at_i) in
        let (b, lt, same) = l.live j r e' in
        let b_eq : b ≡ suc k = at_inj l b (suc k) (omega arith) h same in
        (k, omega (arith, size), low k (omega arith) ∙ sym at_i)
    | no off_i ↦ elim (ℕ_discrete q j) [
      | yes at_j ↦ absurd (cc (at_j, u.dead, e))
      | no off_j ↦
          let (b, lt, same) = l.live q r (cc (u.next_kept q off_i off_j, e)) in
          stays b q lt same off_i off_j
    ]
  ]

  -- After an unlinking the nodes are linked as the list without the place.
  pub Unlinked-Linked : Linked nd' ps'
  Unlinked-Linked = record {
    some_node = omega (arith, size, h);
    fits = omega (arith, u.size, l.fits);
    start = low 0 (omega arith) ∙ l.start;
    ascending = λ a b lt in_b. ground (
      arith,
      low a,
      low b,
      high a,
      high b,
      l.ascending a b,
      l.ascending a (suc b),
      l.ascending (suc a) (suc b),
      size,
    );
    inside = λ a lt. ground (arith, low a, high a, l.inside a, l.inside (suc a), u.size, size);
    next = new_next_at;
    last = new_last_at;
    prev = new_prev_at;
    first = new_first;
    live = new_live;
  }
