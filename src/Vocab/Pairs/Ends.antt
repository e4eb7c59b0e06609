-- ===== src/Vocab/Pairs/Ends.antt =====
-- src/bp_internal.h `bp_pair_lookup`: the probe of a table with an empty slot.
use native.Mathlib.Nat.{mod-add-mod, mod-eq_of_lt, mod-eq-sub-mod, mod-lt, one-le-pow, add-zero}
use bytepair.Base.{ℕ, zero, suc, ◌+◌, ◌-◌, ◌*◌, ◌%◌, ◌^◌, ◌<◌, ◌≤◌, bit_and, and_mask, arith}
use bytepair.Base.{List, get_or, Option, none, some, ◌==◌, Bool-cases, leb, leb→le, leb→lt}
use bytepair.Base.{◌≡◌, refl, ◌∙◌, inl, inr, ==→ne, ◌≢◌}
use bytepair.Vocab.{BpVocab, pair_empty}
use bytepair.Vocab.Pairs.{
  probe, probe_pair, bp_pair_lookup, answer, first_slot, pair_key, bp_fmix64,
}

-- A power of two of slots, one of them empty: what the loader's load limit guarantees.
pub record HasSpace (v : BpVocab) : Type 0 where
  pub log2 : ℕ
  pub mask : v.pair_mask ≡ 2 ^ log2 - 1
  pub gap : ℕ
  pub gap_inside : gap < 2 ^ log2
  pub gap_empty : get_or v.pairs (gap * 2) pair_empty ≡ pair_empty

-- One round: a hit or an empty slot answers, and otherwise the probe goes on.
probe_round :
    (pairs : List ℕ) (mask key fuel slot : ℕ)
    → ((get_or pairs (slot * 2) pair_empty ≢ pair_empty)
        → (val : ℕ) × (probe pairs mask key fuel (bit_and (slot + 1) mask) ≡ some val))
    → (val : ℕ) × (probe pairs mask key (suc fuel) slot ≡ some val)
unfolding probe
probe_round pairs mask key fuel slot next =
    elim (Bool-cases (get_or pairs (slot * 2) pair_empty == key)) [
      | inl hit ↦ (get_or pairs (slot * 2 + 1) pair_empty, rw hit)
      | inr miss ↦ elim (Bool-cases (get_or pairs (slot * 2) pair_empty == pair_empty)) [
        | inl stop ↦ (pair_empty, rw (miss, stop))
        | inr more ↦ rw (miss, more) (next (==→ne _ _ more))
      ]
    ]

-- The distance to the gap falls by one in each round.
probe_ends :
    (pairs : List ℕ) (log2 gap key : ℕ)
    → get_or pairs (gap * 2) pair_empty ≡ pair_empty
    → (fuel d slot : ℕ) → slot < 2 ^ log2
    → (slot + d) % 2 ^ log2 ≡ gap
    → d < fuel
    → (val : ℕ) × (probe pairs (2 ^ log2 - 1) key fuel slot ≡ some val)
probe_ends pairs log2 gap key empty zero d slot inside to lt = absurd (omega arith)
probe_ends pairs log2 gap key empty (suc fuel) zero slot inside to lt =
    probe_round pairs _ key fuel slot (λ used. absurd (used (rw here empty)))
  where
    here : slot ≡ gap
    here = omega (arith, mod-eq_of_lt inside, rw add-zero at to)
probe_ends pairs log2 gap key empty (suc fuel) (suc d) slot inside to lt =
    probe_round pairs _ key fuel slot (λ used. rw (and_mask log2 (slot + 1)) (
      probe_ends pairs log2 gap key empty fuel d ((slot + 1) % 2 ^ log2)
        (mod-lt _ (one-le-pow log2 2 (omega arith))) (shift ∙ to) (omega arith)))
  where
    shift : ((slot + 1) % 2 ^ log2 + d) % 2 ^ log2 ≡ (slot + suc d) % 2 ^ log2
    shift = mod-add-mod (slot + 1) (2 ^ log2) d ∙ rw same
      where
        same : slot + 1 + d ≡ slot + suc d
        same = omega arith

distance : (n slot gap : ℕ) → slot < n → gap < n → (d : ℕ) × (d < n) × ((slot + d) % n ≡ gap)
distance n slot gap hs hg = elim (Bool-cases (leb slot gap)) [
  | inl e ↦ (gap - slot, omega arith, rw (ahead (leb→le _ _ e)) (mod-eq_of_lt hg))
  | inr e ↦ (gap + n - slot, omega (arith, leb→lt _ _ e), rw round (around))
]
  where
    ahead : slot ≤ gap → slot + (gap - slot) ≡ gap
    ahead h = omega arith

    round : slot + (gap + n - slot) ≡ gap + n
    round = omega arith

    around : (gap + n) % n ≡ gap
    around = mod-eq-sub-mod {n = gap + n} (omega arith) ∙ rw back (mod-eq_of_lt hg)
      where
        back : gap + n - n ≡ gap
        back = omega arith

some-answer : (o : Option ℕ) → (val : ℕ) × (o ≡ some val) → o ≡ some (answer o)
unfolding answer
some-answer none (val, e) = cc
some-answer (some x) e = refl

masked_ends :
    (v : BpVocab) (key h : ℕ)
    → HasSpace v
    → (val : ℕ) × (probe v.pairs v.pair_mask key (suc v.pair_mask) (bit_and h v.pair_mask)
        ≡ some val)
masked_ends v key h space =
    rw (space.mask, and_mask space.log2 h)
      (probe_ends v.pairs space.log2 space.gap key space.gap_empty (suc (2 ^ space.log2 - 1)) way.0
        (h % 2 ^ space.log2) start way.2 (omega (arith, way.1)))
  where
    start : h % 2 ^ space.log2 < 2 ^ space.log2
    start = mod-lt h (one-le-pow space.log2 2 (omega arith))

    way : (d : ℕ) × (d < 2 ^ space.log2) × ((h % 2 ^ space.log2 + d) % 2 ^ space.log2 ≡ space.gap)
    way = distance (2 ^ space.log2) (h % 2 ^ space.log2) space.gap start space.gap_inside

-- In a table with an empty slot every probe ends, from whatever slot the hash names, within as
-- many rounds as there are slots.
pub probe_pair_ends :
    (v : BpVocab) (a b : ℕ) → HasSpace v → probe_pair v a b ≡ some (bp_pair_lookup v a b)
unfolding probe_pair bp_pair_lookup first_slot
probe_pair_ends v a b space =
    some-answer _ (masked_ends v (pair_key a b) (bp_fmix64 (pair_key a b)) space)
