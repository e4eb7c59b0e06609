-- ===== src/Vocab/Pairs/Sound.antt =====
-- What a lookup that answers says of the table.
use native.Mathlib.Nat.{mod-lt, one-le-pow}
use bytepair.Base.{
  refl, or_disjoint, ◌*◌, ◌%◌, ℕ, zero, suc, ◌+◌, ◌-◌, ◌*◌, ◌^◌, ◌<◌, bit_and, and_mask, arith,
}
use bytepair.Base.{List, get_or, some, ◌==◌, Bool-cases, ==_iff}
use bytepair.Base.{◌≡◌, ◌≢◌, inl, inr}
use bytepair.Vocab.{BpVocab, pair_empty}
use bytepair.Vocab.Pairs.{probe, probe_pair, bp_pair_lookup, first_slot, pair_key, bp_fmix64}
use bytepair.Vocab.Pairs.Ends.{HasSpace, probe_pair_ends}

-- `val` stands beside `key` in a slot of the table.
pub record Holds (pairs : List ℕ) (slots key val : ℕ) : Type 0 where
  pub slot : ℕ
  pub inside : slot < slots
  pub at_key : get_or pairs (slot * 2) pair_empty ≡ key
  pub at_val : get_or pairs (slot * 2 + 1) pair_empty ≡ val

probe_found :
    (pairs : List ℕ) (log2 key fuel slot val : ℕ)
    → slot < 2 ^ log2
    → probe pairs (2 ^ log2 - 1) key fuel slot ≡ some val
    → val ≢ pair_empty
    → Holds pairs (2 ^ log2) key val
unfolding probe
probe_found pairs log2 key zero slot val h e ne = cc
probe_found pairs log2 key (suc fuel) slot val h e ne =
    elim (Bool-cases (get_or pairs (slot * 2) pair_empty == key)) [
      | inl hit ↦ record {
        slot = slot;
        inside = h;
        at_key = (==_iff _ _).0 hit;
        at_val = cc (rw hit at e);
      }
      | inr miss ↦ elim (Bool-cases (get_or pairs (slot * 2) pair_empty == pair_empty)) [
        | inl stop ↦ absurd (ne (cc (rw (miss, stop) at e)))
        | inr more ↦
            probe_found pairs log2 key fuel (bit_and (slot + 1) (2 ^ log2 - 1)) val
              (rw (and_mask log2 (slot + 1)) (mod-lt _ (one-le-pow log2 2 (omega arith))))
              (rw (miss, more) at e) ne
      ]
    ]

masked_found :
    (v : BpVocab) (key h val : ℕ) (space : HasSpace v)
    → probe v.pairs v.pair_mask key (suc v.pair_mask) (bit_and h v.pair_mask) ≡ some val
    → val ≢ pair_empty
    → Holds v.pairs (2 ^ space.log2) key val
masked_found v key h val space e ne =
    probe_found v.pairs space.log2 key (suc (2 ^ space.log2 - 1)) (bit_and h (2 ^ space.log2 - 1))
      val (rw (and_mask space.log2 h) (mod-lt h (one-le-pow space.log2 2 (omega arith))))
      (rw space.mask at e) ne

-- In a table with an empty slot, an answer other than `pair_empty` is the value stored beside
-- exactly the key asked for.
pub bp_pair_lookup_found :
    (v : BpVocab) (a b : ℕ) (space : HasSpace v)
    → bp_pair_lookup v a b ≢ pair_empty
    → Holds v.pairs (2 ^ space.log2) (pair_key a b) (bp_pair_lookup v a b)
unfolding probe_pair first_slot
bp_pair_lookup_found v a b space ne =
    masked_found v (pair_key a b) (bp_fmix64 (pair_key a b)) (bp_pair_lookup v a b) space
      (probe_pair_ends v a b space) ne

pub pair_key_lem : (x y : ℕ) → x < 2 ^ 32 → y < 2 ^ 32 → pair_key x y ≡ x * 2 ^ 32 + y
unfolding pair_key
pair_key_lem x y hx hy = rw small (or_disjoint 32 x (x * 2 ^ 32) y refl hy)
  where
    small : x * 2 ^ 32 % 2 ^ 64 ≡ x * 2 ^ 32
    small = omega arith
