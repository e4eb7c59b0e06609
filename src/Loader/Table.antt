-- ===== src/Loader/Table.antt =====
-- src/bp_vocab.c: the check on the pair table, and what the probe may rely on behind it.
use bytepair.Base.{ℕ, zero, suc, ◌+◌, ◌-◌, ◌*◌, ◌/◌, ◌%◌, ◌^◌, ◌<◌, ◌≤◌}
use bytepair.Base.{true, Option, none, some}
use bytepair.Base.{
  List, [], ◌∷◌, length, get_or, arith, ◌≡◌, ◌≢◌, ◌⊎◌, refl, sym, ap, ◌∙◌, inl, inr,
}
use native.Mathlib.Nat.{one-le-pow}
use bytepair.Vocab.{BpvHeader, BpVocab, pair_empty}
use bytepair.Vocab.Pairs.{bp_pair_lookup, pair_key}
use bytepair.Vocab.Pairs.Ends.{HasSpace}
use bytepair.Vocab.Pairs.Sound.{Holds, bp_pair_lookup_found, pair_key_lem}
use bytepair.Bpe.Spec.{id_of}
use bytepair.Bpe.Bytes.{MergesInRange}
use bytepair.Loader.{slots_of}
use bytepair.Loader.Content.{count_slots, load_ok, table_ok}

-- A slot without a key.
pub record Gap (pairs : List ℕ) (slots : ℕ) : Type 0 where
  pub slot : ℕ
  pub inside : slot < slots
  pub empty : get_or pairs (slot * 2) pair_empty ≡ pair_empty

module _ (vocab_count : ℕ) where
  -- One slot: it is free, or it is in range and counts.
  count_slots_step :
      (key val : ℕ) (pairs : List ℕ) (occupied n : ℕ)
      → count_slots vocab_count (key ∷ val ∷ pairs) occupied ≡ some n
      → ((key ≡ pair_empty) × (count_slots vocab_count pairs occupied ≡ some n))
        ⊎ ((val % 2 ^ 32 < vocab_count) × (count_slots vocab_count pairs (occupied + 1) ≡ some n))
  unfolding count_slots
  count_slots_step key val pairs occupied n e = ground arith

  none_counted : (occupied n : ℕ) → count_slots vocab_count [] occupied ≡ some n → occupied ≡ n
  unfolding count_slots
  none_counted occupied n e = cc

  Gap-later :
      {key val slots : ℕ} {pairs : List ℕ} → Gap pairs slots → Gap (key ∷ val ∷ pairs) (suc slots)
  Gap-later {key} {val} {pairs = pairs} g = record {
    slot = suc g.slot;
    inside = omega (arith, g.inside);
    empty =
        ap (λ i. get_or (key ∷ val ∷ pairs) i pair_empty) {y = suc (suc (g.slot * 2))} (omega arith)
        ∙ g.empty;
  }

  -- A table of which fewer slots are counted than there are has a gap.
  count_slots-Gap :
      (pairs : List ℕ) (slots occupied n : ℕ)
      → length pairs ≡ slots * 2
      → count_slots vocab_count pairs occupied ≡ some n
      → n < occupied + slots
      → Gap pairs slots
  count_slots-Gap [] slots occupied n l e h = absurd (omega (arith, none_counted occupied n e))
  count_slots-Gap (key ∷ []) slots occupied n l e h = absurd (omega arith)
  count_slots-Gap (key ∷ val ∷ pairs) zero occupied n l e h = absurd (omega arith)
  count_slots-Gap (key ∷ val ∷ pairs) (suc slots) occupied n l e h =
      elim (count_slots_step key val pairs occupied n e) [
        | inl (free, rest) ↦ record { slot = 0; inside = omega arith; empty = free }
        | inr (good, rest) ↦
            Gap-later
              (count_slots-Gap pairs slots (occupied + 1) n (omega arith) rest (omega arith))
      ]

  -- Beside every key that is there stands an id of the vocabulary.
  count_slots-in_range :
      (pairs : List ℕ) (occupied n slot : ℕ)
      → count_slots vocab_count pairs occupied ≡ some n
      → slot * 2 + 1 < length pairs
      → get_or pairs (slot * 2) pair_empty ≢ pair_empty
      → get_or pairs (slot * 2 + 1) pair_empty % 2 ^ 32 < vocab_count
  count_slots-in_range [] occupied n slot e h ne = absurd (omega arith)
  count_slots-in_range (key ∷ []) occupied n slot e h ne = absurd (omega arith)
  count_slots-in_range (key ∷ val ∷ pairs) occupied n zero e h ne =
      elim (count_slots_step key val pairs occupied n e) [
        | inl (free, rest) ↦ absurd (ne free)
        | inr (good, rest) ↦ good
      ]
  count_slots-in_range (key ∷ val ∷ pairs) occupied n (suc slot) e h ne =
      let even : suc slot * 2 ≡ suc (suc (slot * 2)) = omega arith in
      let odd : suc slot * 2 + 1 ≡ suc (suc (slot * 2 + 1)) = omega arith in
      let there = rw even at ne in
      rw odd (elim (count_slots_step key val pairs occupied n e) [
        | inl (free, rest) ↦ count_slots-in_range pairs occupied n slot rest (omega arith) there
        | inr (good, rest) ↦
            count_slots-in_range pairs (occupied + 1) n slot rest (omega arith) there
      ])

-- What the check on the table guarantees.
pub record TableProper (h : BpvHeader) (pairs : List ℕ) : Type 0 where
  pub gap : Gap pairs (slots_of h)
  pub in_range :
      (slot : ℕ)
      → slot < slots_of h
      → get_or pairs (slot * 2) pair_empty ≢ pair_empty
      → get_or pairs (slot * 2 + 1) pair_empty % 2 ^ 32 < h.vocab_count

counted-TableProper :
    (h : BpvHeader) (pairs : List ℕ) (occupied : ℕ)
    → length pairs ≡ slots_of h * 2
    → count_slots h.vocab_count pairs 0 ≡ some occupied
    → occupied ≤ slots_of h * 13 / 20
    → TableProper h pairs
counted-TableProper h pairs occupied l e light =
    let some_slots : 1 ≤ slots_of h = one-le-pow h.pair_slots_log2 2 (omega arith) in
    record {
      gap = count_slots-Gap h.vocab_count pairs (slots_of h) 0 occupied l e (omega arith);
      in_range = λ slot inside key.
          count_slots-in_range h.vocab_count pairs 0 occupied slot e (omega arith) key;
    }

load_ok-TableProper :
    (h : BpvHeader) (pairs : List ℕ) (counted : Option ℕ)
    → length pairs ≡ slots_of h * 2
    → count_slots h.vocab_count pairs 0 ≡ counted
    → load_ok (slots_of h) counted ≡ true
    → TableProper h pairs
unfolding load_ok
load_ok-TableProper h pairs none l e ok = absurd (cc)
load_ok-TableProper h pairs (some occupied) l e ok =
    counted-TableProper h pairs occupied l e (ground arith)

pub table_ok-TableProper :
    (h : BpvHeader) (pairs : List ℕ)
    → length pairs ≡ slots_of h * 2
    → table_ok h pairs ≡ true
    → TableProper h pairs
unfolding table_ok
table_ok-TableProper h pairs l ok =
    load_ok-TableProper h pairs (count_slots h.vocab_count pairs 0) l refl ok

-- A vocabulary over such a table.
module _ (v : BpVocab) (proper : TableProper v.hdr v.pairs)
    (mask : v.pair_mask ≡ slots_of v.hdr - 1) (few : v.hdr.vocab_count ≤ 2 ^ 21) where
  abbrev pub table-HasSpace : HasSpace v
  table-HasSpace = record {
    log2 = v.hdr.pair_slots_log2;
    mask = mask;
    gap = proper.gap.slot;
    gap_inside = proper.gap.inside;
    gap_empty = proper.gap.empty;
  }

  stored_below :
      (x y : ℕ)
      → x < v.hdr.vocab_count
      → y < v.hdr.vocab_count
      → Holds v.pairs (slots_of v.hdr) (pair_key x y) (bp_pair_lookup v x y)
      → id_of v x y < v.hdr.vocab_count
  unfolding id_of
  stored_below x y hx hy h = rw (← h.at_val) (
      proper.in_range h.slot h.inside (λ e.
        absurd (omega (arith, sym h.at_key ∙ e, pair_key_lem x y (omega arith) (omega arith)))))

  pub table-MergesInRange : MergesInRange v
  table-MergesInRange = record {
    below =
        λ x y hx hy found. stored_below x y hx hy (bp_pair_lookup_found v x y table-HasSpace found);
  }
