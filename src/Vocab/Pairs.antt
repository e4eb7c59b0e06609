-- ===== src/Vocab/Pairs.antt =====
-- src/bp_internal.h `bp_fmix64` and `bp_pair_lookup`: the open-addressing table of merges.
pub mod Ends
pub mod Sound
use bytepair.Base.{ℕ, zero, suc, ◌+◌, ◌*◌, ◌/◌, ◌%◌, ◌^◌, bit_and, bit_or, bit_xor}
use bytepair.Base.{List, get_or, Option, none, some, ◌==◌, if◌then◌else◌}
use bytepair.Vocab.{BpVocab, pair_empty}

-- `h ^= h >> 33`
abbrev xor_high : ℕ → ℕ
xor_high h = bit_xor h (h / 2 ^ 33)

-- The products wrap at 64 bits.
unfoldable pub bp_fmix64 : ℕ → ℕ
bp_fmix64 h =
    let h₁ = xor_high h * 0xff51afd7ed558ccd % 2 ^ 64 in
    let h₂ = xor_high h₁ * 0xc4ceb9fe1a85ec53 % 2 ^ 64 in xor_high h₂

-- The `for (;;)`, on fuel: `none` is a probe that did not end in that many rounds.
unfoldable pub probe : List ℕ → ℕ → ℕ → ℕ → ℕ → Option ℕ
probe pairs mask key zero slot = none
probe pairs mask key (suc fuel) slot =
    let k = get_or pairs (slot * 2) pair_empty in
    let rest = probe pairs mask key fuel (bit_and (slot + 1) mask) in
    if k == key
    then some (get_or pairs (slot * 2 + 1) pair_empty)
    else if k == pair_empty
    then some pair_empty
    else rest

-- `((uint64_t)a << 32) | b`
unfoldable pub pair_key : ℕ → ℕ → ℕ
pair_key a b = bit_or (a * 2 ^ 32 % 2 ^ 64) b

unfoldable pub first_slot : BpVocab → ℕ → ℕ
first_slot v key = bit_and (bp_fmix64 key) v.pair_mask

-- As many rounds as the table has slots.
unfoldable pub probe_pair : BpVocab → ℕ → ℕ → Option ℕ
probe_pair v a b =
    let key = pair_key a b in probe v.pairs v.pair_mask key (suc v.pair_mask) (first_slot v key)

unfoldable pub answer : Option ℕ → ℕ
answer none = pair_empty
answer (some val) = val

unfoldable pub bp_pair_lookup : BpVocab → ℕ → ℕ → ℕ
bp_pair_lookup v a b = answer (probe_pair v a b)
