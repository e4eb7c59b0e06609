-- ===== src/Bpe.antt =====
-- src/bp_bpe.c: the merge of one pretoken. This file is the short path, `merge_short`.
-- The array `ids[0..n)` is a list, and `n` its length.
pub mod Spec
pub mod Stretch
pub mod Boundary
pub mod Search
pub mod Short
pub mod Bytes
pub mod Heap
pub mod Long
pub mod Pretoken
use bytepair.Base.{ℕ, zero, suc, ◌+◌, ◌/◌, ◌%◌, ◌^◌, ltb, ◌==◌, if◌then◌else◌}
use bytepair.Base.{List, [], ◌∷◌, ◌++◌, length, take, drop}
use bytepair.Vocab.{BpVocab, pair_empty}
use bytepair.Vocab.Pairs.{bp_pair_lookup}

-- `(uint32_t)(val >> 32)` and `(uint32_t)val`
abbrev pub rank_bits : ℕ → ℕ
rank_bits val = val / 2 ^ 32 % 2 ^ 32

abbrev pub id_bits : ℕ → ℕ
id_bits val = val % 2 ^ 32

-- `best_rank`, `best_id`, `best_at`
pub record Best : Type 0 where
  pub rank : ℕ
  pub id : ℕ
  pub at : ℕ

abbrev pub no_rank : ℕ
no_rank = 0xFFFFFFFF

-- One round of the `for`, on the pair at `i`.
unfoldable pub better : BpVocab → ℕ → ℕ → ℕ → Best → Best
better v i x y best =
    let val = bp_pair_lookup v x y in
    if val == pair_empty
    then best
    else if ltb (rank_bits val) best.rank
    then record { rank = rank_bits val; id = id_bits val; at = i }
    else best

-- The list is `ids + i` up to the end.
unfoldable pub scan_best : BpVocab → ℕ → List ℕ → Best → Best
scan_best v i [] best = best
scan_best v i (x ∷ []) best = best
scan_best v i (x ∷ y ∷ ids) best = scan_best v (suc i) (y ∷ ids) (better v i x y best)

unfoldable pub find_best : BpVocab → List ℕ → Best
find_best v ids = scan_best v 0 ids (record { rank = no_rank; id = 0; at = length ids })

-- `ids[at] = id`, and the `memmove` that closes the gap.
unfoldable pub merge_at : List ℕ → ℕ → ℕ → List ℕ
merge_at ids at id = take at ids ++ (id ∷ drop (at + 2) ids)

-- The `while (n >= 2)`: each round makes the list shorter by one.
unfoldable pub merge_loop : BpVocab → ℕ → List ℕ → List ℕ
merge_loop v zero ids = ids
merge_loop v (suc fuel) ids =
    let best = find_best v ids in
    let rest = merge_loop v fuel (merge_at ids best.at best.id) in
    if ltb (length ids) 2 then ids else if best.at == length ids then ids else rest

unfoldable pub merge_short : BpVocab → List ℕ → List ℕ
merge_short v ids = merge_loop v (length ids) ids
