-- ===== src/Bpe/Spec.antt =====
-- Byte-pair encoding as a relation: the pair of lowest rank merges, the leftmost on a tie, until
-- no pair of the sequence merges. It says nothing of how the pair is found.
use bytepair.Base.{ℕ, suc, ◌<◌, ◌≤◌, ◌==◌, if◌then◌else◌, List, get_or, length}
use bytepair.Base.{arith, ◌≡◌, ◌≢◌}
use native.Mathlib.Decide.{dec_lt}
use bytepair.Vocab.{BpVocab, pair_empty}
use bytepair.Vocab.Pairs.{bp_pair_lookup}
use bytepair.Bpe.{rank_bits, id_bits, no_rank, merge_at}

-- The rank of a pair; a pair that does not merge ranks behind all others.
unfoldable pub rank_of : BpVocab → ℕ → ℕ → ℕ
rank_of v x y =
    let val = bp_pair_lookup v x y in if val == pair_empty then no_rank else rank_bits val

unfoldable pub id_of : BpVocab → ℕ → ℕ → ℕ
id_of v x y = id_bits (bp_pair_lookup v x y)

abbrev pub rank_at : BpVocab → List ℕ → ℕ → ℕ
rank_at v ids i = rank_of v (get_or ids i 0) (get_or ids (suc i) 0)

-- The pair at `i` merges next.
pub record MergesAt (v : BpVocab) (ids : List ℕ) (i : ℕ) : Type 0 where
  pub inside : suc i < length ids
  pub ranked : rank_at v ids i < no_rank
  pub earlier : (j : ℕ) → j < i → rank_at v ids i < rank_at v ids j
  pub later : (j : ℕ) → i < j → suc j < length ids → rank_at v ids i ≤ rank_at v ids j

abbrev pub merged : BpVocab → List ℕ → ℕ → List ℕ
merged v ids i = merge_at ids i (id_of v (get_or ids i 0) (get_or ids (suc i) 0))

-- No pair merges any more.
abbrev pub IsMerged : BpVocab → List ℕ → Type 0
IsMerged v ids = (j : ℕ) → suc j < length ids → no_rank ≤ rank_at v ids j

pub data Encodes (v : BpVocab) : List ℕ → List ℕ → Type 0 where
  done : {ids : List ℕ} → IsMerged v ids → Encodes v ids ids
  merge :
      {ids out : List ℕ} (i : ℕ)
      → MergesAt v ids i
      → Encodes v (merged v ids i) out
      → Encodes v ids out

pub MergesAt-unique :
    {v : BpVocab} {ids : List ℕ} {i j : ℕ} → MergesAt v ids i → MergesAt v ids j → i ≡ j
MergesAt-unique {i} {j} p q = elim (dec_lt i j) [
  | yes lt ↦ absurd (omega (arith, q.earlier i lt, p.later j lt q.inside))
  | no ge ↦ elim (dec_lt j i) [
    | yes lt ↦ absurd (omega (arith, p.earlier j lt, q.later i lt p.inside))
    | no le ↦ omega arith
  ]
]

-- No merge has the rank 0xFFFFFFFF, at which the two-byte path and the others part.
pub record RanksProper (v : BpVocab) : Type 0 where
  pub proper :
      (x y : ℕ) → bp_pair_lookup v x y ≢ pair_empty → rank_bits (bp_pair_lookup v x y) < no_rank
