-- ===== src/Bpe/Long/Encodes.antt =====
-- src/bp_bpe.c `merge_long`: from the bytes to the ids, against the specification.
use bytepair.Base.{ℕ, ◌-◌, ◌^◌, ◌<◌, List, [], length, arith, ◌≡◌}
use bytepair.Vocab.{BpVocab}
use bytepair.Bpe.Spec.{RanksProper}
use bytepair.Bpe.{merge_short}
use bytepair.Bpe.Short.{merge_short_unique}
use bytepair.Bpe.Pretoken.{byte_ids}
use bytepair.Bpe.Long.{Node, run_long, finished, seed_heap, collect}
use bytepair.Bpe.Long.Start.{start_nodes, start_range, start-ids, length-range}
use bytepair.Bpe.Long.Seed.{start-LongInv}
use bytepair.Bpe.Long.Ends.{Finishes, long_loop-Finishes}

-- The heap path on the nodes of the bytes ends, with an encoding of their ids.
pub run_long-Finishes :
    (v : BpVocab) (p : List ℕ)
    → RanksProper v
    → length p < 2 ^ 31
    → 0 < length p
    → Finishes v (length p) (byte_ids v p) (run_long v p)
unfolding run_long
run_long-Finishes v p ranks small pos =
    let inv = start-LongInv v p small pos in
    rw (← start-ids v p small) (
      long_loop-Finishes v (length p) ranks _ (start_nodes v p)
        (seed_heap v (start_nodes v p) (length p - 1) 0 []) (start_range v p) inv
        (omega (arith, inv.room, length-range 0 (length p))))

-- For a vocabulary without merges of rank 0xFFFFFFFF and a pretoken of at least one byte and
-- fewer than 2^31, so that its links fit an `int32_t`, the heap path ends with its heap empty,
-- within its rounds and its memory, and the ids along its list are those that `merge_short` makes
-- of the ids of the bytes.
pub run_long-merge_short :
    (v : BpVocab) (p : List ℕ)
    → RanksProper v
    → length p < 2 ^ 31
    → 0 < length p
    → (nd : List Node) × (run_long v p ≡ finished nd)
      × (collect (length p) nd 0 ≡ merge_short v (byte_ids v p))
run_long-merge_short v p ranks small pos =
    let f = run_long-Finishes v p ranks small pos in
    (f.nodes, f.ends, merge_short_unique v (byte_ids v p) (collect (length p) f.nodes 0) f.right)
