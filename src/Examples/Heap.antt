-- ===== src/Examples/Heap.antt =====
-- Runs of the heap path, and the properties at them.
use mathlib.Core.List.{Perm}
use bytepair.Base.{ℕ, zero, suc, Bool, true, List, [], ◌∷◌, ◌++◌, arith, ◌≡◌, refl, inr}
use bytepair.Sink.Laws.{start-Holds}
use bytepair.Bpe.{merge_short}
use bytepair.Bpe.Heap.{HeapEnt, heap_less, heap_push, heap_pop}
use bytepair.Bpe.Heap.Order.{IsHeap}
use bytepair.Bpe.Heap.Laws.{Popped, heap_push-Sifted, heap_pop-Sifted}
use bytepair.Bpe.Long.{Node, finished, run_long, merge_nodes, collect}
use bytepair.Bpe.Long.Shrink.{Shrunk, merge_nodes-Shrunk}
use bytepair.Bpe.Long.Start.{start_nodes, start_range, start-Linked}
use bytepair.Bpe.Long.Encodes.{run_long-merge_short}
use bytepair.Bpe.Pretoken.{byte_ids, bp_bpe_pretoken}
use bytepair.Bpe.Pretoken.Cache.{Puts}
use bytepair.Bpe.Pretoken.Encodes.{bp_bpe_pretoken-Puts}
use bytepair.Samples.{hey, hey_ctx, hey-IsCached, hey-RanksProper}

abbrev plenty : ℕ → Bool
plenty n = true

abbrev copies : ℕ → List ℕ → List ℕ
copies zero p = []
copies (suc n) p = p ++ copies n p

-- "heyheyhey...", 66 bytes
abbrev long_word : List ℕ
long_word = copies 22 (104 ∷ 101 ∷ 121 ∷ [])

abbrev low : HeapEnt
low = record { rank = 1; pos = 4; gen = 0 }

abbrev mid : HeapEnt
mid = record { rank = 2; pos = 0; gen = 1 }

abbrev high : HeapEnt
high = record { rank = 2; pos = 3; gen = 0 }

abbrev three : List HeapEnt
three = low ∷ high ∷ mid ∷ []

three-IsHeap : IsHeap three
unfolding heap_less
three-IsHeap zero pos lt = absurd (omega arith)
three-IsHeap (suc zero) pos lt = refl
three-IsHeap (suc (suc zero)) pos lt = refl
three-IsHeap (suc (suc (suc c))) pos lt = absurd (omega arith)

heap_pop-Sifted_example : Popped three low (heap_pop three)
heap_pop-Sifted_example = heap_pop-Sifted three three-IsHeap (omega arith)

heap_push-Sifted_example : IsHeap (heap_push three low) × Perm (heap_push three low) (low ∷ three)
heap_push-Sifted_example = heap_push-Sifted three low three-IsHeap

merge_nodes-Shrunk_example :
    Shrunk
      (start_nodes hey long_word)
      (start_range hey long_word)
      0
      256
      (merge_nodes (start_nodes hey long_word) 0 1 256)
merge_nodes-Shrunk_example =
    merge_nodes-Shrunk (start-Linked hey long_word (omega arith) (omega arith)) 0 (omega arith) 256

run_long-merge_short_example :
    (nd : List Node) × (run_long hey long_word ≡ finished nd)
    × (collect 66 nd 0 ≡ merge_short hey (byte_ids hey long_word))
run_long-merge_short_example =
    run_long-merge_short hey long_word hey-RanksProper (omega arith) (omega arith)

bp_bpe_pretoken-Puts_example :
    Puts hey_ctx long_word
      (record { cells = []; room = 0 })
      []
      (bp_bpe_pretoken plenty hey_ctx long_word (record { out = []; cap = 0; total = 0 }))
bp_bpe_pretoken-Puts_example =
    bp_bpe_pretoken-Puts plenty hey_ctx long_word hey-IsCached hey-RanksProper
      (inr (λ n. refl, omega arith)) (start-Holds [] 0 (omega arith))
