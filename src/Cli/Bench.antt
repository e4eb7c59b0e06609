-- ===== src/Cli/Bench.antt =====
-- cli/main.c `bench_worker` and `cmd_bench`: the documents, dealt out to the threads. The threads share
-- the vocabulary and the text, which none of them writes, so a thread is the value it returns. The
-- clock and `pthread_create` are parameters: the speed that was measured in each round, and whether
-- all the threads of a round start.
pub mod Stride
pub mod Total
use bytepair.Base.{
  ℕ, zero, suc, ◌+◌, ◌-◌, ◌*◌, ltb, ◌==◌, if◌then◌else◌, Bool, true, false, not, ◌||◌,
}
use bytepair.Base.{Option, none, some, List, [], ◌∷◌, length, get_or, drop}
use bytepair.Context.{BpCtx}
use bytepair.Tables.{UcTables}
use bytepair.Vocab.{BpVocab}
use bytepair.Encode.{count, error, Reply, bp_count}
use bytepair.Loader.Open.{Host, negsuc, bp_ctx_new}
use bytepair.Cli.{Ran, failed_run}
use bytepair.Cli.Documents.{document_offsets, offsets_cap}

-- What the jobs share.
pub record BenchJob : Type 0 where
  pub v : BpVocab
  pub text : List ℕ
  pub doc_off : List ℕ
  pub ndocs : ℕ
  pub flags : ℕ

-- `j->text + j->doc_off[d]`, and the length of the document
unfoldable pub count_document : (ℕ → Bool) → UcTables → BenchJob → BpCtx → ℕ → Reply
count_document alloc u j c d =
    bp_count alloc u (some c) (some (drop (get_or j.doc_off d 0) j.text))
      (get_or j.doc_off (d + 1) 0 - get_or j.doc_off d 0) j.flags

-- The `for`; `d` rises in each round, so `ndocs` rounds are enough. `none` is the return value 1.
unfoldable pub worker_loop :
    (ℕ → Bool) → UcTables → BenchJob → ℕ → ℕ → ℕ → ℕ → Option BpCtx → Option ℕ
worker_loop alloc u j step zero d tokens c = some tokens
worker_loop alloc u j step (suc fuel) d tokens none = none
worker_loop alloc u j step (suc fuel) d tokens (some c) =
    let r = count_document alloc u j c d in
    let next : Option ℕ = elim r.code [
      | error e ↦ none
      | count n ↦ worker_loop alloc u j step fuel (d + step) (tokens + n) r.ctx
    ] in
    if ltb d j.ndocs then next else some tokens

-- The tokens of a thread, or `none` for its failure.
unfoldable pub bench_worker : Host → (ℕ → Bool) → UcTables → BenchJob → ℕ → ℕ → Option ℕ
bench_worker os alloc u j first step = elim (bp_ctx_new os (some j.v) (negsuc 0)) [
  | none ↦ none
  | some c ↦ worker_loop alloc u j step j.ndocs first 0 (some c)
]

-- The loop over `pthread_join`: the sum, and whether a thread failed.
pub record Joined : Type 0 where
  pub sum : ℕ
  pub failed : Bool

unfoldable pub join_loop : (ℕ → Option ℕ) → ℕ → ℕ → Joined → Joined
join_loop job zero t r = r
join_loop job (suc left) t r = elim (job t) [
  | none ↦ join_loop job left (t + 1) (record { sum = r.sum; failed = true })
  | some n ↦ join_loop job left (t + 1) (record r { sum = r.sum + n })
]

-- The rounds that are left; `speed` is what the clock says of each. `none` is an exit with 4.
unfoldable pub bench_rounds : (ℕ → Joined) → (ℕ → Bool) → (ℕ → ℕ) → ℕ → ℕ → ℕ → ℕ → Option ℕ
bench_rounds run starts speed zero round best tokens = some tokens
bench_rounds run starts speed (suc left) round best tokens =
    let r = run round in
    let faster = bench_rounds run starts speed left (round + 1) (speed round) r.sum in
    let slower = bench_rounds run starts speed left (round + 1) best tokens in
    if not (starts round) || r.failed
    then none
    else if ltb best (speed round)
    then faster
    else slower

-- `cmd_bench`, once the text is read: the tokens that it prints.
unfoldable pub cmd_bench :
    Host → (ℕ → Bool) → UcTables → BpVocab → List ℕ → ℕ → ℕ → (ℕ → Bool) → (ℕ → ℕ) → Ran
cmd_bench os alloc u v text threads flags starts speed =
    let off = document_offsets text in
    let j : BenchJob = record {
      v = v;
      text = text;
      doc_off = off;
      ndocs = length off - 1;
      flags = flags;
    } in
    let k = if ltb 256 threads then 256 else threads in
    let run : ℕ → Joined = λ round.
      join_loop (λ t. bench_worker os alloc u j t k) k 0 (record { sum = 0; failed = false }) in
    let timed : Ran = elim (bench_rounds run starts speed 3 0 0 0) [
      | none ↦ failed_run
      | some tokens ↦ record { printed = tokens ∷ []; exit = 0 }
    ] in
    if length text == 0
    then record { printed = []; exit = 2 }
    else if not (os.grants (offsets_cap (length text) * 8))
    then failed_run
    else timed
