-- ===== src/Cli/Bench/Total.antt =====
-- cli/main.c `cmd_bench`: the number of tokens that it prints.
use mathlib.Core.Path.{subst}
use native.Mathlib.Nat.{mul-suc}
use bytepair.Base.{ℕ, zero, suc, ◌+◌, ◌-◌, ◌*◌, ◌<◌, ◌≤◌, ltb, if◌then◌else◌, Bool, true, false}
use bytepair.Base.{Bool-cases, Option, some, List, [], ◌∷◌, length, get_or, take, drop, All}
use bytepair.Base.{
  All-take, All-drop, take_all, arith, ◌≡◌, refl, ap, sym, ◌∙◌, inl, inr, ltb→lt, lt→ltb,
}
use bytepair.Base.{ne→==}
use bytepair.Utf8.Laws.{IsByte}
use bytepair.Context.{BpCtx}
use bytepair.Tables.{UcTables, ClassesProper}
use bytepair.Vocab.{BpVocab}
use bytepair.Bpe.Spec.{RanksProper}
use bytepair.Bpe.Pretoken.Cache.{IsCached}
use bytepair.Encode.{bp_encode, bp_count}
use bytepair.Encode.Match.{AddedProper}
use bytepair.Encode.Rounds.{piece_ids, IsPieceServed, split}
use bytepair.Encode.Answer.{Counts, bp_count_pieces}
use bytepair.Loader.Open.{Host, negsuc, bp_ctx_new}
use bytepair.Loader.Session.{bp_ctx_new-IsNew}
use bytepair.Cli.Documents.{document_offsets, offsets_cap}
use bytepair.Cli.Bench.{
  BenchJob, count_document, worker_loop, bench_worker, Joined, join_loop, bench_rounds, cmd_bench,
}
use bytepair.Cli.Bench.Stride.{sum_from, stride, threads-all}

-- The bytes of a document, and the number of its ids.
abbrev pub document : BenchJob → ℕ → List ℕ
document j d =
    take (get_or j.doc_off (d + 1) 0 - get_or j.doc_off d 0) (drop (get_or j.doc_off d 0) j.text)

abbrev pub ids_in : UcTables → BenchJob → ℕ → ℕ
ids_in u j d = length (piece_ids u j.v (split j.v j.flags (document j d)))

count_front :
    (alloc : ℕ → Bool) (u : UcTables) (c : BpCtx) (s : List ℕ) (n flags : ℕ)
    → bp_count alloc u (some c) (some s) n flags
      ≡ bp_count alloc u (some c) (some (take n s)) (length (take n s)) flags
unfolding bp_count bp_encode
count_front alloc u c s n flags = rw (take_all (length (take n s)) (take n s) (omega arith)) refl

module _ (alloc : ℕ → Bool) (u : UcTables) (classes : ClassesProper u) (j : BenchJob)
    (ranks : RanksProper j.v) (proper : AddedProper j.v) (bytes : All IsByte j.text)
    (served : (d : ℕ)
      → d < j.ndocs
      → All (IsPieceServed alloc u j.v) (split j.v j.flags (document j d))) where
  count_document-Counts :
      (c : BpCtx) (d : ℕ)
      → d < j.ndocs
      → c.v ≡ j.v
      → IsCached c
      → Counts j.v (ids_in u j d) (count_document alloc u j c d)
  unfolding count_document
  count_document-Counts c d inside same cached =
      subst (Counts j.v (ids_in u j d))
        (sym (count_front alloc u c (drop (get_or j.doc_off d 0) j.text) _ j.flags))
        (subst
          (λ w.
            RanksProper w
            → AddedProper w
            → All (IsPieceServed alloc u w) (split w j.flags (document j d))
            → Counts w (length (piece_ids u w (split w j.flags (document j d))))
                (bp_count alloc u (some c) (some (document j d)) (length (document j d)) j.flags))
          same
          (λ r p s.
            bp_count_pieces alloc u classes c (document j d) j.flags
              (All-take IsByte _ (drop (get_or j.doc_off d 0) j.text)
                (All-drop IsByte (get_or j.doc_off d 0) j.text bytes))
              cached r p s)
          ranks proper (served d inside))

  worker_loop-stride :
      (step fuel d tokens : ℕ) (c : BpCtx)
      → c.v ≡ j.v
      → IsCached c
      → worker_loop alloc u j step fuel d tokens (some c)
        ≡ some (tokens + stride (ids_in u j) j.ndocs step fuel d)
  unfolding worker_loop stride
  worker_loop-stride step zero d tokens c same cached = ap some (omega arith)
  worker_loop-stride step (suc fuel) d tokens c same cached = elim (Bool-cases (ltb d j.ndocs)) [
    | inr out ↦ rw out (ap some (omega arith))
    | inl inside ↦
        let k = count_document-Counts c d (ltb→lt _ _ inside) same cached in
        rw (inside, k.counted, k.next_ctx)
          (worker_loop-stride step fuel (d + step) (tokens + ids_in u j d) k.next k.same_vocab
              k.still_cached
            ∙ ap some (omega arith))
  ]

abbrev joined : ℕ → Bool → Joined
joined sum failed = record { sum = sum; failed = failed }

join_loop-sum :
    (job : ℕ → Option ℕ) (g : ℕ → ℕ) (left t s : ℕ) (failed : Bool)
    → ((t : ℕ) → job t ≡ some (g t))
    → join_loop job left t (joined s failed) ≡ joined (s + sum_from g t left) failed
unfolding join_loop
join_loop-sum job g zero t s failed works = ap (λ x. joined x failed) {x = s} (omega arith)
join_loop-sum job g (suc left) t s failed works =
    rw (join_loop, works t)
      (join_loop-sum job g left (t + 1) (s + g t) failed works
        ∙ ap (λ x. joined x failed) {x = s + g t + sum_from g (t + 1) left} (omega arith))

-- Rounds that all come to the same sum, from the first that was timed on.
bench_rounds-same :
    (run : ℕ → Joined) (starts : ℕ → Bool) (speed : ℕ → ℕ) (s left round best : ℕ)
    → ((r : ℕ) → starts r ≡ true)
    → ((r : ℕ) → run r ≡ joined s false)
    → bench_rounds run starts speed left round best s ≡ some s
unfolding bench_rounds
bench_rounds-same run starts speed s zero round best start same = refl
bench_rounds-same run starts speed s (suc left) round best start same =
    elim (Bool-cases (ltb best (speed round))) [
      | inl faster ↦
          rw (bench_rounds, start round, same round, faster)
            (bench_rounds-same run starts speed s left (round + 1) (speed round) start same)
      | inr slower ↦
          rw (bench_rounds, start round, same round, slower)
            (bench_rounds-same run starts speed s left (round + 1) best start same)
    ]

bench_rounds-first :
    (run : ℕ → Joined) (starts : ℕ → Bool) (speed : ℕ → ℕ) (s left : ℕ)
    → ((r : ℕ) → starts r ≡ true)
    → ((r : ℕ) → run r ≡ joined s false)
    → 0 < speed 0
    → bench_rounds run starts speed (suc left) 0 0 0 ≡ some s
unfolding bench_rounds
bench_rounds-first run starts speed s left start same timed =
    rw (bench_rounds, start 0, same 0, lt→ltb 0 (speed 0) timed)
      (bench_rounds-same run starts speed s left (0 + 1) (speed 0) start same)

grows : (n k : ℕ) → 0 < k → n ≤ n * k
grows n zero pos = absurd (omega arith)
grows n (suc k) pos = omega (arith, mul-suc n k)

-- The jobs of a run of the bench.
abbrev pub jobs : BpVocab → List ℕ → ℕ → BenchJob
jobs v text flags =
    let off = document_offsets text in
    record { v = v; text = text; doc_off = off; ndocs = length off - 1; flags = flags }

module _ (os : Host) (alloc : ℕ → Bool) (u : UcTables) (classes : ClassesProper u) (v : BpVocab)
    (text : List ℕ) (flags : ℕ) (ranks : RanksProper v) (proper : AddedProper v)
    (bytes : All IsByte text)
    (served : (d : ℕ)
      → d < (jobs v text flags).ndocs
      → All (IsPieceServed alloc u v) (split v flags (document (jobs v text flags) d)))
    (c : BpCtx) (made : bp_ctx_new os (some v) (negsuc 0) ≡ some c) where
  abbrev j : BenchJob
  j = jobs v text flags

  bench_worker-stride :
      (first step : ℕ)
      → bench_worker os alloc u j first step ≡ some (stride (ids_in u j) j.ndocs step j.ndocs first)
  unfolding bench_worker
  bench_worker-stride first step =
      let n = bp_ctx_new-IsNew os v (negsuc 0) c made in
      rw (bench_worker, made)
        (worker_loop-stride alloc u classes j ranks proper bytes served step j.ndocs first 0 c
            n.same_vocab n.cached
          ∙ ap some (omega arith))

  -- For proper class tables, a vocabulary without merges of rank 0xFFFFFFFF and with proper
  -- added records, an input of bytes that is not empty and whose documents all have served
  -- pieces between its added tokens (kept by normalisation and with pretokens of at most 64
  -- bytes or, where every buffer is granted, any with pretokens of fewer than 2^31 bytes), a
  -- system that grants the array of offsets, makes the contexts, starts the threads and
  -- measures a positive speed in the first round: whatever the number of threads, as long as
  -- there is one, and whatever the other speeds, the bench exits with 0 and prints the sum of
  -- the numbers of ids of all the documents.
  pub cmd_bench-tokens :
      (threads : ℕ) (starts : ℕ → Bool) (speed : ℕ → ℕ)
      → 0 < length text
      → 0 < threads
      → ((r : ℕ) → starts r ≡ true)
      → 0 < speed 0
      → os.grants (offsets_cap (length text) * 8) ≡ true
      → cmd_bench os alloc u v text threads flags starts speed
        ≡ record { printed = sum_from (ids_in u j) 0 j.ndocs ∷ []; exit = 0 }
  unfolding cmd_bench
  cmd_bench-tokens threads starts speed some_text some_thread start timed granted =
      let k = if ltb 256 threads then 256 else threads in
      let enough : j.ndocs ≤ j.ndocs * k = grows j.ndocs k (ground arith) in
      let run : ℕ → Joined =
        λ round. join_loop (λ t. bench_worker os alloc u j t k) k 0 (joined 0 false) in
      let runs : (r : ℕ) → run r ≡ joined (sum_from (ids_in u j) 0 j.ndocs) false = λ r.
        join_loop-sum (λ t. bench_worker os alloc u j t k) (stride (ids_in u j) j.ndocs k j.ndocs) k
          0 0 false (λ t. bench_worker-stride t k)
        ∙ ap (λ x. joined x false)
            (omega (arith, threads-all (ids_in u j) j.ndocs k j.ndocs enough)) in
      rw
        (
          ne→== (length text) 0 (λ e. absurd (omega arith)),
          granted,
          bench_rounds-first run starts speed (sum_from (ids_in u j) 0 j.ndocs) 2 start runs timed,
        )
        refl
