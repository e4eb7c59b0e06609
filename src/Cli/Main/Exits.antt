-- ===== src/Cli/Main/Exits.antt =====
-- cli/main.c: the exit codes of the commands.
use mathlib.Core.Logic.{◌≢◌}
use bytepair.Base.{ℕ, ◌==◌, if◌then◌else◌, Bool, true, false, ltb, Bool-cases, none, some}
use bytepair.Base.{Option-cases, List, length, ◌*◌, ◌%◌, ◌^◌, arith, ◌≡◌, refl, inl, inr, ◌⊎◌}
use bytepair.Tables.{UcTables}
use bytepair.Vocab.{BpVocab}
use bytepair.Encode.{error, Error, Code, Reply, bp_encode, bp_count}
use bytepair.Encode
use bytepair.Loader.Open.{Host, bp_ctx_new, pos, negsuc}
use bytepair.Cli.{print_ids, after_count, text_command}
use bytepair.Cli.Others.{
  Number, read_ids, print_bytes, decode_ids, decode_command, census_args, census_command,
  witness_command,
}
use bytepair.Census.Report.{exit_code, bp_census_run, bp_census_witness}
use bytepair.Cli.Documents.{offsets_cap}
use bytepair.Base.{◌*◌}
use bytepair.Cli.Bench.{Joined, BenchJob, bench_worker, join_loop, bench_rounds, cmd_bench}
use bytepair.Cli.Bench.Total.{jobs}

Code-cases : (k : Code) → ((n : ℕ) × (k ≡ Encode.count n)) ⊎ ((e : Error) × (k ≡ error e))
Code-cases (Encode.count n) = inl (n, refl)
Code-cases (error e) = inr (e, refl)

pub zero_not : ◌≢◌ {A = ℕ} 0 3
zero_not e = absurd (omega (arith, e))

pub two_not : ◌≢◌ {A = ℕ} 2 3
two_not e = absurd (omega (arith, e))

pub four_not : ◌≢◌ {A = ℕ} 4 3
four_not e = absurd (omega (arith, e))

print_ids-exit : (n : ℕ) (r : Reply) → (print_ids n r).exit ≢ 3
unfolding print_ids
print_ids-exit n r = elim (Code-cases r.code) [
  | inr (e, k) ↦ rw (print_ids, k) four_not
  | inl (m, k) ↦ elim (Bool-cases (m == n)) [
    | inl same ↦ rw (print_ids, k, same) zero_not
    | inr other ↦ rw (print_ids, k, other) four_not
  ]
]

module _ (os : Host) (alloc : ℕ → Bool) (u : UcTables) (v : BpVocab) where
  after_count-exit :
      (only_count : Bool) (t : List ℕ) (flags : ℕ) (r : Reply)
      → (after_count os alloc u only_count t flags r).exit ≢ 3
  unfolding after_count
  after_count-exit true t flags r = elim (Code-cases r.code) [
    | inr (e, k) ↦ rw (after_count, k) four_not
    | inl (n, k) ↦ rw (after_count, k) zero_not
  ]
  after_count-exit false t flags r = elim (Code-cases r.code) [
    | inr (e, k) ↦ rw (after_count, k) four_not
    | inl (n, k) ↦ elim (Bool-cases (os.grants (n * 4))) [
      | inl granted ↦ rw (after_count, k, granted) (print_ids-exit n _)
      | inr missing ↦ rw (after_count, k, missing) four_not
    ]
  ]

  pub text_command-exit :
      (only_count : Bool) (t : List ℕ) (flags : ℕ)
      → (text_command os alloc u v only_count t flags).exit ≢ 3
  unfolding text_command
  text_command-exit only_count t flags = elim (Option-cases (bp_ctx_new os (some v) (negsuc 0))) [
    | inl none_made ↦ rw (text_command, none_made) four_not
    | inr (c, made) ↦ rw (text_command, made) (after_count-exit only_count t flags _)
  ]

  print_bytes-exit : (ids : List ℕ) (flags : ℕ) (r : Reply) → (print_bytes os ids flags r).exit ≢ 3
  unfolding print_bytes
  print_bytes-exit ids flags r = elim (Code-cases r.code) [
    | inr (e, k) ↦ rw (print_bytes, k) four_not
    | inl (n, k) ↦ elim (Bool-cases (os.grants n)) [
      | inl granted ↦ rw (print_bytes, k, granted) zero_not
      | inr missing ↦ rw (print_bytes, k, missing) four_not
    ]
  ]

  decode_ids-exit : (flags : ℕ) (ids : List ℕ) → (decode_ids os v flags ids).exit ≢ 3
  unfolding decode_ids
  decode_ids-exit flags ids = elim (Option-cases (bp_ctx_new os (some v) (pos 0))) [
    | inl none_made ↦ rw (decode_ids, none_made) four_not
    | inr (c, made) ↦ rw (decode_ids, made) (print_bytes-exit ids flags _)
  ]

  pub decode_command-exit :
      (strtoull : List ℕ → Number) (s : List ℕ) (flags : ℕ)
      → (decode_command os strtoull v s flags).exit ≢ 3
  unfolding decode_command
  decode_command-exit strtoull s flags = elim (Bool-cases (os.grants 4096)) [
    | inr missing ↦ rw (decode_command, missing) four_not
    | inl granted ↦ elim (Option-cases (read_ids os.grants strtoull (length s) 1024 0 s)) [
      | inl bad ↦ rw (decode_command, granted, bad) four_not
      | inr (ids, read) ↦ rw (decode_command, granted, read) (decode_ids-exit flags ids)
    ]
  ]

  pub witness_command-exit :
      (strtoul : List ℕ → ℕ) (a : List ℕ) → witness_command os alloc u strtoul v a ≢ 3
  unfolding witness_command
  witness_command-exit strtoul a = elim (Option-cases (bp_ctx_new os (some v) (negsuc 0))) [
    | inl none_made ↦ rw (witness_command, none_made) four_not
    | inr (c, made) ↦ elim (Option-cases (bp_census_witness alloc u v c (strtoul a % 2 ^ 32))) [
      | inl bad ↦ rw (witness_command, made, bad) four_not
      | inr (s, good) ↦ rw (witness_command, made, good) zero_not
    ]
  ]

  pub census_command-exit :
      (opens : List ℕ → Bool) (strtoul : List ℕ → ℕ) (args : List (List ℕ))
      → census_command os alloc u opens strtoul v args ≢ 3
  unfolding census_command
  census_command-exit opens strtoul args =
      elim (Option-cases
        (census_args opens strtoul (record { json = none; deep = false; limit = 0 }) args)) [
          | inl closed ↦ rw (census_command, closed) two_not
          | inr (s, read) ↦ elim (Option-cases (bp_ctx_new os (some v) (negsuc 0))) [
            | inl none_made ↦ rw (census_command, read, none_made) four_not
            | inr (c, made) ↦
                elim (Bool-cases (exit_code (bp_census_run alloc u v c s.deep s.limit) == 0)) [
                  | inl good ↦ rw (census_command, read, made, good) zero_not
                  | inr bad ↦ rw (census_command, read, made, bad) four_not
                ]
          ]
        ]

  pub cmd_bench-exit :
      (text : List ℕ) (threads flags : ℕ) (starts : ℕ → Bool) (speed : ℕ → ℕ)
      → (cmd_bench os alloc u v text threads flags starts speed).exit ≢ 3
  unfolding cmd_bench
  cmd_bench-exit text threads flags starts speed = elim (Bool-cases (length text == 0)) [
    | inl empty ↦ rw (cmd_bench, empty) two_not
    | inr some_text ↦
        let k = if ltb 256 threads then 256 else threads in
        let j : BenchJob = jobs v text flags in
        let run : ℕ → Joined = λ round.
          join_loop (λ t. bench_worker os alloc u j t k) k 0 (record { sum = 0; failed = false }) in
        elim (Bool-cases (os.grants (offsets_cap (length text) * 8))) [
          | inr refused ↦ rw (cmd_bench, some_text, refused) four_not
          | inl granted ↦ elim (Option-cases (bench_rounds run starts speed 3 0 0 0)) [
            | inl bad ↦ rw (cmd_bench, some_text, granted, bad) four_not
            | inr (n, good) ↦ rw (cmd_bench, some_text, granted, good) zero_not
          ]
        ]
  ]
