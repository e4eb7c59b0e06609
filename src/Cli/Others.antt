-- ===== src/Cli/Others.antt =====
-- cli/main.c: the commands `decode`, `census` and `witness`, and the printing of the name. What `strtoull`
-- and `strtoul` read is a parameter, and so is whether a file opens for writing.
use bytepair.Base.{ℕ, zero, suc, ◌*◌, ◌/◌, ◌%◌, ◌^◌, ◌+◌, ltb, ◌==◌, if◌then◌else◌, zeros}
use bytepair.Base.{
  Bool, true, false, ◌||◌, not, Option, none, some, List, [], ◌∷◌, length, take, drop,
}
use bytepair.Tables.{UcTables}
use bytepair.Vocab.{BpVocab}
use bytepair.Bpe.Pretoken.{same_bytes}
use bytepair.Encode.{count, error, Reply, block_of}
use bytepair.Decode.{bp_decode}
use bytepair.Loader.Open.{Host, pos, negsuc, bp_ctx_new}
use bytepair.Census.Report.{bp_census_run, exit_code, bp_census_witness}
use bytepair.Cli.{Ran, failed_run}

-- The number at the front and the bytes that it takes, 0 where there is none.
pub record Number : Type 0 where
  pub val : ℕ
  pub used : ℕ

abbrev put_id : ℕ → Option (List ℕ) → Option (List ℕ)
put_id id none = none
put_id id (some ids) = some (id ∷ ids)

-- The `while (s < end)`, where a round takes a byte at least. `none` is an exit with 4: a number out of
-- range, or an array that cannot grow.
unfoldable pub read_ids : (ℕ → Bool) → (List ℕ → Number) → ℕ → ℕ → ℕ → List ℕ → Option (List ℕ)
read_ids grants strtoull zero cap n s = some []
read_ids grants strtoull (suc fuel) cap n s =
    let x = strtoull s in
    let cap' = if n == cap then cap * 2 else cap in
    let skipped = read_ids grants strtoull fuel cap n (drop 1 s) in
    let rest = read_ids grants strtoull fuel cap' (n + 1) (drop x.used s) in
    if length s == 0
    then some []
    else if x.used == 0
    then skipped
    else if ltb 0xFFFFFFFF x.val
    then none
    else if n == cap
    then (if grants (cap * 2 * 4) then put_id x.val rest else none)
    else put_id x.val rest

-- The second call, into a block of the length that the first one answered.
unfoldable pub print_bytes : Host → List ℕ → ℕ → Reply → Ran
print_bytes os ids flags r = elim r.code [
  | error e ↦ failed_run
  | count n ↦ if not (os.grants n) then failed_run else record {
    printed =
        take n (block_of (bp_decode r.ctx (some ids) (length ids) (some (zeros n)) n flags).out);
    exit = 0;
  }
]

unfoldable pub decode_ids : Host → BpVocab → ℕ → List ℕ → Ran
decode_ids os v flags ids = elim (bp_ctx_new os (some v) (pos 0)) [
  | none ↦ failed_run
  | some c ↦ print_bytes os ids flags (bp_decode (some c) (some ids) (length ids) none 0 flags)
]

-- `decode`, once the text is read.
unfoldable pub decode_command : Host → (List ℕ → Number) → BpVocab → List ℕ → ℕ → Ran
decode_command os strtoull v s flags =
    let read : Ran = elim (read_ids os.grants strtoull (length s) 1024 0 s) [
      | none ↦ failed_run
      | some ids ↦ decode_ids os v flags ids
    ] in
    if not (os.grants 4096) then failed_run else read

abbrev pub deep_flag : List ℕ
deep_flag = b'-' ∷ b'-' ∷ b'd' ∷ b'e' ∷ b'e' ∷ b'p' ∷ []

abbrev pub limit_flag : List ℕ
limit_flag = b'-' ∷ b'-' ∷ b'l' ∷ b'i' ∷ b'm' ∷ b'i' ∷ b't' ∷ []

pub record CensusArgs : Type 0 where
  pub json : Option (List ℕ)
  pub deep : Bool
  pub limit : ℕ

-- The file of the report, where none is open; `none` is a file that does not open.
unfoldable pub take_json : (List ℕ → Bool) → CensusArgs → List ℕ → Option CensusArgs
take_json opens s a = elim s.json [
  | some path ↦ some s
  | none ↦ if opens a then some (record s { json = some a }) else none
]

-- The loop over `argv` from 3 on.
unfoldable pub census_args :
    (List ℕ → Bool) → (List ℕ → ℕ) → CensusArgs → List (List ℕ) → Option CensusArgs
census_args opens strtoul s [] = some s
census_args opens strtoul s (a ∷ []) =
    if same_bytes a deep_flag then some (record s { deep = true }) else take_json opens s a
census_args opens strtoul s (a ∷ b ∷ args) =
    let limited = census_args opens strtoul (record s { limit = strtoul b % 2 ^ 32 }) args in
    let deeper = census_args opens strtoul (record s { deep = true }) (b ∷ args) in
    let other : Option CensusArgs = elim (take_json opens s a) [
      | none ↦ none
      | some s' ↦ census_args opens strtoul s' (b ∷ args)
    ] in
    if same_bytes a deep_flag then deeper else if same_bytes a limit_flag then limited else other

-- The exit code of `census`.
unfoldable pub census_command :
    Host → (ℕ → Bool) → UcTables → (List ℕ → Bool) → (List ℕ → ℕ) → BpVocab → List (List ℕ) → ℕ
census_command os alloc u opens strtoul v args =
    elim (census_args opens strtoul (record { json = none; deep = false; limit = 0 }) args) [
      | none ↦ 2
      | some s ↦ elim (bp_ctx_new os (some v) (negsuc 0)) [
        | none ↦ 4
        | some c ↦ if exit_code (bp_census_run alloc u v c s.deep s.limit) == 0 then 0 else 4
      ]
    ]

-- The exit code of `witness`, with its argument.
unfoldable pub witness_command : Host → (ℕ → Bool) → UcTables → (List ℕ → ℕ) → BpVocab → List ℕ → ℕ
witness_command os alloc u strtoul v a = elim (bp_ctx_new os (some v) (negsuc 0)) [
  | none ↦ 4
  | some c ↦ elim (bp_census_witness alloc u v c (strtoul a % 2 ^ 32)) [ none ↦ 4 | some s ↦ 0 ]
]

-- A digit of `%02X`
abbrev upper_digit : ℕ → ℕ
upper_digit n = if ltb n 10 then b'0' + n else b'7' + n

unfoldable pub print_sanitized : List ℕ → List ℕ
print_sanitized [] = []
print_sanitized (b ∷ s) =
    let rest = print_sanitized s in
    if b == 0
    then []
    else if ltb b 0x20 || b == 0x7F
    then 0x5C ∷ b'x' ∷ upper_digit (b / 16) ∷ upper_digit (b % 16) ∷ rest
    else b ∷ rest
