-- ===== src/Cli.antt =====
-- cli/main.c: the flags, the documents of the bench, and the commands `encode` and `count`.
pub mod Documents
pub mod Input
pub mod Command
pub mod Others
pub mod Bench
pub mod Main
use bytepair.Base.{ℕ, ◌*◌, ◌==◌, if◌then◌else◌, bit_or, zeros}
use bytepair.Base.{
  Bool, true, false, ◌&&◌, not, Option, none, some, List, [], ◌∷◌, ◌++◌, length, take,
}
use bytepair.Context.{BpCtx}
use bytepair.Tables.{UcTables}
use bytepair.Vocab.{BpVocab}
use bytepair.Bpe.Pretoken.{same_bytes}
use bytepair.Encode.{
  bp_raw, bp_force_scalar, bp_skip_special, count, error, Reply, block_of, bp_encode, bp_count,
}
use bytepair.Loader.Open.{Host, negsuc, bp_ctx_new}

-- "--raw", "--scalar" and "--skip-special"
abbrev pub raw_flag : List ℕ
raw_flag = b'-' ∷ b'-' ∷ b'r' ∷ b'a' ∷ b'w' ∷ []

abbrev pub scalar_flag : List ℕ
scalar_flag = b'-' ∷ b'-' ∷ b's' ∷ b'c' ∷ b'a' ∷ b'l' ∷ b'a' ∷ b'r' ∷ []

abbrev pub skip_special_flag : List ℕ
skip_special_flag =
    b'-' ∷ b'-' ∷ b's' ∷ b'k' ∷ b'i' ∷ b'p' ∷ b'-' ∷ b's' ∷ b'p' ∷ b'e' ∷ b'c' ∷ b'i' ∷ b'a' ∷ b'l'
    ∷ []

-- The flags, and the arguments that are left.
pub record Parsed : Type 0 where
  pub flags : ℕ
  pub args : List (List ℕ)

unfoldable pub keep_arg : List ℕ → Parsed → Parsed
keep_arg a p = record p { args = a ∷ p.args }

-- The loop over `argv` from 1 on.
unfoldable pub parse_loop : ℕ → List (List ℕ) → Parsed
parse_loop flags [] = record { flags = flags; args = [] }
parse_loop flags (a ∷ rest) =
    let raw = parse_loop (bit_or flags bp_raw) rest in
    let scalar = parse_loop (bit_or flags bp_force_scalar) rest in
    let skip_special = parse_loop (bit_or flags bp_skip_special) rest in
    let kept = keep_arg a (parse_loop flags rest) in
    if same_bytes a raw_flag
    then raw
    else if same_bytes a scalar_flag
    then scalar
    else if same_bytes a skip_special_flag
    then skip_special
    else kept

unfoldable pub parse_flags : List (List ℕ) → Parsed
parse_flags argv = parse_loop 0 argv

-- The numbers printed, and the exit code.
pub record Ran : Type 0 where
  pub printed : List ℕ
  pub exit : ℕ

abbrev pub failed_run : Ran
failed_run = record { printed = []; exit = 4 }

-- `n2 != n`, or the ids line by line.
unfoldable pub print_ids : ℕ → Reply → Ran
print_ids n r = elim r.code [
  | count n2 ↦
      if n2 == n then record { printed = take n (block_of r.out); exit = 0 } else failed_run
  | error e ↦ failed_run
]

-- From the count on. What is in the array before the call is never read.
unfoldable pub after_count : Host → (ℕ → Bool) → UcTables → Bool → List ℕ → ℕ → Reply → Ran
after_count os alloc u only_count t flags r = elim r.code [
  | error e ↦ failed_run
  | count n ↦
      if only_count
      then record { printed = n ∷ []; exit = 0 }
      else if not (os.grants (n * 4))
      then failed_run
      else print_ids n (bp_encode alloc u r.ctx (some t) (length t) (some (zeros n)) n flags)
]

-- `encode`, and `count`, once the text is read.
unfoldable pub text_command : Host → (ℕ → Bool) → UcTables → BpVocab → Bool → List ℕ → ℕ → Ran
text_command os alloc u v only_count t flags = elim (bp_ctx_new os (some v) (negsuc 0)) [
  | none ↦ failed_run
  | some c ↦
      after_count os alloc u only_count t flags
        (bp_count alloc u (some c) (some t) (length t) flags)
]
