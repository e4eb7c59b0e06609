-- ===== src/Cli/Main.antt =====
-- cli/main.c `main`: the dispatch on the command, and the exit codes. What the system answers is a
-- record; the text that the commands print stays with them.
pub mod Exits
pub mod Refused
use bytepair.Base.{
  ℕ, zero, suc, if◌then◌else◌, Bool, true, false, Option, none, some, List, [], ◌∷◌,
}
use bytepair.Tables.{UcTables}
use bytepair.Vocab.{BpVocab}
use bytepair.Bpe.Pretoken.{same_bytes}
use bytepair.Loader.Open.{Host, opened, failed, bp_vocab_open, ℤ, pos, negsuc}
use bytepair.Cli.{parse_flags, text_command}
use bytepair.Cli.Others.{Number, decode_command, census_command, witness_command}
use bytepair.Cli.Input.{Stream, Input, got, unread, refused, load_input}
use bytepair.Cli.Bench.{cmd_bench}

pub record World : Type 0 where
  -- the system, with the vocabulary at a path
  pub host : List ℕ → Host
  -- what a path opens for reading, and the standard input
  pub files : List ℕ → Option Stream
  pub stdin : Stream
  -- whether a file opens for writing
  pub opens : List ℕ → Bool
  pub strtoull : List ℕ → Number
  pub strtoul : List ℕ → ℕ
  pub atoi : List ℕ → ℤ
  -- of each round of the bench: whether its threads start, and its speed
  pub starts : ℕ → Bool
  pub speed : ℕ → ℕ

pub data Command : Type 0 where
  info encode count decode bench census witness : Command

-- The names of the commands.
abbrev pub commands : List (List ℕ × Command)
commands =
    (b'i' ∷ b'n' ∷ b'f' ∷ b'o' ∷ [], info)
    ∷ (b'e' ∷ b'n' ∷ b'c' ∷ b'o' ∷ b'd' ∷ b'e' ∷ [], encode)
    ∷ (b'c' ∷ b'o' ∷ b'u' ∷ b'n' ∷ b't' ∷ [], count)
    ∷ (b'd' ∷ b'e' ∷ b'c' ∷ b'o' ∷ b'd' ∷ b'e' ∷ [], decode)
    ∷ (b'b' ∷ b'e' ∷ b'n' ∷ b'c' ∷ b'h' ∷ [], bench)
    ∷ (b'c' ∷ b'e' ∷ b'n' ∷ b's' ∷ b'u' ∷ b's' ∷ [], census)
    ∷ (b'w' ∷ b'i' ∷ b't' ∷ b'n' ∷ b'e' ∷ b's' ∷ b's' ∷ [], witness)
    ∷ []

unfoldable pub find_command : List ℕ → List (List ℕ × Command) → Option Command
find_command cmd [] = none
find_command cmd ((name, k) ∷ rest) =
    let others = find_command cmd rest in if same_bytes cmd name then some k else others

-- `argv[3]`
abbrev pub file_of : List (List ℕ) → Option (List ℕ)
file_of [] = none
file_of (file ∷ rest) = some file

-- `atoi(argv[4])`, and 1 where there is none or where it is below.
unfoldable pub threads_of : World → List (List ℕ) → ℕ
threads_of w [] = 1
threads_of w (file ∷ []) = 1
threads_of w (file ∷ n ∷ rest) = elim (w.atoi n) [
  | pos zero ↦ 1
  | pos (suc k) ↦ suc k
  | negsuc k ↦ 1
]

unfoldable pub usage : ℕ
usage = 1

-- The branches of `main`, with the arguments from `argv[3]` on.
unfoldable pub run_command :
    World → (ℕ → Bool) → UcTables → Host → BpVocab → ℕ → List (List ℕ) → Command → ℕ
run_command w alloc u os v flags rest info = 0
run_command w alloc u os v flags rest encode =
    elim (load_input os.grants w.files w.stdin (file_of rest)) [
      | unread ↦ 2
      | refused ↦ 4
      | got text ↦ (text_command os alloc u v false text flags).exit
    ]
run_command w alloc u os v flags rest count =
    elim (load_input os.grants w.files w.stdin (file_of rest)) [
      | unread ↦ 2
      | refused ↦ 4
      | got text ↦ (text_command os alloc u v true text flags).exit
    ]
run_command w alloc u os v flags rest decode =
    elim (load_input os.grants w.files w.stdin (file_of rest)) [
      | unread ↦ 2
      | refused ↦ 4
      | got text ↦ (decode_command os w.strtoull v text flags).exit
    ]
run_command w alloc u os v flags [] bench = usage
run_command w alloc u os v flags (file ∷ rest) bench =
    elim (load_input os.grants w.files w.stdin (some file)) [
      | unread ↦ 2
      | refused ↦ 4
      | got text ↦
          (cmd_bench os alloc u v text (threads_of w (file ∷ rest)) flags w.starts w.speed).exit
    ]
run_command w alloc u os v flags rest census = census_command os alloc u w.opens w.strtoul v rest
run_command w alloc u os v flags [] witness = usage
run_command w alloc u os v flags (id ∷ rest) witness = witness_command os alloc u w.strtoul v id

-- With the arguments that `parse_flags` leaves, from `argv[1]` on.
unfoldable pub dispatch : World → (ℕ → Bool) → UcTables → ℕ → List (List ℕ) → ℕ
dispatch w alloc u flags [] = usage
dispatch w alloc u flags (cmd ∷ []) = usage
dispatch w alloc u flags (cmd ∷ path ∷ rest) = elim (find_command cmd commands) [
  | none ↦ usage
  | some k ↦ elim (bp_vocab_open (w.host path) false) [
    | failed e ↦ 3
    | opened v ↦ run_command w alloc u (w.host path) v flags rest k
  ]
]

unfoldable pub main : World → (ℕ → Bool) → UcTables → List (List ℕ) → ℕ
main w alloc u argv = let p = parse_flags argv in dispatch w alloc u p.flags p.args
