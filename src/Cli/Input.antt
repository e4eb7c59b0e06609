-- ===== src/Cli/Input.antt =====
-- cli/main.c `read_all` and `load_input`. A stream is the bytes that `fread` gives before the end or an
-- error, and whether `ferror` says that there was one.
use bytepair.Base.{ℕ, zero, suc, ◌+◌, ◌-◌, ◌*◌, ◌%◌, ◌^◌, leb, ◌==◌, if◌then◌else◌}
use bytepair.Base.{Bool, true, false, ◌&&◌, not, Option, none, some, List, length, take, drop}

pub record Stream : Type 0 where
  pub bytes : List ℕ
  pub fails : Bool

-- The text, an exit with 2, or an exit with 4.
pub data Input : Type 0 where
  got : List ℕ → Input
  unread refused : Input

-- The `for (;;)`: whether every block that it asks for is granted. A round that goes on takes a byte at
-- least.
unfoldable pub read_loop : (ℕ → Bool) → ℕ → ℕ → ℕ → List ℕ → Bool
read_loop grants zero cap n rest = true
read_loop grants (suc fuel) cap n rest =
    let full = leb cap (n + 1) in
    let cap' = if full then cap * 2 % 2 ^ 64 else cap in
    let r = length (take (cap' - n - 1) rest) in
    let more = read_loop grants fuel cap' (n + r) (drop r rest) in
    if full && not (grants cap') then false else if r == 0 then true else more

unfoldable pub read_all : (ℕ → Bool) → Stream → Input
read_all grants s =
    if not (grants (2 ^ 20))
    then refused
    else if not (read_loop grants (suc (length s.bytes)) (2 ^ 20) 0 s.bytes)
    then refused
    else if s.fails
    then unread
    else got s.bytes

-- `none` is the standard input, and a path that does not open.
unfoldable pub load_input : (ℕ → Bool) → (List ℕ → Option Stream) → Stream → Option (List ℕ) → Input
load_input grants files stdin none = read_all grants stdin
load_input grants files stdin (some path) = elim (files path) [
  | none ↦ unread
  | some s ↦ read_all grants s
]
