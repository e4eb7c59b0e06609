-- ===== src/Cli/Main/Refused.antt =====
-- cli/main.c `main`: when it exits with 3.
use mathlib.Core.Logic.{◌↔◌, ◌≢◌}
use bytepair.Base.{ℕ, Bool, true, false, some, Option-cases, List, [], ◌∷◌, arith, ◌≡◌}
use bytepair.Base.{refl, inl, inr, ◌⊎◌}
use bytepair.Tables.{UcTables}
use bytepair.Vocab.{BpVocab}
use bytepair.Encode.{Error}
use bytepair.Loader.Open.{Host, Opened, opened, failed, bp_vocab_open}
use bytepair.Cli.{parse_flags}
use bytepair.Cli.Input.{Input, got, unread, refused, load_input}
use bytepair.Cli.Main.{
  World, Command, info, encode, count, decode, bench, census, witness, commands, find_command,
  file_of, run_command, usage, dispatch, main,
}
use bytepair.Cli.Main.Exits.{
  zero_not, two_not, four_not, text_command-exit, decode_command-exit, witness_command-exit,
  census_command-exit, cmd_bench-exit,
}

-- A command that `main` knows, with a vocabulary that does not open.
pub record IsRefused (w : World) (args : List (List ℕ)) : Type 0 where
  pub cmd : List ℕ
  pub path : List ℕ
  pub rest : List (List ℕ)
  pub command : Command
  pub cause : Error
  pub given : args ≡ cmd ∷ path ∷ rest
  pub known : find_command cmd commands ≡ some command
  pub closed : bp_vocab_open (w.host path) false ≡ failed cause

Opened-cases : (o : Opened) → ((v : BpVocab) × (o ≡ opened v)) ⊎ ((e : Error) × (o ≡ failed e))
Opened-cases (opened v) = inl (v, refl)
Opened-cases (failed e) = inr (e, refl)

Input-cases : (i : Input) → (i ≡ unread) ⊎ (i ≡ refused) ⊎ ((text : List ℕ) × (i ≡ got text))
Input-cases (got text) = inr (inr (text, refl))
Input-cases unread = inl refl
Input-cases refused = inr (inl refl)

one_not : usage ≢ 3
unfolding usage
one_not e = absurd (omega (arith, e))

module _ (w : World) (alloc : ℕ → Bool) (u : UcTables) (os : Host) (v : BpVocab) (flags : ℕ) where
  run_command-exit :
      (rest : List (List ℕ)) (k : Command) → run_command w alloc u os v flags rest k ≢ 3
  unfolding run_command
  run_command-exit rest info = zero_not
  run_command-exit rest encode =
      elim (Input-cases (load_input os.grants w.files w.stdin (file_of rest))) [
        | inl lost ↦ rw (run_command, lost) two_not
        | inr (inl full) ↦ rw (run_command, full) four_not
        | inr (inr (text, read)) ↦
            rw (run_command, read) (text_command-exit os alloc u v false text flags)
      ]
  run_command-exit rest count =
      elim (Input-cases (load_input os.grants w.files w.stdin (file_of rest))) [
        | inl lost ↦ rw (run_command, lost) two_not
        | inr (inl full) ↦ rw (run_command, full) four_not
        | inr (inr (text, read)) ↦
            rw (run_command, read) (text_command-exit os alloc u v true text flags)
      ]
  run_command-exit rest decode =
      elim (Input-cases (load_input os.grants w.files w.stdin (file_of rest))) [
        | inl lost ↦ rw (run_command, lost) two_not
        | inr (inl full) ↦ rw (run_command, full) four_not
        | inr (inr (text, read)) ↦
            rw (run_command, read) (decode_command-exit os alloc u v w.strtoull text flags)
      ]
  run_command-exit [] bench = one_not
  run_command-exit (file ∷ rest) bench =
      elim (Input-cases (load_input os.grants w.files w.stdin (some file))) [
        | inl lost ↦ rw (run_command, lost) two_not
        | inr (inl full) ↦ rw (run_command, full) four_not
        | inr (inr (text, read)) ↦
            rw (run_command, read) (cmd_bench-exit os alloc u v text _ flags w.starts w.speed)
      ]
  run_command-exit rest census = census_command-exit os alloc u v w.opens w.strtoul rest
  run_command-exit [] witness = one_not
  run_command-exit (id ∷ rest) witness = witness_command-exit os alloc u v w.strtoul id

module _ (w : World) (alloc : ℕ → Bool) (u : UcTables) where
  dispatch-IsRefused :
      (flags : ℕ) (args : List (List ℕ)) → (dispatch w alloc u flags args ≡ 3) → IsRefused w args
  unfolding dispatch
  dispatch-IsRefused flags [] e = absurd (one_not e)
  dispatch-IsRefused flags (cmd ∷ []) e = absurd (one_not e)
  dispatch-IsRefused flags (cmd ∷ path ∷ rest) e = elim (Option-cases (find_command cmd commands)) [
    | inl unknown ↦ absurd (one_not (rw (dispatch, unknown) at e))
    | inr (k, known) ↦ elim (Opened-cases (bp_vocab_open (w.host path) false)) [
      | inl (v, good) ↦ absurd (
          run_command-exit w alloc u (w.host path) v flags rest k (rw (dispatch, known, good) at e))
      | inr (cause, bad) ↦ record {
        cmd = cmd;
        path = path;
        rest = rest;
        command = k;
        cause = cause;
        given = refl;
        known = known;
        closed = bad;
      }
    ]
  ]

  IsRefused-dispatch :
      (flags : ℕ) (args : List (List ℕ)) → IsRefused w args → dispatch w alloc u flags args ≡ 3
  unfolding dispatch
  IsRefused-dispatch flags args r = rw (r.given, dispatch, r.known, r.closed) refl

  -- Whatever the system answers, the program exits with 3 exactly where the arguments behind
  -- the flags begin with a command that is known and a path at which no vocabulary opens.
  pub main-IsRefused :
      (argv : List (List ℕ)) → (main w alloc u argv ≡ 3) ↔ IsRefused w (parse_flags argv).args
  unfolding main
  main-IsRefused argv = (
    dispatch-IsRefused (parse_flags argv).flags (parse_flags argv).args,
    IsRefused-dispatch (parse_flags argv).flags (parse_flags argv).args,
  )
