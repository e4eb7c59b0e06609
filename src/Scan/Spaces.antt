-- ===== src/Scan/Spaces.antt =====
-- src/bp_scan.c: where a run of spaces may end, and what a step of the scanner may take.
use bytepair.Base.{ℕ, zero, suc, ◌+◌, ◌-◌, ◌<◌, ◌≤◌, ltb, leb, ◌==◌, if◌then◌else◌, Bool-cases}
use bytepair.Base.{true, false, ◌&&◌, not, lt→ltb}
use bytepair.Base.{List, length, drop, arith, ◌≡◌, refl, ◌⊎◌, inl, inr}
use bytepair.Utf8.{bp_utf8_next}
use bytepair.Tables.{UcTables, has, cc_l, cc_n, cc_s, cc_nl, ClassesProper}
use bytepair.Scan.Kernel.{byte}
use bytepair.Scan.Run.Scalar.{adv_inside}
use bytepair.Scan.{Walk, peek, run_newlines, try_contraction, walk_spaces, space_end}

-- The position `k` lies behind `i`, in the text or at its end.
abbrev pub Within : List ℕ → ℕ → ℕ → Type 0
Within t i k = (i < k) × (k ≤ length t)

-- The classes that a character can have.
abbrev pub IsClass : ℕ → Type 0
IsClass cl = (cl ≡ 0) ⊎ (cl ≡ 1) ⊎ (cl ≡ 2) ⊎ (cl ≡ 4) ⊎ (cl ≡ 12)

pub try_contraction_bounds :
    (t : List ℕ) (i : ℕ) → (try_contraction t i ≡ 0) ⊎ Within t i (i + try_contraction t i)
unfolding try_contraction
try_contraction_bounds t i = ground arith

pub peek_bounds :
    (u : UcTables) (t : List ℕ) (i : ℕ) → i < length t → Within t i (i + (peek u t i).adv)
unfolding peek
peek_bounds u t i h = ground (arith, adv_inside t i h)

-- A space takes one byte.
pub peek_ascii : (u : UcTables) (t : List ℕ) (i : ℕ) → byte t i < 0x80 → (peek u t i).adv ≡ 1
unfolding peek
peek_ascii u t i h = rw (lt→ltb _ _ h)

pub peek-IsClass : (u : UcTables) (t : List ℕ) (i : ℕ) → ClassesProper u → IsClass (peek u t i).cl
unfolding peek
peek-IsClass u t i proper = elim (Bool-cases (ltb (byte t i) 0x80)) [
  | inl ascii ↦ rw ascii (proper.values (byte t i))
  | inr wide ↦ rw wide (ground (arith, proper.values (bp_utf8_next (drop i t)).cp))
]

-- What is no letter, no number and no symbol is whitespace.
pub space_left :
    (cl : ℕ)
    → IsClass cl
    → has cl cc_l ≡ false
    → has cl cc_n ≡ false
    → has cl (cc_l + cc_n + cc_s) ≡ true
    → has cl cc_s ≡ true
space_left cl (inl e) l n s = cc (rw e at s)
space_left cl (inr (inl e)) l n s = cc (rw e at l)
space_left cl (inr (inr (inl e))) l n s = cc (rw e at n)
space_left cl (inr (inr (inr (inl e)))) l n s = rw e refl
space_left cl (inr (inr (inr (inr e)))) l n s = rw e refl

pub run_newlines_bounds :
    (t : List ℕ) (fuel j : ℕ)
    → j ≤ length t
    → (j ≤ run_newlines t fuel j) × (run_newlines t fuel j ≤ length t)
unfolding run_newlines
run_newlines_bounds t zero j h = (omega arith, h)
run_newlines_bounds t (suc fuel) j h = ground (arith, run_newlines_bounds t fuel (j + 1))

-- The invariant of the whitespace walk that began at `i`.
record IsWalk (t : List ℕ) (i : ℕ) (s : Walk) : Type 0 where
  from : i ≤ s.j
  inside : s.j ≤ length t
  newline : (s.last_nl_end ≡ 0) ⊎ ((i < s.last_nl_end) × (s.last_nl_end ≤ s.j))
  moved : 1 ≤ s.ncp → i < s.j
  last_inside : s.last_cp_start ≤ s.j
  last_moved : 2 ≤ s.ncp → i < s.last_cp_start

module _ (u : UcTables) (t : List ℕ) (i : ℕ) where
  abbrev walk_step : Walk → Walk
  walk_step s =
      let w = peek u t s.j in
      record {
        j = s.j + w.adv;
        last_nl_end = if has w.cl cc_nl then s.j + w.adv else s.last_nl_end;
        last_cp_start = s.j;
        ncp = s.ncp + 1;
      }

  walk_step-IsWalk : {s : Walk} → IsWalk t i s → s.j < length t → IsWalk t i (walk_step s)
  walk_step-IsWalk {s} w h = ground (arith, peek_bounds u t s.j h)

  walk_out : (s : Walk) → walk_spaces u t 0 s ≡ s
  unfolding walk_spaces
  walk_out s = refl

  walk_round :
      (fuel : ℕ) (s : Walk)
      → walk_spaces u t (suc fuel) s ≡ (
          if ltb s.j (length t) && has (peek u t s.j).cl cc_s
          then walk_spaces u t fuel (walk_step s)
          else s)
  unfolding walk_spaces
  walk_round fuel s = refl

  walk_spaces-IsWalk : (fuel : ℕ) (s : Walk) → IsWalk t i s → IsWalk t i (walk_spaces u t fuel s)
  walk_spaces-IsWalk zero s w = rw (walk_out s) w
  walk_spaces-IsWalk (suc fuel) s w =
      rw (walk_round fuel s) (elim (Bool-cases (ltb s.j (length t) && has (peek u t s.j).cl cc_s)) [
        | inr stop ↦ rw stop w
        | inl more ↦
            rw more (walk_spaces-IsWalk fuel (walk_step s) (walk_step-IsWalk w (ground arith)))
      ])

  -- The walk counts the characters that it takes.
  walk_spaces-ncp : (fuel : ℕ) (s : Walk) → s.ncp ≤ (walk_spaces u t fuel s).ncp
  walk_spaces-ncp zero s = rw (walk_out s) (omega arith)
  walk_spaces-ncp (suc fuel) s =
      rw (walk_round fuel s) (elim (Bool-cases (ltb s.j (length t) && has (peek u t s.j).cl cc_s)) [
        | inr stop ↦ rw stop (omega arith)
        | inl more ↦ rw more (omega (arith, walk_spaces-ncp fuel (walk_step s)))
      ])

  abbrev start : Walk
  start = record { j = i; last_nl_end = 0; last_cp_start = i; ncp = 0 }

  -- Where the walk begins at a space it takes that space.
  IsWalk-taken :
      i < length t
      → has (peek u t i).cl cc_s ≡ true
      → IsWalk t i (walk_spaces u t (length t - i) start)
        × (1 ≤ (walk_spaces u t (length t - i) start).ncp)
  IsWalk-taken h space =
      let some_fuel : length t - i ≡ suc (length t - i - 1) = omega arith in
      rw (some_fuel, walk_round (length t - i - 1) start, lt→ltb _ _ h, space)
        (
          walk_spaces-IsWalk (length t - i - 1) (walk_step start)
              (walk_step-IsWalk (start-IsWalk h) h),
          walk_spaces-ncp (length t - i - 1) (walk_step start),
        )
    where
      start-IsWalk : i < length t → IsWalk t i start
      start-IsWalk h = ground arith

  pub space_end_bounds :
      i < length t → has (peek u t i).cl cc_s ≡ true → Within t i (space_end u t i)
  unfolding space_end
  space_end_bounds h space =
      let (w, taken) = IsWalk-taken h space in chosen (walk_spaces u t (length t - i) start) w taken
    where
      chosen :
          (s : Walk)
          → IsWalk t i s
          → 1 ≤ s.ncp
          → Within t i (
              if not (s.last_nl_end == 0)
              then s.last_nl_end
              else if s.j == length t
              then length t
              else if leb 2 s.ncp
              then s.last_cp_start
              else s.j)
      chosen s w taken = ground arith
