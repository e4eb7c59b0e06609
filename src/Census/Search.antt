-- ===== src/Census/Search.antt =====
-- src/bp_census.c `contains_id` to `pure_is_single`: an input is tried through the whole encoder.
use bytepair.Base.{ℕ, zero, suc, ltb, leb, ◌==◌, if◌then◌else◌, zeros}
use bytepair.Base.{Bool, true, false, ◌&&◌, ◌||◌, not, Option, none, some}
use bytepair.Base.{List, [], ◌∷◌, ◌++◌, length, get_or, drop}
use bytepair.Utf8.{malformed, bp_utf8_next}
use bytepair.Sink.{Sink}
use bytepair.Context.{BpCtx}
use bytepair.Tables.{UcTables}
use bytepair.Bpe.Pretoken.{ok, no_memory, Outcome, bp_bpe_pretoken}
use bytepair.Encode.{count, error, Reply, block_of, bp_encode}
use bytepair.Census.{wmax, ids_max}

-- The first `n` ids.
unfoldable pub contains_id : List ℕ → ℕ → ℕ → Bool
contains_id ids zero t = false
contains_id [] (suc n) t = false
contains_id (x ∷ ids) (suc n) t = x == t || contains_id ids n t

-- The `while (p < end)`, where a round takes a byte at least.
unfoldable pub valid_loop : ℕ → List ℕ → Bool
valid_loop zero p = true
valid_loop (suc fuel) p =
    let s = bp_utf8_next p in
    let rest = valid_loop fuel (drop s.adv p) in
    if length p == 0 then true else if s.cp == malformed then false else rest

unfoldable pub utf8_valid : List ℕ → Bool
utf8_valid p = valid_loop (length p) p

-- The witness, `w` up to `*wn`, where 1 is returned, and the context behind the calls.
pub record Found : Type 0 where
  pub witness : Option (List ℕ)
  pub ctx : BpCtx

abbrev pub ctx_of : BpCtx → Option BpCtx → BpCtx
ctx_of c none = c
ctx_of c (some d) = d

-- `n > 0 && n <= WMAX + 8 && contains_id(out, n, t)`
unfoldable pub emits : ℕ → Reply → Bool
emits t r = elim r.code [
  | count n ↦ ltb 0 n && (leb n ids_max && contains_id (block_of r.out) n t)
  | error e ↦ false
]

unfoldable pub judge : BpCtx → ℕ → List ℕ → Reply → Found
judge c t w r = record { witness = if emits t r then some w else none; ctx = ctx_of c r.ctx }

-- What is in `out` before the call is never read.
unfoldable pub encode_witness : (ℕ → Bool) → UcTables → BpCtx → List ℕ → Reply
encode_witness alloc u c w =
    bp_encode alloc u (some c) (some w) (length w) (some (zeros ids_max)) ids_max 0

-- An affix is the string up to its NUL.
unfoldable pub try_witness : (ℕ → Bool) → UcTables → ℕ → List ℕ → BpCtx → List ℕ → List ℕ → Found
try_witness alloc u t tb c pre suf =
    let w = pre ++ (tb ++ suf) in
    if ltb wmax (length w)
    then record { witness = none; ctx = c }
    else if not (utf8_valid w)
    then record { witness = none; ctx = c }
    else judge c t w (encode_witness alloc u c w)

-- The affixes of an attempt.
pub record Affixes : Type 0 where
  pub pre : List ℕ
  pub suf : List ℕ

-- The attempts in order, until one succeeds.
unfoldable pub try_all : (ℕ → Bool) → UcTables → ℕ → List ℕ → List Affixes → BpCtx → Found
try_all alloc u t tb [] c = record { witness = none; ctx = c }
try_all alloc u t tb (a ∷ more) c =
    let f = try_witness alloc u t tb c a.pre a.suf in
    elim f.witness [ none ↦ try_all alloc u t tb more f.ctx | some w ↦ f ]

pub record Single : Type 0 where
  pub yes : Bool
  pub ctx : BpCtx

unfoldable pub is_single : ℕ → Outcome → Single
is_single t o = record {
  yes = elim o.status [ ok ↦ o.sink.total == 1 && get_or o.sink.out 0 0 == t | no_memory ↦ false ];
  ctx = o.ctx;
}

unfoldable pub pure_is_single : (ℕ → Bool) → BpCtx → List ℕ → ℕ → Single
pure_is_single alloc c tb t =
    let s : Sink = record { out = zeros ids_max; cap = ids_max; total = 0 } in
    if ltb wmax (length tb)
    then record { yes = false; ctx = c }
    else is_single t (bp_bpe_pretoken alloc c tb s)
