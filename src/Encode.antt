-- ===== src/Encode.antt =====
-- src/bp_encode.c `encode_segment`, `match_added`, `bp_encode`, `bp_count`. A null pointer is `none`.
pub mod RoundTrip
pub mod Spelling
pub mod Match
pub mod Split
pub mod Rounds
pub mod Loop
pub mod Answer
pub mod Restored
pub mod Whole
pub mod Laws
use bytepair.Base.{ℕ, zero, suc, ◌+◌, ◌-◌, ◌/◌, ◌%◌, ◌^◌, ltb, leb, ◌==◌, if◌then◌else◌, bit_and}
use bytepair.Base.{Bool, true, false, ◌&&◌, ◌||◌, not, Option, none, some}
use bytepair.Base.{List, [], ◌∷◌, length, get_or, take, drop}
use bytepair.Sink.{Sink, bp_sink_put1}
use bytepair.Vocab.{BpVocab, BpvAdded, no_added}
use bytepair.Context.{BpCtx}
use bytepair.Tables.{UcTables}
use bytepair.Nfc.{Normalized, bp_nfc}
use bytepair.Bpe.Pretoken.{Status, ok, no_memory, Outcome, same_bytes}
use bytepair.Scan.Text.{slice, bp_scan_gpt4}

-- `BP_RAW`, `BP_FORCE_SCALAR`, `BP_SKIP_SPECIAL`
abbrev pub bp_raw : ℕ
bp_raw = 1

abbrev pub bp_force_scalar : ℕ
bp_force_scalar = 2

abbrev pub bp_skip_special : ℕ
bp_skip_special = 4

-- `flags & bit`, as a condition
abbrev pub is_set : ℕ → ℕ → Bool
is_set flags bit = not (bit_and flags bit == 0)

-- The negative codes, and a count.
pub data Error : Type 0 where
  io format range nomem arg : Error

pub data Code : Type 0 where
  count : ℕ → Code
  error : Error → Code

-- `encode_segment`, from the result of `bp_nfc` on.
unfoldable pub scan_normalized : (ℕ → Bool) → UcTables → Sink → Bool → Normalized → Outcome
scan_normalized alloc u sink simd n = elim n.text [
  | none ↦ record { status = no_memory; ctx = n.ctx; sink = sink }
  | some norm ↦ bp_scan_gpt4 alloc u n.ctx norm sink simd
]

unfoldable pub encode_segment : (ℕ → Bool) → UcTables → BpCtx → List ℕ → Sink → Bool → Outcome
encode_segment alloc u c seg sink simd =
    let scanned = scan_normalized alloc u sink simd (bp_nfc alloc u c seg) in
    if length seg == 0 then record { status = ok; ctx = c; sink = sink } else scanned

-- `a->len <= avail && !memcmp(p, v->blob + a->offset, a->len)`
unfoldable pub matches : BpVocab → List ℕ → BpvAdded → Bool
matches v p a =
    leb a.len (length p) && same_bytes (take a.len p) (take a.len (drop a.offset v.blob))

-- The first match in the order of the list.
unfoldable pub match_in : BpVocab → List ℕ → List ℕ → Option BpvAdded
match_in v p [] = none
match_in v p (k ∷ order) =
    let a = get_or v.added k no_added in
    let rest = match_in v p order in if matches v p a then some a else rest

unfoldable pub match_added : BpVocab → List ℕ → Option BpvAdded
match_added v p = match_in v p (take v.hdr.added_count v.added_order)

-- Bit `b & 7` of byte `b >> 3` of the map.
unfoldable pub is_first_byte : BpVocab → ℕ → Bool
is_first_byte v b =
    if v.added_single_first
    then b == v.added_first
    else is_set (get_or v.added_first_map (b / 2 ^ 3) 0) (2 ^ bit_and b 7)

-- `memchr`, or the loop over the map: the first position from `i` on that may begin a match.
unfoldable pub find_first : BpVocab → ℕ → List ℕ → ℕ → Option ℕ
find_first v zero t i = none
find_first v (suc fuel) t i =
    let rest = find_first v fuel t (i + 1) in
    if ltb i (length t) then (if is_first_byte v (get_or t i 0) then some i else rest) else none

-- The `while (i < len)` with the segment behind it. A round takes a byte at least.
unfoldable pub encode_loop :
    (ℕ → Bool) → UcTables → Bool → List ℕ → ℕ → ℕ → ℕ → BpCtx → Sink → Outcome
encode_loop alloc u simd t zero seg_start i c sink =
    encode_segment alloc u c (slice t seg_start (length t)) sink simd
encode_loop alloc u simd t (suc fuel) seg_start i c sink =
    elim (find_first c.v (length t - i) t i) [
      | none ↦ encode_segment alloc u c (slice t seg_start (length t)) sink simd
      | some at ↦ elim (match_added c.v (drop at t)) [
        | none ↦ encode_loop alloc u simd t fuel seg_start (at + 1) c sink
        | some a ↦
            let o = encode_segment alloc u c (slice t seg_start at) sink simd in
            elim o.status [
              | ok ↦
                  encode_loop alloc u simd t fuel (at + a.len) (at + a.len) o.ctx
                    (bp_sink_put1 o.sink a.id)
              | no_memory ↦ o
            ]
      ]
    ]

unfoldable pub use_simd : BpCtx → ℕ → Bool
use_simd c flags = c.v.use_avx2 && not (is_set flags bp_force_scalar) && not c.env_force_scalar

unfoldable pub encode_text : (ℕ → Bool) → UcTables → BpCtx → List ℕ → Sink → ℕ → Outcome
encode_text alloc u c t sink flags =
    if is_set flags bp_raw || c.v.hdr.added_count == 0
    then encode_segment alloc u c t sink (use_simd c flags)
    else encode_loop alloc u (use_simd c flags) t (suc (length t)) 0 0 c sink

-- The return value, with the context and the caller's block.
pub record Reply : Type 0 where
  pub code : Code
  pub ctx : Option BpCtx
  pub out : Option (List ℕ)

unfoldable pub reply_of : Option (List ℕ) → Outcome → Reply
reply_of out o = record {
  code = elim o.status [ ok ↦ count o.sink.total | no_memory ↦ error nomem ];
  ctx = some o.ctx;
  out = elim out [ none ↦ none | some block ↦ some o.sink.out ];
}

abbrev pub block_of : Option (List ℕ) → List ℕ
block_of none = []
block_of (some block) = block

abbrev pub is_null {ℓ} : {A : Type ℓ} → Option A → Bool
is_null none = true
is_null (some x) = false

unfoldable pub bp_encode :
    (ℕ → Bool) → UcTables → Option BpCtx → Option (List ℕ) → ℕ → Option (List ℕ) → ℕ → ℕ → Reply
bp_encode alloc u none utf8 len out out_cap flags = record {
  code = error arg;
  ctx = none;
  out = out;
}
bp_encode alloc u (some c) utf8 len out out_cap flags =
    if (is_null utf8 && not (len == 0)) || (is_null out && not (out_cap == 0))
    then record { code = error arg; ctx = some c; out = out }
    else reply_of out (
        encode_text alloc u c (take len (block_of utf8))
          (record { out = block_of out; cap = out_cap; total = 0 }) flags)

unfoldable pub bp_count : (ℕ → Bool) → UcTables → Option BpCtx → Option (List ℕ) → ℕ → ℕ → Reply
bp_count alloc u c utf8 len flags = bp_encode alloc u c utf8 len none 0 flags
