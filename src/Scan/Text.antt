-- ===== src/Scan/Text.antt =====
-- src/bp_scan.c `bp_scan_gpt4`: the spans of a text, each put into the sink by the BPE engine.
use bytepair.Base.{
  ℕ, zero, suc, ◌-◌, ltb, if◌then◌else◌, Bool, not, List, [], ◌∷◌, length, take, drop,
}
pub mod Laws
use bytepair.Sink.{Sink}
use bytepair.Context.{BpCtx}
use bytepair.Tables.{UcTables}
use bytepair.Bpe.Pretoken.{Outcome, ok, no_memory, bp_bpe_pretoken}
use bytepair.Scan.{span_end}

-- `t + a` with length `b - a`
abbrev pub slice : List ℕ → ℕ → ℕ → List ℕ
slice t a b = take (b - a) (drop a t)

-- The `while (i < len)`; `EMIT` returns from it when the engine fails. A span holds a byte at least,
-- so as many rounds as the text has bytes are enough.
unfoldable pub scan_loop : (ℕ → Bool) → UcTables → Bool → List ℕ → ℕ → ℕ → BpCtx → Sink → Outcome
scan_loop alloc u simd t zero i c sink = record { status = ok; ctx = c; sink = sink }
scan_loop alloc u simd t (suc fuel) i c sink =
    let e = span_end u simd t i in
    let o = bp_bpe_pretoken alloc c (slice t i e) sink in
    let next : Outcome = elim o.status [
      | ok ↦ scan_loop alloc u simd t fuel e o.ctx o.sink
      | no_memory ↦ o
    ] in
    if ltb i (length t) then next else record { status = ok; ctx = c; sink = sink }

unfoldable pub bp_scan_gpt4 : (ℕ → Bool) → UcTables → BpCtx → List ℕ → Sink → Bool → Outcome
bp_scan_gpt4 alloc u c t sink simd = scan_loop alloc u simd t (length t) 0 c sink

-- The pretokens of the text from `i` on.
unfoldable pub spans_from : UcTables → Bool → List ℕ → ℕ → ℕ → List (List ℕ)
spans_from u simd t zero i = []
spans_from u simd t (suc fuel) i =
    let e = span_end u simd t i in
    let rest = spans_from u simd t fuel e in if ltb i (length t) then slice t i e ∷ rest else []

unfoldable pub pretokens : UcTables → Bool → List ℕ → List (List ℕ)
pretokens u simd t = spans_from u simd t (length t) 0
