-- ===== src/Scan/Text/Laws.antt =====
-- src/bp_scan.c `bp_scan_gpt4`: the pretokens of a text, and what the scanner puts for them.
use mathlib.Core.Path.{subst}
use bytepair.Base.{ℕ, zero, suc, ◌+◌, ◌-◌, ◌<◌, ◌≤◌, ltb, Bool, true, false, Bool-cases}
use bytepair.Base.{List, [], ◌∷◌, ◌++◌, length, drop, All, concat, ltb→lt, ltb→le, lt→ltb, le→ltb}
use bytepair.Base.{take-drop-drop, drop_all, append-nil, append_assoc, length-take, length-drop}
use bytepair.Base.{arith, ◌≡◌, refl, sym, ap, ◌∙◌, inl, inr}
use bytepair.Utf8.Laws.{IsByte}
use bytepair.Sink.{Sink}
use bytepair.Sink.Laws.{Buffer, Holds}
use bytepair.Vocab.{BpVocab}
use bytepair.Context.{BpCtx}
use bytepair.Tables.{UcTables, ClassesProper}
use bytepair.Bpe.Pretoken.{Outcome, ok, bp_bpe_pretoken}
use bytepair.Bpe.Pretoken.Cache.{encode_bytes, IsCached, Puts}
use bytepair.Bpe.Spec.{RanksProper}
use bytepair.Bpe.Pretoken.Served.{IsServed}
use bytepair.Bpe.Pretoken.Encodes.{bp_bpe_pretoken-Puts}
use bytepair.Scan.{span_end}
use bytepair.Scan.Simd.{span_end-simd}
use bytepair.Scan.Bounds.{span_end_bounds}
use bytepair.Scan.Text.{slice, scan_loop, bp_scan_gpt4, spans_from, pretokens}

module _ (u : UcTables) (proper : ClassesProper u) (simd : Bool) (t : List ℕ)
    (bytes : All IsByte t) where
  spans_out : (fuel i : ℕ) → length t ≤ i → spans_from u simd t fuel i ≡ []
  unfolding spans_from
  spans_out zero i h = refl
  spans_out (suc fuel) i h = rw (le→ltb _ _ h)

  spans_next :
      (fuel i : ℕ)
      → i < length t
      → spans_from u simd t (suc fuel) i
        ≡ slice t i (span_end u simd t i) ∷ spans_from u simd t fuel (span_end u simd t i)
  unfolding spans_from
  spans_next fuel i h = rw (lt→ltb _ _ h)

  spans_from-concat :
      (fuel i : ℕ) → length t ≤ i + fuel → concat (spans_from u simd t fuel i) ≡ drop i t
  spans_from-concat zero i h = rw (spans_out 0 i (omega arith), drop_all i t (omega arith))
  spans_from-concat (suc fuel) i h = elim (Bool-cases (ltb i (length t))) [
    | inr out ↦ rw (spans_out (suc fuel) i (ltb→le _ _ out), drop_all i t (ltb→le _ _ out))
    | inl in_text ↦
        let (ahead, inside) = span_end_bounds u proper simd t bytes i (ltb→lt _ _ in_text) in
        rw (spans_next fuel i (ltb→lt _ _ in_text)) (
          ap (λ r. slice t i (span_end u simd t i) ++ r)
            (spans_from-concat fuel (span_end u simd t i) (omega arith))
          ∙ take-drop-drop i (span_end u simd t i) t (omega arith))
  ]

  spans_from-nonempty : (fuel i : ℕ) → All (λ p. 0 < length p) (spans_from u simd t fuel i)
  spans_from-nonempty zero i = unfold spans_from in tt
  spans_from-nonempty (suc fuel) i = elim (Bool-cases (ltb i (length t))) [
    | inr out ↦ rw (spans_out (suc fuel) i (ltb→le _ _ out)) tt
    | inl in_text ↦
        let (ahead, inside) = span_end_bounds u proper simd t bytes i (ltb→lt _ _ in_text) in
        rw (spans_next fuel i (ltb→lt _ _ in_text)) (
          omega (arith, length-take (span_end u simd t i - i) (drop i t), length-drop i t),
          spans_from-nonempty fuel (span_end u simd t i),
        )
  ]

  -- For proper class tables and a text of bytes, with or without the vector kernels, the
  -- pretokens are non-empty and, one behind the other, they are the text.
  pub pretokens-partition :
      (concat (pretokens u simd t) ≡ t) × All (λ p. 0 < length p) (pretokens u simd t)
  unfolding pretokens
  pretokens-partition =
      (spans_from-concat (length t) 0 (omega arith), spans_from-nonempty (length t) 0)

module _ (u : UcTables) (proper : ClassesProper u) (t : List ℕ) (bytes : All IsByte t) where
  spans_from-simd : (fuel i : ℕ) → spans_from u true t fuel i ≡ spans_from u false t fuel i
  unfolding spans_from
  spans_from-simd zero i = refl
  spans_from-simd (suc fuel) i =
      rw (span_end-simd u proper t bytes i, spans_from-simd fuel (span_end u false t i))

  -- For proper class tables and a text of bytes, the vector kernels change no pretoken.
  pub pretokens-simd : pretokens u true t ≡ pretokens u false t
  unfolding pretokens
  pretokens-simd = spans_from-simd (length t) 0

-- The encodings of the pretokens in order.
abbrev pub encode_spans : BpVocab → List (List ℕ) → List ℕ
encode_spans v [] = []
encode_spans v (p ∷ ps) = encode_bytes v p ++ encode_spans v ps

-- A call that puts `ids` behind what the sink holds, and keeps the context sound.
pub record Appends (v : BpVocab) (orig : Buffer) (xs ids : List ℕ) (o : Outcome) : Type 0 where
  pub status_ok : o.status ≡ ok
  pub same_vocab : o.ctx.v ≡ v
  pub still_cached : IsCached o.ctx
  pub held : Holds orig (xs ++ ids) o.sink

-- The engine appends the encoding of these bytes, whatever the cache holds.
abbrev pub Encodable : (ℕ → Bool) → BpVocab → Buffer → List ℕ → Type 0
Encodable alloc v orig p =
    (c : BpCtx) (xs : List ℕ) (sink : Sink)
    → c.v ≡ v
    → IsCached c
    → Holds orig xs sink
    → Appends v orig xs (encode_bytes v p) (bp_bpe_pretoken alloc c p sink)

pub IsServed-Encodable :
    (alloc : ℕ → Bool) (v : BpVocab) (orig : Buffer) (p : List ℕ)
    → RanksProper v
    → IsServed alloc p
    → Encodable alloc v orig p
IsServed-Encodable alloc v orig p ranks short c xs sink e cached held =
    let r : RanksProper c.v = subst RanksProper (sym e) ranks in
    let done : Puts c p orig xs (bp_bpe_pretoken alloc c p sink) =
      bp_bpe_pretoken-Puts alloc c p cached r short held in
    record {
      status_ok = done.status_ok;
      same_vocab = done.same_vocab ∙ e;
      still_cached = done.still_cached;
      held =
          subst (λ w. Holds orig (xs ++ encode_bytes w p) (bp_bpe_pretoken alloc c p sink).sink) e
            done.held;
    }

-- Two calls in a row.
pub Appends-then :
    {v : BpVocab} {orig : Buffer} {o' : Outcome} (xs ids more : List ℕ)
    → Appends v orig (xs ++ ids) more o'
    → Appends v orig xs (ids ++ more) o'
Appends-then {v} {orig} {o'} xs ids more a = record {
  status_ok = a.status_ok;
  same_vocab = a.same_vocab;
  still_cached = a.still_cached;
  held = subst (λ l. Holds orig l o'.sink) (append_assoc xs ids more) a.held;
}

module _ (alloc : ℕ → Bool) (u : UcTables) (simd : Bool) (t : List ℕ) (orig : Buffer)
    (v : BpVocab) where
  pub nothing_more :
      (c : BpCtx) (xs : List ℕ) (sink : Sink)
      → c.v ≡ v
      → IsCached c
      → Holds orig xs sink
      → Appends v orig xs [] (record { status = ok; ctx = c; sink = sink })
  nothing_more c xs sink e cached held = record {
    status_ok = refl;
    same_vocab = e;
    still_cached = cached;
    held = rw (append-nil xs) held;
  }

  scan_out :
      (fuel i : ℕ) (c : BpCtx) (sink : Sink)
      → length t ≤ i
      → scan_loop alloc u simd t fuel i c sink ≡ record { status = ok; ctx = c; sink = sink }
  unfolding scan_loop
  scan_out zero i c sink h = refl
  scan_out (suc fuel) i c sink h = rw (le→ltb _ _ h)

  abbrev first : ℕ → BpCtx → Sink → Outcome
  first i c sink = bp_bpe_pretoken alloc c (slice t i (span_end u simd t i)) sink

  scan_next :
      (fuel i : ℕ) (c : BpCtx) (sink : Sink)
      → i < length t
      → (first i c sink).status ≡ ok
      → scan_loop alloc u simd t (suc fuel) i c sink
        ≡ scan_loop alloc u simd t fuel
            (span_end u simd t i)
            (first i c sink).ctx
            (first i c sink).sink
  unfolding scan_loop
  scan_next fuel i c sink h good = rw (lt→ltb _ _ h, good)

  module _ (proper : ClassesProper u) (bytes : All IsByte t) where
    scan_loop-Appends :
        (fuel i : ℕ) (c : BpCtx) (xs : List ℕ) (sink : Sink)
        → length t ≤ i + fuel
        → c.v ≡ v
        → IsCached c
        → All (Encodable alloc v orig) (spans_from u simd t fuel i)
        → Holds orig xs sink
        → Appends v orig xs
            (encode_spans v (spans_from u simd t fuel i))
            (scan_loop alloc u simd t fuel i c sink)
    scan_loop-Appends zero i c xs sink h e cached good held =
        rw (spans_out u proper simd t bytes 0 i (omega arith), scan_out 0 i c sink (omega arith))
          (nothing_more c xs sink e cached held)
    scan_loop-Appends (suc fuel) i c xs sink h e cached good held =
        elim (Bool-cases (ltb i (length t))) [
          | inr out ↦
              rw
                (
                  spans_out u proper simd t bytes (suc fuel) i (ltb→le _ _ out),
                  scan_out (suc fuel) i c sink (ltb→le _ _ out),
                )
                (nothing_more c xs sink e cached held)
          | inl in_text ↦
              let inside = ltb→lt _ _ in_text in
              let (ahead, _) = span_end_bounds u proper simd t bytes i inside in
              let (one, others) = rw (spans_next u proper simd t bytes fuel i inside) at good in
              let put : Appends v orig xs (encode_bytes v (slice t i (span_end u simd t i)))
                  (first i c sink) =
                one c xs sink e cached held in
              rw
                (
                  spans_next u proper simd t bytes fuel i inside,
                  scan_next fuel i c sink inside put.status_ok,
                )
                (Appends-then xs (encode_bytes v (slice t i (span_end u simd t i)))
                  (encode_spans v (spans_from u simd t fuel (span_end u simd t i)))
                  (scan_loop-Appends fuel (span_end u simd t i) (first i c sink).ctx
                    (xs ++ encode_bytes v (slice t i (span_end u simd t i))) (first i c sink).sink
                    (omega arith) put.same_vocab put.still_cached others put.held))
        ]

    -- The scanner appends the encodings of the pretokens of the text, in order.
    pub bp_scan_gpt4-Appends :
        (c : BpCtx) (xs : List ℕ) (sink : Sink)
        → c.v ≡ v
        → IsCached c
        → All (Encodable alloc v orig) (pretokens u simd t)
        → Holds orig xs sink
        → Appends v orig xs
            (encode_spans v (pretokens u simd t))
            (bp_scan_gpt4 alloc u c t sink simd)
    unfolding bp_scan_gpt4 pretokens
    bp_scan_gpt4-Appends c xs sink e cached good held =
        scan_loop-Appends (length t) 0 c xs sink (omega arith) e cached good held
