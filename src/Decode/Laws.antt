-- ===== src/Decode/Laws.antt =====
-- src/bp_encode.c `bp_decode`: legal ids, and those at which it stops.
use bytepair.Base.{ℕ, ◌<◌, ◌≤◌, leb, if◌then◌else◌, le→leb, lt→leb}
use bytepair.Base.{◌&&◌, true, false, Bool-cases, some, ne→==}
use bytepair.Base.{List, [], ◌∷◌, ◌++◌, length, take, take_all, All, append_assoc, append-nil}
use bytepair.Base.{arith, ◌≡◌, ◌≢◌, refl, ap, ◌⊎◌, inl, inr}
use bytepair.Sink.{Sink, bp_sink_put}
use bytepair.Sink.Laws.{Buffer, Holds, filled, Holds-filled, start-Holds, bp_sink_put-Holds}
use bytepair.Vocab.{BpVocab, token_len, token_bytes}
use bytepair.Context.{BpCtx}
use bytepair.Encode.{range, count, error, is_set, bp_skip_special}
use bytepair.Decode.Special.{special, Ascends}
use bytepair.Decode.Special.Search.{is_skipped-special}
use bytepair.Decode.{is_skipped, Decoded, decode_loop, decode_reply, bp_decode}
use mathlib.Core.Path.{subst}

-- An id that the decoder writes or skips.
pub record IsLegal (v : BpVocab) (flags id : ℕ) : Type 0 where
  pub below : id < v.hdr.vocab_count
  pub written : (is_skipped v flags id ≡ true) ⊎ (token_len v id ≢ 0)

-- An id at which the decoder stops.
pub record IsIllegal (v : BpVocab) (flags id : ℕ) : Type 0 where
  pub failing : (v.hdr.vocab_count ≤ id) ⊎ ((is_skipped v flags id ≡ false) × (token_len v id ≡ 0))

-- The bytes of the ids, without the special ones where the flags say so.
abbrev pub written_bytes : BpVocab → ℕ → List ℕ → List ℕ
written_bytes v flags [] = []
written_bytes v flags (id ∷ ids) =
    let rest = written_bytes v flags ids in
    if is_skipped v flags id then rest else token_bytes v id ++ rest

module _ (v : BpVocab) (flags : ℕ) where
  decode_skip :
      (id : ℕ) (ids : List ℕ) (s : Sink)
      → id < v.hdr.vocab_count
      → is_skipped v flags id ≡ true
      → decode_loop v flags (id ∷ ids) s ≡ decode_loop v flags ids s
  unfolding decode_loop
  decode_skip id ids s below skipped = rw (lt→leb _ _ below, skipped)

  decode_put :
      (id : ℕ) (ids : List ℕ) (s : Sink)
      → id < v.hdr.vocab_count
      → is_skipped v flags id ≡ false
      → token_len v id ≢ 0
      → decode_loop v flags (id ∷ ids) s
        ≡ decode_loop v flags ids (bp_sink_put s (token_bytes v id))
  unfolding decode_loop
  decode_put id ids s below kept long = rw (lt→leb _ _ below, kept, ne→== _ _ long)

  decode_none : (s : Sink) → decode_loop v flags [] s ≡ record { code = count s.total; sink = s }
  unfolding decode_loop
  decode_none s = refl

  -- What the loop returns after legal ids only.
  pub record Decodes (orig : Buffer) (bytes : List ℕ) (d : Decoded) : Type 0 where
    pub counted : d.code ≡ count (length bytes)
    pub held : Holds orig bytes d.sink

  pub decode_loop-shown :
      (orig : Buffer) (ids xs : List ℕ) (s : Sink)
      → All (IsLegal v flags) ids
      → Holds orig xs s
      → Decodes orig (xs ++ written_bytes v flags ids) (decode_loop v flags ids s)
  decode_loop-shown orig [] xs s legal h =
      rw (append-nil xs, decode_none s) (record { counted = ap count h.counted; held = h })
  decode_loop-shown orig (id ∷ ids) xs s (one, legal) h =
      elim (Bool-cases (is_skipped v flags id)) [
        | inl e ↦ rw (e, decode_skip id ids s one.below e) (decode_loop-shown orig ids xs s legal h)
        | inr e ↦ elim one.written [
          | inl skipped ↦ absurd (cc)
          | inr long ↦
              rw (e, decode_put id ids s one.below e long)
                (subst
                  (λ t. Decodes orig t (decode_loop v flags ids (bp_sink_put s (token_bytes v id))))
                  (append_assoc xs (token_bytes v id) (written_bytes v flags ids))
                  (decode_loop-shown orig ids (xs ++ token_bytes v id)
                    (bp_sink_put s (token_bytes v id)) legal
                    (bp_sink_put-Holds h (token_bytes v id))))
        ]
      ]

  -- An id that is out of range, or that has no bytes and is not skipped, gives `BP_E_RANGE`,
  -- whatever follows it.
  pub decode_loop-range :
      (good : List ℕ) (id : ℕ) (more : List ℕ) (s : Sink)
      → All (IsLegal v flags) good
      → IsIllegal v flags id
      → (decode_loop v flags (good ++ (id ∷ more)) s).code ≡ error range
  unfolding decode_loop
  decode_loop-range [] id more s legal bad = elim bad.failing [
    | inl above ↦ rw (le→leb _ _ above)
    | inr (kept, empty) ↦ elim (Bool-cases (leb v.hdr.vocab_count id)) [
      | inl e ↦ rw e
      | inr e ↦ rw (e, kept, empty)
    ]
  ]
  decode_loop-range (x ∷ good) id more s (one, legal) bad =
      elim (Bool-cases (is_skipped v flags x)) [
        | inl e ↦
            rw (decode_skip x (good ++ (id ∷ more)) s one.below e)
              (decode_loop-range good id more s legal bad)
        | inr e ↦ elim one.written [
          | inl skipped ↦ absurd (cc)
          | inr long ↦
              rw (decode_put x (good ++ (id ∷ more)) s one.below e long)
                (decode_loop-range good id more (bp_sink_put s (token_bytes v x)) legal bad)
        ]
      ]

-- The bytes of the ids, without those of special tokens where the flags ask for that.
abbrev pub shown : BpVocab → ℕ → List ℕ → List ℕ
shown v flags [] = []
shown v flags (id ∷ ids) =
    let rest = shown v flags ids in
    if is_set flags bp_skip_special && special v.added id then rest else token_bytes v id ++ rest

written-shown :
    (v : BpVocab) (flags : ℕ) (ids : List ℕ)
    → Ascends v.added
    → length v.added ≡ v.hdr.added_count
    → written_bytes v flags ids ≡ shown v flags ids
written-shown v flags [] up counted = refl
written-shown v flags (id ∷ ids) up counted =
    rw (is_skipped-special v id up flags counted, written-shown v flags ids up counted) refl

-- The same with the code's own search.
pub bp_decode_written :
    (c : BpCtx) (ids : List ℕ) (n : ℕ) (block : List ℕ) (cap flags : ℕ)
    → All (IsLegal c.v flags) (take n ids)
    → cap ≤ length block
    → bp_decode (some c) (some ids) n (some block) cap flags ≡ record {
      code = count (length (written_bytes c.v flags (take n ids)));
      ctx = some c;
      out =
          some
            (filled (record { cells = block; room = cap }) (written_bytes c.v flags (take n ids)));
    }
unfolding bp_decode decode_reply
bp_decode_written c ids n block cap flags legal room =
    let start : Sink = record { out = block; cap = cap; total = 0 } in
    let orig : Buffer = record { cells = block; room = cap } in
    let d : Decodes c.v flags orig (written_bytes c.v flags (take n ids))
        (decode_loop c.v flags (take n ids) start) =
      decode_loop-shown c.v flags orig (take n ids) [] start legal (start-Holds block cap room) in
    rw (d.counted, Holds-filled d.held)

-- For a vocabulary whose added records have rising ids, as many as its header says, `n` legal ids
-- and a `cap` within the block, `bp_decode` returns the number of bytes of the ids, without those
-- of which an added record says that they are special where the flags ask for that, and the block
-- holds the first `cap` of them, with the caller's own cells behind.
pub bp_decode-shown :
    (c : BpCtx) (ids : List ℕ) (n : ℕ) (block : List ℕ) (cap flags : ℕ)
    → Ascends c.v.added
    → length c.v.added ≡ c.v.hdr.added_count
    → All (IsLegal c.v flags) (take n ids)
    → cap ≤ length block
    → bp_decode (some c) (some ids) n (some block) cap flags ≡ record {
      code = count (length (shown c.v flags (take n ids)));
      ctx = some c;
      out = some (filled (record { cells = block; room = cap }) (shown c.v flags (take n ids)));
    }
bp_decode-shown c ids n block cap flags up counted legal room =
    rw (← written-shown c.v flags (take n ids) up counted)
      (bp_decode_written c ids n block cap flags legal room)

-- Legal ids, then one that is out of range or that has no bytes and is not skipped, give
-- `BP_E_RANGE`, whatever follows.
pub bp_decode-range :
    (c : BpCtx) (good : List ℕ) (id : ℕ) (more : List ℕ) (block : List ℕ) (cap flags : ℕ)
    → All (IsLegal c.v flags) good
    → IsIllegal c.v flags id
    → (bp_decode
        (some c)
        (some (good ++ (id ∷ more)))
        (length (good ++ (id ∷ more)))
        (some block)
        cap
        flags).code
      ≡ error range
unfolding bp_decode decode_reply
bp_decode-range c good id more block cap flags legal bad =
    rw (take_all (length (good ++ (id ∷ more))) (good ++ (id ∷ more)) (omega arith)) (
      decode_loop-range c.v flags good id more (record { out = block; cap = cap; total = 0 }) legal
        bad)
