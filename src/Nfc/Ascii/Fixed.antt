-- ===== src/Nfc/Ascii/Fixed.antt =====
-- src/bp_nfc.c: the full path on a text of ASCII, which the shortcut of `all_ascii` does not take.
use mathlib.Core.List.{reverse_aux}
use bytepair.Base.{ℕ, zero, suc, ◌+◌, ◌-◌, ◌*◌, ◌==◌, ltb, leb, lt→ltb, Bool, true, false, ◌||◌}
use bytepair.Base.{Bool-cases, Option, none, some, List, [], ◌∷◌, ◌++◌, length, get_or}
use bytepair.Base.{
  map, append-nil, append_assoc, All, All-append, arith, ◌≡◌, refl, ap, sym, ◌∙◌, inl, inr,
}
use bytepair.Utf8.{bp_utf8_next, encode_cp}
use bytepair.Utf8.Laws.{IsByte, encode_cp-encoding}
use bytepair.Tables.{UcTables, bp_ccc}
use bytepair.Tables.Lookup.{bp_decomp, bp_compose}
use bytepair.Context.{BpCtx}
use bytepair.Context.Reserve.{IsGranting, bp_buf_reserve_granted}
use bytepair.Nfc.{
  Cpe, no_cpe, starter_at, is_hangul_s, decompose_one, decompose_all, compose_pair, order_loop,
  canonical_order, Composing, keep_cpe, composite, compose_step, compose_loop, canonical_compose,
  encode_all, normalize_full, cpe_size, all_ascii, is_kept, bp_nfc,
}
use bytepair.Nfc.Ascii.{IsAscii, all_ascii-IsAscii}

-- What the tables say of ASCII: class 0, no decomposition, and no composite of two.
pub record AsciiPlain (u : UcTables) : Type 0 where
  pub no_class : (b : ℕ) → IsAscii b → bp_ccc u b ≡ 0
  pub no_decomp : (b : ℕ) → IsAscii b → bp_decomp u b ≡ []
  pub no_composite : (a b : ℕ) → IsAscii a → IsAscii b → bp_compose u a b ≡ 0

next-ascii : (b : ℕ) (p : List ℕ) → IsAscii b → bp_utf8_next (b ∷ p) ≡ record { cp = b; adv = 1 }
unfolding bp_utf8_next
next-ascii b p low = rw (lt→ltb b 0x80 low) refl

encode_cp-ascii : (b : ℕ) → IsAscii b → encode_cp b ≡ b ∷ []
encode_cp-ascii b low = encode_cp-encoding b (omega arith) ∙ rw (lt→ltb b 128 low) refl

module _ (u : UcTables) (plain : AsciiPlain u) where
  decompose_one-ascii : (b : ℕ) → IsAscii b → decompose_one u b ≡ starter_at b ∷ []
  unfolding decompose_one is_hangul_s
  decompose_one-ascii b low =
      let below : leb 0xAC00 b ≡ false = ground arith in
      rw (below, plain.no_decomp b low, plain.no_class b low) refl

  decompose_all-ascii :
      (s : List ℕ) → All IsAscii s → decompose_all u (length s) s ≡ map starter_at s
  unfolding decompose_all
  decompose_all-ascii [] low = refl
  decompose_all-ascii (b ∷ s) (low, lows) =
      let more : (suc (length s) == 0) ≡ false = ground arith in
      let real : (b == 0xFFFFFFFF) ≡ false = ground arith in
      rw (decompose_all, more, next-ascii b s low, real, decompose_one-ascii b low)
        (ap (λ r. starter_at b ∷ r) (decompose_all-ascii s lows))

  get_or-IsAscii :
      (kept : List Cpe) (i : ℕ) → All (λ x. IsAscii x.cp) kept → IsAscii (get_or kept i no_cpe).cp
  get_or-IsAscii [] i low = omega arith
  get_or-IsAscii (x ∷ kept) zero (low, lows) = low
  get_or-IsAscii (x ∷ kept) (suc i) (low, lows) = get_or-IsAscii kept i lows

  compose_pair-ascii : (a b : ℕ) → IsAscii a → IsAscii b → compose_pair u a b ≡ 0
  unfolding compose_pair is_hangul_s
  compose_pair-ascii a b low lowb =
      let letter : leb 0x1100 a ≡ false = ground arith in
      let syllable : leb 0xAC00 a ≡ false = ground arith in
      rw (letter, syllable) (plain.no_composite a b low lowb)

  composite-ascii :
      (s : Composing) (b : ℕ)
      → All (λ x. IsAscii x.cp) s.kept
      → IsAscii b
      → (at : Option ℕ) → composite u s (starter_at b) at ≡ 0
  unfolding composite
  composite-ascii s b lows low none = refl
  composite-ascii s b lows low (some i) =
      elim (Bool-cases
        (length s.kept == i + 1 || ltb (get_or s.kept (length s.kept - 1) no_cpe).ccc 0)) [
          | inl next ↦
              rw (composite, lt→ltb b 0x110000 (omega arith), next)
                (compose_pair-ascii _ b (get_or-IsAscii s.kept i lows) low)
          | inr far ↦ rw (composite, lt→ltb b 0x110000 (omega arith), far) refl
        ]

  compose_loop-ascii :
      (st : Composing) (s : List ℕ)
      → All (λ x. IsAscii x.cp) st.kept
      → All IsAscii s
      → (compose_loop u st (map starter_at s)).kept ≡ st.kept ++ map starter_at s
  unfolding compose_loop compose_step keep_cpe
  compose_loop-ascii st [] kept lows = sym (append-nil st.kept)
  compose_loop-ascii st (b ∷ s) kept (low, lows) =
      rw (compose_loop, compose_step, composite-ascii st b kept low st.starter)
        (compose_loop-ascii (keep_cpe st (starter_at b)) s
            (All-append (λ x. IsAscii x.cp) st.kept (starter_at b ∷ []) kept (low, tt)) lows
          ∙ append_assoc st.kept (starter_at b ∷ []) (map starter_at s))

order_loop-starters :
    (front : List Cpe) (s : List ℕ)
    → order_loop front (map starter_at s) ≡ reverse_aux front (map starter_at s)
unfolding order_loop
order_loop-starters front [] = refl
order_loop-starters front (b ∷ s) = order_loop-starters (starter_at b ∷ front) s

encode_all-ascii : (s : List ℕ) → All IsAscii s → encode_all (map starter_at s) ≡ s
unfolding encode_all
encode_all-ascii [] low = refl
encode_all-ascii (b ∷ s) (low, lows) =
    rw (encode_all, encode_cp-ascii b low) (ap (λ r. b ∷ r) (encode_all-ascii s lows))

full_path-ascii :
    (u : UcTables)
    → AsciiPlain u
    → (s : List ℕ) → All IsAscii s
    → encode_all (canonical_compose u (canonical_order (decompose_all u (length s) s))) ≡ s
unfolding canonical_compose canonical_order
full_path-ascii u plain s low =
    rw (decompose_all-ascii u plain s low, order_loop-starters [] s)
      (ap encode_all (compose_loop-ascii u plain (record { kept = []; starter = none }) s tt low)
        ∙ encode_all-ascii s low)

-- For tables in which an ASCII character has class 0 and no decomposition and two of them have no
-- composite, where every buffer is granted, and for a list of bytes that `all_ascii` accepts: the
-- full path of the normaliser gives the text itself, as `bp_nfc` does.
pub normalize_full-ascii :
    (alloc : ℕ → Bool) (u : UcTables) (c : BpCtx) (s : List ℕ)
    → AsciiPlain u
    → IsGranting alloc
    → All IsByte s
    → all_ascii s ≡ true
    → ((normalize_full alloc u c s).text ≡ some s) × ((bp_nfc alloc u c s).text ≡ some s)
unfolding normalize_full bp_nfc is_kept
normalize_full-ascii alloc u c s plain grants bytes ascii =
    let buf = canonical_compose u (canonical_order (decompose_all u (length s) s)) in
    let (work, worked) =
      bp_buf_reserve_granted alloc c.work_cap ((length s * 4 + 1) * cpe_size) grants in
    let (norm, normed) = bp_buf_reserve_granted alloc c.norm_cap (length buf * 4 + 1) grants in
    (
      rw (normalize_full, worked, normed)
          (ap some (full_path-ascii u plain s ((all_ascii-IsAscii s bytes).0 ascii))),
      ground (arith, ascii),
    )
