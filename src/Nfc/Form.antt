-- ===== src/Nfc/Form.antt =====
-- src/bp_nfc.c `bp_nfc`: the text it hands on, whatever the buffers of the context.
use mathlib.Core.Path.{subst}
use bytepair.Base.{ℕ, ◌*◌, ◌+◌, ◌<◌, ◌==◌, leb, if◌then◌else◌, bit_and, Bool, true, Bool-cases}
use bytepair.Base.{
  some, List, [], ◌∷◌, length, All, All-append, arith, ◌≡◌, refl, sym, ltb, ◌⊎◌, inl, inr,
}
use bytepair.Utf8.{encode_cp}
use bytepair.Utf8.Laws.{IsByte, encode_cp-encoding, encoding}
use bytepair.Vocab.{BpVocab}
use bytepair.Context.{BpCtx}
use bytepair.Context.Reserve.{IsGranting, bp_buf_reserve_granted}
use bytepair.Tables.{UcTables}
use bytepair.Nfc.{
  Cpe, flag_nfc, cpe_size, decompose_all, canonical_order, canonical_compose, encode_all,
  Normalized, normalize_full, is_kept, bp_nfc,
}

-- The text itself, or its decomposition, ordered and composed.
unfoldable pub normal_form : UcTables → BpVocab → List ℕ → List ℕ
normal_form u v s =
    if is_kept u v s
    then s
    else encode_all (canonical_compose u (canonical_order (decompose_all u (length s) s)))

-- The normaliser needs no buffers, or it gets them.
abbrev pub IsNormalizable : (ℕ → Bool) → UcTables → BpVocab → List ℕ → Type 0
IsNormalizable alloc u v s = (is_kept u v s ≡ true) ⊎ IsGranting alloc

pub normal_form-keeps :
    (u : UcTables) (v : BpVocab) (s : List ℕ) → is_kept u v s ≡ true → normal_form u v s ≡ s
unfolding normal_form
normal_form-keeps u v s k = rw k refl

pub normal_form-empty :
    (u : UcTables) (v : BpVocab) (s : List ℕ) → (length s == 0) ≡ true → normal_form u v s ≡ s
unfolding is_kept
normal_form-empty u v s e =
    normal_form-keeps u v s (elim (Bool-cases (bit_and v.hdr.flags flag_nfc == 0)) [
      | inl off ↦ rw off refl
      | inr on ↦ rw (on, e) refl
    ])

-- What `bp_nfc` leaves behind: the text, and buffers of some capacity.
pub record IsNormalized (u : UcTables) (c : BpCtx) (s : List ℕ) (n : Normalized) : Type 0 where
  pub work : ℕ
  pub norm : ℕ
  pub same : n ≡ record {
    ctx = record c { work_cap = work; norm_cap = norm };
    text = some (normal_form u c.v s);
  }

pub bp_nfc-IsNormalized :
    (alloc : ℕ → Bool) (u : UcTables) (c : BpCtx) (s : List ℕ)
    → IsNormalizable alloc u c.v s
    → IsNormalized u c s (bp_nfc alloc u c s)
unfolding bp_nfc normal_form normalize_full
bp_nfc-IsNormalized alloc u c s can = elim (Bool-cases (is_kept u c.v s)) [
  | inl kept ↦ record { work = c.work_cap; norm = c.norm_cap; same = rw kept refl }
  | inr changed ↦ elim can [
    | inl kept ↦ absurd (cc (kept, changed))
    | inr grants ↦
        let buf = canonical_compose u (canonical_order (decompose_all u (length s) s)) in
        let (work, worked) =
          bp_buf_reserve_granted alloc c.work_cap ((length s * 4 + 1) * cpe_size) grants in
        let (norm, normed) = bp_buf_reserve_granted alloc c.norm_cap (length buf * 4 + 1) grants in
        record {
          work = work;
          norm = norm;
          same = rw (changed, normalize_full, worked, normed) refl;
        }
  ]
]

encoding-bytes : (cp : ℕ) → cp < 0x110000 → All IsByte (encoding cp)
encoding-bytes cp h = elim (Bool-cases (ltb cp 128)) [
  | inl one ↦ rw one (ground arith, tt)
  | inr more ↦ elim (Bool-cases (ltb cp 2048)) [
    | inl two ↦ rw (more, two) (ground arith, (omega arith, tt))
    | inr rest ↦ elim (Bool-cases (ltb cp 65536)) [
      | inl three ↦ rw (more, rest, three) (ground arith, (omega arith, (omega arith, tt)))
      | inr four ↦
          rw (more, rest, four) (omega arith, (omega arith, (omega arith, (omega arith, tt))))
    ]
  ]
]

encode_cp-bytes : (cp : ℕ) → All IsByte (encode_cp cp)
unfolding encode_cp
encode_cp-bytes cp = elim (Bool-cases (leb 0x110000 cp)) [
  | inl out ↦ rw out (omega arith, tt)
  | inr fits ↦
      let small : cp < 0x110000 = ground arith in
      subst (All IsByte) (sym (encode_cp-encoding cp small)) (encoding-bytes cp small)
]

encode_all-bytes : (buf : List Cpe) → All IsByte (encode_all buf)
unfolding encode_all
encode_all-bytes [] = tt
encode_all-bytes (x ∷ buf) =
    All-append IsByte (encode_cp x.cp) (encode_all buf) (encode_cp-bytes x.cp)
      (encode_all-bytes buf)

pub normal_form-bytes :
    (u : UcTables) (v : BpVocab) (s : List ℕ) → All IsByte s → All IsByte (normal_form u v s)
unfolding normal_form
normal_form-bytes u v s bytes = elim (Bool-cases (is_kept u v s)) [
  | inl kept ↦ rw kept bytes
  | inr changed ↦ rw changed (encode_all-bytes _)
]
