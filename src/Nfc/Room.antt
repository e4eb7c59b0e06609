-- ===== src/Nfc/Room.antt =====
-- src/bp_nfc.c: the room that the full path asks for, and what it writes.
use mathlib.Core.List.{reverse_aux}
use bytepair.Base.{◌^◌, ℕ, zero, suc, ◌+◌, ◌*◌, ◌≤◌, ◌==◌, ltb, leb, Bool-cases}
use bytepair.Base.{
  Bool, some, none, Option-cases, drop, List, [], ◌∷◌, length, map, length-append, length-set,
}
use bytepair.Base.{arith, ◌≡◌, refl, ap, inl, inr}
use bytepair.Utf8.{bp_utf8_next, malformed, encode_cp}
use bytepair.Utf8.Laws.{encode_cp-encoding}
use bytepair.Tables.{UcTables}
use bytepair.Tables.Lookup.{bp_decomp}
use bytepair.Context.{BpCtx, bp_buf_reserve}
use bytepair.Context.Reserve.{bp_buf_reserve_enough}
use bytepair.Nfc.{
  normalize_full, cpe_size, Cpe, is_hangul_s, decompose_hangul, decompose_one, decompose_all,
  insert_back, order_loop, canonical_order, Composing, keep_cpe, replace_starter, composite,
  compose_step, compose_loop, canonical_compose, encode_all,
}

length-map : (f : ℕ → Cpe) (xs : List ℕ) → length (map f xs) ≡ length xs
length-map f [] = refl
length-map f (x ∷ xs) = ap suc (length-map f xs)

length-encode_cp : (cp : ℕ) → length (encode_cp cp) ≤ 4
unfolding encode_cp
length-encode_cp cp = elim (Bool-cases (leb 0x110000 cp)) [
  | inl out ↦ rw out (omega arith)
  | inr fits ↦ rw (encode_cp-encoding cp (ground arith)) (elim (Bool-cases (ltb cp 128)) [
    | inl one ↦ rw one (omega arith)
    | inr more ↦ elim (Bool-cases (ltb cp 2048)) [
      | inl two ↦ rw (more, two) (omega arith)
      | inr rest ↦ elim (Bool-cases (ltb cp 65536)) [
        | inl three ↦ rw (more, rest, three) (omega arith)
        | inr four ↦ rw (more, rest, four) (omega arith)
      ]
    ]
  ])
]

length-encode_all : (buf : List Cpe) → length (encode_all buf) ≤ length buf * 4
unfolding encode_all
length-encode_all [] = omega arith
length-encode_all (x ∷ buf) = omega (
  arith,
  length-encode_cp x.cp,
  length-encode_all buf,
  length-append (encode_cp x.cp) (encode_all buf),
)

length-insert_back :
    (t : Cpe) (front : List Cpe) → length (insert_back t front) ≡ suc (length front)
unfolding insert_back
length-insert_back t [] = refl
length-insert_back t (x ∷ front) = elim (Bool-cases (ltb t.ccc x.ccc)) [
  | inl deeper ↦ rw deeper (ap suc (length-insert_back t front))
  | inr here ↦ rw here refl
]

length-reverse_aux :
    (front acc : List Cpe) → length (reverse_aux front acc) ≡ length front + length acc
length-reverse_aux [] acc = omega arith
length-reverse_aux (x ∷ front) acc = omega (arith, length-reverse_aux front (x ∷ acc))

length-order_loop :
    (front buf : List Cpe) → length (order_loop front buf) ≡ length front + length buf
unfolding order_loop
length-order_loop front [] = length-reverse_aux front []
length-order_loop front (t ∷ buf) = elim (Bool-cases (t.ccc == 0)) [
  | inl starts ↦ rw starts (omega (arith, length-order_loop (t ∷ front) buf))
  | inr mark ↦
      rw mark
        (omega (arith, length-order_loop (insert_back t front) buf, length-insert_back t front))
]

length-replace_starter :
    (s : Composing) (comp : ℕ) → length (replace_starter s comp).kept ≡ length s.kept
unfolding replace_starter
length-replace_starter s comp = elim (Option-cases s.starter) [
  | inl lost ↦ rw (replace_starter, lost) refl
  | inr (i, found) ↦ rw (replace_starter, found) (length-set s.kept i _)
]

length-compose_loop :
    (u : UcTables) (s : Composing) (buf : List Cpe)
    → length (compose_loop u s buf).kept ≤ length s.kept + length buf
unfolding compose_loop compose_step keep_cpe
length-compose_loop u s [] = omega arith
length-compose_loop u s (cur ∷ buf) =
    let comp = composite u s cur s.starter in
    elim (Bool-cases (comp == 0)) [
      | inl apart ↦
          rw (compose_loop, compose_step, apart)
            (omega
              (arith, length-compose_loop u (keep_cpe s cur) buf, length-append s.kept (cur ∷ [])))
      | inr joined ↦
          rw (compose_loop, compose_step, joined)
            (omega (
              arith,
              length-compose_loop u (replace_starter s comp) buf,
              length-replace_starter s comp,
            ))
    ]

-- The entries that are left to write.
abbrev pub composed : UcTables → List ℕ → List Cpe
composed u p = canonical_compose u (canonical_order (decompose_all u (length p) p))

module _ (u : UcTables) (short : (cp : ℕ) → length (bp_decomp u cp) ≤ 4) where
  length-decompose_one : (cp : ℕ) → length (decompose_one u cp) ≤ 4
  unfolding decompose_one decompose_hangul
  length-decompose_one cp = elim (Bool-cases (is_hangul_s cp)) [
    | inl syllable ↦ rw syllable (ground arith)
    | inr other ↦ elim (Bool-cases (length (bp_decomp u cp) == 0)) [
      | inl whole ↦ rw (other, whole) (omega arith)
      | inr parts ↦ rw (other, parts) (omega (arith, length-map _ (bp_decomp u cp), short cp))
    ]
  ]

  length-decompose_all : (fuel : ℕ) (p : List ℕ) → length (decompose_all u fuel p) ≤ fuel * 4
  unfolding decompose_all
  length-decompose_all zero p = omega arith
  length-decompose_all (suc fuel) p =
      let s = bp_utf8_next p in
      let rest = length-decompose_all fuel (drop s.adv p) in
      elim (Bool-cases (length p == 0)) [
        | inl empty ↦ rw empty (omega arith)
        | inr more ↦ elim (Bool-cases (s.cp == malformed)) [
          | inl bad ↦ rw (more, bad) (omega (arith, rest))
          | inr good ↦
              rw (more, good)
                (omega (
                  arith,
                  rest,
                  length-decompose_one s.cp,
                  length-append (decompose_one u s.cp) (decompose_all u fuel (drop s.adv p)),
                ))
        ]
      ]

  length-composed : (p : List ℕ) → length (composed u p) ≤ length (decompose_all u (length p) p)
  unfolding canonical_order canonical_compose
  length-composed p =
      let parts = decompose_all u (length p) p in
      omega (
        arith,
        length-order_loop [] parts,
        length-compose_loop u (record { kept = []; starter = none }) (order_loop [] parts),
      )

  -- For tables without a decomposition of more than four code points, and a text for which the
  -- first request of the full path is at most 2^63: where the full path succeeds, the work
  -- buffer has room for the decomposition, ordering and composing leave no more entries than
  -- that, and the output buffer has room for what is written.
  pub normalize_full_fit :
      (alloc : ℕ → Bool) (c : BpCtx) (p out : List ℕ)
      → (length p * 4 + 1) * cpe_size ≤ 2 ^ 63
      → (normalize_full alloc u c p).text ≡ some out
      → (length (decompose_all u (length p) p) * cpe_size
          ≤ (normalize_full alloc u c p).ctx.work_cap)
        × (length (composed u p) ≤ length (decompose_all u (length p) p))
        × (length out ≤ (normalize_full alloc u c p).ctx.norm_cap)
  unfolding normalize_full
  normalize_full_fit alloc c p out small e =
      let need = (length p * 4 + 1) * cpe_size in
      let parts = length-decompose_all (length p) p in
      let fewer = length-composed p in
      elim (Option-cases (bp_buf_reserve alloc c.work_cap need)) [
        | inl refused ↦ absurd (cc (rw (normalize_full, refused) at e))
        | inr (work, worked) ↦
            let room = bp_buf_reserve_enough alloc c.work_cap need small worked in
            elim (Option-cases (bp_buf_reserve alloc c.norm_cap (length (composed u p) * 4 + 1))) [
              | inl refused ↦ absurd (cc (rw (normalize_full, worked, refused) at e))
              | inr (norm, normed) ↦
                  let enough =
                    bp_buf_reserve_enough alloc c.norm_cap (length (composed u p) * 4 + 1)
                      (omega (arith, small, parts, fewer)) normed in
                  let same : encode_all (composed u p) ≡ out =
                    cc (rw (normalize_full, worked, normed) at e) in
                  rw (normalize_full, worked, normed)
                    (
                      omega (arith, room, parts),
                      fewer,
                      omega (arith, enough, length-encode_all (composed u p), ap length same),
                    )
            ]
      ]
