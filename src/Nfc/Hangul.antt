-- ===== src/Nfc/Hangul.antt =====
-- src/bp_nfc.c `decompose_one` and `compose_pair` on Hangul syllables.
use bytepair.Base.{ℕ, ◌+◌, ◌-◌, ◌*◌, ◌/◌, ◌%◌, ◌<◌, ◌≤◌, ◌==◌, true}
use bytepair.Base.{
  Bool-cases, [], ◌∷◌, arith, ◌≡◌, ap, ◌∙◌, inl, inr, ==_iff, ==→ne, ne→==, lt→leb, lt→ltb, none,
  some,
}
use bytepair.Tables.{UcTables}
use bytepair.Nfc.{
  starter_at, is_hangul_s, decompose_hangul, decompose_one, compose_pair, canonical_compose,
  compose_loop, compose_step, composite, keep_cpe, replace_starter, Composing,
}

inside : (cp : ℕ) → is_hangul_s cp ≡ true → (0xAC00 ≤ cp) × (cp < 0xAC00 + 11172)
unfolding is_hangul_s
inside cp h = ground arith

module _ (u : UcTables) where
  -- The leading consonant and the vowel.
  compose-lead :
      (q r : ℕ)
      → q < 19
      → r < 21
      → compose_pair u (0x1100 + q) (0x1161 + r) ≡ 0xAC00 + (q * 21 + r) * 28
  unfolding compose_pair
  compose-lead q r hq hr = ground arith

  -- A syllable without a trailing consonant, and one.
  compose-trail :
      (q t : ℕ)
      → q < 399
      → 0 < t
      → t < 28
      → compose_pair u (0xAC00 + q * 28) (0x11A7 + t) ≡ 0xAC00 + q * 28 + t
  unfolding compose_pair is_hangul_s
  compose-trail q t hq pos ht = ground arith

  abbrev after : ℕ → Composing
  after cp = record { kept = starter_at cp ∷ []; starter = some 0 }

  first_step :
      (a : ℕ)
      → a < 0x110000
      → compose_step u (record { kept = []; starter = none }) (starter_at a) ≡ after a
  unfolding compose_step composite keep_cpe
  first_step a h = rw (lt→leb 0x110000 a h)

  next_step :
      (a b c : ℕ)
      → b < 0x110000
      → 0 < c
      → compose_pair u a b ≡ c
      → compose_step u (after a) (starter_at b) ≡ after c
  unfolding compose_step composite replace_starter
  next_step a b c h pos e = rw (lt→ltb _ _ h, e, ne→== c 0 (λ z. absurd (omega arith)))

  compose_two :
      (a b c : ℕ)
      → a < 0x110000
      → b < 0x110000
      → 0 < c
      → compose_pair u a b ≡ c
      → canonical_compose u (starter_at a ∷ starter_at b ∷ []) ≡ starter_at c ∷ []
  unfolding canonical_compose compose_loop
  compose_two a b c ha hb pos e =
      ap (λ (s : Composing). (compose_loop u s (starter_at b ∷ [])).kept) (first_step a ha)
      ∙ ap (λ (s : Composing). s.kept) (next_step a b c hb pos e)

  compose_three :
      (a b c d e : ℕ)
      → a < 0x110000
      → b < 0x110000
      → d < 0x110000
      → 0 < c
      → 0 < e
      → compose_pair u a b ≡ c
      → compose_pair u c d ≡ e
      → canonical_compose u (starter_at a ∷ starter_at b ∷ starter_at d ∷ []) ≡ starter_at e ∷ []
  unfolding canonical_compose compose_loop
  compose_three a b c d e ha hb hd pc pe h k =
      ap (λ (s : Composing). (compose_loop u s (starter_at b ∷ starter_at d ∷ [])).kept)
        (first_step a ha)
      ∙ ap (λ (s : Composing). (compose_loop u s (starter_at d ∷ [])).kept)
          (next_step a b c hb pc h)
      ∙ ap (λ (s : Composing). s.kept) (next_step c d e hd pe k)

  -- Whatever the tables, composing what a Hangul syllable decomposes to, two or three
  -- conjoining letters, gives the syllable back.
  pub compose-decompose_hangul :
      (cp : ℕ)
      → is_hangul_s cp ≡ true
      → canonical_compose u (decompose_one u cp) ≡ starter_at cp ∷ []
  unfolding decompose_one decompose_hangul
  compose-decompose_hangul cp h =
      let (low, high) = inside cp h in
      let lead =
        compose-lead ((cp - 0xAC00) / 588) ((cp - 0xAC00) % 588 / 28) (omega arith) (omega arith) in
      elim (Bool-cases ((cp - 0xAC00) % 28 == 0)) [
        | inl e ↦
            let whole = (==_iff ((cp - 0xAC00) % 28) 0).0 e in
            rw (h, e)
              (compose_two (0x1100 + (cp - 0xAC00) / 588) (0x1161 + (cp - 0xAC00) % 588 / 28) cp
                (omega arith) (omega arith) (omega arith) (lead ∙ omega arith))
        | inr e ↦
            let rest = ==→ne ((cp - 0xAC00) % 28) 0 e in
            let trail =
              compose-trail ((cp - 0xAC00) / 28) ((cp - 0xAC00) % 28) (omega arith) (omega arith)
                (omega arith) in
            rw (h, e)
              (compose_three (0x1100 + (cp - 0xAC00) / 588) (0x1161 + (cp - 0xAC00) % 588 / 28)
                (0xAC00 + (cp - 0xAC00) / 28 * 28) (0x11A7 + (cp - 0xAC00) % 28) cp (omega arith)
                (omega arith) (omega arith) (omega arith) (omega arith) (lead ∙ omega arith)
                (trail ∙ omega arith))
      ]
