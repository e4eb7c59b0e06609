-- ===== src/Decode/Special/Search.antt =====
-- src/bp_encode.c `bp_decode`: the binary search for a special token finds what the list says.
use mathlib.Core.Logic.{◌≢◌}
use bytepair.Base.{ℕ, zero, suc, ◌+◌, ◌/◌, ◌<◌, ◌≤◌, ltb}
use bytepair.Base.{false, ◌&&◌, Bool-cases, length}
use bytepair.Base.{lt→ltb, ltb→lt, ltb→le, arith, ◌≡◌, refl, ap, sym, ◌∙◌, inl, inr}
use bytepair.Vocab.{BpVocab}
use bytepair.Encode.{is_set, bp_skip_special}
use bytepair.Decode.{is_special, is_skipped}
use bytepair.Decode.Special.{
  special, Ascends, at, Ascends-at, special_found, special_missed, place_of, at_mono,
}

module _ (v : BpVocab) (id : ℕ) (up : Ascends v.added) where
  -- Where the id stands in front of a place, behind it, or at it.
  in_front :
      (mid k : ℕ)
      → mid < length v.added
      → k < length v.added
      → id < (at v.added mid).id
      → (at v.added k).id ≡ id
      → k < mid
  in_front mid k inside within above e = elim (Bool-cases (ltb k mid)) [
    | inl lt ↦ ltb→lt _ _ lt
    | inr ge ↦ absurd (omega (arith, at_mono v.added mid k up (ltb→le _ _ ge) within, above, e))
  ]

  behind :
      (mid k : ℕ)
      → mid < length v.added
      → (at v.added mid).id < id
      → (at v.added k).id ≡ id
      → mid < k
  behind mid k inside below e = elim (Bool-cases (ltb mid k)) [
    | inl lt ↦ ltb→lt _ _ lt
    | inr ge ↦ absurd (omega (arith, at_mono v.added k mid up (ltb→le _ _ ge) inside, below, e))
  ]

  meets :
      (i j : ℕ)
      → i < length v.added
      → j < length v.added
      → (at v.added i).id ≡ (at v.added j).id
      → i ≡ j
  meets i j inside within e = elim (Bool-cases (ltb i j)) [
    | inl lt ↦ absurd (omega (arith, Ascends-at v.added i j up (ltb→lt _ _ lt) within, e))
    | inr ge ↦ elim (Bool-cases (ltb j i)) [
      | inl gt ↦ absurd (omega (arith, Ascends-at v.added j i up (ltb→lt _ _ gt) inside, e))
      | inr le ↦ omega (arith, ltb→le _ _ ge, ltb→le _ _ le)
    ]
  ]

  is_special_found :
      (fuel lo hi k : ℕ)
      → hi ≤ length v.added
      → hi ≤ fuel + lo
      → lo ≤ k
      → k < hi
      → (at v.added k).id ≡ id
      → is_special v id fuel lo hi ≡ is_set (at v.added k).flags 1
  unfolding is_special
  is_special_found zero lo hi k inside enough from to e = absurd (omega arith)
  is_special_found (suc fuel) lo hi k inside enough from to e =
      let mid = (lo + hi) / 2 in
      let some_left = lt→ltb lo hi (omega arith) in
      elim (Bool-cases (ltb (at v.added mid).id id)) [
        | inl below ↦
            let past = behind mid k (omega arith) (ltb→lt _ _ below) e in
            rw (is_special, some_left, below)
              (is_special_found fuel (mid + 1) hi k inside (omega arith) (omega arith) to e)
        | inr ge ↦ elim (Bool-cases (ltb id (at v.added mid).id)) [
          | inl above ↦
              let before = in_front mid k (omega arith) (omega arith) (ltb→lt _ _ above) e in
              rw (is_special, some_left, ge, above)
                (is_special_found fuel lo mid k (omega arith) (omega arith) from before e)
          | inr le ↦
              let same =
                meets mid k (omega arith) (omega arith)
                  (omega (arith, ltb→le _ _ ge, ltb→le _ _ le, e)) in
              rw (is_special, some_left, ge, le) (ap (λ i. is_set (at v.added i).flags 1) same)
        ]
      ]

  is_special_missed :
      (fuel lo hi : ℕ)
      → hi ≤ length v.added
      → ((k : ℕ) → k < length v.added → (at v.added k).id ≢ id)
      → is_special v id fuel lo hi ≡ false
  unfolding is_special
  is_special_missed zero lo hi inside gone = refl
  is_special_missed (suc fuel) lo hi inside gone =
      let mid = (lo + hi) / 2 in
      elim (Bool-cases (ltb lo hi)) [
        | inr empty ↦ rw (is_special, empty) refl
        | inl some_left ↦
            let more : lo < hi = ltb→lt _ _ some_left in
            elim (Bool-cases (ltb (at v.added mid).id id)) [
              | inl below ↦
                  rw (is_special, some_left, below)
                    (is_special_missed fuel (mid + 1) hi inside gone)
              | inr ge ↦ elim (Bool-cases (ltb id (at v.added mid).id)) [
                | inl above ↦
                    rw (is_special, some_left, ge, above)
                      (is_special_missed fuel lo mid (omega arith) gone)
                | inr le ↦
                    absurd (gone mid (omega arith) (omega (arith, ltb→le _ _ ge, ltb→le _ _ le)))
              ]
            ]
      ]

  pub is_skipped-special :
      (flags : ℕ)
      → length v.added ≡ v.hdr.added_count
      → is_skipped v flags id ≡ (is_set flags bp_skip_special && special v.added id)
  unfolding is_skipped
  is_skipped-special flags counted =
      ap (λ b. is_set flags bp_skip_special && b)
        (elim (place_of v.added id) [
          | inl (k, inside, e) ↦
              is_special_found v.hdr.added_count 0 v.hdr.added_count k (omega arith) (omega arith)
                (omega arith) (omega arith) e
              ∙ sym (special_found v.added id k up inside e)
          | inr gone ↦
              is_special_missed v.hdr.added_count 0 v.hdr.added_count (omega arith) gone
              ∙ sym (special_missed v.added id gone)
        ])
