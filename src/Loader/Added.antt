-- ===== src/Loader/Added.antt =====
-- src/bp_vocab.c: the check on the added records, and the index that is made of them.
use bytepair.Base.{ℕ, zero, suc, ◌-◌, ◌<◌, ltb, ◌==◌, zeros}
use bytepair.Base.{true, ◌||◌, not, both, Bool-cases, ltb→lt, ==_iff}
use bytepair.Base.{Option, none, some, List, [], ◌∷◌, length, get_or, take, drop, All, All-get_or}
use bytepair.Base.{take-append_left, take_all, arith, ◌≡◌, refl, ap, ◌∙◌, inl, inr}
use bytepair.Utf8.Laws.{IsByte}
use bytepair.Vocab.{BpvHeader, BpvAdded, BpVocab, token_len, token_bytes}
use bytepair.Encode.{is_first_byte}
use bytepair.Encode.Match.{IsAdded, AddedProper}
use bytepair.Decode.Special.{Ascends}
use bytepair.Loader.Content.{width_of, added_ok, added_records}
use bytepair.Loader.Matcher.{first_byte, longest_first, sort_loop}
use bytepair.Loader.Longest.{All-map, length-longest_first}
use bytepair.Loader.FirstBytes.{is_first_byte-All}
use bytepair.Loader.Open.{Host, Sections, vocab_of}
use bytepair.Loader.Tokens.{OffsetsProper, token-inside}

-- What is checked of one record.
record Checked (v : BpVocab) (a : BpvAdded) : Type 0 where
  below : a.id < v.hdr.vocab_count
  long : 0 < a.len
  start : a.offset ≡ get_or v.tok_off a.id 0
  width : a.len ≡ width_of v.tok_off a.id

long_enough : (n : ℕ) → not (n == 0 || ltb 250 n) ≡ true → 0 < n
long_enough n h = ground arith

added_ok_step :
    (v : BpVocab) (before : Option ℕ) (a : BpvAdded) (added : List BpvAdded)
    → added_ok v.hdr v.tok_off before (a ∷ added) ≡ true
    → Checked v a × (added_ok v.hdr v.tok_off (some a.id) added ≡ true)
unfolding added_ok
added_ok_step v before a added ok =
    let (below, ok₁) = both _ _ ok in
    let (long, ok₂) = both (not (a.len == 0 || ltb 250 a.len)) _ ok₁ in
    let (start, ok₃) = both _ _ ok₂ in
    let (width, ok₄) = both _ _ ok₃ in
    let (sorted, rest) = both _ _ ok₄ in
    (
      record {
        below = ltb→lt _ _ below;
        long = long_enough a.len long;
        start = (==_iff _ _).0 start;
        width = (==_iff _ _).0 width;
      },
      rest,
    )

added_ok_sorted :
    (v : BpVocab) (b : ℕ) (a : BpvAdded) (added : List BpvAdded)
    → added_ok v.hdr v.tok_off (some b) (a ∷ added) ≡ true
    → b < a.id
unfolding added_ok
added_ok_sorted v b a added ok =
    let (below, ok₁) = both _ _ ok in
    let (long, ok₂) = both (not (a.len == 0 || ltb 250 a.len)) _ ok₁ in
    let (start, ok₃) = both _ _ ok₂ in
    let (width, ok₄) = both _ _ ok₃ in ltb→lt _ _ (both _ _ ok₄).0

added_ok-above :
    (v : BpVocab) (b : ℕ) (added : List BpvAdded)
    → added_ok v.hdr v.tok_off (some b) added ≡ true
    → All (λ a. b < a.id) added × Ascends added
added_ok-above v b [] ok = (tt, tt)
added_ok-above v b (a ∷ added) ok =
    let first = added_ok_sorted v b a added ok in
    let (above, up) = added_ok-above v a.id added (added_ok_step v (some b) a added ok).1 in
    ((first, All-map added (λ x lt. omega (arith, first, lt)) above), (above, up))

-- The ids of the records rise.
pub added_ok-Ascends :
    (v : BpVocab) (added : List BpvAdded)
    → added_ok v.hdr v.tok_off none added ≡ true
    → Ascends added
added_ok-Ascends v [] ok = tt
added_ok-Ascends v (a ∷ added) ok = added_ok-above v a.id added (added_ok_step v none a added ok).1

Checked-IsAdded : (v : BpVocab) (a : BpvAdded) → OffsetsProper v → Checked v a → IsAdded v a
unfolding token_bytes token_len width_of
Checked-IsAdded v a offsets c = record {
  below = c.below;
  long = c.long;
  inside = omega (arith, c.long, c.width, c.start, token-inside v offsets a.id c.below);
  spelt = rw (c.start, c.width) refl;
}

pub added_ok-All :
    (v : BpVocab) (before : Option ℕ) (added : List BpvAdded)
    → OffsetsProper v
    → added_ok v.hdr v.tok_off before added ≡ true
    → All (IsAdded v) added
added_ok-All v before [] offsets ok = tt
added_ok-All v before (a ∷ added) offsets ok =
    let (one, rest) = added_ok_step v before a added ok in
    (Checked-IsAdded v a offsets one, added_ok-All v (some a.id) added offsets rest)

pub length-added_records : (n : ℕ) (p : List ℕ) → length (added_records n p) ≡ n
unfolding added_records
length-added_records zero p = refl
length-added_records (suc n) p = ap suc (length-added_records n (drop 16 p))

no_entries : (P : BpvAdded → Type 0) (added : List BpvAdded) → length added ≡ 0 → All P added
no_entries P [] e = tt
no_entries P (a ∷ added) e = absurd (omega arith)

none_longest : (added : List BpvAdded) → length added ≡ 0 → [] ≡ longest_first added
unfolding longest_first sort_loop
none_longest [] e = refl
none_longest (a ∷ added) e = absurd (omega arith)

module _ (os : Host) (h : BpvHeader) (s : Sections) (counted : length s.added ≡ h.added_count)
    (bytes : All IsByte s.blob) (checked : All (IsAdded (vocab_of os h s)) s.added) where
  abbrev v : BpVocab
  v = vocab_of os h s

  order_kept : take h.added_count v.added_order ≡ longest_first s.added
  unfolding vocab_of
  order_kept = elim (Bool-cases (h.added_count == 0)) [
    | inl e ↦
        let zero_count = (==_iff h.added_count 0).0 e in
        rw (e, zero_count) (none_longest s.added (omega arith))
    | inr e ↦ rw e (
        take-append_left h.added_count (longest_first s.added) (zeros (64 - h.added_count))
          (omega (arith, length-longest_first s.added))
        ∙ take_all h.added_count (longest_first s.added)
            (omega (arith, length-longest_first s.added)))
  ]

  starts : All (λ a. is_first_byte v (first_byte s.blob a) ≡ true) s.added
  unfolding vocab_of
  starts = elim (Bool-cases (h.added_count == 0)) [
    | inl e ↦ no_entries _ s.added (omega (arith, (==_iff h.added_count 0).0 e))
    | inr e ↦
        is_first_byte-All v s.added
          (All-map s.added (λ a c. All-get_or IsByte s.blob a.offset 0 bytes c.inside) checked)
          (rw e refl) (rw e refl)
  ]

  pub vocab_of-AddedProper : AddedProper v
  unfolding vocab_of
  vocab_of-AddedProper = record {
    counted = counted;
    all_added = checked;
    ordered = order_kept;
    first_bytes = starts;
  }
