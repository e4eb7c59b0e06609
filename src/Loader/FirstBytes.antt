-- ===== src/Loader/FirstBytes.antt =====
-- src/bp_vocab.c: the map of the first bytes of the added tokens, and the byte that they may share.
use bytepair.Base.{
  ℕ, zero, suc, ◌/◌, ◌%◌, ◌^◌, ◌<◌, ltb, ◌==◌, bit_and, bit_or, zeros, set, length-set,
}
use bytepair.Base.{Bool, true, false, ◌&&◌, ◌||◌, not, both, Bool-cases, ltb→lt, ==_iff, ==→ne}
use bytepair.Base.{all_below, all_below_sound, and_mask, get_or-set_self, get_or-set_ne}
use bytepair.Base.{
  List, [], ◌∷◌, length, get_or, All, All-get_or, arith, ◌≡◌, refl, sym, ◌∙◌, inl, inr,
}
use bytepair.Utf8.Laws.{IsByte}
use bytepair.Vocab.{BpvAdded, BpVocab}
use bytepair.Encode.{is_set, is_first_byte}
use bytepair.Loader.Matcher.{first_byte, mark, mark_all, all_start_with}

abbrev with_bit : ℕ → ℕ → ℕ
with_bit m k = bit_or m (2 ^ k % 256)

abbrev keeps_bit : ℕ → Bool
keeps_bit m = all_below 8 (λ k.
    ltb (with_bit m k) 256
    && (is_set (with_bit m k) (2 ^ k)
        && all_below 8 (λ j. not (is_set m (2 ^ j)) || is_set (with_bit m k) (2 ^ j))))

bit_table : all_below 256 keeps_bit ≡ true
unfolding all_below
bit_table = refl

-- What the table says of a cell and of two bits.
record BitFacts (m k : ℕ) : Type 0 where
  byte : with_bit m k < 256
  added : is_set (with_bit m k) (2 ^ k) ≡ true
  kept : (j : ℕ) → j < 8 → is_set m (2 ^ j) ≡ true → is_set (with_bit m k) (2 ^ j) ≡ true

either : (a b : Bool) → (not a || b) ≡ true → a ≡ true → b ≡ true
either true b e h = e
either false b e h = absurd (cc)

bit_facts : (m k : ℕ) → IsByte m → k < 8 → BitFacts m k
bit_facts m k hm hk =
    let cell = all_below_sound 256 keeps_bit m bit_table hm in
    let (small, rest) = both _ _ (
      all_below_sound 8
        (λ k.
          ltb (with_bit m k) 256
          && (is_set (with_bit m k) (2 ^ k)
              && all_below 8 (λ j. not (is_set m (2 ^ j)) || is_set (with_bit m k) (2 ^ j))))
        k cell hk) in
    let (self, others) = both _ _ rest in
    record {
      byte = ltb→lt _ _ small;
      added = self;
      kept = λ j hj. either _ _ (
          all_below_sound 8 (λ j. not (is_set m (2 ^ j)) || is_set (with_bit m k) (2 ^ j)) j others
            hj);
    }

abbrev marked : List ℕ → ℕ → Bool
marked map b = is_set (get_or map (b / 2 ^ 3) 0) (2 ^ bit_and b 7)

low_three : (b : ℕ) → bit_and b 7 < 8
low_three b = omega (arith, and_mask 3 b)

record IsMap (map : List ℕ) : Type 0 where
  size : length map ≡ 32
  bytes : All IsByte map

All-set {ℓ} :
    {A : Type ℓ} (P : A → Type 0) (xs : List A) (i : ℕ) (x : A)
    → All P xs
    → P x
    → All P (set xs i x)
All-set P [] i x h p = tt
All-set P (y ∷ xs) zero x (py, h) p = (p, h)
All-set P (y ∷ xs) (suc i) x (py, h) p = (py, All-set P xs i x h p)

module _ (map : List ℕ) (is_map : IsMap map) (c : ℕ) (hc : IsByte c) where
  abbrev cell : ℕ
  cell = get_or map (c / 2 ^ 3) 0

  facts : BitFacts cell (bit_and c 7)
  facts =
      bit_facts cell (bit_and c 7)
        (All-get_or IsByte map (c / 2 ^ 3) 0 is_map.bytes (omega (arith, is_map.size)))
        (low_three c)

  mark-IsMap : IsMap (mark map c)
  unfolding mark
  mark-IsMap = record {
    size = length-set map (c / 2 ^ 3) (with_bit cell (bit_and c 7)) ∙ is_map.size;
    bytes = All-set IsByte map (c / 2 ^ 3) (with_bit cell (bit_and c 7)) is_map.bytes facts.byte;
  }

  mark-marked : marked (mark map c) c ≡ true
  unfolding mark
  mark-marked =
      rw
        (get_or-set_self map (c / 2 ^ 3) (with_bit cell (bit_and c 7)) 0
          (omega (arith, is_map.size)))
        facts.added

  mark-keeps : (b : ℕ) → marked map b ≡ true → marked (mark map c) b ≡ true
  unfolding mark
  mark-keeps b h = elim (Bool-cases (c / 2 ^ 3 == b / 2 ^ 3)) [
    | inl same ↦
        let e = (==_iff (c / 2 ^ 3) (b / 2 ^ 3)).0 same in
        rw
          (
            ← e,
            get_or-set_self map (c / 2 ^ 3) (with_bit cell (bit_and c 7)) 0
                (omega (arith, is_map.size)),
          )
          (facts.kept (bit_and b 7) (low_three b) (rw (← e) at h))
    | inr other ↦
        rw
          (get_or-set_ne map (c / 2 ^ 3) (b / 2 ^ 3) (with_bit cell (bit_and c 7)) 0
            (==→ne (c / 2 ^ 3) (b / 2 ^ 3) other))
          h
  ]

module _ (blob : List ℕ) where
  abbrev AreBytes : List BpvAdded → Type 0
  AreBytes = All (λ a. IsByte (first_byte blob a))

  mark_all-keeps :
      (added : List BpvAdded) (map : List ℕ) (b : ℕ)
      → IsMap map
      → AreBytes added
      → marked map b ≡ true
      → marked (mark_all blob added map) b ≡ true
  unfolding mark_all
  mark_all-keeps [] map b is_map bytes h = h
  mark_all-keeps (a ∷ added) map b is_map (one, bytes) h =
      mark_all-keeps added (mark map (first_byte blob a)) b
        (mark-IsMap map is_map (first_byte blob a) one) bytes
        (mark-keeps map is_map (first_byte blob a) one b h)

  mark_all-marked :
      (added : List BpvAdded) (map : List ℕ)
      → IsMap map
      → AreBytes added
      → All (λ a. marked (mark_all blob added map) (first_byte blob a) ≡ true) added
  unfolding mark_all
  mark_all-marked [] map is_map bytes = tt
  mark_all-marked (a ∷ added) map is_map (one, bytes) = (
    mark_all-keeps added (mark map (first_byte blob a)) (first_byte blob a)
        (mark-IsMap map is_map (first_byte blob a) one) bytes
        (mark-marked map is_map (first_byte blob a) one),
    mark_all-marked added (mark map (first_byte blob a))
        (mark-IsMap map is_map (first_byte blob a) one) bytes,
  )

  All-first_bytes :
      (fb : ℕ) (added : List BpvAdded)
      → all_start_with blob fb added ≡ true
      → All (λ a. (first_byte blob a == fb) ≡ true) added
  unfolding all_start_with
  All-first_bytes fb [] h = tt
  All-first_bytes fb (a ∷ added) h =
      let (one, rest) = both _ _ h in (one, All-first_bytes fb added rest)

zeros-IsMap : IsMap (zeros 32)
zeros-IsMap = record { size = refl; bytes = zero_bytes 32 }
  where
    zero_bytes : (n : ℕ) → All IsByte (zeros n)
    zero_bytes zero = tt
    zero_bytes (suc n) = (omega arith, zero_bytes n)

-- Whichever of the two the scan uses, it stops at the first byte of every added token.
pub is_first_byte-All :
    (v : BpVocab) (added : List BpvAdded)
    → All (λ a. IsByte (first_byte v.blob a)) added
    → v.added_single_first ≡ all_start_with v.blob v.added_first added
    → v.added_first_map ≡ mark_all v.blob added (zeros 32)
    → All (λ a. is_first_byte v (first_byte v.blob a) ≡ true) added
unfolding is_first_byte
is_first_byte-All v added bytes single map = elim (Bool-cases v.added_single_first) [
  | inl e ↦ rw e (All-first_bytes v.blob v.added_first added (sym single ∙ e))
  | inr e ↦ rw (e, map) (mark_all-marked v.blob added (zeros 32) zeros-IsMap bytes)
]
