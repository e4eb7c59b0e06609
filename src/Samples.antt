-- ===== src/Samples.antt =====
-- A small vocabulary and class table that the examples run on.
pub mod Classes
pub mod File
use bytepair.Base.{
  both, count_from, zeros, ℕ, zero, suc, ◌+◌, ◌-◌, ◌*◌, ◌/◌, ◌%◌, ◌^◌, ◌<◌, ◌≤◌, ltb, leb, ◌==◌,
  if◌then◌else◌,
}
use bytepair.Base.{
  Bool, true, false, Bool-cases, ◌&&◌, ◌||◌, not, Option, none, some, bit_and, bit_or,
}
use bytepair.Base.{
  all_below, all_below_sound, and_mask, or_disjoint, ltb→lt, ltb→le, le→ltb, lt→ltb,
}
use bytepair.Base.{
  List, [], ◌∷◌, ◌++◌, length, get_or, map, arith, ◌≡◌, ◌≢◌, refl, sym, ap, ◌∙◌, ◌⊎◌, inl, inr,
}
use native.Mathlib.Nat.{mod-lt}
use bytepair.Utf8.Laws.{IsByte}
use bytepair.Tables.{UcTables, bp_char_class, two_level, ascii_class, ClassesProper}
use bytepair.Vocab.{BpVocab, token_bytes, token_len, pair_empty}
use bytepair.Vocab.Pairs.{bp_pair_lookup, pair_key}
use bytepair.Vocab.Pairs.Ends.{HasSpace}
use bytepair.Vocab.Pairs.Sound.{Holds, bp_pair_lookup_found, pair_key_lem}
use bytepair.Context.{BpCtx}
use bytepair.Bpe.{rank_bits, id_bits, no_rank}
use bytepair.Bpe.Spec.{id_of}
use bytepair.Bpe.Bytes.{IsCoherent, MergesInRange}
use bytepair.Bpe.Pretoken.{same_bytes}
use bytepair.Bpe.Pretoken.Cache.{IsCached, same_bytes→eq}
use bytepair.Bpe.Spec.{RanksProper}
use bytepair.Encode.RoundTrip.{IsVocab}
use bytepair.Encode.Spelling.{BytesProper, IsToken}

-- The bytes, then "he", "hey", the special token "<s>", and "ey", which no merge makes.
abbrev pub hey : BpVocab
hey = record {
  hdr = record {
    magic = 0x31565042;
    format_version = 1;
    flags = 1;
    profile_id = 1;
    vocab_count = 260;
    added_count = 1;
    pair_slots_log2 = 2;
    reserved = 0;
    token_offsets = record { off = 192; size = 1044 };
    token_blob = record { off = 2496; size = 266 };
    pair_table = record { off = 1280; size = 64 };
    byte_to_id = record { off = 1344; size = 1024 };
    added = record { off = 2368; size = 16 };
    meta = record { off = 2432; size = 7 };
    source_hash = 0;
  };
  tok_off = count_from 0 257 ++ (258 ∷ 261 ∷ 264 ∷ 266 ∷ []);
  blob = count_from 0 256 ++ (104 ∷ 101 ∷ 104 ∷ 101 ∷ 121 ∷ 60 ∷ 115 ∷ 62 ∷ 101 ∷ 121 ∷ []);
  pairs =
      1099511627897 ∷ 4294967553 ∷ 446676598885 ∷ 256 ∷ pair_empty ∷ pair_empty ∷ pair_empty
      ∷ pair_empty ∷ [];
  pair_mask = 3;
  byte_id = count_from 0 256;
  added = record { id = 258; offset = 261; len = 3; flags = 1 } ∷ [];
  meta_name = 104 ∷ 101 ∷ 121 ∷ [];
  added_order = zeros 64;
  added_first = 60;
  added_single_first = true;
  added_first_map = zeros 7 ++ 16 ∷ zeros 24;
  use_avx2 = true;
}

abbrev pub hey_ctx : BpCtx
hey_ctx = record {
  v = hey;
  norm_cap = 0;
  work_cap = 0;
  ids_cap = 0;
  cache = none;
  cache_mask = 0;
  env_force_scalar = false;
}

pub hey-IsCached : IsCached hey_ctx
hey-IsCached entries e = absurd (cc)

abbrev pub hey-HasSpace : HasSpace hey
hey-HasSpace = record { log2 = 2; mask = refl; gap = 2; gap_inside = omega arith; gap_empty = refl }

-- What stands at a slot of the table.
hey_slot :
    (slot key val : ℕ)
    → slot < 4
    → get_or hey.pairs (slot * 2) pair_empty ≡ key
    → get_or hey.pairs (slot * 2 + 1) pair_empty ≡ val
    → val ≢ pair_empty
    → ((key ≡ 1099511627897) × (val ≡ 4294967553)) ⊎ ((key ≡ 446676598885) × (val ≡ 256))
hey_slot zero key val h k e ne = inl (sym k, sym e)
hey_slot (suc zero) key val h k e ne = inr (sym k, sym e)
hey_slot (suc (suc zero)) key val h k e ne = absurd (ne (sym e))
hey_slot (suc (suc (suc zero))) key val h k e ne = absurd (ne (sym e))
hey_slot (suc (suc (suc (suc slot)))) key val h k e ne = absurd (omega arith)

hey_found :
    (x y : ℕ)
    → bp_pair_lookup hey x y ≢ pair_empty
    → ((pair_key x y ≡ 1099511627897) × (bp_pair_lookup hey x y ≡ 4294967553))
      ⊎ ((pair_key x y ≡ 446676598885) × (bp_pair_lookup hey x y ≡ 256))
hey_found x y ne =
    let h : Holds hey.pairs 4 (pair_key x y) (bp_pair_lookup hey x y) =
      bp_pair_lookup_found hey x y hey-HasSpace ne in
    hey_slot h.slot (pair_key x y) (bp_pair_lookup hey x y) h.inside h.at_key h.at_val ne

pub hey-RanksProper : RanksProper hey
hey-RanksProper = record {
  proper = λ x y ne. elim (hey_found x y ne) [
    | inl (k, e) ↦ rw e (omega arith)
    | inr (k, e) ↦ rw e (omega arith)
  ];
}

pub hey-MergesInRange : MergesInRange hey
unfolding id_of
hey-MergesInRange = record { below = below }
  where
    below :
        (x y : ℕ) → x < 260 → y < 260 → bp_pair_lookup hey x y ≢ pair_empty → id_of hey x y < 260
    below x y hx hy ne = elim (hey_found x y ne) [
      | inl (k, e) ↦ rw e (omega arith)
      | inr (k, e) ↦ rw e (omega arith)
    ]

pub hey-IsCoherent : IsCoherent hey
unfolding id_of token_bytes token_len
hey-IsCoherent = record { joins = joins }
  where
    whole : (x y key : ℕ) → x < 260 → y < 260 → pair_key x y ≡ key → x * 2 ^ 32 + y ≡ key
    whole x y key hx hy e = sym (pair_key_lem x y (omega arith) (omega arith)) ∙ e

    joins :
        (x y : ℕ)
        → x < 260
        → y < 260
        → bp_pair_lookup hey x y ≢ pair_empty
        → token_bytes hey (id_of hey x y) ≡ token_bytes hey x ++ token_bytes hey y
    joins x y hx hy ne = elim (hey_found x y ne) [
      | inl (k, e) ↦
          let w = whole x y 1099511627897 hx hy k in
          let ex : x ≡ 256 = omega arith in let ey : y ≡ 121 = omega arith in rw (e, ex, ey) refl
      | inr (k, e) ↦
          let w = whole x y 446676598885 hx hy k in
          let ex : x ≡ 104 = omega arith in let ey : y ≡ 101 = omega arith in rw (e, ex, ey) refl
    ]

abbrev token_check : ℕ → Bool
token_check b =
    same_bytes (token_bytes hey (get_or hey.byte_id b 0)) (b ∷ [])
    && ltb (get_or hey.byte_id b 0) 260

hey-token_checks : all_below 256 token_check ≡ true
unfolding all_below same_bytes token_bytes token_len
hey-token_checks = refl

hey_spells :
    (b : ℕ)
    → IsByte b
    → (token_bytes hey (get_or hey.byte_id b 0) ≡ b ∷ []) × (get_or hey.byte_id b 0 < 260)
hey_spells b h =
    let (spelt, below) = both _ _ (all_below_sound 256 token_check b hey-token_checks h) in
    (same_bytes→eq _ _ spelt, ltb→lt _ _ below)

pub hey-BytesProper : BytesProper hey
hey-BytesProper = record {
  spells = λ b h. (hey_spells b h).0;
  token = λ b h. record {
    below = (hey_spells b h).1;
    long = λ e. absurd (cc (sym (hey_spells b h).0 ∙ e));
  };
}

pub hey-IsVocab : IsVocab hey
hey-IsVocab = record {
  ranks = hey-RanksProper;
  coherent = hey-IsCoherent;
  in_range = hey-MergesInRange;
  bytes = hey-BytesProper;
}
