-- ===== src/Nfc.antt =====
-- src/bp_nfc.c: the two fast paths, decomposition, canonical order, composition, and the result.
pub mod Hangul
pub mod Order
pub mod Form
pub mod Ascii
pub mod Room
use bytepair.Base.{ℕ, zero, suc, ◌+◌, ◌-◌, ◌*◌, ◌/◌, ◌%◌, ltb, leb, ◌==◌, if◌then◌else◌, bit_and}
use bytepair.Base.{Bool, true, false, ◌&&◌, ◌||◌, not, Option, none, some}
use bytepair.Base.{List, [], ◌∷◌, ◌++◌, length, get_or, set, take, drop, map}
use mathlib.Core.List.{reverse}
use bytepair.Utf8.{bp_utf8_next, malformed, encode_cp}
use bytepair.Tables.{UcTables, bp_ccc}
use bytepair.Tables.Lookup.{bp_nfc_qc, bp_decomp, bp_compose}
use bytepair.Vocab.{BpVocab}
use bytepair.Context.{BpCtx, bp_buf_reserve, le_word}

abbrev pub s_base : ℕ
s_base = 0xAC00

abbrev pub l_base : ℕ
l_base = 0x1100

abbrev pub v_base : ℕ
v_base = 0x1161

abbrev pub t_base : ℕ
t_base = 0x11A7

abbrev pub l_count : ℕ
l_count = 19

abbrev pub v_count : ℕ
v_count = 21

abbrev pub t_count : ℕ
t_count = 28

abbrev pub n_count : ℕ
n_count = v_count * t_count

abbrev pub s_count : ℕ
s_count = l_count * n_count

unfoldable pub is_hangul_s : ℕ → Bool
is_hangul_s cp = leb s_base cp && ltb cp (s_base + s_count)

-- The words of 8 bytes, then the bytes left.
unfoldable pub all_ascii_words : ℕ → List ℕ → Bool
all_ascii_words zero p = true
all_ascii_words (suc fuel) p =
    let words = all_ascii_words fuel (drop 8 p) in
    let bytes = all_ascii_words fuel (drop 1 p) in
    if leb 8 (length p)
    then (if not (bit_and (le_word (take 8 p)) 0x8080808080808080 == 0) then false else words)
    else if length p == 0
    then true
    else if not (bit_and (get_or p 0 0) 0x80 == 0)
    then false
    else bytes

unfoldable pub all_ascii : List ℕ → Bool
all_ascii p = all_ascii_words (suc (length p)) p

-- One code point of the quick check: `none` for a return of 0, or the next `prev_ccc`.
unfoldable pub quick_step : UcTables → ℕ → ℕ → Option ℕ
quick_step u prev_ccc cp =
    let ccc = bp_ccc u cp in
    if cp == malformed
    then some 0
    else if ltb cp 0x80
    then some 0
    else if not (ccc == 0) && ltb ccc prev_ccc
    then none
    else if not (bp_nfc_qc u cp == 1)
    then none
    else some ccc

unfoldable pub quick_loop : UcTables → ℕ → ℕ → List ℕ → Bool
quick_loop u zero prev_ccc p = true
quick_loop u (suc fuel) prev_ccc p =
    let s = bp_utf8_next p in
    let r : Bool = elim (quick_step u prev_ccc s.cp) [
      | none ↦ false
      | some ccc ↦ quick_loop u fuel ccc (drop s.adv p)
    ] in
    if length p == 0 then true else r

unfoldable pub nfc_quick : UcTables → List ℕ → Bool
nfc_quick u p = quick_loop u (length p) 0 p

pub record Cpe : Type 0 where
  pub cp : ℕ
  pub ccc : ℕ

abbrev pub no_cpe : Cpe
no_cpe = record { cp = 0; ccc = 0 }

abbrev pub starter_at : ℕ → Cpe
starter_at cp = record { cp = cp; ccc = 0 }

unfoldable pub decompose_hangul : ℕ → List Cpe
decompose_hangul cp =
    let s = cp - s_base in
    starter_at (l_base + s / n_count)
    ∷ starter_at (v_base + s % n_count / t_count)
    ∷ (if s % t_count == 0 then [] else starter_at (t_base + s % t_count) ∷ [])

unfoldable pub decompose_one : UcTables → ℕ → List Cpe
decompose_one u cp =
    let d = bp_decomp u cp in
    if is_hangul_s cp
    then decompose_hangul cp
    else if length d == 0
    then record { cp = cp; ccc = bp_ccc u cp } ∷ []
    else map (λ x. record { cp = x; ccc = bp_ccc u x }) d

unfoldable pub compose_pair : UcTables → ℕ → ℕ → ℕ
compose_pair u a b =
    if leb l_base a && ltb a (l_base + l_count) && leb v_base b && ltb b (v_base + v_count)
    then s_base + ((a - l_base) * v_count + (b - v_base)) * t_count
    else if is_hangul_s a && (a - s_base) % t_count == 0 && ltb t_base b && ltb b (t_base + t_count)
    then a + (b - t_base)
    else bp_compose u a b

-- A malformed byte becomes the sentinel 0x110000 + byte.
unfoldable pub decompose_all : UcTables → ℕ → List ℕ → List Cpe
decompose_all u zero p = []
decompose_all u (suc fuel) p =
    let s = bp_utf8_next p in
    let rest = decompose_all u fuel (drop s.adv p) in
    if length p == 0
    then []
    else if s.cp == malformed
    then starter_at (0x110000 + get_or p 0 0) ∷ rest
    else decompose_one u s.cp ++ rest

-- `while (j > 0 && buf[j - 1].ccc > t.ccc)`: the entries in front of `t`, the nearest first.
unfoldable pub insert_back : Cpe → List Cpe → List Cpe
insert_back t [] = t ∷ []
insert_back t (x ∷ front) =
    let deeper = x ∷ insert_back t front in if ltb t.ccc x.ccc then deeper else t ∷ x ∷ front

unfoldable pub order_loop : List Cpe → List Cpe → List Cpe
order_loop front [] = reverse front
order_loop front (t ∷ buf) = order_loop (if t.ccc == 0 then t ∷ front else insert_back t front) buf

unfoldable pub canonical_order : List Cpe → List Cpe
canonical_order buf = order_loop [] buf

-- `buf[0..w)` and `starter`; `none` is `(size_t)-1`.
pub record Composing : Type 0 where
  pub kept : List Cpe
  pub starter : Option ℕ

unfoldable pub keep_cpe : Composing → Cpe → Composing
keep_cpe s cur = record {
  kept = s.kept ++ (cur ∷ []);
  starter =
      if cur.ccc == 0
      then (if leb 0x110000 cur.cp then none else some (length s.kept))
      else s.starter;
}

-- The composite of the last starter and `cur`, or 0 where they may not or do not compose.
unfoldable pub composite : UcTables → Composing → Cpe → Option ℕ → ℕ
composite u s cur none = 0
composite u s cur (some i) =
    let w = length s.kept in
    if ltb cur.cp 0x110000 && (w == i + 1 || ltb (get_or s.kept (w - 1) no_cpe).ccc cur.ccc)
    then compose_pair u (get_or s.kept i no_cpe).cp cur.cp
    else 0

unfoldable pub replace_starter : Composing → ℕ → Composing
replace_starter s comp = elim s.starter [
  | none ↦ s
  | some i ↦ record s { kept = set s.kept i (record (get_or s.kept i no_cpe) { cp = comp }) }
]

unfoldable pub compose_step : UcTables → Composing → Cpe → Composing
compose_step u s cur =
    let comp = composite u s cur s.starter in
    if comp == 0 then keep_cpe s cur else replace_starter s comp

unfoldable pub compose_loop : UcTables → Composing → List Cpe → Composing
compose_loop u s [] = s
compose_loop u s (cur ∷ buf) = compose_loop u (compose_step u s cur) buf

unfoldable pub canonical_compose : UcTables → List Cpe → List Cpe
canonical_compose u buf = (compose_loop u (record { kept = []; starter = none }) buf).kept

unfoldable pub encode_all : List Cpe → List ℕ
encode_all [] = []
encode_all (x ∷ buf) = encode_cp x.cp ++ encode_all buf

-- The bytes that `*out` and `*out_len` describe, with the context; `none` is `BP_E_NOMEM`.
pub record Normalized : Type 0 where
  pub ctx : BpCtx
  pub text : Option (List ℕ)

-- `BPV_FLAG_NFC`
abbrev pub flag_nfc : ℕ
flag_nfc = 1

-- `sizeof(cpe)`
abbrev pub cpe_size : ℕ
cpe_size = 8

unfoldable pub normalize_full : (ℕ → Bool) → UcTables → BpCtx → List ℕ → Normalized
normalize_full alloc u c seg =
    elim (bp_buf_reserve alloc c.work_cap ((length seg * 4 + 1) * cpe_size)) [
      | none ↦ record { ctx = c; text = none }
      | some work ↦
          let buf = canonical_compose u (canonical_order (decompose_all u (length seg) seg)) in
          elim (bp_buf_reserve alloc c.norm_cap (length buf * 4 + 1)) [
            | none ↦ record { ctx = record c { work_cap = work }; text = none }
            | some norm ↦ record {
              ctx = record c { work_cap = work; norm_cap = norm };
              text = some (encode_all buf);
            }
          ]
    ]

-- Whether the segment is returned as it is.
unfoldable pub is_kept : UcTables → BpVocab → List ℕ → Bool
is_kept u v seg =
    bit_and v.hdr.flags flag_nfc == 0 || length seg == 0 || all_ascii seg || nfc_quick u seg

unfoldable pub bp_nfc : (ℕ → Bool) → UcTables → BpCtx → List ℕ → Normalized
bp_nfc alloc u c seg =
    if is_kept u c.v seg then record { ctx = c; text = some seg } else normalize_full alloc u c seg
