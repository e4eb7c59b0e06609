-- ===== src/Census/Token.antt =====
-- src/bp_census.c `census_token`: the verdict on one token.
use bytepair.Base.{ℕ, ◌+◌, ltb, ◌==◌, if◌then◌else◌}
use bytepair.Base.{Bool, false, ◌||◌, not, none, some}
use bytepair.Base.{List, [], ◌∷◌, ◌++◌, length, take, drop}
use bytepair.Context.{BpCtx}
use bytepair.Tables.{UcTables}
use bytepair.Vocab.{BpvAdded, BpVocab, token_bytes}
use bytepair.Census.{
  Verdict, added, self, context, impossible, unresolved, Reason, no_reason, merge_order,
  invalid_utf8, pretoken_shape, contraction, nfc_excluded, wmax,
}
use bytepair.Census.Prover.{prove_impossible}
use bytepair.Census.Search.{Affixes, Single, try_witness, pure_is_single}
use bytepair.Census.Glue.{try_glue}
use bytepair.Census.Fragment.{try_fragment_exhaustive}

-- `AFFIX_QUICK` and `AFFIX_DEEP`, byte by byte
abbrev pub affix_quick : List (List ℕ)
affix_quick =
    []
    ∷ (97 ∷ [])
    ∷ (65 ∷ [])
    ∷ (122 ∷ [])
    ∷ (81 ∷ [])
    ∷ (48 ∷ [])
    ∷ (32 ∷ [])
    ∷ (46 ∷ [])
    ∷ (44 ∷ [])
    ∷ (33 ∷ [])
    ∷ (10 ∷ [])
    ∷ (39 ∷ [])
    ∷ (34 ∷ [])
    ∷ (195 ∷ 169 ∷ [])
    ∷ (228 ∷ 184 ∷ 173 ∷ [])
    ∷ (95 ∷ [])
    ∷ (45 ∷ [])
    ∷ (40 ∷ [])
    ∷ (195 ∷ [])
    ∷ (228 ∷ 184 ∷ [])
    ∷ (230 ∷ 151 ∷ [])
    ∷ (169 ∷ [])
    ∷ (128 ∷ [])
    ∷ (184 ∷ 173 ∷ [])
    ∷ (165 ∷ [])
    ∷ (128 ∷ 128 ∷ [])
    ∷ (128 ∷ 128 ∷ 128 ∷ [])
    ∷ (144 ∷ 128 ∷ 128 ∷ [])
    ∷ []

abbrev pub affix_deep : List (List ℕ)
affix_deep =
    []
    ∷ (97 ∷ [])
    ∷ (98 ∷ [])
    ∷ (101 ∷ [])
    ∷ (115 ∷ [])
    ∷ (116 ∷ [])
    ∷ (120 ∷ [])
    ∷ (65 ∷ [])
    ∷ (84 ∷ [])
    ∷ (48 ∷ [])
    ∷ (57 ∷ [])
    ∷ (32 ∷ [])
    ∷ (32 ∷ 32 ∷ [])
    ∷ (46 ∷ [])
    ∷ (44 ∷ [])
    ∷ (59 ∷ [])
    ∷ (58 ∷ [])
    ∷ (33 ∷ [])
    ∷ (63 ∷ [])
    ∷ (10 ∷ [])
    ∷ (13 ∷ 10 ∷ [])
    ∷ (10 ∷ 32 ∷ [])
    ∷ (32 ∷ 10 ∷ [])
    ∷ (39 ∷ [])
    ∷ (34 ∷ [])
    ∷ (96 ∷ [])
    ∷ (195 ∷ 169 ∷ [])
    ∷ (195 ∷ 159 ∷ [])
    ∷ (228 ∷ 184 ∷ 173 ∷ [])
    ∷ (230 ∷ 151 ∷ 165 ∷ [])
    ∷ (208 ∷ 176 ∷ [])
    ∷ (206 ∷ 177 ∷ [])
    ∷ (95 ∷ [])
    ∷ (45 ∷ [])
    ∷ (40 ∷ [])
    ∷ (41 ∷ [])
    ∷ (91 ∷ [])
    ∷ (47 ∷ [])
    ∷ (35 ∷ [])
    ∷ (36 ∷ [])
    ∷ (9 ∷ [])
    ∷ (194 ∷ 160 ∷ [])
    ∷ (195 ∷ [])
    ∷ (208 ∷ [])
    ∷ (228 ∷ 184 ∷ [])
    ∷ (230 ∷ [])
    ∷ (230 ∷ 151 ∷ [])
    ∷ (240 ∷ 159 ∷ 152 ∷ [])
    ∷ (240 ∷ 159 ∷ [])
    ∷ (169 ∷ [])
    ∷ (173 ∷ [])
    ∷ (128 ∷ [])
    ∷ (128 ∷ 128 ∷ [])
    ∷ (184 ∷ 173 ∷ [])
    ∷ (151 ∷ 165 ∷ [])
    ∷ (152 ∷ 128 ∷ [])
    ∷ (128 ∷ 128 ∷ 128 ∷ [])
    ∷ (144 ∷ 128 ∷ 128 ∷ [])
    ∷ (159 ∷ 152 ∷ 128 ∷ [])
    ∷ []

-- `witness` is the first `wlen` bytes of the array.
pub record Cres : Type 0 where
  pub verdict : Verdict
  pub reason : Reason
  pub witness : List ℕ
  pub searched : ℕ

pub record Judged : Type 0 where
  pub res : Cres
  pub ctx : BpCtx

abbrev pub verdict_of : Verdict → Reason → List ℕ → ℕ → BpCtx → Judged
verdict_of v r w searched c = record {
  res = record { verdict = v; reason = r; witness = w; searched = searched };
  ctx = c;
}

-- Whether one of the added records has this id.
unfoldable pub is_added : List BpvAdded → ℕ → Bool
is_added [] t = false
is_added (a ∷ records) t = a.id == t || is_added records t

-- The affixes behind one that stands in front, and the search over all pairs but the empty one.
unfoldable pub pair_with : List ℕ → List (List ℕ) → List Affixes
pair_with pre [] = []
pair_with pre (suf ∷ pool) = record { pre = pre; suf = suf } ∷ pair_with pre pool

unfoldable pub pool_pairs : List (List ℕ) → List (List ℕ) → List Affixes
pool_pairs pool [] = []
pool_pairs pool (pre ∷ rest) = pair_with pre pool ++ pool_pairs pool rest

unfoldable pub pool_of : Bool → List (List ℕ)
pool_of deep = if deep then affix_deep else affix_quick

unfoldable pub last_resort : (ℕ → Bool) → UcTables → ℕ → List ℕ → Bool → ℕ → BpCtx → Judged
last_resort alloc u t tb deep searched c =
    let f = try_fragment_exhaustive alloc u t tb c in
    if deep
    then elim f.witness [
      | none ↦ verdict_of unresolved no_reason [] searched f.ctx
      | some w ↦ verdict_of context no_reason w searched f.ctx
    ]
    else verdict_of unresolved no_reason [] searched c

-- The two loops over the pool; `searched` counts the attempts.
unfoldable pub pool_loop :
    (ℕ → Bool) → UcTables → ℕ → List ℕ → Bool → List Affixes → ℕ → BpCtx → Judged
pool_loop alloc u t tb deep [] searched c = last_resort alloc u t tb deep searched c
pool_loop alloc u t tb deep (a ∷ more) searched c =
    let f = try_witness alloc u t tb c a.pre a.suf in
    elim f.witness [
      | none ↦ pool_loop alloc u t tb deep more (searched + 1) f.ctx
      | some w ↦ verdict_of context no_reason w (searched + 1) f.ctx
    ]

unfoldable pub search_context : (ℕ → Bool) → UcTables → ℕ → List ℕ → Bool → BpCtx → Judged
search_context alloc u t tb deep c =
    let f = try_glue alloc u t tb c in
    elim f.witness [
      | none ↦
          pool_loop alloc u t tb deep (drop 1 (pool_pairs (pool_of deep) (pool_of deep))) 0 f.ctx
      | some w ↦ verdict_of context no_reason w 0 f.ctx
    ]

unfoldable pub unless_proved : (ℕ → Bool) → UcTables → ℕ → List ℕ → Bool → BpCtx → Reason → Judged
unless_proved alloc u t tb deep c no_reason = search_context alloc u t tb deep c
unless_proved alloc u t tb deep c merge_order = verdict_of impossible merge_order [] 0 c
unless_proved alloc u t tb deep c invalid_utf8 = verdict_of impossible invalid_utf8 [] 0 c
unless_proved alloc u t tb deep c pretoken_shape = verdict_of impossible pretoken_shape [] 0 c
unless_proved alloc u t tb deep c contraction = verdict_of impossible contraction [] 0 c
unless_proved alloc u t tb deep c nfc_excluded = verdict_of impossible nfc_excluded [] 0 c

-- Behind the test of the boundary lemma.
unfoldable pub after_single : (ℕ → Bool) → UcTables → ℕ → List ℕ → Bool → Single → Judged
after_single alloc u t tb deep s =
    let f = try_witness alloc u t tb s.ctx [] [] in
    if not s.yes then verdict_of impossible merge_order [] 0 s.ctx else elim f.witness [
      | none ↦ unless_proved alloc u t tb deep f.ctx (prove_impossible u tb)
      | some w ↦ verdict_of self no_reason w 0 f.ctx
    ]

unfoldable pub census_token : (ℕ → Bool) → UcTables → BpVocab → BpCtx → ℕ → Bool → Judged
census_token alloc u v c t deep =
    let tb = token_bytes v t in
    if is_added (take v.hdr.added_count v.added) t
    then verdict_of added no_reason (take wmax tb) 0 c
    else if ltb wmax (length tb)
    then verdict_of unresolved no_reason [] 0 c
    else after_single alloc u t tb deep (pure_is_single alloc c tb t)
