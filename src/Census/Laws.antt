-- ===== src/Census/Laws.antt =====
-- src/bp_census.c `census_token`: what each verdict rests on.
use bytepair.Base.{ℕ, ◌+◌, ltb, Bool-cases, Option-cases}
use bytepair.Base.{Bool, true, false}
use bytepair.Base.{List, [], ◌∷◌, length, take, drop, append-nil}
use bytepair.Base.{◌≡◌, ◌≢◌, refl, ◌∙◌, ◌⊎◌, inl, inr}
use bytepair.Context.{BpCtx}
use bytepair.Tables.{UcTables}
use bytepair.Vocab.{BpVocab, token_bytes}
use bytepair.Census.{
  Verdict, added, self, context, impossible, unresolved, Reason, no_reason, merge_order,
  invalid_utf8, pretoken_shape, contraction, nfc_excluded, wmax,
}
use bytepair.Census.Prover.{prove_impossible}
use bytepair.Census.Search.{Affixes, try_witness, pure_is_single}
use bytepair.Census.Glue.{try_glue, glue_affixes}
use bytepair.Census.Fragment.{try_fragment_exhaustive, fragment_affixes}
use bytepair.Census.Token.{
  Judged, is_added, pool_pairs, pool_of, last_resort, pool_loop, search_context, unless_proved,
  after_single, census_token,
}
use bytepair.Census.Witness.{
  Reaches, here, tested, IsWitness, try_witness-IsWitness, try_witness-Reaches, try_all-IsWitness,
}

module _ (alloc : ℕ → Bool) (u : UcTables) (t : ℕ) (tb : List ℕ) (c : BpCtx) (v : BpVocab) where
  -- What a verdict rests on, with its reason and its witness.
  abbrev pub Rests : Verdict → Reason → List ℕ → Type 0
  Rests added r w =
      (is_added (take v.hdr.added_count v.added) t ≡ true) × (r ≡ no_reason) × (w ≡ take wmax tb)
  Rests self r w = IsWitness alloc u t tb c w × (r ≡ no_reason) × (w ≡ tb)
  Rests context r w = IsWitness alloc u t tb c w × (r ≡ no_reason)
  Rests impossible r w =
      (((pure_is_single alloc c tb t).yes ≡ false) × (r ≡ merge_order)
        ⊎ (prove_impossible u tb ≡ r) × (r ≢ no_reason))
      × (w ≡ [])
  Rests unresolved r w = (r ≡ no_reason) × (w ≡ [])

  abbrev pub Justified : Judged → Type 0
  Justified j = Rests j.res.verdict j.res.reason j.res.witness

  last_resort-Justified :
      (deep : Bool) (searched : ℕ) (d : BpCtx)
      → Reaches alloc u c d
      → Justified (last_resort alloc u t tb deep searched d)
  unfolding last_resort try_fragment_exhaustive
  last_resort-Justified false searched d reached = (refl, refl)
  last_resort-Justified true searched d reached =
      let f = try_fragment_exhaustive alloc u t tb d in
      let all = try_all-IsWitness alloc u t tb c (fragment_affixes d.v tb) d reached in
      elim (Option-cases f.witness) [
        | inl e ↦ rw (e, last_resort) (refl, refl)
        | inr (w, e) ↦ rw (e, last_resort) (all.0 w e, refl)
      ]

  pool_loop-Justified :
      (deep : Bool) (tries : List Affixes) (searched : ℕ) (d : BpCtx)
      → Reaches alloc u c d
      → Justified (pool_loop alloc u t tb deep tries searched d)
  unfolding pool_loop
  pool_loop-Justified deep [] searched d reached = last_resort-Justified deep searched d reached
  pool_loop-Justified deep (a ∷ more) searched d reached =
      let f = try_witness alloc u t tb d a.pre a.suf in
      elim (Option-cases f.witness) [
        | inl e ↦
            rw (e, pool_loop)
              (pool_loop-Justified deep more (searched + 1) f.ctx
                (try_witness-Reaches alloc u t tb c d a.pre a.suf reached))
        | inr (w, e) ↦
            rw (e, pool_loop)
              ((try_witness-IsWitness alloc u t tb c d a.pre a.suf w reached e).1, refl)
      ]

  search_context-Justified :
      (deep : Bool) (d : BpCtx)
      → Reaches alloc u c d
      → Justified (search_context alloc u t tb deep d)
  unfolding search_context try_glue
  search_context-Justified deep d reached =
      let f = try_glue alloc u t tb d in
      let all = try_all-IsWitness alloc u t tb c (glue_affixes tb) d reached in
      elim (Option-cases f.witness) [
        | inl e ↦
            rw (e, search_context)
              (pool_loop-Justified deep (drop 1 (pool_pairs (pool_of deep) (pool_of deep))) 0 f.ctx
                all.1)
        | inr (w, e) ↦ rw (e, search_context) (all.0 w e, refl)
      ]

  unless_proved-Justified :
      (deep : Bool) (d : BpCtx) (r : Reason)
      → Reaches alloc u c d
      → prove_impossible u tb ≡ r
      → Justified (unless_proved alloc u t tb deep d r)
  unfolding unless_proved
  unless_proved-Justified deep d no_reason reached e = search_context-Justified deep d reached
  unless_proved-Justified deep d merge_order reached e = (inr (e, λ k. absurd (cc)), refl)
  unless_proved-Justified deep d invalid_utf8 reached e = (inr (e, λ k. absurd (cc)), refl)
  unless_proved-Justified deep d pretoken_shape reached e = (inr (e, λ k. absurd (cc)), refl)
  unless_proved-Justified deep d contraction reached e = (inr (e, λ k. absurd (cc)), refl)
  unless_proved-Justified deep d nfc_excluded reached e = (inr (e, λ k. absurd (cc)), refl)

  after_single-Justified :
      (deep : Bool) → Justified (after_single alloc u t tb deep (pure_is_single alloc c tb t))
  unfolding after_single
  after_single-Justified deep =
      let s = pure_is_single alloc c tb t in
      let f = try_witness alloc u t tb s.ctx [] [] in
      let reached = tested tb t here in
      elim (Bool-cases s.yes) [
        | inr e ↦ rw (e, after_single) (inl (e, refl), refl)
        | inl single ↦ elim (Option-cases f.witness) [
          | inl e ↦
              rw (single, e, after_single)
                (unless_proved-Justified deep f.ctx (prove_impossible u tb)
                  (try_witness-Reaches alloc u t tb c s.ctx [] [] reached) refl)
          | inr (w, e) ↦
              let (spelt, good) = try_witness-IsWitness alloc u t tb c s.ctx [] [] w reached e in
              rw (single, e, after_single) (good, refl, spelt ∙ append-nil tb)
        ]
      ]

-- Whatever the context `c`: `added` is the verdict on an added record's id alone; `self` and
-- `context` come with a witness of at most 320 bytes that is valid UTF-8, holds the token's
-- bytes, for `self` nothing else, and for which `bp_encode` returns ids with the token among
-- them, in a context that calls of the encoder leave behind, from `c` on; `impossible` comes with
-- a refused test of the token's own bytes and `merge-order`, or with the reason that the prover
-- gave; `unresolved` comes without witness and reason.
pub census_token-Justified :
    (alloc : ℕ → Bool) (u : UcTables) (v : BpVocab) (c : BpCtx) (t : ℕ) (deep : Bool)
    → Justified alloc u t (token_bytes v t) c v (census_token alloc u v c t deep)
unfolding census_token
census_token-Justified alloc u v c t deep =
    let tb = token_bytes v t in
    elim (Bool-cases (is_added (take v.hdr.added_count v.added) t)) [
      | inl e ↦ rw (e, census_token) (e, refl, refl)
      | inr e ↦ elim (Bool-cases (ltb wmax (length tb))) [
        | inl long ↦ rw (e, long, census_token) (refl, refl)
        | inr fits ↦ rw (e, fits, census_token) (after_single-Justified alloc u t tb c v deep)
      ]
    ]
