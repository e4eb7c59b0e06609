-- ===== src/Census/Refusal.antt =====
-- src/bp_census.c `pure_is_single`, `census_token`: what the reason `merge-order` means for every text.
use bytepair.Base.{ℕ, ◌≤◌, min, Bool-cases, ltb}
use bytepair.Base.{Bool, true, false, ◌&&◌, ◌||◌, not, List, [], ◌∷◌, length, All, zeros}
use bytepair.Base.{arith, ◌≡◌, ◌≢◌, inl, inr, refl, sym, ◌∙◌, ==_refl}
use mathlib.Core.Path.{subst}
use bytepair.Utf8.Laws.{IsByte}
use bytepair.Sink.Laws.{start-Holds, Holds-filled}
use bytepair.Vocab.{BpVocab, token_bytes}
use bytepair.Context.{BpCtx}
use bytepair.Tables.{UcTables, ClassesProper}
use bytepair.Bpe.Pretoken.{Outcome}
use bytepair.Bpe.Pretoken.Cache.{encode_bytes, IsCached, Puts}
use bytepair.Bpe.Spec.{RanksProper}
use bytepair.Bpe.Pretoken.Served.{IsServed}
use bytepair.Bpe.Pretoken.Encodes.{bp_bpe_pretoken-Puts}
use bytepair.Encode.RoundTrip.{IsVocab}
use bytepair.Base.{le→ltb, ltb→le, Option-cases, count_from, map}
use bytepair.Census.{
  ids_max, wmax, Verdict, added, self, context, impossible, unresolved, Reason, merge_order,
}
use bytepair.Census.Units.{alignment_units}
use bytepair.Census.Prover.{
  fits_pretoken_language, any_qcno, blocked_by_contraction, unaligned, align_loop, prove_impossible,
}
use bytepair.Census.Token.{census_token}
use bytepair.Census.Laws.{Rests, census_token-Justified}
use bytepair.Census.Search.{pure_is_single, is_single}
use bytepair.Base.{take}
use bytepair.Encode.Match.{AddedProper}
use bytepair.Encode.Rounds.{piece_ids, split}
use bytepair.Census.Token.{is_added}
use bytepair.Census.Absence.{split-IsAbsent}
use bytepair.Nfc.Form.{normal_form, normal_form-bytes}
use bytepair.Census.Emission.{IsAbsent, text_ids-IsAbsent}

ids_max-room : ids_max ≤ length (zeros ids_max)
ids_max-room = omega arith

single_held :
    (t : ℕ) (tb : List ℕ) (c : BpCtx) (o : Outcome)
    → encode_bytes c.v tb ≡ t ∷ []
    → Puts c tb (record { cells = zeros ids_max; room = ids_max }) [] o
    → (is_single t o).yes ≡ true
unfolding is_single
single_held t tb c o e p = rw (p.status_ok, p.held.counted, Holds-filled p.held, e, ==_refl t) refl

-- The test of the census against byte pair encoding.
pub pure_is_single-encode_bytes :
    (alloc : ℕ → Bool) (c : BpCtx) (tb : List ℕ) (t : ℕ)
    → IsCached c
    → RanksProper c.v
    → IsServed alloc tb
    → length tb ≤ wmax
    → (pure_is_single alloc c tb t).yes ≡ false
    → encode_bytes c.v tb ≢ t ∷ []
unfolding pure_is_single
pure_is_single-encode_bytes alloc c tb t cached ranks served short refused e =
    let fits : ltb wmax (length tb) ≡ false = le→ltb _ _ short in
    let held = single_held t tb c _ e (
      bp_bpe_pretoken-Puts alloc c tb cached ranks served
        (start-Holds (zeros ids_max) ids_max ids_max-room)) in
    absurd (cc (sym (rw fits at refused) ∙ held))

module _ (u : UcTables) (tb : List ℕ) where
  align_loop-other :
      (ks : List ℕ) (any_fit fits : Bool) → align_loop u tb ks any_fit fits ≢ merge_order
  unfolding align_loop unaligned
  align_loop-other [] any_fit fits e = ground arith
  align_loop-other (k ∷ ks) any_fit fits e = elim (Option-cases (alignment_units u tb k)) [
    | inl miss ↦ align_loop-other ks any_fit fits (rw (miss, align_loop) at e)
    | inr (xs, hit) ↦
        let here = fits_pretoken_language (map (λ x. x.bits) xs) in
        elim (Bool-cases (here && not (any_qcno xs))) [
          | inl proved ↦ absurd (cc (rw (hit, align_loop, proved) at e))
          | inr on ↦ align_loop-other ks true (here || fits) (rw (hit, align_loop, on) at e)
        ]
  ]

  prove_impossible-other : prove_impossible u tb ≢ merge_order
  unfolding prove_impossible
  prove_impossible-other e = elim (Bool-cases (blocked_by_contraction u tb)) [
    | inl blocked ↦ absurd (cc (rw blocked at e))
    | inr free ↦ align_loop-other (count_from 0 (min 4 (length tb))) false false (rw free at e)
  ]

module _ (alloc : ℕ → Bool) (u : UcTables) (v : BpVocab) (c : BpCtx) (t : ℕ) where
  refused_of :
      (d : Verdict) (r : Reason) (w : List ℕ)
      → Rests alloc u t (token_bytes v t) c v d r w
      → r ≡ merge_order
      → (pure_is_single alloc c (token_bytes v t) t).yes ≡ false
  refused_of added r w (_, e, _) m = absurd (cc (sym e ∙ m))
  refused_of self r w (_, e, _) m = absurd (cc (sym e ∙ m))
  refused_of context r w (_, e) m = absurd (cc (sym e ∙ m))
  refused_of impossible r w (inl (no_single, _), _) m = no_single
  refused_of impossible r w (inr (e, _), _) m =
      absurd (prove_impossible-other u (token_bytes v t) (e ∙ m))
  refused_of unresolved r w (e, _) m = absurd (cc (sym e ∙ m))

  not_added :
      (deep : Bool)
      → (census_token alloc u v c t deep).res.reason ≡ merge_order
      → is_added (take v.hdr.added_count v.added) t ≡ false
  unfolding census_token
  not_added deep e = elim (Bool-cases (is_added (take v.hdr.added_count v.added) t)) [
    | inl found ↦ absurd (cc (rw (found, census_token) at e))
    | inr free ↦ free
  ]

  -- The census gives up on a token beyond its window.
  in_window :
      (deep : Bool)
      → (census_token alloc u v c t deep).res.reason ≡ merge_order
      → length (token_bytes v t) ≤ wmax
  unfolding census_token
  in_window deep e = elim (Bool-cases (ltb wmax (length (token_bytes v t)))) [
    | inl long ↦ absurd (cc (rw (not_added deep e, long, census_token) at e))
    | inr fits ↦ ltb→le _ _ fits
  ]

  -- For a vocabulary whose tokens spell what they stand for and with proper added records,
  -- proper class tables, a context over it whose cache holds encodings, and a token of at most
  -- 64 bytes, or any of fewer than 2^31 where every buffer is granted: where the census gives
  -- the reason `merge-order`, no text of bytes, whatever the flags of the call, has the token
  -- among the ids of its pieces, the encodings of the pretokens of their normal forms and the
  -- ids of the matched tokens.
  pub merge_order_sound :
      (deep : Bool) (s : List ℕ) (flags : ℕ)
      → ClassesProper u
      → IsVocab v
      → IsCached c
      → c.v ≡ v
      → IsServed alloc (token_bytes v t)
      → (census_token alloc u v c t deep).res.reason ≡ merge_order
      → AddedProper v
      → All IsByte s
      → IsAbsent t (piece_ids u v (split v flags s))
  merge_order_sound deep s flags classes voc cached same served e proper h =
      let j = census_token alloc u v c t deep in
      let refused =
        refused_of j.res.verdict j.res.reason j.res.witness
          (census_token-Justified alloc u v c t deep) e in
      let spelt =
        subst (λ w. encode_bytes w (token_bytes v t) ≢ t ∷ []) same
          (pure_is_single-encode_bytes alloc c (token_bytes v t) t cached
            (subst RanksProper (sym same) voc.ranks) served (in_window deep e) refused) in
      split-IsAbsent u v t proper classes
        (λ p k.
          text_ids-IsAbsent v voc.bytes voc.coherent voc.in_range t spelt u (normal_form u v p)
            classes (normal_form-bytes u v p k))
        (not_added deep e) s flags h
