-- ===== src/Bpe/Pretoken/Tiny.antt =====
-- src/bp_bpe.c `bp_bpe_pretoken`: pretokens of no, one and two bytes.
use mathlib.Core.Path.{subst}
use bytepair.Base.{ℕ, ◌==◌, if◌then◌else◌}
use bytepair.Base.{Bool-cases}
use bytepair.Base.{List, [], ◌∷◌, ◌++◌}
use bytepair.Base.{arith, ◌≡◌, refl, inl, inr, append_assoc}
use bytepair.Sink.{Sink, bp_sink_put1}
use bytepair.Sink.Laws.{Buffer, Holds, bp_sink_put-Holds, bp_sink_put1-put}
use bytepair.Vocab.{BpVocab, pair_empty}
use bytepair.Vocab.Pairs.{bp_pair_lookup}
use bytepair.Bpe.{merge_short, merge_loop, find_best, scan_best, better, merge_at, id_bits}
use bytepair.Bpe.Spec.{RanksProper}
use bytepair.Bpe.Pretoken.{put_two}

pub merge_none : (v : BpVocab) → merge_short v [] ≡ []
unfolding merge_short merge_loop
merge_none v = refl

pub merge_one : (v : BpVocab) (x : ℕ) → merge_short v (x ∷ []) ≡ x ∷ []
unfolding merge_short merge_loop
merge_one v x = refl

merge_two :
    (v : BpVocab) (x y : ℕ)
    → RanksProper v
    → merge_short v (x ∷ y ∷ []) ≡ (
        if bp_pair_lookup v x y == pair_empty
        then x ∷ y ∷ []
        else id_bits (bp_pair_lookup v x y) ∷ [])
unfolding merge_short merge_loop find_best scan_best better merge_at
merge_two v x y r = ground (arith, r.proper x y)

module _ {orig : Buffer} {xs : List ℕ} {sink : Sink} (h : Holds orig xs sink) where
  pub put1-Holds : (id : ℕ) → Holds orig (xs ++ (id ∷ [])) (bp_sink_put1 sink id)
  put1-Holds id = rw (bp_sink_put1-put sink id) (bp_sink_put-Holds h (id ∷ []))

module _ {orig : Buffer} {xs : List ℕ} {sink : Sink} (h : Holds orig xs sink) where
  pub put_two-Holds :
      (v : BpVocab) (x y : ℕ)
      → RanksProper v
      → Holds orig (xs ++ merge_short v (x ∷ y ∷ [])) (put_two v x y sink)
  unfolding put_two
  put_two-Holds v x y r = elim (Bool-cases (bp_pair_lookup v x y == pair_empty)) [
    | inl apart ↦
        rw (merge_two v x y r, apart)
          (subst (λ l. Holds orig l (bp_sink_put1 (bp_sink_put1 sink x) y))
            (append_assoc xs (x ∷ []) (y ∷ [])) (put1-Holds (put1-Holds h x) y))
    | inr joined ↦ rw (merge_two v x y r, joined) (put1-Holds h (id_bits (bp_pair_lookup v x y)))
  ]
