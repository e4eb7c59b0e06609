-- ===== src/Census/Witness.antt =====
-- src/bp_census.c `try_witness`: what a witness is, and the contexts of a search.
use bytepair.Base.{ℕ, ◌≤◌, ltb, Bool-cases, Option-cases, ltb→le}
use bytepair.Base.{Bool, true, some}
use bytepair.Base.{List, [], ◌∷◌, ◌++◌, length}
use bytepair.Base.{◌≡◌, refl, sym, inl, inr}
use mathlib.Core.Path.{subst}
use bytepair.Context.{BpCtx}
use bytepair.Tables.{UcTables}
use bytepair.Census.{wmax}
use bytepair.Census.Search.{
  Affixes, utf8_valid, emits, judge, encode_witness, try_witness, try_all, pure_is_single, ctx_of,
}

-- The contexts that the calls of the census leave behind, from `c` on.
pub data Reaches (alloc : ℕ → Bool) (u : UcTables) (c : BpCtx) : BpCtx → Type 0 where
  here : Reaches alloc u c c
  tested :
      {d : BpCtx} (p : List ℕ) (t : ℕ)
      → Reaches alloc u c d
      → Reaches alloc u c (pure_is_single alloc d p t).ctx
  tried :
      {d : BpCtx} (w : List ℕ)
      → Reaches alloc u c d
      → Reaches alloc u c (ctx_of d (encode_witness alloc u d w).ctx)

module _ (alloc : ℕ → Bool) (u : UcTables) (t : ℕ) (tb : List ℕ) (c : BpCtx) where
  -- A valid text around the token's bytes, and a context of the census in which the encoder emits
  -- the token for it.
  pub record IsWitness (w : List ℕ) : Type 0 where
    pub pre : List ℕ
    pub suf : List ℕ
    pub around : w ≡ pre ++ (tb ++ suf)
    pub short : length w ≤ wmax
    pub valid : utf8_valid w ≡ true
    pub before : BpCtx
    pub reached : Reaches alloc u c before
    pub emitted : emits t (encode_witness alloc u before w) ≡ true

  pub try_witness-IsWitness :
      (d : BpCtx) (pre suf w : List ℕ)
      → Reaches alloc u c d
      → (try_witness alloc u t tb d pre suf).witness ≡ some w
      → (w ≡ pre ++ (tb ++ suf)) × IsWitness w
  unfolding try_witness judge
  try_witness-IsWitness d pre suf w reached e =
      let x = pre ++ (tb ++ suf) in
      elim (Bool-cases (ltb wmax (length x))) [
        | inl long ↦ absurd (cc (rw long at e))
        | inr fits ↦ elim (Bool-cases (utf8_valid x)) [
          | inr bad ↦ absurd (cc (rw (fits, bad) at e))
          | inl good ↦ elim (Bool-cases (emits t (encode_witness alloc u d x))) [
            | inr miss ↦ absurd (cc (rw (fits, good, miss) at e))
            | inl hit ↦
                let same : x ≡ w = cc (rw (fits, good, hit) at e) in
                (
                  sym same,
                  subst IsWitness same (record {
                    pre = pre;
                    suf = suf;
                    around = refl;
                    short = ltb→le _ _ fits;
                    valid = good;
                    before = d;
                    reached = reached;
                    emitted = hit;
                  }),
                )
          ]
        ]
      ]

  pub try_witness-Reaches :
      (d : BpCtx) (pre suf : List ℕ)
      → Reaches alloc u c d
      → Reaches alloc u c (try_witness alloc u t tb d pre suf).ctx
  unfolding try_witness judge
  try_witness-Reaches d pre suf reached =
      let x = pre ++ (tb ++ suf) in
      elim (Bool-cases (ltb wmax (length x))) [
        | inl long ↦ rw long reached
        | inr fits ↦ elim (Bool-cases (utf8_valid x)) [
          | inr bad ↦ rw (fits, bad) reached
          | inl good ↦ rw (fits, good) (tried x reached)
        ]
      ]

  -- With a witness, or with a context from which the search goes on.
  pub try_all-IsWitness :
      (tries : List Affixes) (d : BpCtx)
      → Reaches alloc u c d
      → ((w : List ℕ) → (try_all alloc u t tb tries d).witness ≡ some w → IsWitness w)
        × Reaches alloc u c (try_all alloc u t tb tries d).ctx
  unfolding try_all
  try_all-IsWitness [] d reached = (λ w e. absurd (cc), reached)
  try_all-IsWitness (a ∷ more) d reached =
      let f = try_witness alloc u t tb d a.pre a.suf in
      let on = try_witness-Reaches d a.pre a.suf reached in
      elim (Option-cases f.witness) [
        | inl none_here ↦ rw (none_here, try_all) (try_all-IsWitness more f.ctx on)
        | inr (x, found) ↦
            rw (found, try_all) (λ w e. (try_witness-IsWitness d a.pre a.suf w reached e).1, on)
      ]
