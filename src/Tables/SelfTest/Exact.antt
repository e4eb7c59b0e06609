-- ===== src/Tables/SelfTest/Exact.antt =====
-- src/tables/bp_uctables_selftest.c: what the exit code of the self-test says of the tables.
use mathlib.Core.Logic.{◌↔◌}
use bytepair.Base.{ℕ, zero, suc, ◌≤◌, ◌==◌, Bool, true, Bool-cases, ==_iff, ==→ne, length-take}
use bytepair.Base.{
  List, [], ◌∷◌, length, take, All, leb, leb→le, ◌&&◌, both, arith, ◌≡◌, refl, ap, ◌∙◌, inl, inr,
}
use bytepair.Tables.{UcTables, bp_char_class, bp_ccc}
use bytepair.Tables.Lookup.{bp_nfc_qc, bp_decomp, bp_compose}
use bytepair.Tables.SelfTest.{
  U32Case, DecompCase, ComposeCase, class_cases, ccc_cases, qc_cases, decomp_cases, compose_cases,
  check, check_cases, check_elements, check_decomp, check_compose, run_cases, self_test,
}

-- The lookups give what every case wants.
pub record Agrees (u : UcTables) : Type 0 where
  pub classes : All (λ c. bp_char_class u c.cp ≡ c.want) class_cases
  pub above : (bp_char_class u 0x110000 ≡ 0) × (bp_char_class u 0xFFFFFFFF ≡ 0)
  pub marks : All (λ c. bp_ccc u c.cp ≡ c.want) ccc_cases × (bp_ccc u 0x110000 ≡ 0)
  pub quick : All (λ c. bp_nfc_qc u c.cp ≡ c.want) qc_cases
  pub decomp : All (λ c. bp_decomp u c.cp ≡ take c.n c.out) decomp_cases
  pub compose : All (λ c. bp_compose u c.a c.b ≡ c.want) compose_cases

check_zero : (got want f : ℕ) → (check got want f ≡ 0) ↔ ((f ≡ 0) × (got ≡ want))
unfolding check
check_zero got want f = (λ e. ground (arith, e), λ (e, same). ground (arith, e, same))

check_cases_zero :
    (look : ℕ → ℕ) (cs : List U32Case) (f : ℕ)
    → (check_cases look cs f ≡ 0) ↔ ((f ≡ 0) × All (λ c. look c.cp ≡ c.want) cs)
unfolding check_cases
check_cases_zero look [] f = (λ e. (e, tt), λ p. p.0)
check_cases_zero look (c ∷ cs) f =
    let one = check_zero (look c.cp) c.want f in
    let rest = check_cases_zero look cs (check (look c.cp) c.want f) in
    (
      λ e. let (g, all) = rest.0 e in let (h, same) = one.0 g in (h, (same, all)),
      λ (h, (same, all)). rest.1 (one.1 (h, same), all),
    )

check_elements_zero :
    (got want : List ℕ) (n f : ℕ)
    → length got ≡ n
    → n ≤ length want
    → (check_elements got want f ≡ 0) ↔ ((f ≡ 0) × (got ≡ take n want))
unfolding check_elements
check_elements_zero [] want zero f e le = (λ z. (z, refl), λ p. p.0)
check_elements_zero (x ∷ got) (y ∷ want) (suc n) f e le =
    let one = check_zero x y f in
    let rest = check_elements_zero got want n (check x y f) (omega arith) (omega arith) in
    (
      λ z. let (g, same) = rest.0 z in let (h, eq) = one.0 g in (h, cc (eq, same)),
      λ (h, same). rest.1 (one.1 (h, cc same), cc same),
    )
check_elements_zero got want n f e le = absurd (omega arith)

-- Every case has as many elements as it counts.
abbrev all_filled : List DecompCase → Bool
all_filled [] = true
all_filled (c ∷ cs) = leb c.n (length c.out) && all_filled cs

check_decomp_zero :
    (u : UcTables) (cs : List DecompCase) (f : ℕ)
    → all_filled cs ≡ true
    → (check_decomp u cs f ≡ 0) ↔ ((f ≡ 0) × All (λ c. bp_decomp u c.cp ≡ take c.n c.out) cs)
unfolding check_decomp
check_decomp_zero u [] f filled = (λ e. (e, tt), λ p. p.0)
check_decomp_zero u (c ∷ cs) f filled =
    let got = bp_decomp u c.cp in
    let (fits, others) = both (leb c.n (length c.out)) _ filled in
    let counted = check_zero (length got) c.n f in
    elim (Bool-cases (length got == c.n)) [
      | inl same ↦
          let n_eq = (==_iff (length got) c.n).0 same in
          let one =
            check_elements_zero got c.out c.n (check (length got) c.n f) n_eq (leb→le _ _ fits) in
          let rest =
            check_decomp_zero u cs (check_elements got c.out (check (length got) c.n f)) others in
          rw same (
            (λ e. let (g, all) = rest.0 e in let (h, eq) = one.0 g in ((counted.0 h).0, (eq, all))),
            λ (h, (eq, all)). rest.1 (one.1 (counted.1 (h, n_eq), eq), all),
          )
      | inr differ ↦
          let rest = check_decomp_zero u cs (check (length got) c.n f) others in
          rw differ (
            (λ e. absurd (==→ne _ _ differ (counted.0 (rest.0 e).0).1)),
            λ (h, (eq, all)).
                absurd
                  (==→ne _ _ differ (ap length eq ∙ length-filled c.n c.out (leb→le _ _ fits))),
          )
    ]
  where
    length-filled : (n : ℕ) (xs : List ℕ) → n ≤ length xs → length (take n xs) ≡ n
    length-filled n xs le = omega (arith, length-take n xs)

check_compose_zero :
    (u : UcTables) (cs : List ComposeCase) (f : ℕ)
    → (check_compose u cs f ≡ 0) ↔ ((f ≡ 0) × All (λ c. bp_compose u c.a c.b ≡ c.want) cs)
unfolding check_compose
check_compose_zero u [] f = (λ e. (e, tt), λ p. p.0)
check_compose_zero u (c ∷ cs) f =
    let one = check_zero (bp_compose u c.a c.b) c.want f in
    let rest = check_compose_zero u cs (check (bp_compose u c.a c.b) c.want f) in
    (
      λ e. let (g, all) = rest.0 e in let (h, same) = one.0 g in (h, (same, all)),
      λ (h, (same, all)). rest.1 (one.1 (h, same), all),
    )

cases_filled : all_filled decomp_cases ≡ true
unfolding decomp_cases
cases_filled = refl

run_cases_zero : (u : UcTables) → (run_cases u ≡ 0) ↔ Agrees u
unfolding run_cases
run_cases_zero u =
    let a = check_cases_zero (bp_char_class u) class_cases 0 in
    let n₁ = check_cases (bp_char_class u) class_cases 0 in
    let b = check_zero (bp_char_class u 0x110000) 0 n₁ in
    let n₂ = check (bp_char_class u 0x110000) 0 n₁ in
    let c = check_zero (bp_char_class u 0xFFFFFFFF) 0 n₂ in
    let n₃ = check (bp_char_class u 0xFFFFFFFF) 0 n₂ in
    let d = check_cases_zero (bp_ccc u) ccc_cases n₃ in
    let n₄ = check_cases (bp_ccc u) ccc_cases n₃ in
    let e = check_zero (bp_ccc u 0x110000) 0 n₄ in
    let n₅ = check (bp_ccc u 0x110000) 0 n₄ in
    let f = check_cases_zero (bp_nfc_qc u) qc_cases n₅ in
    let n₆ = check_cases (bp_nfc_qc u) qc_cases n₅ in
    let g = check_decomp_zero u decomp_cases n₆ cases_filled in
    let n₇ = check_decomp u decomp_cases n₆ in
    let h = check_compose_zero u compose_cases n₇ in
    (
      λ zero_at_end.
          let (z₇, composed) = h.0 zero_at_end in
          let (z₆, decomposed) = g.0 z₇ in
          let (z₅, quick) = f.0 z₆ in
          let (z₄, mark_above) = e.0 z₅ in
          let (z₃, marks) = d.0 z₄ in
          let (z₂, far) = c.0 z₃ in
          let (z₁, near) = b.0 z₂ in
          record {
            classes = (a.0 z₁).1;
            above = (near, far);
            marks = (marks, mark_above);
            quick = quick;
            decomp = decomposed;
            compose = composed;
          },
      λ r.
          let z₁ = a.1 (refl, r.classes) in
          let z₃ = c.1 (b.1 (z₁, r.above.0), r.above.1) in
          let z₅ = e.1 (d.1 (z₃, r.marks.0), r.marks.1) in
          h.1 (g.1 (f.1 (z₅, r.quick), r.decomp), r.compose),
    )

-- Whatever the tables, the self-test exits with 0 exactly where each lookup gives what every one
-- of its cases wants.
pub self_test-Agrees : (u : UcTables) → (self_test u ≡ 0) ↔ Agrees u
unfolding self_test
self_test-Agrees u =
    (λ e. (run_cases_zero u).0 (ground (arith, e)), λ r. rw ((run_cases_zero u).1 r) refl)
