-- ===== src/Backtest/Laws.antt =====
-- What the comparison of src/inboxlume/safety_backtest.py says of two reports.
use inboxlume.Base.{
  ◌≡◌, refl, sym, subst, ap, ◌∙◌, ◌↔◌, ◌≢◌, ◌<◌, Bool, true, not, ◌&&◌, String, List, [], ◌∷◌, ltb,
  leb, ◌==◌, any, contains, str_eq, arith, Option, some, ok, require, bind_ok, ok_injective,
}
use Prim.Native.String.{count}
use inboxlume.Models.{Platform, Datetime, is_blank}
use inboxlume.Governor.{
  Counts, SafetyEvidenceBand, SafetyGovernorReport, Thresholds, evaluate_safety_governor,
}
use inboxlume.Governor.Binomial.{Libm}
use inboxlume.Governor.Totals.{sum_of, Conserves, evaluate_safety_governor-Conserves}
use inboxlume.Backtest.{
  BacktestTrend, VersionedSafetyBacktestReport, by_name, regressed, previous_false, trend_of,
  trend_since, regressed_since, previous_report, report_evidence, is_same_text,
  evaluate_versioned_safety_backtest,
}
use inboxlume.Backtest.Families.{last_false, grew, previous_false-by_name, contains-regressed}
use inboxlume.Backtest.Sums.{
  false_sum, Different, previous_sum-bound, regressed-nothing, by_name-Different, by_name-sum,
}

sum_of-false_sum : (bs : List SafetyEvidenceBand) → sum_of (λ b. b.false_cleanup) bs ≡ false_sum bs
unfolding sum_of false_sum
sum_of-false_sum [] = refl
sum_of-false_sum (b ∷ bs) = ground (arith, sum_of-false_sum bs)

abbrev worse : SafetyEvidenceBand → SafetyGovernorReport → Bool → Bool
worse current p same_evidence =
    not (current.proposals == 0)
    && (not same_evidence && ltb p.overall.false_cleanup current.false_cleanup)

trend_of-worse :
    (current : SafetyEvidenceBand) (p : SafetyGovernorReport) (same_evidence : Bool)
    → (trend_of current (some p) same_evidence ≡ BacktestTrend.protective_regression)
      ↔ (worse current p same_evidence ≡ true)
unfolding trend_of trend_since
trend_of-worse current p same_evidence = (λ e. ground (arith, e), λ e. ground (arith, e))

module _ (libm : Libm) (t : Thresholds) where
  -- More false cleanups of the account are more in one of its families.
  regressed-some :
      (r p : SafetyGovernorReport)
      → Conserves libm t r
      → Conserves libm t p
      → Different r.semantic_families
      → p.overall.false_cleanup < r.overall.false_cleanup
      → (regressed_since r.semantic_families (some p) ≡ [])
      → ⊥
  regressed-some r p cr cp d more e =
      let same : by_name r.semantic_families ≡ r.semantic_families =
        by_name-Different r.semantic_families d in
      ground (
        arith,
        regressed-nothing r.semantic_families (by_name p.semantic_families)
            (subst (λ rows. regressed rows (by_name p.semantic_families) ≡ []) same e),
        previous_sum-bound r.semantic_families (by_name p.semantic_families) d,
        by_name-sum p.semantic_families,
        cr.false_answers,
        cp.false_answers,
        sum_of-false_sum r.semantic_families,
        sum_of-false_sum p.semantic_families,
        more,
      )

module _ (libm : Libm) (t : Thresholds) (py : Platform)
    (digest : String → String → List (String × Counts) → String) (prefix : String → String)
    (account_id scan_profile : String) (evidence previous_evidence : List (String × Counts))
    (created_at : Datetime) (previous_fingerprint : Option String) (engine_version : String)
    (p : SafetyGovernorReport) where
  -- What a backtest that returns made of the two reports.
  record Compared (result : VersionedSafetyBacktestReport) : Type 0 where
    evaluated :
        evaluate_safety_governor libm t py account_id scan_profile evidence
        ≡ ok result.safety_report
    trended :
        result.trend
        ≡ trend_of result.safety_report.overall
            (some p)
            (is_same_text result.evidence_fingerprint previous_fingerprint)
    compared :
        result.regressed_families ≡ regressed_since result.safety_report.semantic_families (some p)

  previous-known :
      evaluate_safety_governor libm t py account_id scan_profile previous_evidence ≡ ok p
      → previous_report libm t py digest prefix account_id scan_profile (some previous_evidence)
        ≡ ok (some p)
  unfolding previous_report
  previous-known before = rw before

  backtest-Compared :
      (result : VersionedSafetyBacktestReport)
      → evaluate_safety_governor libm t py account_id scan_profile previous_evidence ≡ ok p
      → evaluate_versioned_safety_backtest libm t py digest prefix account_id scan_profile evidence
          created_at
          (some previous_evidence)
          previous_fingerprint
          engine_version
        ≡ ok result
      → Compared result
  unfolding evaluate_versioned_safety_backtest
  backtest-Compared result before e =
      let c = bind_ok (require created_at.aware _) _ result e in
      let d =
        bind_ok
          (require (not (is_blank py.is_space engine_version) && leb (count engine_version) 64) _) _
          result c.2 in
      let report =
        bind_ok (evaluate_safety_governor libm t py account_id scan_profile evidence) _ result
          d.2 in
      let previous =
        bind_ok
          (previous_report libm t py digest prefix account_id scan_profile (some previous_evidence))
          _ result report.2 in
      let same : some p ≡ previous.0 =
        ok_injective (some p) previous.0 (sym (previous-known before) ∙ previous.1) in
      subst Compared (ok_injective _ result previous.2) (record {
        evaluated = report.1;
        trended =
            ap
              (λ q. trend_of report.0.overall q (
                is_same_text (digest scan_profile engine_version (report_evidence report.0))
                  previous_fingerprint))
              (sym same);
        compared = ap (λ q. regressed_since report.0.semantic_families q) (sym same);
      })

  -- A backtest against an earlier report says `protective_regression` exactly if there are proposals,
  -- the evidence is not the same, and more cleanups were wrong than before.
  pub backtest-regression :
      (result : VersionedSafetyBacktestReport)
      → evaluate_safety_governor libm t py account_id scan_profile previous_evidence ≡ ok p
      → evaluate_versioned_safety_backtest libm t py digest prefix account_id scan_profile evidence
          created_at
          (some previous_evidence)
          previous_fingerprint
          engine_version
        ≡ ok result
      → (result.trend ≡ BacktestTrend.protective_regression) ↔ (
          (not (result.safety_report.overall.proposals == 0)
            && (not (is_same_text result.evidence_fingerprint previous_fingerprint)
                && ltb p.overall.false_cleanup result.safety_report.overall.false_cleanup))
          ≡ true)
  backtest-regression result before e =
      let c : Compared result = backtest-Compared result before e in
      subst
        (λ trend. (trend ≡ BacktestTrend.protective_regression) ↔ (
          worse result.safety_report.overall p
            (is_same_text result.evidence_fingerprint previous_fingerprint)
          ≡ true))
        (sym c.trended)
        (trend_of-worse result.safety_report.overall p
          (is_same_text result.evidence_fingerprint previous_fingerprint))

  regressed_families-named :
      (result : VersionedSafetyBacktestReport)
      → Compared result
      → Different result.safety_report.semantic_families
      → (name : String)
      → contains name result.regressed_families
        ≡ any
            (grew name (last_false name p.semantic_families 0))
            result.safety_report.semantic_families
  regressed_families-named result c d name =
      ap (contains name) c.compared
      ∙ (contains-regressed name (by_name result.safety_report.semantic_families)
            (by_name p.semantic_families)
          ∙ (ap (any (grew name (previous_false name (by_name p.semantic_families))))
                (by_name-Different result.safety_report.semantic_families d)
              ∙ ap (λ before. any (grew name before) result.safety_report.semantic_families)
                  (previous_false-by_name name p.semantic_families)))

  -- If the families of the new report have different names, a backtest that says `protective_regression`
  -- names some family; and it names exactly the families of the new report that have more false cleanups
  -- than the last band of that name had in the earlier report, where a family that was not there had none.
  pub backtest-families :
      (result : VersionedSafetyBacktestReport)
      → evaluate_safety_governor libm t py account_id scan_profile previous_evidence ≡ ok p
      → evaluate_versioned_safety_backtest libm t py digest prefix account_id scan_profile evidence
          created_at
          (some previous_evidence)
          previous_fingerprint
          engine_version
        ≡ ok result
      → Different result.safety_report.semantic_families
      → result.trend ≡ BacktestTrend.protective_regression
      → (result.regressed_families ≢ [])
        × ((name : String)
            → contains name result.regressed_families
              ≡ any
                  (λ b.
                    str_eq name b.name
                    && ltb (last_false name p.semantic_families 0) b.false_cleanup)
                  result.safety_report.semantic_families)
  backtest-families result before e d regression =
      let c : Compared result = backtest-Compared result before e in
      (
        λ empty.
            regressed-some libm t result.safety_report p
              (evaluate_safety_governor-Conserves libm t py account_id scan_profile evidence
                result.safety_report c.evaluated)
              (evaluate_safety_governor-Conserves libm t py account_id scan_profile
                previous_evidence p before)
              d (ground (arith, (backtest-regression result before e).0 regression))
              (sym c.compared ∙ empty),
        regressed_families-named result c d,
      )
