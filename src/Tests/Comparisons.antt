-- ===== src/Tests/Comparisons.antt =====
-- The theorems on backtests, on the model catalogue and on the reference time, at concrete answers.
use inboxlume.Base.{
  ◌≡◌, ◌≢◌, ◌↔◌, refl, ℕ, ◌==◌, ltb, ◌/◌, arith, ◌%◌, true, false, ◌&&◌, ◌||◌, not, String, List,
  [], ◌∷◌, leb, str_eq, any, contains, none, some, ok, raise, Result,
}
use inboxlume.Models.{is_blank}
use inboxlume.Governor.{
  Counts, SafetyGovernorReport, default_thresholds, evidence_band, family_bands, insert_band,
  sort_bands, sorts_before, evaluate_safety_governor,
}
use inboxlume.Governor.Binomial.{upper_binomial_error_rate, lower_binomial_error_rate}
use inboxlume.Backtest.{
  BacktestTrend, pos, VersionedSafetyBacktestReport, trend_of, trend_since, is_same_text,
  previous_report, evaluate_versioned_safety_backtest,
}
use inboxlume.Backtest.Sums.{Different}
use inboxlume.Backtest.Families.{last_false}
use inboxlume.Backtest.Laws.{backtest-regression, backtest-families}
use inboxlume.LocalModels.{
  LocalModelProfile, model_spec, profile_for_backend, sum_values, count_of,
  require_direct_trash_authority,
}
use inboxlume.LocalModels.Laws.{profile_for_backend_iff, require_direct_trash_authority_iff}
use inboxlume.Duration.{chunked_reference_seconds}
use inboxlume.Duration.Laws.{closed_form, chunked_reference_seconds-closed}
use inboxlume.Tests.Data.{ascii, now}
use inboxlume.Tests.Gate.{tangent, answers, report}

abbrev earlier : List (String × Counts)
earlier = ("clubs", answers 0 5) ∷ ("shops", answers 0 5) ∷ []

abbrev later : List (String × Counts)
later = ("clubs", answers 1 5) ∷ ("shops", answers 0 6) ∷ []

abbrev digest : String → String → List (String × Counts) → String
digest profile engine rows = "digest"

abbrev backtest : Result VersionedSafetyBacktestReport
backtest =
    evaluate_versioned_safety_backtest tangent default_thresholds ascii digest (λ text. text) "main"
      "full" later now (some earlier) (some "other") "historical-v1"

abbrev previous : SafetyGovernorReport
previous = elim (evaluate_safety_governor tangent default_thresholds ascii "main" "full" earlier) [
  | ok r ↦ r
  | raise _ ↦ report
]

abbrev compared : VersionedSafetyBacktestReport
compared = elim backtest [
  | ok r ↦ r
  | raise _ ↦ record {
    engine_version = "";
    run_id = "";
    evidence_fingerprint = "";
    created_at = now;
    safety_report = report;
    trend = BacktestTrend.stable;
    previous_evidence_fingerprint = none;
    conclusive_review_delta = pos 0;
    false_cleanup_delta = pos 0;
    upper_bound_delta = none;
    regressed_families = [];
    snapshot_recorded = false;
  }
]

previous_made :
    evaluate_safety_governor tangent default_thresholds ascii "main" "full" earlier ≡ ok previous
unfolding evaluate_safety_governor family_bands evidence_band upper_binomial_error_rate
    lower_binomial_error_rate is_blank
previous_made = refl

compared_made : backtest ≡ ok compared
unfolding evaluate_versioned_safety_backtest previous_report evaluate_safety_governor family_bands
    evidence_band upper_binomial_error_rate lower_binomial_error_rate is_blank
compared_made = refl

backtest-regression_example : (compared.trend ≡ BacktestTrend.protective_regression) ↔ (
    (not (compared.safety_report.overall.proposals == 0)
      && (not (is_same_text compared.evidence_fingerprint (some "other"))
          && ltb previous.overall.false_cleanup compared.safety_report.overall.false_cleanup))
    ≡ true)
backtest-regression_example =
    backtest-regression tangent default_thresholds ascii digest (λ text. text) "main" "full" later
      earlier now (some "other") "historical-v1" previous compared previous_made compared_made

names_differ : Different compared.safety_report.semantic_families
unfolding Different evaluate_versioned_safety_backtest previous_report evaluate_safety_governor
    family_bands evidence_band upper_binomial_error_rate lower_binomial_error_rate is_blank
    sort_bands insert_band sorts_before
names_differ = ((refl, tt), (tt, tt))

regressed_trend : compared.trend ≡ BacktestTrend.protective_regression
unfolding evaluate_versioned_safety_backtest previous_report evaluate_safety_governor family_bands
    evidence_band upper_binomial_error_rate lower_binomial_error_rate is_blank trend_of trend_since
regressed_trend = refl

backtest-families_example :
    (compared.regressed_families ≢ [])
    × ((name : String)
        → contains name compared.regressed_families
          ≡ any
              (λ b.
                str_eq name b.name
                && ltb (last_false name previous.semantic_families 0) b.false_cleanup)
              compared.safety_report.semantic_families)
backtest-families_example =
    backtest-families tangent default_thresholds ascii digest (λ text. text) "main" "full" later
      earlier now (some "other") "historical-v1" previous compared previous_made compared_made
      names_differ regressed_trend

profile_for_backend_iff_example :
    (profile_for_backend "ollama" "qwen3-vl:8b" ≡ ok (some LocalModelProfile.qwen8)) ↔ (
      (str_eq "ollama" (model_spec LocalModelProfile.qwen8).backend
        && (not (str_eq "ollama" "ollama")
            || str_eq "qwen3-vl:8b" (model_spec LocalModelProfile.qwen8).ollama_model))
      ≡ true)
profile_for_backend_iff_example =
    profile_for_backend_iff "ollama" "qwen3-vl:8b" LocalModelProfile.qwen8

abbrev calibration : List (String × ℕ)
calibration = ("keep", 3) ∷ ("dont_keep", 30) ∷ ("unsure", 7) ∷ []

require_direct_trash_authority_iff_example :
    (require_direct_trash_authority "gemma26" "qwen3-vl:8b" calibration ≡ ok tt) ↔ (
      (str_eq "gemma26" "gemma26"
        && (leb 40 (sum_values calibration)
            && (leb 3 (count_of "keep" calibration) && leb 20 (count_of "dont_keep" calibration))))
      ≡ true)
require_direct_trash_authority_iff_example =
    require_direct_trash_authority_iff "gemma26" "qwen3-vl:8b" calibration

chunked_reference_seconds-closed_example :
    chunked_reference_seconds 500 2 300 1201
    ≡ some (closed_form 500 2 300 (1201 / 500) (1201 % 500))
chunked_reference_seconds-closed_example =
    chunked_reference_seconds-closed 500 2 300 1201 (ground arith)
