-- ===== src/Tests/Gate.antt =====
-- The theorems on the Governor at concrete answers, with a root bounded by its tangent.
use inboxlume.Base.{
  ℕ, ◌-◌, ◌*◌, ◌≡◌, refl, ◌≤◌, ◌<◌, ◌&&◌, ◌||◌, not, true, false, String, List, [], ◌∷◌, ok, raise,
  none, contains,
}
use inboxlume.Models.{is_blank, unit}
use inboxlume.Governor.{
  Counts, SafetyEvidenceBand, SafetyGovernorReport, GovernorStatus, default_thresholds,
  evidence_band, family_bands, insert_band, sort_bands, sorts_before, evaluate_safety_governor,
  status_of, conclusive_reviews, is_qualified,
}
use inboxlume.Governor.Binomial.{
  Libm, factorial, tail_term, tail_sum, direct_binomial_lower_tail, binomial_cdf_at_most, bisect,
  bisected, upper_binomial_error_rate, lower_binomial_error_rate,
}
use inboxlume.Governor.Gate.{
  is_blocking, is_spotless, permits, permits_direct_trash, operational_quarantine_gate,
  operational_governor_available, stripped,
}
use inboxlume.Governor.Shares.{qualified_share, blocking_share}
use inboxlume.Governor.Permissions.{some_band, permits-refuses, permits_direct_trash-spotless}
use inboxlume.Governor.Totals.{Conserves, evaluate_safety_governor-Conserves}
use inboxlume.Tests.Data.{ascii}

-- `alpha ^ (1 / n)` is at most `1 - (1 - alpha) / n`.
abbrev pub tangent : Libm
tangent = record {
  root = λ alpha trials. record { num = unit * trials - (unit - alpha); den = unit * trials };
}

abbrev pub answers : ℕ → ℕ → Counts
answers keep dont_keep = record { keep = keep; dont_keep = dont_keep; unsure = 1; unreviewed = 2 }

abbrev pub empty_band : SafetyEvidenceBand
empty_band = record {
  name = "";
  proposals = 0;
  confirmed_cleanup = 0;
  false_cleanup = 0;
  unsure = 0;
  unreviewed = 0;
  lower_false_cleanup_rate = none;
  upper_false_cleanup_rate = none;
  target_false_cleanup_rate = 0;
  confidence_level = 0;
  status = GovernorStatus.collecting;
}

abbrev pub made_band : String → Counts → SafetyEvidenceBand
made_band name n = elim (evidence_band tangent default_thresholds name n) [
  | ok b ↦ b
  | raise _ ↦ empty_band
]

abbrev pub shops : SafetyEvidenceBand
shops = made_band "shops" (answers 0 300)

abbrev pub clubs : SafetyEvidenceBand
clubs = made_band "clubs" (answers 10 10)

shops_made : evidence_band tangent default_thresholds "shops" (answers 0 300) ≡ ok shops
unfolding evidence_band upper_binomial_error_rate lower_binomial_error_rate bisected bisect
shops_made = refl

shops_qualified : is_qualified shops.status ≡ true
unfolding evidence_band upper_binomial_error_rate lower_binomial_error_rate status_of
shops_qualified = refl

qualified_share_example :
    (40 ≤ conclusive_reviews shops)
    × (shops.false_cleanup * 1000000 ≤ 10000 * conclusive_reviews shops)
qualified_share_example =
    qualified_share tangent default_thresholds "shops" (answers 0 300) shops shops_made
      shops_qualified

clubs_made : evidence_band tangent default_thresholds "clubs" (answers 10 10) ≡ ok clubs
unfolding evidence_band upper_binomial_error_rate lower_binomial_error_rate
clubs_made = refl

clubs_blocking : is_blocking clubs ≡ true
unfolding evidence_band upper_binomial_error_rate lower_binomial_error_rate is_blocking
    conclusive_reviews bisected bisect binomial_cdf_at_most direct_binomial_lower_tail tail_sum
    tail_term factorial
clubs_blocking = refl

blocking_share_example :
    (20 ≤ conclusive_reviews clubs)
    × (3 ≤ clubs.false_cleanup)
    × (10000 * conclusive_reviews clubs < clubs.false_cleanup * 1000000)
blocking_share_example =
    blocking_share tangent default_thresholds "clubs" (answers 10 10) clubs clubs_made
      clubs_blocking

abbrev evidence : List (String × Counts)
evidence = ("clubs", answers 10 10) ∷ ("shops", answers 0 300) ∷ []

abbrev pub report : SafetyGovernorReport
report = record {
  account_id = "main";
  scan_profile = "gemma26-full";
  overall = made_band "overall" (record { keep = 10; dont_keep = 310; unsure = 2; unreviewed = 4 });
  semantic_families = shops ∷ clubs ∷ [];
  shadow_only = true;
  authorizes_actions = false;
}

report_made :
    evaluate_safety_governor tangent default_thresholds ascii "main" "gemma26-full" evidence
    ≡ ok report
unfolding evaluate_safety_governor family_bands sort_bands insert_band sorts_before evidence_band
    upper_binomial_error_rate lower_binomial_error_rate is_blank
report_made = refl

evaluate_safety_governor-Conserves_example : Conserves tangent default_thresholds report
evaluate_safety_governor-Conserves_example =
    evaluate_safety_governor-Conserves tangent default_thresholds ascii "main" "gemma26-full"
      evidence report report_made

permits-refuses_example :
    permits (operational_quarantine_gate ascii report true []) "clubs"
    ≡ not (
        true
        && operational_governor_available report
        && (some_band is_blocking "clubs" report || contains "clubs" (stripped ascii [])))
permits-refuses_example = permits-refuses ascii report true [] "clubs"

pub report_available : operational_governor_available report ≡ true
unfolding operational_governor_available conclusive_reviews evidence_band upper_binomial_error_rate
    lower_binomial_error_rate
report_available = refl

permits_direct_trash-spotless_example :
    permits_direct_trash (operational_quarantine_gate ascii report true []) "shops" ≡ (
      is_spotless report.overall
      && not (contains "shops" (stripped ascii []))
      && some_band is_spotless "shops" report)
permits_direct_trash-spotless_example =
    permits_direct_trash-spotless ascii report true [] "shops" refl report_available
