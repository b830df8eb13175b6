-- ===== src/Tests/Signals.antt =====
-- The theorems on drift and on threats at concrete answers and signals.
use inboxlume.Base.{
  ℕ, ◌+◌, ◌*◌, ◌≡◌, refl, ◌≤◌, ◌⊎◌, ◌↔◌, true, false, Bool, [], ◌∷◌, ok, contains, filter, all,
  length, arith,
}
use inboxlume.Models.{is_blank}
use inboxlume.Policy.Addresses.{strip, lstrip, rstrip}
use inboxlume.Governor.Gate.{operational_quarantine_gate, permits, permits_direct_trash}
use inboxlume.Drift.{
  TemporalWindowEvidence, TemporalDriftReport, family_drift, status_of_drift, enough_evidence,
  effective_weight, interest_score, restricted_in, restricted_families,
  evaluate_temporal_preference_drift, drifts_of, sort_families, insert_family, window, weigh,
  signal_weights, total_of, get,
}
use inboxlume.Drift.Laws.{Enough, Rose, family_drift-restricts, restricted_families-refused}
use inboxlume.Threats.{
  ThreatSignal, ThreatIntent, SemanticThreatVerdict, SemanticThreatAssessment, assess_signals,
  holds, by_value, families_of, weights_sum, weight, level_of, is_alert, signal_family, detectable,
}
use inboxlume.Threats.Laws.{Additive, assess_signals-alert, combine_threat_assessments-Additive}
use inboxlume.Tests.Data.{ascii}
use inboxlume.Tests.Gate.{report, report_available}

-- Six messages, of which some were kept and some were discarded.
abbrev answered : ℕ → ℕ → TemporalWindowEvidence
answered kept discarded = record {
  message_count = 6;
  signal_count = kept + discarded;
  positive_weight = 400 * kept;
  negative_weight = 300 * discarded;
  protective_events = kept;
  explicit_discard_events = discarded;
  legacy_approximated_events = 0;
}

abbrev drift : TemporalDriftReport
drift = record {
  account_id = "main";
  scan_profile = "gemma26-full";
  recent_days = 45;
  historical_days = 180;
  families = family_drift "shops" (answered 4 0) (answered 0 4) ∷ [];
}

drift_evaluated :
    evaluate_temporal_preference_drift ascii "main" "gemma26-full"
      ((
        "shops",
        ("recent", ("messages", 6) ∷ ("quiz_keep", 4) ∷ [])
            ∷ ("historical", ("quiz_dont_keep", 4) ∷ ("messages", 6) ∷ [])
            ∷ [],
      )
        ∷ [])
      45
      180
    ≡ ok drift
unfolding evaluate_temporal_preference_drift drifts_of sort_families insert_family window weigh
    signal_weights total_of get all contains is_blank
drift_evaluated = refl

family_drift-restricts_example :
    ((family_drift "shops" (answered 4 0) (answered 0 4)).restricts_cleanup ≡ true) ↔ (
      Enough (answered 4 0)
      × Enough (answered 0 4)
      × (2 ≤ 4)
      × ((2 ≤ 0) ⊎ Rose (answered 4 0) (answered 0 4)))
family_drift-restricts_example = family_drift-restricts "shops" (answered 4 0) (answered 0 4)

shops_restricted : contains "shops" (restricted_families drift) ≡ true
unfolding contains restricted_families restricted_in family_drift status_of_drift enough_evidence
    effective_weight interest_score
shops_restricted = refl

shops_trimmed : strip ascii.is_space "shops" ≡ "shops"
unfolding strip lstrip rstrip is_blank
shops_trimmed = refl

shops_not_blank : is_blank ascii.is_space "shops" ≡ false
unfolding is_blank
shops_not_blank = refl

restricted_families-refused_example :
    (permits (operational_quarantine_gate ascii report true (restricted_families drift)) "shops"
      ≡ false)
    × (permits_direct_trash
          (operational_quarantine_gate ascii report true (restricted_families drift))
          "shops"
        ≡ false)
restricted_families-refused_example =
    restricted_families-refused ascii report drift "shops" report_available shops_trimmed
      shops_not_blank shops_restricted

abbrev found : ThreatSignal → Bool
found ThreatSignal.brand_domain_mismatch = true
found ThreatSignal.ip_literal_link = true
found _ = false

found_alert : is_alert (assess_signals found).level ≡ true
unfolding assess_signals holds by_value families_of weights_sum weight level_of signal_family
    detectable filter contains
found_alert = refl

assess_signals-alert_example : 2 ≤ length (assess_signals found).signals
assess_signals-alert_example = assess_signals-alert found found_alert

abbrev phishing : SemanticThreatAssessment
phishing = record {
  verdict = SemanticThreatVerdict.likely_phishing;
  intent = ThreatIntent.credential_theft;
  impersonation = true;
  credential_request = true;
  money_request = false;
  urgency_pressure = true;
  link_action = true;
  plausible_legitimate_context = false;
  confidence = 900000;
  reason_codes = "credential_harvest_language" ∷ [];
  analyzer = "local";
}

combine_threat_assessments-Additive_example : Additive (assess_signals found) phishing
combine_threat_assessments-Additive_example =
    combine_threat_assessments-Additive found phishing (omega arith)
