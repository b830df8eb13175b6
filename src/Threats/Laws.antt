-- ===== src/Threats/Laws.antt =====
-- src/inboxlume/threat_signals.py: what the verdict of a local model can and cannot change.
use inboxlume.Base.{
  ℕ, ◌+◌, ◌*◌, ◌≤◌, ◌<◌, ◌≡◌, refl, ◌⊎◌, Bool, true, false, List, [], ◌∷◌, length, filter, contains,
  arith,
}
use inboxlume.Models.{unit}
use inboxlume.Threats.{
  ThreatSignal, ThreatAssessment, SemanticThreatAssessment, weight, signal_family, families_of,
  weights_sum, holds, by_value, assess_signals, level_of, is_alert, likely_malicious, is_suspicious,
  round_millionths, semantic_score, combine_threat_assessments,
}

rounds : (n k : ℕ) → n ≤ k * 1000000 → round_millionths n ≤ k
unfolding round_millionths
rounds n k h = ground arith

semantic_score_le : (s : SemanticThreatAssessment) → s.confidence ≤ unit → semantic_score s ≤ 30
unfolding semantic_score likely_malicious
semantic_score_le s h = ground (arith, rounds (30 * s.confidence) 30, rounds (15 * s.confidence) 15)

weight_le : (s : ThreatSignal) → (weight s ≤ 35) × (0 < weight s)
unfolding weight
weight_le ThreatSignal.malformed_sender = (omega arith, omega arith)
weight_le _ = (omega arith, omega arith)

weights_sum_le : (signals : List ThreatSignal) → weights_sum signals ≤ 35 * length signals
unfolding weights_sum
weights_sum_le [] = omega arith
weights_sum_le (s ∷ signals) = omega (arith, (weight_le s).0, weights_sum_le signals)

-- An alert has at least two signals: none of them is worth an alert by itself.
pub assess_signals-alert :
    (found : ThreatSignal → Bool)
    → is_alert (assess_signals found).level ≡ true
    → 2 ≤ length (assess_signals found).signals
unfolding assess_signals level_of
assess_signals-alert found h = ground (arith, weights_sum_le (filter (holds found) by_value))

family_exists :
    (s : ThreatSignal) (signals : List ThreatSignal) → 0 < length (families_of (s ∷ signals))
unfolding families_of contains filter signal_family
family_exists ThreatSignal.malformed_sender signals = ground arith
family_exists _ signals = ground arith

-- Without a family there is no score.
score_of-no_family :
    (signals : List ThreatSignal) → length (families_of signals) ≡ 0 → weights_sum signals ≡ 0
unfolding weights_sum
score_of-no_family [] h = refl
score_of-no_family (s ∷ signals) h = omega (arith, family_exists s signals)

-- What the model's verdict changes of a technical finding.
pub record Additive (a : ThreatAssessment) (s : SemanticThreatAssessment) : Type 0 where
  pub never_clears : a.score ≤ (combine_threat_assessments a s).score
  pub keeps_alert : is_alert a.level ≡ true → is_alert (combine_threat_assessments a s).level ≡ true
  pub adds_little : (combine_threat_assessments a s).score ≤ a.score + 45
  pub alone_no_alert :
      length a.signal_families ≡ 0 → is_alert (combine_threat_assessments a s).level ≡ false
  pub raised_by_suspicion :
      is_alert a.level ≡ false
      → is_alert (combine_threat_assessments a s).level ≡ true
      → (likely_malicious s ≡ true) ⊎ (is_suspicious s.verdict ≡ true)

unsuspected_score :
    (s : SemanticThreatAssessment)
    → likely_malicious s ≡ false
    → is_suspicious s.verdict ≡ false
    → semantic_score s ≡ 0
unfolding semantic_score
unsuspected_score s h k = simp (h, k)

additive :
    (a : ThreatAssessment) (s : SemanticThreatAssessment)
    → s.confidence ≤ unit
    → a.score ≤ 100
    → a.level ≡ level_of a.score
    → (length a.signal_families ≡ 0 → a.score ≡ 0)
    → Additive a s
unfolding combine_threat_assessments level_of
additive a s c h l e = record {
  never_clears = ground (arith, e);
  keeps_alert = λ k. ground (arith, e, k);
  adds_little = ground (arith, semantic_score_le s c);
  alone_no_alert = λ k. ground (arith, e, k);
  raised_by_suspicion = λ k m. ground (arith, k, m, l, e, unsuspected_score s);
}

-- Whatever the signals of a message and whatever a local model says of it with a confidence of at
-- most one: the combined score is not below the technical one and at most 45 above it, an alert stays
-- one, there is no alert without a technical family, and a new alert needs a verdict of suspicion.
pub combine_threat_assessments-Additive :
    (found : ThreatSignal → Bool) (s : SemanticThreatAssessment)
    → s.confidence ≤ unit
    → Additive (assess_signals found) s
unfolding assess_signals
combine_threat_assessments-Additive found s c =
    let ordered : List ThreatSignal = filter (holds found) by_value in
    additive (assess_signals found) s c (omega arith) refl
      (λ e. omega (arith, score_of-no_family ordered e))
