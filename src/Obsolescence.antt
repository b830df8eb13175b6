-- ===== src/Obsolescence.antt =====
-- src/inboxlume/proof_of_obsolescence.py: when a message is proved to have lost its use.
pub mod Laws
pub mod Successor
pub mod Guarded
pub mod Proof
pub mod Members
use Proof.{
  ProofStatus, ClosureWitness, ObsolescenceProof, Reasons, codes, text, proof,
  has_hard_policy_reason,
}
use inboxlume.Base.{
  ℕ, ◌+◌, ◌*◌, ◌/◌, ◌≤◌, Bool, true, false, ◌&&◌, ◌||◌, not, String, List, [], ◌∷◌, leb, ltb, ◌==◌,
  min, if◌then◌else◌, contains, intersects, length, Option, none, some, ok, raise, value_error,
  Result, require, ◌>>=◌, ◌>>◌,
}
use inboxlume.Models.{
  Platform, Datetime, EmailCategory, EmailRecord, Classification, PreferenceSnapshot,
  PolicyDecision, category_is, age_days, unit, action_is_keep, retention_is_discard,
}
use inboxlume.Guardrails.{has_permanent_transaction_record, access_alert_kind, is_high_risk}
use inboxlume.Lifecycle.{UtilityKind, UtilityVector, LifecycleObservation}
use inboxlume.Lifecycle.Heuristic.{is_code, is_promotion, expired_before}
use inboxlume.Lifecycle.Dates.{verified_expiry_date}

-- `min(9, int(observation.confidence * 10))`
abbrev pub bucket_of : ℕ → ℕ
bucket_of confidence = min 9 (confidence * 10 / unit)

abbrev pub blocked : Bool → ProofStatus
blocked protected_utility =
    if protected_utility
    then ProofStatus.blocked_protected_utility
    else ProofStatus.insufficient_evidence

module _ (py : Platform) (m : EmailRecord) (c : Classification) (d : PolicyDecision) where
  unfoldable pub lifecycle_hard_protected : Bool
  lifecycle_hard_protected =
      has_hard_policy_reason d.reason_codes
      || m.has_attachment
      || has_permanent_transaction_record py m
      || is_high_risk (access_alert_kind py m)
      || category_is c.category EmailCategory.banking

  abbrev pub hard_guardrail : ℕ → Result (Option ObsolescenceProof)
  hard_guardrail bucket =
      proof ProofStatus.blocked_protected_utility ClosureWitness.no_witness
        (codes ("hard_guardrail" ∷ [])) bucket

  module _ (o : LifecycleObservation) (now : Datetime) where
    -- `evidentiary or personal`
    abbrev pub code_utility : Bool
    code_utility = o.utility.evidentiary || o.utility.personal

    -- The end of `deterministic_otp_proof`, after `verified` is computed.
    abbrev pub code_proof : Bool → Result (Option ObsolescenceProof)
    code_proof is_proved =
        if is_proved
        then proof ProofStatus.verified ClosureWitness.deterministic_otp_expiry
            (codes ("read_otp" ∷ "age_threshold" ∷ "expired_state" ∷ "no_protected_utility" ∷ [])) 9
        else proof (blocked code_utility) ClosureWitness.no_witness
            (codes (
              (if code_utility then "protected_utility_remains" else "otp_closure_not_verified")
              ∷ []))
            (bucket_of o.confidence)

    -- The age is asked only after the first three conditions have passed.
    unfoldable pub deterministic_otp_proof : ℕ → Result (Option ObsolescenceProof)
    deterministic_otp_proof minimum_age_days =
        if not (is_code o.kind)
        then ok none
        else if lifecycle_hard_protected
        then hard_guardrail (bucket_of o.confidence)
        else if category_is c.category EmailCategory.one_time_code
            && leb 800000 c.confidence
            && not m.unread
        then (do age ← age_days m now; code_proof (leb minimum_age_days age && not code_utility))
        else code_proof false

    abbrev pub any_utility : Bool
    any_utility =
        o.utility.operational || o.utility.evidentiary || o.utility.personal || o.utility.security

    -- The conditions of `verified`, once the date is known.
    abbrev pub date_elapsed : Option ℕ → Bool
    date_elapsed expiry =
        expired_before expiry now.date
        && category_is c.category EmailCategory.advertising
        && leb 900000 c.confidence
        && not any_utility

    -- In the last call the parentheses around the reason hold no comma, so it is a text.
    unfoldable pub deterministic_date_proof : Result (Option ObsolescenceProof)
    deterministic_date_proof =
        if not (is_promotion o.kind)
        then ok none
        else if lifecycle_hard_protected
        then hard_guardrail (bucket_of o.confidence)
        else (do
          expiry ← verified_expiry_date py m now
          if date_elapsed expiry
              then proof ProofStatus.verified ClosureWitness.verified_date_elapsed
                  (codes ("explicit_expiry_date" ∷ "date_elapsed" ∷ "no_protected_utility" ∷ [])) 9
              else proof (blocked any_utility) ClosureWitness.no_witness
                  (text (
                    if any_utility
                    then "protected_utility_remains"
                    else "date_closure_not_verified"))
                  (bucket_of o.confidence))

  -- `classification.category in supported`
  abbrev pub is_supported : Bool
  is_supported =
      category_is c.category EmailCategory.advertising
      || category_is c.category EmailCategory.social
      || category_is c.category EmailCategory.spam

  abbrev pub model_signal : Bool
  model_signal =
      retention_is_discard c.retention
      && leb 900000 c.confidence
      && leb 900000 c.retention_confidence

  abbrev pub one : Bool → ℕ
  one b = if b then 1 else 0

  module _ (p : PreferenceSnapshot) where
    abbrev pub correction_signal : Bool
    correction_signal =
        leb 900000 p.dont_keep_similarity
        && leb 3 p.dont_keep_similar_examples
        && leb p.keep_similarity 350000
        && p.keep_similar_examples == 0

    abbrev pub current_regime_signal : Bool
    current_regime_signal =
        leb p.recent_content_score 200000
        && leb 3000000 p.recent_content_evidence
        && leb 3 p.recent_content_examples

    unfoldable pub multi_signal_consensus_proof : Result (Option ObsolescenceProof)
    multi_signal_consensus_proof =
        if not is_supported
        then ok none
        else if lifecycle_hard_protected
        then hard_guardrail 0
        else if action_is_keep d.action
        then proof ProofStatus.blocked_protected_utility ClosureWitness.no_witness
            (codes ("ordinary_policy_keep" ∷ [])) 0
        else if model_signal && correction_signal && current_regime_signal
        then proof ProofStatus.verified ClosureWitness.multi_signal_consensus
            (codes ("model_discard" ∷ "repeated_corrections" ∷ "current_regime_agrees" ∷ [])) 9
        else proof ProofStatus.insufficient_evidence ClosureWitness.no_witness
            (codes ("independent_signal_consensus_missing" ∷ []))
            ((one model_signal + one correction_signal + one current_regime_signal) * 3)
