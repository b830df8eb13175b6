-- ===== src/Tests/Proofs.antt =====
-- The theorems on life cycles and on proofs of obsolescence at concrete messages.
use inboxlume.Base.{
  ◌≡◌, refl, ◌↔◌, inl, inr, String, [], ◌∷◌, true, false, Bool, none, ok, any, contains, intersects,
  occurs, all, any_occurs,
}
use inboxlume.Models.{
  PolicyAction, PolicyDecision, decision, category_is, EmailCategory-discrete, normalized_flags,
  EmailRecord,
}
use inboxlume.Guardrails.{
  has_permanent_transaction_record, has_banking_record, access_alert_kind, message_text, any_pair,
  follows_within, completion_pair_in, has_transaction_completion_pair, between, connected,
  credential_change_in, has_credential_state_change, has_routine_access_event,
}
use inboxlume.Guardrails.Spans.{
  tokenize, split_words, is_prefix_of, spans_from, phrase_spans, nearby,
}
use inboxlume.Guardrails.AccessTerms.{
  high_risk_access_terms, routine_access_terms, credential_context_terms,
  security_state_change_terms, security_pair_connectors, access_event_context_terms,
  access_event_signal_terms,
}
use inboxlume.Guardrails.RecordTerms.{
  banking_context_terms, banking_record_terms, general_record_terms, invoice_record_terms,
  transaction_context_terms, transaction_completion_terms, transaction_success_terms,
  service_confirmation_pairs,
}
use inboxlume.Policy.{decide, protective_reason, has_protected_flag}
use inboxlume.Lifecycle.{
  UtilityKind, LifecycleState, LifecycleCondition, DateRelation, LifecycleObservation,
}
use inboxlume.Lifecycle.Dates.{
  expiry_dates, latest, dates_of, year_first, date, take_chars, verified_expiry_date, day_first,
  day_named, named_day, int_from, days_in_month, is_leap,
}
use inboxlume.Obsolescence.{
  lifecycle_hard_protected, deterministic_otp_proof, deterministic_date_proof,
  multi_signal_consensus_proof,
}
use inboxlume.Obsolescence.Proof.{proof, check_proof, has_hard_policy_reason, hard_policy_reasons}
use inboxlume.Obsolescence.Laws.{verifies, CodeExpired, otp_verified}
use inboxlume.Obsolescence.Guarded.{KeepsHard, decide-KeepsHard, protected_never_verified}
use inboxlume.Obsolescence.Successor.{StoredLifecycleEvidence, successor_transition_proof}
use inboxlume.Obsolescence.Successor.Laws.{Closed, successor_verified}
use inboxlume.Tests.Data.{
  ascii, now, policy, message, offer, discard, code_mail, one_time, agreeing, lower, counterpart,
  is_alphanumeric, stated_groups,
}

abbrev observed : UtilityKind → LifecycleState → LifecycleObservation
observed kind state = record {
  kind = kind;
  state = state;
  utility = record { operational = false; evidentiary = false; personal = false; security = false };
  date_relation = DateRelation.past;
  condition = LifecycleCondition.completed_condition;
  confidence = 760000;
  reason_codes = "heuristic_fallback" ∷ [];
  extractor = "heuristic-lifecycle-v1";
}

abbrev expired_code : LifecycleObservation
expired_code = observed UtilityKind.one_time_code LifecycleState.expired

abbrev expired_offer : LifecycleObservation
expired_offer = observed UtilityKind.promotion LifecycleState.expired

abbrev read_code : PolicyDecision
read_code = decision PolicyAction.quarantine ("expired_read_one_time_code" ∷ [])

abbrev unsure_offer : PolicyDecision
unsure_offer = decision PolicyAction.review ("low_confidence" ∷ [])

otp_verified_example :
    (verifies (deterministic_otp_proof ascii code_mail one_time read_code expired_code now 7)
      ≡ true)
    ↔ CodeExpired ascii code_mail one_time read_code expired_code now 7
otp_verified_example = otp_verified ascii code_mail one_time read_code expired_code now 7

-- An offer without a date.
abbrev undated : EmailRecord
undated = message true "shop@store.example" "Sale" "now"

expired_offer_verified :
    verifies (deterministic_date_proof ascii offer discard unsure_offer expired_offer now) ≡ true
unfolding deterministic_date_proof verified_expiry_date proof check_proof lifecycle_hard_protected
    has_hard_policy_reason hard_policy_reasons expiry_dates dates_of latest stated_groups take_chars
    year_first date int_from days_in_month is_leap day_first day_named named_day category_is
    EmailCategory-discrete intersects contains any all any_occurs occurs tokenize split_words
    is_prefix_of spans_from phrase_spans nearby any_pair follows_within completion_pair_in
    has_transaction_completion_pair between connected credential_change_in
    has_credential_state_change has_routine_access_event message_text access_alert_kind
    has_banking_record has_permanent_transaction_record high_risk_access_terms routine_access_terms
    credential_context_terms security_state_change_terms security_pair_connectors
    access_event_context_terms access_event_signal_terms banking_context_terms banking_record_terms
    general_record_terms invoice_record_terms transaction_context_terms transaction_completion_terms
    transaction_success_terms service_confirmation_pairs lower counterpart is_alphanumeric
expired_offer_verified = refl

abbrev starred : EmailRecord
starred = record offer { known_contact = true }

abbrev kept : PolicyDecision
kept = decision PolicyAction.keep ("known_relationship" ∷ [])

kept_for_relationship : decide ascii starred discard policy now none ≡ ok kept
unfolding decide protective_reason has_protected_flag normalized_flags intersects any contains lower
    counterpart
kept_for_relationship = refl

decide-KeepsHard_example : KeepsHard kept
decide-KeepsHard_example =
    decide-KeepsHard discard policy starred now none ascii kept kept_for_relationship refl

protected_never_verified_example :
    (verifies (deterministic_otp_proof ascii starred discard kept expired_offer now 7) ≡ false)
    × (verifies (deterministic_date_proof ascii starred discard kept expired_offer now) ≡ false)
    × (verifies (multi_signal_consensus_proof ascii starred discard kept agreeing) ≡ false)
protected_never_verified_example =
    protected_never_verified discard policy starred now none ascii kept expired_offer now 7 agreeing
      kept_for_relationship refl (inl (inr (inl refl)))

abbrev shipped : LifecycleState → LifecycleCondition → Bool → String → StoredLifecycleEvidence
shipped state condition operational reason = record {
  kind = UtilityKind.shipment;
  state = state;
  condition = condition;
  operational = operational;
  evidentiary = false;
  personal = false;
  security = false;
  hard_protected = false;
  confidence_bucket = 9;
  reason_codes = reason ∷ [];
  extractor = "mlx-lifecycle:gemma26-v1";
}

abbrev on_its_way : StoredLifecycleEvidence
on_its_way =
    shipped LifecycleState.pending LifecycleCondition.external_action_pending true
      "pending_language"

abbrev delivered : StoredLifecycleEvidence
delivered =
    shipped LifecycleState.completed LifecycleCondition.completed_condition false
      "completion_language"

successor_verified_example :
    (verifies (successor_transition_proof on_its_way delivered "gemma26-full") ≡ true)
    ↔ Closed on_its_way delivered "gemma26-full"
successor_verified_example = successor_verified on_its_way delivered "gemma26-full"
