-- ===== src/Tests/Mailbox.antt =====
-- The theorems on the guards and on the policy at concrete messages.
use inboxlume.Base.{
  ◌≡◌, refl, ◌↔◌, ◌⊎◌, inl, inr, ◌≤◌, ◌+◌, ◌++◌, [], ◌∷◌, true, false, none, ok, any, all, filter,
  contains, intersects, occurs, any_occurs, arith,
}
use inboxlume.Models.{
  PolicyAction, decision, age_days, category_is, EmailCategory-discrete, category_in,
  category_value, normalized_flags, is_blank, EmailRecord,
}
use inboxlume.Guardrails.{
  has_permanent_transaction_record, has_banking_record, access_alert_kind, is_routine, message_text,
  any_pair, follows_within, completion_pair_in, has_transaction_completion_pair, between, connected,
  credential_change_in, has_credential_state_change, has_routine_access_event,
}
use inboxlume.Guardrails.Spans.{
  tokenize, split_words, is_prefix_of, spans_from, phrase_spans, nearby,
}
use inboxlume.Guardrails.AccessTerms.{
  high_risk_access_terms, routine_access_terms, credential_context_terms,
  security_state_change_terms, security_pair_connectors, access_event_context_terms,
  access_event_signal_terms,
}
use inboxlume.Guardrails.RecordTerms.{
  banking_context_terms, banking_record_terms, general_record_terms, invoice_record_terms,
  transaction_context_terms, transaction_completion_terms, transaction_success_terms,
  service_confirmation_pairs,
}
use inboxlume.Guardrails.Laws.{nearby_lem, credential_change_found}
use inboxlume.Policy.{
  weigh_preference, weigh_learning, decide_content, decide_learned, decide_unread, decide_read,
  decide_aged, has_protected_flag, is_protected_sender, has_protected_keyword, protective_reason,
  review_reason, decide,
}
use inboxlume.Policy.Addresses.{
  strip, lstrip, rstrip, count_at, after_last_at, has_space_or_control, sender_address,
  sender_domain, is_valid_address, valid_addresses, recipient_headers, recipient_values,
  is_sent_to_self,
}
use inboxlume.Policy.Cleanup.{
  quarantines, Unguarded, UnreadGrounds, ReadGrounds, decide-quarantines,
}
use inboxlume.Policy.Protection.{keeps, Answers, decide-keeps, decide-Answers}
use inboxlume.Config.{default_protected_categories}
use inboxlume.Tests.Data.{
  ascii, now, policy, message, offer, discard, lower, counterpart, is_alphanumeric,
}

offer_quarantined :
    decide ascii offer discard policy now none
    ≡ ok (
        decision PolicyAction.quarantine
          ("content_specific_discard_candidate" ∷ "advertising" ∷ []))
unfolding decide protective_reason review_reason has_protected_flag is_protected_sender
    has_protected_keyword decide_aged decide_read decide_unread decide_learned decide_content
    weigh_learning weigh_preference age_days category_is EmailCategory-discrete category_in
    category_value normalized_flags intersects contains any all filter any_occurs occurs
    sender_address sender_domain is_sent_to_self valid_addresses is_valid_address recipient_values
    recipient_headers strip lstrip rstrip count_at after_last_at has_space_or_control is_blank
    tokenize split_words is_prefix_of spans_from phrase_spans nearby any_pair follows_within
    completion_pair_in has_transaction_completion_pair between connected credential_change_in
    has_credential_state_change has_routine_access_event message_text access_alert_kind
    has_banking_record has_permanent_transaction_record high_risk_access_terms routine_access_terms
    credential_context_terms security_state_change_terms security_pair_connectors
    access_event_context_terms access_event_signal_terms banking_context_terms banking_record_terms
    general_record_terms invoice_record_terms transaction_context_terms transaction_completion_terms
    transaction_success_terms service_confirmation_pairs default_protected_categories lower
    counterpart is_alphanumeric
offer_quarantined = refl

decide-quarantines_example : (quarantines (decide ascii offer discard policy now none) ≡ true) ↔ (
    Unguarded ascii offer discard policy
    × ((offer.unread ≡ true) × UnreadGrounds policy discard offer now none
        ⊎ (offer.unread ≡ false)
          × ReadGrounds policy discard offer now none (is_routine (access_alert_kind ascii offer))))
decide-quarantines_example = decide-quarantines ascii offer discard policy now none

-- A message of a contact.
abbrev contact_mail : EmailRecord
contact_mail = record (message true "friend@home.example" "Sale" "buy now") { known_contact = true }

decide-keeps_example : keeps (decide ascii contact_mail discard policy now none) ≡ true
decide-keeps_example =
    decide-keeps ascii contact_mail policy discard now none refl (inl (inr (inl refl)))

decide-Answers_example :
    Answers ascii offer policy true (decide ascii offer discard policy now none)
decide-Answers_example = decide-Answers ascii offer policy discard now none refl

nearby_lem_example :
    ((nearby (0, 2) (5, 6) 3 ≡ true) ↔ ((5 ≤ 2 + 3) × (0 ≤ 6 + 3)))
    × (nearby (0, 2) (5, 6) 3 ≡ nearby (5, 6) (0, 2) 3)
nearby_lem_example = nearby_lem 0 2 5 6 3 (omega arith) (omega arith)

credential_change_found_example :
    (credential_change_in ascii (
        ("dear" ∷ [])
        ++ (tokenize ascii "password" ++ (("was" ∷ []) ++ (tokenize ascii "changed" ++ []))))
      ≡ true)
    × (credential_change_in ascii (
          ("dear" ∷ [])
          ++ (tokenize ascii "changed" ++ (("was" ∷ []) ++ (tokenize ascii "password" ++ []))))
        ≡ true)
unfolding contains credential_context_terms security_state_change_terms connected all
    security_pair_connectors
credential_change_found_example =
    credential_change_found ascii "password" "changed" ("dear" ∷ []) ("was" ∷ []) [] refl refl refl
