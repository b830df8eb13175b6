-- ===== src/Tests/Selection.antt =====
-- The theorems on the selection of candidates, with a store and a mailbox of one message.
use inboxlume.Base.{
  ◌≡◌, refl, true, false, List, [], ◌∷◌, none, some, ok, All, str_eq, if◌then◌else◌, any,
  intersects,
}
use inboxlume.Models.{is_blank}
use inboxlume.Obsolescence.Proof.{has_hard_policy_reason}
use inboxlume.Pipeline.{
  PreferenceStore, ReadOnlyMailbox, InboxMutationCandidate, SelectionOptions, check_candidate,
  is_verified_proposal, reviewed_cleanup, is_pending_record, is_pending, record_matches, matched_at,
  all_matched, search_candidates, prepare_verified_quarantine_candidates,
  prepare_automatic_quarantine_candidates,
}
use inboxlume.Pipeline.Laws.{
  Pending, Confirmed, prepare_automatic_quarantine_candidates-Pending,
  prepare_verified_quarantine_candidates-Confirmed,
}
use inboxlume.Tests.Data.{ascii, now, policy}

-- The unread message `m1` is proposed for quarantine, and its owner answered not to keep it.
abbrev pub store : PreferenceStore
store = record {
  shadow_recovery_expected_unread = λ account provider id profile fingerprint. some true;
  has_threat_assessment_id = λ account provider id profile disabled. true;
  threat_protects_message_id = λ account provider id profile. false;
  has_quarantine_pilot_execution_id = λ account provider id profile. false;
  shadow_record_for_message_id = λ account provider id profile.
      if str_eq id "m1" then some ("advertising", "quarantine") else none;
  shadow_is_hard_protected = λ account provider id profile. false;
  quiz_answer_for_message_id = λ account provider id. some "dont_keep";
  obsolescence_proof_for_message_id = λ account provider id profile. none;
  shadow_reason_codes_for_message_id = λ account provider id profile. [];
}

-- The mailbox shows a second message too, and returns the first.
abbrev pub mailbox : ReadOnlyMailbox
mailbox = record {
  exactly_read_only = true;
  shown = λ dates limit search_limit test. ("m1", true) ∷ ("m2", true) ∷ [];
  returned = λ dates limit search_limit test. "m1" ∷ [];
}

abbrev options : SelectionOptions
options = record {
  allowed_categories = none;
  include_verified_obsolescence = true;
  allow_disabled_threat_assessment = false;
}

abbrev selected : List InboxMutationCandidate
selected = record { message_id = "m1"; expected_unread = true } ∷ []

automatic_selected :
    prepare_automatic_quarantine_candidates ascii policy mailbox store now 1 10 "full" "hash"
      options
    ≡ ok selected
unfolding prepare_automatic_quarantine_candidates search_candidates record_matches check_candidate
    is_pending is_pending_record reviewed_cleanup matched_at all_matched is_blank
    has_hard_policy_reason intersects any
automatic_selected = refl

prepare_automatic_quarantine_candidates-Pending_example :
    All (Pending store policy "full" "hash" options) selected
prepare_automatic_quarantine_candidates-Pending_example =
    prepare_automatic_quarantine_candidates-Pending ascii policy mailbox store now 1 10 "full"
      "hash" options selected automatic_selected

verified_selected :
    prepare_verified_quarantine_candidates ascii policy mailbox store now 1 10 "full" "hash"
    ≡ ok selected
unfolding prepare_verified_quarantine_candidates search_candidates record_matches check_candidate
    is_verified_proposal matched_at all_matched is_blank
verified_selected = refl

prepare_verified_quarantine_candidates-Confirmed_example :
    All (Confirmed store policy "full" "hash") selected
prepare_verified_quarantine_candidates-Confirmed_example =
    prepare_verified_quarantine_candidates-Confirmed ascii policy mailbox store now 1 10 "full"
      "hash" selected verified_selected
