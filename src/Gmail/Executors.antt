-- ===== src/Gmail/Executors.antt =====
-- src/inboxlume/providers/gmail_quarantine.py: the two executors that add a label. And of
-- gmail_finalizer.py the one that moves a message to the trash.
use inboxlume.Base.{
  Bool, true, false, ◌&&◌, not, String, ◌<>◌, List, [], ◌∷◌, contains, intersects, if◌then◌else◌,
  Option, none, some, ok, raise, value_error, Result, quarantine_error, finalization_error,
}
use inboxlume.Gmail.Json.{JsonFields, no_fields, get_field, is_text, same_texts}
use inboxlume.Gmail.Session.{Action, pure, check, ◌>>=◌, ◌>>◌}
use inboxlume.Gmail.Transport.{
  Network, post_json, is_identity, gmail_origin, quarantine_rules, trash_rules,
}
use inboxlume.Gmail.Labels.{
  message_path, message_labels, lists, LabelKind, quarantine_kind, threat_kind, ensure_label,
  addition_payload,
}

pub data QuarantineOutcome : Type 0 where
  applied already_applied skipped_not_inbox skipped_protected : QuarantineOutcome

pub data ThreatMarkerOutcome : Type 0 where
  applied already_applied skipped_not_inbox : ThreatMarkerOutcome

pub data FinalizationOutcome : Type 0 where
  moved_to_trash moved_to_spam cancelled_label_removed : FinalizationOutcome
  cancelled_not_inbox cancelled_protected already_finalized : FinalizationOutcome

-- `QuarantineResult.changes_mailbox`, `ThreatMarkerResult.changes_mailbox` and
-- `FinalizationResult.changes_mailbox`
abbrev pub quarantine_changes_mailbox : QuarantineOutcome → Bool
quarantine_changes_mailbox QuarantineOutcome.applied = true
quarantine_changes_mailbox _ = false

abbrev pub marker_changes_mailbox : ThreatMarkerOutcome → Bool
marker_changes_mailbox ThreatMarkerOutcome.applied = true
marker_changes_mailbox _ = false

abbrev pub finalization_changes_mailbox : FinalizationOutcome → Bool
finalization_changes_mailbox FinalizationOutcome.moved_to_spam = true
finalization_changes_mailbox FinalizationOutcome.moved_to_trash = true
finalization_changes_mailbox _ = false

-- `token_provider.scopes != frozenset({GMAIL_MODIFY_SCOPE})` refuses the provider; the scopes without
-- repetition.
unfoldable pub require_modify_scope : List String → String → Result (Unit {0})
require_modify_scope scopes message =
    if same_texts scopes ("https://www.googleapis.com/auth/gmail.modify" ∷ [])
    then ok tt
    else raise (value_error message)

-- `(a is b)` on booleans
abbrev pub same_state : Bool → Bool → Bool
same_state true b = b
same_state false b = not b

-- `"INBOX" in labels` and none that stands for another place
unfoldable pub in_inbox : List String → List String → Bool
in_inbox forbidden labels = contains "INBOX" labels && not (intersects labels forbidden)

unfoldable pub has_star : List String → Bool
has_star labels = intersects labels ("STARRED" ∷ "IMPORTANT" ∷ [])

abbrev pub forbidden_input_labels : List String
forbidden_input_labels = "SENT" ∷ "DRAFT" ∷ "SPAM" ∷ "TRASH" ∷ []

abbrev pub forbidden_source_labels : List String
forbidden_source_labels = "SENT" ∷ "DRAFT" ∷ []

-- The tests of the labels, before a message is moved: the outcome that ends the method, if one does.
unfoldable pub cancelled : Bool → List String → Option FinalizationOutcome
cancelled expected_unread labels =
    if intersects labels ("TRASH" ∷ "SPAM" ∷ [])
    then some FinalizationOutcome.already_finalized
    else if not (in_inbox forbidden_source_labels labels)
    then some FinalizationOutcome.cancelled_not_inbox
    else if not (same_state (contains "UNREAD" labels) expected_unread)
    then some FinalizationOutcome.cancelled_protected
    else if has_star labels
    then some FinalizationOutcome.cancelled_protected
    else none

module _ (net : Network) where
  -- From `_ensure_label()` on: the label is added, unless the message has it.
  unfoldable pub add_label :
      {A : Type 0}
      → LabelKind
      → (String → JsonFields → Bool)
      → String
      → A
      → A
      → String
      → List String
      → Action String A
  add_label kind confirmed refusal done unchanged id labels = do
    label ← ensure_label kind net
    if contains label labels then pure unchanged else (do
      changed ←
          post_json net quarantine_rules (gmail_origin <> message_path net id "/modify")
            (addition_payload label)
      check (is_text id (get_field "id" changed))
          (quarantine_error "risposta modifica Gmail non corrispondente")
      check (confirmed label changed) (quarantine_error refusal)
      pure done)

  abbrev pub has_label : String → JsonFields → Bool
  has_label label changed = lists label (get_field "labelIds" changed)

  -- `GmailLabelQuarantineExecutor.apply_label_quarantine`
  unfoldable pub apply_label_quarantine : String → Bool → Action String QuarantineOutcome
  apply_label_quarantine id expected_unread = do
    check (is_identity id) (quarantine_error "ID messaggio Gmail non valido")
    labels ← message_labels net quarantine_rules id
    if not (in_inbox forbidden_input_labels labels)
        then pure QuarantineOutcome.skipped_not_inbox
        else if not (same_state (contains "UNREAD" labels) expected_unread)
        then pure QuarantineOutcome.skipped_protected
        else if has_star labels
        then pure QuarantineOutcome.skipped_protected
        else add_label quarantine_kind has_label "Gmail non ha confermato l'etichetta quarantena"
            QuarantineOutcome.applied QuarantineOutcome.already_applied id labels

  -- `GmailThreatMarkerExecutor.apply`
  unfoldable pub apply_threat_marker : String → Action String ThreatMarkerOutcome
  apply_threat_marker id = do
    check (is_identity id) (quarantine_error "ID messaggio Gmail non valido")
    labels ← message_labels net quarantine_rules id
    if not (in_inbox forbidden_input_labels labels)
        then pure ThreatMarkerOutcome.skipped_not_inbox
        else add_label threat_kind
            (λ label changed. has_label label changed && has_label "INBOX" changed)
            "Gmail non ha confermato l'etichetta phishing" ThreatMarkerOutcome.applied
            ThreatMarkerOutcome.already_applied id labels

  -- `GmailDirectTrashExecutor.apply`; it remembers nothing.
  unfoldable pub move_to_trash : String → Action (Unit {0}) FinalizationOutcome
  move_to_trash id = do
    changed ← post_json net trash_rules (gmail_origin <> message_path net id "/trash") no_fields
    check (is_text id (get_field "id" changed))
        (finalization_error "risposta Gmail Cestino non corrispondente")
    check (has_label "TRASH" changed) (finalization_error "Gmail non ha confermato il Cestino")
    pure FinalizationOutcome.moved_to_trash

  unfoldable pub apply_direct_trash : String → Bool → Action (Unit {0}) FinalizationOutcome
  apply_direct_trash id expected_unread = do
    check (is_identity id) (finalization_error "ID messaggio Gmail non valido")
    labels ← message_labels net trash_rules id
    elim (cancelled expected_unread labels) [
      | some outcome ↦ pure outcome
      | none ↦ move_to_trash id
    ]
