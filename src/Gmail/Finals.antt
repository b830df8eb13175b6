-- ===== src/Gmail/Finals.antt =====
-- What the finalizer of src/inboxlume/providers/gmail_finalizer.py may send, and what it may report.
use inboxlume.Base.{
  ◌≡◌, true, false, ◌||◌, String, ◌<>◌, str_eq, List, ◌∷◌, some, ok, intersects, All,
}
use inboxlume.Gmail.Json.{Json, JsonItems, item, JsonFields, get_field, is_text}
use inboxlume.Gmail.Session.{Request, get_request, post_request}
use inboxlume.Gmail.Transport.{
  Network, finalization_rules, gmail_origin, decoded, quarantine_label_name,
  legacy_quarantine_label_name,
}
use inboxlume.Gmail.Labels.{message_path, message_url, labels_url}
use inboxlume.Gmail.Executors.{FinalizationOutcome, finalization_changes_mailbox}
use inboxlume.Gmail.Finalizer.{MatureQuarantineCandidate, Destination, spam_payload}
use inboxlume.Gmail.Steps.{LabelsRead, listed_items}
use inboxlume.Gmail.Moves.{may_move, trash_request}

abbrev pub move_request : Network → String → Destination → Request
move_request net id Destination.trash = trash_request net id
move_request net id Destination.spam =
    post_request (gmail_origin <> message_path net id "/modify") spam_payload

abbrev pub outcome_of : Destination → FinalizationOutcome
outcome_of Destination.trash = FinalizationOutcome.moved_to_trash
outcome_of Destination.spam = FinalizationOutcome.moved_to_spam

-- The message was read with these labels, and since then the list of labels was read at most.
pub data Seen (net : Network) (id : String) (labels : List String) : List Request → Type 0 where
  just_read :
      {h : List Request}
      → LabelsRead net finalization_rules (λ _. Unit {0}) id labels h
      → Seen net id labels h
  listed :
      {h : List Request}
      → Seen net id labels h
      → Seen net id labels (get_request (labels_url net) ∷ h)

-- An entry of the list: a label of the user with one of the two names of quarantine, and this id.
pub record QuarantineEntry (label : String) (raw : JsonFields) : Type 0 where
  pub user : is_text "user" (get_field "type" raw) ≡ true
  pub name : String
  pub named : get_field "name" raw ≡ some (Json.text name)
  pub accepted :
      (str_eq name quarantine_label_name || str_eq name legacy_quarantine_label_name) ≡ true
  pub identity : get_field "id" raw ≡ some (Json.text label)

pub data ListsLabel (label : String) : JsonItems → Type 0 where
  here :
      {raw : JsonFields} {rest : JsonItems}
      → QuarantineEntry label raw
      → ListsLabel label (item (Json.object raw) rest)
  there : {raw : Json} {rest : JsonItems} → ListsLabel label rest → ListsLabel label (item raw rest)

-- The labels of quarantine: each is one of those that the answer of this network to a request of the
-- list of labels holds.
pub record FromListing (net : Network) (labels : List String) : Type 0 where
  pub before : List Request
  pub response : JsonFields
  pub reply :
      decoded net finalization_rules (net.wire (get_request (labels_url net) ∷ before))
      ≡ ok response
  pub listed : All (λ label. ListsLabel label (listed_items (get_field "labels" response))) labels

-- A move that may be sent: the message was seen as it must be, and has a label of quarantine.
pub record Movable (net : Network) (c : MatureQuarantineCandidate) (h : List Request) : Type 0 where
  pub labels : List String
  pub required : List String
  pub seen : Seen net c.message_id labels h
  pub fit : may_move c.expected_unread labels ≡ true
  pub from_listing : FromListing net required
  pub in_quarantine : intersects labels required ≡ true

pub data FinalRequest (net : Network) (c : MatureQuarantineCandidate) (destination : Destination)
    : Request → List Request → Type 0 where
  reads_message :
      {h : List Request}
      → FinalRequest net c destination (get_request (message_url net c.message_id)) h
  lists_labels :
      {h : List Request} (labels : List String)
      → Seen net c.message_id labels h
      → may_move c.expected_unread labels ≡ true
      → FinalRequest net c destination (get_request (labels_url net)) h
  moves :
      {h : List Request}
      → Movable net c h
      → FinalRequest net c destination (move_request net c.message_id destination) h

pub data Finalized (net : Network) (c : MatureQuarantineCandidate) (destination : Destination)
    : FinalizationOutcome → List Request → Type 0 where
  moved :
      {h : List Request}
      → Movable net c h
      → Finalized net c destination
          (outcome_of destination)
          (move_request net c.message_id destination ∷ h)
  left :
      {h : List Request} (labels : List String) (outcome : FinalizationOutcome)
      → Seen net c.message_id labels h
      → may_move c.expected_unread labels ≡ false
      → finalization_changes_mailbox outcome ≡ false
      → Finalized net c destination outcome h
  released :
      {h : List Request} (labels required : List String)
      → Seen net c.message_id labels h
      → FromListing net required
      → intersects labels required ≡ false
      → Finalized net c destination FinalizationOutcome.cancelled_label_removed h
