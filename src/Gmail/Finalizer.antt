-- ===== src/Gmail/Finalizer.antt =====
-- src/inboxlume/providers/gmail_finalizer.py: `GmailQuarantineFinalizer`, which moves a message that
-- was in quarantine for three days.
use inboxlume.Base.{
  ℕ, ◌+◌, ◌*◌, Bool, ◌||◌, not, String, ◌<>◌, List, [], ◌∷◌, ltb, str_eq, any, intersects,
  if◌then◌else◌, Option, none, some, ok, raise, value_error, type_error, Result, finalization_error,
}
use inboxlume.Models.{Datetime, EmailCategory, category_is, category_in, day}
use inboxlume.Gmail.Json.{
  Json, JsonItems, no_items, item, JsonFields, no_fields, field, get_field, is_text, texts,
}
use inboxlume.Gmail.Session.{Action, pure, fail, lift, check, remembered, remember, ◌>>=◌, ◌>>◌}
use inboxlume.Gmail.Transport.{
  Network, post_json, is_identity, gmail_origin, finalization_rules, quarantine_label_name,
  legacy_quarantine_label_name,
}
use inboxlume.Gmail.Labels.{message_path, message_labels, listed_labels, lists, and_then}
use inboxlume.Gmail.Executors.{FinalizationOutcome, cancelled}

abbrev pub quarantine_delay_days : ℕ
quarantine_delay_days = 3

pub record MatureQuarantineCandidate : Type 0 where
  pub message_id : String
  pub category : EmailCategory
  pub quarantined_at : Datetime
  pub expected_unread : Bool

-- `MatureQuarantineCandidate.__post_init__`
unfoldable pub check_mature : MatureQuarantineCandidate → Result MatureQuarantineCandidate
check_mature c =
    if not (is_identity c.message_id)
    then raise (value_error "ID candidato finalizzazione non valido")
    else if not c.quarantined_at.aware
    then raise (value_error "quarantined_at deve includere il fuso orario")
    else ok c

unfoldable pub trash_categories : List EmailCategory
trash_categories =
    EmailCategory.advertising ∷ EmailCategory.one_time_code ∷ EmailCategory.security
    ∷ EmailCategory.social ∷ []

pub data Destination : Type 0 where
  spam trash : Destination

-- The destination of a category, or nothing where the category is refused.
unfoldable pub destination_of : EmailCategory → Option Destination
destination_of category =
    if category_is category EmailCategory.spam
    then some Destination.spam
    else if category_in category trash_categories
    then some Destination.trash
    else none

abbrev pub waited : MatureQuarantineCandidate → Datetime → Bool
waited c now = not (ltb now.micros (c.quarantined_at.micros + quarantine_delay_days * day))

-- `raw.get("name")`, where it is one of the two accepted names; a list or an object has no hash.
unfoldable pub accepted_name : Option Json → Result (Option String)
accepted_name (some (Json.text s)) = ok (
    if str_eq s quarantine_label_name || str_eq s legacy_quarantine_label_name
    then some s
    else none)
accepted_name (some (Json.array _)) = raise type_error
accepted_name (some (Json.object _)) = raise type_error
accepted_name _ = ok none

-- `label_id` is a text that `_LABEL_ID` matches.
unfoldable pub label_identity : Option Json → Option String
label_identity (some (Json.text s)) = if is_identity s then some s else none
label_identity _ = none

-- The dictionary `matches`: names and identities.
abbrev pub Matches : Type 0
Matches = List (String × String)

abbrev pub valid_entry : JsonFields → Option String
valid_entry raw =
    if is_text "user" (get_field "type" raw) then label_identity (get_field "id" raw) else none

-- `name in matches`
unfoldable pub has_name : String → Matches → Bool
has_name name matches = any (λ row. str_eq name row.0) matches

-- An entry with an accepted name.
unfoldable pub match_named : JsonFields → Matches → Option String → Result Matches
match_named raw matches none = ok matches
match_named raw matches (some name) = elim (valid_entry raw) [
  | none ↦ raise (finalization_error "etichetta quarantena Gmail non valida")
  | some label ↦
      if has_name name matches
      then raise (finalization_error "etichetta quarantena Gmail ambigua")
      else ok ((name, label) ∷ matches)
]

unfoldable pub match_entry : Json → Matches → Result Matches
match_entry (Json.object raw) matches =
    and_then (accepted_name (get_field "name" raw)) (λ accepted. match_named raw matches accepted)
match_entry _ matches = ok matches

-- The loop over the list of labels.
unfoldable pub match_labels : JsonItems → Matches → Result Matches
match_labels no_items matches = ok matches
match_labels (item raw rest) matches =
    and_then (match_entry raw matches) (λ found. match_labels rest found)

-- `matches.values()`
unfoldable pub label_values : Matches → List String
label_values [] = []
label_values ((_, label) ∷ matches) = label ∷ label_values matches

unfoldable pub keep_labels : Matches → Action (List String) (List String)
keep_labels [] = fail (finalization_error "etichetta quarantena Gmail assente o ambigua")
keep_labels (row ∷ matches) = do
  remember (label_values (row ∷ matches))
  pure (label_values (row ∷ matches))

-- The end of `finalize`: the move and the check of its answer.
unfoldable pub confirm_move :
    String → String → FinalizationOutcome → JsonFields → Action (List String) FinalizationOutcome
confirm_move id expected_label outcome changed = do
  check (is_text id (get_field "id" changed))
      (finalization_error "risposta finale Gmail non corrispondente")
  check (lists expected_label (get_field "labelIds" changed))
      (finalization_error "Gmail non ha confermato la destinazione")
  pure outcome

unfoldable pub spam_payload : JsonFields
spam_payload =
    field "addLabelIds" (texts ("SPAM" ∷ []))
      (field "removeLabelIds" (texts ("INBOX" ∷ [])) no_fields)

module _ (net : Network) where
  unfoldable pub find_labels : Action (List String) (List String)
  find_labels = do
    listed ← listed_labels net finalization_rules
    matches ← lift (match_labels listed [])
    keep_labels matches

  -- `_required_quarantine_label_ids`
  unfoldable pub required_labels : Action (List String) (List String)
  required_labels = do
    known ← remembered
    elim known [ some labels ↦ pure labels | none ↦ find_labels ]

  unfoldable pub move_to : String → Destination → Action (List String) FinalizationOutcome
  move_to id Destination.trash = do
    changed ←
        post_json net finalization_rules (gmail_origin <> message_path net id "/trash") no_fields
    confirm_move id "TRASH" FinalizationOutcome.moved_to_trash changed
  move_to id Destination.spam = do
    changed ←
        post_json net finalization_rules (gmail_origin <> message_path net id "/modify")
          spam_payload
    confirm_move id "SPAM" FinalizationOutcome.moved_to_spam changed

  -- From the test of the labels of quarantine on.
  unfoldable pub move_labelled :
      String → List String → Destination → Action (List String) FinalizationOutcome
  move_labelled id labels destination = do
    required ← required_labels
    if not (intersects labels required)
        then pure FinalizationOutcome.cancelled_label_removed
        else move_to id destination

  -- `finalize`
  unfoldable pub finalize :
      MatureQuarantineCandidate → Datetime → Action (List String) FinalizationOutcome
  finalize c now = do
    check now.aware (value_error "now deve includere il fuso orario")
    check (waited c now) (value_error "la quarantena non ha ancora raggiunto tre giorni")
    elim (destination_of c.category) [
      | none ↦ fail (value_error "categoria non autorizzata alla finalizzazione")
      | some destination ↦ (do
        labels ← message_labels net finalization_rules c.message_id
        elim (cancelled c.expected_unread labels) [
          | some outcome ↦ pure outcome
          | none ↦ move_labelled c.message_id labels destination
        ])
    ]
