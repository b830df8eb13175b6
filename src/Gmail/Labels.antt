-- ===== src/Gmail/Labels.antt =====
-- What the executors of gmail_quarantine.py and gmail_finalizer.py share: reading the labels of a
-- message, and finding or creating the label of InboxLume.
use inboxlume.Base.{
  Bool, false, ◌||◌, String, ◌<>◌, List, [], ◌∷◌, str_eq, if◌then◌else◌, Option, none, some, ok,
  raise, Result, Error, quarantine_error,
}
use inboxlume.Gmail.Json.{
  Json, JsonItems, no_items, item, JsonFields, no_fields, field, get_field, item_texts, is_text,
  texts,
}
use inboxlume.Gmail.Session.{Action, pure, fail, lift, check, remembered, remember, ◌>>=◌, ◌>>◌}
use inboxlume.Gmail.Transport.{
  Network, Rules, get_json, post_json, messages_path, labels_path, gmail_origin, is_user_label,
  quarantine_label_name, threat_label_name, quarantine_rules,
}

-- `raw.get("labelIds", [])`, if it is a list of texts
unfoldable pub label_texts : Option Json → Option (List String)
label_texts none = some []
label_texts (some (Json.array items)) = item_texts items
label_texts (some _) = none

unfoldable pub has_item : String → JsonItems → Bool
has_item s no_items = false
has_item s (item (Json.text t) rest) = str_eq s t || has_item s rest
has_item s (item _ rest) = has_item s rest

-- `isinstance(labels, list) and label in labels`, with `[]` for a missing field
abbrev pub lists : String → Option Json → Bool
lists label (some (Json.array items)) = has_item label items
lists label _ = false

abbrev pub minimal_query : List (String × String)
minimal_query = ("format", "minimal") ∷ ("fields", "id,labelIds") ∷ []

-- `f"{GMAIL_API_ORIGIN}{path}?{encoded}"`, without the mark where nothing is encoded
unfoldable pub url_of : Network → String → List (String × String) → String
url_of net path query =
    let encoded : String = net.urlencode query in
    if str_eq encoded "" then gmail_origin <> path else gmail_origin <> (path <> ("?" <> encoded))

abbrev pub message_path : Network → String → String → String
message_path net id suffix = messages_path <> (net.quote id <> suffix)

unfoldable pub message_url : Network → String → String
message_url net id = url_of net (message_path net id "") minimal_query

unfoldable pub labels_url : Network → String
labels_url net = url_of net labels_path []

module _ {C : Type 0} (net : Network) (rules : Rules) where
  -- The labels of a message, as each executor reads them first.
  unfoldable pub message_labels : String → Action C (List String)
  message_labels id = do
    resource ← get_json net rules (message_url net id)
    check (is_text id (get_field "id" resource))
        (rules.error "ID risposta Gmail non corrispondente")
    elim (label_texts (get_field "labelIds" resource)) [
      | none ↦ fail (rules.error "etichette messaggio Gmail non valide")
      | some found ↦ pure found
    ]

  -- `response.get("labels", [])`, if it is a list
  unfoldable pub listed_labels : Action C JsonItems
  listed_labels = do
    response ← get_json net rules (labels_url net)
    elim (get_field "labels" response) [
      | none ↦ pure no_items
      | some (Json.array found) ↦ pure found
      | some _ ↦ fail (rules.error "elenco etichette Gmail non valido")
    ]

-- The name of a label, and the words of the errors about it.
pub record LabelKind : Type 0 where
  pub label_name : String
  pub not_user_text : String
  pub several_text : String
  pub unexpected_text : String

unfoldable pub quarantine_kind : LabelKind
quarantine_kind = record {
  label_name = quarantine_label_name;
  not_user_text = "l'etichetta quarantena non è un'etichetta utente";
  several_text = "più etichette quarantena con lo stesso nome";
  unexpected_text = "Gmail ha creato un'etichetta inattesa";
}

unfoldable pub threat_kind : LabelKind
threat_kind = record {
  label_name = threat_label_name;
  not_user_text = "l'etichetta phishing non è un'etichetta utente";
  several_text = "più etichette phishing con lo stesso nome";
  unexpected_text = "Gmail ha creato un'etichetta phishing inattesa";
}

abbrev pub invalid_label : Error
invalid_label = quarantine_error "ID etichetta quarantena non valido"

-- `_validated_label_id`
unfoldable pub validated_label_id : Option Json → Result String
validated_label_id (some (Json.text s)) = if is_user_label s then ok s else raise invalid_label
validated_label_id _ = raise invalid_label

abbrev pub and_then : {A B : Type 0} → Result A → (A → Result B) → Result B
and_then (ok a) f = f a
and_then (raise e) f = raise e

unfoldable pub creation_payload : String → JsonFields
creation_payload name = field "name" (Json.text name) (
    field "messageListVisibility" (Json.text "show")
      (field "labelListVisibility" (Json.text "labelShow") no_fields))

unfoldable pub addition_payload : String → JsonFields
addition_payload label =
    field "addLabelIds" (texts (label ∷ [])) (field "removeLabelIds" (texts []) no_fields)

module _ (kind : LabelKind) where
  unfoldable pub user_label : JsonFields → Result (Option String)
  user_label raw =
      if is_text "user" (get_field "type" raw)
      then and_then (validated_label_id (get_field "id" raw)) (λ label. ok (some label))
      else raise (quarantine_error kind.not_user_text)

  -- The label of one entry of the list, if it has the name.
  unfoldable pub label_entry : Json → Result (Option String)
  label_entry (Json.object raw) =
      if is_text kind.label_name (get_field "name" raw) then user_label raw else ok none
  label_entry _ = ok none

  abbrev pub with_entry : Option String → List String → List String
  with_entry none rest = rest
  with_entry (some label) rest = label ∷ rest

  -- The loop over the list of labels.
  unfoldable pub matching_labels : JsonItems → Result (List String)
  matching_labels no_items = ok []
  matching_labels (item raw rest) =
      and_then (label_entry raw)
        (λ entry. and_then (matching_labels rest) (λ found. ok (with_entry entry found)))

  module _ (net : Network) where
    unfoldable pub create_label : Action String String
    create_label = do
      created ←
          post_json net quarantine_rules (gmail_origin <> labels_path)
            (creation_payload kind.label_name)
      check (is_text kind.label_name (get_field "name" created))
          (quarantine_error kind.unexpected_text)
      label ← lift (validated_label_id (get_field "id" created))
      remember label
      pure label

    -- The label among those that were found, or a new one.
    unfoldable pub choose_label : List String → Action String String
    choose_label [] = create_label
    choose_label (label ∷ []) = do remember label; pure label
    choose_label (_ ∷ _ ∷ _) = fail (quarantine_error kind.several_text)

    unfoldable pub find_label : Action String String
    find_label = do
      listed ← listed_labels net quarantine_rules
      found ← lift (matching_labels listed)
      choose_label found

    -- `_ensure_label`
    unfoldable pub ensure_label : Action String String
    ensure_label = do known ← remembered; elim known [ some label ↦ pure label | none ↦ find_label ]
