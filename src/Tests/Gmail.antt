-- ===== src/Tests/Gmail.antt =====
-- The theorems on the Gmail executors, with a mailbox of one message and one label of quarantine.
use inboxlume.Base.{
  ◌≡◌, refl, ◌==◌, true, false, String, ◌<>◌, List, [], ◌∷◌, str_eq, if◌then◌else◌, Option, none,
  some, ok, raise, value_error, OnSome, OnOk, contains, intersects, any, ◌&&◌, is_some,
}
use Prim.Native.Char.{code}
use inboxlume.Models.{EmailCategory, EmailCategory-discrete, category_is, category_in, is_blank}
use inboxlume.Gmail.Json.{
  JsonFields, Json, no_items, item, no_fields, field, get_field, field_names, item_texts, items_of,
  texts, same_texts,
}
use inboxlume.Gmail.Session.{Request, get_request, post_request, Session}
use inboxlume.Gmail.Triples.{Sent}
use inboxlume.Gmail.Transport.{
  quarantine_rules, creates_label, ParsedUrl, Network, Wire, body, gmail_origin, labels_path,
  after_prefix, is_id_char, all_id_chars, is_identity, identity_then, is_message_path, query_value,
  is_minimal_query, quarantine_label_name, legacy_quarantine_label_name, system_label_ids,
  is_user_label, adds_user_label, is_gmail, allows_get, decoded, request_json, get_json, post_json,
}
use inboxlume.Gmail.Labels.{
  label_texts, has_item, url_of, message_url, labels_url, message_labels, listed_labels,
  quarantine_kind, threat_kind, validated_label_id, addition_payload, user_label, label_entry,
  matching_labels, choose_label, find_label, ensure_label,
}
use inboxlume.Gmail.Executors.{
  QuarantineOutcome, ThreatMarkerOutcome, FinalizationOutcome, in_inbox, has_star,
  forbidden_input_labels, add_label, apply_label_quarantine, apply_threat_marker, cancelled,
  apply_direct_trash,
}
use inboxlume.Gmail.Finalizer.{
  MatureQuarantineCandidate, Destination, trash_categories, destination_of, waited, accepted_name,
  label_identity, has_name, match_named, match_entry, match_labels, label_values, keep_labels,
  find_labels, required_labels, confirm_move, move_to, move_labelled, finalize,
}
use inboxlume.Gmail.Requests.{LabelRequest, Reported, IsUserLabel}
use inboxlume.Gmail.Additions.{
  may_quarantine, quarantine_skips, marker_skips, apply_label_quarantine-Reported,
  apply_threat_marker-Reported,
}
use inboxlume.Gmail.Permitted.{permitted, transport-permitted}
use inboxlume.Gmail.Moves.{TrashRequest, TrashReported, apply_direct_trash-Reported}
use inboxlume.Gmail.Finals.{FromListing, FinalRequest, Finalized}
use inboxlume.Gmail.Finalization.{finalize-Finalized, finalize-refusal}
use inboxlume.Tests.Data.{ascii, day_at}

-- A text up to its question mark, and what stands after it.
unfoldable pub up_to_mark : String → String
up_to_mark String.[] = ""
up_to_mark (String.◌∷◌ c s) =
    let rest = up_to_mark s in if code c == b'?' then "" else String.◌∷◌ c rest

unfoldable pub after_mark : String → String
after_mark String.[] = ""
after_mark (String.◌∷◌ c s) = let rest = after_mark s in if code c == b'?' then s else rest

abbrev minimal_text : String
minimal_text = "format=minimal&fields=id%2ClabelIds"

abbrev parsed_after : Option String → ParsedUrl
parsed_after none = record {
  scheme = "";
  hostname = none;
  port = none;
  has_username = false;
  has_password = false;
  fragment = "";
  path = "";
  query = "";
}
parsed_after (some rest) = record {
  scheme = "https";
  hostname = some "gmail.googleapis.com";
  port = none;
  has_username = false;
  has_password = false;
  fragment = "";
  path = up_to_mark rest;
  query = after_mark rest;
}

abbrev labelled : List String → Json
labelled labels =
    Json.object (field "id" (Json.text "m1") (field "labelIds" (texts labels) no_fields))

abbrev label_list : Json
label_list = Json.object (
    field "labels"
      (Json.array (
        item
          (Json.object (
            field "id" (Json.text "Label_1") (
              field "name" (Json.text "InboxLume/Quarantena")
                (field "type" (Json.text "user") no_fields))))
          no_items))
      no_fields)

abbrev created_label : Json
created_label = Json.object (
    field "id" (Json.text "Label_2")
      (field "name" (Json.text "InboxLume/Sospetto phishing") no_fields))

abbrev answered : List String → List Request → Wire
answered labels [] = Wire.unreachable
answered labels (get_request url ∷ _) =
    body 100
      (some (if str_eq url (gmail_origin <> labels_path) then label_list else labelled labels))
answered labels (post_request url payload ∷ _) = body 100 (
    some (
      if str_eq url (gmail_origin <> labels_path)
      then created_label
      else labelled ("INBOX" ∷ "Label_1" ∷ "Label_2" ∷ "TRASH" ∷ [])))

-- The message has these labels.
abbrev network : List String → Network
network labels = record {
  urlparse = λ url. parsed_after (after_prefix gmail_origin url);
  parse_qs = λ query.
      if str_eq query minimal_text
      then ("format", "minimal" ∷ []) ∷ ("fields", "id,labelIds" ∷ []) ∷ []
      else [];
  urlencode = λ rows. elim rows [ [] ↦ "" | _ ∷ _ ↦ minimal_text ];
  quote = λ text. text;
  is_space = ascii.is_space;
  access_token = λ sent. ok "token";
  wire = answered labels;
}

abbrev fresh : Network
fresh = network ("INBOX" ∷ "UNREAD" ∷ [])

abbrev quarantined : Network
quarantined = network ("INBOX" ∷ "UNREAD" ∷ "Label_1" ∷ [])

abbrev new_session : {C : Type 0} → Session C
new_session = record { sent = []; cache = none }

-- The message is read, the label is found, and then it is added.
quarantine_applied :
    (apply_label_quarantine fresh "m1" true new_session).0 ≡ ok QuarantineOutcome.applied
unfolding apply_label_quarantine message_labels get_json post_json request_json decoded allows_get
    is_gmail is_minimal_query is_message_path identity_then after_prefix query_value up_to_mark
    after_mark message_url labels_url url_of label_texts item_texts in_inbox has_star add_label
    ensure_label find_label listed_labels matching_labels label_entry user_label validated_label_id
    is_user_label is_identity all_id_chars is_id_char choose_label addition_payload adds_user_label
    get_field field_names items_of same_texts has_item contains intersects any is_blank
    quarantine_kind quarantine_label_name system_label_ids
quarantine_applied = refl

apply_label_quarantine-Reported_example :
    OnSome IsUserLabel (apply_label_quarantine fresh "m1" true new_session).1.cache
    × Sent
        (LabelRequest fresh quarantine_kind (may_quarantine true) "m1")
        []
        (apply_label_quarantine fresh "m1" true new_session).1.sent
    × OnOk
        (λ outcome.
          Reported fresh quarantine_kind
            (may_quarantine true)
            "m1"
            QuarantineOutcome.applied
            QuarantineOutcome.already_applied
            quarantine_skips
            outcome
            (apply_label_quarantine fresh "m1" true new_session).1.sent)
        (apply_label_quarantine fresh "m1" true new_session).0
apply_label_quarantine-Reported_example =
    apply_label_quarantine-Reported fresh "m1" true new_session tt

apply_threat_marker-Reported_example :
    OnSome IsUserLabel (apply_threat_marker fresh "m1" new_session).1.cache
    × Sent
        (LabelRequest fresh threat_kind (in_inbox forbidden_input_labels) "m1")
        []
        (apply_threat_marker fresh "m1" new_session).1.sent
    × OnOk
        (λ outcome.
          Reported fresh threat_kind
            (in_inbox forbidden_input_labels)
            "m1"
            ThreatMarkerOutcome.applied
            ThreatMarkerOutcome.already_applied
            marker_skips
            outcome
            (apply_threat_marker fresh "m1" new_session).1.sent)
        (apply_threat_marker fresh "m1" new_session).0
apply_threat_marker-Reported_example = apply_threat_marker-Reported fresh "m1" new_session tt

apply_direct_trash-Reported_example :
    Sent (TrashRequest fresh true "m1") [] (apply_direct_trash fresh "m1" true new_session).1.sent
    × OnOk
        (λ outcome.
          TrashReported fresh true "m1" outcome
            (apply_direct_trash fresh "m1" true new_session).1.sent)
        (apply_direct_trash fresh "m1" true new_session).0
apply_direct_trash-Reported_example = apply_direct_trash-Reported fresh true "m1" new_session

abbrev candidate : EmailCategory → MatureQuarantineCandidate
candidate category = record {
  message_id = "m1";
  category = category;
  quarantined_at = day_at 1 20260102;
  expected_unread = true;
}

abbrev advertisement : MatureQuarantineCandidate
advertisement = candidate EmailCategory.advertising

finalized_trash :
    (finalize quarantined advertisement (day_at 4 20260105) new_session).0
    ≡ ok FinalizationOutcome.moved_to_trash
unfolding finalize message_labels get_json post_json request_json decoded allows_get is_gmail
    is_minimal_query is_message_path identity_then after_prefix query_value up_to_mark after_mark
    message_url labels_url url_of label_texts item_texts in_inbox has_star listed_labels is_identity
    all_id_chars is_id_char get_field field_names items_of same_texts has_item contains intersects
    any is_blank cancelled move_labelled required_labels find_labels match_labels match_named
    match_entry accepted_name label_identity has_name label_values keep_labels move_to confirm_move
    destination_of category_is category_in EmailCategory-discrete trash_categories
    quarantine_label_name legacy_quarantine_label_name
finalized_trash = refl

allowed : destination_of EmailCategory.advertising ≡ some Destination.trash
unfolding destination_of category_is category_in EmailCategory-discrete trash_categories any
allowed = refl

finalize-Finalized_example :
    OnSome
      (FromListing quarantined)
      (finalize quarantined advertisement (day_at 4 20260105) new_session).1.cache
    × Sent
        (FinalRequest quarantined advertisement Destination.trash)
        []
        (finalize quarantined advertisement (day_at 4 20260105) new_session).1.sent
    × OnOk
        (λ outcome.
          Finalized quarantined advertisement Destination.trash outcome
            (finalize quarantined advertisement (day_at 4 20260105) new_session).1.sent)
        (finalize quarantined advertisement (day_at 4 20260105) new_session).0
finalize-Finalized_example =
    finalize-Finalized quarantined advertisement (day_at 4 20260105) Destination.trash new_session
      refl refl allowed tt

too_young :
    (true
      && (waited advertisement (day_at 3 20260104)
          && is_some (destination_of EmailCategory.advertising)))
    ≡ false
too_young = refl

finalize-refusal_example :
    (message : String) × (finalize quarantined advertisement (day_at 3 20260104) new_session
      ≡ (raise (value_error message), new_session))
finalize-refusal_example =
    finalize-refusal quarantined advertisement (day_at 3 20260104) new_session too_young

-- A payload that removes a label: it is refused.
abbrev removal : JsonFields
removal = field "addLabelIds" (texts []) (field "removeLabelIds" (texts ("INBOX" ∷ [])) no_fields)

abbrev modify_url : String
modify_url = "https://gmail.googleapis.com/gmail/v1/users/me/messages/m1/modify"

removal_refused :
    (post_json fresh quarantine_rules modify_url removal (new_session {C = String})).1.sent ≡ []
unfolding post_json is_gmail up_to_mark after_mark after_prefix creates_label adds_user_label
    is_message_path identity_then is_id_char get_field field_names item_texts items_of contains
    same_texts
removal_refused = refl

transport-permitted_example :
    Sent
      (λ r h. permitted fresh quarantine_rules r ≡ true)
      []
      (get_json fresh quarantine_rules modify_url (new_session {C = String})).1.sent
    × Sent
        (λ r h. permitted fresh quarantine_rules r ≡ true)
        []
        (post_json fresh quarantine_rules modify_url removal (new_session {C = String})).1.sent
transport-permitted_example =
    transport-permitted fresh quarantine_rules new_session modify_url removal
