-- ===== src/Gmail/Requests.antt =====
-- What the two executors of src/inboxlume/providers/gmail_quarantine.py send, in the order they send it.
use inboxlume.Base.{
  OnSome, OnOk, OnOk-if, OnOk-bind, ◌≡◌, Bool, true, false, String, ◌<>◌, List, ◌∷◌, Option, none,
  some, ok, raise, All, contains, quarantine_error,
}
use inboxlume.Gmail.Json.{Json, JsonItems, no_items, item, JsonFields, get_field, is_text}
use inboxlume.Gmail.Session.{Request, get_request, post_request}
use inboxlume.Gmail.Transport.{Network, quarantine_rules, gmail_origin, is_user_label, labels_path}
use inboxlume.Gmail.Labels.{
  LabelKind, message_path, message_url, labels_url, creation_payload, addition_payload,
  validated_label_id, user_label, label_entry, matching_labels, and_then, with_entry,
}
use inboxlume.Gmail.Steps.{LabelsRead}

-- The message was read with these labels, and since then only a label was looked for or created.
pub data Known (net : Network) (kind : LabelKind) (id : String) (labels : List String)
    : List Request → Type 0 where
  just_read :
      {h : List Request}
      → LabelsRead net quarantine_rules (λ _. Unit {0}) id labels h
      → Known net kind id labels h
  looked :
      {h : List Request}
      → Known net kind id labels h
      → Known net kind id labels (get_request (labels_url net) ∷ h)
  made :
      {h : List Request}
      → Known net kind id labels h
      → Known net kind id labels
          (post_request (gmail_origin <> labels_path) (creation_payload kind.label_name) ∷ h)

-- A request of an executor, and what was known before it was sent. A request that changes the mailbox
-- comes after the message was read with labels that fit.
pub data LabelRequest (net : Network) (kind : LabelKind) (fits : List String → Bool) (id : String)
    : Request → List Request → Type 0 where
  reads_message :
      {h : List Request} → LabelRequest net kind fits id (get_request (message_url net id)) h
  lists_labels :
      {h : List Request} (labels : List String)
      → Known net kind id labels h
      → fits labels ≡ true
      → LabelRequest net kind fits id (get_request (labels_url net)) h
  creates :
      {h : List Request} (labels : List String)
      → Known net kind id labels h
      → fits labels ≡ true
      → LabelRequest net kind fits id
          (post_request (gmail_origin <> labels_path) (creation_payload kind.label_name))
          h
  adds :
      {h : List Request} (labels : List String) (label : String)
      → Known net kind id labels h
      → fits labels ≡ true
      → is_user_label label ≡ true
      → contains label labels ≡ false
      → LabelRequest net kind fits id
          (post_request (gmail_origin <> message_path net id "/modify") (addition_payload label))
          h

-- What an executor reports, and what was sent until then.
pub data Reported {A : Type 0} (net : Network) (kind : LabelKind) (fits : List String → Bool)
    (id : String) (done unchanged : A) (skips : A → Bool) : A → List Request → Type 0 where
  added :
      {h : List Request} (labels : List String) (label : String)
      → Known net kind id labels h
      → fits labels ≡ true
      → is_user_label label ≡ true
      → contains label labels ≡ false
      → Reported net kind fits id done unchanged skips done (
          post_request (gmail_origin <> message_path net id "/modify") (addition_payload label) ∷ h)
  had_it :
      {h : List Request} (labels : List String) (label : String)
      → Known net kind id labels h
      → contains label labels ≡ true
      → Reported net kind fits id done unchanged skips unchanged h
  skipped :
      {h : List Request} (labels : List String) (outcome : A)
      → Known net kind id labels h
      → fits labels ≡ false
      → skips outcome ≡ true
      → Reported net kind fits id done unchanged skips outcome h

abbrev pub IsUserLabel : String → Type 0
IsUserLabel label = is_user_label label ≡ true

pub validated_label_id-IsUserLabel :
    (found : Option Json) → OnOk IsUserLabel (validated_label_id found)
unfolding validated_label_id
validated_label_id-IsUserLabel none = tt
validated_label_id-IsUserLabel (some (Json.text s)) =
    OnOk-if IsUserLabel (is_user_label s) _ _ (λ e. e) (λ e. tt)
validated_label_id-IsUserLabel (some Json.null) = tt
validated_label_id-IsUserLabel (some (Json.boolean _)) = tt
validated_label_id-IsUserLabel (some (Json.number _)) = tt
validated_label_id-IsUserLabel (some (Json.array _)) = tt
validated_label_id-IsUserLabel (some (Json.object _)) = tt

user_label-IsUserLabel :
    (kind : LabelKind) (raw : JsonFields) → OnOk (OnSome IsUserLabel) (user_label kind raw)
unfolding user_label
user_label-IsUserLabel kind raw =
    OnOk-if (OnSome IsUserLabel) (is_text "user" (get_field "type" raw))
      (and_then (validated_label_id (get_field "id" raw)) (λ label. ok (some label)))
      (raise (quarantine_error kind.not_user_text))
      (λ _.
        OnOk-bind IsUserLabel (OnSome IsUserLabel) (validated_label_id (get_field "id" raw))
          (λ label. ok (some label)) (validated_label_id-IsUserLabel (get_field "id" raw))
          (λ label valid. valid))
      (λ _. tt)

-- Every label that the list gives is one that a user may have.
label_entry-IsUserLabel :
    (kind : LabelKind) (raw : Json) → OnOk (OnSome IsUserLabel) (label_entry kind raw)
unfolding label_entry
label_entry-IsUserLabel kind (Json.object raw) =
    OnOk-if (OnSome IsUserLabel) (is_text kind.label_name (get_field "name" raw))
      (user_label kind raw) (ok none) (λ _. user_label-IsUserLabel kind raw) (λ _. tt)
label_entry-IsUserLabel kind Json.null = tt
label_entry-IsUserLabel kind (Json.boolean _) = tt
label_entry-IsUserLabel kind (Json.number _) = tt
label_entry-IsUserLabel kind (Json.text _) = tt
label_entry-IsUserLabel kind (Json.array _) = tt

with_entry-All :
    (kind : LabelKind) (entry : Option String) (found : List String)
    → OnSome IsUserLabel entry
    → All IsUserLabel found
    → All IsUserLabel (with_entry kind entry found)
with_entry-All kind none found e f = f
with_entry-All kind (some label) found e f = (e, f)

pub matching_labels-IsUserLabel :
    (kind : LabelKind) (listed : JsonItems) → OnOk (All IsUserLabel) (matching_labels kind listed)
unfolding matching_labels
matching_labels-IsUserLabel kind no_items = tt
matching_labels-IsUserLabel kind (item raw rest) =
    OnOk-bind (OnSome IsUserLabel) (All IsUserLabel) (label_entry kind raw)
      (λ entry. and_then (matching_labels kind rest) (λ found. ok (with_entry kind entry found)))
      (label_entry-IsUserLabel kind raw)
      (λ entry e.
        OnOk-bind (All IsUserLabel) (All IsUserLabel) (matching_labels kind rest)
          (λ found. ok (with_entry kind entry found)) (matching_labels-IsUserLabel kind rest)
          (λ found f. with_entry-All kind entry found e f))
