-- ===== src/Gmail/Transport.antt =====
-- The transports of src/inboxlume/providers/gmail_quarantine.py and gmail_finalizer.py: what they allow
-- to be sent, and how an answer is read. Parsing, quoting and encoding of URLs are Python's
-- `urllib.parse`; what comes back for the requests so far is the network's.
use inboxlume.Base.{
  ℕ, Bool, true, false, ◌&&◌, ◌||◌, not, String, Char, ◌<>◌, List, [], ◌∷◌, leb, ltb, ◌==◌, str_eq,
  length, contains, if◌then◌else◌, Option, none, some, ok, raise, Result, Error, quarantine_error,
  finalization_error,
}
use Prim.Native.Char.{code}
use Prim.Native.String.{count}
use inboxlume.Models.{is_blank}
use inboxlume.Gmail.Json.{
  Json, JsonFields, no_fields, get_field, field_names, item_texts, is_text, is_texts, same_texts,
}
use inboxlume.Gmail.Session.{
  Request, get_request, post_request, Action, lift, check, sent_so_far, send, ◌>>=◌, ◌>>◌,
}

-- `urllib.parse.ParseResult`, with a port that Python can read; the user and password are read as
-- "present and not empty".
pub record ParsedUrl : Type 0 where
  pub scheme : String
  pub hostname : Option String
  pub port : Option ℕ
  pub has_username : Bool
  pub has_password : Bool
  pub fragment : String
  pub path : String
  pub query : String

-- What `opener.open` and `response.read` give: a refusal with its status, no connection, or a body of
-- some bytes with its JSON value, if it is UTF-8 and JSON.
pub data Wire : Type 0 where
  http_error : String → Wire
  unreachable : Wire
  body : ℕ → Option Json → Wire

pub record Network : Type 0 where
  pub urlparse : String → ParsedUrl
  pub parse_qs : String → List (String × List String)
  pub urlencode : List (String × String) → String
  pub quote : String → String  -- with `safe=""`
  pub is_space : Char → Bool
  pub access_token : List Request → Result String
  pub wire : List Request → Wire  -- for the newest request of those sent

abbrev pub maximum_response_bytes : ℕ
maximum_response_bytes = 512000

-- `[A-Za-z0-9_-]`
unfoldable pub is_id_char : Char → Bool
is_id_char c =
    leb b'A' (code c) && leb (code c) b'Z'
    || leb b'a' (code c) && leb (code c) b'z'
    || leb b'0' (code c) && leb (code c) b'9'
    || code c == b'_'
    || code c == b'-'

unfoldable pub all_id_chars : String → Bool
all_id_chars String.[] = true
all_id_chars (String.◌∷◌ c s) = is_id_char c && all_id_chars s

-- `_MESSAGE_ID.fullmatch(value)` and `_LABEL_ID.fullmatch(value)`
unfoldable pub is_identity : String → Bool
is_identity value = leb 1 (count value) && leb (count value) 256 && all_id_chars value

-- `[A-Za-z0-9_-]+` and then the suffix; `seen` says that the class matched before.
unfoldable pub identity_then : String → Bool → String → Bool
identity_then suffix seen String.[] = seen && str_eq suffix ""
identity_then suffix seen (String.◌∷◌ c s) =
    let further = identity_then suffix true s in
    if is_id_char c then further else seen && str_eq suffix (String.◌∷◌ c s)

-- The text after a prefix.
unfoldable pub after_prefix : String → String → Option String
after_prefix String.[] s = some s
after_prefix (String.◌∷◌ p prefix) String.[] = none
after_prefix (String.◌∷◌ p prefix) (String.◌∷◌ c s) =
    let rest = after_prefix prefix s in if code p == code c then rest else none

abbrev pub messages_path : String
messages_path = "/gmail/v1/users/me/messages/"

abbrev pub labels_path : String
labels_path = "/gmail/v1/users/me/labels"

abbrev pub gmail_origin : String
gmail_origin = "https://gmail.googleapis.com"

-- `_MESSAGE_METADATA_PATH`, `_MESSAGE_MODIFY_PATH` and `_MESSAGE_TRASH_PATH`, with the suffixes
-- `""`, `"/modify"` and `"/trash"`.
unfoldable pub is_message_path : String → String → Bool
is_message_path suffix path = elim (after_prefix messages_path path) [
  | none ↦ false
  | some rest ↦ identity_then suffix false rest
]

unfoldable pub query_value : String → List (String × List String) → Option (List String)
query_value key [] = none
query_value key ((other, values) ∷ rows) =
    let later = query_value key rows in if str_eq key other then some values else later

abbrev pub are_values : List String → Option (List String) → Bool
are_values expected none = false
are_values expected (some found) = same_texts found expected

-- `query == {"fields": ["id,labelIds"], "format": ["minimal"]}`
unfoldable pub is_minimal_query : List (String × List String) → Bool
is_minimal_query rows =
    length rows == 2
    && are_values ("id,labelIds" ∷ []) (query_value "fields" rows)
    && are_values ("minimal" ∷ []) (query_value "format" rows)

-- The payload has these two keys.
abbrev pub has_two_keys : String → String → JsonFields → Bool
has_two_keys a b payload =
    length (field_names payload) == 2
    && contains a (field_names payload)
    && contains b (field_names payload)

unfoldable pub quarantine_label_name : String
quarantine_label_name = "InboxLume/Quarantena"

unfoldable pub legacy_quarantine_label_name : String
legacy_quarantine_label_name = "Mail Guardian/Quarantena"

unfoldable pub threat_label_name : String
threat_label_name = "InboxLume/Sospetto phishing"

unfoldable pub system_label_ids : List String
system_label_ids =
    "CHAT" ∷ "DRAFT" ∷ "IMPORTANT" ∷ "INBOX" ∷ "SENT" ∷ "SPAM" ∷ "STARRED" ∷ "TRASH" ∷ "UNREAD" ∷ []

-- An identity that a user's label may have.
unfoldable pub is_user_label : String → Bool
is_user_label label = is_identity label && not (contains label system_label_ids)

abbrev pub is_user_label_list : Option (List String) → Bool
is_user_label_list (some (label ∷ [])) = is_user_label label
is_user_label_list _ = false

abbrev pub is_user_label_json : Option Json → Bool
is_user_label_json (some (Json.array items)) = is_user_label_list (item_texts items)
is_user_label_json _ = false

-- The payload that creates one of the two labels; for a name that is a list or an object the code raises
-- a `TypeError`, and here the payload is refused.
unfoldable pub creates_label : JsonFields → Bool
creates_label payload =
    length (field_names payload) == 3
    && (is_text quarantine_label_name (get_field "name" payload)
        || is_text threat_label_name (get_field "name" payload))
    && is_text "show" (get_field "messageListVisibility" payload)
    && is_text "labelShow" (get_field "labelListVisibility" payload)

-- The payload that adds one user label and removes none.
unfoldable pub adds_user_label : JsonFields → Bool
adds_user_label payload =
    has_two_keys "addLabelIds" "removeLabelIds" payload
    && is_user_label_json (get_field "addLabelIds" payload)
    && is_texts [] (get_field "removeLabelIds" payload)

-- `payload == {"addLabelIds": ["SPAM"], "removeLabelIds": ["INBOX"]}`
unfoldable pub moves_to_spam : JsonFields → Bool
moves_to_spam payload =
    has_two_keys "addLabelIds" "removeLabelIds" payload
    && is_texts ("SPAM" ∷ []) (get_field "addLabelIds" payload)
    && is_texts ("INBOX" ∷ []) (get_field "removeLabelIds" payload)

-- `payload == {}`
abbrev pub is_empty : JsonFields → Bool
is_empty no_fields = true
is_empty _ = false

-- What a transport allows, and the words of its errors.
pub record Rules : Type 0 where
  pub allows_labels_get : Bool
  pub allows_post : String → JsonFields → Bool
  pub error : String → Error
  pub endpoint_text : String
  pub get_text : String
  pub post_text : String
  pub refused_text : String
  pub unreachable_text : String
  pub too_large_text : String
  pub invalid_text : String

-- `DirectGmailQuarantineTransport`
abbrev pub quarantine_rules : Rules
quarantine_rules = record {
  allows_labels_get = true;
  allows_post = λ path payload.
      str_eq path labels_path && creates_label payload
      || is_message_path "/modify" path && adds_user_label payload;
  error = quarantine_error;
  endpoint_text = "endpoint Gmail quarantena non consentito";
  get_text = "GET Gmail quarantena non consentita";
  post_text = "POST Gmail quarantena non consentita";
  refused_text = "Gmail ha rifiutato la quarantena (HTTP ";
  unreachable_text = "connessione Gmail quarantena fallita";
  too_large_text = "risposta Gmail quarantena oltre il limite";
  invalid_text = "risposta Gmail quarantena non valida";
}

-- `DirectGmailFinalizationTransport`
abbrev pub finalization_rules : Rules
finalization_rules = record {
  allows_labels_get = true;
  allows_post = λ path payload.
      is_message_path "/trash" path && is_empty payload
      || is_message_path "/modify" path && moves_to_spam payload;
  error = finalization_error;
  endpoint_text = "endpoint Gmail finale non consentito";
  get_text = "GET Gmail finale non consentita";
  post_text = "POST Gmail finale non consentita";
  refused_text = "Gmail ha rifiutato la finalizzazione (HTTP ";
  unreachable_text = "connessione Gmail finale fallita";
  too_large_text = "risposta Gmail finale oltre il limite";
  invalid_text = "risposta Gmail finale non valida";
}

-- `DirectGmailTrashTransport`
abbrev pub trash_rules : Rules
trash_rules = record finalization_rules {
  allows_labels_get = false;
  allows_post = λ path payload. is_message_path "/trash" path && is_empty payload;
  get_text = "GET Gmail Cestino non consentita";
  post_text = "POST Gmail Cestino non consentita";
}

-- `_parsed` accepts the URL.
unfoldable pub is_gmail : ParsedUrl → Bool
is_gmail u =
    str_eq u.scheme "https"
    && is_host u.hostname
    && is_port u.port
    && not u.has_username
    && not u.has_password
    && str_eq u.fragment ""
  where
    is_host : Option String → Bool
    is_host none = false
    is_host (some host) = str_eq host "gmail.googleapis.com"

    is_port : Option ℕ → Bool
    is_port none = true
    is_port (some port) = port == 443

module _ (net : Network) (rules : Rules) where
  unfoldable pub allows_get : ParsedUrl → Bool
  allows_get u =
      rules.allows_labels_get && str_eq u.path labels_path && str_eq u.query ""
      || is_message_path "" u.path && is_minimal_query (net.parse_qs u.query)

  -- What `_request_json` makes of an answer.
  unfoldable pub decoded : Wire → Result JsonFields
  decoded (http_error status) = raise (rules.error (rules.refused_text <> (status <> ")")))
  decoded unreachable = raise (rules.error rules.unreachable_text)
  decoded (body size content) =
      if ltb maximum_response_bytes size
      then raise (rules.error rules.too_large_text)
      else fields content
    where
      fields : Option Json → Result JsonFields
      fields (some (Json.object found)) = ok found
      fields _ = raise (rules.error rules.invalid_text)

  module _ {C : Type 0} where
    -- `_request_json`
    unfoldable pub request_json : Request → Action C JsonFields
    request_json request = do send request; history ← sent_so_far; lift (decoded (net.wire history))

    -- `get_json`, called with `get_access_token()`
    unfoldable pub get_json : String → Action C JsonFields
    get_json url = do
      history ← sent_so_far
      token ← lift (net.access_token history)
      check (is_gmail (net.urlparse url)) (rules.error rules.endpoint_text)
      check (allows_get (net.urlparse url)) (rules.error rules.get_text)
      check (not (is_blank net.is_space token)) (rules.error "access token Gmail mancante")
      request_json (get_request url)

    -- `post_json`, called with `get_access_token()`
    unfoldable pub post_json : String → JsonFields → Action C JsonFields
    post_json url payload = do
      history ← sent_so_far
      token ← lift (net.access_token history)
      check (is_gmail (net.urlparse url)) (rules.error rules.endpoint_text)
      check
          (str_eq (net.urlparse url).query "" && rules.allows_post (net.urlparse url).path payload)
          (rules.error rules.post_text)
      check (not (is_blank net.is_space token)) (rules.error "access token Gmail mancante")
      request_json (post_request url payload)
