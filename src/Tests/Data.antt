-- ===== src/Tests/Data.antt =====
-- A platform for ASCII texts with the header forms of the test messages, an account, and messages.
use Prim.Native.Char.{code}
use inboxlume.Base.{
  ℕ, ◌-◌, Bool, true, false, ◌&&◌, ◌||◌, Char, String, List, [], ◌∷◌, leb, ◌==◌, ◌*◌, str_eq,
  if◌then◌else◌, occurs,
}
use inboxlume.Models.{
  Platform, Datetime, ProviderKind, EmailCategory, EmailRecord, Classification, RetentionSignal,
  PreferenceSnapshot,
}
use inboxlume.Config.{AccountPolicy, default_protected_categories}

-- The letter of `small` at the place where `c` stands in `large`.
unfoldable pub counterpart : Char → String → String → Char
counterpart c (String.◌∷◌ x large) (String.◌∷◌ y small) =
    if code c == code x then y else counterpart c large small
counterpart c _ _ = c

unfoldable pub lower : String → String
lower String.[] = String.[]
lower (String.◌∷◌ c s) =
    String.◌∷◌ (counterpart c "ABCDEFGHIJKLMNOPQRSTUVWXYZ" "abcdefghijklmnopqrstuvwxyz") (lower s)

unfoldable pub is_alphanumeric : Char → Bool
is_alphanumeric c =
    leb b'0' (code c) && leb (code c) b'9'
    || leb b'A' (code c) && leb (code c) b'Z'
    || leb b'a' (code c) && leb (code c) b'z'

-- The only date that the test messages state.
unfoldable pub stated_groups : String → String → List (String × String × String)
stated_groups pattern text =
    if str_eq pattern "expiry_year_first" && occurs "valid until 2026-01-05" text
    then ("2026", "01", "05") ∷ []
    else []

abbrev pub ascii : Platform
ascii = record {
  casefold = lower;
  is_space = λ c. leb (code c) 32;
  is_word = is_alphanumeric;
  digit_value = λ c. code c - b'0';
  parse_address = λ value. value;
  get_addresses = λ values. values;
  find_groups = stated_groups;
}

-- A day of the test messages, and the moment at which they are judged.
abbrev pub day_at : ℕ → ℕ → Datetime
day_at days date = record { micros = days * 86400000000; aware = true; date = date }

abbrev pub now : Datetime
now = day_at 100 20260201

abbrev pub policy : AccountPolicy
policy = record {
  account_id = "main";
  provider = ProviderKind.gmail;
  unread_age_days = 30;
  read_one_time_code_age_days = 7;
  read_routine_access_alert_age_days = 7;
  review_confidence = 700000;
  quarantine_confidence = 900000;
  max_candidates_per_run = 100;
  protect_attachments = true;
  protected_categories = default_protected_categories;
  protected_senders = [];
  protected_domains = "school.example" ∷ [];
  protected_keywords = "contract" ∷ [];
  learning = record {
    enabled = true;
    minimum_observations = 3;
    protect_score = 650000;
    keep_similarity_threshold = 780000;
    discard_similarity_threshold = 820000;
    similarity_conflict_margin = 80000;
  };
}

-- A message of the account with this text, received on day 10.
abbrev pub message : Bool → String → String → String → EmailRecord
message unread sender subject body = record {
  account_id = "main";
  provider = ProviderKind.gmail;
  message_id = "m1";
  received_at = day_at 10 20251103;
  unread = unread;
  sender = sender;
  subject = subject;
  body_text = body;
  headers = ("To", "me@home.example") ∷ [];
  flags = "INBOX" ∷ [];
  known_contact = false;
  user_replied = false;
  has_attachment = false;
}

abbrev pub classified : EmailCategory → RetentionSignal → Classification
classified category retention = record {
  category = category;
  confidence = 950000;
  reason_codes = [];
  classifier = "local";
  retention = retention;
  retention_confidence = 950000;
}

abbrev pub offer : EmailRecord
offer = message true "shop@store.example" "Winter sale" "valid until 2026-01-05"

abbrev pub discard : Classification
discard = classified EmailCategory.advertising RetentionSignal.discard_candidate

abbrev pub code_mail : EmailRecord
code_mail = message false "no@site.example" "Hello" "123456"

abbrev pub one_time : Classification
one_time = classified EmailCategory.one_time_code RetentionSignal.uncertain

-- The owner deleted four messages like this one, and opened none.
abbrev pub agreeing : PreferenceSnapshot
agreeing = record {
  score = 0;
  observations = 4;
  keep_similarity = 100000;
  dont_keep_similarity = 950000;
  keep_similar_examples = 0;
  dont_keep_similar_examples = 4;
  recent_content_score = 100000;
  recent_content_evidence = 4000000;
  recent_content_examples = 4;
}
