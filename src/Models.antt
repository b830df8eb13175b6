-- ===== src/Models.antt =====
-- src/inboxlume/models.py: the enumerations and the frozen records, with the checks of their
-- `__post_init__`. A probability is a natural number of millionths, a moment is a number of
-- microseconds with the answer to `tzinfo is not None`. The `isinstance` checks hold by typing.
use mathlib.Core.Logic.{ite}
use inboxlume.Base.{
  ℕ, ◌-◌, ◌/◌, Bool, true, false, ◌&&◌, not, String, List, map, length, leb, ok, Result, require,
  any, ◌>>◌, Char,
}

pub data ProviderKind : Type 0 where
  gmail yahoo fixture : ProviderKind

pub data EmailCategory : Type 0 where
  advertising banking important medical_legal one_time_code personal school : EmailCategory
  security social spam transactional other uncertain : EmailCategory

pub data RetentionSignal : Type 0 where
  protect discard_candidate uncertain : RetentionSignal

pub data PolicyAction : Type 0 where
  keep review label_review quarantine : PolicyAction

-- The millionths in a probability of one.
abbrev pub unit : ℕ
unit = 1000000

pub record Datetime : Type 0 where
  pub micros : ℕ
  pub aware : Bool
  pub date : ℕ  -- `.date()`, as year * 10000 + month * 100 + day

-- What the code takes from Python's Unicode tables and from `email.utils`.
pub record Platform : Type 0 where
  pub casefold : String → String
  pub is_space : Char → Bool
  pub is_word : Char → Bool
  pub parse_address : String → String  -- `parseaddr(value)[1]`
  pub digit_value : Char → ℕ  -- `int(c)` of a character that `\d` matches
  pub get_addresses : List String → List String  -- second parts of `getaddresses(values)`
  pub find_groups : String → String → List (String × String × String)  -- groups of `finditer`

-- The value of each member, a `StrEnum` text.
unfoldable pub category_value : EmailCategory → String
category_value EmailCategory.advertising = "advertising"
category_value EmailCategory.banking = "banking"
category_value EmailCategory.important = "important"
category_value EmailCategory.medical_legal = "medical_legal"
category_value EmailCategory.one_time_code = "one_time_code"
category_value EmailCategory.personal = "personal"
category_value EmailCategory.school = "school"
category_value EmailCategory.security = "security"
category_value EmailCategory.social = "social"
category_value EmailCategory.spam = "spam"
category_value EmailCategory.transactional = "transactional"
category_value EmailCategory.other = "other"
category_value EmailCategory.uncertain = "uncertain"

unfoldable pub EmailCategory-discrete : Discrete EmailCategory
EmailCategory-discrete = hlevel

-- `a is b`
unfoldable pub category_is : EmailCategory → EmailCategory → Bool
category_is a b = ite (EmailCategory-discrete a b) true false

-- `category in categories`
unfoldable pub category_in : EmailCategory → List EmailCategory → Bool
category_in c categories = any (category_is c) categories

pub record EmailRecord : Type 0 where
  pub account_id : String
  pub provider : ProviderKind
  pub message_id : String
  pub received_at : Datetime
  pub unread : Bool
  pub sender : String
  pub subject : String
  pub body_text : String
  pub headers : List (String × String)
  pub flags : List String
  pub known_contact : Bool
  pub user_replied : Bool
  pub has_attachment : Bool

-- `not text.strip()`: every character is a space.
unfoldable pub is_blank : (Char → Bool) → String → Bool
is_blank is_space String.[] = true
is_blank is_space (String.◌∷◌ c s) = is_space c && is_blank is_space s

-- `EmailRecord.__post_init__`
unfoldable pub check_record : Platform → EmailRecord → Result EmailRecord
check_record py m = do
  require (not (is_blank py.is_space m.account_id)) "account_id non può essere vuoto"
  require (not (is_blank py.is_space m.message_id)) "message_id non può essere vuoto"
  require m.received_at.aware "received_at deve includere il fuso orario"
  ok m

-- The microseconds of a day.
abbrev pub day : ℕ
day = 86400000000

-- `EmailRecord.age_days`: the days of a negative difference are negative, so `max` gives 0.
unfoldable pub age_days : EmailRecord → Datetime → Result ℕ
age_days m now = do
  require now.aware "now deve includere il fuso orario"
  ok ((now.micros - m.received_at.micros) / day)

-- `EmailRecord.normalized_flags`
unfoldable pub normalized_flags : Platform → EmailRecord → List String
normalized_flags py m = map py.casefold m.flags

pub record Classification : Type 0 where
  pub category : EmailCategory
  pub confidence : ℕ
  pub reason_codes : List String
  pub classifier : String
  pub retention : RetentionSignal
  pub retention_confidence : ℕ

-- `Classification.__post_init__`
unfoldable pub check_classification : Classification → Result Classification
check_classification c = do
  require (leb c.confidence unit) "confidence deve essere compresa tra 0 e 1"
  require (leb c.retention_confidence unit) "retention_confidence deve essere compresa tra 0 e 1"
  require (leb (length c.reason_codes) 8) "sono ammessi al massimo 8 reason_codes"
  ok c

pub record PreferenceSnapshot : Type 0 where
  pub score : ℕ
  pub observations : ℕ
  pub keep_similarity : ℕ
  pub dont_keep_similarity : ℕ
  pub keep_similar_examples : ℕ
  pub dont_keep_similar_examples : ℕ
  pub recent_content_score : ℕ
  pub recent_content_evidence : ℕ  -- millionths, without an upper bound
  pub recent_content_examples : ℕ

-- `PreferenceSnapshot.__post_init__`: the counts and the evidence are natural numbers.
unfoldable pub check_preference : PreferenceSnapshot → Result PreferenceSnapshot
check_preference p = do
  require (leb p.score unit) "score deve essere compreso tra 0 e 1"
  require (leb p.keep_similarity unit) "keep_similarity deve essere compreso tra 0 e 1"
  require (leb p.dont_keep_similarity unit) "dont_keep_similarity deve essere compreso tra 0 e 1"
  require (leb p.recent_content_score unit) "recent_content_score deve essere compreso tra 0 e 1"
  ok p

pub record PolicyDecision : Type 0 where
  pub action : PolicyAction
  pub reason_codes : List String
  pub dry_run : Bool

-- `PolicyDecision.changes_mailbox`
unfoldable pub changes_mailbox : PolicyDecision → Bool
changes_mailbox d = false

-- `PolicyDecision(action, reason_codes)`, with `dry_run=True` by default.
abbrev pub decision : PolicyAction → List String → PolicyDecision
decision a reasons = record { action = a; reason_codes = reasons; dry_run = true }

abbrev pub retention_is_protect : RetentionSignal → Bool
retention_is_protect RetentionSignal.protect = true
retention_is_protect _ = false

abbrev pub retention_is_discard : RetentionSignal → Bool
retention_is_discard RetentionSignal.discard_candidate = true
retention_is_discard _ = false

abbrev pub action_is_keep : PolicyAction → Bool
action_is_keep PolicyAction.keep = true
action_is_keep _ = false
