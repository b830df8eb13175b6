-- ===== src/Config.antt =====
-- src/inboxlume/config.py: the settings that decide what happens to a message, with the checks
-- of their `__post_init__`. `isinstance` and `_is_finite_number` hold by typing.
use inboxlume.Base.{ℕ, Bool, ◌&&◌, not, String, List, [], ◌∷◌, leb, ok, Result, require, ◌>>◌}
use inboxlume.Models.{Platform, ProviderKind, EmailCategory, unit, is_blank}

pub record LearningPolicy : Type 0 where
  pub enabled : Bool
  pub minimum_observations : ℕ
  pub protect_score : ℕ
  pub keep_similarity_threshold : ℕ
  pub discard_similarity_threshold : ℕ
  pub similarity_conflict_margin : ℕ

-- `low <= value <= high`
abbrev pub in_range : ℕ → ℕ → ℕ → Bool
in_range low high value = leb low value && leb value high

-- `LearningPolicy.__post_init__`
unfoldable pub check_learning : LearningPolicy → Result LearningPolicy
check_learning l = do
  require (leb 1 l.minimum_observations) "minimum_observations deve essere almeno 1"
  require (in_range 500000 unit l.protect_score) "protect_score deve essere tra 0.5 e 1"
  require (in_range 500000 unit l.keep_similarity_threshold)
      "keep_similarity_threshold deve essere tra 0.5 e 1"
  require (in_range 500000 unit l.discard_similarity_threshold)
      "discard_similarity_threshold deve essere tra 0.5 e 1"
  require (leb l.similarity_conflict_margin 500000)
      "similarity_conflict_margin deve essere tra 0 e 0.5"
  ok l

-- `OperatingMode` has the one member `SHADOW`, so the test of `mode` holds by typing.
pub record AccountPolicy : Type 0 where
  pub account_id : String
  pub provider : ProviderKind
  pub unread_age_days : ℕ
  pub read_one_time_code_age_days : ℕ
  pub read_routine_access_alert_age_days : ℕ
  pub review_confidence : ℕ
  pub quarantine_confidence : ℕ
  pub max_candidates_per_run : ℕ
  pub protect_attachments : Bool
  pub protected_categories : List EmailCategory
  pub protected_senders : List String
  pub protected_domains : List String
  pub protected_keywords : List String
  pub learning : LearningPolicy

-- `AccountPolicy.__post_init__`
unfoldable pub check_policy : Platform → AccountPolicy → Result AccountPolicy
check_policy py p = do
  require (not (is_blank py.is_space p.account_id)) "account_id non può essere vuoto"
  require (in_range 1 3650 p.unread_age_days) "unread_age_days deve essere tra 1 e 3650"
  require (in_range 1 3650 p.read_one_time_code_age_days)
      "read_one_time_code_age_days deve essere tra 1 e 3650"
  require (in_range 1 3650 p.read_routine_access_alert_age_days)
      "read_routine_access_alert_age_days deve essere tra 1 e 3650"
  require (leb p.review_confidence p.quarantine_confidence && leb p.quarantine_confidence unit)
      "soglie di confidenza non valide"
  require (in_range 1 5000 p.max_candidates_per_run)
      "max_candidates_per_run deve essere tra 1 e 5000"
  ok p

unfoldable pub default_protected_categories : List EmailCategory
default_protected_categories =
    EmailCategory.banking ∷ EmailCategory.important ∷ EmailCategory.medical_legal
    ∷ EmailCategory.one_time_code ∷ EmailCategory.school ∷ EmailCategory.security
    ∷ EmailCategory.transactional ∷ []
