-- ===== src/Pipeline.antt =====
-- src/inboxlume/pipeline.py: which recorded proposals may be moved to quarantine. The store and the
-- mailbox are the protocols `PreferenceStore` and `ReadOnlyMailbox`: what they answer is a
-- parameter. `fingerprint` is the text of `policy_safety_fingerprint(policy)`.
pub mod Laws
pub mod Search
pub mod Mature
pub mod Finalizable
use Prim.Native.String.{count}
use inboxlume.Base.{
  ℕ, ◌-◌, ◌*◌, ◌≤◌, Bool, true, false, ◌&&◌, ◌||◌, not, String, List, [], ◌∷◌, leb, str_eq,
  contains, if◌then◌else◌, Option, none, some, ok, raise, value_error, key_error, Result, require,
  ◌>>=◌, ◌>>◌,
}
use inboxlume.Models.{
  Platform, Datetime, ProviderKind, EmailCategory, category_value, category_in, is_blank, day,
}
use inboxlume.Config.{AccountPolicy}
use inboxlume.Obsolescence.Proof.{has_hard_policy_reason}

-- The answers of the store for an account, a provider, a message and a profile.
pub record PreferenceStore : Type 0 where
  pub shadow_recovery_expected_unread :
      String → ProviderKind → String → String → String → Option Bool
  pub has_threat_assessment_id : String → ProviderKind → String → String → Bool → Bool
  pub threat_protects_message_id : String → ProviderKind → String → String → Bool
  pub has_quarantine_pilot_execution_id : String → ProviderKind → String → String → Bool
  pub shadow_record_for_message_id :
      String → ProviderKind → String → String → Option (String × String)
  pub shadow_is_hard_protected : String → ProviderKind → String → String → Bool
  pub quiz_answer_for_message_id : String → ProviderKind → String → Option String
  pub obsolescence_proof_for_message_id :
      String → ProviderKind → String → String → Option (String × String × String)
  pub shadow_reason_codes_for_message_id : String → ProviderKind → String → String → List String

-- The moments before which unread messages, read codes and read access alerts are looked for.
pub record SearchDates : Type 0 where
  pub unread_before : ℕ
  pub read_otp_before : ℕ
  pub read_access_before : ℕ

-- A search shows messages with their read state to the test it is given, and returns some of their
-- identities; both may depend on the test.
pub record ReadOnlyMailbox : Type 0 where
  pub exactly_read_only : Bool
  pub shown : SearchDates → ℕ → ℕ → (String → Bool → Result Bool) → List (String × Bool)
  pub returned : SearchDates → ℕ → ℕ → (String → Bool → Result Bool) → List String

pub record InboxMutationCandidate : Type 0 where
  pub message_id : String
  pub expected_unread : Bool

-- `InboxMutationCandidate.__post_init__`
unfoldable pub check_candidate : Platform → InboxMutationCandidate → Result InboxMutationCandidate
check_candidate py c = do
  require (not (is_blank py.is_space c.message_id)) "message_id candidato operativo non valido"
  ok c

-- `expected is currently_unread`
abbrev pub is_state : Option Bool → Bool → Bool
is_state (some true) true = true
is_state (some false) false = true
is_state _ _ = false

abbrev pub is_answer : String → Option String → Bool
is_answer answer none = false
is_answer answer (some given) = str_eq given answer

unfoldable pub categories : List EmailCategory
categories =
    EmailCategory.advertising ∷ EmailCategory.banking ∷ EmailCategory.important
    ∷ EmailCategory.medical_legal ∷ EmailCategory.one_time_code ∷ EmailCategory.personal
    ∷ EmailCategory.school ∷ EmailCategory.security ∷ EmailCategory.social ∷ EmailCategory.spam
    ∷ EmailCategory.transactional ∷ EmailCategory.other ∷ EmailCategory.uncertain ∷ []

-- `EmailCategory(value)`
unfoldable pub category_from : String → List EmailCategory → Result EmailCategory
category_from value [] = raise (value_error "not a valid EmailCategory")
category_from value (c ∷ cs) =
    let rest = category_from value cs in if str_eq value (category_value c) then ok c else rest

unfoldable pub cleanup_review_categories : List EmailCategory
cleanup_review_categories =
    EmailCategory.advertising ∷ EmailCategory.social ∷ EmailCategory.spam
    ∷ EmailCategory.one_time_code ∷ []

-- The three options of `prepare_automatic_quarantine_candidates`.
pub record SelectionOptions : Type 0 where
  pub allowed_categories : Option (List String)
  pub include_verified_obsolescence : Bool
  pub allow_disabled_threat_assessment : Bool

-- `allowed_categories is not None and category not in allowed_categories`
abbrev pub is_refused : Option (List String) → String → Bool
is_refused none category = false
is_refused (some allowed) category = not (contains category allowed)

-- `proof is not None and proof[0] == "verified" and proof[2] == "quarantine"`
abbrev pub proves : Option (String × String × String) → Bool
proves none = false
proves (some (status, _, destination)) = str_eq status "verified" && str_eq destination "quarantine"

module _ (store : PreferenceStore) (policy : AccountPolicy)
    (scan_profile fingerprint : String) where
  abbrev pub answer_of : String → Option String
  answer_of = store.quiz_answer_for_message_id policy.account_id policy.provider

  abbrev pub hard_protected : String → Bool
  hard_protected id =
      store.shadow_is_hard_protected policy.account_id policy.provider id scan_profile

  abbrev pub state_changed : String → Bool → Bool
  state_changed id unread = not (
      is_state
        (store.shadow_recovery_expected_unread policy.account_id policy.provider id scan_profile
          fingerprint)
        unread)

  abbrev pub record_of : String → Option (String × String)
  record_of id =
      store.shadow_record_for_message_id policy.account_id policy.provider id scan_profile

  abbrev pub executed : String → Bool
  executed id =
      store.has_quarantine_pilot_execution_id policy.account_id policy.provider id scan_profile

  -- `is_verified` of `prepare_verified_quarantine_candidates`
  unfoldable pub is_verified_proposal : String → Bool → Result Bool
  is_verified_proposal id unread =
      if state_changed id unread
      then ok false
      else if not
          (store.has_threat_assessment_id policy.account_id policy.provider id scan_profile false)
      then ok false
      else if executed id
      then ok false
      else elim (record_of id) [
        | none ↦ ok false
        | some (_, action) ↦ ok (str_eq action "quarantine" && is_answer "dont_keep" (answer_of id))
      ]

  module _ (options : SelectionOptions) where
    abbrev pub ordinary_quarantine : String → String → Bool
    ordinary_quarantine id action = str_eq action "quarantine" && not (hard_protected id)

    unfoldable pub reviewed_cleanup : String → String → String → Result Bool
    reviewed_cleanup id category action =
        if str_eq action "review"
        then (do
          c ← category_from category categories
          ok (
              category_in c cleanup_review_categories
              && not (hard_protected id)
              && is_answer "dont_keep" (answer_of id)))
        else ok false

    abbrev pub proof_quarantine : String → Bool
    proof_quarantine id =
        options.include_verified_obsolescence
        && proves (
            store.obsolescence_proof_for_message_id policy.account_id policy.provider id
              scan_profile)
        && not (
            has_hard_policy_reason (
              store.shadow_reason_codes_for_message_id policy.account_id policy.provider id
                scan_profile))

    -- From `ordinary_quarantine` to the end, for a recorded category and action.
    unfoldable pub is_pending_record : String → String → String → Result Bool
    is_pending_record id category action = do
      reviewed ← reviewed_cleanup id category action
      ok (
          (ordinary_quarantine id action || proof_quarantine id || reviewed)
          && not (is_refused options.allowed_categories category)
          && not (is_answer "keep" (answer_of id) || is_answer "unsure" (answer_of id)))

    unfoldable pub is_pending : String → Bool → Result Bool
    is_pending id unread =
        if state_changed id unread
        then ok false
        else if not (
            store.has_threat_assessment_id policy.account_id policy.provider id scan_profile
              options.allow_disabled_threat_assessment)
        then ok false
        else if store.threat_protects_message_id policy.account_id policy.provider id scan_profile
        then ok false
        else if executed id
        then ok false
        else elim (record_of id) [
          | none ↦ ok false
          | some (category, action) ↦ is_pending_record id category action
        ]

-- The dictionary `matched`, newest entry first, after the search has shown some messages.
unfoldable pub record_matches :
    Platform
    → (String → Bool → Result Bool)
    → List (String × Bool)
    → List InboxMutationCandidate
    → Result (List InboxMutationCandidate)
record_matches py test [] matched = ok matched
record_matches py test ((id, unread) ∷ shown) matched = do
  accepted ← test id unread
  if accepted
      then (do
        c ← check_candidate py (record { message_id = id; expected_unread = unread })
        record_matches py test shown (c ∷ matched))
      else record_matches py test shown matched

-- `matched[message_id]`
unfoldable pub matched_at : String → List InboxMutationCandidate → Result InboxMutationCandidate
matched_at id [] = raise (key_error id)
matched_at id (c ∷ matched) =
    let rest = matched_at id matched in if str_eq id c.message_id then ok c else rest

unfoldable pub all_matched :
    List String → List InboxMutationCandidate → Result (List InboxMutationCandidate)
all_matched [] matched = ok []
all_matched (id ∷ ids) matched = do
  c ← matched_at id matched
  rest ← all_matched ids matched
  ok (c ∷ rest)

-- `now - timedelta(days=...)` of the policy's three ages.
abbrev pub search_dates : AccountPolicy → Datetime → SearchDates
search_dates policy now = record {
  unread_before = now.micros - policy.unread_age_days * day;
  read_otp_before = now.micros - policy.read_one_time_code_age_days * day;
  read_access_before = now.micros - policy.read_routine_access_alert_age_days * day;
}

-- The search with a test, and the candidates of the identities that it returns.
unfoldable pub search_candidates :
    Platform
    → ReadOnlyMailbox
    → SearchDates
    → ℕ
    → ℕ
    → (String → Bool → Result Bool)
    → Result (List InboxMutationCandidate)
search_candidates py mailbox dates limit search_limit test = do
  matched ← record_matches py test (mailbox.shown dates limit search_limit test) []
  all_matched (mailbox.returned dates limit search_limit test) matched

module _ (py : Platform) (policy : AccountPolicy) (mailbox : ReadOnlyMailbox)
    (store : PreferenceStore) where
  module _ (now : Datetime) (limit search_limit : ℕ) (scan_profile fingerprint : String) where
    -- The checks at the start of both functions, after that of the limits.
    abbrev check_profile : Result (Unit {0})
    check_profile = do
      require (not (is_blank py.is_space scan_profile) && leb (count scan_profile) 100)
          "scan_profile non valido"
      require mailbox.exactly_read_only
          "il provider non espone esattamente le sole capacità di lettura"

    unfoldable pub prepare_verified_quarantine_candidates : Result (List InboxMutationCandidate)
    prepare_verified_quarantine_candidates = do
      require now.aware "now deve includere il fuso orario"
      require (leb 1 limit && leb limit 10 && leb limit search_limit && leb search_limit 1000)
          "limiti quarantena pilot non validi"
      check_profile
      search_candidates py mailbox (search_dates policy now) limit search_limit
          (is_verified_proposal store policy scan_profile fingerprint)

    unfoldable pub prepare_automatic_quarantine_candidates :
        SelectionOptions → Result (List InboxMutationCandidate)
    prepare_automatic_quarantine_candidates options = do
      require now.aware "now deve includere il fuso orario"
      require (leb 1 limit && leb limit 5000 && leb limit search_limit && leb search_limit 10000)
          "limiti quarantena automatica non validi"
      check_profile
      search_candidates py mailbox (search_dates policy now) limit search_limit
          (is_pending store policy scan_profile fingerprint options)
