-- ===== src/Pipeline/Mature.antt =====
-- `prepare_mature_quarantine_candidates` of src/inboxlume/pipeline.py: which messages were in quarantine
-- for three days, and that the finalizer accepts each of them.
use Prim.Native.String.{count}
use inboxlume.Base.{
  ℕ, ◌+◌, ◌*◌, Bool, false, ◌&&◌, ◌||◌, not, String, List, [], ◌∷◌, str_eq, ltb, leb, if◌then◌else◌,
  Option, none, some, is_some, ok, raise, type_error, key_error, Result, require, ◌>>=◌, ◌>>◌,
}
use inboxlume.Models.{Platform, Datetime, ProviderKind, EmailCategory, category_in, is_blank, day}
use inboxlume.Config.{AccountPolicy}
use inboxlume.Gmail.Finalizer.{MatureQuarantineCandidate, check_mature, quarantine_delay_days}
use inboxlume.Pipeline.{
  PreferenceStore, ReadOnlyMailbox, is_state, is_answer, categories, category_from, search_dates,
}

-- The store with the records of what was executed.
pub record MatureStore : Type 0 where
  pub preferences : PreferenceStore
  pub has_quarantine_finalization_id : String → ProviderKind → String → String → Bool
  pub quarantine_pilot_record_for_message_id :
      String → ProviderKind → String → String → Option (Datetime × String)

unfoldable pub mature_categories : List EmailCategory
mature_categories =
    EmailCategory.advertising ∷ EmailCategory.one_time_code ∷ EmailCategory.social
    ∷ EmailCategory.spam ∷ EmailCategory.security ∷ []

module _ (s : MatureStore) (policy : AccountPolicy) (scan_profile fingerprint : String)
    (now : Datetime) where
  abbrev pub quiz_answer : String → Option String
  quiz_answer id = s.preferences.quiz_answer_for_message_id policy.account_id policy.provider id

  -- From the record of the proposal on.
  unfoldable pub mature_record :
      String → Bool → Datetime → String × String → Result (Option MatureQuarantineCandidate)
  mature_record id unread executed_at (category_text, action) =
      if not (str_eq action "quarantine")
      then ok none
      else elim (category_from category_text categories) [
        | raise _ ↦ ok none
        | ok category ↦
            if not (category_in category mature_categories)
            then ok none
            else if is_answer "keep" (quiz_answer id) || is_answer "unsure" (quiz_answer id)
            then ok none
            else check_mature (record {
              message_id = id;
              category = category;
              quarantined_at = executed_at;
              expected_unread = unread;
            })
              >>= λ c. ok (some c)
      ]

  unfoldable pub mature_execution :
      String → Bool → Option (Datetime × String) → Result (Option MatureQuarantineCandidate)
  mature_execution id unread none = ok none
  mature_execution id unread (some (executed_at, status)) =
      if not (str_eq status "applied" || str_eq status "already_applied")
      then ok none
      else if not executed_at.aware
      then raise type_error
      else if ltb now.micros (executed_at.micros + quarantine_delay_days * day)
      then ok none
      else elim (s.preferences.shadow_record_for_message_id policy.account_id policy.provider id
          scan_profile) [ none ↦ ok none | some found ↦ mature_record id unread executed_at found ]

  -- `is_mature`, with the candidate that it puts into `matched`.
  unfoldable pub mature_of : String → Bool → Result (Option MatureQuarantineCandidate)
  mature_of id unread =
      if not (
        is_state
          (s.preferences.shadow_recovery_expected_unread policy.account_id policy.provider id
            scan_profile fingerprint)
          unread)
      then ok none
      else if not (
          s.preferences.has_threat_assessment_id policy.account_id policy.provider id scan_profile
            false)
      then ok none
      else if s.preferences.threat_protects_message_id policy.account_id policy.provider id
          scan_profile
      then ok none
      else if s.has_quarantine_finalization_id policy.account_id policy.provider id scan_profile
      then ok none
      else mature_execution id unread (
          s.quarantine_pilot_record_for_message_id policy.account_id policy.provider id
            scan_profile)

  abbrev pub is_mature : String → Bool → Result Bool
  is_mature id unread = mature_of id unread >>= λ found. ok (is_some found)

  abbrev pub with_found :
      Option MatureQuarantineCandidate
      → List MatureQuarantineCandidate
      → List MatureQuarantineCandidate
  with_found none matched = matched
  with_found (some c) matched = c ∷ matched

  -- `matched`, the newest entry of a key first, after the mailbox showed its messages.
  unfoldable pub mature_matches :
      List (String × Bool)
      → List MatureQuarantineCandidate
      → Result (List MatureQuarantineCandidate)
  mature_matches [] matched = ok matched
  mature_matches ((id, unread) ∷ shown) matched = do
    found ← mature_of id unread
    mature_matches shown (with_found found matched)

  unfoldable pub mature_at :
      String → List MatureQuarantineCandidate → Result MatureQuarantineCandidate
  mature_at id [] = raise (key_error id)
  mature_at id (c ∷ matched) =
      let rest = mature_at id matched in if str_eq id c.message_id then ok c else rest

  unfoldable pub all_mature :
      List String → List MatureQuarantineCandidate → Result (List MatureQuarantineCandidate)
  all_mature [] matched = ok []
  all_mature (id ∷ ids) matched = do
    c ← mature_at id matched
    rest ← all_mature ids matched
    ok (c ∷ rest)

  module _ (py : Platform) (mailbox : ReadOnlyMailbox) (limit search_limit : ℕ) where
    unfoldable pub prepare_mature_quarantine_candidates : Result (List MatureQuarantineCandidate)
    prepare_mature_quarantine_candidates = do
      require now.aware "now deve includere il fuso orario"
      require (leb 1 limit && leb limit 5 && (leb limit search_limit && leb search_limit 1000))
          "limiti finalizzazione non validi"
      require (not (is_blank py.is_space scan_profile) && leb (count scan_profile) 100)
          "scan_profile non valido"
      require mailbox.exactly_read_only
          "il provider non espone esattamente le sole capacità di lettura"
      matched ←
          mature_matches (mailbox.shown (search_dates policy now) limit search_limit is_mature) []
      all_mature (mailbox.returned (search_dates policy now) limit search_limit is_mature) matched
