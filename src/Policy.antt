-- ===== src/Policy.antt =====
-- src/inboxlume/policy.py: `SafetyPolicyEngine.decide`. An early return of a decision is a branch
-- that ends there; the blocks of the method are functions, in the order in which it runs them.
pub mod Addresses
pub mod Cleanup
pub mod Protection
use inboxlume.Base.{
  ℕ, ◌+◌, ◌*◌, Bool, true, false, ◌&&◌, ◌||◌, not, String, ◌<>◌, List, [], ◌∷◌, leb, ltb, str_eq,
  Option, none, some, if◌then◌else◌, contains, intersects, any_occurs, ok, raise, value_error,
  Result, ◌>>=◌, ◌>>◌,
}
use inboxlume.Models.{
  Platform, Datetime, EmailCategory, EmailRecord, Classification, PreferenceSnapshot, PolicyAction,
  PolicyDecision, decision, category_is, category_in, category_value, normalized_flags, age_days,
  retention_is_protect, retention_is_discard,
}
use inboxlume.Config.{AccountPolicy, LearningPolicy}
use inboxlume.Guardrails.{
  has_permanent_transaction_record, access_alert_kind, is_high_risk, is_routine,
}
use Addresses.{sender_address, sender_domain, is_sent_to_self}

abbrev pub keep : String → Result PolicyDecision
keep reason = ok (decision PolicyAction.keep (reason ∷ []))

abbrev pub review : String → Result PolicyDecision
review reason = ok (decision PolicyAction.review (reason ∷ []))

abbrev pub quarantine : String → Result PolicyDecision
quarantine reason = ok (decision PolicyAction.quarantine (reason ∷ []))

-- What the local preferences say: a decision, or whether they speak for discarding.
pub data Learned : Type 0 where
  decided : PolicyDecision → Learned
  undecided : Bool → Learned

module _ (l : LearningPolicy) (p : PreferenceSnapshot) where
  abbrev pub keep_match : Bool
  keep_match = leb l.keep_similarity_threshold p.keep_similarity

  abbrev pub discard_match : Bool
  discard_match = leb l.discard_similarity_threshold p.dont_keep_similarity

  -- `recent_content_evidence >= minimum_observations`, the evidence in millionths.
  abbrev pub recent_behavior_keep : Bool
  recent_behavior_keep =
      leb (l.minimum_observations * 1000000) p.recent_content_evidence
      && leb l.protect_score p.recent_content_score

  unfoldable pub weigh_preference : Learned
  weigh_preference =
      if keep_match && discard_match
      then decided (decision PolicyAction.review ("conflicting_similar_examples" ∷ []))
      else if keep_match
          && leb (p.dont_keep_similarity + l.similarity_conflict_margin) p.keep_similarity
      then decided (decision PolicyAction.keep ("similar_content_previously_kept" ∷ []))
      else if recent_behavior_keep && discard_match
      then decided
          (decision PolicyAction.review ("recent_behavior_conflicts_with_explicit_feedback" ∷ []))
      else if recent_behavior_keep
      then decided (decision PolicyAction.keep ("similar_content_opened_recently" ∷ []))
      else undecided (
          discard_match
          && leb (p.keep_similarity + l.similarity_conflict_margin) p.dont_keep_similarity)

-- `if policy.learning.enabled and preference is not None`
unfoldable pub weigh_learning : LearningPolicy → Option PreferenceSnapshot → Learned
weigh_learning l none = undecided false
weigh_learning l (some p) = if l.enabled then weigh_preference l p else undecided false

abbrev pub is_cleanup_category : EmailCategory → Bool
is_cleanup_category c =
    category_is c EmailCategory.advertising
    || category_is c EmailCategory.social
    || category_is c EmailCategory.spam

module _ (policy : AccountPolicy) (c : Classification) where
  abbrev pub model_discard : Bool
  model_discard =
      retention_is_discard c.retention && leb policy.quarantine_confidence c.retention_confidence

  -- From the comment on the judgement of the content to the end.
  unfoldable pub decide_content : Bool → Result PolicyDecision
  decide_content learned_discard =
      if retention_is_protect c.retention
      then (if leb policy.review_confidence c.retention_confidence
          then keep "content_requires_retention"
          else review "uncertain_content_retention")
      else if ltb c.confidence policy.review_confidence
      then review "low_confidence"
      else if is_cleanup_category c.category
      then (if leb policy.quarantine_confidence c.confidence && (model_discard || learned_discard)
          then ok (
              decision PolicyAction.quarantine (
                (if learned_discard
                  then "similar_content_previously_discarded"
                  else "content_specific_discard_candidate")
                ∷ category_value c.category
                ∷ []))
          else ok (
              decision PolicyAction.review
                ("content_or_similarity_not_decisive" ∷ category_value c.category ∷ [])))
      else review "ambiguous_old_unread"

  unfoldable pub decide_learned : Learned → Result PolicyDecision
  decide_learned (decided d) = ok d
  decide_learned (undecided learned_discard) = decide_content learned_discard

  module _ (m : EmailRecord) (now : Datetime) (preference : Option PreferenceSnapshot) where
    -- A message that is not read: its age, its category and what its content is worth.
    unfoldable pub decide_unread : Result PolicyDecision
    decide_unread = do
      age ← age_days m now
      if ltb age policy.unread_age_days
          then keep "younger_than_threshold"
          else if category_in c.category policy.protected_categories
          then ok
              (decision PolicyAction.review ("protected_category" ∷ category_value c.category ∷ []))
          else decide_learned (weigh_learning policy.learning preference)

    -- `if not message.unread`, after the access alerts.
    unfoldable pub decide_read : Result PolicyDecision
    decide_read =
        if category_is c.category EmailCategory.one_time_code
        then (do
          age ← age_days m now
          if leb policy.read_one_time_code_age_days age
              then (if leb policy.quarantine_confidence c.confidence
                  then quarantine "expired_read_one_time_code"
                  else review "possible_expired_read_one_time_code")
              else keep "message_is_read")
        else keep "message_is_read"

    -- From the test on expired access alerts to the end. `routine` says that the message is one.
    unfoldable pub decide_aged : Bool → Result PolicyDecision
    decide_aged routine =
        if m.unread
        then decide_unread
        else if routine
        then (do
          age ← age_days m now
          if leb policy.read_routine_access_alert_age_days age
              then (if leb policy.quarantine_confidence c.confidence
                  then quarantine "expired_read_routine_access_alert"
                  else review "possible_expired_read_routine_access_alert")
              else decide_read)
        else decide_read

module _ (py : Platform) (m : EmailRecord) (c : Classification) (policy : AccountPolicy) where
  -- `flags.intersection({"starred", "important", "flagged"})`
  unfoldable pub has_protected_flag : Bool
  has_protected_flag = intersects (normalized_flags py m) ("starred" ∷ "important" ∷ "flagged" ∷ [])

  unfoldable pub is_protected_sender : Bool
  is_protected_sender =
      contains (sender_address py m.sender) policy.protected_senders
      || contains (sender_domain py m.sender) policy.protected_domains

  unfoldable pub has_protected_keyword : Bool
  has_protected_keyword =
      any_occurs policy.protected_keywords (py.casefold (m.subject <> ("\n" <> m.body_text)))

  -- The guards that end in `KEEP` before anything else is asked, in the code's order.
  unfoldable pub protective_reason : Option String
  protective_reason =
      if has_protected_flag
      then some "protected_mailbox_flag"
      else if m.known_contact || m.user_replied
      then some "known_relationship"
      else if is_sent_to_self py m
      then some "self_sent_message"
      else if has_permanent_transaction_record py m
      then some "transaction_record"
      else if is_high_risk (access_alert_kind py m)
      then some "high_risk_access_alert"
      else if m.unread
          && (is_routine (access_alert_kind py m) || category_is c.category EmailCategory.security)
      then some "unread_access_alert"
      else if category_is c.category EmailCategory.banking
      then some "banking_record_or_notice"
      else if is_protected_sender
      then some "protected_sender"
      else none

  -- The guards that end in `REVIEW`.
  unfoldable pub review_reason : Option String
  review_reason =
      if has_protected_keyword
      then some "protected_keyword"
      else if policy.protect_attachments && m.has_attachment
      then some "attachment_requires_review"
      else if contains "local_model_fallback" c.reason_codes
      then some "local_model_unavailable"
      else none

  unfoldable pub decide : Datetime → Option PreferenceSnapshot → Result PolicyDecision
  decide now preference =
      if not (str_eq m.account_id policy.account_id)
      then raise (value_error "la policy non corrisponde all'account del messaggio")
      else elim protective_reason [
        | some reason ↦ keep reason
        | none ↦ elim review_reason [
          | some reason ↦ review reason
          | none ↦ decide_aged policy c m now preference (is_routine (access_alert_kind py m))
        ]
      ]
