-- ===== src/Policy/Cleanup.antt =====
-- Which messages may be proposed for quarantine: the grounds that `decide` needs, and that suffice.
use inboxlume.Base.{
  ℕ, ◌-◌, ◌/◌, ◌≤◌, ◌<◌, ◌≡◌, refl, ◌↔◌, ◌⊎◌, Bool, true, false, ◌&&◌, str_eq, Option, none, some,
  contains, ok, raise, Result, arith,
}
use inboxlume.Models.{
  Platform, Datetime, EmailCategory, EmailRecord, Classification, PreferenceSnapshot, PolicyAction,
  PolicyDecision, category_is, category_in, age_days, retention_is_protect, day,
}
use inboxlume.Config.{AccountPolicy, LearningPolicy}
use inboxlume.Guardrails.{
  has_permanent_transaction_record, access_alert_kind, is_high_risk, is_routine,
}
use inboxlume.Policy.{
  Learned, decided, undecided, weigh_preference, weigh_learning, is_cleanup_category, model_discard,
  decide_content, decide_learned, decide_unread, decide_read, decide_aged, has_protected_flag,
  is_protected_sender, has_protected_keyword, protective_reason, review_reason, decide,
  Addresses.is_sent_to_self,
}

abbrev pub proposes : PolicyDecision → Bool
proposes d = elim d.action [ PolicyAction.quarantine ↦ true | _ ↦ false ]

-- The call returns a proposal to quarantine.
abbrev pub quarantines : Result PolicyDecision → Bool
quarantines (ok d) = proposes d
quarantines (raise _) = false

abbrev pub is_undecided : Learned → Bool
is_undecided (decided _) = false
is_undecided (undecided _) = true

abbrev pub speaks_for_discard : Learned → Bool
speaks_for_discard (decided _) = false
speaks_for_discard (undecided b) = b

-- The local preferences alone never decide for quarantine.
weigh_learning-not_proposes :
    (l : LearningPolicy) (p : Option PreferenceSnapshot) (d : PolicyDecision)
    → weigh_learning l p ≡ decided d
    → proposes d ≡ false
unfolding weigh_learning weigh_preference
weigh_learning-not_proposes l none d e = ground arith
weigh_learning-not_proposes l (some p) d e = ground arith

module _ (policy : AccountPolicy) (c : Classification) where
  -- The content is cleanup material, judged so by the model or by the examples.
  pub record ContentGrounds (w : Learned) : Type 0 where
    pub undecided_so_far : is_undecided w ≡ true
    pub cleanup : is_cleanup_category c.category ≡ true
    pub not_protect : retention_is_protect c.retention ≡ false
    pub reviewed : policy.review_confidence ≤ c.confidence
    pub confident : policy.quarantine_confidence ≤ c.confidence
    pub discard : (model_discard policy c ≡ true) ⊎ (speaks_for_discard w ≡ true)

  decide_content_iff :
      (b : Bool) → (quarantines (decide_content policy c b) ≡ true) ↔ ContentGrounds (undecided b)
  unfolding decide_content
  decide_content_iff b = (ground arith, ground arith)

  module _ (preference : Option PreferenceSnapshot) where
    abbrev pub learned : Learned
    learned = weigh_learning policy.learning preference

    decide_learned_iff_at :
        (w : Learned)
        → learned ≡ w
        → (quarantines (decide_learned policy c w) ≡ true) ↔ ContentGrounds w
    unfolding decide_learned
    decide_learned_iff_at (decided d) e =
        (λ h. cc (weigh_learning-not_proposes _ preference d e), λ g. cc g.undecided_so_far)
    decide_learned_iff_at (undecided b) e = decide_content_iff b

    decide_learned_iff :
        (quarantines (decide_learned policy c learned) ≡ true) ↔ ContentGrounds learned
    decide_learned_iff = decide_learned_iff_at learned refl

  module _ (m : EmailRecord) (now : Datetime) (preference : Option PreferenceSnapshot) where
    abbrev pub age : ℕ
    age = (now.micros - m.received_at.micros) / day

    -- An unread message that is old, in no protected category, and of which neither the corrections
    -- nor the recent behaviour of the user speak for keeping.
    pub record UnreadGrounds : Type 0 where
      pub aware : now.aware ≡ true
      pub old : policy.unread_age_days ≤ age
      pub unprotected : category_in c.category policy.protected_categories ≡ false
      pub content : ContentGrounds (learned preference)

    decide_unread_iff :
        (quarantines (decide_unread policy c m now preference) ≡ true) ↔ UnreadGrounds
    unfolding decide_unread age_days
    decide_unread_iff = (
      ground (arith, (decide_learned_iff preference).0),
      ground (arith, (decide_learned_iff preference).1),
    )

    -- A code that was read, long enough ago.
    pub record CodeGrounds : Type 0 where
      pub aware : now.aware ≡ true
      pub one_time_code : category_is c.category EmailCategory.one_time_code ≡ true
      pub old : policy.read_one_time_code_age_days ≤ age
      pub confident : policy.quarantine_confidence ≤ c.confidence

    -- A routine access alert that was read, long enough ago.
    pub record AlertGrounds (routine : Bool) : Type 0 where
      pub aware : now.aware ≡ true
      pub is_alert : routine ≡ true
      pub old : policy.read_routine_access_alert_age_days ≤ age
      pub confident : policy.quarantine_confidence ≤ c.confidence

    decide_read_iff : (quarantines (decide_read policy c m now preference) ≡ true) ↔ CodeGrounds
    unfolding decide_read age_days
    decide_read_iff = (ground arith, ground arith)

    -- An expired alert, or, where no expired alert decides the matter, an expired code.
    abbrev pub ReadGrounds : Bool → Type 0
    ReadGrounds routine =
        AlertGrounds routine
        ⊎ (CodeGrounds × ((routine ≡ false) ⊎ (age < policy.read_routine_access_alert_age_days)))

    decide_aged_iff :
        (routine : Bool)
        → (quarantines (decide_aged policy c m now preference routine) ≡ true)
          ↔ ((m.unread ≡ true) × UnreadGrounds ⊎ (m.unread ≡ false) × ReadGrounds routine)
    unfolding decide_aged age_days
    decide_aged_iff routine = (
      ground (arith, decide_read_iff.0, decide_unread_iff.0),
      ground (arith, decide_read_iff.1, decide_unread_iff.1),
    )

module _ (py : Platform) (m : EmailRecord) (c : Classification) (policy : AccountPolicy) where
  -- No deterministic guard speaks for the message.
  pub record Unguarded : Type 0 where
    pub same_account : str_eq m.account_id policy.account_id ≡ true
    pub no_flag : has_protected_flag py m c policy ≡ false
    pub no_contact : m.known_contact ≡ false
    pub no_reply : m.user_replied ≡ false
    pub not_self_sent : is_sent_to_self py m ≡ false
    pub no_record : has_permanent_transaction_record py m ≡ false
    pub not_high_risk : is_high_risk (access_alert_kind py m) ≡ false
    pub unread_alert : m.unread ≡ true → is_routine (access_alert_kind py m) ≡ false
    pub unread_security : m.unread ≡ true → category_is c.category EmailCategory.security ≡ false
    pub not_banking : category_is c.category EmailCategory.banking ≡ false
    pub sender_unprotected : is_protected_sender py m c policy ≡ false
    pub no_keyword : has_protected_keyword py m c policy ≡ false
    pub no_attachment : (policy.protect_attachments && m.has_attachment) ≡ false
    pub model_available : contains "local_model_fallback" c.reason_codes ≡ false

  Unguarded_iff : Unguarded ↔ (
      (str_eq m.account_id policy.account_id ≡ true)
      × (protective_reason py m c policy ≡ none)
      × (review_reason py m c policy ≡ none))
  unfolding protective_reason review_reason
  Unguarded_iff = (ground arith, ground arith)

  -- A message is proposed for quarantine exactly if no guard speaks for it and it is an unread
  -- message with grounds in its age and content, or a read one with grounds in its age.
  pub decide-quarantines :
      (now : Datetime) (preference : Option PreferenceSnapshot)
      → (quarantines (decide py m c policy now preference) ≡ true) ↔ (
          Unguarded
          × ((m.unread ≡ true) × UnreadGrounds policy c m now preference
              ⊎ (m.unread ≡ false)
                × ReadGrounds policy c m now preference (is_routine (access_alert_kind py m))))
  unfolding decide
  decide-quarantines now preference = (
    ground (
      arith,
      Unguarded_iff.1,
      (decide_aged_iff policy c m now preference (is_routine (access_alert_kind py m))).0,
    ),
    ground (
      arith,
      Unguarded_iff.0,
      (decide_aged_iff policy c m now preference (is_routine (access_alert_kind py m))).1,
    ),
  )
