-- ===== src/Policy/Protection.antt =====
-- Which messages are kept whatever the classifier says, and when `decide` returns.
use inboxlume.Base.{
  ◌≤◌, ◌<◌, ◌≡◌, refl, ◌⊎◌, Bool, true, false, ◌&&◌, not, leb, str_eq, Option, none, some, ok,
  raise, Result, value_error, Returns, arith, length,
}
use inboxlume.Models.{
  Platform, Datetime, EmailCategory, EmailRecord, Classification, PreferenceSnapshot,
  PolicyDecision, category_is, age_days, changes_mailbox, action_is_keep,
}
use inboxlume.Config.{AccountPolicy}
use inboxlume.Guardrails.{
  has_permanent_transaction_record, access_alert_kind, is_high_risk, is_routine,
}
use inboxlume.Policy.{
  weigh_preference, weigh_learning, decide_content, decide_learned, decide_unread, decide_read,
  decide_aged, has_protected_flag, is_protected_sender, protective_reason, decide,
  Addresses.is_sent_to_self,
}

abbrev pub keeps : Result PolicyDecision → Bool
keeps (ok d) = action_is_keep d.action
keeps (raise _) = false

module _ (py : Platform) (m : EmailRecord) (policy : AccountPolicy) where
  -- What protects a message with no regard to its classification.
  abbrev pub IsProtected : Classification → Type 0
  IsProtected c =
      (has_protected_flag py m c policy ≡ true)
      ⊎ (m.known_contact ≡ true)
      ⊎ (m.user_replied ≡ true)
      ⊎ (is_sent_to_self py m ≡ true)
      ⊎ (has_permanent_transaction_record py m ≡ true)
      ⊎ (is_high_risk (access_alert_kind py m) ≡ true)
      ⊎ ((m.unread ≡ true) × (is_routine (access_alert_kind py m) ≡ true))
      ⊎ (is_protected_sender py m c policy ≡ true)

  -- A protected message of the policy's account is kept, for every classification, preference and
  -- moment; so is one that is classified as banking, or unread and classified as security.
  pub decide-keeps :
      (c : Classification) (now : Datetime) (preference : Option PreferenceSnapshot)
      → str_eq m.account_id policy.account_id ≡ true
      → IsProtected c
        ⊎ (category_is c.category EmailCategory.banking ≡ true)
        ⊎ ((m.unread ≡ true) × (category_is c.category EmailCategory.security ≡ true))
      → keeps (decide py m c policy now preference) ≡ true
  unfolding decide protective_reason
  decide-keeps c now preference same h = ground arith

  -- What every decision is: a proposal, for one or two reasons, that changes no mailbox.
  abbrev pub IsProposal : PolicyDecision → Type 0
  IsProposal d =
      (d.dry_run ≡ true)
      × (changes_mailbox d ≡ false)
      × (0 < length d.reason_codes)
      × (length d.reason_codes ≤ 2)

  -- A dry run is what the preferences decide on too.
  proposal : Result PolicyDecision → Bool
  proposal (ok d) =
      d.dry_run
      && not (changes_mailbox d)
      && leb 1 (length d.reason_codes)
      && leb (length d.reason_codes) 2
  proposal (raise _) = false

  decide_learned-proposal :
      (c : Classification) (preference : Option PreferenceSnapshot)
      → proposal (decide_learned policy c (weigh_learning policy.learning preference)) ≡ true
  unfolding decide_learned decide_content weigh_learning weigh_preference proposal changes_mailbox
  decide_learned-proposal c none = ground arith
  decide_learned-proposal c (some p) = ground arith

  decide_aged-proposal :
      (c : Classification) (now : Datetime) (preference : Option PreferenceSnapshot)
      (routine : Bool)
      → now.aware ≡ true
      → proposal (decide_aged policy c m now preference routine) ≡ true
  unfolding decide_aged decide_read decide_unread age_days proposal changes_mailbox
  decide_aged-proposal c now preference routine h =
      ground (arith, decide_learned-proposal c preference)

  proposal-IsProposal : (r : Result PolicyDecision) → proposal r ≡ true → Returns r IsProposal
  unfolding proposal
  proposal-IsProposal (ok d) h = ground arith
  proposal-IsProposal (raise e) h = cc h

  decide-proposal :
      (c : Classification) (now : Datetime) (preference : Option PreferenceSnapshot)
      → now.aware ≡ true
      → str_eq m.account_id policy.account_id ≡ true
      → proposal (decide py m c policy now preference) ≡ true
  unfolding decide proposal changes_mailbox
  decide-proposal c now preference h same =
      ground (arith, decide_aged-proposal c now preference (is_routine (access_alert_kind py m)) h)

  -- The answer to a policy of the message's account, or of another one.
  abbrev pub Answers : Bool → Result PolicyDecision → Type 0
  Answers true r = Returns r IsProposal
  Answers false r = r ≡ raise (value_error "la policy non corrisponde all'account del messaggio")

  at-Answers :
      (c : Classification) (now : Datetime) (preference : Option PreferenceSnapshot) (same : Bool)
      → now.aware ≡ true
      → str_eq m.account_id policy.account_id ≡ same
      → Answers same (decide py m c policy now preference)
  at-Answers c now preference true h e =
      proposal-IsProposal _ (decide-proposal c now preference h e)
  at-Answers c now preference false h e = unfold decide in rw e

  -- At a moment with a time zone `decide` returns a proposal if the policy is of the message's
  -- account, and raises if it is of another one.
  pub decide-Answers :
      (c : Classification) (now : Datetime) (preference : Option PreferenceSnapshot)
      → now.aware ≡ true
      → Answers (str_eq m.account_id policy.account_id) (decide py m c policy now preference)
  decide-Answers c now preference h = at-Answers c now preference _ h refl
