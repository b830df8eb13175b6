-- ===== src/Pipeline/Laws.antt =====
-- src/inboxlume/pipeline.py: what holds of every candidate that a selection returns.
use inboxlume.Base.{
  ℕ, ◌≡◌, refl, ◌⊎◌, inl, inr, Bool, true, false, String, List, str_eq, Option, none, some, ok,
  Returns, All, bind_ok, subst, arith, Bool-cases, Option-cases, eq_iff,
}
use inboxlume.Models.{Platform, Datetime, category_in}
use inboxlume.Config.{AccountPolicy}
use inboxlume.Obsolescence.Proof.{has_hard_policy_reason}
use inboxlume.Pipeline.{
  PreferenceStore, ReadOnlyMailbox, InboxMutationCandidate, SelectionOptions, is_state, is_answer,
  categories, category_from, cleanup_review_categories, is_refused, proves, answer_of,
  hard_protected, record_of, executed, is_verified_proposal, reviewed_cleanup, is_pending_record,
  is_pending, search_dates, prepare_verified_quarantine_candidates,
  prepare_automatic_quarantine_candidates,
}
use inboxlume.Pipeline.Search.{Accepted, search_candidates-Accepted, All-map}

module _ (store : PreferenceStore) (policy : AccountPolicy)
    (scan_profile fingerprint : String) where
  -- What holds of every message that may be moved, of a kind.
  pub record Untouched (disabled : Bool) (c : InboxMutationCandidate) : Type 0 where
    pub same_state :
        store.shadow_recovery_expected_unread policy.account_id policy.provider c.message_id
          scan_profile fingerprint
        ≡ some c.expected_unread
    pub assessed :
        store.has_threat_assessment_id policy.account_id policy.provider c.message_id scan_profile
          disabled
        ≡ true
    pub not_executed : executed store policy scan_profile fingerprint c.message_id ≡ false

  is_state-some : (o : Option Bool) (b : Bool) → is_state o b ≡ true → o ≡ some b
  is_state-some none b h = ground arith
  is_state-some (some true) true h = refl
  is_state-some (some true) false h = ground arith
  is_state-some (some false) true h = ground arith
  is_state-some (some false) false h = refl

  is_pending-Untouched :
      (options : SelectionOptions) (c : InboxMutationCandidate)
      → Accepted (is_pending store policy scan_profile fingerprint options) c
      → Untouched options.allow_disabled_threat_assessment c
        × (store.threat_protects_message_id policy.account_id policy.provider c.message_id
              scan_profile
            ≡ false)
  unfolding is_pending
  is_pending-Untouched options c h = (
    record {
      same_state = is_state-some _ c.expected_unread (ground arith);
      assessed = ground arith;
      not_executed = ground arith;
    },
    ground arith,
  )

  -- What authorises a move, for a recorded category and action.
  abbrev pub Grounds : SelectionOptions → String → String → String → Type 0
  Grounds options id category action =
      ((str_eq action "quarantine" ≡ true)
        × (hard_protected store policy scan_profile fingerprint id ≡ false))
      ⊎ ((options.include_verified_obsolescence ≡ true)
          × (proves (
                store.obsolescence_proof_for_message_id policy.account_id policy.provider id
                  scan_profile)
              ≡ true)
          × (has_hard_policy_reason (
                store.shadow_reason_codes_for_message_id policy.account_id policy.provider id
                  scan_profile)
              ≡ false))
      ⊎ ((str_eq action "review" ≡ true)
          × (Returns (category_from category categories)
              (λ found. category_in found cleanup_review_categories ≡ true))
          × (hard_protected store policy scan_profile fingerprint id ≡ false)
          × (is_answer "dont_keep" (answer_of store policy scan_profile fingerprint id) ≡ true))

  reviewed_cleanup-Grounds :
      (options : SelectionOptions) (id category action : String)
      → reviewed_cleanup store policy scan_profile fingerprint options id category action ≡ ok true
      → Grounds options id category action
  unfolding reviewed_cleanup
  reviewed_cleanup-Grounds options id category action h =
      inr (inr (ground arith, ground arith, ground arith, ground arith))

  is_pending_record-Grounds :
      (options : SelectionOptions) (id category action : String)
      → is_pending_record store policy scan_profile fingerprint options id category action ≡ ok true
      → Grounds options id category action
        × (is_refused options.allowed_categories category ≡ false)
        × (is_answer "keep" (answer_of store policy scan_profile fingerprint id) ≡ false)
        × (is_answer "unsure" (answer_of store policy scan_profile fingerprint id) ≡ false)
  unfolding is_pending_record
  is_pending_record-Grounds options id category action h =
      let reviewed =
        bind_ok (reviewed_cleanup store policy scan_profile fingerprint options id category action)
          _ true h in
      elim (Bool-cases reviewed.0) [
        | inl k ↦ (
          reviewed_cleanup-Grounds options id category action (
              subst
                (λ b.
                  reviewed_cleanup store policy scan_profile fingerprint options id category action
                  ≡ ok b)
                k reviewed.1),
          ground (arith, reviewed.2),
          ground (arith, reviewed.2),
          ground (arith, reviewed.2),
        )
        | inr k ↦ (
          ground (arith, reviewed.2, k),
          ground (arith, reviewed.2),
          ground (arith, reviewed.2),
          ground (arith, reviewed.2),
        )
      ]

  -- A message that may be moved without being asked for again: nothing about it changed, no threat
  -- protects it, its owner did not answer keep or unsure, and it has grounds.
  pub record Pending (options : SelectionOptions) (c : InboxMutationCandidate) : Type 0 where
    pub untouched : Untouched options.allow_disabled_threat_assessment c
    pub no_threat :
        store.threat_protects_message_id policy.account_id policy.provider c.message_id scan_profile
        ≡ false
    pub category : String
    pub action : String
    pub recorded :
        record_of store policy scan_profile fingerprint c.message_id ≡ some (category, action)
    pub grounds : Grounds options c.message_id category action
    pub allowed : is_refused options.allowed_categories category ≡ false
    pub not_kept :
        is_answer "keep" (answer_of store policy scan_profile fingerprint c.message_id) ≡ false
    pub not_unsure :
        is_answer "unsure" (answer_of store policy scan_profile fingerprint c.message_id) ≡ false

  is_pending-Pending :
      (options : SelectionOptions) (c : InboxMutationCandidate)
      → Accepted (is_pending store policy scan_profile fingerprint options) c
      → Pending options c
  unfolding is_pending
  is_pending-Pending options c h =
      elim (Option-cases (record_of store policy scan_profile fingerprint c.message_id)) [
        | inl e ↦ ground (arith, h, e)
        | inr ((category, action), e) ↦
            let untouched = is_pending-Untouched options c h in
            let grounds =
              is_pending_record-Grounds options c.message_id category action
                (ground (arith, h, e)) in
            record {
              untouched = untouched.0;
              no_threat = untouched.1;
              category = category;
              action = action;
              recorded = e;
              grounds = grounds.0;
              allowed = grounds.1;
              not_kept = grounds.2;
              not_unsure = grounds.3;
            }
      ]

  -- A message that its owner reviewed: nothing about it changed, it is proposed for quarantine, and
  -- its owner answered not to keep it.
  pub record Confirmed (c : InboxMutationCandidate) : Type 0 where
    pub untouched : Untouched false c
    pub category : String
    pub recorded :
        record_of store policy scan_profile fingerprint c.message_id ≡ some (category, "quarantine")
    pub not_wanted :
        is_answer "dont_keep" (answer_of store policy scan_profile fingerprint c.message_id) ≡ true

  is_verified_proposal-Untouched :
      (c : InboxMutationCandidate)
      → Accepted (is_verified_proposal store policy scan_profile fingerprint) c
      → Untouched false c
  unfolding is_verified_proposal
  is_verified_proposal-Untouched c h = record {
    same_state = is_state-some _ c.expected_unread (ground arith);
    assessed = ground arith;
    not_executed = ground arith;
  }

  is_verified_proposal-Confirmed :
      (c : InboxMutationCandidate)
      → Accepted (is_verified_proposal store policy scan_profile fingerprint) c
      → Confirmed c
  unfolding is_verified_proposal
  is_verified_proposal-Confirmed c h =
      elim (Option-cases (record_of store policy scan_profile fingerprint c.message_id)) [
        | inl e ↦ ground (arith, h, e)
        | inr ((category, action), e) ↦ record {
          untouched = is_verified_proposal-Untouched c h;
          category = category;
          recorded =
              subst
                (λ a.
                  record_of store policy scan_profile fingerprint c.message_id ≡ some (category, a))
                ((eq_iff action "quarantine").0 (ground (arith, h, e))) e;
          not_wanted = ground (arith, h, e);
        }
      ]

module _ (py : Platform) (policy : AccountPolicy) (mailbox : ReadOnlyMailbox)
    (store : PreferenceStore) (now : Datetime) (limit search_limit : ℕ)
    (scan_profile fingerprint : String) where
  -- Whatever messages a mailbox shows and returns, every candidate for an automatic move has a
  -- recorded proposal with grounds, the read state for which it was proposed, a threat assessment
  -- that does not protect it, no earlier move, and no answer of its owner to keep it.
  pub prepare_automatic_quarantine_candidates-Pending :
      (options : SelectionOptions) (found : List InboxMutationCandidate)
      → prepare_automatic_quarantine_candidates py policy mailbox store now limit search_limit
          scan_profile fingerprint options
        ≡ ok found
      → All (Pending store policy scan_profile fingerprint options) found
  unfolding prepare_automatic_quarantine_candidates
  prepare_automatic_quarantine_candidates-Pending options found e =
      All-map found (is_pending-Pending store policy scan_profile fingerprint options) (
        search_candidates-Accepted py mailbox (search_dates policy now) limit search_limit _ found
          (ground (arith, e)))

  -- Whatever messages a mailbox shows and returns, every candidate of the pilot is a recorded proposal
  -- to quarantine that its owner answered not to keep, with the read state for which it was
  -- proposed, a threat assessment and no earlier move.
  pub prepare_verified_quarantine_candidates-Confirmed :
      (found : List InboxMutationCandidate)
      → prepare_verified_quarantine_candidates py policy mailbox store now limit search_limit
          scan_profile fingerprint
        ≡ ok found
      → All (Confirmed store policy scan_profile fingerprint) found
  unfolding prepare_verified_quarantine_candidates
  prepare_verified_quarantine_candidates-Confirmed found e =
      All-map found (is_verified_proposal-Confirmed store policy scan_profile fingerprint) (
        search_candidates-Accepted py mailbox (search_dates policy now) limit search_limit _ found
          (ground (arith, e)))
