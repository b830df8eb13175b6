-- ===== src/Obsolescence/Guarded.antt =====
-- The guards of the policy hold for the proofs too: src/inboxlume/policy.py and
-- src/inboxlume/proof_of_obsolescence.py together.
use inboxlume.Base.{
  ℕ, ◌≡◌, refl, ◌⊎◌, Bool, true, false, String, [], ◌∷◌, str_eq, Option, none, some, ok, arith, any,
  contains, intersects,
}
use inboxlume.Models.{
  Platform, Datetime, EmailCategory, EmailRecord, Classification, PreferenceSnapshot,
  PolicyDecision, category_is, action_is_keep, age_days,
}
use inboxlume.Config.{AccountPolicy}
use inboxlume.Policy.{
  Learned, decided, undecided, weigh_preference, weigh_learning, decide, protective_reason,
  review_reason, decide_aged, decide_read, decide_unread, decide_learned, decide_content,
}
use inboxlume.Policy.Protection.{IsProtected}
use inboxlume.Guardrails.{access_alert_kind, is_routine}
use inboxlume.Lifecycle.{LifecycleObservation}
use inboxlume.Obsolescence.{
  lifecycle_hard_protected, deterministic_otp_proof, deterministic_date_proof,
  multi_signal_consensus_proof,
}
use inboxlume.Obsolescence.Proof.{has_hard_policy_reason, hard_policy_reasons}
use inboxlume.Obsolescence.Laws.{verifies, otp_verified, date_verified, consensus-unprotected}

-- A single reason that is hard.
abbrev IsHard : String → Type 0
IsHard reason = has_hard_policy_reason (reason ∷ []) ≡ true

-- The reasons that `decide` gives for `KEEP`, but for a read or a young message, are hard.
IsHard-reasons :
    IsHard "protected_mailbox_flag"
    × IsHard "known_relationship"
    × IsHard "self_sent_message"
    × IsHard "transaction_record"
    × IsHard "high_risk_access_alert"
    × IsHard "unread_access_alert"
    × IsHard "banking_record_or_notice"
    × IsHard "protected_sender"
    × IsHard "similar_content_previously_kept"
    × IsHard "similar_content_opened_recently"
    × IsHard "content_requires_retention"
unfolding has_hard_policy_reason intersects any contains hard_policy_reasons
IsHard-reasons = (refl, refl, refl, refl, refl, refl, refl, refl, refl, refl, refl)

-- A call that keeps a message does so for a hard reason, or because it is read or young.
abbrev pub KeepsHard : PolicyDecision → Type 0
KeepsHard d =
    (has_hard_policy_reason d.reason_codes ≡ true)
    ⊎ (d.reason_codes ≡ "message_is_read" ∷ [])
    ⊎ (d.reason_codes ≡ "younger_than_threshold" ∷ [])

-- What holds only of messages that are not hard protected fails of one that is.
unless_open :
    {protected_message result : Bool}
    → protected_message ≡ true
    → (result ≡ true → protected_message ≡ false)
    → result ≡ false
unless_open {result = true} p f = ground (arith, f refl)
unless_open {result = false} p f = refl

module _ (c : Classification) (policy : AccountPolicy) where
  weigh_learning-KeepsHard :
      (p : Option PreferenceSnapshot) (d : PolicyDecision)
      → weigh_learning policy.learning p ≡ decided d
      → action_is_keep d.action ≡ true
      → has_hard_policy_reason d.reason_codes ≡ true
  unfolding weigh_learning weigh_preference
  weigh_learning-KeepsHard none d e k = ground arith
  weigh_learning-KeepsHard (some p) d e k = ground (arith, IsHard-reasons)

  decide_learned-KeepsHard :
      (w : Learned) (p : Option PreferenceSnapshot) (d : PolicyDecision)
      → weigh_learning policy.learning p ≡ w
      → decide_learned policy c w ≡ ok d
      → action_is_keep d.action ≡ true
      → has_hard_policy_reason d.reason_codes ≡ true
  unfolding decide_learned decide_content
  decide_learned-KeepsHard (decided w) p d e f k = ground (arith, weigh_learning-KeepsHard p d)
  decide_learned-KeepsHard (undecided b) p d e f k = ground (arith, IsHard-reasons)

  module _ (m : EmailRecord) (now : Datetime) (p : Option PreferenceSnapshot) where
    decide_aged-KeepsHard :
        (routine : Bool) (d : PolicyDecision)
        → decide_aged policy c m now p routine ≡ ok d
        → action_is_keep d.action ≡ true
        → KeepsHard d
    unfolding decide_aged decide_read decide_unread age_days
    decide_aged-KeepsHard routine d e k =
        ground (arith, decide_learned-KeepsHard (weigh_learning policy.learning p) p d)

    module _ (py : Platform) where
      -- Every `KEEP` of the policy has a reason that no proof overrides, except that a message is
      -- kept for being read or young, which a proof may override.
      pub decide-KeepsHard :
          (d : PolicyDecision)
          → decide py m c policy now p ≡ ok d
          → action_is_keep d.action ≡ true
          → KeepsHard d
      unfolding decide protective_reason review_reason
      decide-KeepsHard d e k =
          ground
            (arith, IsHard-reasons, decide_aged-KeepsHard (is_routine (access_alert_kind py m)) d)

      decide-hard_protected :
          (d : PolicyDecision)
          → decide py m c policy now p ≡ ok d
          → str_eq m.account_id policy.account_id ≡ true
          → IsProtected py m policy c
            ⊎ (category_is c.category EmailCategory.banking ≡ true)
            ⊎ ((m.unread ≡ true) × (category_is c.category EmailCategory.security ≡ true))
          → lifecycle_hard_protected py m c d ≡ true
      unfolding decide protective_reason lifecycle_hard_protected
      decide-hard_protected d e same h = ground (arith, IsHard-reasons)

      -- A message of the policy's account that it protects is never proved obsolete: not by its age
      -- as a code, not by the date of an offer, and not by the consensus of model, corrections and
      -- behaviour.
      pub protected_never_verified :
          (d : PolicyDecision) (o : LifecycleObservation) (moment : Datetime) (minimum_age_days : ℕ)
          (preference : PreferenceSnapshot)
          → decide py m c policy now p ≡ ok d
          → str_eq m.account_id policy.account_id ≡ true
          → IsProtected py m policy c
            ⊎ (category_is c.category EmailCategory.banking ≡ true)
            ⊎ ((m.unread ≡ true) × (category_is c.category EmailCategory.security ≡ true))
          → (verifies (deterministic_otp_proof py m c d o moment minimum_age_days) ≡ false)
            × (verifies (deterministic_date_proof py m c d o moment) ≡ false)
            × (verifies (multi_signal_consensus_proof py m c d preference) ≡ false)
      protected_never_verified d o moment age preference e same h =
          let hard = decide-hard_protected d e same h in
          (
            unless_open hard (λ v. ((otp_verified py m c d o moment age).0 v).not_protected),
            unless_open hard (λ v. ((date_verified py m c d o moment).0 v).not_protected),
            unless_open hard (consensus-unprotected py m c d preference),
          )
