-- ===== src/Obsolescence/Laws.antt =====
-- When each proof is verified, and what the dated one does otherwise.
use inboxlume.Base.{
  ℕ, ◌-◌, ◌/◌, ◌≤◌, ◌<◌, ◌≡◌, ◌≢◌, refl, ◌↔◌, ◌⊎◌, Bool, true, false, ◌||◌, List, [], ◌∷◌, leb, ltb,
  ◌==◌, Option, none, some, ok, raise, Result, arith, length, all, is_none,
}
use inboxlume.Models.{
  Platform, Datetime, EmailCategory, EmailRecord, Classification, PreferenceSnapshot,
  PolicyDecision, PolicyAction, RetentionSignal, category_is, age_days, day,
}
use inboxlume.Lifecycle.{LifecycleObservation}
use inboxlume.Lifecycle.Heuristic.{is_code, is_promotion, expired_before}
use inboxlume.Lifecycle.Dates.{expiry_dates, latest, verified_expiry_date}
use inboxlume.Obsolescence.{
  lifecycle_hard_protected, bucket_of, deterministic_otp_proof, deterministic_date_proof,
  multi_signal_consensus_proof,
}
use inboxlume.Obsolescence.Proof.{
  ObsolescenceProof, is_verified, proof, check_proof, has_hard_policy_reason,
}
use inboxlume.Guardrails.{has_permanent_transaction_record, access_alert_kind, is_high_risk}

-- The call returns a verified proof.
abbrev pub verifies : Result (Option ObsolescenceProof) → Bool
verifies (ok (some p)) = is_verified p.status
verifies (ok none) = false
verifies (raise _) = false

latest-before :
    (today : ℕ) (ds : List ℕ)
    → all (λ date. ltb date today) ds ≡ (is_none (latest ds) || expired_before (latest ds) today)
unfolding latest all
latest-before today [] = refl
latest-before today (d ∷ ds) = ground (arith, latest-before today ds)

latest-exists : (ds : List ℕ) → is_none (latest ds) ≡ (length ds == 0)
unfolding latest
latest-exists [] = refl
latest-exists (d ∷ ds) = ground arith

-- The latest of some dates is before today exactly if there is a date and each is before today.
expired_before-latest :
    (today : ℕ) (ds : List ℕ)
    → (expired_before (latest ds) today ≡ true)
      ↔ ((0 < length ds) × (all (λ date. ltb date today) ds ≡ true))
expired_before-latest today ds = (
  ground (arith, latest-before today ds, latest-exists ds),
  ground (arith, latest-before today ds, latest-exists ds),
)

module _ (py : Platform) (m : EmailRecord) (c : Classification) (d : PolicyDecision) where
  module _ (o : LifecycleObservation) (now : Datetime) where
    -- A code has lost its use: it was read, it is old enough, nothing else keeps it of use.
    pub record CodeExpired (minimum_age_days : ℕ) : Type 0 where
      pub code_kind : is_code o.kind ≡ true
      pub not_protected : lifecycle_hard_protected py m c d ≡ false
      pub code_category : category_is c.category EmailCategory.one_time_code ≡ true
      pub confident : 800000 ≤ c.confidence
      pub was_read : m.unread ≡ false
      pub aware : now.aware ≡ true
      pub old : minimum_age_days ≤ (now.micros - m.received_at.micros) / day
      pub no_evidence : o.utility.evidentiary ≡ false
      pub not_personal : o.utility.personal ≡ false

    -- A code is proved expired exactly if all of this holds: the observation is of a one-time code and the
    -- category is `one_time_code` with a confidence of at least 0.80; the message was read, the moment
    -- knows its zone, and the age in days is at least the configured one; the observed use is neither
    -- evidentiary nor personal; and no hard guard speaks for the message. The observed lifecycle state
    -- and the security and operational use are not asked.
    pub otp_verified :
        (minimum_age_days : ℕ)
        → (verifies (deterministic_otp_proof py m c d o now minimum_age_days) ≡ true)
          ↔ CodeExpired minimum_age_days
    unfolding deterministic_otp_proof proof check_proof age_days
    otp_verified minimum_age_days = (ground arith, ground arith)

    pub record PromotionExpired : Type 0 where
      pub promotion_kind : is_promotion o.kind ≡ true
      pub not_protected : lifecycle_hard_protected py m c d ≡ false
      pub aware : now.aware ≡ true
      pub dated : 0 < length (expiry_dates py m)
      pub all_past : all (λ date. ltb date now.date) (expiry_dates py m) ≡ true
      pub advertising : category_is c.category EmailCategory.advertising ≡ true
      pub confident : 900000 ≤ c.confidence
      pub of_no_use :
          (o.utility.operational ≡ false)
          × (o.utility.evidentiary ≡ false)
          × (o.utility.personal ≡ false)
          × (o.utility.security ≡ false)

    bucket_fits : leb (bucket_of o.confidence) 9 ≡ true
    bucket_fits = ground arith

    pub date_verified :
        (verifies (deterministic_date_proof py m c d o now) ≡ true) ↔ PromotionExpired
    unfolding deterministic_date_proof proof check_proof verified_expiry_date
    date_verified = (
      ground (arith, bucket_fits, expired_before-latest now.date (expiry_dates py m)),
      ground (arith, bucket_fits, expired_before-latest now.date (expiry_dates py m)),
    )

  pub record ConsensusReached (p : PreferenceSnapshot) : Type 0 where
    pub supported :
        (c.category ≡ EmailCategory.advertising)
        ⊎ ((c.category ≡ EmailCategory.social) ⊎ (c.category ≡ EmailCategory.spam))
    pub no_hard_reason : has_hard_policy_reason d.reason_codes ≡ false
    pub no_attachment : m.has_attachment ≡ false
    pub no_record : has_permanent_transaction_record py m ≡ false
    pub no_high_risk : is_high_risk (access_alert_kind py m) ≡ false
    pub not_kept : d.action ≢ PolicyAction.keep
    pub discard : c.retention ≡ RetentionSignal.discard_candidate
    pub confident : 900000 ≤ c.confidence
    pub sure_to_discard : 900000 ≤ c.retention_confidence
    pub like_unwanted : 900000 ≤ p.dont_keep_similarity
    pub unwanted_examples : 3 ≤ p.dont_keep_similar_examples
    pub unlike_kept : p.keep_similarity ≤ 350000
    pub no_kept_example : p.keep_similar_examples ≡ 0
    pub low_interest : p.recent_content_score ≤ 200000
    pub enough_evidence : 3000000 ≤ p.recent_content_evidence
    pub recent_examples : 3 ≤ p.recent_content_examples

  -- No hard guard stands against a consensus.
  pub consensus-unprotected :
      (p : PreferenceSnapshot)
      → verifies (multi_signal_consensus_proof py m c d p) ≡ true
      → lifecycle_hard_protected py m c d ≡ false
  unfolding multi_signal_consensus_proof proof check_proof
  consensus-unprotected p e = ground (arith, e)
