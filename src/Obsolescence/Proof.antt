-- ===== src/Obsolescence/Proof.antt =====
-- src/inboxlume/proof_of_obsolescence.py: the proofs, their check, and the reasons of the policy that
-- no proof overrides.
use Prim.Native.String.{count}
use inboxlume.Base.{
  ℕ, Bool, true, false, ◌&&◌, not, String, List, [], ◌∷◌, leb, intersects, length, Option, some, ok,
  Result, require, ◌>>=◌, ◌>>◌,
}

pub data ProofStatus : Type 0 where
  verified blocked_protected_utility insufficient_evidence : ProofStatus

pub data ClosureWitness : Type 0 where
  deterministic_otp_expiry successor_completed successor_replaced : ClosureWitness
  verified_date_elapsed multi_signal_consensus no_witness : ClosureWitness

pub data ProofDestination : Type 0 where
  quarantine : ProofDestination

-- What a caller passes as `reason_codes`: a tuple of texts, or a single text, of which `len` counts
-- the characters.
pub data Reasons : Type 0 where
  codes : List String → Reasons
  text : String → Reasons

abbrev pub len : Reasons → ℕ
len (codes xs) = length xs
len (text s) = count s

pub record ObsolescenceProof : Type 0 where
  pub status : ProofStatus
  pub witness : ClosureWitness
  pub maximum_destination : ProofDestination
  pub reason_codes : Reasons
  pub confidence_bucket : ℕ

abbrev pub is_verified : ProofStatus → Bool
is_verified ProofStatus.verified = true
is_verified _ = false

abbrev pub is_no_witness : ClosureWitness → Bool
is_no_witness ClosureWitness.no_witness = true
is_no_witness _ = false

-- `ObsolescenceProof.__post_init__`
unfoldable pub check_proof : ObsolescenceProof → Result ObsolescenceProof
check_proof p = do
  require (leb p.confidence_bucket 9) "invalid proof confidence bucket"
  require (leb 1 (len p.reason_codes) && leb (len p.reason_codes) 6) "invalid proof reason count"
  require (not (is_verified p.status && is_no_witness p.witness))
      "a verified proof needs a closure witness"
  ok p

-- `ObsolescenceProof(...)`, as every function below calls it.
unfoldable pub proof :
    ProofStatus → ClosureWitness → Reasons → ℕ → Result (Option ObsolescenceProof)
proof status witness reasons bucket = do
  p ← check_proof (record {
    status = status;
    witness = witness;
    maximum_destination = ProofDestination.quarantine;
    reason_codes = reasons;
    confidence_bucket = bucket;
  })
  ok (some p)

unfoldable pub hard_policy_reasons : List String
hard_policy_reasons =
    "protected_mailbox_flag" ∷ "known_relationship" ∷ "self_sent_message" ∷ "transaction_record"
    ∷ "high_risk_access_alert" ∷ "unread_access_alert" ∷ "banking_record_or_notice"
    ∷ "protected_sender" ∷ "protected_keyword" ∷ "protected_category" ∷ "attachment_requires_review"
    ∷ "conflicting_similar_examples" ∷ "similar_content_previously_kept"
    ∷ "recent_behavior_conflicts_with_explicit_feedback" ∷ "similar_content_opened_recently"
    ∷ "content_requires_retention" ∷ "uncertain_content_retention" ∷ "threat_protective_review" ∷ []

unfoldable pub has_hard_policy_reason : List String → Bool
has_hard_policy_reason reasons = intersects reasons hard_policy_reasons
