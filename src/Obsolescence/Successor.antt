-- ===== src/Obsolescence/Successor.antt =====
-- src/inboxlume/proof_of_obsolescence.py: `successor_transition_proof`, from stored evidence.
pub mod Laws
use inboxlume.Base.{
  ℕ, ◌≤◌, ◌≡◌, ◌↔◌, Bool, true, false, ◌&&◌, ◌||◌, not, String, List, [], ◌∷◌, leb, min,
  starts_with, if◌then◌else◌, contains, Option, none, some, ok, Result, arith,
}
use inboxlume.Lifecycle.{UtilityKind, LifecycleState, LifecycleCondition}
use inboxlume.Lifecycle.Heuristic.{is_open, is_closed}
use inboxlume.Obsolescence.Proof.{ProofStatus, ClosureWitness, ObsolescenceProof, codes, proof}

pub record StoredLifecycleEvidence : Type 0 where
  pub kind : UtilityKind
  pub state : LifecycleState
  pub condition : LifecycleCondition
  pub operational : Bool
  pub evidentiary : Bool
  pub personal : Bool
  pub security : Bool
  pub hard_protected : Bool
  pub confidence_bucket : ℕ
  pub reason_codes : List String
  pub extractor : String

unfoldable pub has_protected_utility : StoredLifecycleEvidence → Bool
has_protected_utility e = e.evidentiary || e.personal || e.security

abbrev pub is_shipment : UtilityKind → Bool
is_shipment UtilityKind.shipment = true
is_shipment _ = false

abbrev pub is_completed : LifecycleState → Bool
is_completed LifecycleState.completed = true
is_completed _ = false

abbrev pub is_completed_condition : LifecycleCondition → Bool
is_completed_condition LifecycleCondition.completed_condition = true
is_completed_condition _ = false

module _ (pred succ : StoredLifecycleEvidence) (scan_profile : String) where
  abbrev pub supported_model : Bool
  supported_model = starts_with scan_profile "gemma26-"

  abbrev pub model_consensus : Bool
  model_consensus =
      starts_with pred.extractor "mlx-lifecycle:gemma26"
      && starts_with succ.extractor "mlx-lifecycle:gemma26"
      && leb 9 pred.confidence_bucket
      && leb 9 succ.confidence_bucket

  abbrev pub predecessor_open : Bool
  predecessor_open = is_open pred.state && pred.operational

  abbrev pub successor_closed : Bool
  successor_closed =
      is_closed succ.state && is_completed_condition succ.condition && not succ.operational

  abbrev pub language_witness : Bool
  language_witness =
      if is_completed succ.state
      then contains "completion_language" succ.reason_codes
      else contains "replacement_language" succ.reason_codes

  abbrev pub protected_pair : Bool
  protected_pair =
      pred.hard_protected
      || succ.hard_protected
      || has_protected_utility pred
      || has_protected_utility succ

  abbrev pub bucket : ℕ
  bucket = min pred.confidence_bucket succ.confidence_bucket

  unfoldable pub successor_transition_proof : Result (Option ObsolescenceProof)
  successor_transition_proof =
      if not (is_shipment pred.kind) || not (is_shipment succ.kind)
      then proof ProofStatus.insufficient_evidence ClosureWitness.no_witness
          (codes ("unsupported_lifecycle_family" ∷ [])) bucket
      else if protected_pair
      then proof ProofStatus.blocked_protected_utility ClosureWitness.no_witness
          (codes ("protected_utility_remains" ∷ [])) bucket
      else if supported_model && model_consensus && predecessor_open && successor_closed
          && language_witness
      then proof ProofStatus.verified
          (if is_completed succ.state
            then ClosureWitness.successor_completed
            else ClosureWitness.successor_replaced)
          (codes ("opaque_relation_match" ∷ "ordered_successor" ∷ "no_protected_utility" ∷ []))
          bucket
      else proof ProofStatus.insufficient_evidence ClosureWitness.no_witness
          (codes ("successor_closure_not_verified" ∷ [])) bucket
