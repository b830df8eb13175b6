-- ===== src/Obsolescence/Successor/Laws.antt =====
-- When a shipment is proved closed by its successor.
use inboxlume.Base.{◌≤◌, ◌≡◌, ◌↔◌, ◌⊎◌, true, false, String, starts_with, contains, arith}
use inboxlume.Lifecycle.Heuristic.{is_open, is_closed}
use inboxlume.Obsolescence.Proof.{proof, check_proof}
use inboxlume.Obsolescence.Laws.{verifies}
use inboxlume.Obsolescence.Successor.{
  StoredLifecycleEvidence, has_protected_utility, is_shipment, is_completed, is_completed_condition,
  successor_transition_proof,
}

-- A message that is of no use but for its shipment.
pub record OnlyShipment (e : StoredLifecycleEvidence) : Type 0 where
  pub shipment : is_shipment e.kind ≡ true
  pub open_to_cleanup : e.hard_protected ≡ false
  pub no_evidence : e.evidentiary ≡ false
  pub not_personal : e.personal ≡ false
  pub not_security : e.security ≡ false
  pub extracted : starts_with e.extractor "mlx-lifecycle:gemma26" ≡ true
  pub confident : 9 ≤ e.confidence_bucket

pub record Closed (pred succ : StoredLifecycleEvidence) (scan_profile : String) : Type 0 where
  pub profile : starts_with scan_profile "gemma26-" ≡ true
  pub before : OnlyShipment pred
  pub after : OnlyShipment succ
  pub was_open : is_open pred.state ≡ true
  pub was_operational : pred.operational ≡ true
  pub now_closed : is_closed succ.state ≡ true
  pub condition : is_completed_condition succ.condition ≡ true
  pub no_operation : succ.operational ≡ false
  pub said_so :
      ((is_completed succ.state ≡ true) × (contains "completion_language" succ.reason_codes ≡ true))
      ⊎ ((is_completed succ.state ≡ false)
          × (contains "replacement_language" succ.reason_codes ≡ true))
  pub bounded : (pred.confidence_bucket ≤ 9) ⊎ (succ.confidence_bucket ≤ 9)

-- A shipment is proved closed exactly if all of this holds: the scan profile starts with `gemma26-`; both
-- messages are shipments that no hard guard protects, of no evidentiary, personal or security use, each
-- extracted by an extractor whose name starts with `mlx-lifecycle:gemma26`, in a confidence bucket of at
-- least 9; the first was in an open state and of operational use; the second is in a closed state, its
-- condition is a completed one and it is of no operational use; it gave the reason `completion_language`
-- where its state is a completed one, and `replacement_language` where it is not; and one of the two
-- buckets is at most 9, as the bucket of the proof must be.
pub successor_verified :
    (pred succ : StoredLifecycleEvidence) (scan_profile : String)
    → (verifies (successor_transition_proof pred succ scan_profile) ≡ true)
      ↔ Closed pred succ scan_profile
unfolding successor_transition_proof proof check_proof has_protected_utility
successor_verified pred succ scan_profile = (ground arith, ground arith)
