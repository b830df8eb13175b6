-- ===== src/Lifecycle.antt =====
-- src/inboxlume/lumegraph.py: the kinds and states of what a message is good for, and the filter
-- that finds messages with a life cycle.
pub mod Terms
pub mod Dates
pub mod Heuristic
pub mod Laws
use Prim.Native.String.{count}
use inboxlume.Base.{
  ℕ, Bool, true, false, ◌&&◌, ◌||◌, not, String, ◌<>◌, List, [], ◌∷◌, leb, if◌then◌else◌,
  any_occurs, contains, all, length, ok, Result, require, ◌>>=◌, ◌>>◌,
}
use inboxlume.Models.{
  Platform, EmailCategory, EmailRecord, Classification, category_is, unit, is_blank,
}
use Terms.{
  lifecycle_reason_codes, otp_terms, security_flow_terms, payment_terms, invoice_terms,
  shipment_terms, reservation_terms, order_terms, promotion_terms,
}

pub data UtilityKind : Type 0 where
  none one_time_code order shipment reservation invoice payment security_flow promotion :
      UtilityKind

pub data LifecycleState : Type 0 where
  active pending completed replaced expired uncertain : LifecycleState

pub data DateRelation : Type 0 where
  none past today future uncertain : DateRelation

pub data LifecycleCondition : Type 0 where
  none user_action_required external_action_pending time_bound : LifecycleCondition
  completed_condition uncertain : LifecycleCondition

pub data TransitionKind : Type 0 where
  updates completes replaces expires : TransitionKind

pub record UtilityVector : Type 0 where
  pub operational : Bool
  pub evidentiary : Bool
  pub personal : Bool
  pub security : Bool

pub record LifecycleObservation : Type 0 where
  pub kind : UtilityKind
  pub state : LifecycleState
  pub utility : UtilityVector
  pub date_relation : DateRelation
  pub condition : LifecycleCondition
  pub confidence : ℕ
  pub reason_codes : List String
  pub extractor : String

abbrev pub is_no_kind : UtilityKind → Bool
is_no_kind UtilityKind.none = true
is_no_kind _ = false

-- `LifecycleObservation.__post_init__`
unfoldable pub check_observation : Platform → LifecycleObservation → Result LifecycleObservation
check_observation py o = do
  require (not (is_no_kind o.kind)) "a stored lifecycle observation needs a utility kind"
  require (leb o.confidence unit) "lifecycle confidence must be between zero and one"
  require (not (is_blank py.is_space o.extractor) && leb (count o.extractor) 100)
      "invalid lifecycle extractor"
  require
      (leb (length o.reason_codes) 6
        && all (λ code. contains code lifecycle_reason_codes) o.reason_codes)
      "invalid lifecycle reason codes"
  ok o

module _ (py : Platform) where
  unfoldable pub message_text : EmailRecord → String
  message_text m = py.casefold (m.subject <> ("\n" <> m.body_text))

  unfoldable pub lifecycle_candidate_kind : EmailRecord → Classification → UtilityKind
  lifecycle_candidate_kind m c =
      let text = " " <> (message_text m <> " ") in
      if category_is c.category EmailCategory.one_time_code || any_occurs otp_terms text
      then UtilityKind.one_time_code
      else if any_occurs security_flow_terms text
      then UtilityKind.security_flow
      else if any_occurs payment_terms text
      then UtilityKind.payment
      else if any_occurs invoice_terms text
      then UtilityKind.invoice
      else if any_occurs shipment_terms text
      then UtilityKind.shipment
      else if any_occurs reservation_terms text
      then UtilityKind.reservation
      else if any_occurs order_terms text
      then UtilityKind.order
      else if category_is c.category EmailCategory.advertising && any_occurs promotion_terms text
      then UtilityKind.promotion
      else UtilityKind.none

unfoldable pub transition_for_state : LifecycleState → TransitionKind
transition_for_state LifecycleState.completed = TransitionKind.completes
transition_for_state LifecycleState.replaced = TransitionKind.replaces
transition_for_state LifecycleState.expired = TransitionKind.expires
transition_for_state _ = TransitionKind.updates
