-- ===== src/Lifecycle/Heuristic.antt =====
-- src/inboxlume/lumegraph.py: `HeuristicLifecycleExtractor.extract_lifecycle`.
use inboxlume.Base.{
  ℕ, Bool, true, false, ◌&&◌, ◌||◌, not, String, List, [], ◌∷◌, ◌++◌, leb, ltb, ◌==◌, str_eq,
  if◌then◌else◌, any_occurs, filter, is_some, Option, none, some, ok, raise, value_error, Result,
  require, ◌>>=◌, ◌>>◌,
}
use inboxlume.Models.{Platform, Datetime, EmailRecord, age_days}
use inboxlume.Lifecycle.{
  UtilityKind, LifecycleState, DateRelation, LifecycleCondition, UtilityVector,
  LifecycleObservation, check_observation, message_text,
}
use inboxlume.Lifecycle.Terms.{replaced_terms, completed_terms, active_terms, pending_terms}
use inboxlume.Lifecycle.Dates.{verified_expiry_date}

-- The row of `expected_kind` in the table; the kind `NONE` has none and was refused before.
abbrev pub kind_reason : UtilityKind → String
kind_reason UtilityKind.none = ""
kind_reason UtilityKind.one_time_code = "otp_language"
kind_reason UtilityKind.order = "order_language"
kind_reason UtilityKind.shipment = "shipment_language"
kind_reason UtilityKind.reservation = "reservation_language"
kind_reason UtilityKind.invoice = "invoice_language"
kind_reason UtilityKind.payment = "payment_language"
kind_reason UtilityKind.security_flow = "security_flow_language"
kind_reason UtilityKind.promotion = "promotion_language"

abbrev pub is_code : UtilityKind → Bool
is_code UtilityKind.one_time_code = true
is_code _ = false

abbrev pub is_promotion : UtilityKind → Bool
is_promotion UtilityKind.promotion = true
is_promotion _ = false

abbrev pub is_open : LifecycleState → Bool
is_open LifecycleState.active = true
is_open LifecycleState.pending = true
is_open _ = false

-- `state in {COMPLETED, REPLACED}`
abbrev pub is_closed : LifecycleState → Bool
is_closed LifecycleState.completed = true
is_closed LifecycleState.replaced = true
is_closed _ = false

abbrev pub is_expired : LifecycleState → Bool
is_expired LifecycleState.expired = true
is_expired _ = false

abbrev pub is_uncertain : LifecycleState → Bool
is_uncertain LifecycleState.uncertain = true
is_uncertain _ = false

-- The reason that is appended with each state of a message that is no code.
abbrev pub state_reason : LifecycleState → String
state_reason LifecycleState.active = "active_language"
state_reason LifecycleState.pending = "pending_language"
state_reason LifecycleState.completed = "completion_language"
state_reason LifecycleState.replaced = "replacement_language"
state_reason LifecycleState.expired = "expiry_language"
state_reason LifecycleState.uncertain = "ambiguous_lifecycle"

-- `tuple(dict.fromkeys(reasons))`: the first occurrence of each.
unfoldable pub fromkeys : List String → List String
fromkeys [] = []
fromkeys (x ∷ xs) = x ∷ filter (λ y. not (str_eq y x)) (fromkeys xs)

-- What the two branches of the method compute before the observation is built.
pub record Findings : Type 0 where
  pub state : LifecycleState
  pub utility : UtilityVector
  pub condition : LifecycleCondition
  pub reasons : List String

-- A one-time code, by whether it is unread and its age in days.
unfoldable pub code_state : Bool → ℕ → LifecycleState
code_state unread age =
    if not unread && leb 7 age
    then LifecycleState.expired
    else if age == 0
    then LifecycleState.active
    else LifecycleState.uncertain

abbrev pub code_condition : LifecycleState → LifecycleCondition
code_condition LifecycleState.expired = LifecycleCondition.completed_condition
code_condition LifecycleState.active = LifecycleCondition.time_bound
code_condition _ = LifecycleCondition.uncertain

abbrev pub is_active : LifecycleState → Bool
is_active LifecycleState.active = true
is_active _ = false

unfoldable pub code_findings : LifecycleState → Findings
code_findings state = record {
  state = state;
  utility = record {
    operational = is_active state;
    evidentiary = false;
    personal = false;
    security = not (is_expired state);
  };
  condition = code_condition state;
  reasons = state_reason state ∷ [];
}

-- `explicit_expiry is not None and explicit_expiry < today`, and the two other comparisons.
abbrev pub expired_before : Option ℕ → ℕ → Bool
expired_before none today = false
expired_before (some d) today = ltb d today

abbrev pub expires_after : Option ℕ → ℕ → Bool
expires_after none today = false
expires_after (some d) today = ltb today d

abbrev pub expires_on : Option ℕ → ℕ → Bool
expires_on none today = false
expires_on (some d) today = d == today

-- The state that the language of the text gives.
unfoldable pub language_state : String → LifecycleState
language_state text =
    if any_occurs replaced_terms text
    then LifecycleState.replaced
    else if any_occurs completed_terms text
    then LifecycleState.completed
    else if any_occurs active_terms text
    then LifecycleState.active
    else if any_occurs pending_terms text
    then LifecycleState.pending
    else LifecycleState.uncertain

-- The reasons so far, once a promotion is found to have expired.
abbrev pub expired_reasons : LifecycleState → List String
expired_reasons LifecycleState.uncertain = "expiry_language" ∷ []
expired_reasons s = state_reason s ∷ "expiry_language" ∷ []

abbrev pub is_protected_record : UtilityKind → Bool
is_protected_record UtilityKind.invoice = true
is_protected_record UtilityKind.payment = true
is_protected_record _ = false

abbrev pub is_reservation : UtilityKind → Bool
is_reservation UtilityKind.reservation = true
is_reservation _ = false

abbrev pub is_security_flow : UtilityKind → Bool
is_security_flow UtilityKind.security_flow = true
is_security_flow _ = false

-- `expected_kind in {INVOICE, SECURITY_FLOW}`
abbrev pub asks_the_user : UtilityKind → Bool
asks_the_user UtilityKind.invoice = true
asks_the_user UtilityKind.security_flow = true
asks_the_user _ = false

-- The state in the end: a promotion that has expired is in no other one.
abbrev pub final_state : LifecycleState → Bool → LifecycleState
final_state spoken true = LifecycleState.expired
final_state spoken false = spoken

abbrev pub evidentiary_in : UtilityKind → LifecycleState → Bool
evidentiary_in kind state = is_protected_record kind || is_reservation kind || is_closed state

abbrev pub text_condition : UtilityKind → LifecycleState → LifecycleCondition
text_condition kind state =
    if is_closed state || is_expired state
    then LifecycleCondition.completed_condition
    else if is_open state
    then (if asks_the_user kind
        then LifecycleCondition.user_action_required
        else LifecycleCondition.external_action_pending)
    else LifecycleCondition.uncertain

abbrev pub text_reasons : UtilityKind → LifecycleState → Bool → Bool → List String
text_reasons kind spoken dated elapsed =
    (if dated then "explicit_date" ∷ [] else [])
    ++ ((if elapsed then expired_reasons spoken else state_reason spoken ∷ [])
        ++ (if evidentiary_in kind (final_state spoken elapsed)
            then "evidentiary_record" ∷ []
            else []))

-- A message that is no code: `dated` says that the verified expiry of a promotion is known, and
-- `elapsed` that it lies before today.
unfoldable pub text_findings : UtilityKind → LifecycleState → Bool → Bool → Findings
text_findings kind spoken dated elapsed =
    let state : LifecycleState = final_state spoken elapsed in
    record {
      state = state;
      utility = record {
        operational = is_open state;
        evidentiary = evidentiary_in kind state;
        personal = is_reservation kind;
        security = is_security_flow kind;
      };
      condition = text_condition kind state;
      reasons = text_reasons kind spoken dated elapsed;
    }

abbrev pub date_relation : Option ℕ → ℕ → DateRelation
date_relation expiry today =
    if expired_before expiry today
    then DateRelation.past
    else if expires_after expiry today
    then DateRelation.future
    else if expires_on expiry today
    then DateRelation.today
    else DateRelation.uncertain

abbrev pub observe : UtilityKind → Option ℕ → ℕ → Findings → LifecycleObservation
observe kind expiry today f = record {
  kind = kind;
  state = f.state;
  utility = f.utility;
  date_relation = date_relation expiry today;
  condition = f.condition;
  confidence = if is_uncertain f.state then 450000 else 760000;
  reason_codes = fromkeys (kind_reason kind ∷ "heuristic_fallback" ∷ f.reasons);
  extractor = "heuristic-lifecycle-v1";
}

module _ (py : Platform) (m : EmailRecord) where
  -- `verified_expiry_date(...) if expected_kind is UtilityKind.PROMOTION else None`
  unfoldable pub explicit_expiry : UtilityKind → Datetime → Result (Option ℕ)
  explicit_expiry kind now = if is_promotion kind then verified_expiry_date py m now else ok none

  abbrev extract_text : UtilityKind → Datetime → Result LifecycleObservation
  extract_text kind now = do
    expiry ← explicit_expiry kind now
    check_observation py (
        observe kind expiry now.date (
          text_findings kind (language_state (message_text py m)) (is_some expiry)
            (expired_before expiry now.date)))

  unfoldable pub extract : UtilityKind → Datetime → Result LifecycleObservation
  extract UtilityKind.none now = raise (value_error "lifecycle kind is required")
  extract UtilityKind.one_time_code now = do
    age ← age_days m now
    check_observation py
        (observe UtilityKind.one_time_code none now.date (code_findings (code_state m.unread age)))
  extract kind now = extract_text kind now

  -- `extract_lifecycle`
  unfoldable pub extract_lifecycle : UtilityKind → Datetime → Result LifecycleObservation
  extract_lifecycle kind now = do require now.aware "now must include a timezone"; extract kind now
