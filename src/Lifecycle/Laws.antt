-- ===== src/Lifecycle/Laws.antt =====
-- What the heuristic extractor observes: its observations pass their own checks, and keep what
-- records, reservations, security flows and fresh codes are good for.
use inboxlume.Base.{
  ℕ, ◌≤◌, ◌≡◌, ◌≢◌, ◌⊎◌, Bool, true, false, ◌&&◌, String, List, ◌∷◌, leb, contains, is_some, Option,
  none, all, length,
}
use inboxlume.Models.{Platform, Datetime, EmailRecord}
use inboxlume.Lifecycle.{UtilityKind, LifecycleState, LifecycleObservation}
use inboxlume.Lifecycle.Terms.{lifecycle_reason_codes}
use inboxlume.Lifecycle.Heuristic.{
  kind_reason, is_promotion, is_open, is_closed, fromkeys, Findings, code_findings, expired_before,
  text_findings, observe, is_protected_record, is_reservation, is_security_flow, code_state,
  is_code,
}

-- The reason codes fit the check: six at most, each of the controlled vocabulary.
abbrev fitting : List String → Bool
fitting codes = leb (length codes) 6 && all (λ code. contains code lifecycle_reason_codes) codes

abbrev codes_of : UtilityKind → Findings → List String
codes_of kind f = fromkeys (kind_reason kind ∷ "heuristic_fallback" ∷ f.reasons)

-- A test of every state, and of both truth values, by evaluation.
abbrev every_state : (LifecycleState → Bool) → Bool
every_state p =
    p LifecycleState.active
    && p LifecycleState.pending
    && p LifecycleState.completed
    && p LifecycleState.replaced
    && p LifecycleState.expired
    && p LifecycleState.uncertain

abbrev both : (Bool → Bool) → Bool
both p = p true && p false

abbrev text_fits : UtilityKind → LifecycleState → Bool → Bool → Bool
text_fits kind spoken dated elapsed =
    fitting (codes_of kind (text_findings kind spoken dated elapsed))

-- What an observation of the fallback keeps of a message.
pub record KeepsUtility (m : EmailRecord) (kind : UtilityKind) (o : LifecycleObservation)
    : Type 0 where
  pub same_kind : o.kind ≡ kind
  pub evidence :
      (is_protected_record kind ≡ true) ⊎ (is_reservation kind ≡ true)
      → o.utility.evidentiary ≡ true
  pub personal : is_reservation kind ≡ true → o.utility.personal ≡ true
  pub security : is_security_flow kind ≡ true → o.utility.security ≡ true
  pub closed_is_evidence : is_closed o.state ≡ true → o.utility.evidentiary ≡ true
  pub open_is_operational : is_open o.state ≡ true → o.utility.operational ≡ true
  pub fresh_code :
      is_code kind ≡ true
      → (m.unread ≡ true) ⊎ (o.state ≢ LifecycleState.expired)
      → o.utility.security ≡ true
  pub expired_kind :
      o.state ≡ LifecycleState.expired → (is_code kind ≡ true) ⊎ (is_promotion kind ≡ true)
  pub few_reasons : length o.reason_codes ≤ 6

module _ (py : Platform) (m : EmailRecord) (now : Datetime) where
  abbrev code_observation : ℕ → LifecycleObservation
  code_observation age =
      observe UtilityKind.one_time_code none now.date (code_findings (code_state m.unread age))

  abbrev text_observation : UtilityKind → LifecycleState → Option ℕ → LifecycleObservation
  text_observation kind spoken expiry =
      observe kind expiry now.date
        (text_findings kind spoken (is_some expiry) (expired_before expiry now.date))
