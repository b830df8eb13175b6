-- ===== src/Guardrails.antt =====
-- src/inboxlume/semantic_guardrails.py: the deterministic tests of a message's text.
pub mod AccessTerms
pub mod RecordTerms
pub mod Spans
pub mod Laws
use inboxlume.Base.{
  ℕ, suc, ◌+◌, ◌-◌, ◌≤◌, Bool, true, false, ◌&&◌, ◌||◌, String, ◌<>◌, List, [], ◌∷◌, ◌++◌, length,
  leb, str_eq, if◌then◌else◌, take, drop, any, all, contains, any_occurs, Option, none, some, not,
}
use inboxlume.Models.{Platform, EmailRecord}
use Spans.{Span, tokenize, phrase_spans, nearby}
use AccessTerms.{
  high_risk_access_terms, routine_access_terms, credential_context_terms,
  security_state_change_terms, security_pair_connectors, access_event_context_terms,
  access_event_signal_terms,
}
use RecordTerms.{
  banking_context_terms, banking_record_terms, general_record_terms, invoice_record_terms,
  transaction_context_terms, transaction_completion_terms, transaction_success_terms,
  service_confirmation_pairs,
}

pub data AccessAlertKind : Type 0 where
  routine high_risk : AccessAlertKind

-- `any(test(left, right) for left in lefts for right in rights)`
unfoldable pub any_pair : (Span → Span → Bool) → List Span → List Span → Bool
any_pair test lefts rights = any (λ l. any (test l) rights) lefts

-- The right span begins at or after the end of the left one, with at most `gap` tokens between.
unfoldable pub follows_within : ℕ → Span → Span → Bool
follows_within gap (l0, l1) (r0, r1) = leb l1 r0 && leb (r0 - l1) gap

module _ (py : Platform) where
  -- `_has_transaction_completion_pair`. With no context span each of the three searches is false.
  unfoldable pub completion_pair_in : List String → Bool
  completion_pair_in tokens =
      let contexts = phrase_spans py tokens transaction_context_terms in
      any_pair (λ l r. nearby l r 6) contexts (phrase_spans py tokens transaction_completion_terms)
      || any_pair (follows_within 4) contexts (phrase_spans py tokens transaction_success_terms)
      || any_pair (follows_within 3) contexts
          (phrase_spans py tokens ("complete" ∷ "completo" ∷ "completa" ∷ []))

  unfoldable pub has_transaction_completion_pair : String → Bool
  has_transaction_completion_pair text = completion_pair_in (tokenize py text)

  -- `tokens[from : to]`
  abbrev slice : List String → ℕ → ℕ → List String
  slice tokens from to = take (to - from) (drop from tokens)

  -- The tokens between two spans, in either order; none if they overlap.
  unfoldable pub between : List String → Span → Span → List String
  between tokens (c0, c1) (s0, s1) =
      if leb c1 s0 then slice tokens c1 s0 else if leb s1 c0 then slice tokens s1 c0 else []

  unfoldable pub connected : List String → Bool
  connected words = leb (length words) 4 && all (λ w. contains w security_pair_connectors) words

  unfoldable pub credential_change_in : List String → Bool
  credential_change_in tokens =
      any_pair (λ context change. connected (between tokens context change))
        (phrase_spans py tokens credential_context_terms)
        (phrase_spans py tokens security_state_change_terms)

  unfoldable pub has_credential_state_change : String → Bool
  has_credential_state_change text = credential_change_in (tokenize py text)

  unfoldable pub has_routine_access_event : String → Bool
  has_routine_access_event text =
      let tokens = tokenize py text in
      any_pair (λ l r. nearby l r 6) (phrase_spans py tokens access_event_context_terms)
        (phrase_spans py tokens access_event_signal_terms)

  unfoldable pub message_text : EmailRecord → String
  message_text m = py.casefold (m.sender <> ("\n" <> (m.subject <> ("\n" <> m.body_text))))

  unfoldable pub access_alert_kind : EmailRecord → Option AccessAlertKind
  access_alert_kind m =
      let text = message_text m in
      if any_occurs high_risk_access_terms text || has_credential_state_change text
      then some AccessAlertKind.high_risk
      else if any_occurs routine_access_terms text || has_routine_access_event text
      then some AccessAlertKind.routine
      else none

  unfoldable pub has_banking_context : EmailRecord → Bool
  has_banking_context m = any_occurs banking_context_terms (message_text m)

  unfoldable pub has_banking_record : EmailRecord → Bool
  has_banking_record m = any_occurs banking_record_terms (message_text m)

  unfoldable pub has_permanent_transaction_record : EmailRecord → Bool
  has_permanent_transaction_record m =
      let text = message_text m in
      has_banking_record m
      || any_occurs (general_record_terms ++ invoice_record_terms) text
      || any (λ (subjects, statuses). any_occurs subjects text && any_occurs statuses text)
          service_confirmation_pairs
      || has_transaction_completion_pair text

abbrev pub is_high_risk : Option AccessAlertKind → Bool
is_high_risk (some AccessAlertKind.high_risk) = true
is_high_risk _ = false

abbrev pub is_routine : Option AccessAlertKind → Bool
is_routine (some AccessAlertKind.routine) = true
is_routine _ = false
