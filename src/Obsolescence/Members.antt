-- ===== src/Obsolescence/Members.antt =====
-- The tests of enumeration members that src/inboxlume/proof_of_obsolescence.py uses, as equations.
use mathlib.Core.Logic.{ite}
use inboxlume.Base.{◌≡◌, ◌≢◌, refl, ◌↔◌, true, false, arith}
use inboxlume.Models.{
  EmailCategory, EmailCategory-discrete, category_is, PolicyAction, action_is_keep, RetentionSignal,
  retention_is_discard,
}

pub category_is_iff : (a b : EmailCategory) → (category_is a b ≡ true) ↔ (a ≡ b)
unfolding category_is
category_is_iff a b =
    elim (EmailCategory-discrete a b) as (λ d. (ite d true false ≡ true) ↔ (a ≡ b)) [
      | yes same ↦ (λ _. same, λ _. refl)
      | no other ↦ (λ e. ground (arith, e), λ e. ground (arith, other e))
    ]

pub action_is_keep_iff : (a : PolicyAction) → (action_is_keep a ≡ false) ↔ (a ≢ PolicyAction.keep)
action_is_keep_iff a = (λ e. ground (arith, e), λ e. ground (arith, e))

pub retention_is_discard_iff :
    (r : RetentionSignal)
    → (retention_is_discard r ≡ true) ↔ (r ≡ RetentionSignal.discard_candidate)
retention_is_discard_iff r = (λ e. ground (arith, e), λ e. ground (arith, e))
