-- ===== src/Governor/Gate.antt =====
-- src/inboxlume/safety_governor.py: `operational_quarantine_gate` and what the gate permits.
use inboxlume.Base.{
  ℕ, Bool, true, false, ◌&&◌, not, String, List, [], ◌∷◌, ◌++◌, map, leb, ◌==◌, if◌then◌else◌,
  filter, contains, Option, none, some,
}
use inboxlume.Models.{Platform, is_blank}
use inboxlume.Policy.Addresses.{strip}
use inboxlume.Governor.{
  GovernorStatus, is_qualified, SafetyEvidenceBand, SafetyGovernorReport, conclusive_reviews,
}
use inboxlume.Governor.Binomial.{Rate, at_most}

pub record OperationalQuarantineGate : Type 0 where
  pub enforced : Bool
  pub overall_status : GovernorStatus
  pub authorized_families : List String
  pub blocked_families : List String
  pub direct_trash_authorized_families : List String
  pub temporal_drift_restricted_families : List String

unfoldable pub permits : OperationalQuarantineGate → String → Bool
permits g family = if not g.enforced then true else not (contains family g.blocked_families)

unfoldable pub permits_direct_trash : OperationalQuarantineGate → String → Bool
permits_direct_trash g family =
    if not g.enforced then true else contains family g.direct_trash_authorized_families

unfoldable pub operational_governor_available : SafetyGovernorReport → Bool
operational_governor_available r = leb 40 (conclusive_reviews r.overall)

-- `lower is not None and lower > target`
abbrev pub above : Option Rate → ℕ → Bool
above none target = false
above (some r) target = not (at_most r target)

-- A family with a significant share of false cleanups.
unfoldable pub is_blocking : SafetyEvidenceBand → Bool
is_blocking b =
    leb 20 (conclusive_reviews b)
    && leb 3 b.false_cleanup
    && above b.lower_false_cleanup_rate b.target_false_cleanup_rate

-- Enough reviews, of which none was a false cleanup.
unfoldable pub is_spotless : SafetyEvidenceBand → Bool
is_spotless b = is_qualified b.status && leb 299 (conclusive_reviews b) && b.false_cleanup == 0

-- The names of the bands that pass a test, as a set.
unfoldable pub names_where : (SafetyEvidenceBand → Bool) → List SafetyEvidenceBand → List String
names_where p [] = []
names_where p (b ∷ bs) = let rest = names_where p bs in if p b then b.name ∷ rest else rest

-- The stripped names that are not empty.
unfoldable pub stripped : Platform → List String → List String
stripped py names = map (strip py.is_space) (filter (λ n. not (is_blank py.is_space n)) names)

unfoldable pub operational_quarantine_gate :
    Platform → SafetyGovernorReport → Bool → List String → OperationalQuarantineGate
operational_quarantine_gate py r enforced protective_drift_families =
    let effective : Bool = enforced && operational_governor_available r in
    let drift : List String = stripped py protective_drift_families in
    record {
      enforced = effective;
      overall_status = r.overall.status;
      authorized_families = names_where (λ b. is_qualified b.status) r.semantic_families;
      blocked_families =
          if effective then names_where is_blocking r.semantic_families ++ drift else [];
      direct_trash_authorized_families =
          names_where (λ b. is_spotless r.overall && not (contains b.name drift) && is_spotless b)
            r.semantic_families;
      temporal_drift_restricted_families = if effective then drift else [];
    }
