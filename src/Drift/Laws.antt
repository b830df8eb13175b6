-- ===== src/Drift/Laws.antt =====
-- src/inboxlume/temporal_drift.py with the gate of src/inboxlume/safety_governor.py: which answers
-- restrict a family, and what that does to the gate.
use inboxlume.Base.{
  ◌+◌, ◌*◌, ◌≤◌, ◌≡◌, refl, ◌↔◌, ◌⊎◌, true, false, String, List, [], ◌∷◌, str_eq, contains, filter,
  arith, eq_iff, subst, Bool-cases, inl, inr,
}
use inboxlume.Models.{Platform, is_blank}
use inboxlume.Policy.Addresses.{strip}
use inboxlume.Drift.{
  TemporalWindowEvidence, effective_weight, interest_score, enough_evidence, status_of_drift,
  family_drift, TemporalDriftReport, restricted_families,
}
use inboxlume.Governor.{SafetyGovernorReport}
use inboxlume.Governor.Gate.{
  operational_quarantine_gate, permits, permits_direct_trash, operational_governor_available,
  stripped,
}
use inboxlume.Governor.Permissions.{permits-refuses, permits_direct_trash-spotless}

-- A window with enough messages and enough weight.
abbrev pub Enough : TemporalWindowEvidence → Type 0
Enough w = (5 ≤ w.message_count) × (800 ≤ w.positive_weight + w.negative_weight)

-- The score of a window, `(200 + positive) / (400 + positive + negative)`, rose by a fifth or more.
abbrev pub Rose : TemporalWindowEvidence → TemporalWindowEvidence → Type 0
Rose now before =
    (400 + now.positive_weight + now.negative_weight)
        * (400 + before.positive_weight + before.negative_weight)
      + 5 * ((200 + before.positive_weight) * (400 + now.positive_weight + now.negative_weight))
    ≤ 5 * ((200 + now.positive_weight) * (400 + before.positive_weight + before.negative_weight))

-- A family is restricted exactly if both windows have enough messages and weight, and at least two
-- recent answers protect it while at least two discard it or its score rose by a fifth.
pub family_drift-restricts :
    (family : String) (recent historical : TemporalWindowEvidence)
    → ((family_drift family recent historical).restricts_cleanup ≡ true) ↔ (
        Enough recent
        × Enough historical
        × (2 ≤ recent.protective_events)
        × ((2 ≤ recent.explicit_discard_events) ⊎ Rose recent historical))
unfolding family_drift status_of_drift enough_evidence effective_weight interest_score
family_drift-restricts family recent historical = (ground arith, ground arith)

contains-stripped :
    (py : Platform) (family : String) (names : List String)
    → strip py.is_space family ≡ family
    → is_blank py.is_space family ≡ false
    → contains family names ≡ true
    → contains family (stripped py names) ≡ true
unfolding contains stripped filter
contains-stripped py family [] s b h = h
contains-stripped py family (n ∷ ns) s b h = elim (Bool-cases (str_eq family n)) [
  | inl e ↦
      subst (λ x. contains family (stripped py (x ∷ ns)) ≡ true) ((eq_iff family n).0 e)
        (rw b (rw s (ground (arith, (eq_iff family family).1 refl))))
  | inr e ↦ elim (Bool-cases (is_blank py.is_space n)) [
    | inl k ↦ rw k (contains-stripped py family ns s b (ground (arith, h, e)))
    | inr k ↦ rw k (ground (arith, contains-stripped py family ns s b (ground (arith, h, e))))
  ]
]

-- A family that drifts, and whose name has no spaces around it, is neither quarantined nor sent to
-- the trash by a gate that enforces and is available, whatever its other answers.
pub restricted_families-refused :
    (py : Platform) (report : SafetyGovernorReport) (drift : TemporalDriftReport) (family : String)
    → operational_governor_available report ≡ true
    → strip py.is_space family ≡ family
    → is_blank py.is_space family ≡ false
    → contains family (restricted_families drift) ≡ true
    → (permits (operational_quarantine_gate py report true (restricted_families drift)) family
        ≡ false)
      × (permits_direct_trash
            (operational_quarantine_gate py report true (restricted_families drift))
            family
          ≡ false)
restricted_families-refused py report drift family a s b h =
    let found = contains-stripped py family (restricted_families drift) s b h in
    (
      ground (arith, permits-refuses py report true (restricted_families drift) family),
      ground (
        arith,
        permits_direct_trash-spotless py report true (restricted_families drift) family refl a,
      ),
    )
