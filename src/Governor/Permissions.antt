-- ===== src/Governor/Permissions.antt =====
-- src/inboxlume/safety_governor.py: what the gate permits to a family of messages.
use inboxlume.Base.{
  ◌≡◌, refl, inl, inr, Bool, true, ◌&&◌, ◌||◌, not, String, List, [], ◌∷◌, ◌++◌, str_eq, contains,
  any, ap, arith, Bool-cases, eq_iff,
}
use inboxlume.Models.{Platform}
use inboxlume.Governor.{SafetyEvidenceBand, SafetyGovernorReport}
use inboxlume.Governor.Gate.{
  permits, permits_direct_trash, operational_governor_available, is_blocking, is_spotless,
  names_where, stripped, operational_quarantine_gate,
}

contains-append :
    (x : String) (xs ys : List String) → contains x (xs ++ ys) ≡ (contains x xs || contains x ys)
unfolding contains
contains-append x [] ys = refl
contains-append x (y ∷ xs) ys = ground (arith, contains-append x xs ys)

contains-names_where :
    (p : SafetyEvidenceBand → Bool) (x : String) (bs : List SafetyEvidenceBand)
    → contains x (names_where p bs) ≡ any (λ b. p b && str_eq x b.name) bs
unfolding contains names_where any
contains-names_where p x [] = refl
contains-names_where p x (b ∷ bs) = ground (arith, contains-names_where p x bs)

any-guarded :
    (overall : Bool) (drift : List String) (x : String) (bs : List SafetyEvidenceBand)
    → any (λ b. (overall && not (contains b.name drift) && is_spotless b) && str_eq x b.name) bs
      ≡ (overall && not (contains x drift) && any (λ b. is_spotless b && str_eq x b.name) bs)
unfolding any
any-guarded overall drift x [] = ground arith
any-guarded overall drift x (b ∷ bs) = elim (Bool-cases (str_eq x b.name)) [
  | inl e ↦
      ground
        (arith, ap (λ n. contains n drift) ((eq_iff x b.name).0 e), any-guarded overall drift x bs)
  | inr e ↦ rw e (ground (arith, any-guarded overall drift x bs))
]

-- The bands of the report with this name that pass a test.
abbrev pub some_band : (SafetyEvidenceBand → Bool) → String → SafetyGovernorReport → Bool
some_band p family r = any (λ b. p b && str_eq family b.name) r.semantic_families

module _ (py : Platform) (r : SafetyGovernorReport) (enforced : Bool) (drift : List String)
    (family : String) where
  -- The gate refuses a family exactly when it was asked to enforce, the account has forty conclusive
  -- answers, and the family blocks or its recent answers drift.
  pub permits-refuses :
      permits (operational_quarantine_gate py r enforced drift) family
      ≡ not (
          enforced
          && operational_governor_available r
          && (some_band is_blocking family r || contains family (stripped py drift)))
  unfolding permits operational_quarantine_gate
  permits-refuses = ground (
    arith,
    contains-append family (names_where is_blocking r.semantic_families) (stripped py drift),
    contains-names_where is_blocking family r.semantic_families,
  )

  -- An enforced gate lets a family go to the trash directly exactly when the account and a band of
  -- the family are qualified with at least 299 conclusive answers and no false cleanup, and the
  -- recent answers of the family do not drift.
  pub permits_direct_trash-spotless :
      enforced ≡ true
      → operational_governor_available r ≡ true
      → permits_direct_trash (operational_quarantine_gate py r enforced drift) family ≡ (
          is_spotless r.overall
          && not (contains family (stripped py drift))
          && some_band is_spotless family r)
  unfolding permits_direct_trash operational_quarantine_gate
  permits_direct_trash-spotless e a = rw e (
      rw a (
        rw contains-names_where
          (any-guarded (is_spotless r.overall) (stripped py drift) family r.semantic_families)))
