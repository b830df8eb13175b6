-- ===== src/Governor.antt =====
-- src/inboxlume/safety_governor.py: the evidence of each family of messages, its report, and the gate
-- that the report opens or shuts. Counts are natural numbers, so the test on negative ones is by
-- typing; `as_dict` only prints.
pub mod Binomial
pub mod Gate
pub mod Laws
pub mod Permissions
pub mod Shares
pub mod Totals
use Prim.Native.String.{compare}
use text.Mathlib.Text.{is_le}
use inboxlume.Base.{
  ℕ, ◌+◌, ◌*◌, ◌≤◌, Bool, true, false, ◌&&◌, ◌||◌, not, String, List, [], ◌∷◌, leb, ltb, ◌==◌,
  if◌then◌else◌, Option, none, some, ok, Result, require, ◌>>=◌, ◌>>◌,
}
use inboxlume.Models.{Platform, is_blank}
use Binomial.{Rate, Libm, at_most, upper_binomial_error_rate, lower_binomial_error_rate}

pub data GovernorStatus : Type 0 where
  collecting not_qualified qualified_shadow : GovernorStatus

abbrev pub is_qualified : GovernorStatus → Bool
is_qualified GovernorStatus.qualified_shadow = true
is_qualified _ = false

-- The answers of a family; a missing one counts 0.
pub record Counts : Type 0 where
  pub keep : ℕ
  pub dont_keep : ℕ
  pub unsure : ℕ
  pub unreviewed : ℕ

pub record SafetyEvidenceBand : Type 0 where
  pub name : String
  pub proposals : ℕ
  pub confirmed_cleanup : ℕ
  pub false_cleanup : ℕ
  pub unsure : ℕ
  pub unreviewed : ℕ
  pub lower_false_cleanup_rate : Option Rate
  pub upper_false_cleanup_rate : Option Rate
  pub target_false_cleanup_rate : ℕ
  pub confidence_level : ℕ
  pub status : GovernorStatus

unfoldable pub conclusive_reviews : SafetyEvidenceBand → ℕ
conclusive_reviews b = b.confirmed_cleanup + b.false_cleanup

unfoldable pub reviewed : SafetyEvidenceBand → ℕ
reviewed b = conclusive_reviews b + b.unsure

pub record SafetyGovernorReport : Type 0 where
  pub account_id : String
  pub scan_profile : String
  pub overall : SafetyEvidenceBand
  pub semantic_families : List SafetyEvidenceBand
  pub shadow_only : Bool
  pub authorizes_actions : Bool

-- The keyword arguments of `evaluate_safety_governor`; the rates in millionths.
pub record Thresholds : Type 0 where
  pub confidence_level : ℕ
  pub target_false_cleanup_rate : ℕ
  pub minimum_conclusive_reviews : ℕ

abbrev pub default_thresholds : Thresholds
default_thresholds = record {
  confidence_level = 950000;
  target_false_cleanup_rate = 10000;
  minimum_conclusive_reviews = 40;
}

-- `upper is not None and upper <= target`
abbrev pub within : Option Rate → ℕ → Bool
within none target = false
within (some r) target = at_most r target

unfoldable pub status_of : ℕ → ℕ → ℕ → Option Rate → GovernorStatus
status_of conclusive minimum target upper =
    if ltb conclusive minimum
    then GovernorStatus.collecting
    else if within upper target
    then GovernorStatus.qualified_shadow
    else GovernorStatus.not_qualified

abbrev pub no_counts : Counts
no_counts = record { keep = 0; dont_keep = 0; unsure = 0; unreviewed = 0 }

abbrev pub add_counts : Counts → Counts → Counts
add_counts a b = record {
  keep = a.keep + b.keep;
  dont_keep = a.dont_keep + b.dont_keep;
  unsure = a.unsure + b.unsure;
  unreviewed = a.unreviewed + b.unreviewed;
}

abbrev pub counts_of : SafetyEvidenceBand → Counts
counts_of b = record {
  keep = b.false_cleanup;
  dont_keep = b.confirmed_cleanup;
  unsure = b.unsure;
  unreviewed = b.unreviewed;
}

-- `(-a.proposals, a.name) <= (-b.proposals, b.name)`
unfoldable pub sorts_before : SafetyEvidenceBand → SafetyEvidenceBand → Bool
sorts_before a b =
    ltb b.proposals a.proposals || a.proposals == b.proposals && is_le (compare a.name b.name)

unfoldable pub insert_band : SafetyEvidenceBand → List SafetyEvidenceBand → List SafetyEvidenceBand
insert_band b [] = b ∷ []
insert_band b (x ∷ xs) =
    let rest = insert_band b xs in if sorts_before b x then b ∷ x ∷ xs else x ∷ rest

-- `families.sort(key=...)`, which is stable.
unfoldable pub sort_bands : List SafetyEvidenceBand → List SafetyEvidenceBand
sort_bands [] = []
sort_bands (x ∷ xs) = insert_band x (sort_bands xs)

module _ (libm : Libm) (t : Thresholds) where
  -- `_evidence_band`
  unfoldable pub evidence_band : String → Counts → Result SafetyEvidenceBand
  evidence_band name n = do
    let conclusive = n.keep + n.dont_keep
    upper ← upper_binomial_error_rate libm n.keep conclusive t.confidence_level
    lower ← lower_binomial_error_rate libm n.keep conclusive t.confidence_level
    ok (record {
      name = name;
      proposals = n.keep + n.dont_keep + n.unsure + n.unreviewed;
      confirmed_cleanup = n.dont_keep;
      false_cleanup = n.keep;
      unsure = n.unsure;
      unreviewed = n.unreviewed;
      lower_false_cleanup_rate = lower;
      upper_false_cleanup_rate = upper;
      target_false_cleanup_rate = t.target_false_cleanup_rate;
      confidence_level = t.confidence_level;
      status = status_of conclusive t.minimum_conclusive_reviews t.target_false_cleanup_rate upper;
    })

  -- The loop over the families: the bands in the order of the mapping, and the totals.
  unfoldable pub family_bands :
      List (String × Counts) → Counts → Result (List SafetyEvidenceBand × Counts)
  family_bands [] totals = ok ([], totals)
  family_bands ((family, counts) ∷ rest) totals = do
    band ← evidence_band family counts
    later ← family_bands rest (add_counts totals (counts_of band))
    ok (band ∷ later.0, later.1)

  unfoldable pub evaluate_safety_governor :
      Platform → String → String → List (String × Counts) → Result SafetyGovernorReport
  evaluate_safety_governor py account_id scan_profile evidence_by_family = do
    require (not (is_blank py.is_space account_id) && not (is_blank py.is_space scan_profile))
        "account and scan profile are required"
    require (ltb 0 t.target_false_cleanup_rate && ltb t.target_false_cleanup_rate 500000)
        "target_false_cleanup_rate must be between 0 and 0.5"
    require (leb 1 t.minimum_conclusive_reviews) "minimum_conclusive_reviews must be positive"
    found ← family_bands evidence_by_family no_counts
    overall ← evidence_band "overall" found.1
    ok (record {
      account_id = account_id;
      scan_profile = scan_profile;
      overall = overall;
      semantic_families = sort_bands found.0;
      shadow_only = true;
      authorizes_actions = false;
    })
