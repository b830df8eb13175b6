-- ===== src/Backtest.antt =====
-- src/inboxlume/safety_backtest.py: the evidence of an account, evaluated again and compared with the
-- last snapshot. JSON and SHA-256 are one parameter, the digest; `as_dict` only prints.
pub mod Sums
pub mod Families
pub mod Laws
use Prim.Native.String.{compare, count}
use text.Mathlib.Text.{is_le}
use inboxlume.Base.{
  ℕ, ◌+◌, ◌-◌, ◌*◌, ◌^◌, Bool, true, false, ◌&&◌, ◌||◌, not, String, ◌<>◌, List, [], ◌∷◌, leb, ltb,
  ◌==◌, str_eq, if◌then◌else◌, Option, none, some, ok, raise, Result, require, ◌>>=◌, ◌>>◌,
}
use inboxlume.Models.{Platform, Datetime, is_blank}
use inboxlume.Governor.{
  Counts, SafetyEvidenceBand, SafetyGovernorReport, Thresholds, conclusive_reviews,
  evaluate_safety_governor,
}
use inboxlume.Governor.Binomial.{Rate, Libm}

pub data BacktestTrend : Type 0 where
  no_evidence baseline unchanged stable improved_evidence protective_regression : BacktestTrend

pub data ℤ : Type 0 where
  pos : ℕ → ℤ
  negsuc : ℕ → ℤ

-- `a - b`
unfoldable pub difference : ℕ → ℕ → ℤ
difference a b = if leb b a then pos (a - b) else negsuc (b - a - 1)

pub record VersionedSafetyBacktestReport : Type 0 where
  pub engine_version : String
  pub run_id : String
  pub evidence_fingerprint : String
  pub created_at : Datetime
  pub safety_report : SafetyGovernorReport
  pub trend : BacktestTrend
  pub previous_evidence_fingerprint : Option String
  pub conclusive_review_delta : ℤ
  pub false_cleanup_delta : ℤ
  pub upper_bound_delta : Option (Rate × Rate)  -- the two sides of the difference
  pub regressed_families : List String
  pub snapshot_recorded : Bool

-- `with_snapshot_recorded`
unfoldable pub with_snapshot_recorded :
    VersionedSafetyBacktestReport → Bool → VersionedSafetyBacktestReport
with_snapshot_recorded r recorded = record r { snapshot_recorded = recorded }

-- `{band.name: band for band in bands}`: a later band takes the place of an earlier one.
unfoldable pub put : SafetyEvidenceBand → List SafetyEvidenceBand → List SafetyEvidenceBand
put b [] = b ∷ []
put b (x ∷ xs) = let rest = put b xs in if str_eq b.name x.name then b ∷ xs else x ∷ rest

unfoldable pub put_all : List SafetyEvidenceBand → List SafetyEvidenceBand → List SafetyEvidenceBand
put_all rows [] = rows
put_all rows (b ∷ bands) = put_all (put b rows) bands

abbrev pub by_name : List SafetyEvidenceBand → List SafetyEvidenceBand
by_name = put_all []

-- `_report_evidence`
unfoldable pub evidence_rows : List SafetyEvidenceBand → List (String × Counts)
evidence_rows [] = []
evidence_rows (b ∷ rows) =
    (
      b.name,
      record {
        keep = b.false_cleanup;
        dont_keep = b.confirmed_cleanup;
        unsure = b.unsure;
        unreviewed = b.unreviewed;
      },
    )
    ∷ evidence_rows rows

abbrev pub report_evidence : SafetyGovernorReport → List (String × Counts)
report_evidence r = evidence_rows (by_name r.semantic_families)

-- `previous_families.get(name, _EMPTY_EVIDENCE_BAND).false_cleanup`
unfoldable pub previous_false : String → List SafetyEvidenceBand → ℕ
previous_false name [] = 0
previous_false name (b ∷ rows) =
    let rest = previous_false name rows in if str_eq name b.name then b.false_cleanup else rest

unfoldable pub insert_name : String → List String → List String
insert_name n [] = n ∷ []
insert_name n (x ∷ xs) =
    let rest = insert_name n xs in if is_le (compare n x) then n ∷ x ∷ xs else x ∷ rest

-- `sorted(name for name, band in current_families.items() if ...)`
unfoldable pub regressed : List SafetyEvidenceBand → List SafetyEvidenceBand → List String
regressed [] previous = []
regressed (b ∷ current) previous =
    let rest = regressed current previous in
    if ltb (previous_false b.name previous) b.false_cleanup then insert_name b.name rest else rest

-- `a is not None and b is not None and a < b - 1e-12`
abbrev pub is_lower : Option Rate → Option Rate → Bool
is_lower (some a) (some b) = ltb ((a.num * 10 ^ 12 + a.den) * b.den) (b.num * a.den * 10 ^ 12)
is_lower _ _ = false

abbrev pub is_same_text : String → Option String → Bool
is_same_text s none = false
is_same_text s (some t) = str_eq s t

-- The trend against a previous report.
unfoldable pub trend_since : SafetyEvidenceBand → SafetyEvidenceBand → Bool → BacktestTrend
trend_since current previous same_evidence =
    if same_evidence
    then BacktestTrend.unchanged
    else if ltb previous.false_cleanup current.false_cleanup
    then BacktestTrend.protective_regression
    else if ltb current.false_cleanup previous.false_cleanup
        || is_lower current.upper_false_cleanup_rate previous.upper_false_cleanup_rate
    then BacktestTrend.improved_evidence
    else BacktestTrend.stable

unfoldable pub trend_of : SafetyEvidenceBand → Option SafetyGovernorReport → Bool → BacktestTrend
trend_of current none same_evidence =
    if current.proposals == 0 then BacktestTrend.no_evidence else BacktestTrend.baseline
trend_of current (some previous) same_evidence =
    if current.proposals == 0
    then BacktestTrend.no_evidence
    else trend_since current previous.overall same_evidence

abbrev pub both : Option Rate → Option Rate → Option (Rate × Rate)
both (some a) (some b) = some (a, b)
both _ _ = none

abbrev pub delta_since :
    (SafetyEvidenceBand → ℕ) → SafetyEvidenceBand → Option SafetyGovernorReport → ℤ
delta_since measure current none = pos 0
delta_since measure current (some previous) =
    difference (measure current) (measure previous.overall)

abbrev pub bound_delta : SafetyEvidenceBand → Option SafetyGovernorReport → Option (Rate × Rate)
bound_delta current none = none
bound_delta current (some previous) =
    both current.upper_false_cleanup_rate previous.overall.upper_false_cleanup_rate

abbrev pub regressed_since : List SafetyEvidenceBand → Option SafetyGovernorReport → List String
regressed_since families none = []
regressed_since families (some previous) =
    regressed (by_name families) (by_name previous.semantic_families)

module _ (libm : Libm) (t : Thresholds) (py : Platform)
    (digest : String → String → List (String × Counts) → String) (prefix : String → String) where
  unfoldable pub previous_report :
      String → String → Option (List (String × Counts)) → Result (Option SafetyGovernorReport)
  previous_report account_id scan_profile none = ok none
  previous_report account_id scan_profile (some evidence) = do
    previous ← evaluate_safety_governor libm t py account_id scan_profile evidence
    ok (some previous)

  -- `evaluate_versioned_safety_backtest`; `prefix` is `[:16]`.
  unfoldable pub evaluate_versioned_safety_backtest :
      String
      → String
      → List (String × Counts)
      → Datetime
      → Option (List (String × Counts))
      → Option String
      → String
      → Result VersionedSafetyBacktestReport
  evaluate_versioned_safety_backtest account_id scan_profile evidence created_at previous_evidence
        previous_fingerprint engine_version =
      do
        require created_at.aware "created_at must include a timezone"
        require (not (is_blank py.is_space engine_version) && leb (count engine_version) 64)
            "invalid backtest engine version"
        report ← evaluate_safety_governor libm t py account_id scan_profile evidence
        previous ← previous_report account_id scan_profile previous_evidence
        let fingerprint : String = digest scan_profile engine_version (report_evidence report)
        ok (record {
          engine_version = engine_version;
          run_id = engine_version <> (":" <> prefix fingerprint);
          evidence_fingerprint = fingerprint;
          created_at = created_at;
          safety_report = report;
          trend = trend_of report.overall previous (is_same_text fingerprint previous_fingerprint);
          previous_evidence_fingerprint = previous_fingerprint;
          conclusive_review_delta = delta_since conclusive_reviews report.overall previous;
          false_cleanup_delta = delta_since (λ b. b.false_cleanup) report.overall previous;
          upper_bound_delta = bound_delta report.overall previous;
          regressed_families = regressed_since report.semantic_families previous;
          snapshot_recorded = false;
        })
