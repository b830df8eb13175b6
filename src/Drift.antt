-- ===== src/Drift.antt =====
-- src/inboxlume/temporal_drift.py: how the recent answers of a family of messages compare with the
-- earlier ones. Weights are hundredths, and a score is a fraction; counts are natural numbers, so
-- the tests on bool, int and sign hold by typing. `as_dict` only prints.
pub mod Laws
use Prim.Native.String.{compare}
use text.Mathlib.Text.{is_le}
use inboxlume.Base.{
  ℕ, ◌+◌, ◌*◌, Bool, true, false, ◌&&◌, ◌||◌, not, String, List, [], ◌∷◌, map, all, filter, leb,
  ltb, str_eq, length, if◌then◌else◌, contains, Option, none, some, ok, Result, require, ◌>>=◌,
  ◌>>◌,
}
use inboxlume.Models.{Platform, is_blank}
use inboxlume.Governor.Binomial.{Rate}

pub data TemporalDriftStatus : Type 0 where
  collecting stable weak_interest_rise protective_shift : TemporalDriftStatus
  declining_interest conflicting_recent_signals : TemporalDriftStatus

-- A mapping from texts, as rows with different keys.
abbrev pub Counted : Type 0
Counted = List (String × ℕ)

-- `raw.get(key, default)`
unfoldable pub get {ℓ} : {A : Type ℓ} → A → String → List (String × A) → A
get default key [] = default
get default key ((other, value) ∷ rows) = if str_eq key other then value else get default key rows

-- `_SIGNAL_WEIGHTS`: the positive and the negative weight.
unfoldable pub signal_weights : List (String × ℕ × ℕ)
signal_weights =
    ("opened", 100, 0)
    ∷ ("starred", 300, 0)
    ∷ ("marked_important", 300, 0)
    ∷ ("restored", 500, 0)
    ∷ ("left_unread", 0, 15)
    ∷ ("quiz_keep", 400, 0)
    ∷ ("quiz_keep_legacy", 400, 0)
    ∷ ("quiz_dont_keep", 0, 300)
    ∷ ("quiz_dont_keep_legacy", 0, 300)
    ∷ []

pub record TemporalWindowEvidence : Type 0 where
  pub message_count : ℕ
  pub signal_count : ℕ
  pub positive_weight : ℕ
  pub negative_weight : ℕ
  pub protective_events : ℕ
  pub explicit_discard_events : ℕ
  pub legacy_approximated_events : ℕ

unfoldable pub effective_weight : TemporalWindowEvidence → ℕ
effective_weight w = w.positive_weight + w.negative_weight

unfoldable pub interest_score : TemporalWindowEvidence → Rate
interest_score w = record {
  num = 200 + w.positive_weight;
  den = 400 + w.positive_weight + w.negative_weight;
}

-- The sum of the counts of some signals.
unfoldable pub total_of : Counted → List String → ℕ
total_of raw [] = 0
total_of raw (signal ∷ signals) = get 0 signal raw + total_of raw signals

-- The loop over the weights: the counts, the positive and the negative weights.
unfoldable pub weigh : Counted → List (String × ℕ × ℕ) → ℕ × ℕ × ℕ
weigh raw [] = (0, 0, 0)
weigh raw ((signal, positive, negative) ∷ rows) =
    let (n, p, q) = weigh raw rows in
    let count = get 0 signal raw in (count + n, positive * count + p, negative * count + q)

-- `_window`
unfoldable pub window : Counted → Result TemporalWindowEvidence
window raw = do
  require (all (λ (key, _). contains key ("messages" ∷ map (λ row. row.0) signal_weights)) raw)
      "unknown temporal evidence signal"
  let (n, p, q) = weigh raw signal_weights
  ok (record {
    message_count = get 0 "messages" raw;
    signal_count = n;
    positive_weight = p;
    negative_weight = q;
    protective_events =
        total_of raw
          ("quiz_keep" ∷ "quiz_keep_legacy" ∷ "restored" ∷ "starred" ∷ "marked_important" ∷ []);
    explicit_discard_events = total_of raw ("quiz_dont_keep" ∷ "quiz_dont_keep_legacy" ∷ []);
    legacy_approximated_events = total_of raw ("quiz_keep_legacy" ∷ "quiz_dont_keep_legacy" ∷ []);
  })

-- The difference `(plus - minus) / over` of two scores.
pub record Delta : Type 0 where
  pub plus : ℕ
  pub minus : ℕ
  pub over : ℕ

abbrev pub difference : Rate → Rate → Delta
difference r s = record { plus = r.num * s.den; minus = s.num * r.den; over = r.den * s.den }

-- `delta >= PROTECTIVE_SHIFT_DELTA`, which is a fifth.
abbrev pub rises : Delta → Bool
rises d = leb (d.over + 5 * d.minus) (5 * d.plus)

-- `delta <= DECLINING_INTEREST_DELTA`, which is minus a quarter.
abbrev pub declines : Delta → Bool
declines d = leb (4 * d.plus + d.over) (4 * d.minus)

pub record FamilyTemporalDrift : Type 0 where
  pub family : String
  pub recent : TemporalWindowEvidence
  pub historical : TemporalWindowEvidence
  pub score_delta : Delta
  pub status : TemporalDriftStatus
  pub restricts_cleanup : Bool

unfoldable pub enough_evidence : TemporalWindowEvidence → TemporalWindowEvidence → Bool
enough_evidence recent historical =
    leb 5 recent.message_count
    && leb 5 historical.message_count
    && leb 800 (effective_weight recent)
    && leb 800 (effective_weight historical)

-- The status, and whether it restricts.
unfoldable pub status_of_drift :
    TemporalWindowEvidence → TemporalWindowEvidence → Delta → TemporalDriftStatus × Bool
status_of_drift recent historical delta =
    if not (enough_evidence recent historical)
    then (TemporalDriftStatus.collecting, false)
    else if leb 2 recent.protective_events && leb 2 recent.explicit_discard_events
    then (TemporalDriftStatus.conflicting_recent_signals, true)
    else if rises delta
    then (if leb 2 recent.protective_events
        then (TemporalDriftStatus.protective_shift, true)
        else (TemporalDriftStatus.weak_interest_rise, false))
    else if declines delta
    then (TemporalDriftStatus.declining_interest, false)
    else (TemporalDriftStatus.stable, false)

unfoldable pub family_drift :
    String → TemporalWindowEvidence → TemporalWindowEvidence → FamilyTemporalDrift
family_drift family recent historical =
    let delta = difference (interest_score recent) (interest_score historical) in
    let found = status_of_drift recent historical delta in
    record {
      family = family;
      recent = recent;
      historical = historical;
      score_delta = delta;
      status = found.0;
      restricts_cleanup = found.1;
    }

pub record TemporalDriftReport : Type 0 where
  pub account_id : String
  pub scan_profile : String
  pub recent_days : ℕ
  pub historical_days : ℕ
  pub families : List FamilyTemporalDrift

unfoldable pub restricted_in : List FamilyTemporalDrift → List String
restricted_in [] = []
restricted_in (f ∷ fs) =
    let rest = restricted_in fs in if f.restricts_cleanup then f.family ∷ rest else rest

unfoldable pub restricted_families : TemporalDriftReport → List String
restricted_families r = restricted_in r.families

abbrev pub is_shift : TemporalDriftStatus → Bool
is_shift TemporalDriftStatus.collecting = false
is_shift TemporalDriftStatus.stable = false
is_shift _ = true

unfoldable pub shifted_families : TemporalDriftReport → List String
shifted_families r = map (λ f. f.family) (filter (λ f. is_shift f.status) r.families)

abbrev pub is_collecting : TemporalDriftStatus → Bool
is_collecting TemporalDriftStatus.collecting = true
is_collecting _ = false

unfoldable pub collecting_families : TemporalDriftReport → ℕ
collecting_families r = length (filter (λ f. is_collecting f.status) r.families)

abbrev pub Evidence : Type 0
Evidence = List (String × List (String × Counted))

-- `sorted(evidence_by_family.items())`: the keys differ, so that they alone decide.
unfoldable pub insert_family : String × List (String × Counted) → Evidence → Evidence
insert_family x [] = x ∷ []
insert_family x (y ∷ ys) =
    let rest = insert_family x ys in if is_le (compare x.0 y.0) then x ∷ y ∷ ys else y ∷ rest

unfoldable pub sort_families : Evidence → Evidence
sort_families [] = []
sort_families (x ∷ xs) = insert_family x (sort_families xs)

-- The loop over the families.
unfoldable pub drifts_of : Evidence → Result (List FamilyTemporalDrift)
drifts_of [] = ok []
drifts_of ((family, windows) ∷ rest) = do
  require (all (λ (key, _). contains key ("recent" ∷ "historical" ∷ [])) windows)
      "unknown temporal evidence window"
  recent ← window (get [] "recent" windows)
  historical ← window (get [] "historical" windows)
  later ← drifts_of rest
  ok (family_drift family recent historical ∷ later)

unfoldable pub evaluate_temporal_preference_drift :
    Platform → String → String → Evidence → ℕ → ℕ → Result TemporalDriftReport
evaluate_temporal_preference_drift py account_id scan_profile evidence recent_days historical_days =
    do
      require (not (is_blank py.is_space account_id) && not (is_blank py.is_space scan_profile))
          "account and scan profile are required"
      require (leb 1 recent_days && ltb recent_days historical_days && leb historical_days 3650)
          "invalid temporal drift windows"
      families ← drifts_of (sort_families evidence)
      ok (record {
        account_id = account_id;
        scan_profile = scan_profile;
        recent_days = recent_days;
        historical_days = historical_days;
        families = families;
      })
