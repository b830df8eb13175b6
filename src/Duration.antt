-- ===== src/Duration.antt =====
-- src/inboxlume/duration_estimator.py: the timing samples, the reference time of a scan in chunks, and
-- the interval that is returned. Times are natural numbers of a small unit.
pub mod Laws
use inboxlume.Base.{
  ℕ, zero, suc, ◌+◌, ◌-◌, ◌*◌, min, max, Bool, true, false, leb, ltb, ◌==◌, if◌then◌else◌, Option,
  none, some, Result, require, ok, ◌>>◌,
}

pub record ScanTimingSample : Type 0 where
  pub processed_messages : ℕ
  pub elapsed_seconds : ℕ

-- `ScanTimingSample.__post_init__`
unfoldable pub check_sample : ScanTimingSample → Result ScanTimingSample
check_sample s = do
  require (leb 1 s.processed_messages) "timing sample must contain processed messages"
  require (ltb 0 s.elapsed_seconds) "timing sample duration must be positive and finite"
  ok s

module _ (chunk_size seconds_per_message cold_floor : ℕ) where
  abbrev pub chunk_seconds : ℕ → ℕ
  chunk_seconds chunk = max cold_floor (chunk * seconds_per_message)

  -- The `while` loop, for at most `fuel` rounds.
  unfoldable pub chunk_loop : ℕ → ℕ → ℕ → Option ℕ
  chunk_loop zero remaining total = if remaining == 0 then some total else none
  chunk_loop (suc fuel) remaining total = elim (remaining == 0) [
    | true ↦ some total
    | false ↦
        chunk_loop fuel (remaining - min remaining chunk_size)
          (total + chunk_seconds (min remaining chunk_size))
  ]

  -- `_chunked_reference_seconds`
  unfoldable pub chunked_reference_seconds : ℕ → Option ℕ
  chunked_reference_seconds messages =
      if messages == 0 then some 0 else chunk_loop messages messages 0

pub record Interval : Type 0 where
  pub estimated_seconds : ℕ
  pub lower_seconds : ℕ
  pub upper_seconds : ℕ

-- The last lines of `estimate_scan_duration`; no time is negative.
unfoldable pub clamped : ℕ → ℕ → ℕ → Interval
clamped central lower upper = record {
  estimated_seconds = central;
  lower_seconds = min lower central;
  upper_seconds = max central upper;
}
