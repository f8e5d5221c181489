-- ===== src/Data/Boundary.antt =====
-- agent/tools.py: the strict models of an aggregate and of a screening, and the tools that return
-- them.
use aquaops_copilot.Common.{
  ℕ, suc, ◌+◌, ◌-◌, ◌*◌, String, Bool, true, false, ◌&&◌, ◌||◌, not, Option, none, some, List, [],
  ◌∷◌, if◌then◌else◌, ltb, leb, ◌==◌, str_eq, contains, is_none, Outcome, ok, err,
}
use aquaops_copilot.Common.Text.{between}
use aquaops_copilot.Agent.Authorize.{Value, text, integer}
use aquaops_copilot.Data.Numbers.{
  Numbers, at_most, Datetimes, parse_canonical, hour, PublicObservation, indicators, unit_of,
  DataError, finite_or_none,
}
use aquaops_copilot.Data.Window.{PublicWindowSummary, summarize_public_window}
use aquaops_copilot.Data.Anomaly.{
  AnomalyMethod, rolling_median_mad, rolling_median_iqr_fallback, AnomalyDirection, above_baseline,
  below_baseline, AnomalyOutcome, anomaly, normal, PublicAnomalySummary, exceeds, public_source_id,
  default_min_history_points, screen_public_anomaly,
}
pub mod Requests
pub mod Screening
pub mod Delivery
pub mod Tallies
pub mod Aggregates
pub mod Windows

-- Are two instants read, and the first before the second?
abbrev pub increases : Option ℕ → Option ℕ → Bool
increases (some a) (some b) = ltb a b
increases none b = false
increases (some a) none = false

abbrev pub same_instant : Option ℕ → Option ℕ → Bool
same_instant (some a) (some b) = a == b
same_instant none b = false
same_instant (some a) none = false

abbrev pub is_robust : AnomalyMethod → Bool
is_robust rolling_median_mad = true
is_robust rolling_median_iqr_fallback = true
is_robust _ = false

abbrev pub is_above : AnomalyDirection → Bool
is_above above_baseline = true
is_above _ = false

abbrev pub is_below : AnomalyDirection → Bool
is_below below_baseline = true
is_below _ = false

abbrev pub is_unavailable : AnomalyDirection → Bool
is_unavailable AnomalyDirection.unavailable = true
is_unavailable _ = false

abbrev is_variability : AnomalyMethod → Bool
is_variability AnomalyMethod.insufficient_variability = true
is_variability _ = false

abbrev is_history : AnomalyMethod → Bool
is_history AnomalyMethod.insufficient_history = true
is_history _ = false

abbrev is_target : AnomalyMethod → Bool
is_target AnomalyMethod.target_unavailable = true
is_target _ = false

module _ {S : Type 0} (f : Numbers S) (d : Datetimes) where
  -- min <= mean <= max
  abbrev pub ordered : Option S → Option S → Option S → Bool
  ordered (some a) (some m) (some b) = at_most f a m && at_most f m b
  ordered none m b = false
  ordered (some a) none b = false
  ordered (some a) (some m) none = false

  abbrev pub statistics_valid : ℕ → Option S → Option S → Option S → Bool
  statistics_valid valid_count a m b =
      if valid_count == 0 then is_none a && is_none m && is_none b else ordered a m b

  -- The validators of PublicHistoricalAggregate
  unfoldable pub valid_aggregate : PublicWindowSummary S → Bool
  valid_aggregate s =
      contains indicators s.indicator
      && str_eq s.unit (unit_of s.indicator)
      && increases (parse_canonical d s.start) (parse_canonical d s.end)
      && finite_or_none f s.minimum
      && finite_or_none f s.maximum
      && finite_or_none f s.mean
      && leb 1 s.row_count
      && leb s.null_count s.row_count
      && statistics_valid (s.row_count - s.null_count) s.minimum s.mean s.maximum

  -- The three tests of the direction, each of which raises when it fails.
  abbrev pub direction_fits : S → AnomalyDirection → Bool
  direction_fits score direction =
      (if f.less f.zero_value score then is_above direction else true)
      && (if f.less score f.zero_value then is_below direction else true)
      && (if f.equal score f.zero_value then is_unavailable direction else true)

  abbrev pub score_valid : Option S → Option S → Option S → AnomalyDirection → Bool → Bool
  score_valid (some baseline) (some scale) (some score) direction expected =
      not (at_most f scale f.zero_value)
      && direction_fits score direction
      && (if expected then exceeds f score else not (exceeds f score))
  score_valid none scale score direction expected = false
  score_valid (some baseline) none score direction expected = false
  score_valid (some baseline) (some scale) none direction expected = false

  abbrev zero_scale : Option S → Bool
  zero_scale none = false
  zero_scale (some scale) = f.equal scale f.zero_value

  abbrev pub nothing_known : PublicAnomalySummary S → Bool
  nothing_known s =
      is_unavailable s.direction
      && is_none s.baseline_median
      && is_none s.baseline_scale
      && is_none s.robust_score

  -- What the outcome asks of the other fields; `points` is the number of valid history points.
  abbrev pub outcome_valid : AnomalyOutcome → ℕ → PublicAnomalySummary S → Bool
  outcome_valid anomaly points s =
      leb 48 points
      && is_robust s.method
      && score_valid s.baseline_median s.baseline_scale s.robust_score s.direction true
  outcome_valid normal points s =
      leb 48 points
      && is_robust s.method
      && score_valid s.baseline_median s.baseline_scale s.robust_score s.direction false
  outcome_valid AnomalyOutcome.insufficient_variability points s =
      leb 48 points
      && is_variability s.method
      && is_unavailable s.direction
      && not (is_none s.baseline_median)
      && zero_scale s.baseline_scale
      && is_none s.robust_score
  outcome_valid AnomalyOutcome.insufficient_history points s =
      ltb points 48 && is_history s.method && nothing_known s
  outcome_valid AnomalyOutcome.target_unavailable points s = is_target s.method && nothing_known s

  -- The validators of PublicHistoricalAnomaly
  unfoldable pub valid_anomaly : PublicAnomalySummary S → Bool
  valid_anomaly s =
      contains indicators s.indicator
      && str_eq s.unit (unit_of s.indicator)
      && increases (parse_canonical d s.baseline_start) (parse_canonical d s.target_time)
      && same_instant (parse_canonical d s.baseline_end) (parse_canonical d s.target_time)
      && finite_or_none f s.baseline_median
      && finite_or_none f s.baseline_scale
      && finite_or_none f s.robust_score
      && leb s.history_null_count s.history_count
      && outcome_valid s.outcome (s.history_count - s.history_null_count) s

-- A `ToolResult`: its payload, or the code of its failure.
pub data ToolResult (P : Type 0) : Type 0 where
  delivered : P → ToolResult P
  invalid_public_request public_evidence_unavailable : ToolResult P

-- The request that a tool accepts.
abbrev pub valid_public_request : Datetimes → Value → Value → Value → Bool
valid_public_request d (text indicator) (integer hours) (text end_at) =
    contains indicators indicator && between 1 168 hours && not (is_none (parse_canonical d end_at))
valid_public_request d _ _ _ = false

module _ {S : Type 0} (f : Numbers S) (d : Datetimes)
    (observations : Option (List (PublicObservation S))) where
  abbrev pub aggregated :
      Outcome DataError (PublicWindowSummary S) → ToolResult (PublicWindowSummary S)
  aggregated (err e) = public_evidence_unavailable
  aggregated (ok s) = if valid_aggregate f d s then delivered s else public_evidence_unavailable

  abbrev queried : Value → Value → Value → ToolResult (PublicWindowSummary S)
  queried (text indicator) (integer hours) (text end_at) =
      aggregated (summarize_public_window f d observations indicator hours end_at)
  queried _ _ _ = invalid_public_request

  unfoldable pub query_public_historical_window :
      Value → Value → Value → ToolResult (PublicWindowSummary S)
  query_public_historical_window indicator hours end_at =
      if valid_public_request d indicator hours end_at
      then queried indicator hours end_at
      else invalid_public_request

  -- The summary is of the window that was asked for.
  abbrev pub matches_request : ℕ → String → Option ℕ → PublicAnomalySummary S → Bool
  matches_request hours end_at none s = false
  matches_request hours end_at (some end) s =
      leb (hours * hour) end
      && str_eq s.target_time end_at
      && str_eq s.baseline_end end_at
      && str_eq s.baseline_start (d.write (end - hours * hour))

  abbrev pub bounded :
      ℕ → String → Outcome DataError (PublicAnomalySummary S) → ToolResult (PublicAnomalySummary S)
  bounded hours end_at (err e) = public_evidence_unavailable
  bounded hours end_at (ok s) =
      if valid_anomaly f d s && matches_request hours end_at (parse_canonical d end_at) s
      then delivered s
      else public_evidence_unavailable

  abbrev asked : Value → Value → Value → ToolResult (PublicAnomalySummary S)
  asked (text indicator) (integer hours) (text end_at) = bounded hours end_at (
      screen_public_anomaly f d observations indicator hours end_at public_source_id
        default_min_history_points)
  asked _ _ _ = invalid_public_request

  unfoldable pub screen_public_historical_anomaly :
      Value → Value → Value → ToolResult (PublicAnomalySummary S)
  screen_public_historical_anomaly indicator hours end_at =
      if valid_public_request d indicator hours end_at
      then asked indicator hours end_at
      else invalid_public_request
