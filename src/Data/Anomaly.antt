-- ===== src/Data/Anomaly.antt =====
-- public_anomaly.py: `screen_public_anomaly`.
use aquaops_copilot.Common.{
  ℕ, ◌+◌, ◌-◌, ◌*◌, ◌/◌, ◌%◌, String, Bool, false, ◌&&◌, Option, none, some, List, [], ◌∷◌, ◌++◌,
  map, if◌then◌else◌, ltb, leb, ◌==◌, length, drop, str_eq, contains, Outcome, ok, err, ◌>>=◌, ◌>>◌,
  require,
}
use aquaops_copilot.Common.Text.{between}
use aquaops_copilot.Data.Numbers.{
  Numbers, at_most, Datetimes, parse_canonical, hour, PublicObservation, unit_of, DataError,
  indicators, unsupported_source, unsupported_indicator, invalid_hours, invalid_minimum,
  invalid_end, out_of_range, not_finite, no_history,
}
use aquaops_copilot.Data.Window.{end_or, observed}

pub data AnomalyMethod : Type 0 where
  rolling_median_mad rolling_median_iqr_fallback : AnomalyMethod
  insufficient_variability insufficient_history target_unavailable : AnomalyMethod

pub data AnomalyDirection : Type 0 where
  above_baseline below_baseline unavailable : AnomalyDirection

pub data AnomalyOutcome : Type 0 where
  anomaly normal : AnomalyOutcome
  target_unavailable insufficient_history insufficient_variability : AnomalyOutcome

-- The fields of the source and the threshold are constants.
pub record PublicAnomalySummary (S : Type 0) : Type 0 where
  pub indicator : String
  pub unit : String
  pub target_time : String
  pub baseline_start : String
  pub baseline_end : String
  pub history_count : ℕ
  pub history_null_count : ℕ
  pub baseline_median : Option S
  pub baseline_scale : Option S
  pub robust_score : Option S
  pub method : AnomalyMethod
  pub direction : AnomalyDirection
  pub is_anomaly : Option Bool
  pub outcome : AnomalyOutcome

abbrev pub default_min_history_points : ℕ
default_min_history_points = 48

abbrev pub public_source_id : String
public_source_id = "co-udlabs-wwtp-lpicm-2025"

-- `_validate_query`
unfoldable pub validate_screening :
    Datetimes → String → ℕ → String → String → ℕ → Outcome DataError ℕ
validate_screening d indicator baseline_hours end_at source_id min_points =
    require (str_eq source_id public_source_id) unsupported_source
    >> (require (contains indicators indicator) unsupported_indicator
        >> (require (between 1 168 baseline_hours) invalid_hours
            >> (require (leb 1 min_points) invalid_minimum
                >> end_or invalid_end (parse_canonical d end_at))))

-- What the loop has gathered.
pub record History (S : Type 0) : Type 0 where
  pub history_values : List S
  pub history_count : ℕ
  pub history_null_count : ℕ
  pub target_records : List (Option S)

abbrev pub empty_history : {S : Type 0} → History S
empty_history = record {
  history_values = [];
  history_count = 0;
  history_null_count = 0;
  target_records = [];
}

module _ {S : Type 0} (f : Numbers S) where
  unfoldable pub require_finite : S → Outcome DataError S
  require_finite v = require (f.is_finite v) not_finite >> ok v

  unfoldable pub gather_value : Option S → History S → Outcome DataError (History S)
  gather_value none h = ok (record h {
    history_count = h.history_count + 1;
    history_null_count = h.history_null_count + 1;
  })
  gather_value (some v) h = require_finite v >>= λ w. ok (record h {
    history_count = h.history_count + 1;
    history_values = h.history_values ++ (w ∷ []);
  })

  abbrev pub gathered :
      ℕ → ℕ → String → PublicObservation S → History S → Outcome DataError (History S)
  gathered start end indicator o h =
      if leb start o.timestamp && ltb o.timestamp end
      then gather_value (o.values indicator) h
      else if o.timestamp == end
      then ok (record h { target_records = h.target_records ++ (o.values indicator ∷ []) })
      else ok h

  unfoldable pub gather_history :
      ℕ → ℕ → String → List (PublicObservation S) → History S → Outcome DataError (History S)
  gather_history start end indicator [] h = ok h
  gather_history start end indicator (o ∷ os) h =
      gathered start end indicator o h >>= λ h'. gather_history start end indicator os h'

  unfoldable pub insert_value : S → List S → List S
  insert_value v [] = v ∷ []
  insert_value v (w ∷ ws) = if f.less v w then v ∷ w ∷ ws else w ∷ insert_value v ws

  -- `sorted`
  unfoldable pub sorted_from : List S → List S → List S
  sorted_from done [] = done
  sorted_from done (v ∷ vs) = sorted_from (insert_value v done) vs

  abbrev at_index : List S → Outcome DataError S
  at_index [] = err no_history
  at_index (v ∷ vs) = ok v

  -- `_linear_percentile`, at `quarter` fourths
  unfoldable pub linear_percentile : List S → ℕ → Outcome DataError S
  linear_percentile values quarter =
      let position = (length values - 1) * quarter in
      at_index (drop (position / 4) values) >>= λ lower.
      at_index (drop ((position + 3) / 4) values) >>= λ upper.
      require_finite (f.add lower (f.mul (f.sub upper lower) (f.quarters (position % 4))))

  -- The scale from the quartiles, when the median deviation is zero.
  unfoldable pub iqr_scale : List S → Outcome DataError S
  iqr_scale values = linear_percentile (sorted_from [] values) 1 >>= λ first.
      linear_percentile (sorted_from [] values) 3 >>= λ third.
      require_finite (f.sub third first) >>= λ iqr. require_finite (f.div iqr f.iqr_normalization)

  abbrev pub by_quartiles : S → Outcome DataError (AnomalyMethod × S)
  by_quartiles iqr = ok (rolling_median_iqr_fallback, iqr)

  abbrev pub by_deviation : S → S → List S → Outcome DataError (AnomalyMethod × S)
  by_deviation mad scale values =
      if f.equal mad f.zero_value
      then (iqr_scale values >>= by_quartiles)
      else ok (rolling_median_mad, scale)

  -- The method and the scale of a baseline.
  unfoldable pub scale_of : S → List S → Outcome DataError (AnomalyMethod × S)
  scale_of baseline values =
      require_finite (f.median (map (λ v. f.abs (f.sub v baseline)) values)) >>= λ mad.
      require_finite (f.mul f.mad_normalization mad) >>= λ scale. by_deviation mad scale values

  abbrev pub direction_of : S → AnomalyDirection
  direction_of score =
      if f.less f.zero_value score
      then above_baseline
      else if f.less score f.zero_value
      then below_baseline
      else unavailable

  abbrev pub exceeds : S → Bool
  exceeds score = at_most f f.robust_score_threshold (f.abs score)

  module _ (d : Datetimes) (indicator : String) (start end : ℕ) (h : History S) where
    abbrev pub summary_with :
        Option S
        → Option S
        → Option S
        → AnomalyMethod
        → AnomalyDirection
        → Option Bool
        → AnomalyOutcome
        → PublicAnomalySummary S
    summary_with baseline scale score method direction is_anomaly outcome = record {
      indicator = indicator;
      unit = unit_of indicator;
      target_time = d.write end;
      baseline_start = d.write start;
      baseline_end = d.write end;
      history_count = h.history_count;
      history_null_count = h.history_null_count;
      baseline_median = baseline;
      baseline_scale = scale;
      robust_score = score;
      method = method;
      direction = direction;
      is_anomaly = is_anomaly;
      outcome = outcome;
    }

    abbrev pub scored : S → S → AnomalyMethod → S → PublicAnomalySummary S
    scored baseline scale method score =
        summary_with (some baseline) (some scale) (some score) method (direction_of score)
          (some (exceeds score)) (if exceeds score then anomaly else normal)

    abbrev pub flat : S → S → PublicAnomalySummary S
    flat baseline scale =
        summary_with (some baseline) (some scale) none insufficient_variability unavailable
          (some false) insufficient_variability

    unfoldable pub score_target :
        S → S → AnomalyMethod → S → Outcome DataError (PublicAnomalySummary S)
    score_target target baseline method scale = require_finite target >>= λ value.
        require_finite (f.div (f.sub value baseline) scale) >>= λ score.
        ok (scored baseline scale method score)

    abbrev pub screened : S → S → AnomalyMethod → S → Outcome DataError (PublicAnomalySummary S)
    screened target baseline method scale =
        if f.equal scale f.zero_value
        then ok (flat baseline scale)
        else score_target target baseline method scale

    unfoldable pub screen_target : S → Outcome DataError (PublicAnomalySummary S)
    screen_target target = require_finite (f.median h.history_values) >>= λ baseline.
        scale_of baseline h.history_values >>= λ (method, scale).
        screened target baseline method scale

    abbrev pub without_target : PublicAnomalySummary S
    without_target =
        summary_with none none none target_unavailable unavailable none target_unavailable

    abbrev pub without_history : PublicAnomalySummary S
    without_history =
        summary_with none none none insufficient_history unavailable none insufficient_history

    -- The target is the one value at the end of the baseline.
    unfoldable pub screen_records : ℕ → List (Option S) → Outcome DataError (PublicAnomalySummary S)
    screen_records min_points (some target ∷ []) =
        if ltb (length h.history_values) min_points
        then ok without_history
        else screen_target target
    screen_records min_points _ = ok without_target

  unfoldable pub screen_public_anomaly :
      Datetimes
      → Option (List (PublicObservation S))
      → String
      → ℕ
      → String
      → String
      → ℕ
      → Outcome DataError (PublicAnomalySummary S)
  screen_public_anomaly d observations indicator baseline_hours end_at source_id min_points =
      validate_screening d indicator baseline_hours end_at source_id min_points >>= λ end.
      require (leb (baseline_hours * hour) end) out_of_range
      >> (observed observations >>= λ os.
          gather_history (end - baseline_hours * hour) end indicator os empty_history >>= λ h.
          screen_records d indicator (end - baseline_hours * hour) end h min_points
            h.target_records)
