-- ===== src/Data/Window.antt =====
-- public_window.py: `summarize_public_window`.
use aquaops_copilot.Common.{
  ℕ, ◌+◌, ◌-◌, ◌*◌, String, Bool, true, ◌&&◌, not, Option, none, some, List, [], ◌∷◌, if◌then◌else◌,
  ltb, leb, ◌==◌, contains, Outcome, ok, err, ◌>>=◌, ◌>>◌, require,
}
use aquaops_copilot.Common.Text.{between}
use aquaops_copilot.Data.Numbers.{
  Numbers, min_of, max_of, Datetimes, parse_canonical, hour, PublicObservation, indicators, unit_of,
  DataError, unsupported_indicator, invalid_hours, invalid_end, out_of_range, unavailable,
  not_finite, no_observations,
}

-- The fields of the source are the constants of the one public source.
pub record PublicWindowSummary (S : Type 0) : Type 0 where
  pub indicator : String
  pub unit : String
  pub start : String
  pub end : String
  pub row_count : ℕ
  pub null_count : ℕ
  pub minimum : Option S
  pub maximum : Option S
  pub mean : Option S

pub record Tally (S : Type 0) : Type 0 where
  pub row_count : ℕ
  pub null_count : ℕ
  pub non_null_count : ℕ
  pub numeric_total : S
  pub minimum : Option S
  pub maximum : Option S

abbrev pub in_window : ℕ → ℕ → ℕ → Bool
in_window start end t = ltb start t && leb t end

abbrev pub end_or : DataError → Option ℕ → Outcome DataError ℕ
end_or e none = err e
end_or e (some t) = ok t

-- `_validate_query`, on texts and numbers
unfoldable pub validate_query : Datetimes → String → ℕ → String → Outcome DataError ℕ
validate_query d indicator hours end_at =
    require (contains indicators indicator) unsupported_indicator
    >> (require (between 1 168 hours) invalid_hours
        >> end_or invalid_end (parse_canonical d end_at))

abbrev pub observed : {A : Type 0} → Option A → Outcome DataError A
observed none = err unavailable
observed (some a) = ok a

abbrev pub with_null : {S : Type 0} → Tally S → Tally S
with_null t = record t { row_count = t.row_count + 1; null_count = t.null_count + 1 }

module _ {S : Type 0} (f : Numbers S) where
  abbrev pub empty_tally : Tally S
  empty_tally = record {
    row_count = 0;
    null_count = 0;
    non_null_count = 0;
    numeric_total = f.zero_value;
    minimum = none;
    maximum = none;
  }

  abbrev pub with_min : Option S → S → S
  with_min none v = v
  with_min (some m) v = min_of f m v

  abbrev pub with_max : Option S → S → S
  with_max none v = v
  with_max (some m) v = max_of f m v

  abbrev pub with_value : S → Tally S → Tally S
  with_value v t = record {
    row_count = t.row_count + 1;
    null_count = t.null_count;
    non_null_count = t.non_null_count + 1;
    numeric_total = f.add t.numeric_total v;
    minimum = some (with_min t.minimum v);
    maximum = some (with_max t.maximum v);
  }

  unfoldable pub count_value : Option S → Tally S → Outcome DataError (Tally S)
  count_value none t = ok (with_null t)
  count_value (some v) t =
      if f.is_finite (f.add t.numeric_total v) then ok (with_value v t) else err not_finite

  abbrev pub counted : ℕ → ℕ → String → PublicObservation S → Tally S → Outcome DataError (Tally S)
  counted start end indicator o t =
      if in_window start end o.timestamp then count_value (o.values indicator) t else ok t

  -- The loop over the observations.
  unfoldable pub tally_window :
      ℕ → ℕ → String → List (PublicObservation S) → Tally S → Outcome DataError (Tally S)
  tally_window start end indicator [] t = ok t
  tally_window start end indicator (o ∷ os) t =
      counted start end indicator o t >>= λ t'. tally_window start end indicator os t'

  abbrev pub mean_of : Tally S → Option S
  mean_of t =
      if t.non_null_count == 0
      then none
      else some (f.div t.numeric_total (f.from_count t.non_null_count))

  abbrev pub finite_mean : Option S → Bool
  finite_mean none = true
  finite_mean (some m) = f.is_finite m

  abbrev pub summary_of : Datetimes → String → ℕ → ℕ → Tally S → PublicWindowSummary S
  summary_of d indicator start end t = record {
    indicator = indicator;
    unit = unit_of indicator;
    start = d.write start;
    end = d.write end;
    row_count = t.row_count;
    null_count = t.null_count;
    minimum = t.minimum;
    maximum = t.maximum;
    mean = mean_of t;
  }

  abbrev pub summarized :
      Datetimes → String → ℕ → ℕ → Tally S → Outcome DataError (PublicWindowSummary S)
  summarized d indicator start end t =
      require (not (t.row_count == 0)) no_observations
      >> (require (finite_mean (mean_of t)) not_finite >> ok (summary_of d indicator start end t))

  -- The observations are what the loader returns, `none` if it raises.
  unfoldable pub summarize_public_window :
      Datetimes
      → Option (List (PublicObservation S))
      → String
      → ℕ
      → String
      → Outcome DataError (PublicWindowSummary S)
  summarize_public_window d observations indicator hours end_at =
      validate_query d indicator hours end_at >>= λ end.
      require (leb (hours * hour) end) out_of_range
      >> (observed observations >>= λ os.
          tally_window (end - hours * hour) end indicator os empty_tally >>= λ t.
          summarized d indicator (end - hours * hour) end t)
