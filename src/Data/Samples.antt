-- ===== src/Data/Samples.antt =====
-- Whole numbers in place of floats, observations, and tests.
use aquaops_copilot.Common.{
  ℕ, zero, suc, ◌+◌, ◌-◌, ◌*◌, ◌/◌, ◌%◌, String, ◌≡◌, refl, ◌⊎◌, inl, inr, Bool-cases, Option-cases,
  true, false, Option, none, some, List, [], ◌∷◌, ◌++◌, arith, if◌then◌else◌, ltb, ◌==◌, length,
  drop, str_eq, ok,
}
use aquaops_copilot.Agent.Authorize.{text, integer}
use aquaops_copilot.Data.Numbers.{
  Numbers, IsOrdered, parse_canonical, hour, PublicObservation, unit_of, finite_values,
}
use aquaops_copilot.Data.Window.{
  summarize_public_window, PublicWindowSummary, validate_query, tally_window, count_value,
}
use aquaops_copilot.Data.Anomaly.{
  validate_screening, gather_history, gather_value, require_finite, screen_records, screen_target,
  scale_of, iqr_scale, linear_percentile, sorted_from, insert_value, score_target,
  default_min_history_points, public_source_id, screen_public_anomaly, PublicAnomalySummary,
  anomaly, AnomalyOutcome,
}
use aquaops_copilot.Data.Boundary.{
  ToolResult, delivered, valid_aggregate, valid_anomaly, query_public_historical_window,
  screen_public_historical_anomaly, valid_public_request,
}
use aquaops_copilot.Data.Boundary.Delivery.{tool_delivers_screening, reported}
use aquaops_copilot.Data.Boundary.Aggregates.{summarize_public_window-Describes, Describes}
use aquaops_copilot.Data.Boundary.Tallies.{window_values}
use aquaops_copilot.Data.Boundary.Windows.{tool_delivers_window, delivered_if_ordered}
use aquaops_copilot.Data.Binary.{digit, write_bits, bit, read_bits, binary}

insert_whole : ℕ → List ℕ → List ℕ
insert_whole v [] = v ∷ []
insert_whole v (w ∷ ws) = if ltb v w then v ∷ w ∷ ws else w ∷ insert_whole v ws

sort : List ℕ → List ℕ
sort [] = []
sort (v ∷ vs) = insert_whole v (sort vs)

first_or_zero : List ℕ → ℕ
first_or_zero [] = 0
first_or_zero (v ∷ vs) = v

middle : List ℕ → ℕ
unfolding sort first_or_zero insert_whole
middle vs = first_or_zero (drop (length vs / 2) (sort vs))

abbrev whole : Numbers ℕ
whole = record {
  zero_value = 0;
  add = λ a b. a + b;
  sub = λ a b. a - b;
  mul = λ a b. a * b;
  div = λ a b. a / b;
  abs = λ a. a;
  less = ltb;
  equal = λ a b. a == b;
  is_finite = λ a. true;
  from_count = λ n. n;
  quarters = λ n. n / 4;
  median = middle;
  mad_normalization = 1;
  iqr_normalization = 1;
  robust_score_threshold = 3;
}

not_below_zero : (a : ℕ) → ltb a 0 ≡ false
not_below_zero a = ground arith

cut : (a b c : ℕ) → ltb a c ≡ true → (ltb a b ≡ true) ⊎ (ltb b c ≡ true)
cut a b c e = elim (Bool-cases (ltb a b)) [ inl y ↦ inl y | inr n ↦ inr (ground arith) ]

whole-IsOrdered : IsOrdered whole
whole-IsOrdered = record {
  less_asym = λ a b e. ground arith;
  equal_not_less = λ a b e. ground arith;
  equal_not_greater = λ a b e. ground arith;
  less_cut = cut;
  abs_sign = not_below_zero;
  median_sign = λ xs e. not_below_zero (middle xs);
  mad_sign = λ a e. not_below_zero (1 * a);
}

-- An observation of ammonium alone.
observation : ℕ → Option ℕ → PublicObservation ℕ
observation t v = record {
  timestamp = t;
  values = λ indicator. if str_eq indicator "nh4" then v else none;
}

-- A count of observations from an instant on, of values from 10 to 14.
run : ℕ → ℕ → List (PublicObservation ℕ)
unfolding observation
run zero t = []
run (suc n) t = observation t (some (10 + n % 5)) ∷ run n (t + 1000)

abbrev last : ℕ
last = 3 * hour

abbrev last_text : String
last_text = binary.write last

-- 48 values and a missing one in the last hour, and the target.
abbrev history : List (PublicObservation ℕ)
history = run 48 (last - hour) ++ (observation (last - 1) none ∷ observation last (some 90) ∷ [])

outcome_of : ToolResult (PublicAnomalySummary ℕ) → Option AnomalyOutcome
outcome_of (delivered s) = some s.outcome
outcome_of _ = none

screening_finds_anomaly :
    outcome_of (
      screen_public_historical_anomaly whole binary
        (some history)
        (text "nh4")
        (integer 1)
        (text last_text))
    ≡ some anomaly
unfolding screen_public_historical_anomaly outcome_of valid_anomaly unit_of parse_canonical run
    observation read_bits write_bits digit bit middle sort insert_whole first_or_zero
    validate_screening screen_public_anomaly gather_history gather_value require_finite
    screen_records screen_target scale_of iqr_scale linear_percentile sorted_from insert_value
    score_target
screening_finds_anomaly = refl

statistics_of : ToolResult (PublicWindowSummary ℕ) → List (Option ℕ)
statistics_of (delivered s) =
    some s.row_count ∷ some s.null_count ∷ s.minimum ∷ s.mean ∷ s.maximum ∷ []
statistics_of _ = []

-- The window leaves out its start and takes in its end.
window_is_summarized :
    statistics_of (
      query_public_historical_window whole binary
        (some history)
        (text "nh4")
        (integer 1)
        (text last_text))
    ≡ some 49 ∷ some 1 ∷ some 10 ∷ some 13 ∷ some 90 ∷ []
unfolding query_public_historical_window statistics_of valid_aggregate unit_of parse_canonical run
    observation read_bits write_bits digit bit validate_query summarize_public_window tally_window
    count_value
window_is_summarized = refl

screening_request_is_valid :
    valid_public_request binary (text "nh4") (integer 1) (text last_text) ≡ true
unfolding parse_canonical read_bits write_bits digit bit
screening_request_is_valid = refl

tool_delivers_screening_example :
    screen_public_historical_anomaly whole binary
      (some history)
      (text "nh4")
      (integer 1)
      (text last_text)
    ≡ reported (
        screen_public_anomaly whole binary
          (some history)
          "nh4"
          1
          last_text
          public_source_id
          default_min_history_points)
tool_delivers_screening_example =
    tool_delivers_screening whole binary (some history) whole-IsOrdered "nh4" 1 last_text
      (λ end os h baseline scale p l g e. not_below_zero scale) screening_request_is_valid

finite_whole : (i : String) (os : List (PublicObservation ℕ)) → finite_values whole i os ≡ true
finite_whole i [] = refl
finite_whole i (o ∷ os) = elim (Option-cases (o.values i)) [
  | inl n ↦ ground (arith, finite_whole i os)
  | inr (v, q) ↦ ground (arith, finite_whole i os)
]

tool_delivers_window_example :
    query_public_historical_window whole binary
      (some history)
      (text "nh4")
      (integer 1)
      (text last_text)
    ≡ delivered_if_ordered whole binary
        (some history)
        (summarize_public_window whole binary (some history) "nh4" 1 last_text)
tool_delivers_window_example =
    tool_delivers_window whole binary (some history) "nh4" 1 last_text
      (λ os e. finite_whole "nh4" os) screening_request_is_valid

small : List (PublicObservation ℕ)
unfolding observation
small =
    observation (last - hour) (some 7)
    ∷ observation (last - 5) (some 3)
    ∷ observation last none
    ∷ []

small_summary : PublicWindowSummary ℕ
small_summary = record {
  indicator = "nh4";
  unit = "mg/L";
  start = binary.write (last - hour);
  end = last_text;
  row_count = 2;
  null_count = 1;
  minimum = some 3;
  maximum = some 3;
  mean = some 3;
}

last_is_read : parse_canonical binary last_text ≡ some last
unfolding parse_canonical read_bits write_bits digit bit
last_is_read = refl

small_is_summarized :
    summarize_public_window whole binary (some small) "nh4" 1 last_text ≡ ok small_summary
unfolding small observation small_summary unit_of parse_canonical read_bits write_bits digit bit
    validate_query summarize_public_window tally_window count_value
small_is_summarized = refl

summarize_public_window-Describes_example :
    Describes whole (window_values whole (last - 1 * hour) last "nh4" small) small_summary
summarize_public_window-Describes_example =
    summarize_public_window-Describes whole binary (some small) whole-IsOrdered "nh4" 1 last
      last_text small small_summary last_is_read refl small_is_summarized
