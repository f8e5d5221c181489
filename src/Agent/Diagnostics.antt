-- ===== src/Agent/Diagnostics.antt =====
-- public_diagnostics.py: the dispatch of a diagnostic, and the rendering of its result.
use Prim.Native.String.{◌++◌}
use aquaops_copilot.Common.{
  ℕ, String, Bool, ◌&&◌, Option, none, some, List, [], ◌∷◌, if◌then◌else◌, is_none,
}
use aquaops_copilot.Agent.Authorize.{text, integer}
use aquaops_copilot.Agent.Evidence.{PublicEvidenceReference}
use aquaops_copilot.Agent.Requests.{parse_public_historical_request, parse_public_anomaly_request}
use aquaops_copilot.Data.Numbers.{Numbers, Datetimes, PublicObservation}
use aquaops_copilot.Data.Window.{PublicWindowSummary}
use aquaops_copilot.Data.Anomaly.{
  PublicAnomalySummary, AnomalyMethod, rolling_median_mad, rolling_median_iqr_fallback,
  AnomalyDirection, above_baseline, below_baseline, AnomalyOutcome, anomaly, normal,
  public_source_id,
}
use aquaops_copilot.Data.Boundary.{
  valid_aggregate, valid_anomaly, ToolResult, delivered, query_public_historical_window,
  screen_public_historical_anomaly,
}

-- Of the platform: `format(value, "g")` and `str` of a count.
pub record Printing (S : Type 0) : Type 0 where
  pub format_g : S → String
  pub show : ℕ → String

pub data DiagnosticResult (S : Type 0) : Type 0 where
  aggregate : ToolResult (PublicWindowSummary S) → DiagnosticResult S
  screening : ToolResult (PublicAnomalySummary S) → DiagnosticResult S

pub record Rendering : Type 0 where
  pub answer : String
  pub citations : List PublicEvidenceReference

abbrev pub source_url : String
source_url = "https://zenodo.org/records/15285089"

abbrev pub source_version : String
source_version = "v1.0.0 (2025-04-26)"

abbrev cite : String → PublicEvidenceReference
cite id = record { evidence_id = id; source_url = source_url; source_version = source_version }

abbrev warning : String
warning = "该结果为非实时、不可用于自动控制的公开历史数据，需人工复核。"

abbrev method_name : AnomalyMethod → String
method_name rolling_median_mad = "rolling_median_mad"
method_name rolling_median_iqr_fallback = "rolling_median_iqr_fallback"
method_name AnomalyMethod.insufficient_variability = "insufficient_variability"
method_name AnomalyMethod.insufficient_history = "insufficient_history"
method_name AnomalyMethod.target_unavailable = "target_unavailable"

abbrev direction_name : AnomalyDirection → String
direction_name above_baseline = "above_baseline"
direction_name below_baseline = "below_baseline"
direction_name AnomalyDirection.unavailable = "unavailable"

module _ {S : Type 0} (f : Numbers S) (d : Datetimes) (pr : Printing S) where
  abbrev format_number : Option S → String
  format_number none = "无有效值"
  format_number (some v) = pr.format_g v

  abbrev statistics : PublicWindowSummary S → String
  statistics s =
      if is_none s.minimum && is_none s.mean && is_none s.maximum
      then "最小值、均值、最大值：该窗口无有效数值；单位 " ++ s.unit
      else "最小值 "
        ++ format_number s.minimum
        ++ "，均值 "
        ++ format_number s.mean
        ++ "，最大值 "
        ++ format_number s.maximum
        ++ "；单位 "
        ++ s.unit

  unfoldable pub render_aggregate : PublicWindowSummary S → Rendering
  render_aggregate s = record {
    answer =
        "公开历史入流监测聚合（指标 "
        ++ s.indicator
        ++ "，窗口 "
        ++ s.start
        ++ " 至 "
        ++ s.end
        ++ "）：样本数 "
        ++ pr.show s.row_count
        ++ "，缺失 "
        ++ pr.show s.null_count
        ++ "，"
        ++ statistics s
        ++ "。"
        ++ warning;
    citations =
        cite (public_source_id ++ ":" ++ s.indicator ++ ":" ++ s.start ++ ":" ++ s.end) ∷ [];
  }

  abbrev context : PublicAnomalySummary S → String
  context s =
      "公开历史异常筛查（指标 "
      ++ s.indicator
      ++ "，基线 "
      ++ s.baseline_start
      ++ " 至 "
      ++ s.baseline_end
      ++ "）：方法 "
      ++ method_name s.method

  -- A finding needs its score; `none` is the ValueError.
  abbrev found : PublicAnomalySummary S → Option S → Option String
  found s none = none
  found s (some score) = some (
      context s
      ++ "，方向 "
      ++ direction_name s.direction
      ++ "，绝对稳健得分 "
      ++ pr.format_g (f.abs score)
      ++ "，筛查阈值 "
      ++ pr.format_g f.robust_score_threshold
      ++ "；结果为异常。")

  abbrev body : PublicAnomalySummary S → AnomalyOutcome → Option String
  body s anomaly = found s s.robust_score
  body s normal = some (context s ++ "；未超过公开历史筛查阈值，不等同于正常运行结论。")
  body s _ = some (context s ++ "；历史证据不足以完成筛查。")

  abbrev pub rendered_with : PublicAnomalySummary S → Option String → Option Rendering
  rendered_with s none = none
  rendered_with s (some words) = some (record {
    answer = words ++ warning;
    citations =
        cite (
          public_source_id ++ ":" ++ s.indicator ++ ":anomaly:" ++ s.baseline_start ++ ":"
          ++ s.target_time)
        ∷ [];
  })

  unfoldable pub render_public_historical_anomaly : PublicAnomalySummary S → Option Rendering
  render_public_historical_anomaly s = rendered_with s (body s s.outcome)

  -- A result is validated again; `none` is the ValueError.
  unfoldable pub expected_public_historical_rendering : DiagnosticResult S → Option Rendering
  expected_public_historical_rendering (aggregate (delivered s)) =
      if valid_aggregate f d s then some (render_aggregate s) else none
  expected_public_historical_rendering (aggregate _) = none
  expected_public_historical_rendering (screening (delivered s)) =
      if valid_anomaly f d s then render_public_historical_anomaly s else none
  expected_public_historical_rendering (screening _) = none

module _ {S : Type 0} (f : Numbers S) (d : Datetimes)
    (observations : Option (List (PublicObservation S))) where
  abbrev or_screening : Option (String × ℕ × String) → Option (DiagnosticResult S)
  or_screening none = none
  or_screening (some (indicator, hours, end_at)) = some (
      screening (
        screen_public_historical_anomaly f d observations (text indicator) (integer hours)
          (text end_at)))

  abbrev or_aggregate :
      Option (String × ℕ × String) → Option (DiagnosticResult S) → Option (DiagnosticResult S)
  or_aggregate none other = other
  or_aggregate (some (indicator, hours, end_at)) other = some (
      aggregate (
        query_public_historical_window f d observations (text indicator) (integer hours)
          (text end_at)))

  unfoldable pub run_public_historical_diagnostic : Bool → String → Option (DiagnosticResult S)
  run_public_historical_diagnostic pads_years question =
      or_aggregate (parse_public_historical_request pads_years question)
        (or_screening (parse_public_anomaly_request pads_years question))
