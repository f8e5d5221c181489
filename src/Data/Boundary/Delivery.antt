-- ===== src/Data/Boundary/Delivery.antt =====
-- The tool of a screening delivers what the screening returns.
use mathlib.Core.Path.{subst}
use aquaops_copilot.Common.{
  ℕ, ◌-◌, ◌*◌, ◌≤◌, String, ◌≡◌, refl, sym, inl, inr, Bool-cases, true, false, Option, none, some,
  List, [], ◌∷◌, arith, length, if◌then◌else◌, ltb, leb, leb→le, Outcome, ok, err, bind-ok,
  require-ok, ok_same, eq_refl,
}
use aquaops_copilot.Agent.Authorize.{text, integer}
use aquaops_copilot.Data.Numbers.{
  Numbers, IsOrdered, Datetimes, parse_canonical, hour, PublicObservation, DataError,
}
use aquaops_copilot.Data.Window.{observed}
use aquaops_copilot.Data.Anomaly.{
  AnomalyMethod, rolling_median_iqr_fallback, PublicAnomalySummary, History, empty_history,
  require_finite, gather_history, scale_of, flat, score_target, screened, scored, screen_target,
  screen_records, validate_screening, screen_public_anomaly, public_source_id,
  default_min_history_points,
}
use aquaops_copilot.Data.Boundary.{
  valid_anomaly, ToolResult, delivered, public_evidence_unavailable, invalid_public_request,
  valid_public_request, bounded, screen_public_historical_anomaly,
}
use aquaops_copilot.Data.Boundary.Requests.{
  canonical_of, parse_write, observed_of, earlier, validated,
}
use aquaops_copilot.Data.Boundary.Screening.{
  finite_of, Counted, gather_history-Counted, scale_of_lem, Asked, Scaled, without_target-valid,
  without_history-valid, scored-valid, flat-valid,
}

module _ {S : Type 0} (f : Numbers S) where
  module _ (d : Datetimes) (indicator : String) (start end : ℕ) (h : History S) where
    -- A summary that the boundary lets through, of the window that was asked for.
    abbrev pub IsSound : PublicAnomalySummary S → Type 0
    IsSound s =
        (valid_anomaly f d s ≡ true)
        × (s.target_time ≡ d.write end)
        × (s.baseline_end ≡ d.write end)
        × (s.baseline_start ≡ d.write start)

    score_target-IsSound :
        (o : IsOrdered f) (target baseline scale : S) (method : AnomalyMethod)
        (s : PublicAnomalySummary S)
        → Asked f d indicator start end h
        → Scaled f d indicator start end h baseline method scale
        → f.equal scale f.zero_value ≡ false
        → score_target f d indicator start end h target baseline method scale ≡ ok s
        → IsSound s
    unfolding score_target
    score_target-IsSound o target baseline scale method s a c nonzero e =
        let (value, _, e1) = bind-ok (require_finite f target) _ s e in
        let (score, e2, e3) =
          bind-ok (require_finite f (f.div (f.sub value baseline) scale)) _ s e1 in
        let same =
          ok_same (ok (scored f d indicator start end h baseline scale method score)) _ s refl e3 in
        subst IsSound same (
          scored-valid f d indicator start end h o baseline scale score method a c.many
              c.finite_baseline c.finite_scale
              (finite_of f (f.div (f.sub value baseline) scale) score e2).1 c.robust c.sign nonzero,
          refl,
          refl,
          refl,
        )

    screened-IsSound :
        (o : IsOrdered f) (target baseline scale : S) (method : AnomalyMethod)
        (s : PublicAnomalySummary S)
        → Asked f d indicator start end h
        → Scaled f d indicator start end h baseline method scale
        → screened f d indicator start end h target baseline method scale ≡ ok s
        → IsSound s
    screened-IsSound o target baseline scale method s a c e =
        elim (Bool-cases (f.equal scale f.zero_value)) [
          | inl y ↦
              let same =
                ok_same (screened f d indicator start end h target baseline method scale)
                  (flat f d indicator start end h baseline scale) s (ground arith) e in
              subst IsSound same (
                flat-valid f d indicator start end h baseline scale a c.many c.finite_baseline
                    c.finite_scale y,
                refl,
                refl,
                refl,
              )
          | inr n ↦ score_target-IsSound o target baseline scale method s a c n (ground arith)
        ]

    -- Only a scale that comes from quartiles is not shown to be at least zero.
    abbrev pub QuartilesAscend : Type 0
    QuartilesAscend =
        (baseline scale : S)
        → scale_of f baseline h.history_values ≡ ok (rolling_median_iqr_fallback, scale)
        → f.less scale f.zero_value ≡ false

    screen_target-IsSound :
        (o : IsOrdered f) (target : S) (s : PublicAnomalySummary S)
        → Asked f d indicator start end h
        → 48 ≤ length h.history_values
        → QuartilesAscend
        → screen_target f d indicator start end h target ≡ ok s
        → IsSound s
    unfolding screen_target
    screen_target-IsSound o target s a many quartiles e =
        let (baseline, e1, e2) = bind-ok (require_finite f (f.median h.history_values)) _ s e in
        let ((method, scale), e3, e4) = bind-ok (scale_of f baseline h.history_values) _ s e2 in
        let (fs, robust, sign) = scale_of_lem f o baseline h.history_values method scale e3 (λ m.
          quartiles baseline scale
            (subst (λ x. scale_of f baseline h.history_values ≡ ok (x, scale)) m e3)) in
        screened-IsSound o target baseline scale method s a
          (record {
            many = many;
            finite_baseline = (finite_of f (f.median h.history_values) baseline e1).1;
            finite_scale = fs;
            robust = robust;
            sign = sign;
          })
          e4

    screen_records-IsSound :
        (o : IsOrdered f) (records : List (Option S)) (s : PublicAnomalySummary S)
        → Asked f d indicator start end h
        → QuartilesAscend
        → screen_records f d indicator start end h 48 records ≡ ok s
        → IsSound s
    unfolding screen_records
    screen_records-IsSound o [] s a q e =
        subst IsSound (ok_same _ _ s refl e)
          (without_target-valid f d indicator start end h a, refl, refl, refl)
    screen_records-IsSound o (none ∷ rs) s a q e =
        subst IsSound (ok_same _ _ s refl e)
          (without_target-valid f d indicator start end h a, refl, refl, refl)
    screen_records-IsSound o (some t ∷ r ∷ rs) s a q e =
        subst IsSound (ok_same _ _ s refl e)
          (without_target-valid f d indicator start end h a, refl, refl, refl)
    screen_records-IsSound o (some t ∷ []) s a q e =
        elim (Bool-cases (ltb (length h.history_values) 48)) [
          | inl y ↦
              subst IsSound
                (ok_same (screen_records f d indicator start end h 48 (some t ∷ [])) _ s
                  (ground arith) e)
                (without_history-valid f d indicator start end h a (ground arith), refl, refl, refl)
          | inr n ↦ screen_target-IsSound o t s a (ground arith) q (ground arith)
        ]

abbrev pub reported :
    {S : Type 0} → Outcome DataError (PublicAnomalySummary S) → ToolResult (PublicAnomalySummary S)
reported (ok s) = delivered s
reported (err e) = public_evidence_unavailable

module _ {S : Type 0} (f : Numbers S) (d : Datetimes)
    (observations : Option (List (PublicObservation S))) where
  -- The scale that a screening takes from quartiles is not below zero.
  abbrev pub QuartilesAscendOf : String → ℕ → String → Type 0
  QuartilesAscendOf indicator hours end_at =
      (end : ℕ) (os : List (PublicObservation S)) (h : History S) (baseline scale : S)
      → parse_canonical d end_at ≡ some end
      → observations ≡ some os
      → gather_history f (end - hours * hour) end indicator os empty_history ≡ ok h
      → scale_of f baseline h.history_values ≡ ok (rolling_median_iqr_fallback, scale)
      → f.less scale f.zero_value ≡ false

  bounded_lem :
      (indicator : String) (hours end : ℕ) (end_at : String) (h : History S)
      (s : PublicAnomalySummary S)
      → parse_canonical d end_at ≡ some end
      → hours * hour ≤ end
      → IsSound f d indicator (end - hours * hour) end h s
      → bounded f d observations hours end_at (ok s) ≡ delivered s
  bounded_lem indicator hours end end_at h s p room (v, a, b, c) =
      let last = canonical_of d end_at end p in
      let first = eq_refl (d.write (end - hours * hour)) in ground arith

  tool_delivers_screening_ok :
      (o : IsOrdered f) (indicator : String) (hours : ℕ) (end_at : String)
      (s : PublicAnomalySummary S)
      → QuartilesAscendOf indicator hours end_at
      → screen_public_anomaly f d observations indicator hours end_at public_source_id 48 ≡ ok s
      → bounded f d observations hours end_at (ok s) ≡ delivered s
  unfolding screen_public_anomaly
  tool_delivers_screening_ok o indicator hours end_at s q e =
      let (end, e1, e2) =
        bind-ok (validate_screening d indicator hours end_at public_source_id 48) _ s e in
      let (room, e3) = require-ok (leb (hours * hour) end) _ _ s e2 in
      let (os, e4, e5) = bind-ok (observed observations) _ s e3 in
      let (h, e6, e7) =
        bind-ok (gather_history f (end - hours * hour) end indicator os empty_history) _ s e5 in
      let (known, at_least, p) = validated d indicator hours end_at end e1 in
      let counted : Counted f h =
        gather_history-Counted f (end - hours * hour) end indicator os empty_history h refl e6 in
      let asks : Asked f d indicator (end - hours * hour) end h = record {
        known = known;
        later = earlier hours end at_least (leb→le (hours * hour) end room);
        counts = counted;
        written_start = parse_write d end_at (end - hours * hour) end p (omega arith);
        written_end = parse_write d end_at end end p (omega arith);
      } in
      bounded_lem indicator hours end end_at h s p (leb→le (hours * hour) end room) (
        screen_records-IsSound f d indicator (end - hours * hour) end h o h.target_records s asks
          (λ baseline scale k. q end os h baseline scale p (observed_of observations os e4) e6 k)
          e7)

  -- A request with an indicator, hours from 1 to 168 and a canonical end is answered with what the
  -- screening returns, or with `public_evidence_unavailable` if it raises, where the laws of the
  -- comparisons and of the signs hold and a scale taken from quartiles is not below zero.
  pub tool_delivers_screening :
      (o : IsOrdered f) (indicator : String) (hours : ℕ) (end_at : String)
      → QuartilesAscendOf indicator hours end_at
      → valid_public_request d (text indicator) (integer hours) (text end_at) ≡ true
      → screen_public_historical_anomaly f d observations
          (text indicator)
          (integer hours)
          (text end_at)
        ≡ reported (
            screen_public_anomaly f d observations indicator hours end_at public_source_id
              default_min_history_points)
  unfolding screen_public_historical_anomaly
  tool_delivers_screening o indicator hours end_at q v =
      subst
        (λ b.
          (if b
            then bounded f d observations hours end_at
                (screen_public_anomaly f d observations indicator hours end_at public_source_id 48)
            else invalid_public_request)
          ≡ reported
              (screen_public_anomaly f d observations indicator hours end_at public_source_id 48))
        (sym v)
        (elim (screen_public_anomaly f d observations indicator hours end_at public_source_id 48)
            as (λ r.
              screen_public_anomaly f d observations indicator hours end_at public_source_id 48 ≡ r
              → bounded f d observations hours end_at r ≡ reported r) [
                | ok s ↦ λ e. tool_delivers_screening_ok o indicator hours end_at s q e
                | err x ↦ λ e. refl
              ]
          refl)
