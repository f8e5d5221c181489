-- ===== src/Data/Boundary/Windows.antt =====
-- When the tool of a window delivers what the window's summary returns.
use mathlib.Core.Path.{subst}
use aquaops_copilot.Common.{
  ℕ, ◌+◌, ◌-◌, ◌*◌, ◌<◌, String, ◌≡◌, refl, sym, inl, inr, Bool-cases, Bool, true, not, Option,
  none, some, List, [], ◌∷◌, arith, if◌then◌else◌, leb, leb→le, ◌==◌, contains, ap, Outcome, ok,
  err, bind-ok, require-ok, ok_same, eq_refl,
}
use aquaops_copilot.Agent.Authorize.{text, integer}
use aquaops_copilot.Data.Numbers.{
  Numbers, Datetimes, parse_canonical, hour, PublicObservation, indicators, unit_of, DataError,
  no_observations, not_finite, finite_or_none, finite_values,
}
use aquaops_copilot.Data.Window.{
  PublicWindowSummary, Tally, with_min, with_max, with_value, with_null, count_value, counted,
  in_window, tally_window, empty_tally, mean_of, finite_mean, summarized, summary_of,
  summarize_public_window, observed, validate_query,
}
use aquaops_copilot.Data.Boundary.Requests.{parse_write, queried, observed_of, earlier}
use aquaops_copilot.Data.Boundary.{
  valid_aggregate, statistics_valid, ToolResult, delivered, public_evidence_unavailable,
  invalid_public_request, valid_public_request, aggregated, query_public_historical_window,
}

module _ {S : Type 0} (f : Numbers S) where
  -- The extremes of a tally are finite, and it has no more missing values than rows.
  record Finite (t : Tally S) : Type 0 where
    low : finite_or_none f t.minimum ≡ true
    high : finite_or_none f t.maximum ≡ true
    counts : t.row_count ≡ t.null_count + t.non_null_count

  min-finite :
      (a : Option S) (v : S)
      → finite_or_none f a ≡ true
      → f.is_finite v ≡ true
      → f.is_finite (with_min f a v) ≡ true
  min-finite none v h e = e
  min-finite (some a) v h e = ground arith

  max-finite :
      (a : Option S) (v : S)
      → finite_or_none f a ≡ true
      → f.is_finite v ≡ true
      → f.is_finite (with_max f a v) ≡ true
  max-finite none v h e = e
  max-finite (some a) v h e = ground arith

  count_value-Finite :
      (v : Option S) (t t' : Tally S)
      → finite_or_none f v ≡ true
      → Finite t
      → count_value f v t ≡ ok t'
      → Finite t'
  unfolding count_value
  count_value-Finite none t t' v h e =
      subst Finite (ok_same (count_value f none t) (with_null t) t' refl e)
        (record { low = h.low; high = h.high; counts = omega (arith, h.counts) })
  count_value-Finite (some v) t t' fv h e =
      elim (Bool-cases (f.is_finite (f.add t.numeric_total v))) [
        | inl y ↦
            subst Finite (ok_same (count_value f (some v) t) (with_value f v t) t' (ground arith) e)
              (record {
                low = min-finite t.minimum v h.low fv;
                high = max-finite t.maximum v h.high fv;
                counts = omega (arith, h.counts);
              })
        | inr n ↦ absurd (ground arith)
      ]

  tally_window-Finite :
      (start end : ℕ) (indicator : String) (os : List (PublicObservation S)) (t t' : Tally S)
      → finite_values f indicator os ≡ true
      → Finite t
      → tally_window f start end indicator os t ≡ ok t'
      → Finite t'
  unfolding tally_window
  tally_window-Finite start end indicator [] t t' v h e =
      subst Finite (ok_same (ok t) t t' refl e) h
  tally_window-Finite start end indicator (b ∷ os) t t' v h e =
      let (u, e1, e2) =
        bind-ok (counted f start end indicator b t) (λ k. tally_window f start end indicator os k)
          t' e in
      let next : Finite u = elim (Bool-cases (in_window start end b.timestamp)) [
        | inl y ↦ count_value-Finite (b.values indicator) t u (ground arith) h (ground arith)
        | inr n ↦ subst Finite (ok_same (counted f start end indicator b t) t u (ground arith) e1) h
      ] in
      tally_window-Finite start end indicator os u t' (ground arith) next e2

  -- The statistics of a summary, as the boundary tests them.
  abbrev pub statistics_ordered : Datetimes → PublicWindowSummary S → Bool
  statistics_ordered d s =
      statistics_valid f d (s.row_count - s.null_count) s.minimum s.mean s.maximum

  mean-finite : (m : Option S) → finite_mean f m ≡ true → finite_or_none f m ≡ true
  mean-finite none e = refl
  mean-finite (some v) e = e

  module _ (d : Datetimes) (observations : Option (List (PublicObservation S))) where
    summarized-valid :
        (indicator : String) (start end : ℕ) (t : Tally S) (s : PublicWindowSummary S)
        → contains indicators indicator ≡ true
        → start < end
        → parse_canonical d (d.write start) ≡ some start
        → parse_canonical d (d.write end) ≡ some end
        → Finite t
        → summarized f d indicator start end t ≡ ok s
        → valid_aggregate f d s ≡ statistics_ordered d s
    unfolding valid_aggregate
    summarized-valid indicator start end t s known later first last h e =
        let (some_row, e1) = require-ok (not (t.row_count == 0)) no_observations _ s e in
        let (finite, e2) = require-ok (finite_mean f (mean_of f t)) not_finite _ s e1 in
        subst (λ x. valid_aggregate f d x ≡ statistics_ordered d x)
          (ok_same (ok (summary_of f d indicator start end t)) _ s refl e2)
          (ground (
            arith,
            known,
            h.low,
            h.high,
            h.counts,
            mean-finite (mean_of f t) finite,
            first,
            last,
            eq_refl (unit_of indicator),
          ))

    -- What the boundary makes of the answer of a summary.
    abbrev pub delivered_if_ordered :
        Outcome DataError (PublicWindowSummary S) → ToolResult (PublicWindowSummary S)
    delivered_if_ordered (err e) = public_evidence_unavailable
    delivered_if_ordered (ok s) =
        if statistics_ordered d s then delivered s else public_evidence_unavailable

    summary-valid :
        (indicator : String) (hours : ℕ) (end_at : String) (s : PublicWindowSummary S)
        → ((os : List (PublicObservation S))
            → observations ≡ some os
            → finite_values f indicator os ≡ true)
        → summarize_public_window f d observations indicator hours end_at ≡ ok s
        → valid_aggregate f d s ≡ statistics_ordered d s
    unfolding summarize_public_window
    summary-valid indicator hours end_at s v e =
        let (end, e1, e2) = bind-ok (validate_query d indicator hours end_at) _ s e in
        let (room, e3) = require-ok (leb (hours * hour) end) _ _ s e2 in
        let (os, e4, e5) = bind-ok (observed observations) _ s e3 in
        let (t, e6, e7) =
          bind-ok (tally_window f (end - hours * hour) end indicator os (empty_tally f)) _ s e5 in
        let (known, at_least, p) = queried d indicator hours end_at end e1 in
        summarized-valid indicator (end - hours * hour) end t s known
          (earlier hours end at_least (leb→le (hours * hour) end room))
          (parse_write d end_at (end - hours * hour) end p (omega arith))
          (parse_write d end_at end end p (omega arith))
          (tally_window-Finite (end - hours * hour) end indicator os (empty_tally f) t
            (v os (observed_of observations os e4))
            (record { low = refl; high = refl; counts = refl }) e6)
          e7

    -- Where the observations are finite, an accepted request for a window is answered with the
    -- summary that is returned if it has no value or its mean is not below the minimum nor above
    -- the maximum, and otherwise, or if no summary is returned, with `public_evidence_unavailable`.
    pub tool_delivers_window :
        (indicator : String) (hours : ℕ) (end_at : String)
        → ((os : List (PublicObservation S))
            → observations ≡ some os
            → finite_values f indicator os ≡ true)
        → valid_public_request d (text indicator) (integer hours) (text end_at) ≡ true
        → query_public_historical_window f d observations
            (text indicator)
            (integer hours)
            (text end_at)
          ≡ delivered_if_ordered (summarize_public_window f d observations indicator hours end_at)
    unfolding query_public_historical_window
    tool_delivers_window indicator hours end_at v r =
        subst
          (λ b.
            (if b
              then aggregated f d observations
                  (summarize_public_window f d observations indicator hours end_at)
              else invalid_public_request)
            ≡ delivered_if_ordered
                (summarize_public_window f d observations indicator hours end_at))
          (sym r)
          (elim (summarize_public_window f d observations indicator hours end_at)
              as (λ x.
                summarize_public_window f d observations indicator hours end_at ≡ x
                → aggregated f d observations x ≡ delivered_if_ordered x) [
                  | ok s ↦ λ e.
                      ap (λ b. if b then delivered s else public_evidence_unavailable)
                        (summary-valid indicator hours end_at s v e)
                  | err x ↦ λ e. refl
                ]
            refl)
