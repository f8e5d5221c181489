-- ===== src/Data/Boundary/Aggregates.antt =====
-- What the summary of a window holds.
use mathlib.Core.Path.{subst}
use aquaops_copilot.Common.{
  ℕ, ◌-◌, ◌*◌, ◌≤◌, String, ◌≡◌, refl, true, not, Option, some, List, [], length, arith, leb, ◌==◌,
  all, ok, bind-ok, require-ok, ok_same, is_none,
}
use aquaops_copilot.Data.Numbers.{
  Numbers, IsOrdered, Datetimes, parse_canonical, hour, PublicObservation, no_observations,
  not_finite,
}
use aquaops_copilot.Data.Window.{
  PublicWindowSummary, Tally, tally_window, empty_tally, mean_of, finite_mean, summarized,
  summary_of, summarize_public_window, observed, validate_query,
}
use aquaops_copilot.Data.Boundary.Requests.{queried, observed_of}
use aquaops_copilot.Data.Boundary.Tallies.{
  window_values, nulls, mean_value, within, Tallied, tally_window-Tallied, empty-Tallied,
}

module _ {S : Type 0} (f : Numbers S) where
  -- What a summary says of the values of its window.
  abbrev pub Describes : List (Option S) → PublicWindowSummary S → Type 0
  Describes vs s =
      (s.row_count ≡ length vs)
      × (1 ≤ s.row_count)
      × (s.null_count ≡ nulls f vs)
      × (all (within f s.minimum s.maximum) vs ≡ true)
      × (is_none s.minimum ≡ (nulls f vs == length vs))
      × (is_none s.maximum ≡ (nulls f vs == length vs))
      × (s.mean ≡ mean_value f vs)

  mean_lem : (vs : List (Option S)) (t : Tally S) → Tallied f vs t → mean_of f t ≡ mean_value f vs
  unfolding mean_value
  mean_lem vs t h =
      let count : t.non_null_count ≡ length vs - nulls f vs = omega (arith, h.total, h.missing) in
      let sum = h.sum in ground (arith, h.total, h.missing)

  summarized-Describes :
      (d : Datetimes) (indicator : String) (start end : ℕ) (vs : List (Option S)) (t : Tally S)
      (s : PublicWindowSummary S)
      → Tallied f vs t
      → summarized f d indicator start end t ≡ ok s
      → Describes vs s
  unfolding mean_value
  summarized-Describes d indicator start end vs t s h e =
      let (some_row, e1) = require-ok (not (t.row_count == 0)) no_observations _ s e in
      let (finite, e2) = require-ok (finite_mean f (mean_of f t)) not_finite _ s e1 in
      subst (Describes vs) (ok_same (ok (summary_of f d indicator start end t)) _ s refl e2) (
        h.rows,
        ground arith,
        h.missing,
        h.bounds,
        ground (arith, h.no_minimum),
        ground (arith, h.no_maximum),
        mean_lem vs t h,
      )

  module _ (d : Datetimes) (observations : Option (List (PublicObservation S))) where
    -- A summary of the window of `hours` before `end` describes the values of the observations
    -- after its start and not after its end: it counts them and their missing ones, its minimum
    -- and maximum enclose every value, and its statistics are missing exactly if every value is.
    pub summarize_public_window-Describes :
        (o : IsOrdered f) (indicator : String) (hours end : ℕ) (end_at : String)
        (os : List (PublicObservation S)) (s : PublicWindowSummary S)
        → parse_canonical d end_at ≡ some end
        → observations ≡ some os
        → summarize_public_window f d observations indicator hours end_at ≡ ok s
        → Describes (window_values f (end - hours * hour) end indicator os) s
    unfolding summarize_public_window
    summarize_public_window-Describes o indicator hours end end_at os s p l e =
        let (end', e1, e2) = bind-ok (validate_query d indicator hours end_at) _ s e in
        let (room, e3) = require-ok (leb (hours * hour) end') _ _ s e2 in
        let (os', e4, e5) = bind-ok (observed observations) _ s e3 in
        let (t, e6, e7) =
          bind-ok (tally_window f (end' - hours * hour) end' indicator os' (empty_tally f)) _ s
            e5 in
        let (_, _, q) = queried d indicator hours end_at end' e1 in
        let same_end : end' ≡ end = cc (q, p) in
        let same_rows : os' ≡ os = cc (observed_of observations os' e4, l) in
        let start = end' - hours * hour in
        let tallied =
          tally_window-Tallied f o start end' indicator os' [] (empty_tally f) t (empty-Tallied f)
            e6 in
        let told =
          summarized-Describes d indicator start end' (window_values f start end' indicator os') t s
            tallied e7 in
        subst (λ x. Describes (window_values f (x - hours * hour) x indicator os) s) same_end
          (subst (λ x. Describes (window_values f start end' indicator x) s) same_rows told)
