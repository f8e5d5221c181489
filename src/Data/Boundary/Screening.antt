-- ===== src/Data/Boundary/Screening.antt =====
-- A screening that returns crosses the boundary of the tool.
use mathlib.Core.Path.{subst}
use aquaops_copilot.Common.{
  ℕ, ◌+◌, ◌≤◌, ◌<◌, String, ◌≡◌, refl, sym, ap, inl, inr, Bool-cases, Option-cases, true, false,
  not, some, List, [], ◌∷◌, map, arith, length, length-append, all, contains, ok, ◌>>=◌, bind-ok,
  ok_same, eq_refl,
}
use aquaops_copilot.Data.Numbers.{
  Numbers, IsOrdered, Datetimes, parse_canonical, PublicObservation, indicators, unit_of,
}
use aquaops_copilot.Data.Anomaly.{
  AnomalyMethod, rolling_median_iqr_fallback, History, require_finite, gather_value, gathered,
  gather_history, scale_of, by_quartiles, by_deviation, iqr_scale, linear_percentile, sorted_from,
  direction_of, exceeds, without_target, without_history, flat, scored,
}
use aquaops_copilot.Data.Boundary.{valid_anomaly, is_robust, direction_fits}

module _ {S : Type 0} (f : Numbers S) where
  pub finite_of : (v w : S) → require_finite f v ≡ ok w → (v ≡ w) × (f.is_finite w ≡ true)
  unfolding require_finite
  finite_of v w e = (ground arith, ground arith)

  -- The counts of a history: what is not missing is a value.
  abbrev pub Counted : History S → Type 0
  Counted h = h.history_count ≡ h.history_null_count + length h.history_values

  gathered-Counted :
      (start end : ℕ) (indicator : String) (o : PublicObservation S) (h h' : History S)
      → Counted h
      → gathered f start end indicator o h ≡ ok h'
      → Counted h'
  unfolding gather_value require_finite
  gathered-Counted start end indicator o h h' c e = elim (Option-cases (o.values indicator)) [
    | inl n ↦ ground arith
    | inr (v, q) ↦ ground (arith, length-append h.history_values (v ∷ []))
  ]

  pub gather_history-Counted :
      (start end : ℕ) (indicator : String) (os : List (PublicObservation S)) (h h' : History S)
      → Counted h
      → gather_history f start end indicator os h ≡ ok h'
      → Counted h'
  unfolding gather_history
  gather_history-Counted start end indicator [] h h' c e =
      subst Counted (ok_same (ok h) h h' refl e) c
  gather_history-Counted start end indicator (o ∷ os) h h' c e =
      let (k, e1, e2) =
        bind-ok (gathered f start end indicator o h)
          (λ k. gather_history f start end indicator os k) h' e in
      gather_history-Counted start end indicator os k h'
        (gathered-Counted start end indicator o h k c e1) e2

  -- Deviations are not below zero, nor is their median, nor the scale made of it.
  deviations_sign :
      (o : IsOrdered f) (baseline : S) (vs : List S)
      → all (λ x. not (f.less x f.zero_value)) (map (λ v. f.abs (f.sub v baseline)) vs) ≡ true
  deviations_sign o baseline [] = refl
  deviations_sign o baseline (v ∷ vs) =
      ground (arith, o.abs_sign (f.sub v baseline), deviations_sign o baseline vs)

  iqr_scale-finite :
      (vs : List S) (scale : S) → iqr_scale f vs ≡ ok scale → f.is_finite scale ≡ true
  unfolding iqr_scale
  iqr_scale-finite vs scale e =
      let (first, _, e1) = bind-ok (linear_percentile f (sorted_from f [] vs) 1) _ scale e in
      let (third, _, e2) = bind-ok (linear_percentile f (sorted_from f [] vs) 3) _ scale e1 in
      let (iqr, _, e3) = bind-ok (require_finite f (f.sub third first)) _ scale e2 in
      (finite_of (f.div iqr f.iqr_normalization) scale e3).1

  by_mad :
      (mad s : S) (vs : List S) (method : AnomalyMethod) (scale : S)
      → f.is_finite s ≡ true
      → f.less s f.zero_value ≡ false
      → by_deviation f mad s vs ≡ ok (method, scale)
      → (method ≡ rolling_median_iqr_fallback → f.less scale f.zero_value ≡ false)
      → (f.is_finite scale ≡ true) × (is_robust method ≡ true) × (f.less scale f.zero_value ≡ false)
  by_mad mad s vs method scale fin sign e quartiles = elim (Bool-cases (f.equal mad f.zero_value)) [
    | inl y ↦
        let by_iqr : (iqr_scale f vs >>= by_quartiles f) ≡ ok (method, scale) = ground arith in
        let (iqr, i, same) = bind-ok (iqr_scale f vs) (by_quartiles f) (method, scale) by_iqr in
        let pair =
          ok_same (by_quartiles f iqr) (rolling_median_iqr_fallback, iqr) (method, scale) refl
            same in
        let is_iqr = sym (ap (λ x. x.0) pair) in
        (
          subst (λ x. f.is_finite x ≡ true) (ap (λ x. x.1) pair) (iqr_scale-finite vs iqr i),
          subst (λ m. is_robust m ≡ true) (sym is_iqr) refl,
          quartiles is_iqr,
        )
    | inr n ↦ (ground arith, ground arith, ground arith)
  ]

  -- The scale of a baseline, unless it comes from its quartiles, is not below zero.
  pub scale_of_lem :
      (o : IsOrdered f) (baseline : S) (vs : List S) (method : AnomalyMethod) (scale : S)
      → scale_of f baseline vs ≡ ok (method, scale)
      → (method ≡ rolling_median_iqr_fallback → f.less scale f.zero_value ≡ false)
      → (f.is_finite scale ≡ true) × (is_robust method ≡ true) × (f.less scale f.zero_value ≡ false)
  unfolding scale_of
  scale_of_lem o baseline vs method scale e quartiles =
      let (mad, e1, e2) =
        bind-ok (require_finite f (f.median (map (λ v. f.abs (f.sub v baseline)) vs))) _
          (method, scale) e in
      let (s, e3, e4) =
        bind-ok (require_finite f (f.mul f.mad_normalization mad)) _ (method, scale) e2 in
      let (m, _) = finite_of (f.median (map (λ v. f.abs (f.sub v baseline)) vs)) mad e1 in
      let (n, fin) = finite_of (f.mul f.mad_normalization mad) s e3 in
      let median =
        o.median_sign (map (λ v. f.abs (f.sub v baseline)) vs) (deviations_sign o baseline vs) in
      let sign =
        subst (λ x. f.less x f.zero_value ≡ false) n
          (o.mad_sign mad (subst (λ x. f.less x f.zero_value ≡ false) m median)) in
      by_mad mad s vs method scale fin sign e4 quartiles

  direction_of-fits :
      (o : IsOrdered f) (d : Datetimes) (score : S)
      → direction_fits f d score (direction_of f score) ≡ true
  direction_of-fits o d score = ground (
    arith,
    o.less_asym f.zero_value score,
    o.equal_not_less score f.zero_value,
    o.equal_not_greater score f.zero_value,
  )

  module _ (d : Datetimes) (indicator : String) (start end : ℕ) (h : History S) where
    -- What the boundary asks of the window and of the counts.
    pub record Asked : Type 0 where
      pub known : contains indicators indicator ≡ true
      pub later : start < end
      pub counts : Counted h
      pub written_start : parse_canonical d (d.write start) ≡ some start
      pub written_end : parse_canonical d (d.write end) ≡ some end

    pub without_target-valid :
        Asked → valid_anomaly f d (without_target f d indicator start end h) ≡ true
    unfolding valid_anomaly
    without_target-valid a =
        ground (arith, a.written_start, a.written_end, eq_refl (unit_of indicator))

    pub without_history-valid :
        Asked
        → length h.history_values < 48
        → valid_anomaly f d (without_history f d indicator start end h) ≡ true
    unfolding valid_anomaly
    without_history-valid a few =
        ground (arith, a.written_start, a.written_end, eq_refl (unit_of indicator))

    pub scored-valid :
        (o : IsOrdered f) (baseline scale score : S) (method : AnomalyMethod)
        → Asked
        → 48 ≤ length h.history_values
        → f.is_finite baseline ≡ true
        → f.is_finite scale ≡ true
        → f.is_finite score ≡ true
        → is_robust method ≡ true
        → f.less scale f.zero_value ≡ false
        → f.equal scale f.zero_value ≡ false
        → valid_anomaly f d (scored f d indicator start end h baseline scale method score) ≡ true
    unfolding valid_anomaly
    scored-valid o baseline scale score method a many fb fs fr robust sign nonzero =
        let fits = direction_of-fits o d score in
        let first = a.written_start in
        let last = a.written_end in
        let unit = eq_refl (unit_of indicator) in
        elim (Bool-cases (exceeds f score)) [ inl y ↦ ground arith | inr n ↦ ground arith ]

    pub flat-valid :
        (baseline scale : S)
        → Asked
        → 48 ≤ length h.history_values
        → f.is_finite baseline ≡ true
        → f.is_finite scale ≡ true
        → f.equal scale f.zero_value ≡ true
        → valid_anomaly f d (flat f d indicator start end h baseline scale) ≡ true
    unfolding valid_anomaly
    flat-valid baseline scale a many fb fs zero =
        ground (arith, a.written_start, a.written_end, eq_refl (unit_of indicator))

    -- What a scale has to be for its screening to be valid.
    pub record Scaled (baseline : S) (method : AnomalyMethod) (scale : S) : Type 0 where
      pub many : 48 ≤ length h.history_values
      pub finite_baseline : f.is_finite baseline ≡ true
      pub finite_scale : f.is_finite scale ≡ true
      pub robust : is_robust method ≡ true
      pub sign : f.less scale f.zero_value ≡ false
