-- ===== src/Data/Boundary/Tallies.antt =====
-- What the loop over a window has counted.
use mathlib.Core.Path.{subst}
use mathlib.Core.List.{append_assoc, append-nil}
use aquaops_copilot.Common.{
  ℕ, ◌+◌, ◌-◌, String, ◌≡◌, refl, sym, ap, ◌∙◌, inl, inr, Bool-cases, Bool, true, false, ◌&&◌, not,
  Option, none, some, List, [], ◌∷◌, ◌++◌, length, length-append, arith, if◌then◌else◌, ◌==◌, all,
  all_mono, ok, bind-ok, ok_same, is_none,
}
use aquaops_copilot.Data.Numbers.{Numbers, IsOrdered, min_of, max_of, PublicObservation}
use aquaops_copilot.Data.Window.{
  with_min, with_max, with_value, with_null, Tally, in_window, count_value, counted, tally_window,
  empty_tally,
}

module _ {S : Type 0} (f : Numbers S) where
  unfoldable pub value_in : ℕ → ℕ → String → PublicObservation S → List (Option S)
  value_in start end indicator o =
      if in_window start end o.timestamp then o.values indicator ∷ [] else []

  -- The values of the observations of a window, in their order.
  unfoldable pub window_values : ℕ → ℕ → String → List (PublicObservation S) → List (Option S)
  window_values start end indicator [] = []
  window_values start end indicator (o ∷ os) =
      value_in start end indicator o ++ window_values start end indicator os

  unfoldable pub nulls : List (Option S) → ℕ
  nulls [] = 0
  nulls (none ∷ vs) = 1 + nulls vs
  nulls (some v ∷ vs) = nulls vs

  -- The sum of the values, in their order, from a first sum.
  unfoldable pub total_of : S → List (Option S) → S
  total_of x [] = x
  total_of x (none ∷ vs) = total_of x vs
  total_of x (some v ∷ vs) = total_of (f.add x v) vs

  -- The mean of the values, if there is one.
  unfoldable pub mean_value : List (Option S) → Option S
  mean_value vs =
      if nulls vs == length vs
      then none
      else some (f.div (total_of f.zero_value vs) (f.from_count (length vs - nulls vs)))

  -- A value is between a minimum and a maximum.
  abbrev pub within : Option S → Option S → Option S → Bool
  within a b none = true
  within (some a) (some b) (some v) = not (f.less v a) && not (f.less b v)
  within none b (some v) = false
  within (some a) none (some v) = false

  nulls-append : (vs ws : List (Option S)) → nulls (vs ++ ws) ≡ nulls vs + nulls ws
  unfolding nulls
  nulls-append [] ws = omega arith
  nulls-append (none ∷ vs) ws = ground (arith, nulls-append vs ws)
  nulls-append (some v ∷ vs) ws = nulls-append vs ws

  total_of-append :
      (x : S) (vs ws : List (Option S)) → total_of x (vs ++ ws) ≡ total_of (total_of x vs) ws
  unfolding total_of
  total_of-append x [] ws = refl
  total_of-append x (none ∷ vs) ws = total_of-append x vs ws
  total_of-append x (some v ∷ vs) ws = total_of-append (f.add x v) vs ws

  -- What a tally says of the values counted so far.
  pub record Tallied (vs : List (Option S)) (t : Tally S) : Type 0 where
    pub rows : t.row_count ≡ length vs
    pub missing : t.null_count ≡ nulls vs
    pub total : t.non_null_count + t.null_count ≡ length vs
    pub sum : t.numeric_total ≡ total_of f.zero_value vs
    pub bounds : all (within t.minimum t.maximum) vs ≡ true
    pub no_minimum : is_none t.minimum ≡ (t.non_null_count == 0)
    pub no_maximum : is_none t.maximum ≡ (t.non_null_count == 0)

  irreflexive : (o : IsOrdered f) (v : S) → f.less v v ≡ false
  irreflexive o v = ground (arith, o.less_asym v v)

  lower : (o : IsOrdered f) (a v w : S) → f.less w a ≡ false → f.less w (min_of f a v) ≡ false
  lower o a v w e = ground (arith, o.less_cut v w a, o.less_asym v w)

  upper : (o : IsOrdered f) (b v w : S) → f.less b w ≡ false → f.less (max_of f b v) w ≡ false
  upper o b v w e = ground (arith, o.less_cut b w v, o.less_asym w v)

  -- A further value keeps the earlier ones within, and is itself within.
  within_grow :
      (o : IsOrdered f) (a b : Option S) (v : S) (w : Option S)
      → within a b w ≡ true
      → within (some (with_min f a v)) (some (with_max f b v)) w ≡ true
  within_grow o a b v none e = refl
  within_grow o none b v (some w) e = absurd (cc e)
  within_grow o (some a) none v (some w) e = absurd (cc e)
  within_grow o (some a) (some b) v (some w) e =
      let l = lower o a v w (ground arith) in let u = upper o b v w (ground arith) in ground arith

  at_least_itself : (o : IsOrdered f) (a : Option S) (v : S) → f.less v (with_min f a v) ≡ false
  at_least_itself o none v = irreflexive o v
  at_least_itself o (some a) v = ground (arith, irreflexive o v)

  at_most_itself : (o : IsOrdered f) (a : Option S) (v : S) → f.less (with_max f a v) v ≡ false
  at_most_itself o none v = irreflexive o v
  at_most_itself o (some a) v = ground (arith, irreflexive o v)

  all-append :
      {A : Type 0} (p : A → Bool) (xs : List A) (x : A)
      → all p xs ≡ true
      → p x ≡ true
      → all p (xs ++ (x ∷ [])) ≡ true
  all-append p [] x h e = ground arith
  all-append p (y ∷ xs) x h e = ground (arith, all-append p xs x)

  value-Tallied :
      (o : IsOrdered f) (v : S) (vs : List (Option S)) (t : Tally S)
      → Tallied vs t
      → Tallied (vs ++ (some v ∷ [])) (with_value f v t)
  unfolding nulls total_of
  value-Tallied o v vs t h =
      let missing = nulls-append vs (some v ∷ []) in
      let size = length-append vs (some v ∷ []) in
      record {
        rows = ground (arith, h.rows);
        missing = ground (arith, h.missing);
        total = ground (arith, h.total);
        sum = ap (λ x. f.add x v) h.sum ∙ sym (total_of-append f.zero_value vs (some v ∷ []));
        bounds =
            all-append (within (some (with_min f t.minimum v)) (some (with_max f t.maximum v))) vs
              (some v) (all_mono _ _ vs (within_grow o t.minimum t.maximum v) h.bounds)
              (ground (arith, at_least_itself o t.minimum v, at_most_itself o t.maximum v));
        no_minimum = ground arith;
        no_maximum = ground arith;
      }

  null-Tallied :
      (vs : List (Option S)) (t : Tally S)
      → Tallied vs t
      → Tallied (vs ++ (none ∷ [])) (with_null t)
  unfolding nulls total_of
  null-Tallied vs t h =
      let missing = nulls-append vs (none ∷ []) in
      let size = length-append vs (none ∷ []) in
      record {
        rows = ground (arith, h.rows);
        missing = ground (arith, h.missing);
        total = ground (arith, h.total);
        sum = h.sum ∙ sym (total_of-append f.zero_value vs (none ∷ []));
        bounds = all-append (within t.minimum t.maximum) vs none h.bounds refl;
        no_minimum = h.no_minimum;
        no_maximum = h.no_maximum;
      }

  count_value-Tallied :
      (o : IsOrdered f) (v : Option S) (vs : List (Option S)) (t t' : Tally S)
      → Tallied vs t
      → count_value f v t ≡ ok t'
      → Tallied (vs ++ (v ∷ [])) t'
  unfolding count_value
  count_value-Tallied o none vs t t' h e =
      subst (Tallied (vs ++ (none ∷ []))) (ok_same (count_value f none t) (with_null t) t' refl e)
        (null-Tallied vs t h)
  count_value-Tallied o (some v) vs t t' h e =
      elim (Bool-cases (f.is_finite (f.add t.numeric_total v))) [
        | inl y ↦
            subst (Tallied (vs ++ (some v ∷ [])))
              (ok_same (count_value f (some v) t) (with_value f v t) t' (ground arith) e)
              (value-Tallied o v vs t h)
        | inr n ↦ absurd (ground arith)
      ]

  counted-Tallied :
      (o : IsOrdered f) (start end : ℕ) (indicator : String) (b : PublicObservation S)
      (vs : List (Option S)) (t t' : Tally S)
      → Tallied vs t
      → counted f start end indicator b t ≡ ok t'
      → Tallied (vs ++ value_in start end indicator b) t'
  unfolding value_in
  counted-Tallied o start end indicator b vs t t' h e =
      elim (Bool-cases (in_window start end b.timestamp)) [
        | inl y ↦
            subst (λ c. Tallied (vs ++ (if c then b.values indicator ∷ [] else [])) t') (sym y)
              (count_value-Tallied o (b.values indicator) vs t t' h (ground arith))
        | inr n ↦
            subst (λ c. Tallied (vs ++ (if c then b.values indicator ∷ [] else [])) t') (sym n)
              (subst (λ x. Tallied x t') (sym (append-nil vs))
                (subst (Tallied vs)
                  (ok_same (counted f start end indicator b t) t t' (ground arith) e) h))
      ]

  pub tally_window-Tallied :
      (o : IsOrdered f) (start end : ℕ) (indicator : String) (os : List (PublicObservation S))
      (vs : List (Option S)) (t t' : Tally S)
      → Tallied vs t
      → tally_window f start end indicator os t ≡ ok t'
      → Tallied (vs ++ window_values start end indicator os) t'
  unfolding tally_window window_values
  tally_window-Tallied o start end indicator [] vs t t' h e =
      subst (λ x. Tallied x t') (sym (append-nil vs))
        (subst (Tallied vs) (ok_same (ok t) t t' refl e) h)
  tally_window-Tallied o start end indicator (b ∷ os) vs t t' h e =
      let (u, e1, e2) =
        bind-ok (counted f start end indicator b t) (λ k. tally_window f start end indicator os k)
          t' e in
      let here = value_in start end indicator b in
      subst (λ x. Tallied x t') (append_assoc vs here (window_values start end indicator os))
        (tally_window-Tallied o start end indicator os (vs ++ here) u t'
          (counted-Tallied o start end indicator b vs t u h e1) e2)

  pub empty-Tallied : Tallied [] (empty_tally f)
  unfolding nulls total_of
  empty-Tallied = record {
    rows = refl;
    missing = refl;
    total = refl;
    sum = refl;
    bounds = refl;
    no_minimum = refl;
    no_maximum = refl;
  }
