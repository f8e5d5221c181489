-- ===== src/Data/Numbers.antt =====
-- What the data layer uses of Python's floats, of `statistics.median` and of `datetime`, and the
-- observations of the public history.
use aquaops_copilot.Common.{
  ℕ, ◌*◌, ◌≤◌, String, ◌≡◌, ◌⊎◌, Bool, true, false, ◌||◌, not, Option, none, some, List, [], ◌∷◌,
  if◌then◌else◌, all, str_eq,
}

pub record Numbers (S : Type 0) : Type 0 where
  pub zero_value : S
  pub add : S → S → S
  pub sub : S → S → S
  pub mul : S → S → S
  pub div : S → S → S
  pub abs : S → S
  pub less : S → S → Bool
  pub equal : S → S → Bool
  pub is_finite : S → Bool
  pub from_count : ℕ → S
  -- n / 4
  pub quarters : ℕ → S
  pub median : List S → S
  -- 1.4826, 1.349 and 3.5
  pub mad_normalization : S
  pub iqr_normalization : S
  pub robust_score_threshold : S

module _ {S : Type 0} (f : Numbers S) where
  abbrev pub at_most : S → S → Bool
  at_most a b = f.less a b || f.equal a b

  -- min(a, b) and max(a, b)
  abbrev pub min_of : S → S → S
  min_of a b = if f.less b a then b else a

  abbrev pub max_of : S → S → S
  max_of a b = if f.less a b then b else a

  -- Laws of comparisons without NaN, and of the sign of a result.
  pub record IsOrdered : Type 0 where
    pub less_asym : (a b : S) → f.less a b ≡ true → f.less b a ≡ false
    pub equal_not_less : (a b : S) → f.equal a b ≡ true → f.less a b ≡ false
    pub equal_not_greater : (a b : S) → f.equal a b ≡ true → f.less b a ≡ false
    pub less_cut : (a b c : S) → f.less a c ≡ true → (f.less a b ≡ true) ⊎ (f.less b c ≡ true)
    pub abs_sign : (a : S) → f.less (f.abs a) f.zero_value ≡ false
    pub median_sign :
        (xs : List S)
        → all (λ x. not (f.less x f.zero_value)) xs ≡ true
        → f.less (f.median xs) f.zero_value ≡ false
    pub mad_sign :
        (a : S)
        → f.less a f.zero_value ≡ false
        → f.less (f.mul f.mad_normalization a) f.zero_value ≡ false

-- An instant is a number of microseconds. `read` is `datetime.fromisoformat` of a text that ends in
-- "Z", with that end read as "+00:00", brought to UTC; `write` is `isoformat` in UTC with the end "Z".
pub record Datetimes : Type 0 where
  pub read : String → Option ℕ
  pub write : ℕ → String
  -- An instant that is not after one that is read is written in a form that is read.
  pub read_write : (s : String) (t u : ℕ) → read s ≡ some u → t ≤ u → read (write t) ≡ some t

-- `_parse_canonical_end_at` and `_parse_canonical_utc_z`: only the text that `write` gives
abbrev canonical : Datetimes → String → Option ℕ → Option ℕ
canonical d s none = none
canonical d s (some t) = if str_eq (d.write t) s then some t else none

unfoldable pub parse_canonical : Datetimes → String → Option ℕ
parse_canonical d s = canonical d s (d.read s)

abbrev pub hour : ℕ
hour = 3600 * 1000000

-- The source is the one public source; the values are by indicator.
pub record PublicObservation (S : Type 0) : Type 0 where
  pub timestamp : ℕ
  pub values : String → Option S

abbrev pub indicators : List String
indicators = "nh4" ∷ "cond" ∷ "q" ∷ []

-- _INDICATOR_UNITS, of an indicator
unfoldable pub unit_of : String → String
unit_of indicator =
    if str_eq indicator "nh4" then "mg/L" else if str_eq indicator "cond" then "µS/cm" else "L/s"

pub data DataError : Type 0 where
  unsupported_source unsupported_indicator invalid_hours invalid_minimum invalid_end : DataError
  out_of_range unavailable not_finite no_observations no_history : DataError

-- `_require_finite`
abbrev pub finite_or_none : {S : Type 0} → Numbers S → Option S → Bool
finite_or_none f none = true
finite_or_none f (some v) = f.is_finite v

-- The loader lets only finite values through.
abbrev pub finite_values : {S : Type 0} → Numbers S → String → List (PublicObservation S) → Bool
finite_values f i = all (λ o. finite_or_none f (o.values i))
