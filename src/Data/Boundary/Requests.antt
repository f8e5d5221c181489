-- ===== src/Data/Boundary/Requests.antt =====
-- What a request that was accepted says of its texts and numbers.
use aquaops_copilot.Common.{
  ℕ, ◌-◌, ◌*◌, ◌≤◌, ◌<◌, String, ◌≡◌, inl, inr, Option-cases, true, Option, none, some, arith,
  contains, str_eq, ok, require-ok, eq_refl,
}
use aquaops_copilot.Common.Text.{between}
use aquaops_copilot.Data.Numbers.{
  Datetimes, parse_canonical, hour, indicators, DataError, unsupported_source,
  unsupported_indicator, invalid_hours, invalid_end,
}
use aquaops_copilot.Data.Window.{end_or, observed, validate_query}
use aquaops_copilot.Data.Anomaly.{validate_screening, public_source_id}

pub canonical_of :
    (d : Datetimes) (s : String) (t : ℕ)
    → parse_canonical d s ≡ some t
    → str_eq (d.write t) s ≡ true
unfolding parse_canonical
canonical_of d s t e = elim (Option-cases (d.read s)) [
  | inl n ↦ ground arith
  | inr (u, q) ↦ ground arith
]

read_of : (d : Datetimes) (s : String) (t : ℕ) → parse_canonical d s ≡ some t → d.read s ≡ some t
unfolding parse_canonical
read_of d s t e = elim (Option-cases (d.read s)) [
  | inl n ↦ ground arith
  | inr (u, q) ↦ ground arith
]

-- What is written of an instant that is not after the end is canonical.
pub parse_write :
    (d : Datetimes) (s : String) (t u : ℕ)
    → parse_canonical d s ≡ some u
    → t ≤ u
    → parse_canonical d (d.write t) ≡ some t
unfolding parse_canonical
parse_write d s t u e b =
    ground (arith, d.read_write s t u (read_of d s u e) b, eq_refl (d.write t))

pub end_of : (t : Option ℕ) (e : DataError) (end : ℕ) → end_or e t ≡ ok end → t ≡ some end
end_of none e end p = absurd (cc p)
end_of (some t) e end p = ground arith

pub observed_of : {A : Type 0} (t : Option A) (a : A) → observed t ≡ ok a → t ≡ some a
observed_of none a p = absurd (cc p)
observed_of (some t) a p = cc p

pub at_least_one : (hours : ℕ) → between 1 168 hours ≡ true → 1 ≤ hours
at_least_one hours e = ground arith

pub earlier : (hours end : ℕ) → 1 ≤ hours → hours * hour ≤ end → end - hours * hour < end
earlier hours end a b = omega arith

pub validated :
    (d : Datetimes) (indicator : String) (hours : ℕ) (end_at : String) (end : ℕ)
    → validate_screening d indicator hours end_at public_source_id 48 ≡ ok end
    → (contains indicators indicator ≡ true) × (1 ≤ hours) × (parse_canonical d end_at ≡ some end)
unfolding validate_screening
validated d indicator hours end_at end e =
    let (_, e1) =
      require-ok (str_eq public_source_id public_source_id) unsupported_source _ end e in
    let (known, e2) = require-ok (contains indicators indicator) _ _ end e1 in
    let (range, e3) : (between 1 168 hours ≡ true)
        × (end_or invalid_end (parse_canonical d end_at) ≡ ok end) =
      require-ok (between 1 168 hours) invalid_hours (end_or invalid_end (parse_canonical d end_at))
        end e2 in
    (known, at_least_one hours range, end_of (parse_canonical d end_at) invalid_end end e3)

pub queried :
    (d : Datetimes) (indicator : String) (hours : ℕ) (end_at : String) (end : ℕ)
    → validate_query d indicator hours end_at ≡ ok end
    → (contains indicators indicator ≡ true) × (1 ≤ hours) × (parse_canonical d end_at ≡ some end)
unfolding validate_query
queried d indicator hours end_at end e =
    let (known, e1) = require-ok (contains indicators indicator) unsupported_indicator _ end e in
    let (range, e2) : (between 1 168 hours ≡ true)
        × (end_or invalid_end (parse_canonical d end_at) ≡ ok end) =
      require-ok (between 1 168 hours) invalid_hours (end_or invalid_end (parse_canonical d end_at))
        end e1 in
    (known, at_least_one hours range, end_of (parse_canonical d end_at) invalid_end end e2)
