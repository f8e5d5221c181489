-- ===== src/Common/Timestamp.antt =====
-- Timestamps in the one text form that the program accepts, `YYYY-MM-DDTHH:MM:SS[.ffffff]Z`.
-- The program reads a text with `datetime.fromisoformat`, prints the result with `isoformat` and
-- compares: what is printed has four digits of year, two of each other part, and six of the
-- microsecond if that is not 0. So the texts that it accepts are those that `parse` reads.
use Prim.Native.Nat.{ℕ, zero, suc, ◌+◌, ◌-◌, ◌*◌, ◌%◌}
use Prim.Native.String.{String}
use mathlib.Core.Bool.{Bool, true, false, ◌&&◌, ◌||◌, not}
use mathlib.Core.Option.{Option, none, some}
use mathlib.Core.List.{List, [], ◌∷◌}
use aquaops_copilot.Common.Tests.{leb, ltb, ◌==◌, if◌then◌else◌}
use aquaops_copilot.Common.Text.{codes, is_digit}

pub record Stamp : Type 0 where
  pub year : ℕ
  pub month : ℕ
  pub day : ℕ
  pub hour : ℕ
  pub minute : ℕ
  pub second : ℕ
  pub microsecond : ℕ

is_leap : ℕ → Bool
is_leap y = y % 4 == 0 && (not (y % 100 == 0) || y % 400 == 0)

pub days_in_month : ℕ → ℕ → ℕ
unfolding is_leap
days_in_month y m =
    if m == 2
    then (if is_leap y then 29 else 28)
    else if m == 4 || m == 6 || m == 9 || m == 11
    then 30
    else 31

pub is_stamp : Stamp → Bool
unfolding days_in_month
is_stamp s =
    leb 1 s.year
    && leb s.year 9999
    && leb 1 s.month
    && leb s.month 12
    && leb 1 s.day
    && leb s.day (days_in_month s.year s.month)
    && ltb s.hour 24
    && ltb s.minute 60
    && ltb s.second 60
    && ltb s.microsecond 1000000

infixl 5 ◌>>=◌
abbrev ◌>>=◌ : {A B : Type 0} → Option A → (A → Option B) → Option B
none >>= f = none
some a >>= f = f a

-- `n` decimal digits behind the value read so far.
digits : ℕ → ℕ → List ℕ → Option (ℕ × List ℕ)
digits zero v cs = some (v, cs)
digits (suc n) v [] = none
digits (suc n) v (c ∷ cs) = if is_digit c then digits n (v * 10 + (c - b'0')) cs else none

expect : ℕ → List ℕ → Option (List ℕ)
expect d [] = none
expect d (c ∷ cs) = if c == d then some cs else none

-- The fraction, if there is one, and the final `Z`.
fraction : List ℕ → Option ℕ
unfolding digits
fraction [] = none
fraction (c ∷ cs) = elim (c == b'Z') [
  | true ↦ elim cs [ [] ↦ some 0 | _ ∷ _ ↦ none ]
  | false ↦ do
    (micro, rest) ← (if c == b'.' then digits 6 0 cs else none)
    end ← expect b'Z' rest
    elim end [ [] ↦ (if micro == 0 then none else some micro) | _ ∷ _ ↦ none ]
]

checked : Stamp → Option Stamp
unfolding is_stamp
checked s = if is_stamp s then some s else none

unfoldable pub parse : String → Option Stamp
unfolding digits expect fraction checked
parse text = do
  (year, r1) ← digits 4 0 (codes text)
  r2 ← expect b'-' r1
  (month, r3) ← digits 2 0 r2
  r4 ← expect b'-' r3
  (day, r5) ← digits 2 0 r4
  r6 ← expect b'T' r5
  (hour, r7) ← digits 2 0 r6
  r8 ← expect b':' r7
  (minute, r9) ← digits 2 0 r8
  r10 ← expect b':' r9
  (second, r11) ← digits 2 0 r10
  micro ← fraction r11
  checked (record {
    year = year;
    month = month;
    day = day;
    hour = hour;
    minute = minute;
    second = second;
    microsecond = micro;
  })
