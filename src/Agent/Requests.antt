-- ===== src/Agent/Requests.antt =====
-- public_diagnostics.py and graph.py: the request of a tool that a question spells out.
pub mod Admitted
use Prim.Native.Char.{Char, code}
use Prim.Native.String.{◌++◌}
use aquaops_copilot.Common.{
  ℕ, ◌+◌, ◌-◌, ◌*◌, String, Bool, true, false, ◌&&◌, ◌||◌, Option, none, some, List, [], ◌∷◌,
  if◌then◌else◌, leb, ◌==◌,
}
use aquaops_copilot.Common.Text.{len, between, is_digit, is_space, is_upper}
use aquaops_copilot.Common.Timestamp.{Stamp, parse}
use aquaops_copilot.Agent.Authorize.{text, integer, Arguments}

unfoldable pub lstrip_text : String → String
lstrip_text String.[] = ""
lstrip_text (String.◌∷◌ c s) = if is_space (code c) then lstrip_text s else String.◌∷◌ c s

abbrev put_back : Char → String → String
put_back c String.[] = if is_space (code c) then "" else String.◌∷◌ c ""
put_back c (String.◌∷◌ b s) = String.◌∷◌ c (String.◌∷◌ b s)

unfoldable pub rstrip_text : String → String
rstrip_text String.[] = ""
rstrip_text (String.◌∷◌ c s) = put_back c (rstrip_text s)

-- str.strip()
abbrev pub strip_text : String → String
strip_text s = rstrip_text (lstrip_text s)

abbrev lower : ℕ → ℕ
lower c = if is_upper c then c + 32 else c

-- What follows a prefix, up to the case of ASCII letters if `folded`.
unfoldable pub after_prefix : Bool → String → String → Option String
after_prefix folded String.[] s = some s
after_prefix folded (String.◌∷◌ c p) String.[] = none
after_prefix folded (String.◌∷◌ c p) (String.◌∷◌ b s) =
    if code c == (if folded then lower (code b) else code b) then after_prefix folded p s else none

-- _INDICATOR_ALIASES
abbrev pub indicator_aliases : List (String × String)
indicator_aliases =
    ("氨氮", "nh4")
    ∷ ("nh4", "nh4")
    ∷ ("电导", "cond")
    ∷ ("cond", "cond")
    ∷ ("流量", "q")
    ∷ ("q", "q")
    ∷ []

abbrev pub named_as : String → Option String → Option (String × String) → Option (String × String)
named_as indicator none other = other
named_as indicator (some rest) other = some (indicator, rest)

-- The indicator of the alias in front, and what follows it and a space.
unfoldable pub after_alias : List (String × String) → String → Option (String × String)
after_alias [] s = none
after_alias ((alias, indicator) ∷ aliases) s =
    named_as indicator (after_prefix true (alias ++ " ") s) (after_alias aliases s)

unfoldable pub digits_from : ℕ → String → ℕ × String
digits_from v String.[] = (v, "")
digits_from v (String.◌∷◌ c s) =
    if is_digit (code c) then digits_from (10 * v + (code c - b'0')) s else (v, String.◌∷◌ c s)

-- [1-9][0-9]*
abbrev pub hours_of : String → Option (ℕ × String)
hours_of String.[] = none
hours_of (String.◌∷◌ c s) =
    if between b'1' b'9' (code c) then some (digits_from (code c - b'0') s) else none

-- A date that `strptime` reads and `strftime` writes back; whether the year 999 is written with
-- four digits depends on the platform.
abbrev pub written_back : Bool → Option Stamp → Bool
written_back pads_years none = false
written_back pads_years (some t) = pads_years || leb 1000 t.year

abbrev pub end_of : Bool → String → ℕ → Option String → Option (String × ℕ × String)
end_of pads_years indicator hours none = none
end_of pads_years indicator hours (some end_at) =
    if between 1 168 hours && len end_at == 20 && written_back pads_years (parse end_at)
    then some (indicator, hours, end_at)
    else none

abbrev pub with_hours : Bool → String → Option (ℕ × String) → Option (String × ℕ × String)
with_hours pads_years indicator none = none
with_hours pads_years indicator (some (hours, rest)) =
    end_of pads_years indicator hours (after_prefix false "h 截止 " rest)

abbrev pub with_indicator : Bool → Option (String × String) → Option (String × ℕ × String)
with_indicator pads_years none = none
with_indicator pads_years (some (indicator, rest)) = with_hours pads_years indicator (hours_of rest)

abbrev pub with_prefix : Bool → Option String → Option (String × ℕ × String)
with_prefix pads_years none = none
with_prefix pads_years (some rest) = with_indicator pads_years (after_alias indicator_aliases rest)

-- `_parse_explicit_public_request`, with the words that the pattern begins with
unfoldable pub parse_explicit_public_request : Bool → String → String → Option (String × ℕ × String)
parse_explicit_public_request pads_years words question =
    with_prefix pads_years (after_prefix false words (strip_text question))

abbrev pub parse_public_historical_request : Bool → String → Option (String × ℕ × String)
parse_public_historical_request pads_years = parse_explicit_public_request pads_years "公开历史诊断 "

abbrev pub parse_public_anomaly_request : Bool → String → Option (String × ℕ × String)
parse_public_anomaly_request pads_years = parse_explicit_public_request pads_years "公开异常筛查 "

abbrev pub knowledge_request : Option String → Option (String × Arguments)
knowledge_request none = none
knowledge_request (some rest) =
    some ("retrieve_public_water_knowledge", ("query", text (strip_text rest)) ∷ [])

abbrev pub or_anomaly :
    Option (String × ℕ × String) → Option (String × Arguments) → Option (String × Arguments)
or_anomaly none other = other
or_anomaly (some (indicator, hours, end_at)) other = some (
  "screen_public_anomaly",
  ("indicator", text indicator) ∷ ("baseline_hours", integer hours) ∷ ("end_at", text end_at) ∷ [],
)

abbrev pub or_historical :
    Option (String × ℕ × String) → Option (String × Arguments) → Option (String × Arguments)
or_historical none other = other
or_historical (some (indicator, hours, end_at)) other = some (
  "aggregate_public_history",
  ("indicator", text indicator) ∷ ("hours", integer hours) ∷ ("end_at", text end_at) ∷ [],
)

unfoldable pub diagnostic_tool_request : Bool → String → Option (String × Arguments)
diagnostic_tool_request pads_years question =
    or_historical (parse_public_historical_request pads_years question) (
      or_anomaly (parse_public_anomaly_request pads_years question)
        (knowledge_request (after_prefix false "公开知识检索 " question)))
