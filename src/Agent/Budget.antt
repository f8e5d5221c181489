-- ===== src/Agent/Budget.antt =====
-- policy.py: `ToolSpec`, the registry, `ToolBudget` and its use.
pub mod Usage
pub mod Consumption
use aquaops_copilot.Common.{
  ℕ, zero, suc, ◌+◌, ◌-◌, String, Bool, true, false, ◌&&◌, ◌||◌, not, Option, none, some, List, [],
  ◌∷◌, if◌then◌else◌, ◌==◌, ltb, leb, str_eq, contains,
}
use Prim.Native.String.{compare}
use text.Mathlib.Text.{is_le}

abbrev pub max_total_tool_calls : ℕ
max_total_tool_calls = 6

-- `data_class`, `risk` and `read_only` have one value each, and no caller can set them.
pub record ToolSpec : Type 0 where
  pub name : String
  pub max_calls : ℕ
  pub timeout_seconds : ℕ

-- PUBLIC_MCP_TOOL_NAMES
abbrev pub public_tools : List String
public_tools =
    "retrieve_public_water_knowledge" ∷ "aggregate_public_history" ∷ "screen_public_anomaly" ∷ []

-- `name in PUBLIC_TOOL_REGISTRY`
unfoldable pub registered : String → Bool
registered name = contains public_tools name

-- `PUBLIC_TOOL_REGISTRY[name]`
abbrev pub spec_of : String → ToolSpec
spec_of name = record { name = name; max_calls = 2; timeout_seconds = 5 }

abbrev pub Usage : Type 0
Usage = List (String × ℕ)

pub record ToolBudget : Type 0 where
  pub remaining_total : ℕ
  pub used_by_tool : Usage

-- dict.get(name, 0)
unfoldable pub get_count : String → Usage → ℕ
get_count k [] = 0
get_count k ((j, n) ∷ m) = if str_eq j k then n else get_count k m

-- `usage[name] = count`: in place, or behind the others
unfoldable pub put_count : String → ℕ → Usage → Usage
put_count k n [] = (k, n) ∷ []
put_count k n ((j, c) ∷ m) = if str_eq j k then (j, n) ∷ m else (j, c) ∷ put_count k n m

-- dict(pairs), from the dictionary of the pairs before
unfoldable pub dict_from : Usage → Usage → Usage
dict_from acc [] = acc
dict_from acc ((k, n) ∷ m) = dict_from (put_count k n acc) m

unfoldable pub insert_sorted : String × ℕ → Usage → Usage
insert_sorted (k, n) [] = (k, n) ∷ []
insert_sorted (k, n) ((j, c) ∷ m) =
    if is_le (compare k j) then (k, n) ∷ (j, c) ∷ m else (j, c) ∷ insert_sorted (k, n) m

-- sorted(usage.items()): the names differ, so the order is theirs
unfoldable pub sort_usage : Usage → Usage
sort_usage [] = []
sort_usage (e ∷ m) = insert_sorted e (sort_usage m)

unfoldable pub sum_counts : Usage → ℕ
sum_counts [] = 0
sum_counts ((k, n) ∷ m) = n + sum_counts m

-- The loop of `validate_usage`, with the names that it has seen.
unfoldable pub usage_valid : List String → Usage → Bool
usage_valid names [] = true
usage_valid names ((k, n) ∷ m) =
    (registered k && not (contains names k))
    && leb n (spec_of k).max_calls
    && usage_valid (k ∷ names) m

-- What pydantic and `validate_usage` accept.
unfoldable pub is_valid : ToolBudget → Bool
is_valid b =
    leb b.remaining_total max_total_tool_calls
    && usage_valid [] b.used_by_tool
    && max_total_tool_calls - b.remaining_total == sum_counts b.used_by_tool

abbrev pub initial : ToolBudget
initial = record { remaining_total = max_total_tool_calls; used_by_tool = [] }

unfoldable pub calls_for : ToolBudget → String → ℕ
calls_for b name = get_count name (dict_from [] b.used_by_tool)

-- The constructor call: `none` is the ValueError of a budget that does not validate.
abbrev pub validated : ToolBudget → Option ToolBudget
validated b = if is_valid b then some b else none

abbrev pub spent : ToolBudget → ToolSpec → ToolBudget
spent b spec =
    let usage = dict_from [] b.used_by_tool in
    record {
      remaining_total = b.remaining_total - 1;
      used_by_tool = sort_usage (put_count spec.name (get_count spec.name usage + 1) usage);
    }

-- `none` is a ValueError.
unfoldable pub consume : ToolBudget → ToolSpec → Option ToolBudget
consume b spec =
    if not (registered spec.name)
    then none
    else if ltb b.remaining_total 1 || leb spec.max_calls (calls_for b spec.name)
    then none
    else validated (spent b spec)
