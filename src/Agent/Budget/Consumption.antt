-- ===== src/Agent/Budget/Consumption.antt =====
-- What `consume` does to a valid budget.
use mathlib.Core.Path.{subst}
use aquaops_copilot.Common.{
  ◌+◌, ◌-◌, ◌≤◌, ◌<◌, String, ◌≡◌, refl, ap, ◌∙◌, ◌↔◌, true, none, some, [], if◌then◌else◌, str_eq,
  arith, eq_iff, ◌⊎◌,
}
use aquaops_copilot.Agent.Budget.{
  max_total_tool_calls, ToolBudget, Usage, registered, spec_of, get_count, put_count, sort_usage,
  sum_counts, usage_valid, is_valid, calls_for, spent, consume,
}
use aquaops_copilot.Agent.Budget.Usage.{
  usage_valid-sort_usage, usage_valid-put_count, sum_counts-sort_usage, sum_counts-put_count,
  get_count-put_count, get_count-sort_usage, dict_from_nil,
}

pub record IsValid (b : ToolBudget) : Type 0 where
  pub bounded : b.remaining_total ≤ max_total_tool_calls
  pub usage : usage_valid [] b.used_by_tool ≡ true
  pub adds_up : sum_counts b.used_by_tool + b.remaining_total ≡ max_total_tool_calls

pub is_valid_iff : (b : ToolBudget) → (is_valid b ≡ true) ↔ IsValid b
unfolding is_valid
is_valid_iff b = (λ h. ground arith, λ v. ground arith)

pub calls_for-valid :
    (b : ToolBudget) (k : String) → IsValid b → calls_for b k ≡ get_count k b.used_by_tool
unfolding calls_for
calls_for-valid b k v = rw (dict_from_nil b.used_by_tool v.usage)

module _ (b : ToolBudget) (k : String) (v : IsValid b) (known : registered k ≡ true) where
  abbrev raised : Usage
  raised = put_count k (get_count k b.used_by_tool + 1) b.used_by_tool

  -- `spent` of a valid budget, without the round trip through the dictionary.
  spent-valid :
      spent b (spec_of k)
      ≡ record { remaining_total = b.remaining_total - 1; used_by_tool = sort_usage raised }
  spent-valid = rw (dict_from_nil b.used_by_tool v.usage)

  raised-valid : get_count k b.used_by_tool < 2 → usage_valid [] raised ≡ true
  raised-valid few =
      usage_valid-put_count [] k (get_count k b.used_by_tool + 1) b.used_by_tool v.usage known refl
        (omega arith)

  spent-IsValid :
      0 < b.remaining_total → get_count k b.used_by_tool < 2 → IsValid (spent b (spec_of k))
  spent-IsValid left few = rw spent-valid (record {
    bounded = omega (arith, v.bounded);
    usage = usage_valid-sort_usage [] raised ∙ raised-valid few;
    adds_up =
        omega
          (arith, sum_counts-sort_usage raised, sum_counts-put_count k b.used_by_tool, v.adds_up);
  })

  -- The tool's count is one more, and the other counts are what they were.
  calls_for-spent :
      (j : String)
      → 0 < b.remaining_total
      → get_count k b.used_by_tool < 2
      → calls_for (spent b (spec_of k)) j
        ≡ (if str_eq k j then calls_for b j + 1 else calls_for b j)
  calls_for-spent j left few =
      calls_for-valid (spent b (spec_of k)) j (spent-IsValid left few)
      ∙ ap (λ (x : ToolBudget). get_count j x.used_by_tool) spent-valid
      ∙ get_count-sort_usage j [] raised (raised-valid few)
      ∙ get_count-put_count k j (get_count k b.used_by_tool + 1) b.used_by_tool
      ∙ ground (arith, calls_for-valid b j v, eq_iff k j)

-- A registered tool can be consumed from a valid budget exactly when a call is left in total and
-- the tool has had fewer than two; the new budget is then valid, has one call less, and counts one
-- call more of this tool and the same of every other.
pub consume_spends_one :
    (b : ToolBudget) (k : String)
    → IsValid b
    → registered k ≡ true
    → ((0 < b.remaining_total)
        → calls_for b k < 2
        → (consume b (spec_of k) ≡ some (spent b (spec_of k)))
          × IsValid (spent b (spec_of k))
          × ((spent b (spec_of k)).remaining_total + 1 ≡ b.remaining_total)
          × ((j : String)
              → calls_for (spent b (spec_of k)) j
                ≡ (if str_eq k j then calls_for b j + 1 else calls_for b j)))
      × ((b.remaining_total ≡ 0) ⊎ (2 ≤ calls_for b k) → consume b (spec_of k) ≡ none)
unfolding consume
consume_spends_one b k v known = (
  λ left few.
      let few' : get_count k b.used_by_tool < 2 = omega (arith, calls_for-valid b k v) in
      let sound = spent-IsValid b k v known left few' in
      (
        ground (arith, (is_valid_iff (spent b (spec_of k))).1 sound),
        sound,
        omega arith,
        λ j. calls_for-spent b k v known j left few',
      ),
  λ h. ground arith,
)

pub consume-some :
    (b c : ToolBudget) (k : String)
    → IsValid b
    → registered k ≡ true
    → consume b (spec_of k) ≡ some c
    → IsValid c × (c.remaining_total + 1 ≡ b.remaining_total)
consume-some b c k v known h =
    let (left, few) = room in
    let (same, sound, less, _) = (consume_spends_one b k v known).0 left few in
    let e : spent b (spec_of k) ≡ c = cc (h, same) in
    (subst IsValid e sound, subst (λ x. x.remaining_total + 1 ≡ b.remaining_total) e less)
  where
    room : (0 < b.remaining_total) × (calls_for b k < 2)
    room = unfold consume in (ground arith, ground arith)
