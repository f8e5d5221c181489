-- ===== src/Agent/Coverage/Returning.antt =====
-- When the gate returns.
use aquaops_copilot.Common.{
  String, ◌≡◌, inl, inr, refl, Bool, true, false, ◌&&◌, Option, none, some, List, [], ◌∷◌, arith,
  all, Option-cases, ok,
}
use aquaops_copilot.Agent.Evidence.{
  Platform, PublicEvidenceReference, same_reference, VerifiedPublicEvidence, Dimension,
  tool_dimension, valid_reference,
}
use aquaops_copilot.Agent.Coverage.{
  AbcRequirement, Triple, valid_plan, DimensionCoverage, CoverageGateResult, valid_result,
  is_safe_trace_id, Supplied, lookup, supplied_or_empty, text_or_none, dimension_name,
  normalize_verified_evidence, evidence_items, cover, coverage_gate, known_keys, turn, conclude,
  result_of,
}
use aquaops_copilot.Agent.Coverage.Gate.{conclude-Made, turn-Covered, of_dimension}

-- A capability of the gate, bound to the valid reference that it carries, of a tool with dimension `d`.
abbrev pub admits : Platform → Dimension → Option VerifiedPublicEvidence → Bool
admits p d none = false
admits p d (some v) =
    v.from_gate
    && v.bound_by_gate
    && valid_reference p v.reference
    && same_reference v.reference v.fingerprint
    && of_dimension d (tool_dimension v.tool_name)

-- What is supplied under a dimension is a list of such capabilities.
abbrev pub Admitted : Platform → List (String × Supplied) → Dimension → Type 0
Admitted p evs d =
    (given : List (Option VerifiedPublicEvidence)) × (supplied_or_empty
        (lookup (dimension_name d) evs)
      ≡ some given)
    × (all (admits p d) given ≡ true)

items-return :
    (p : Platform) (d : Dimension) (vs : List (Option VerifiedPublicEvidence))
    → all (admits p d) vs ≡ true
    → (rs : List PublicEvidenceReference) × (evidence_items p d vs ≡ ok rs)
unfolding evidence_items normalize_verified_evidence
items-return p d [] h = ([], refl)
items-return p d (none ∷ vs) h = absurd (ground arith)
items-return p d (some v ∷ vs) h =
    let (rs, e) = items-return p d vs (ground arith) in
    elim (Option-cases (tool_dimension v.tool_name)) [
      | inl n ↦ absurd (ground arith)
      | inr (k, q) ↦ (v.reference ∷ rs, ground arith)
    ]

turn-returns :
    (p : Platform) (q : AbcRequirement) (evs : List (String × Supplied))
    (cs : List (String × Option String))
    → Admitted p evs q.dimension
    → (x : DimensionCoverage) × (turn p q evs cs ≡ ok x)
unfolding cover
turn-returns p q evs cs (given, s, h) =
    let (rs, e) = items-return p q.dimension given h in
    let valid = (conclude-Made p q rs (text_or_none (lookup (dimension_name q.dimension) cs))).1 in
    (conclude p q rs (text_or_none (lookup (dimension_name q.dimension) cs)), ground arith)

-- With a valid plan, no unknown dimension, and under each dimension only capabilities of a tool of
-- that dimension, the gate returns a result, whatever the conclusions are.
pub gate_returns :
    (p : Platform) (plan : Triple AbcRequirement) (evs : List (String × Supplied))
    (cs : List (String × Option String)) (trace : String)
    → valid_plan p plan ≡ true
    → known_keys evs cs ≡ true
    → is_safe_trace_id trace ≡ true
    → ((d : Dimension) → Admitted p evs d)
    → (r : CoverageGateResult) × (coverage_gate p (some plan) (some evs) (some cs) trace ≡ ok r)
unfolding coverage_gate valid_plan valid_result
gate_returns p plan evs cs trace v k t adm =
    let (a, ea) = turn-returns p plan.first evs cs (adm plan.first.dimension) in
    let (b, eb) = turn-returns p plan.second evs cs (adm plan.second.dimension) in
    let (c, ec) = turn-returns p plan.third evs cs (adm plan.third.dimension) in
    let ha = (turn-Covered p plan.first evs cs a ea).same_dimension in
    let hb = (turn-Covered p plan.second evs cs b eb).same_dimension in
    let hc = (turn-Covered p plan.third evs cs c ec).same_dimension in
    (result_of (record { first = a; second = b; third = c }) trace, ground arith)
