-- ===== src/Agent/Coverage/Answer.antt =====
-- coverage.py: FixedAgentAnswer and its making from a result of the gate.
use mathlib.Core.Path.{subst}
use aquaops_copilot.Common.{
  String, ◌≡◌, inl, inr, refl, Bool, true, false, ◌&&◌, ◌||◌, not, Option, none, some, List, [],
  ◌∷◌, ◌++◌, arith, any, all, all_mono, Bool-cases, if◌then◌else◌, ok, eq_iff,
}
use aquaops_copilot.Agent.Evidence.{
  Platform, PublicEvidenceReference, same_reference, valid_reference,
}
use aquaops_copilot.Agent.Coverage.{
  AbcRequirement, Triple, DimensionCoverage, valid_coverage, concluded, covers_in_order,
  CoverageGateResult, valid_result, is_safe_trace_id, Supplied, coverage_gate,
}
use aquaops_copilot.Agent.Coverage.Gate.{
  Covered, backed, same_reference_refl, gate_keeps_dimensions,
}

pub data NextAction : Type 0 where
  collect_missing_public_evidence human_review_before_any_operational_action : NextAction

abbrev pub is_review : NextAction → Bool
is_review collect_missing_public_evidence = false
is_review human_review_before_any_operational_action = true

-- `human_review_required` is always true.
pub record FixedAgentAnswer : Type 0 where
  pub dimensions : Triple DimensionCoverage
  pub evidence : List PublicEvidenceReference
  pub next_safe_action : NextAction
  pub trace_id : String

abbrev pub in_references : List PublicEvidenceReference → PublicEvidenceReference → Bool
in_references seen r = any (λ s. same_reference s r) seen

-- The loop that keeps the evidence not seen before.
unfoldable pub unseen_of :
    List PublicEvidenceReference → List PublicEvidenceReference → List PublicEvidenceReference
unseen_of seen [] = []
unseen_of seen (r ∷ rs) =
    let known = in_references seen r in
    let rest = unseen_of (if known then seen else r ∷ seen) rs in if known then rest else r ∷ rest

abbrev pub all_evidence : Triple DimensionCoverage → List PublicEvidenceReference
all_evidence t = t.first.evidence ++ (t.second.evidence ++ t.third.evidence)

abbrev references_eq : List PublicEvidenceReference → List PublicEvidenceReference → Bool
references_eq [] [] = true
references_eq (r ∷ rs) (s ∷ ss) = same_reference r s && references_eq rs ss
references_eq _ _ = false

-- `validate_fixed_answer`
unfoldable pub valid_answer : FixedAgentAnswer → Bool
valid_answer a =
    is_safe_trace_id a.trace_id
    && covers_in_order a.dimensions
    && references_eq (unseen_of [] (all_evidence a.dimensions)) a.evidence
    && (if concluded a.dimensions
        then is_review a.next_safe_action
        else not (is_review a.next_safe_action))

abbrev valid_nested : Platform → DimensionCoverage → Bool
valid_nested p x = all (valid_reference p) x.evidence && valid_coverage p x

-- `_normalize_coverage_result`: the result is validated again, with all that it holds.
unfoldable pub normalize_coverage_result :
    Platform → Option CoverageGateResult → Option CoverageGateResult
normalize_coverage_result p none = none
normalize_coverage_result p (some r) =
    if valid_nested p r.dimensions.first
      && valid_nested p r.dimensions.second
      && valid_nested p r.dimensions.third
      && valid_result r
    then some r
    else none

abbrev pub answer_of : CoverageGateResult → FixedAgentAnswer
answer_of r = record {
  dimensions = r.dimensions;
  evidence = unseen_of [] (all_evidence r.dimensions);
  next_safe_action =
      if r.complete
      then human_review_before_any_operational_action
      else collect_missing_public_evidence;
  trace_id = r.trace_id;
}

abbrev validated_answer : FixedAgentAnswer → Option FixedAgentAnswer
validated_answer a = if valid_answer a then some a else none

abbrev answer_if : Option CoverageGateResult → Option FixedAgentAnswer
answer_if none = none
answer_if (some r) = validated_answer (answer_of r)

-- `none` is a ValueError.
unfoldable pub from_coverage : Platform → Option CoverageGateResult → Option FixedAgentAnswer
from_coverage p r = answer_if (normalize_coverage_result p r)

references_eq_refl : (rs : List PublicEvidenceReference) → references_eq rs rs ≡ true
references_eq_refl [] = refl
references_eq_refl (r ∷ rs) = ground (arith, same_reference_refl r, references_eq_refl rs)

-- No reference stands among those before it.
abbrev pub distinct_from : List PublicEvidenceReference → List PublicEvidenceReference → Bool
distinct_from seen [] = true
distinct_from seen (r ∷ rs) = not (in_references seen r) && distinct_from (r ∷ seen) rs

unseen_of_distinct :
    (seen rs : List PublicEvidenceReference) → distinct_from seen (unseen_of seen rs) ≡ true
unfolding unseen_of
unseen_of_distinct seen [] = refl
unseen_of_distinct seen (r ∷ rs) =
    let a = unseen_of_distinct seen rs in
    let b = unseen_of_distinct (r ∷ seen) rs in
    elim (Bool-cases (in_references seen r)) [ inl y ↦ ground arith | inr n ↦ ground arith ]

same_reference_path : (r s : PublicEvidenceReference) → same_reference r s ≡ true → r ≡ s
unfolding same_reference
same_reference_path r s e =
    let a = (eq_iff r.evidence_id s.evidence_id).0 (ground arith) in
    let b = (eq_iff r.source_url s.source_url).0 (ground arith) in
    let c = (eq_iff r.source_version s.source_version).0 (ground arith) in
    λ i. record { evidence_id = a i; source_url = b i; source_version = c i }

unseen_of_keeps :
    (seen rs : List PublicEvidenceReference) (e : PublicEvidenceReference)
    → in_references rs e ≡ true
    → in_references (unseen_of seen rs) e || in_references seen e ≡ true
unfolding unseen_of
unseen_of_keeps seen [] e h = absurd (ground arith)
unseen_of_keeps seen (r ∷ rs) e h =
    let a = unseen_of_keeps seen rs e in
    let b = unseen_of_keeps (r ∷ seen) rs e in
    elim (Bool-cases (same_reference r e)) [
      | inl y ↦ elim (Bool-cases (in_references seen r)) [
        | inl k ↦
            let known = subst (λ x. in_references seen x ≡ true) (same_reference_path r e y) k in
            ground arith
        | inr n ↦ ground arith
      ]
      | inr n ↦ elim (Bool-cases (in_references seen r)) [
        | inl k ↦ ground arith
        | inr m ↦ ground arith
      ]
    ]

unseen_of_from :
    (seen rs : List PublicEvidenceReference) → all (in_references rs) (unseen_of seen rs) ≡ true
unfolding unseen_of
unseen_of_from seen [] = refl
unseen_of_from seen (r ∷ rs) =
    let known = in_references seen r in
    let more =
      all_mono (in_references rs) (in_references (r ∷ rs))
        (unseen_of (if known then seen else r ∷ seen) rs) (λ x h. ground arith)
        (unseen_of_from (if known then seen else r ∷ seen) rs) in
    let here = same_reference_refl r in ground arith

all-in_references :
    (p : PublicEvidenceReference → Bool) (rs : List PublicEvidenceReference)
    → ((e : PublicEvidenceReference) → in_references rs e ≡ true → p e ≡ true)
    → all p rs ≡ true
all-in_references p [] h = refl
all-in_references p (r ∷ rs) h =
    let here = same_reference_refl r in
    let first = h r (ground arith) in
    let rest = all-in_references p rs (λ e m. h e (ground arith)) in ground arith

Covered-valid :
    {p : Platform} {q : AbcRequirement} {evs : List (String × Supplied)}
    {cs : List (String × Option String)} {x : DimensionCoverage}
    → Covered p q evs cs x
    → valid_nested p x ≡ true
Covered-valid {p} {q} {evs} {cs} {x} c =
    let refs =
      all_mono (backed p q.dimension c.given) (valid_reference p) x.evidence (λ r h. ground arith)
        c.all_backed in
    let valid = c.passes_validator in ground arith

answered :
    (p : Platform) (r : CoverageGateResult)
    → valid_nested p r.dimensions.first ≡ true
    → valid_nested p r.dimensions.second ≡ true
    → valid_nested p r.dimensions.third ≡ true
    → valid_result r ≡ true
    → r.complete ≡ concluded r.dimensions
    → from_coverage p (some r) ≡ some (answer_of r)
unfolding from_coverage normalize_coverage_result valid_answer valid_result
answered p r a b c v k =
    ground (arith, references_eq_refl (unseen_of [] (all_evidence r.dimensions)))

-- Every result of the gate has an answer. It has the dimensions and the trace of the result, each
-- reference to evidence of a dimension, no other, and none twice, and it asks for a human review
-- if the result is complete and for the missing evidence if it is not.
pub gate_is_answered :
    (p : Platform) (plan : Triple AbcRequirement) (evs : List (String × Supplied))
    (cs : List (String × Option String)) (trace : String) (r : CoverageGateResult)
    → coverage_gate p (some plan) (some evs) (some cs) trace ≡ ok r
    → (a : FixedAgentAnswer) × (from_coverage p (some r) ≡ some a)
      × (a.dimensions ≡ r.dimensions)
      × (a.trace_id ≡ trace)
      × (distinct_from [] a.evidence ≡ true)
      × (all (in_references a.evidence) (all_evidence r.dimensions) ≡ true)
      × (all (in_references (all_evidence r.dimensions)) a.evidence ≡ true)
      × (is_review a.next_safe_action ≡ concluded r.dimensions)
gate_is_answered p plan evs cs trace r e =
    let (a, b, c, valid, complete, same) = gate_keeps_dimensions p plan evs cs trace r e in
    (
      answer_of r,
      answered p r (Covered-valid a) (Covered-valid b) (Covered-valid c) valid complete,
      refl,
      same,
      unseen_of_distinct [] (all_evidence r.dimensions),
      all-in_references (in_references (unseen_of [] (all_evidence r.dimensions)))
          (all_evidence r.dimensions)
          (λ x m. let k = unseen_of_keeps [] (all_evidence r.dimensions) x m in ground arith),
      unseen_of_from [] (all_evidence r.dimensions),
      ground arith,
    )
