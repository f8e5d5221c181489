-- ===== src/Agent/Coverage.antt =====
-- coverage.py: the gate that concludes the dimensions A, B and C from verified evidence, and the
-- answer made of its result.
pub mod Gate
pub mod Returning
pub mod Answer
pub mod Samples
use aquaops_copilot.Common.{
  ℕ, String, Bool, true, false, ◌&&◌, ◌||◌, not, Option, none, some, List, [], ◌∷◌, ◌++◌,
  if◌then◌else◌, ◌==◌, leb, str_eq, any, all, contains, is_none, Outcome, ok, err, ◌>>=◌, ◌>>◌,
  require,
}
use aquaops_copilot.Common.Text.{codes, len, between}
use aquaops_copilot.Agent.Evidence.{
  Platform, safe_text, PublicEvidenceReference, same_reference, valid_reference,
  VerifiedPublicEvidence, Dimension, A, B, C, dimension_eq, tool_dimension,
}

-- The ways in which the gate raises; `validation_error` is pydantic's.
pub data CoverageError : Type 0 where
  unsafe_plan not_mappings unknown_dimension not_a_sequence not_verified : CoverageError
  wrong_dimension validation_error : CoverageError

abbrev pub dimension_name : Dimension → String
dimension_name A = "A"
dimension_name B = "B"
dimension_name C = "C"

pub record AbcRequirement : Type 0 where
  pub dimension : Dimension
  pub requirement : String

pub record Triple (X : Type 0) : Type 0 where
  pub first : X
  pub second : X
  pub third : X

abbrev in_order : Dimension → Dimension → Dimension → Bool
in_order a b c = dimension_eq a A && dimension_eq b B && dimension_eq c C

abbrev valid_requirement : Platform → AbcRequirement → Bool
valid_requirement p r = between 1 280 (len r.requirement) && safe_text p r.requirement

-- The validators of an ABCPlan and of its requirements.
unfoldable pub valid_plan : Platform → Triple AbcRequirement → Bool
valid_plan p plan =
    valid_requirement p plan.first
    && valid_requirement p plan.second
    && valid_requirement p plan.third
    && in_order plan.first.dimension plan.second.dimension plan.third.dimension

pub data MissingReason : Type 0 where
  public_evidence_missing conclusion_missing : MissingReason

pub record DimensionCoverage : Type 0 where
  pub dimension : Dimension
  pub requirement : String
  pub evidence : List PublicEvidenceReference
  pub conclusion : Option String
  pub missing_reason : Option MissingReason

abbrev is_empty : List PublicEvidenceReference → Bool
is_empty [] = true
is_empty (r ∷ rs) = false

abbrev valid_conclusion :
    Platform → Option String → List PublicEvidenceReference → Option MissingReason → Bool
valid_conclusion p none refs reason = not (is_none reason)
valid_conclusion p (some c) refs reason = not (is_empty refs) && is_none reason && safe_text p c

-- `require_evidence_or_explicit_missing_reason`
unfoldable pub valid_coverage : Platform → DimensionCoverage → Bool
valid_coverage p x = valid_conclusion p x.conclusion x.evidence x.missing_reason

pub record CoverageGateResult : Type 0 where
  pub dimensions : Triple DimensionCoverage
  pub complete : Bool
  pub trace_id : String

-- _SAFE_TRACE_ID
abbrev pub is_safe_trace_id : String → Bool
is_safe_trace_id s = len s == 32 && all (λ c. between b'0' b'9' c || between b'a' b'f' c) (codes s)

abbrev pub concluded : Triple DimensionCoverage → Bool
concluded t =
    not (is_none t.first.conclusion)
    && not (is_none t.second.conclusion)
    && not (is_none t.third.conclusion)

abbrev pub covers_in_order : Triple DimensionCoverage → Bool
covers_in_order t = in_order t.first.dimension t.second.dimension t.third.dimension

abbrev pub bool_eq : Bool → Bool → Bool
bool_eq true b = b
bool_eq false b = not b

unfoldable pub valid_result : CoverageGateResult → Bool
valid_result r =
    is_safe_trace_id r.trace_id
    && covers_in_order r.dimensions
    && bool_eq r.complete (concluded r.dimensions)

-- A mapping by its entries. A value that is no list or tuple, an item that is no capability and a
-- conclusion that is no text are `none`.
abbrev pub Supplied : Type 0
Supplied = Option (List (Option VerifiedPublicEvidence))

unfoldable pub lookup {ℓ} : {X : Type ℓ} → String → List (String × X) → Option X
lookup k [] = none
lookup k ((j, x) ∷ m) = if str_eq j k then some x else lookup k m

-- `.get(dimension, ())`
abbrev pub supplied_or_empty : Option Supplied → Supplied
supplied_or_empty none = some []
supplied_or_empty (some s) = s

-- `.get(dimension)`, kept if it is a text
abbrev pub text_or_none : Option (Option String) → Option String
text_or_none none = none
text_or_none (some c) = c

abbrev known_dimension : String → Bool
known_dimension = contains ("A" ∷ "B" ∷ "C" ∷ [])

abbrev pub known_keys : List (String × Supplied) → List (String × Option String) → Bool
known_keys evs cs = all (λ e. known_dimension e.0) evs && all (λ e. known_dimension e.0) cs

abbrev pub result_of : Triple DimensionCoverage → String → CoverageGateResult
result_of t trace = record { dimensions = t; complete = concluded t; trace_id = trace }

abbrev pub validated_result : CoverageGateResult → Outcome CoverageError CoverageGateResult
validated_result r = if valid_result r then ok r else err validation_error

abbrev pub finished : Triple DimensionCoverage → String → Outcome CoverageError CoverageGateResult
finished t trace = validated_result (result_of t trace)

module _ (p : Platform) where
  abbrev with_dimension :
      PublicEvidenceReference → Option Dimension → Option (PublicEvidenceReference × Dimension)
  with_dimension r none = none
  with_dimension r (some d) = some (r, d)

  -- `none` is a ValueError.
  unfoldable pub normalize_verified_evidence :
      Option VerifiedPublicEvidence → Option (PublicEvidenceReference × Dimension)
  normalize_verified_evidence none = none
  normalize_verified_evidence (some v) =
      if v.from_gate
        && v.bound_by_gate
        && valid_reference p v.reference
        && same_reference v.reference v.fingerprint
      then with_dimension v.reference (tool_dimension v.tool_name)
      else none

  abbrev pub bounded :
      Dimension
      → Option (PublicEvidenceReference × Dimension)
      → Outcome CoverageError PublicEvidenceReference
  bounded d none = err not_verified
  bounded d (some (r, allowed)) = if dimension_eq d allowed then ok r else err wrong_dimension

  unfoldable pub evidence_items :
      Dimension
      → List (Option VerifiedPublicEvidence)
      → Outcome CoverageError (List PublicEvidenceReference)
  evidence_items d [] = ok []
  evidence_items d (v ∷ vs) =
      bounded d (normalize_verified_evidence v) >>= λ r. evidence_items d vs >>= λ rs. ok (r ∷ rs)

  abbrev pub evidence_sequence :
      Dimension → Supplied → Outcome CoverageError (List PublicEvidenceReference)
  evidence_sequence d none = err not_a_sequence
  evidence_sequence d (some vs) = evidence_items d vs

  abbrev pub validated : DimensionCoverage → Outcome CoverageError DimensionCoverage
  validated x = if valid_coverage p x then ok x else err validation_error

  abbrev pub missing :
      AbcRequirement → List PublicEvidenceReference → MissingReason → DimensionCoverage
  missing q refs reason = record {
    dimension = q.dimension;
    requirement = q.requirement;
    evidence = refs;
    conclusion = none;
    missing_reason = some reason;
  }

  abbrev pub conclude :
      AbcRequirement → List PublicEvidenceReference → Option String → DimensionCoverage
  conclude q [] raw = missing q [] public_evidence_missing
  conclude q (r ∷ rs) none = missing q (r ∷ rs) conclusion_missing
  conclude q (r ∷ rs) (some c) =
      if safe_text p c
      then record {
        dimension = q.dimension;
        requirement = q.requirement;
        evidence = r ∷ rs;
        conclusion = some c;
        missing_reason = none;
      }
      else missing q (r ∷ rs) conclusion_missing

  -- One turn of the gate's loop.
  unfoldable pub cover :
      AbcRequirement → Supplied → Option String → Outcome CoverageError DimensionCoverage
  cover q supplied raw =
      evidence_sequence q.dimension supplied >>= λ refs. validated (conclude q refs raw)

  abbrev pub turn :
      AbcRequirement
      → List (String × Supplied)
      → List (String × Option String)
      → Outcome CoverageError DimensionCoverage
  turn q evs cs =
      cover q (supplied_or_empty (lookup (dimension_name q.dimension) evs))
        (text_or_none (lookup (dimension_name q.dimension) cs))

  abbrev pub looped :
      Triple AbcRequirement
      → List (String × Supplied)
      → List (String × Option String)
      → String
      → Outcome CoverageError CoverageGateResult
  looped plan evs cs trace = turn plan.first evs cs >>= λ a. turn plan.second evs cs >>= λ b.
      turn plan.third evs cs >>= λ c. finished (record { first = a; second = b; third = c }) trace

  abbrev pub checked :
      Triple AbcRequirement
      → Option (List (String × Supplied))
      → Option (List (String × Option String))
      → String
      → Outcome CoverageError CoverageGateResult
  checked plan (some evs) (some cs) trace =
      require (known_keys evs cs) unknown_dimension >> looped plan evs cs trace
  checked plan none cs trace = err not_mappings
  checked plan (some evs) none trace = err not_mappings

  -- `trace` is the `uuid4().hex` drawn at the end; `none` for an argument is an object of another type.
  unfoldable pub coverage_gate :
      Option (Triple AbcRequirement)
      → Option (List (String × Supplied))
      → Option (List (String × Option String))
      → String
      → Outcome CoverageError CoverageGateResult
  coverage_gate none evs cs trace = err unsafe_plan
  coverage_gate (some plan) evs cs trace =
      require (valid_plan p plan) unsafe_plan >> checked plan evs cs trace
