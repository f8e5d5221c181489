-- ===== src/Agent/Coverage/Gate.antt =====
-- What the gate makes of each dimension.
use mathlib.Core.Path.{subst}
use aquaops_copilot.Common.{
  ◌≤◌, String, ◌≡◌, ◌⊎◌, inl, inr, refl, sym, ap, Bool, true, false, ◌&&◌, Option, none, some, List,
  [], ◌∷◌, arith, length, any, all, all_mono, Bool-cases, Option-cases, Outcome, ok, err, ◌>>=◌,
  bind-ok, eq_refl,
}
use aquaops_copilot.Agent.Evidence.{
  Platform, safe_text, PublicEvidenceReference, same_reference, valid_reference,
  VerifiedPublicEvidence, Dimension, dimension_eq, tool_dimension,
}
use aquaops_copilot.Agent.Coverage.{
  CoverageError, AbcRequirement, Triple, DimensionCoverage, public_evidence_missing, valid_coverage,
  CoverageGateResult, valid_result, Supplied, lookup, supplied_or_empty, text_or_none,
  dimension_name, normalize_verified_evidence, evidence_items, cover, coverage_gate, bounded,
  conclude, result_of, evidence_sequence, validated, validated_result, turn, looped, concluded,
}

pub same_reference_refl : (r : PublicEvidenceReference) → same_reference r r ≡ true
unfolding same_reference
same_reference_refl r =
    ground (arith, eq_refl r.evidence_id, eq_refl r.source_url, eq_refl r.source_version)

abbrev pub of_dimension : Dimension → Option Dimension → Bool
of_dimension d none = false
of_dimension d (some e) = dimension_eq d e

-- An item of evidence that stands for a reference of a dimension: a capability of the gate, bound
-- to the reference that it carries, of a tool with that dimension.
abbrev pub backs :
    Platform → Dimension → PublicEvidenceReference → Option VerifiedPublicEvidence → Bool
backs p d r none = false
backs p d r (some v) =
    v.from_gate
    && v.bound_by_gate
    && valid_reference p v.reference
    && same_reference v.reference v.fingerprint
    && same_reference v.reference r
    && of_dimension d (tool_dimension v.tool_name)

abbrev pub backed :
    Platform → Dimension → List (Option VerifiedPublicEvidence) → PublicEvidenceReference → Bool
backed p d vs r = any (backs p d r) vs && valid_reference p r

item-backs :
    (p : Platform) (d : Dimension) (v : Option VerifiedPublicEvidence) (r : PublicEvidenceReference)
    → bounded p d (normalize_verified_evidence p v) ≡ ok r
    → (backs p d r v ≡ true) × (valid_reference p r ≡ true)
unfolding normalize_verified_evidence
item-backs p d none r e = absurd (ground arith)
item-backs p d (some v) r e = elim (Option-cases (tool_dimension v.tool_name)) [
  | inl n ↦ absurd (ground arith)
  | inr (k, q) ↦ (ground (arith, same_reference_refl v.reference), ground arith)
]

pub evidence_items-backed :
    (p : Platform) (d : Dimension) (vs : List (Option VerifiedPublicEvidence))
    (rs : List PublicEvidenceReference)
    → evidence_items p d vs ≡ ok rs
    → all (backed p d vs) rs ≡ true
unfolding evidence_items
evidence_items-backed p d [] [] e = refl
evidence_items-backed p d [] (r ∷ rs) e = absurd (ground arith)
evidence_items-backed p d (v ∷ vs) rs e =
    let (r, e1, e2) =
      bind-ok (bounded p d (normalize_verified_evidence p v))
        (λ r. evidence_items p d vs >>= λ rs. ok (r ∷ rs)) rs e in
    let (ts, e3, e4) = bind-ok (evidence_items p d vs) (λ rs. ok (r ∷ rs)) rs e2 in
    let (b, w) = item-backs p d v r e1 in
    let more =
      all_mono (backed p d vs) (backed p d (v ∷ vs)) ts (λ x h. ground arith)
        (evidence_items-backed p d vs ts e3) in
    subst (λ o. all (backed p d (v ∷ vs)) (items_of o) ≡ true) e4 (ground arith)
  where
    items_of : Outcome CoverageError (List PublicEvidenceReference) → List PublicEvidenceReference
    items_of (ok rs) = rs
    items_of (err x) = []

-- What the gate makes of one dimension of its plan.
pub record Covered (p : Platform) (q : AbcRequirement) (evs : List (String × Supplied))
    (cs : List (String × Option String)) (x : DimensionCoverage) : Type 0 where
  pub same_dimension : x.dimension ≡ q.dimension
  pub same_requirement : x.requirement ≡ q.requirement
  pub passes_validator : valid_coverage p x ≡ true
  pub given : List (Option VerifiedPublicEvidence)
  pub from_supplied : supplied_or_empty (lookup (dimension_name q.dimension) evs) ≡ some given
  pub all_backed : all (backed p q.dimension given) x.evidence ≡ true
  pub without_evidence : length x.evidence ≡ 0 → x.missing_reason ≡ some public_evidence_missing
  pub conclusion_given :
      (c : String)
      → x.conclusion ≡ some c
      → (text_or_none (lookup (dimension_name q.dimension) cs) ≡ some c)
        × (safe_text p c ≡ true)
        × (1 ≤ length x.evidence)
  pub not_concluded :
      x.conclusion ≡ none
      → (length x.evidence ≡ 0)
        ⊎ ((c : String)
            → text_or_none (lookup (dimension_name q.dimension) cs) ≡ some c
            → safe_text p c ≡ false)

-- The same, of the item and the conclusion looked up.
pub record Made (p : Platform) (q : AbcRequirement) (refs : List PublicEvidenceReference)
    (raw : Option String) (x : DimensionCoverage) : Type 0 where
  pub dimension_ : x.dimension ≡ q.dimension
  pub requirement_ : x.requirement ≡ q.requirement
  pub evidence_ : x.evidence ≡ refs
  pub without_ : length x.evidence ≡ 0 → x.missing_reason ≡ some public_evidence_missing
  pub given_ :
      (c : String)
      → x.conclusion ≡ some c
      → (raw ≡ some c) × (safe_text p c ≡ true) × (1 ≤ length x.evidence)
  pub not_ :
      x.conclusion ≡ none
      → (length x.evidence ≡ 0) ⊎ ((c : String) → raw ≡ some c → safe_text p c ≡ false)

pub conclude-Made :
    (p : Platform) (q : AbcRequirement) (refs : List PublicEvidenceReference) (raw : Option String)
    → Made p q refs raw (conclude p q refs raw) × (valid_coverage p (conclude p q refs raw) ≡ true)
unfolding valid_coverage
conclude-Made p q [] raw = (
  record {
    dimension_ = refl;
    requirement_ = refl;
    evidence_ = refl;
    without_ = λ _. refl;
    given_ = λ c e. absurd (cc e);
    not_ = λ _. inl refl;
  },
  refl,
)
conclude-Made p q (r ∷ rs) none = (
  record {
    dimension_ = refl;
    requirement_ = refl;
    evidence_ = refl;
    without_ = λ e. absurd (omega arith);
    given_ = λ c e. absurd (cc e);
    not_ = λ _. inr (λ c e. absurd (cc e));
  },
  refl,
)
conclude-Made p q (r ∷ rs) (some c) = elim (Bool-cases (safe_text p c)) [
  | inl y ↦ (
    record {
      dimension_ = ground arith;
      requirement_ = ground arith;
      evidence_ = ground arith;
      without_ = λ e. ground arith;
      given_ = λ d e. (ground arith, ground arith, ground arith);
      not_ = λ e. ground arith;
    },
    ground arith,
  )
  | inr n ↦ (
    record {
      dimension_ = ground arith;
      requirement_ = ground arith;
      evidence_ = ground arith;
      without_ = λ e. ground arith;
      given_ = λ d e. ground arith;
      not_ = λ e. inr (λ d f. ground arith);
    },
    ground arith,
  )
]

sequence-backed :
    (p : Platform) (d : Dimension) (supplied : Supplied) (refs : List PublicEvidenceReference)
    → evidence_sequence p d supplied ≡ ok refs
    → (given : List (Option VerifiedPublicEvidence)) × (supplied ≡ some given)
      × (all (backed p d given) refs ≡ true)
sequence-backed p d none refs e = absurd (cc e)
sequence-backed p d (some vs) refs e = (vs, refl, evidence_items-backed p d vs refs e)

validated-same :
    (p : Platform) (x y : DimensionCoverage)
    → validated p x ≡ ok y
    → (x ≡ y) × (valid_coverage p y ≡ true)
validated-same p x y e = elim (Bool-cases (valid_coverage p x)) [
  | inl t ↦ (ground arith, ground arith)
  | inr f ↦ absurd (ground arith)
]

pub turn-Covered :
    (p : Platform) (q : AbcRequirement) (evs : List (String × Supplied))
    (cs : List (String × Option String)) (x : DimensionCoverage)
    → turn p q evs cs ≡ ok x
    → Covered p q evs cs x
turn-Covered p q evs cs x e =
    let supplied = supplied_or_empty (lookup (dimension_name q.dimension) evs) in
    let raw = text_or_none (lookup (dimension_name q.dimension) cs) in
    let (refs, e1, e2) =
      bind-ok (evidence_sequence p q.dimension supplied)
        (λ refs. validated p (conclude p q refs raw)) x (unfold cover in e) in
    let (given, g, b) = sequence-backed p q.dimension supplied refs e1 in
    let (same, valid) = validated-same p (conclude p q refs raw) x e2 in
    let m = subst (Made p q refs raw) same (conclude-Made p q refs raw).0 in
    record {
      same_dimension = m.dimension_;
      same_requirement = m.requirement_;
      passes_validator = valid;
      given = given;
      from_supplied = g;
      all_backed = subst (λ l. all (backed p q.dimension given) l ≡ true) (sym m.evidence_) b;
      without_evidence = m.without_;
      conclusion_given = m.given_;
      not_concluded = m.not_;
    }

loop-of :
    (p : Platform) (plan : Triple AbcRequirement) (evs : List (String × Supplied))
    (cs : List (String × Option String)) (trace : String) (r : CoverageGateResult)
    → coverage_gate p (some plan) (some evs) (some cs) trace ≡ ok r
    → looped p plan evs cs trace ≡ ok r
unfolding coverage_gate
loop-of p plan evs cs trace r e = ground arith

result-same :
    (x y : CoverageGateResult) → validated_result x ≡ ok y → (x ≡ y) × (valid_result y ≡ true)
result-same x y e = elim (Bool-cases (valid_result x)) [
  | inl t ↦ (ground arith, ground arith)
  | inr f ↦ absurd (ground arith)
]

-- When the gate returns, its result satisfies the validators of the model, is complete exactly if
-- every dimension has a conclusion, and each dimension has the requirement of the plan, evidence
-- that was supplied under that dimension as capabilities of a tool of that dimension, and a
-- conclusion exactly if it has evidence and a safe text was supplied for it.
pub gate_keeps_dimensions :
    (p : Platform) (plan : Triple AbcRequirement) (evs : List (String × Supplied))
    (cs : List (String × Option String)) (trace : String) (r : CoverageGateResult)
    → coverage_gate p (some plan) (some evs) (some cs) trace ≡ ok r
    → Covered p plan.first evs cs r.dimensions.first
      × Covered p plan.second evs cs r.dimensions.second
      × Covered p plan.third evs cs r.dimensions.third
      × (valid_result r ≡ true)
      × (r.complete ≡ concluded r.dimensions)
      × (r.trace_id ≡ trace)
gate_keeps_dimensions p plan evs cs trace r e =
    let (a, ea, e1) = bind-ok (turn p plan.first evs cs) _ r (loop-of p plan evs cs trace r e) in
    let (b, eb, e2) = bind-ok (turn p plan.second evs cs) _ r e1 in
    let (c, ec, e3) = bind-ok (turn p plan.third evs cs) _ r e2 in
    let (same, valid) =
      result-same (result_of (record { first = a; second = b; third = c }) trace) r e3 in
    (
      subst (Covered p plan.first evs cs) (ap (λ x. x.dimensions.first) same)
          (turn-Covered p plan.first evs cs a ea),
      subst (Covered p plan.second evs cs) (ap (λ x. x.dimensions.second) same)
          (turn-Covered p plan.second evs cs b eb),
      subst (Covered p plan.third evs cs) (ap (λ x. x.dimensions.third) same)
          (turn-Covered p plan.third evs cs c ec),
      valid,
      subst (λ x. x.complete ≡ concluded x.dimensions) same refl,
      sym (ap (λ x. x.trace_id) same),
    )
