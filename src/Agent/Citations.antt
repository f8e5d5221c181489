-- ===== src/Agent/Citations.antt =====
-- graph.py: the checks of a rendered diagnostic, and the minting of its citations.
use aquaops_copilot.Common.{
  String, Bool, true, false, ◌&&◌, not, Option, none, some, List, [], ◌∷◌, ◌++◌, if◌then◌else◌,
  str_eq, all,
}
use aquaops_copilot.Common.Text.{codes, is_blank}
use aquaops_copilot.Agent.Grants.{Host, Receipt}
use aquaops_copilot.Agent.Evidence.{
  Platform, PublicEvidenceReference, same_reference, VerifiedPublicEvidence, Dimension, A, B,
  mint_verified_public_evidence_batch,
}
use aquaops_copilot.Agent.Diagnostics.{DiagnosticResult, aggregate, screening, Rendering}
use aquaops_copilot.Data.Boundary.{delivered}

abbrev pub nonblank : String → Bool
nonblank s = not (is_blank (codes s))

abbrev pub citations_valid : List PublicEvidenceReference → Bool
citations_valid [] = false
citations_valid (r ∷ rs) =
    all (λ e. nonblank e.evidence_id && nonblank e.source_url && nonblank e.source_version) (r ∷ rs)

-- `_is_valid_rendered_public_history`
unfoldable pub is_valid_rendered : Rendering → Bool
is_valid_rendered r = nonblank r.answer && citations_valid r.citations

abbrev citations_eq : List PublicEvidenceReference → List PublicEvidenceReference → Bool
citations_eq [] [] = true
citations_eq (r ∷ rs) (s ∷ ss) = same_reference r s && citations_eq rs ss
citations_eq _ _ = false

unfoldable pub same_rendering : Rendering → Rendering → Bool
same_rendering a b = str_eq a.answer b.answer && citations_eq a.citations b.citations

-- The rendering, if it is valid and the one that is expected.
abbrev pub checked_rendering : Option Rendering → Option Rendering → Option Rendering
checked_rendering none b = none
checked_rendering (some a) none = none
checked_rendering (some a) (some b) =
    if is_valid_rendered a && same_rendering a b then some a else none

abbrev pub is_ok : {S : Type 0} → DiagnosticResult S → Bool
is_ok (aggregate (delivered s)) = true
is_ok (aggregate _) = false
is_ok (screening (delivered s)) = true
is_ok (screening _) = false

-- A loop of `mint_verified_public_evidence`, which mints a batch of one.
abbrev pub joined :
    Option (List VerifiedPublicEvidence)
    → Host
    → Option (List VerifiedPublicEvidence) × Host
    → Option (List VerifiedPublicEvidence) × Host
joined none h rest = (none, h)
joined (some vs) h (none, h') = (none, h')
joined (some vs) h (some ws, h') = (some (vs ++ ws), h')

unfoldable pub mint_each :
    Platform
    → Receipt
    → List PublicEvidenceReference
    → Host
    → Option (List VerifiedPublicEvidence) × Host
mint_each p receipt [] h = (some [], h)
mint_each p receipt (r ∷ rs) h =
    let (one, h') = mint_verified_public_evidence_batch p (some receipt) (r ∷ []) h in
    joined one h' (mint_each p receipt rs h')

abbrev pub dimension_of : {S : Type 0} → DiagnosticResult S → Dimension
dimension_of (aggregate s) = A
dimension_of (screening s) = B

abbrev pub legacy_conclusion : {S : Type 0} → DiagnosticResult S → String
legacy_conclusion (aggregate s) = "公开历史聚合证据已完成确定性核验"
legacy_conclusion (screening s) = "公开异常筛查证据已完成确定性核验"
