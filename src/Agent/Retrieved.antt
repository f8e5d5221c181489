-- ===== src/Agent/Retrieved.antt =====
-- graph.py: what the graph takes of a retrieval.
use Prim.Native.Char.{code}
use Prim.Native.String.{◌++◌}
use aquaops_copilot.Common.{
  ℕ, zero, suc, String, Bool, true, ◌&&◌, not, Option, none, some, List, [], ◌∷◌, if◌then◌else◌,
  ◌==◌, all, contains, length,
}
use aquaops_copilot.Common.Text.{codes, len, between, is_lower_hex}
use aquaops_copilot.Agent.Evidence.{PublicEvidenceReference}
use aquaops_copilot.Agent.Requests.{strip_text}
use aquaops_copilot.Retrieval.Hybrid.{PublicEvidence, RetrievalResult}

-- The loop over the evidence, with the ids that it has seen.
unfoldable pub retrieved_valid :
    {S : Type 0} → List String → List String → List (PublicEvidence S) → Bool
retrieved_valid fused seen [] = true
retrieved_valid fused seen (x ∷ xs) =
    (len x.chunk_id == 64
      && all is_lower_hex (codes x.chunk_id)
      && not (contains seen x.chunk_id)
      && contains fused x.chunk_id)
    && retrieved_valid fused (x.chunk_id ∷ seen) xs

-- `_validated_public_retrieval`; `none` is the ValueError. The class and the policy of evidence
-- have one value each.
unfoldable pub validated_public_retrieval :
    {S : Type 0} → Option (RetrievalResult S) → Option (List (PublicEvidence S))
validated_public_retrieval none = none
validated_public_retrieval (some r) =
    if between 1 6 (length r.evidence) && retrieved_valid r.fused_candidate_ids [] r.evidence
    then some r.evidence
    else none

-- text.split("。", 1)[0]
unfoldable pub before_stop : String → String
before_stop String.[] = ""
before_stop (String.◌∷◌ c s) = if code c == 12290 then "" else String.◌∷◌ c (before_stop s)

-- text[:n]
unfoldable pub take_text : ℕ → String → String
take_text zero s = ""
take_text (suc n) String.[] = ""
take_text (suc n) (String.◌∷◌ c s) = String.◌∷◌ c (take_text n s)

abbrev pub reference_of : {S : Type 0} → PublicEvidence S → PublicEvidenceReference
reference_of x = record {
  evidence_id = x.chunk_id;
  source_url = x.source_url;
  source_version = x.source_version;
}

abbrev first_text : {S : Type 0} → List (PublicEvidence S) → String
first_text [] = ""
first_text (x ∷ xs) = x.text

abbrev pub conclusion_of : {S : Type 0} → List (PublicEvidence S) → String
conclusion_of xs =
    "公开检索摘要：" ++ take_text 180 (strip_text (before_stop (strip_text (first_text xs)))) ++ "。"
