-- ===== src/Agent/Evidence.antt =====
-- coverage.py: references to public evidence, and their minting from an execution receipt.
pub mod Minting
use aquaops_copilot.Common.{
  ℕ, String, Bool, true, false, ◌&&◌, ◌||◌, not, Option, none, some, List, [], ◌∷◌, map,
  if◌then◌else◌, ◌==◌, leb, str_eq, any, all, length, contains,
}
use aquaops_copilot.Common.Text.{codes, len, head_tail, is_alnum, is_blank, between}
use aquaops_copilot.Agent.Grants.{Host, Receipt, redeem_tool_execution_receipt}

-- What the checks of URLs and texts use of Python's library.
pub record Platform : Type 0 where
  -- pydantic's HttpUrl and `urlsplit`: the scheme and the host of an accepted URL
  pub split_url : String → Option (String × String)
  -- `host.casefold().rstrip(".")`
  pub normalize_host : String → String
  -- `ipaddress.ip_address`: `none` if the host is no address, else whether it is private, loopback, link-local, multicast, reserved or unspecified
  pub address_is_special : String → Option Bool
  pub casefold : String → String
  -- unicodedata.category(character) begins with "C", or is "Zl" or "Zp"
  pub is_control : ℕ → Bool

-- `sub in s`, over code points
abbrev starts : List ℕ → List ℕ → Bool
starts [] cs = true
starts (d ∷ ds) [] = false
starts (d ∷ ds) (c ∷ cs) = d == c && starts ds cs

abbrev pub occurs : List ℕ → List ℕ → Bool
occurs ds [] = starts ds []
occurs ds (c ∷ cs) = starts ds (c ∷ cs) || occurs ds cs

abbrev ends_with : List ℕ → List ℕ → Bool
ends_with ds [] = starts ds []
ends_with ds (c ∷ cs) = (starts ds (c ∷ cs) && length ds == length (c ∷ cs)) || ends_with ds cs

abbrev pub sensitive_markers : List String
sensitive_markers = "password" ∷ "private" ∷ "query" ∷ "secret" ∷ "token" ∷ "raw_value" ∷ "sql" ∷ []

abbrev local_hosts : List String
local_hosts = "localhost" ∷ "local" ∷ "internal" ∷ []

abbrev local_suffixes : List String
local_suffixes = ".localhost" ∷ ".local" ∷ ".internal" ∷ ".lan" ∷ ".corp" ∷ ".home.arpa" ∷ []

module _ (p : Platform) where
  abbrev pub has_marker : String → Bool
  has_marker s = any (λ m. occurs (codes m) (codes (p.casefold s))) sensitive_markers

  abbrev unless_special : Option Bool → Bool
  unless_special none = true
  unless_special (some special) = not special

  abbrev public_host : Option (String × String) → Bool
  public_host none = false
  public_host (some (scheme, host)) =
      let name = p.normalize_host host in
      str_eq scheme "https"
      && not (str_eq host "")
      && not (contains local_hosts name)
      && not (any (λ s. ends_with (codes s) (codes name)) local_suffixes)
      && unless_special (p.address_is_special name)

  unfoldable pub public_https_url : String → Bool
  public_https_url url = public_host (p.split_url url)

  -- `_safe_text`
  unfoldable pub safe_text : String → Bool
  safe_text s =
      not (is_blank (codes s))
      && leb (len s) 280
      && not (has_marker s)
      && not (any (λ c. any (λ d. d == c) (codes "<>`[]*_#")) (codes s))
      && not (any (λ c. c == 10 || c == 13 || c == 8232 || c == 8233 || p.is_control c) (codes s))

-- `data_class` and `access_policy` have one value each.
pub record PublicEvidenceReference : Type 0 where
  pub evidence_id : String
  pub source_url : String
  pub source_version : String

unfoldable pub same_reference : PublicEvidenceReference → PublicEvidenceReference → Bool
same_reference a b =
    str_eq a.evidence_id b.evidence_id
    && str_eq a.source_url b.source_url
    && str_eq a.source_version b.source_version

abbrev is_safe_evidence_id : List ℕ → Bool
is_safe_evidence_id =
    head_tail is_alnum (λ c. is_alnum c || c == b'.' || c == b':' || c == b'-') 0 255

abbrev is_safe_version : List ℕ → Bool
is_safe_version =
    head_tail is_alnum
      (λ c.
        is_alnum c || c == b'.' || c == b'_' || c == b'(' || c == b')' || c == b' ' || c == b'-')
      0 63

-- The validators of the model.
unfoldable pub valid_reference : Platform → PublicEvidenceReference → Bool
valid_reference p r =
    (between 1 256 (len r.evidence_id)
      && is_safe_evidence_id (codes r.evidence_id)
      && not (has_marker p r.evidence_id))
    && public_https_url p r.source_url
    && (between 1 64 (len r.source_version)
        && is_safe_version (codes r.source_version)
        && not (has_marker p r.source_version))

-- `from_gate` and `bound_by_gate`: both issuers are `_VERIFIED_EVIDENCE_ISSUER`.
pub record VerifiedPublicEvidence : Type 0 where
  pub from_gate : Bool
  pub bound_by_gate : Bool
  pub tool_name : String
  pub fingerprint : PublicEvidenceReference
  pub reference : PublicEvidenceReference

pub data Dimension : Type 0 where
  A B C : Dimension

abbrev pub dimension_eq : Dimension → Dimension → Bool
dimension_eq A A = true
dimension_eq B B = true
dimension_eq C C = true
dimension_eq _ _ = false

-- _TOOL_ALLOWED_DIMENSIONS: each tool has one.
unfoldable pub tool_dimension : String → Option Dimension
tool_dimension name =
    if str_eq name "retrieve_public_water_knowledge"
    then some C
    else if str_eq name "aggregate_public_history"
    then some A
    else if str_eq name "screen_public_anomaly"
    then some B
    else none

-- The loop over the references, with the keys that it has seen.
unfoldable pub distinct_valid :
    Platform → List PublicEvidenceReference → List PublicEvidenceReference → Bool
distinct_valid p seen [] = true
distinct_valid p seen (r ∷ rs) =
    (valid_reference p r && not (any (λ s. same_reference s r) seen))
    && distinct_valid p (r ∷ seen) rs

abbrev pub minted : String → PublicEvidenceReference → VerifiedPublicEvidence
minted tool r = record {
  from_gate = true;
  bound_by_gate = true;
  tool_name = tool;
  fingerprint = r;
  reference = r;
}

abbrev for_tool :
    List PublicEvidenceReference → Option String → Option (List VerifiedPublicEvidence)
for_tool rs none = none
for_tool rs (some tool) = elim (tool_dimension tool) [
  | none ↦ none
  | some _ ↦ some (map (minted tool) rs)
]

redeem_for :
    List PublicEvidenceReference
    → Option Receipt
    → Host
    → Option (List VerifiedPublicEvidence) × Host
redeem_for rs receipt h =
    let (tool, h') = redeem_tool_execution_receipt receipt h in (for_tool rs tool, h')

-- `none` is a ValueError.
unfoldable pub mint_verified_public_evidence_batch :
    Platform
    → Option Receipt
    → List PublicEvidenceReference
    → Host
    → Option (List VerifiedPublicEvidence) × Host
unfolding redeem_for
mint_verified_public_evidence_batch p receipt rs h =
    if between 1 6 (length rs) && distinct_valid p [] rs then redeem_for rs receipt h else (none, h)
