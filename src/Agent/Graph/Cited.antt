-- ===== src/Agent/Graph/Cited.antt =====
-- What the graph mints: the batch of a retrieval, and the one citation of a diagnostic.
use mathlib.Core.Path.{subst}
use aquaops_copilot.Common.{
  String, ◌≡◌, refl, ap, ◌∙◌, Option-cases, Option, none, some, List, [], ◌∷◌, ◌++◌, map, arith,
  inl, inr, Bool-cases, ◌&&◌,
}
use aquaops_copilot.Agent.Grants.{Host, Receipt, host_session, redeem_tool_execution_receipt}
use aquaops_copilot.Agent.Evidence.{
  Platform, PublicEvidenceReference, VerifiedPublicEvidence, tool_dimension, minted,
  mint_verified_public_evidence_batch,
}
use aquaops_copilot.Agent.Evidence.Minting.{Minted, mint-redeemed, mint-tests}
use aquaops_copilot.Agent.Citations.{
  joined, mint_each, checked_rendering, is_valid_rendered, same_rendering,
}
use aquaops_copilot.Agent.Diagnostics.{
  Printing, DiagnosticResult, aggregate, screening, Rendering, expected_public_historical_rendering,
  render_aggregate, rendered_with, render_public_historical_anomaly,
}
use aquaops_copilot.Data.Numbers.{Numbers, Datetimes}
use aquaops_copilot.Data.Boundary.{delivered, valid_aggregate, valid_anomaly}
use aquaops_copilot.Data.Anomaly.{PublicAnomalySummary}

-- The batch met every test of the minting, and the host is the one that its redemption leaves.
pub record FromReceipt (p : Platform) (r : Receipt) (rs : List PublicEvidenceReference)
    (before after : Host) : Type 0 where
  pub batch : Minted p r rs before (map (minted r.tool_name) rs)
  pub redeemed_once : after ≡ (redeem_tool_execution_receipt (some r) before).1

redeem_name :
    (r : Receipt) (h : Host) (name : String)
    → (redeem_tool_execution_receipt (some r) h).0 ≡ some name
    → name ≡ r.tool_name
unfolding redeem_tool_execution_receipt
redeem_name r h name e = elim (Option-cases (host_session (some r.session) h)) [
  | inl n ↦ ground arith
  | inr (s, q) ↦ ground arith
]

pub batch_minted :
    (p : Platform) (r : Receipt) (rs : List PublicEvidenceReference) (h : Host)
    (vs : List VerifiedPublicEvidence)
    → (mint_verified_public_evidence_batch p (some r) rs h).0 ≡ some vs
    → (vs ≡ map (minted r.tool_name) rs)
      × FromReceipt p r rs h (mint_verified_public_evidence_batch p (some r) rs h).1
batch_minted p r rs h vs e =
    let (name, red, after) = mint-redeemed p r rs h vs e in
    let (size, ok_, dim, same) = mint-tests p r rs h vs name e red in
    let tool = redeem_name r h name red in
    (
      same ∙ ap (λ t. map (minted t) rs) tool,
      record {
        batch = record {
          some_items = ground arith;
          few_items = ground arith;
          valid = ok_;
          redeemed = red ∙ ap some tool;
          has_dimension = λ n. dim (ap tool_dimension tool ∙ n);
          bound = refl;
        };
        redeemed_once = after;
      },
    )

pub each_minted :
    (p : Platform) (r : Receipt) (x : PublicEvidenceReference) (h : Host)
    (vs : List VerifiedPublicEvidence)
    → (mint_each p r (x ∷ []) h).0 ≡ some vs
    → (vs ≡ map (minted r.tool_name) (x ∷ []))
      × FromReceipt p r (x ∷ []) h (mint_each p r (x ∷ []) h).1
unfolding mint_each
each_minted p r x h vs e =
    joined_one (mint_verified_public_evidence_batch p (some r) (x ∷ []) h).0
      (mint_verified_public_evidence_batch p (some r) (x ∷ []) h).1
      (λ ws q. batch_minted p r (x ∷ []) h ws q) e
  where
    joined_one :
        (one : Option (List VerifiedPublicEvidence)) (h' : Host)
        → ((ws : List VerifiedPublicEvidence)
            → one ≡ some ws
            → (ws ≡ map (minted r.tool_name) (x ∷ [])) × FromReceipt p r (x ∷ []) h h')
        → (joined one h' (some [], h')).0 ≡ some vs
        → (vs ≡ map (minted r.tool_name) (x ∷ []))
          × FromReceipt p r (x ∷ []) h (joined one h' (some [], h')).1
    joined_one none h' m e = absurd (cc e)
    joined_one (some ws) h' m e =
        let (same, from) = m ws refl in (cc (e, ap (λ l. l ++ []) same), from)

-- A rendering that is expected cites one source.
abbrev pub OneCitation : Rendering → Type 0
OneCitation r = (c : PublicEvidenceReference) × (r.citations ≡ c ∷ [])

pub some_same : {X : Type 0} (a b : X) → some a ≡ some b → a ≡ b
some_same a b e = cc e

carried : (a r : Rendering) → OneCitation a → some a ≡ some r → OneCitation r
carried a r c e = subst OneCitation (some_same a r e) c

module _ {S : Type 0} (f : Numbers S) (d : Datetimes) (pr : Printing S) where
  worded-OneCitation :
      (s : PublicAnomalySummary S) (words : Option String) (r : Rendering)
      → rendered_with f d pr s words ≡ some r
      → OneCitation r
  worded-OneCitation s none r e = absurd (cc e)
  worded-OneCitation s (some words) r e = carried _ r (_, refl) e

  anomaly-OneCitation :
      (s : PublicAnomalySummary S) (r : Rendering)
      → render_public_historical_anomaly f d pr s ≡ some r
      → OneCitation r
  unfolding render_public_historical_anomaly
  anomaly-OneCitation s r e = worded-OneCitation s _ r e

  pub expected-OneCitation :
      (result : DiagnosticResult S) (r : Rendering)
      → expected_public_historical_rendering f d pr result ≡ some r
      → OneCitation r
  unfolding expected_public_historical_rendering render_aggregate
  expected-OneCitation (aggregate (delivered s)) r e = elim (Bool-cases (valid_aggregate f d s)) [
    | inl y ↦ carried (render_aggregate f d pr s) r (_, refl) (ground arith)
    | inr n ↦ absurd (ground arith)
  ]
  expected-OneCitation (aggregate _) r e = absurd (cc e)
  expected-OneCitation (screening (delivered s)) r e = elim (Bool-cases (valid_anomaly f d s)) [
    | inl y ↦ anomaly-OneCitation s r (ground arith)
    | inr n ↦ absurd (ground arith)
  ]
  expected-OneCitation (screening _) r e = absurd (cc e)

pub checked_same :
    (expected : Option Rendering) (r : Rendering)
    → checked_rendering expected expected ≡ some r
    → expected ≡ some r
checked_same none r e = absurd (cc e)
checked_same (some a) r e = elim (Bool-cases (is_valid_rendered a && same_rendering a a)) [
  | inl y ↦ ground arith
  | inr n ↦ absurd (ground arith)
]
