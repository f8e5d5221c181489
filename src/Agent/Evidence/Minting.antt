-- ===== src/Agent/Evidence/Minting.antt =====
-- Evidence is minted from one receipt, once, and only from a batch that is valid.
use mathlib.Core.Path.{subst}
use aquaops_copilot.Common.{
  ◌≤◌, String, ◌≡◌, ◌≢◌, sym, ap, ◌∙◌, true, none, some, List, [], map, arith, length, Option-cases,
  inl, inr,
}
use aquaops_copilot.Common.Text.{between}
use aquaops_copilot.Agent.Grants.{Host, Receipt, redeem_tool_execution_receipt}
use aquaops_copilot.Agent.Grants.Sessions.{Action, act_all, HostInv}
use aquaops_copilot.Agent.Grants.SingleUse.{receipt_single_use}
use aquaops_copilot.Agent.Evidence.{
  Platform, PublicEvidenceReference, VerifiedPublicEvidence, tool_dimension, distinct_valid, minted,
  mint_verified_public_evidence_batch,
}

-- What a batch that was minted has met.
pub record Minted (p : Platform) (r : Receipt) (rs : List PublicEvidenceReference) (h : Host)
    (vs : List VerifiedPublicEvidence) : Type 0 where
  pub some_items : 1 ≤ length rs
  pub few_items : length rs ≤ 6
  pub valid : distinct_valid p [] rs ≡ true
  pub redeemed : (redeem_tool_execution_receipt (some r) h).0 ≡ some r.tool_name
  pub has_dimension : tool_dimension r.tool_name ≢ none
  pub bound : vs ≡ map (minted r.tool_name) rs

pub mint-redeemed :
    (p : Platform) (r : Receipt) (rs : List PublicEvidenceReference) (h : Host)
    (vs : List VerifiedPublicEvidence)
    → (mint_verified_public_evidence_batch p (some r) rs h).0 ≡ some vs
    → (name : String) × ((redeem_tool_execution_receipt (some r) h).0 ≡ some name)
      × ((mint_verified_public_evidence_batch p (some r) rs h).1
          ≡ (redeem_tool_execution_receipt (some r) h).1)
unfolding mint_verified_public_evidence_batch
mint-redeemed p r rs h vs e = elim (Option-cases (redeem_tool_execution_receipt (some r) h).0) [
  | inl n ↦ absurd (ground arith)
  | inr (name, q) ↦ (name, q, ground arith)
]

pub mint-tests :
    (p : Platform) (r : Receipt) (rs : List PublicEvidenceReference) (h : Host)
    (vs : List VerifiedPublicEvidence) (name : String)
    → (mint_verified_public_evidence_batch p (some r) rs h).0 ≡ some vs
    → (redeem_tool_execution_receipt (some r) h).0 ≡ some name
    → (between 1 6 (length rs) ≡ true)
      × (distinct_valid p [] rs ≡ true)
      × (tool_dimension name ≢ none)
      × (vs ≡ map (minted name) rs)
unfolding mint_verified_public_evidence_batch
mint-tests p r rs h vs name e q = elim (Option-cases (tool_dimension name)) [
  | inl n ↦ absurd (ground arith)
  | inr (d, f) ↦ (ground arith, ground arith, λ n. cc (n, f), ground arith)
]

-- A batch is minted only from one to six valid references without duplicates, and by redeeming a
-- receipt of a tool that has a dimension, to which every item is bound; no later batch is minted
-- from a receipt with that nonce on the session, whatever calls come in between.
pub mint_once :
    (p : Platform) (r q : Receipt) (rs rs' : List PublicEvidenceReference) (h : Host)
    (vs : List VerifiedPublicEvidence) (as_ : List Action)
    → HostInv h
    → (mint_verified_public_evidence_batch p (some r) rs h).0 ≡ some vs
    → q.nonce ≡ r.nonce
    → q.session ≡ r.session
    → Minted p r rs h vs
      × ((mint_verified_public_evidence_batch p
            (some q)
            rs'
            (act_all as_ (mint_verified_public_evidence_batch p (some r) rs h).1)).0
          ≡ none)
mint_once p r q rs rs' h vs as_ i e n d =
    let (name, red, after) = mint-redeemed p r rs h vs e in
    let (tool, _, used) = receipt_single_use r q as_ h name i red n d in
    let (size, ok_, dim, bound) = mint-tests p r rs h vs name e red in
    (
      record {
        some_items = ground arith;
        few_items = ground arith;
        valid = ok_;
        redeemed = red ∙ ap some tool;
        has_dimension = subst (λ t. tool_dimension t ≢ none) tool dim;
        bound = bound ∙ ap (λ t. map (minted t) rs) tool;
      },
      subst (λ x. (mint_verified_public_evidence_batch p (some q) rs' (act_all as_ x)).0 ≡ none)
          (sym after)
          (refused p q rs' (act_all as_ (redeem_tool_execution_receipt (some r) h).1) used),
    )
  where
    refused :
        (p : Platform) (q : Receipt) (rs : List PublicEvidenceReference) (k : Host)
        → redeem_tool_execution_receipt (some q) k ≡ (none, k)
        → (mint_verified_public_evidence_batch p (some q) rs k).0 ≡ none
    refused p q rs k u = unfold mint_verified_public_evidence_batch in ground arith
