-- ===== src/Agent/Grants/SingleUse.antt =====
-- A grant buys one execution and a receipt one redemption.
use aquaops_copilot.Common.{
  ℕ, ◌+◌, String, ◌≡◌, ◌≢◌, refl, ap, ◌∙◌, true, false, Option, none, some, List, ◌∷◌, arith, ◌==◌,
  eq_refl, Option-cases, Bool-cases, inl, inr,
}
use aquaops_copilot.Agent.Budget.{registered, spec_of, consume, spent, is_valid}
use aquaops_copilot.Agent.Budget.Consumption.{is_valid_iff, consume_spends_one}
use aquaops_copilot.Agent.Authorize.{Arguments, authorize_public_tool_call, allowance}
use aquaops_copilot.Agent.Admission.{Admissible, allowed_iff_Admissible}
use aquaops_copilot.Agent.Grants.{
  Session, Host, Grant, Receipt, member, issue_public_tool_grant, consume_issued_public_tool_grant,
  redeem_tool_execution_receipt,
}
use aquaops_copilot.Agent.Grants.Sessions.{
  Action, spend, redeem, act, act_all, HostInv, act-HostInv,
}
use aquaops_copilot.Agent.Grants.Limits.{acts-Grown}

-- A consumption that succeeds has recorded the grant's nonce.
spent-recorded :
    (x : Grant) (expected : String) (session : Option ℕ) (h : Host)
    → (consume_issued_public_tool_grant (some x) expected session h).0 ≢ none
    → (s : Session) × ((consume_issued_public_tool_grant (some x) expected session h).1.sessions
          x.session
        ≡ some s)
      × (member x.nonce s.consumed_grant_nonces ≡ true)
unfolding consume_issued_public_tool_grant member
spent-recorded x expected none h ok_ = absurd (ok_ (ground arith))
spent-recorded x expected (some id) h ok_ = elim (Option-cases (h.sessions id)) [
  | inl e ↦ absurd (ok_ (ground arith))
  | inr (s, e) ↦ elim (Option-cases (consume s.budget (spec_of x.tool_name))) [
    | inl n ↦ absurd (ok_ (ground arith))
    | inr (b, c) ↦ (
      record s { budget = b; consumed_grant_nonces = x.nonce ∷ s.consumed_grant_nonces },
      ground arith,
      ground arith,
    )
  ]
]

refused-nonce :
    (y : Grant) (expected : String) (session : Option ℕ) (h : Host) (s : Session)
    → h.sessions y.session ≡ some s
    → member y.nonce s.consumed_grant_nonces ≡ true
    → consume_issued_public_tool_grant (some y) expected session h ≡ (none, h)
unfolding consume_issued_public_tool_grant
refused-nonce y expected none h s e m = ground arith
refused-nonce y expected (some id) h s e m = elim (Bool-cases (id == y.session)) [
  | inl q ↦ let same : h.sessions id ≡ some s = ap h.sessions (ground arith) ∙ e in ground arith
  | inr n ↦ ground arith
]

-- Once a grant has been consumed, no grant with its nonce is consumed on that session again,
-- whatever calls come in between: the second consumption is refused and changes nothing.
pub grant_single_use :
    (x y : Grant) (expected expected' : String) (session session' : Option ℕ) (as_ : List Action)
    (h : Host)
    → HostInv h
    → (consume_issued_public_tool_grant (some x) expected session h).0 ≢ none
    → y.nonce ≡ x.nonce
    → y.session ≡ x.session
    → let k = act_all as_ (consume_issued_public_tool_grant (some x) expected session h).1 in
      consume_issued_public_tool_grant (some y) expected' session' k ≡ (none, k)
grant_single_use x y expected expected' session session' as_ h i first n d =
    let h' = (consume_issued_public_tool_grant (some x) expected session h).1 in
    let (s, e, m) = spent-recorded x expected session h first in
    let i' : HostInv h' = unfold act in act-HostInv (spend (some x) expected session) h i in
    let (t, p, k) = acts-Grown as_ h' i' x.session s e in
    refused-nonce y expected' session' (act_all as_ h') t (ap (act_all as_ h').sessions d ∙ p)
      (ap (λ j. member j t.consumed_grant_nonces) n ∙ k.consumed x.nonce m)

redeemed-recorded :
    (r : Receipt) (h : Host) (name : String)
    → (redeem_tool_execution_receipt (some r) h).0 ≡ some name
    → (name ≡ r.tool_name)
      × ((s : Session) × (h.sessions r.session ≡ some s)
          × (member r.nonce s.consumed_grant_nonces ≡ true))
      × ((s : Session) × ((redeem_tool_execution_receipt (some r) h).1.sessions r.session ≡ some s)
          × (member r.nonce s.redeemed_receipt_nonces ≡ true))
unfolding redeem_tool_execution_receipt member
redeemed-recorded r h name e = elim (Option-cases (h.sessions r.session)) [
  | inl n ↦ absurd (ground arith)
  | inr (s, p) ↦ (
    ground arith,
    (s, p, ground arith),
    (
      record s { redeemed_receipt_nonces = r.nonce ∷ s.redeemed_receipt_nonces },
      ground arith,
      ground arith,
    ),
  )
]

refused-receipt :
    (r : Receipt) (h : Host) (s : Session)
    → h.sessions r.session ≡ some s
    → member r.nonce s.redeemed_receipt_nonces ≡ true
    → redeem_tool_execution_receipt (some r) h ≡ (none, h)
unfolding redeem_tool_execution_receipt
refused-receipt r h s e m = ground arith

-- A receipt is redeemed only for a grant that its session has consumed, and yields the receipt's
-- tool; after that, no receipt with its nonce is redeemed on that session again, whatever calls
-- come in between.
pub receipt_single_use :
    (r q : Receipt) (as_ : List Action) (h : Host) (name : String)
    → HostInv h
    → (redeem_tool_execution_receipt (some r) h).0 ≡ some name
    → q.nonce ≡ r.nonce
    → q.session ≡ r.session
    → let k = act_all as_ (redeem_tool_execution_receipt (some r) h).1 in
      (name ≡ r.tool_name)
      × ((s : Session) × (h.sessions r.session ≡ some s)
          × (member r.nonce s.consumed_grant_nonces ≡ true))
      × (redeem_tool_execution_receipt (some q) k ≡ (none, k))
receipt_single_use r q as_ h name i first n d =
    let h' = (redeem_tool_execution_receipt (some r) h).1 in
    let (tool, known, (s, e, m)) = redeemed-recorded r h name first in
    let i' : HostInv h' = unfold act in act-HostInv (redeem (some r)) h i in
    let (t, p, k) = acts-Grown as_ h' i' r.session s e in
    (
      tool,
      known,
      refused-receipt q (act_all as_ h') t (ap (act_all as_ h').sessions d ∙ p)
          (ap (λ j. member j t.redeemed_receipt_nonces) n ∙ k.redeemed r.nonce m),
    )

abbrev pub first_grant : String → ℕ → Host → Grant
first_grant name id h = record {
  from_host = true;
  tool_name = name;
  session = id;
  nonce = h.next_nonce;
}

abbrev pub receipt_of : Grant → Receipt
receipt_of g = record {
  from_host = true;
  tool_name = g.tool_name;
  session = g.session;
  nonce = g.nonce;
}

issue-admissible :
    (name : String) (args : Arguments) (id : ℕ) (available : Option (List String)) (h : Host)
    (s : Session)
    → h.sessions id ≡ some s
    → s.from_host ≡ true
    → authorize_public_tool_call (some name) (some args) (some s.budget) available
      ≡ some (allowance name (spent s.budget (spec_of name)))
    → issue_public_tool_grant (some name) (some args) (some id) available h ≡ (
      some (allowance name (spent s.budget (spec_of name)), some (first_grant name id h)),
      record h { next_nonce = h.next_nonce + 1 },
    )
unfolding issue_public_tool_grant
issue-admissible name args id available h s e f a = ground arith

spend-admissible :
    (g : Grant) (h : Host) (s : Session)
    → h.sessions g.session ≡ some s
    → g.from_host ≡ true
    → s.from_host ≡ true
    → registered g.tool_name ≡ true
    → consume s.budget (spec_of g.tool_name) ≡ some (spent s.budget (spec_of g.tool_name))
    → is_valid (spent s.budget (spec_of g.tool_name)) ≡ true
    → member g.nonce s.consumed_grant_nonces ≡ false
    → (consume_issued_public_tool_grant (some g) g.tool_name (some g.session) h).0
      ≡ some (receipt_of g, spent s.budget (spec_of g.tool_name))
unfolding consume_issued_public_tool_grant
spend-admissible g h s e f i r c v m = ground (arith, eq_refl g.tool_name)

-- An admissible call of a host session is issued a grant, and that grant, presented at once for
-- the same tool and session, is consumed: the call gets its receipt and the budget that the
-- decision showed, if the new nonce is none that the session has seen.
pub admitted_call_executes :
    (name : String) (args : Arguments) (id : ℕ) (available : Option (List String)) (h : Host)
    (s : Session)
    → h.sessions id ≡ some s
    → s.from_host ≡ true
    → Admissible name args s.budget available
    → member h.next_nonce s.consumed_grant_nonces ≡ false
    → (issue_public_tool_grant (some name) (some args) (some id) available h ≡ (
      some (allowance name (spent s.budget (spec_of name)), some (first_grant name id h)),
      record h { next_nonce = h.next_nonce + 1 },
    ))
      × ((consume_issued_public_tool_grant
            (some (first_grant name id h))
            name
            (some id)
            (record h { next_nonce = h.next_nonce + 1 })).0
          ≡ some (receipt_of (first_grant name id h), spent s.budget (spec_of name)))
admitted_call_executes name args id available h s e f a new =
    let (same, sound, _, _) =
      (consume_spends_one s.budget name a.issued a.allowlisted).0 a.left a.few in
    (
      issue-admissible name args id available h s e f
          ((allowed_iff_Admissible name args s.budget available).0.1 a),
      spend-admissible (first_grant name id h) (record h { next_nonce = h.next_nonce + 1 }) s e refl
          f a.allowlisted same ((is_valid_iff (spent s.budget (spec_of name))).1 sound) new,
    )
