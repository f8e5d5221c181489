-- ===== src/Agent/Grants.antt =====
-- policy.py: the host's budget sessions, grants and receipts. Sessions are shared objects: the
-- store holds them by identity, and a grant or a receipt refers to its session. Each operation
-- holds the session's lock from its first read to its last write, so it is one step here.
pub mod Sessions
pub mod Limits
pub mod SingleUse
use aquaops_copilot.Common.{
  ℕ, ◌+◌, String, Bool, true, false, ◌&&◌, ◌||◌, not, Option, none, some, List, [], ◌∷◌,
  if◌then◌else◌, ◌==◌, str_eq,
}
use aquaops_copilot.Agent.Budget.{
  ToolSpec, ToolBudget, registered, spec_of, initial, validated, consume,
}
use aquaops_copilot.Agent.Authorize.{
  Arguments, Decision, invalid_tool_budget, refusal, authorize_public_tool_call,
}

-- `from_host` says whether `issuer is _GRANT_ISSUER`; a nonce is the identity of an object.
pub record Session : Type 0 where
  pub from_host : Bool
  pub budget : ToolBudget
  pub consumed_grant_nonces : List ℕ
  pub redeemed_receipt_nonces : List ℕ

pub record Host : Type 0 where
  pub sessions : ℕ → Option Session
  pub next_session : ℕ
  pub next_nonce : ℕ

pub record Grant : Type 0 where
  pub from_host : Bool
  pub tool_name : String
  pub session : ℕ
  pub nonce : ℕ

pub record Receipt : Type 0 where
  pub from_host : Bool
  pub tool_name : String
  pub session : ℕ
  pub nonce : ℕ

abbrev pub empty_host : Host
empty_host = record { sessions = λ _. none; next_session = 0; next_nonce = 0 }

abbrev pub put_session : ℕ → Session → Host → Host
put_session id s h = record h { sessions = λ j. if id == j then some s else h.sessions j }

unfoldable pub member : ℕ → List ℕ → Bool
member n [] = false
member n (m ∷ ms) = m == n || member n ms

abbrev fresh_session : Session
fresh_session = record {
  from_host = true;
  budget = initial;
  consumed_grant_nonces = [];
  redeemed_receipt_nonces = [];
}

unfoldable pub create_public_tool_budget_session : Host → ℕ × Host
create_public_tool_budget_session h = (
  h.next_session,
  put_session h.next_session fresh_session (record h { next_session = h.next_session + 1 }),
)

abbrev only_host : Option Session → Option Session
only_host none = none
only_host (some s) = if s.from_host then some s else none

-- The session, if the object is one and the host's own (`_is_host_budget_session`).
abbrev pub host_session : Option ℕ → Host → Option Session
host_session none h = none
host_session (some id) h = only_host (h.sessions id)

abbrev snapshot_of : Option Session → Option ToolBudget
snapshot_of none = none
snapshot_of (some s) = validated s.budget

unfoldable pub public_tool_budget_snapshot : Option ℕ → Host → Option ToolBudget
public_tool_budget_snapshot session h = snapshot_of (host_session session h)

-- What `issue_public_tool_grant` returns; `none` if an exception leaves it.
abbrev pub Issue : Type 0
Issue = Option (Decision × Option Grant)

abbrev grant_for : Decision → Option String → ℕ → Host → Issue × Host
grant_for d none id h = (some (d, none), h)
grant_for d (some name) id h =
    if d.allowed
    then (
      some (
        d,
        some (record { from_host = true; tool_name = name; session = id; nonce = h.next_nonce }),
      ),
      record h { next_nonce = h.next_nonce + 1 },
    )
    else (some (d, none), h)

abbrev decided : Option Decision → ℕ → Host → Issue × Host
decided none id h = (none, h)
decided (some d) id h = grant_for d d.tool_name id h

abbrev issued :
    Option String
    → Option Arguments
    → Option (List String)
    → ℕ
    → Option Session
    → Host
    → Issue × Host
issued name args available id none h = (some (refusal invalid_tool_budget none initial, none), h)
issued name args available id (some s) h =
    decided (authorize_public_tool_call name args (some s.budget) available) id h

abbrev identity_of : Option ℕ → ℕ
identity_of none = 0
identity_of (some id) = id

unfoldable pub issue_public_tool_grant :
    Option String → Option Arguments → Option ℕ → Option (List String) → Host → Issue × Host
issue_public_tool_grant name args session available h =
    issued name args available (identity_of session) (host_session session h) h

abbrev receipt_for : Grant → Option ToolBudget → Option (Receipt × ToolBudget)
receipt_for g none = none
receipt_for g (some b) =
    some (
      record { from_host = true; tool_name = g.tool_name; session = g.session; nonce = g.nonce },
      b,
    )

abbrev charged : Grant → Session → Option ToolBudget → Host → Option (Receipt × ToolBudget) × Host
charged g s none h = (none, h)
charged g s (some next_budget) h = (
  receipt_for g (validated next_budget),
  put_session g.session
      (record s { budget = next_budget; consumed_grant_nonces = g.nonce ∷ s.consumed_grant_nonces })
      h,
)

abbrev presented : Grant → Option Session → Host → Option (Receipt × ToolBudget) × Host
presented g none h = (none, h)
presented g (some s) h =
    if member g.nonce s.consumed_grant_nonces || not (registered g.tool_name)
    then (none, h)
    else charged g s (consume s.budget (spec_of g.tool_name)) h

abbrev same_identity : Option ℕ → ℕ → Bool
same_identity none n = false
same_identity (some m) n = m == n

unfoldable pub consume_issued_public_tool_grant :
    Option Grant → String → Option ℕ → Host → Option (Receipt × ToolBudget) × Host
consume_issued_public_tool_grant none expected session h = (none, h)
consume_issued_public_tool_grant (some g) expected session h =
    if g.from_host && str_eq g.tool_name expected && same_identity session g.session
    then presented g (host_session session h) h
    else (none, h)

abbrev redeemed : Receipt → Option Session → Host → Option String × Host
redeemed r none h = (none, h)
redeemed r (some s) h =
    if not (member r.nonce s.consumed_grant_nonces) || member r.nonce s.redeemed_receipt_nonces
    then (none, h)
    else (
      some r.tool_name,
      put_session r.session
          (record s { redeemed_receipt_nonces = r.nonce ∷ s.redeemed_receipt_nonces }) h,
    )

unfoldable pub redeem_tool_execution_receipt : Option Receipt → Host → Option String × Host
redeem_tool_execution_receipt none h = (none, h)
redeem_tool_execution_receipt (some r) h =
    if r.from_host then redeemed r (host_session (some r.session) h) h else (none, h)
