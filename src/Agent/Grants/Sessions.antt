-- ===== src/Agent/Grants/Sessions.antt =====
-- What every sequence of calls leaves true of the host's budget sessions, forged grants and
-- receipts included.
use mathlib.Core.Path.{subst}
use aquaops_copilot.Common.{
  ℕ, ◌+◌, ◌≤◌, String, ◌≡◌, refl, Bool, true, false, ◌&&◌, not, Option, none, some, List, [], ◌∷◌,
  arith, length, all, sym, str_eq, ◌==◌, Bool-cases, Option-cases, inl, inr,
}
use aquaops_copilot.Agent.Budget.{
  ToolBudget, max_total_tool_calls, registered, spec_of, initial, consume, is_valid, usage_valid,
  sum_counts,
}
use aquaops_copilot.Agent.Budget.Consumption.{IsValid, is_valid_iff, consume-some}
use aquaops_copilot.Agent.Authorize.{Arguments, authorize_public_tool_call}
use aquaops_copilot.Agent.Grants.{
  Session, Host, Grant, Receipt, empty_host, put_session, member, create_public_tool_budget_session,
  issue_public_tool_grant, consume_issued_public_tool_grant, redeem_tool_execution_receipt,
}

-- A call of one of the four operations, with any arguments.
pub data Action : Type 0 where
  create : Action
  issue : Option String → Option Arguments → Option ℕ → Option (List String) → Action
  spend : Option Grant → String → Option ℕ → Action
  redeem : Option Receipt → Action

unfoldable pub act : Action → Host → Host
act create h = (create_public_tool_budget_session h).1
act (issue name args session available) h =
    (issue_public_tool_grant name args session available h).1
act (spend g expected session) h = (consume_issued_public_tool_grant g expected session h).1
act (redeem r) h = (redeem_tool_execution_receipt r h).1

unfoldable pub act_all : List Action → Host → Host
act_all [] h = h
act_all (a ∷ as_) h = act_all as_ (act a h)

abbrev pub distinct : List ℕ → Bool
distinct [] = true
distinct (n ∷ ns) = not (member n ns) && distinct ns

pub record SessionInv (s : Session) : Type 0 where
  pub budget : IsValid s.budget
  pub accounted : length s.consumed_grant_nonces + s.budget.remaining_total ≡ max_total_tool_calls
  pub consumed_once : distinct s.consumed_grant_nonces ≡ true
  pub redeemed_once : distinct s.redeemed_receipt_nonces ≡ true
  pub redeemed_consumed :
      all (λ n. member n s.consumed_grant_nonces) s.redeemed_receipt_nonces ≡ true

abbrev pub RowInv : Option Session → Type 0
RowInv none = Unit
RowInv (some s) = SessionInv s

pub record HostInv (h : Host) : Type 0 where
  pub at : (id : ℕ) → RowInv (h.sessions id)
  pub unused : (id : ℕ) → h.next_session ≤ id → h.sessions id ≡ none

fresh-SessionInv : SessionInv (record {
  from_host = true;
  budget = initial;
  consumed_grant_nonces = [];
  redeemed_receipt_nonces = [];
})
fresh-SessionInv = record {
  budget = (is_valid_iff initial).0 (unfold is_valid usage_valid sum_counts in refl);
  accounted = refl;
  consumed_once = refl;
  redeemed_once = refl;
  redeemed_consumed = refl;
}

all-member-cons :
    (n : ℕ) (ns ms : List ℕ)
    → all (λ m. member m ns) ms ≡ true
    → all (λ m. member m (n ∷ ns)) ms ≡ true
unfolding member
all-member-cons n ns [] h = refl
all-member-cons n ns (m ∷ ms) h = ground (arith, all-member-cons n ns ms)

spent-SessionInv :
    (s : Session) (k : String) (nonce : ℕ) (b : ToolBudget)
    → SessionInv s
    → registered k ≡ true
    → member nonce s.consumed_grant_nonces ≡ false
    → consume s.budget (spec_of k) ≡ some b
    → SessionInv (record s { budget = b; consumed_grant_nonces = nonce ∷ s.consumed_grant_nonces })
spent-SessionInv s k nonce b i known new h =
    let (v, less) = consume-some s.budget b k i.budget known h in
    record {
      budget = v;
      accounted = omega (arith, i.accounted);
      consumed_once = ground (arith, i.consumed_once);
      redeemed_once = i.redeemed_once;
      redeemed_consumed =
          all-member-cons nonce s.consumed_grant_nonces s.redeemed_receipt_nonces
            i.redeemed_consumed;
    }

redeemed-SessionInv :
    (s : Session) (nonce : ℕ)
    → SessionInv s
    → member nonce s.consumed_grant_nonces ≡ true
    → member nonce s.redeemed_receipt_nonces ≡ false
    → SessionInv (record s { redeemed_receipt_nonces = nonce ∷ s.redeemed_receipt_nonces })
redeemed-SessionInv s nonce i known new = record {
  budget = i.budget;
  accounted = i.accounted;
  consumed_once = i.consumed_once;
  redeemed_once = ground (arith, i.redeemed_once);
  redeemed_consumed = ground (arith, i.redeemed_consumed);
}

pub RowInv-some :
    (h : Host) (id : ℕ) (s : Session) → HostInv h → h.sessions id ≡ some s → SessionInv s
RowInv-some h id s i e = subst RowInv e (i.at id)

put-HostInv :
    (h : Host) (id : ℕ) (s s' : Session)
    → HostInv h
    → h.sessions id ≡ some s
    → SessionInv s'
    → HostInv (put_session id s' h)
put-HostInv h id s s' i e v = record {
  at = λ j. ground (arith, i.at j);
  unused = λ j le. ground (arith, i.unused j, i.unused id);
}

-- What a spending or a redemption does to the host.
pub data SpendCase (g : Option Grant) (h h' : Host) : Type 0 where
  untouched : h' ≡ h → SpendCase g h h'
  spent_on :
      (x : Grant) (s : Session) (b : ToolBudget)
      → g ≡ some x
      → h.sessions x.session ≡ some s
      → registered x.tool_name ≡ true
      → member x.nonce s.consumed_grant_nonces ≡ false
      → consume s.budget (spec_of x.tool_name) ≡ some b
      → h'
        ≡ put_session x.session
            (record s { budget = b; consumed_grant_nonces = x.nonce ∷ s.consumed_grant_nonces })
            h
      → SpendCase g h h'

pub spend-case :
    (g : Option Grant) (expected : String) (session : Option ℕ) (h : Host)
    → SpendCase g h (consume_issued_public_tool_grant g expected session h).1
unfolding consume_issued_public_tool_grant
spend-case none expected session h = untouched refl
spend-case (some x) expected none h = untouched (ground arith)
spend-case (some x) expected (some id) h = elim (Option-cases (h.sessions id)) [
  | inl e ↦ untouched (ground arith)
  | inr (s, e) ↦ elim (Option-cases (consume s.budget (spec_of x.tool_name))) [
    | inl n ↦ untouched (ground arith)
    | inr (b, c) ↦
        elim (Bool-cases (
          (x.from_host && str_eq x.tool_name expected && id == x.session)
          && s.from_host
          && not (member x.nonce s.consumed_grant_nonces)
          && registered x.tool_name)) [
            | inl y ↦
                spent_on x s b refl (ground arith) (ground arith) (ground arith) c (ground arith)
            | inr n ↦ untouched (ground arith)
          ]
  ]
]

pub data RedeemCase (r : Option Receipt) (h h' : Host) : Type 0 where
  untouched : h' ≡ h → RedeemCase r h h'
  redeemed_on :
      (x : Receipt) (s : Session)
      → r ≡ some x
      → h.sessions x.session ≡ some s
      → member x.nonce s.consumed_grant_nonces ≡ true
      → member x.nonce s.redeemed_receipt_nonces ≡ false
      → h'
        ≡ put_session x.session
            (record s { redeemed_receipt_nonces = x.nonce ∷ s.redeemed_receipt_nonces })
            h
      → RedeemCase r h h'

pub redeem-case :
    (r : Option Receipt) (h : Host) → RedeemCase r h (redeem_tool_execution_receipt r h).1
unfolding redeem_tool_execution_receipt
redeem-case none h = RedeemCase.untouched refl
redeem-case (some x) h = elim (Option-cases (h.sessions x.session)) [
  | inl e ↦ RedeemCase.untouched (ground arith)
  | inr (s, e) ↦
      elim (Bool-cases (
        (x.from_host && s.from_host)
        && member x.nonce s.consumed_grant_nonces
        && not (member x.nonce s.redeemed_receipt_nonces))) [
          | inl y ↦ redeemed_on x s refl e (ground arith) (ground arith) (ground arith)
          | inr n ↦ RedeemCase.untouched (ground arith)
        ]
]

pub sessions-issue :
    (name : Option String) (args : Option Arguments) (session : Option ℕ)
    (available : Option (List String)) (h : Host)
    → ((issue_public_tool_grant name args session available h).1.sessions ≡ h.sessions)
      × ((issue_public_tool_grant name args session available h).1.next_session ≡ h.next_session)
unfolding issue_public_tool_grant
sessions-issue name args none available h = (refl, refl)
sessions-issue name args (some id) available h = elim (Option-cases (h.sessions id)) [
  | inl e ↦ (ground arith, ground arith)
  | inr (s, e) ↦
      let o = authorize_public_tool_call name args (some s.budget) available in
      elim (Option-cases o) [
        | inl n ↦ (ground arith, ground arith)
        | inr (d, f) ↦ (ground arith, ground arith)
      ]
]

pub act-HostInv : (a : Action) (h : Host) → HostInv h → HostInv (act a h)
unfolding act
act-HostInv create h i =
    unfold create_public_tool_budget_session in
    record {
      at = λ j. ground (arith, i.at j, fresh-SessionInv);
      unused = λ j le. ground (arith, i.unused j);
    }
act-HostInv (issue name args session available) h i =
    let (same, next) = sessions-issue name args session available h in
    record {
      at = λ j. subst (λ f. RowInv (f j)) (sym same) (i.at j);
      unused = λ j le. rw same (i.unused j (omega (arith, next)));
    }
act-HostInv (spend g expected session) h i = elim (spend-case g expected session h) [
  | untouched e ↦ subst HostInv (sym e) i
  | spent_on x s b _ e known new c p ↦ subst HostInv (sym p) (
      put-HostInv h x.session s _ i e
        (spent-SessionInv s x.tool_name x.nonce b (RowInv-some h x.session s i e) known new c))
]
act-HostInv (redeem r) h i = elim (redeem-case r h) [
  | untouched e ↦ subst HostInv (sym e) i
  | redeemed_on x s _ e known new p ↦ subst HostInv (sym p) (
      put-HostInv h x.session s _ i e
        (redeemed-SessionInv s x.nonce (RowInv-some h x.session s i e) known new))
]

pub empty-HostInv : HostInv empty_host
empty-HostInv = record { at = λ id. tt; unused = λ id le. refl }

pub acts-HostInv : (as_ : List Action) (h : Host) → HostInv h → HostInv (act_all as_ h)
unfolding act_all
acts-HostInv [] h i = i
acts-HostInv (a ∷ as_) h i = acts-HostInv as_ (act a h) (act-HostInv a h i)
