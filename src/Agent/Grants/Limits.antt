-- ===== src/Agent/Grants/Limits.antt =====
-- The limits on a session: how much can be spent, and that each nonce serves once.
use mathlib.Core.Path.{subst}
use aquaops_copilot.Common.{
  ℕ, ◌+◌, ◌≤◌, String, ◌≡◌, ◌≢◌, refl, sym, ap, true, false, some, List, [], ◌∷◌, arith, length,
  all, if◌then◌else◌, ◌==◌, Bool-cases, inl, inr,
}
use aquaops_copilot.Agent.Budget.{calls_for}
use aquaops_copilot.Agent.Budget.Usage.{get_count-le}
use aquaops_copilot.Agent.Budget.Consumption.{calls_for-valid}
use aquaops_copilot.Agent.Grants.{
  Session, Host, empty_host, put_session, member, create_public_tool_budget_session,
  issue_public_tool_grant, consume_issued_public_tool_grant, redeem_tool_execution_receipt,
}
use aquaops_copilot.Agent.Grants.Sessions.{
  Action, create, issue, spend, redeem, act, act_all, distinct, HostInv, SpendCase, RedeemCase,
  spend-case, redeem-case, sessions-issue, act-HostInv, acts-HostInv, empty-HostInv, RowInv-some,
}

-- A list without one occurrence of a number.
remove : ℕ → List ℕ → List ℕ
remove n [] = []
remove n (m ∷ ms) = if m == n then ms else m ∷ remove n ms

length-remove : (n : ℕ) (ms : List ℕ) → member n ms ≡ true → length (remove n ms) + 1 ≡ length ms
unfolding remove member
length-remove n [] h = cc
length-remove n (m ∷ ms) h = ground (arith, length-remove n ms)

member-remove : (n k : ℕ) (ms : List ℕ) → k ≢ n → member k ms ≡ true → member k (remove n ms) ≡ true
unfolding remove member
member-remove n k [] ne h = cc
member-remove n k (m ∷ ms) ne h = ground (arith, member-remove n k ms)

all-member-remove :
    (n : ℕ) (ks ms : List ℕ)
    → member n ks ≡ false
    → all (λ k. member k ms) ks ≡ true
    → all (λ k. member k (remove n ms)) ks ≡ true
unfolding member
all-member-remove n [] ms h a = refl
all-member-remove n (k ∷ ks) ms h a =
    ground (arith, member-remove n k ms, all-member-remove n ks ms)

-- Distinct members of a list are no more than its length.
pigeonhole :
    (ks ms : List ℕ) → distinct ks ≡ true → all (λ k. member k ms) ks ≡ true → length ks ≤ length ms
pigeonhole [] ms d a = omega arith
pigeonhole (k ∷ ks) ms d a = omega (
  arith,
  length-remove k ms (ground arith),
  pigeonhole ks (remove k ms) (ground arith)
      (all-member-remove k ks ms (ground arith) (ground arith)),
)

all-member :
    (ks ms : List ℕ) (n : ℕ)
    → all (λ k. member k ms) ks ≡ true
    → member n ks ≡ true
    → member n ms ≡ true
unfolding member
all-member [] ms n a h = absurd (cc h)
all-member (k ∷ ks) ms n a h = elim (Bool-cases (k == n)) [
  | inl y ↦ let same : k ≡ n = ground arith in subst (λ x. member x ms ≡ true) same (ground arith)
  | inr m ↦ all-member ks ms n (ground arith) (ground arith)
]

-- From an empty host, whatever calls are made with whatever grants and receipts, a session spends
-- at most six calls and at most two of each tool, and redeems no receipt twice and none but those
-- of grants that it has consumed.
pub session_limits :
    (as_ : List Action) (id : ℕ) (s : Session)
    → (act_all as_ empty_host).sessions id ≡ some s
    → (length s.consumed_grant_nonces ≤ 6)
      × ((k : String) → calls_for s.budget k ≤ 2)
      × (length s.redeemed_receipt_nonces ≤ length s.consumed_grant_nonces)
      × ((n : ℕ)
          → member n s.redeemed_receipt_nonces ≡ true
          → member n s.consumed_grant_nonces ≡ true)
      × (distinct s.consumed_grant_nonces ≡ true)
      × (distinct s.redeemed_receipt_nonces ≡ true)
session_limits as_ id s e =
    let i = RowInv-some _ id s (acts-HostInv as_ empty_host empty-HostInv) e in
    (
      omega (arith, i.accounted),
      λ k.
          rw (calls_for-valid s.budget k i.budget)
            (get_count-le k [] s.budget.used_by_tool i.budget.usage),
      pigeonhole s.redeemed_receipt_nonces s.consumed_grant_nonces i.redeemed_once
          i.redeemed_consumed,
      λ n m. all-member s.redeemed_receipt_nonces s.consumed_grant_nonces n i.redeemed_consumed m,
      i.consumed_once,
      i.redeemed_once,
    )

-- What a session never forgets.
pub record Kept (s t : Session) : Type 0 where
  pub consumed :
      (n : ℕ) → member n s.consumed_grant_nonces ≡ true → member n t.consumed_grant_nonces ≡ true
  pub redeemed :
      (n : ℕ)
      → member n s.redeemed_receipt_nonces ≡ true
      → member n t.redeemed_receipt_nonces ≡ true

Kept-refl : (s : Session) → Kept s s
Kept-refl s = record { consumed = λ n h. h; redeemed = λ n h. h }

abbrev pub Grown : Host → Host → Type 0
Grown h k =
    (id : ℕ) (s : Session)
    → h.sessions id ≡ some s
    → (t : Session) × (k.sessions id ≡ some t) × Kept s t

same-Grown : (h k : Host) → k.sessions ≡ h.sessions → Grown h k
same-Grown h k e id s p = (s, rw e p, Kept-refl s)

put-Grown :
    (h : Host) (id : ℕ) (s t : Session)
    → h.sessions id ≡ some s
    → Kept s t
    → Grown h (put_session id t h)
put-Grown h id s t e k j u p = elim (Bool-cases (id == j)) [
  | inl y ↦ let same : s ≡ u = ground arith in (t, ground arith, subst (λ x. Kept x t) same k)
  | inr n ↦ (u, ground arith, Kept-refl u)
]

act-Grown : (a : Action) (h : Host) → HostInv h → Grown h (act a h)
unfolding act
act-Grown create h i = λ id s p. (
  s,
  unfold create_public_tool_budget_session in ground (arith, i.unused h.next_session),
  Kept-refl s,
)
act-Grown (issue name args session available) h i =
    same-Grown h (issue_public_tool_grant name args session available h).1
      (sessions-issue name args session available h).0
act-Grown (spend g expected session) h i = elim (spend-case g expected session h) [
  | SpendCase.untouched e ↦
      same-Grown h (consume_issued_public_tool_grant g expected session h).1
        (ap (λ (x : Host). x.sessions) e)
  | SpendCase.spent_on x s b _ e known new c p ↦ subst (Grown h) (sym p) (
      put-Grown h x.session s _ e
        (record { consumed = λ n m. unfold member in ground arith; redeemed = λ n m. m }))
]
act-Grown (redeem r) h i = elim (redeem-case r h) [
  | RedeemCase.untouched e ↦
      same-Grown h (redeem_tool_execution_receipt r h).1 (ap (λ (x : Host). x.sessions) e)
  | RedeemCase.redeemed_on x s _ e known new p ↦ subst (Grown h) (sym p) (
      put-Grown h x.session s _ e
        (record { consumed = λ n m. m; redeemed = λ n m. unfold member in ground arith }))
]

pub acts-Grown : (as_ : List Action) (h : Host) → HostInv h → Grown h (act_all as_ h)
unfolding act_all
acts-Grown [] h i id s p = (s, p, Kept-refl s)
acts-Grown (a ∷ as_) h i id s p =
    let (t, q, k) = act-Grown a h i id s p in
    let (u, r, l) = acts-Grown as_ (act a h) (act-HostInv a h i) id t q in
    (
      u,
      r,
      record {
        consumed = λ n m. l.consumed n (k.consumed n m);
        redeemed = λ n m. l.redeemed n (k.redeemed n m);
      },
    )
