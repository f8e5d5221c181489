-- ===== src/Tasks/Serial.antt =====
-- A claim among the commits of others is granted as one whole claim at the moment of an UPDATE.
use mathlib.Core.Path.{subst}
use aquaops_copilot.Common.{
  ℕ, ◌≡◌, refl, sym, ap, ◌∙◌, ◌⊎◌, inl, inr, true, false, ◌&&◌, Bool, Bool-cases, String, ◌≢◌,
  Option, none, some, if◌then◌else◌, ◌==◌, arith, eq_refl, Outcome, ok, err, opt_str_eq,
}
use aquaops_copilot.Domain.Models.{running, state_eq, Task, Db}
use aquaops_copilot.Domain.Session.{Failure}
use aquaops_copilot.Tasks.Claim.{
  ClaimArgs, start_queued, advance_attempt, recover_lease, audited, claim_task,
}
use aquaops_copilot.Tasks.Claiming.{MayClaim, leased, claim_granted_iff, claim_writes_lease}
use aquaops_copilot.Tasks.Interleaved.{
  Others, at_advance, at_recover, recovered_in, advanced_in, read_in, started_in, claim_among,
}

advance-claims :
    (c : ClaimArgs) (db : Db)
    → (advance_attempt c db).1 ≡ 1
    → claim_task c db ≡ (ok tt, (advance_attempt c db).0)
unfolding claim_task advance_attempt
advance-claims c db e = ground (arith, eq_refl c.task_id)

recover-claims :
    (c : ClaimArgs) (db : Db)
    → (recover_lease c db).1 ≡ 1
    → claim_task c db ≡ (ok tt, (recover_lease c db).0)
unfolding claim_task recover_lease
recover-claims c db e = ground (arith, eq_refl c.task_id)

start-claims :
    (c : ClaimArgs) (db : Db)
    → (start_queued c db).1 ≡ 1
    → (claim_task c db
        ≡ audited "task.started" ((start_queued c db).0.tasks c.task_id) (start_queued c db).0)
      × (audited "task.started" ((start_queued c db).0.tasks c.task_id) (start_queued c db).0).0
        ≡ ok tt
unfolding claim_task start_queued
start-claims c db e = (ground (arith, eq_refl c.task_id), ground (arith, eq_refl c.task_id))

module _ (c : ClaimArgs) (o : Others) (db : Db) where
  -- The claim is the whole claim of `at`, which is granted there.
  pub record GrantedAt (at : Db) (r : Outcome Failure Unit × Db) : Type 0 where
    pub serial : r ≡ claim_task c at
    pub granted : r.0 ≡ ok tt

  abbrev pub Granted : Outcome Failure Unit × Db → Type 0
  Granted r = GrantedAt db r ⊎ GrantedAt (at_advance o db) r ⊎ GrantedAt (at_recover o db) r

  pub record Refused (r : Outcome Failure Unit × Db) : Type 0 where
    pub failure : Failure
    pub reason : r.0 ≡ err failure
    pub unwritten : (r.1 ≡ o.before_read db) ⊎ (r.1 ≡ at_advance o db) ⊎ (r.1 ≡ at_recover o db)

  either :
      (b : Bool) (P : Outcome Failure Unit × Db → Type 0) (x y : Outcome Failure Unit × Db)
      → P x
      → P y
      → P (if b then x else y)
  either true P x y p q = p
  either false P x y p q = q

  one_row :
      (n : ℕ) (P : Outcome Failure Unit × Db → Type 0) (a b : Outcome Failure Unit × Db)
      → (n ≡ 1 → P a)
      → P b
      → P (if n == 1 then a else b)
  one_row n P a b f g = elim (Bool-cases (n == 1)) [
    | inl y ↦ subst (λ t. P (if t then a else b)) (sym y) (f (ground arith))
    | inr z ↦ subst (λ t. P (if t then a else b)) (sym z) g
  ]

  recovered-serial :
      Granted (recovered_in (at_recover o db) (recover_lease c (at_recover o db)))
      ⊎ Refused (recovered_in (at_recover o db) (recover_lease c (at_recover o db)))
  recovered-serial =
      let at = at_recover o db in
      one_row (recover_lease c at).1 (λ r. Granted r ⊎ Refused r) _ _
        (λ e. inl (inr (inr (record { serial = sym (recover-claims c at e); granted = refl }))))
        (inr (record { failure = _; reason = refl; unwritten = inr (inr refl) }))

  advanced-serial :
      Granted (advanced_in c o (at_advance o db) (advance_attempt c (at_advance o db)))
      ⊎ Refused (advanced_in c o (at_advance o db) (advance_attempt c (at_advance o db)))
  advanced-serial =
      let at = at_advance o db in
      one_row (advance_attempt c at).1 (λ r. Granted r ⊎ Refused r) _ _
        (λ e. inl (inr (inl (record { serial = sym (advance-claims c at e); granted = refl }))))
        recovered-serial

  read-serial :
      (t : Option Task)
      → Granted (read_in c o (o.before_read db) t) ⊎ Refused (read_in c o (o.before_read db) t)
  read-serial none = inr (record { failure = _; reason = refl; unwritten = inl refl })
  read-serial (some task) =
      either (state_eq task.state running && opt_str_eq task.worker_token c.worker_token)
        (λ r. Granted r ⊎ Refused r) _ _ advanced-serial
        (inr (record { failure = _; reason = refl; unwritten = inl refl }))

  started-serial :
      Granted (started_in c o db (start_queued c db))
      ⊎ Refused (started_in c o db (start_queued c db))
  started-serial =
      one_row (start_queued c db).1 (λ r. Granted r ⊎ Refused r) _ _
        (λ e. inl (
          inl (record { serial = sym (start-claims c db e).0; granted = (start-claims c db e).1 })))
        (read-serial ((o.before_read db).tasks c.task_id))

  -- A grant is the whole claim of the database that one of its UPDATE statements stood before.
  moment_of :
      (r : Outcome Failure Unit × Db)
      → Granted r
      → (at : Db) × ((at ≡ db) ⊎ (at ≡ at_advance o db) ⊎ (at ≡ at_recover o db)) × GrantedAt at r
  moment_of r (inl g) = (_, inl refl, g)
  moment_of r (inr (inl g)) = (_, inr (inl refl), g)
  moment_of r (inr (inr g)) = (_, inr (inr refl), g)

one_task : (u t : Task) → some u ≡ some t → u ≡ t
one_task u t e = cc e

-- The database before one of the UPDATE statements, at which the row may be claimed, and what the
-- claim made of it.
pub record IsWholeClaim (c : ClaimArgs) (o : Others) (db : Db) : Type 0 where
  pub at : Db
  pub task : Task
  pub moment : (at ≡ db) ⊎ (at ≡ at_advance o db) ⊎ (at ≡ at_recover o db)
  pub serial : claim_among c o db ≡ claim_task c at
  pub row : at.tasks c.task_id ≡ some task
  pub may : MayClaim c task
  pub written : (claim_among c o db).1.tasks c.task_id ≡ some (leased c task)
  pub kept : (k : String) → k ≢ c.task_id → (claim_among c o db).1.tasks k ≡ at.tasks k

-- Whatever other sessions commit between the statements of a claim, it is either granted, and is
-- then the uninterrupted claim of the database that one of its UPDATE statements stood before: the
-- row may be claimed there, the lease is written over it, and no other row is touched; or it
-- fails, and has written nothing into what the others have left at one of these moments or at its
-- read.
pub claim_among_serial :
    (c : ClaimArgs) (o : Others) (db : Db)
    → (((claim_among c o db).0 ≡ ok tt) × IsWholeClaim c o db) ⊎ Refused c o db (claim_among c o db)
unfolding claim_among
claim_among_serial c o db = elim (started-serial c o db) [
  | inr r ↦ inr r
  | inl g ↦
      let (at, moment, whole) = moment_of c o db _ g in
      let same = whole.serial in
      let whole_granted = ap (λ r. r.0) (sym same) ∙ whole.granted in
      let (t, row, may) = (claim_granted_iff c at).0 whole_granted in
      let (u, row', written, kept) = claim_writes_lease c at whole_granted in
      inl (
        whole.granted,
        record {
          at = at;
          task = t;
          moment = moment;
          serial = same;
          row = row;
          may = may;
          written =
              ap (λ r. r.1.tasks c.task_id) same
              ∙ written
              ∙ ap (λ x. some (leased c x)) (one_task u t (sym row' ∙ row));
          kept = λ k n. ap (λ r. r.1.tasks k) same ∙ kept k n;
        },
      )
]
