-- ===== src/Domain/Ownership.antt =====
-- Cases belong to their owners, and an external key names at most one case of an owner.
use mathlib.Core.Path.{subst}
use aquaops_copilot.Common.{
  String, ◌≡◌, inl, inr, ap, ◌∙◌, none, some, List, [], ◌∷◌, ◌++◌, Outcome, ok, err, Bool, arith,
  eq_iff, eq_refl, true, false, Option-cases, Bool-cases, str_eq, ◌&&◌, find, if◌then◌else◌,
}
use aquaops_copilot.Domain.Models.{Task, Case, Db}
use aquaops_copilot.Domain.Session.{Failure, integrity_error}
use aquaops_copilot.Domain.Services.{find_case, get_case_for_owner, get_task_for_owner, create_case}

find_case-snoc :
    (o k : String) (cs : List Case) (c : Case)
    → find_case o k (cs ++ c ∷ []) ≡ (elim (find_case o k cs) [
      | some d ↦ some d
      | none ↦ if str_eq c.owner_id o && str_eq c.external_key k then some c else none
    ])
find_case-snoc o k [] c = ground arith
find_case-snoc o k (d ∷ cs) c = ground (arith, find_case-snoc o k cs c)

module _ (new_id owner_id external_key title request_id : String) (raced : Db → Db) (db : Db) where
  abbrev pub creation : Outcome Failure (Case × Bool) × Db
  creation = create_case new_id owner_id external_key title request_id raced db

  abbrev pub drawn : Case
  drawn = record { id = new_id; owner_id = owner_id; external_key = external_key; title = title }

  -- The three ways that a creation ends.
  data Ending : Type 0 where
    existed :
        (c : Case)
        → find_case owner_id external_key db.cases ≡ some c
        → creation ≡ (ok (c, false), db)
        → Ending
    created :
        find_case owner_id external_key (raced db).cases ≡ none
        → creation.0 ≡ ok (drawn, true)
        → creation.1.cases ≡ (raced db).cases ++ drawn ∷ []
        → Ending
    conflicted :
        (c : Case)
        → find_case owner_id external_key (raced db).cases ≡ some c
        → creation ≡ (ok (c, false), raced db)
        → Ending
    key_taken :
        find_case owner_id external_key (raced db).cases ≡ none
        → creation ≡ (err integrity_error, raced db)
        → Ending

  creation-Ending : Ending
  unfolding create_case
  creation-Ending = elim (Option-cases (find_case owner_id external_key db.cases)) [
    | inr (c, e) ↦ existed c e (ground arith)
    | inl e ↦ elim (Option-cases (find_case owner_id external_key (raced db).cases)) [
      | inr (c, f) ↦ conflicted c f (ground arith)
      | inl f ↦ elim (Option-cases (find (λ c. str_eq c.id new_id) (raced db).cases)) [
        | inr (c, g) ↦ key_taken f (ground arith)
        | inl g ↦ created f (ground arith) (ground arith)
      ]
    ]
  ]

  returned :
      (d : Case) (db' : Db)
      → find_case owner_id external_key db'.cases ≡ some d
      → creation ≡ (ok (d, false), db')
      → (c : Case) (new : Bool) → creation.0 ≡ ok (c, new)
      → (find_case owner_id external_key creation.1.cases ≡ some c)
        × (new ≡ true → find_case owner_id external_key (raced db).cases ≡ none)
  returned d db' f p c new h =
      let same : d ≡ c = cc (p, h) in
      let old : false ≡ new = cc (p, h) in
      (
        ap (λ (x : Outcome Failure (Case × Bool) × Db). find_case owner_id external_key x.1.cases) p
            ∙ f
            ∙ ap some same,
        λ n. cc (old, n),
      )

  -- A creation that returns a case returns the one that the database then holds under the
  -- owner's key; it says "created" only if there was none when it wrote.
  pub create_case_returns_stored :
      (c : Case) (new : Bool)
      → creation.0 ≡ ok (c, new)
      → (find_case owner_id external_key creation.1.cases ≡ some c)
        × (new ≡ true → find_case owner_id external_key (raced db).cases ≡ none)
  create_case_returns_stored c new h = elim creation-Ending [
    | existed d e p ↦ returned d db e p c new h
    | created f o p ↦ (
      ap (find_case owner_id external_key) p
          ∙ find_case-snoc owner_id external_key (raced db).cases drawn
          ∙ ground (arith, eq_refl owner_id, eq_refl external_key),
      λ _. f,
    )
    | conflicted d f p ↦ returned d (raced db) f p c new h
    | key_taken f p ↦ absurd (cc (h, p))
  ]

existing-create_case :
    (i o k t r : String) (raced : Db → Db) (db : Db) (c : Case)
    → find_case o k db.cases ≡ some c
    → create_case i o k t r raced db ≡ (ok (c, false), db)
unfolding create_case
existing-create_case i o k t r raced db c h = ground arith

-- Once a creation has returned a case, every further creation under the owner's key, with any
-- title and id and against any other sessions, returns that case, says that it is not new, and
-- changes nothing.
pub create_case_idempotent :
    (i o k t r : String) (raced : Db → Db) (db : Db) (c : Case) (new : Bool)
    → (create_case i o k t r raced db).0 ≡ ok (c, new)
    → (i' t' r' : String) (raced' : Db → Db)
    → create_case i' o k t' r' raced' (create_case i o k t r raced db).1
      ≡ (ok (c, false), (create_case i o k t r raced db).1)
create_case_idempotent i o k t r raced db c new h i' t' r' raced' =
    existing-create_case i' o k t' r' raced' (create_case i o k t r raced db).1 c
      (create_case_returns_stored i o k t r raced db c new h).0

find_case-owner :
    (i o : String) (cs : List Case) (c : Case)
    → find (λ d. str_eq d.id i && str_eq d.owner_id o) cs ≡ some c
    → (c.id ≡ i) × (c.owner_id ≡ o)
find_case-owner i o [] c h = cc
find_case-owner i o (d ∷ cs) c h = elim (Bool-cases (str_eq d.id i && str_eq d.owner_id o)) [
  | inl y ↦
      let same : d ≡ c = ground arith in
      subst (λ (x : Case). (x.id ≡ i) × (x.owner_id ≡ o)) same
        ((eq_iff d.id i).0 (ground arith), (eq_iff d.owner_id o).0 (ground arith))
  | inr n ↦ find_case-owner i o cs c (ground arith)
]

-- The lookups behind the API return only rows of the owner who asks, under the id asked for.
pub lookups_respect_owner :
    (i o : String) (db : Db)
    → ((c : Case) → get_case_for_owner i o db ≡ some c → (c.id ≡ i) × (c.owner_id ≡ o))
      × ((t : Task) → get_task_for_owner i o db ≡ some t → (db.tasks i ≡ some t) × (t.owner_id ≡ o))
unfolding get_case_for_owner get_task_for_owner
lookups_respect_owner i o db = (
  find_case-owner i o db.cases,
  λ t h. elim (Option-cases (db.tasks i)) [
    | inl e ↦ absurd (ground arith)
    | inr (r, e) ↦ (ground arith, ground (arith, eq_iff r.owner_id o))
  ],
)
