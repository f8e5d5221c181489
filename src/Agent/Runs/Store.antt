-- ===== src/Agent/Runs/Store.antt =====
-- The store keeps the newest runs, each under its id.
use mathlib.Core.Path.{subst}
use aquaops_copilot.Common.{
  ℕ, zero, suc, ◌+◌, ◌-◌, ◌≤◌, String, Bool, true, false, ◌&&◌, none, some, List, [], ◌∷◌, ◌++◌,
  if◌then◌else◌, ltb, str_eq, is_none, length, ◌≡◌, ◌≢◌, refl, sym, ap, ◌∙◌, arith, inl, inr,
  Bool-cases, Option-cases, drop, length-append, eq_iff, eq_refl,
}
use aquaops_copilot.Agent.Runs.{AgentRunCompleted, RunStore, find_run, evict, save, get}

-- No run id stands twice.
unfoldable pub unique_runs : List AgentRunCompleted → Bool
unique_runs [] = true
unique_runs (r ∷ rs) = is_none (find_run r.run_id rs) && unique_runs rs

pub record IsStore (s : RunStore) : Type 0 where
  pub has_room : 1 ≤ s.max_entries
  pub is_bounded : length s.results ≤ s.max_entries
  pub is_unique : unique_runs s.results ≡ true

drop_nil : (n : ℕ) → drop {A = AgentRunCompleted} n [] ≡ []
drop_nil zero = refl
drop_nil (suc n) = refl

evict-drop : (n : ℕ) (rs : List AgentRunCompleted) → evict n rs ≡ drop (length rs - n) rs
unfolding evict
evict-drop n [] = sym (drop_nil (length {A = AgentRunCompleted} [] - n))
evict-drop n (r ∷ rs) =
    let rest = evict-drop n rs in
    elim (Bool-cases (ltb n (length (r ∷ rs)))) [
      | inl y ↦
          let one : length (r ∷ rs) - n ≡ suc (length rs - n) = ground arith in
          let step : evict n (r ∷ rs) ≡ evict n rs = ground arith in
          step ∙ rest ∙ sym (ap (λ k. drop k (r ∷ rs)) one)
      | inr m ↦
          let nothing : length (r ∷ rs) - n ≡ 0 = ground arith in
          let step : evict n (r ∷ rs) ≡ r ∷ rs = ground arith in
          step ∙ sym (ap (λ k. drop k (r ∷ rs)) nothing)
    ]

length-evict : (n : ℕ) (rs : List AgentRunCompleted) → length (evict n rs) ≤ n
unfolding evict
length-evict n [] = omega arith
length-evict n (r ∷ rs) = let rest = length-evict n rs in ground arith

find_run-append :
    (id : String) (rs : List AgentRunCompleted) (r : AgentRunCompleted)
    → find_run id rs ≡ none
    → find_run id (rs ++ (r ∷ [])) ≡ (if str_eq r.run_id id then some r else none)
unfolding find_run
find_run-append id [] r h = refl
find_run-append id (x ∷ rs) r h = ground (arith, find_run-append id rs r)

find_run-evict :
    (n : ℕ) (rs : List AgentRunCompleted) (r : AgentRunCompleted)
    → 1 ≤ n
    → find_run r.run_id rs ≡ none
    → find_run r.run_id (evict n (rs ++ (r ∷ []))) ≡ some r
unfolding find_run evict
find_run-evict n [] r k h = ground (arith, eq_refl r.run_id)
find_run-evict n (x ∷ rs) r k h =
    let rest = find_run-evict n rs r k in
    let all_of = find_run-append r.run_id rs r in
    let same = eq_refl r.run_id in
    elim (Bool-cases (ltb n (length (x ∷ (rs ++ (r ∷ [])))))) [
      | inl y ↦ ground arith
      | inr m ↦ ground arith
    ]

evict_unique :
    (n : ℕ) (rs : List AgentRunCompleted) → unique_runs rs ≡ true → unique_runs (evict n rs) ≡ true
unfolding unique_runs evict
evict_unique n [] h = refl
evict_unique n (r ∷ rs) h = ground (arith, evict_unique n rs)

append_unique :
    (rs : List AgentRunCompleted) (r : AgentRunCompleted)
    → unique_runs rs ≡ true
    → find_run r.run_id rs ≡ none
    → unique_runs (rs ++ (r ∷ [])) ≡ true
unfolding unique_runs find_run
append_unique [] r u h = refl
append_unique (x ∷ rs) r u h =
    let rest = append_unique rs r in
    let added = find_run-append x.run_id rs r in
    elim (Bool-cases (str_eq r.run_id x.run_id)) [
      | inl y ↦
          let back = (eq_iff x.run_id r.run_id).1 (sym ((eq_iff r.run_id x.run_id).0 y)) in
          absurd (ground arith)
      | inr n ↦ ground arith
    ]

saved :
    (r : AgentRunCompleted) (s : RunStore)
    → get r.run_id s ≡ none
    → save r s ≡ (true, record s { results = evict s.max_entries (s.results ++ (r ∷ [])) })
unfolding save get
saved r s n = ground arith

not_saved : (r : AgentRunCompleted) (s : RunStore) → get r.run_id s ≢ none → save r s ≡ (false, s)
unfolding save get
not_saved r s n = elim (Option-cases (find_run r.run_id s.results)) [
  | inl e ↦ absurd (n e)
  | inr (x, e) ↦ ground arith
]

added :
    (r : AgentRunCompleted) (s : RunStore)
    → IsStore s
    → get r.run_id s ≡ none
    → (evict s.max_entries (s.results ++ (r ∷ []))
        ≡ drop (length s.results + 1 - s.max_entries) (s.results ++ (r ∷ [])))
      × IsStore (record s { results = evict s.max_entries (s.results ++ (r ∷ [])) })
      × (get r.run_id (record s { results = evict s.max_entries (s.results ++ (r ∷ [])) }) ≡ some r)
unfolding get
added r s i n = (
  evict-drop s.max_entries (s.results ++ (r ∷ []))
      ∙ ap (λ k. drop (k - s.max_entries) (s.results ++ (r ∷ [])))
          (length-append s.results (r ∷ [])),
  record {
    has_room = i.has_room;
    is_bounded = length-evict s.max_entries (s.results ++ (r ∷ []));
    is_unique =
        evict_unique s.max_entries (s.results ++ (r ∷ []))
          (append_unique s.results r i.is_unique n);
  },
  find_run-evict s.max_entries s.results r i.has_room n,
)

-- On a store that holds at most its number of runs, each under its own id: saving a run with a new
-- id succeeds, drops the oldest runs that are too many, keeps the store so, and the run is found
-- afterwards; saving one with an id that is there changes nothing.
pub save_keeps_newest :
    (r : AgentRunCompleted) (s : RunStore)
    → IsStore s
    → (get r.run_id s ≡ none
        → ((save r s).0 ≡ true)
          × ((save r s).1.results
              ≡ drop (length s.results + 1 - s.max_entries) (s.results ++ (r ∷ [])))
          × IsStore (save r s).1
          × (get r.run_id (save r s).1 ≡ some r))
      × (get r.run_id s ≢ none → save r s ≡ (false, s))
save_keeps_newest r s i = (
  λ n.
      (let (a, b, c) = added r s i n in
        let e = sym (saved r s n) in
        (
          ap (λ x. x.0) (sym e),
          ap (λ x. x.1.results) (sym e) ∙ a,
          subst (λ x. IsStore x.1) e b,
          subst (λ x. get r.run_id x.1 ≡ some r) e c,
        )),
  not_saved r s,
)
