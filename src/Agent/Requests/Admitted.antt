-- ===== src/Agent/Requests/Admitted.antt =====
-- A diagnostic that is read from a question has arguments that the policy admits.
use mathlib.Core.Path.{subst}
use Prim.Native.String.{◌++◌}
use aquaops_copilot.Common.{
  ℕ, String, ◌≡◌, ◌≢◌, refl, ap, ◌⊎◌, inl, inr, Bool-cases, Option-cases, Bool, true, false, ◌&&◌,
  Option, none, some, List, [], ◌∷◌, arith, if◌then◌else◌, ◌==◌, all, contains, is_none,
}
use aquaops_copilot.Common.Text.{between, len}
use aquaops_copilot.Common.Timestamp.{parse}
use aquaops_copilot.Agent.Authorize.{
  Arguments, text, integer, get, public_indicators, valid_public_arguments,
}
use aquaops_copilot.Agent.Requests.{
  indicator_aliases, after_prefix, after_alias, named_as, hours_of, written_back, end_of,
  with_hours, with_indicator, with_prefix, parse_explicit_public_request,
  parse_public_historical_request, parse_public_anomaly_request, or_anomaly, or_historical,
  knowledge_request, diagnostic_tool_request, strip_text,
}

-- A request of the three values that a diagnostic takes.
abbrev IsPublic : String × ℕ × String → Type 0
IsPublic (indicator, hours, end_at) =
    (contains public_indicators indicator ≡ true)
    × (between 1 168 hours ≡ true)
    × (is_none (parse end_at) ≡ false)

some_same : {A : Type 0} (a b : A) → some a ≡ some b → a ≡ b
some_same a b e = cc e

aliased :
    (aliases : List (String × String)) (s indicator rest : String)
    → all (λ a. contains public_indicators a.1) aliases ≡ true
    → after_alias aliases s ≡ some (indicator, rest)
    → contains public_indicators indicator ≡ true
unfolding after_alias
aliased [] s indicator rest h e = absurd (cc e)
aliased ((alias, i) ∷ aliases) s indicator rest h e =
    elim (Option-cases (after_prefix true (alias ++ " ") s)) [
      | inl n ↦
          aliased aliases s indicator rest (ground arith)
            (subst (λ m. named_as i m (after_alias aliases s) ≡ some (indicator, rest)) n e)
      | inr (u, q) ↦
          let same =
            some_same (i, u) (indicator, rest)
              (subst (λ m. named_as i m (after_alias aliases s) ≡ some (indicator, rest)) q e) in
          subst (λ x. contains public_indicators x ≡ true) (ap (λ x. x.0) same) (ground arith)
    ]

none-some : {A : Type 0} (a : A) → none ≢ some a
none-some a e = cc e

dated :
    (pads : Bool) (end_at : String)
    → written_back pads (parse end_at) ≡ true
    → is_none (parse end_at) ≡ false
dated pads end_at e = elim (Option-cases (parse end_at)) [
  | inl n ↦ ground arith
  | inr (t, q) ↦ ground arith
]

end_of-IsPublic :
    (pads : Bool) (indicator : String) (hours : ℕ) (end_at : Option String)
    (r : String × ℕ × String)
    → contains public_indicators indicator ≡ true
    → end_of pads indicator hours end_at ≡ some r
    → IsPublic r
end_of-IsPublic pads indicator hours none r known e = absurd (cc e)
end_of-IsPublic pads indicator hours (some end_at) r known e =
    let test = between 1 168 hours && len end_at == 20 && written_back pads (parse end_at) in
    elim (Bool-cases test) [
      | inl y ↦
          subst IsPublic
            (some_same (indicator, hours, end_at) r
              (subst (λ b. (if b then some (indicator, hours, end_at) else none) ≡ some r) y e))
            (known, ground arith, dated pads end_at (ground arith))
      | inr n ↦ absurd (
          none-some r
            (subst (λ b. (if b then some (indicator, hours, end_at) else none) ≡ some r) n e))
    ]

with_hours-IsPublic :
    (pads : Bool) (indicator : String) (m : Option (ℕ × String)) (r : String × ℕ × String)
    → contains public_indicators indicator ≡ true
    → with_hours pads indicator m ≡ some r
    → IsPublic r
with_hours-IsPublic pads indicator none r known e = absurd (cc e)
with_hours-IsPublic pads indicator (some (hours, rest)) r known e =
    end_of-IsPublic pads indicator hours (after_prefix false "h 截止 " rest) r known e

with_indicator-IsPublic :
    (pads : Bool) (s : String) (m : Option (String × String)) (r : String × ℕ × String)
    → after_alias indicator_aliases s ≡ m
    → with_indicator pads m ≡ some r
    → IsPublic r
with_indicator-IsPublic pads s none r q e = absurd (cc e)
with_indicator-IsPublic pads s (some (indicator, rest)) r q e =
    with_hours-IsPublic pads indicator (hours_of rest) r
      (aliased indicator_aliases s indicator rest refl q) e

with_prefix-IsPublic :
    (pads : Bool) (m : Option String) (r : String × ℕ × String)
    → with_prefix pads m ≡ some r
    → IsPublic r
with_prefix-IsPublic pads none r e = absurd (cc e)
with_prefix-IsPublic pads (some s) r e =
    with_indicator-IsPublic pads s (after_alias indicator_aliases s) r refl e

parsed-IsPublic :
    (pads : Bool) (words question : String) (r : String × ℕ × String)
    → parse_explicit_public_request pads words question ≡ some r
    → IsPublic r
unfolding parse_explicit_public_request
parsed-IsPublic pads words question r e =
    with_prefix-IsPublic pads (after_prefix false words (strip_text question)) r e

historical-valid :
    (indicator : String) (hours : ℕ) (end_at : String)
    → IsPublic (indicator, hours, end_at)
    → valid_public_arguments "aggregate_public_history"
        (("indicator", text indicator) ∷ ("hours", integer hours) ∷ ("end_at", text end_at) ∷ [])
      ≡ true
unfolding valid_public_arguments get
historical-valid indicator hours end_at (known, range, dated) = ground arith

anomaly-valid :
    (indicator : String) (hours : ℕ) (end_at : String)
    → IsPublic (indicator, hours, end_at)
    → valid_public_arguments "screen_public_anomaly" (
        ("indicator", text indicator)
        ∷ ("baseline_hours", integer hours)
        ∷ ("end_at", text end_at)
        ∷ [])
      ≡ true
unfolding valid_public_arguments get
anomaly-valid indicator hours end_at (known, range, dated) = ground arith

-- A request of a tool that its call is allowed to make, or a request for knowledge.
abbrev pub IsAdmitted : String × Arguments → Type 0
IsAdmitted (name, args) =
    (name ≡ "retrieve_public_water_knowledge") ⊎ (valid_public_arguments name args ≡ true)

knowledge-IsAdmitted :
    (m : Option String) (r : String × Arguments) → knowledge_request m ≡ some r → IsAdmitted r
knowledge-IsAdmitted none r e = absurd (cc e)
knowledge-IsAdmitted (some rest) r e =
    subst IsAdmitted
      (some_same ("retrieve_public_water_knowledge", ("query", text (strip_text rest)) ∷ []) r e)
      (inl refl)

anomaly-IsAdmitted :
    (pads : Bool) (question : String) (m : Option (String × ℕ × String))
    (other : Option (String × Arguments)) (r : String × Arguments)
    → parse_public_anomaly_request pads question ≡ m
    → ((k : String × Arguments) → other ≡ some k → IsAdmitted k)
    → or_anomaly m other ≡ some r
    → IsAdmitted r
anomaly-IsAdmitted pads question none other r q h e = h r e
anomaly-IsAdmitted pads question (some (indicator, hours, end_at)) other r q h e =
    subst IsAdmitted
      (some_same
        (
          "screen_public_anomaly",
          ("indicator", text indicator)
              ∷ ("baseline_hours", integer hours)
              ∷ ("end_at", text end_at)
              ∷ [],
        )
        r e)
      (inr (
        anomaly-valid indicator hours end_at
          (parsed-IsPublic pads "公开异常筛查 " question (indicator, hours, end_at) q)))

historical-IsAdmitted :
    (pads : Bool) (question : String) (m : Option (String × ℕ × String))
    (other : Option (String × Arguments)) (r : String × Arguments)
    → parse_public_historical_request pads question ≡ m
    → ((k : String × Arguments) → other ≡ some k → IsAdmitted k)
    → or_historical m other ≡ some r
    → IsAdmitted r
historical-IsAdmitted pads question none other r q h e = h r e
historical-IsAdmitted pads question (some (indicator, hours, end_at)) other r q h e =
    subst IsAdmitted
      (some_same
        (
          "aggregate_public_history",
          ("indicator", text indicator) ∷ ("hours", integer hours) ∷ ("end_at", text end_at) ∷ [],
        )
        r e)
      (inr (
        historical-valid indicator hours end_at
          (parsed-IsPublic pads "公开历史诊断 " question (indicator, hours, end_at) q)))

-- The request that is read from a question is one for knowledge, or the policy admits its
-- arguments for the tool that it names.
pub diagnostic_tool_request-IsAdmitted :
    (pads : Bool) (question : String) (r : String × Arguments)
    → diagnostic_tool_request pads question ≡ some r
    → IsAdmitted r
unfolding diagnostic_tool_request
diagnostic_tool_request-IsAdmitted pads question r e =
    let knowledge = knowledge_request (after_prefix false "公开知识检索 " question) in
    let anomaly = parse_public_anomaly_request pads question in
    historical-IsAdmitted pads question (parse_public_historical_request pads question)
      (or_anomaly anomaly knowledge) r refl
      (λ k q.
        anomaly-IsAdmitted pads question anomaly knowledge k refl
          (λ j p. knowledge-IsAdmitted (after_prefix false "公开知识检索 " question) j p) q)
      e
