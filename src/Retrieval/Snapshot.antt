-- ===== src/Retrieval/Snapshot.antt =====
-- The evidence that is returned is what was fused, whatever the reranker answers.
use mathlib.Core.Path.{subst}
use aquaops_copilot.Common.{
  ℕ, zero, suc, ◌≤◌, String, ◌≡◌, refl, sym, ap, ◌∙◌, Bool, true, ◌&&◌, not, Option, none, some,
  List, [], ◌∷◌, map, arith, inl, inr, Bool-cases, str_eq, any, find, take, length, length-map,
  length-take, ok, bind-ok, require-ok, ok_same, eq_iff,
}
use aquaops_copilot.Retrieval.Fusion.{Floats, StoredChunk, has_id, fuse_public_rrf}
use aquaops_copilot.Retrieval.Hybrid.{
  Identities, Provider, Reranker, Request, PublicEvidence, RetrievalResult, valid_request, search,
  rerank, by_chunk_id, validate_reranked, valid_candidate, evidence_of, answers, answer_from,
  retrieve, evidence_from, allowed_as,
}
use mathlib.Core.List.{reverse}

-- No text stands among those before it.
abbrev pub distinct_from : List String → List String → Bool
distinct_from seen [] = true
distinct_from seen (k ∷ ks) = not (any (λ id. str_eq id k) seen) && distinct_from (k ∷ seen) ks

distinct_from-take :
    (n : ℕ) (seen ks : List String)
    → distinct_from seen ks ≡ true
    → distinct_from seen (take n ks) ≡ true
distinct_from-take zero seen ks h = refl
distinct_from-take (suc n) seen [] h = refl
distinct_from-take (suc n) seen (k ∷ ks) h = ground (arith, distinct_from-take n (k ∷ seen) ks)

find_sound : {A : Type 0} (p : A → Bool) (xs : List A) (a : A) → find p xs ≡ some a → p a ≡ true
find_sound p [] a h = absurd (ground arith)
find_sound {A} p (x ∷ xs) a h = elim (Bool-cases (p x)) [
  | inl y ↦ subst (λ o. test o ≡ true) h (ground arith)
  | inr n ↦ find_sound p xs a (ground arith)
]
  where
    test : Option A → Bool
    test none = true
    test (some b) = p b

module _ {S : Type 0} where
  abbrev pub ids_of : List (StoredChunk S) → List String
  ids_of cs = map (λ c. c.chunk_id) cs

  abbrev pub evidence_ids : List (PublicEvidence S) → List String
  evidence_ids es = map (λ e. e.chunk_id) es

  -- Each item is the evidence of the candidate that has its chunk id.
  abbrev pub AllFrom : List (StoredChunk S) → List (PublicEvidence S) → Type 0
  AllFrom candidates [] = Unit
  AllFrom candidates (e ∷ es) =
      ((c : StoredChunk S) × (by_chunk_id e.chunk_id candidates ≡ some c) × (e ≡ evidence_of c))
      × AllFrom candidates es

  take-ids : (n : ℕ) (cs : List (StoredChunk S)) → ids_of (take n cs) ≡ take n (ids_of cs)
  take-ids zero cs = refl
  take-ids (suc n) [] = refl
  take-ids (suc n) (c ∷ cs) = ap (λ l. c.chunk_id ∷ l) (take-ids n cs)

  by_chunk_id-same :
      (candidates : List (StoredChunk S)) (id : String) (c : StoredChunk S)
      → by_chunk_id id candidates ≡ some c
      → c.chunk_id ≡ id
  by_chunk_id-same candidates id c h =
      (eq_iff c.chunk_id id).0 (find_sound (has_id id) (reverse candidates) c h)

module _ {S : Type 0} (f : Floats S) (ids : Identities) where
  evidence_from-found :
      (o : Option (StoredChunk S)) (e : PublicEvidence S)
      → evidence_from f ids o ≡ ok e
      → (c : StoredChunk S) × (o ≡ some c) × (e ≡ evidence_of c)
  evidence_from-found none e h = absurd (cc h)
  evidence_from-found (some c) e h =
      let (_, q) = require-ok _ _ (ok (evidence_of c)) e h in (c, refl, ground arith)

  answers-AllFrom :
      (candidates cs : List (StoredChunk S)) (es : List (PublicEvidence S))
      → answers f ids candidates cs ≡ ok es
      → AllFrom candidates es × (evidence_ids es ≡ ids_of cs)
  unfolding answers
  answers-AllFrom candidates [] [] h = (tt, refl)
  answers-AllFrom candidates [] (e ∷ es) h = absurd (ground arith)
  answers-AllFrom candidates (c ∷ cs) es h =
      let (e, e1, h1) = bind-ok (evidence_from f ids (by_chunk_id c.chunk_id candidates)) _ es h in
      let (ts, t1, h2) = bind-ok (answers f ids candidates cs) (λ ts. ok (e ∷ ts)) es h1 in
      let (k, found, same) = evidence_from-found (by_chunk_id c.chunk_id candidates) e e1 in
      let (more, names) = answers-AllFrom candidates cs ts t1 in
      let id = by_chunk_id-same candidates c.chunk_id k found in
      let here = ap (λ x. x.chunk_id) same ∙ id in
      let whole = ok_same (ok (e ∷ ts)) (e ∷ ts) es refl h2 in
      subst (λ l. AllFrom candidates l × (evidence_ids l ≡ ids_of (c ∷ cs))) whole
        (
          ((k, subst (λ x. by_chunk_id x candidates ≡ some k) (sym here) found, same), more),
          cc (here, names),
        )

  validate_reranked-distinct :
      (candidates : List (StoredChunk S)) (seen : List String) (cs : List (Option (StoredChunk S)))
      (valid : List (StoredChunk S))
      → validate_reranked f ids candidates seen cs ≡ ok valid
      → distinct_from seen (ids_of valid) ≡ true
  unfolding validate_reranked
  validate_reranked-distinct candidates seen [] valid h =
      subst (λ l. distinct_from seen (ids_of l) ≡ true) (ok_same (ok []) [] valid refl h) refl
  validate_reranked-distinct candidates seen (none ∷ cs) valid h = absurd (cc h)
  validate_reranked-distinct candidates seen (some c ∷ cs) valid h =
      let (_, h1) = require-ok (valid_candidate f ids c) _ _ valid h in
      let (_, _, h2) =
        bind-ok (allowed_as f ids (by_chunk_id c.chunk_id candidates) c) _ valid h1 in
      let (new, h3) = require-ok (not (any (λ id. str_eq id c.chunk_id) seen)) _ _ valid h2 in
      let (more, e, h4) =
        bind-ok (validate_reranked f ids candidates (c.chunk_id ∷ seen) cs) _ valid h3 in
      let rest = validate_reranked-distinct candidates (c.chunk_id ∷ seen) cs more e in
      subst (λ l. distinct_from seen (ids_of l) ≡ true)
        (ok_same (ok (c ∷ more)) (c ∷ more) valid refl h4) (ground arith)

  -- What an answer is, of the candidates for reranking.
  abbrev pub Answers : List (StoredChunk S) → Request → RetrievalResult S → Type 0
  Answers fused q r =
      (r.fused_candidate_ids ≡ ids_of fused)
      × AllFrom (take q.rerank_limit fused) r.evidence
      × (distinct_from [] (evidence_ids r.evidence) ≡ true)
      × (length r.evidence ≤ q.answer_limit)

  answered :
      (candidates chosen : List (StoredChunk S)) (result : List (Option (StoredChunk S)))
      (es : List (PublicEvidence S)) (n : ℕ)
      → validate_reranked f ids candidates [] result ≡ ok chosen
      → answers f ids candidates (take n chosen) ≡ ok es
      → AllFrom candidates es × (distinct_from [] (evidence_ids es) ≡ true) × (length es ≤ n)
  answered candidates chosen result es n v a =
      let (origin, names) = answers-AllFrom candidates (take n chosen) es a in
      let distinct = validate_reranked-distinct candidates [] result chosen v in
      let ordered = names ∙ take-ids n chosen in
      let size = ap length ordered in
      let short = length-take n (ids_of chosen) in
      let same = length-map (λ e. e.chunk_id) es in
      (
        origin,
        subst (λ l. distinct_from [] l ≡ true) (sym ordered)
            (distinct_from-take n [] (ids_of chosen) distinct),
        omega (arith, size, short, same),
      )

  answer_from-Answers :
      (reranker : Reranker S) (q : Request) (fused : List (StoredChunk S)) (r : RetrievalResult S)
      → answer_from f ids reranker q fused ≡ ok r
      → Answers fused q r
  unfolding answer_from
  answer_from-Answers reranker q fused r h =
      let (result, e4, h5) =
        bind-ok (rerank f ids reranker q.query (take q.rerank_limit fused) q.rerank_limit) _ r h in
      let (chosen, e5, h6) =
        bind-ok (validate_reranked f ids (take q.rerank_limit fused) [] result) _ r h5 in
      let (es, e6, h7) =
        bind-ok (answers f ids (take q.rerank_limit fused) (take q.answer_limit chosen)) _ r h6 in
      let (a, b, c) = answered (take q.rerank_limit fused) chosen result es q.answer_limit e5 e6 in
      subst (Answers fused q)
        (ok_same (ok (record { evidence = es; fused_candidate_ids = ids_of fused }))
          (record { evidence = es; fused_candidate_ids = ids_of fused }) r refl h7)
        (refl, a, b, c)

-- What a retrieval has done and returned.
pub record Retrieved {S : Type 0} (f : Floats S) (ids : Identities) (lexical dense : Provider S)
    (q : Request) (r : RetrievalResult S) : Type 0 where
  pub first : List (StoredChunk S)
  pub second : List (StoredChunk S)
  pub fused : List (StoredChunk S)
  pub searched_first : search f ids lexical q.query q.candidate_limit ≡ ok first
  pub searched_second : search f ids dense q.query q.candidate_limit ≡ ok second
  pub was_fused : fuse_public_rrf f first second ≡ ok fused
  pub candidate_ids : r.fused_candidate_ids ≡ ids_of fused
  pub from_snapshot : AllFrom (take q.rerank_limit fused) r.evidence
  pub without_duplicates : distinct_from [] (evidence_ids r.evidence) ≡ true
  pub few : length r.evidence ≤ q.answer_limit

-- When a retrieval returns, its request was valid, and whatever the reranker answered, each item of
-- evidence is that of the fused candidate with its chunk id among the candidates for reranking, no
-- chunk id stands twice, and there are at most as many items as were asked for.
pub retrieve_returns_snapshot :
    {S : Type 0} (f : Floats S) (ids : Identities) (lexical dense : Provider S)
    (reranker : Reranker S) (q : Request) (r : RetrievalResult S)
    → retrieve f ids (some lexical) (some dense) (some reranker) q ≡ ok r
    → (valid_request q ≡ true) × Retrieved f ids lexical dense q r
unfolding retrieve
retrieve_returns_snapshot f ids lexical dense reranker q r h =
    let (valid, h1) = require-ok (valid_request q) _ _ r h in
    let (first, e1, h2) = bind-ok (search f ids lexical q.query q.candidate_limit) _ r h1 in
    let (second, e2, h3) = bind-ok (search f ids dense q.query q.candidate_limit) _ r h2 in
    let (fused, e3, h4) = bind-ok (fuse_public_rrf f first second) _ r h3 in
    let (a, b, c, d) = answer_from-Answers f ids reranker q fused r h4 in
    (
      valid,
      record {
        first = first;
        second = second;
        fused = fused;
        searched_first = e1;
        searched_second = e2;
        was_fused = e3;
        candidate_ids = a;
        from_snapshot = b;
        without_duplicates = c;
        few = d;
      },
    )
