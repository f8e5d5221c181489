-- ===== src/Retrieval/Fusion.antt =====
-- retrieve.py: `fuse_public_rrf`, over chunks as the vector store returns them.
use aquaops_copilot.Common.{
  ℕ, ◌+◌, String, Bool, true, false, ◌&&◌, not, Option, none, some, List, [], ◌∷◌, if◌then◌else◌,
  str_eq, all, find, Outcome, ok, err, ◌>>=◌, ◌>>◌, require,
}
use aquaops_copilot.Common.Text.{codes, is_blank}

-- The floating-point numbers of the scores.
pub record Floats (S : Type 0) : Type 0 where
  pub zero_score : S
  pub add : S → S → S
  -- 1 / n
  pub reciprocal : ℕ → S
  pub less : S → S → Bool
  pub equal : S → S → Bool
  pub is_finite : S → Bool

pub record StoredChunk (S : Type 0) : Type 0 where
  pub chunk_id : String
  pub qdrant_point_id : String
  pub source_id : String
  pub source_url : String
  pub source_version : String
  pub parent_title : String
  pub section_path : List String
  pub text : String
  pub data_class : String
  pub access_policy : String
  pub score : S

pub data RetrievalError : Type 0 where
  invalid_request unavailable not_a_list over_limit invalid_candidate : RetrievalError
  conflicting_evidence not_fused changed_candidate duplicate_candidate invalid_evidence :
      RetrievalError

abbrev pub filled : String → Bool
filled s = not (is_blank (codes s))

abbrev pub texts_eq : List String → List String → Bool
texts_eq [] [] = true
texts_eq (a ∷ as_) (b ∷ bs) = str_eq a b && texts_eq as_ bs
texts_eq _ _ = false

module _ {S : Type 0} where
  -- `_public_evidence_fingerprint(a) == _public_evidence_fingerprint(b)`
  unfoldable pub same_fingerprint : StoredChunk S → StoredChunk S → Bool
  same_fingerprint a b =
      str_eq a.qdrant_point_id b.qdrant_point_id
      && str_eq a.source_id b.source_id
      && str_eq a.source_url b.source_url
      && str_eq a.source_version b.source_version
      && str_eq a.parent_title b.parent_title
      && texts_eq a.section_path b.section_path
      && str_eq a.text b.text
      && str_eq a.data_class b.data_class
      && str_eq a.access_policy b.access_policy

  abbrev pub has_id : String → StoredChunk S → Bool
  has_id id c = str_eq c.chunk_id id

  abbrev kept : Option (StoredChunk S) → StoredChunk S → List (StoredChunk S) → List (StoredChunk S)
  kept none c rest = c ∷ rest
  kept (some e) c rest = rest

  abbrev seen_with :
      Option (StoredChunk S) → StoredChunk S → List (StoredChunk S) → List (StoredChunk S)
  seen_with none c seen = c ∷ seen
  seen_with (some e) c seen = seen

  abbrev no_conflict : Option (StoredChunk S) → StoredChunk S → Bool
  no_conflict none c = true
  no_conflict (some e) c = same_fingerprint e c

  -- The loop that keeps the first chunk of each id, after a check of each chunk in its turn.
  unfoldable pub unique_chunks :
      (StoredChunk S → Bool)
      → List (StoredChunk S)
      → List (StoredChunk S)
      → Outcome RetrievalError (List (StoredChunk S))
  unique_chunks check seen [] = ok []
  unique_chunks check seen (c ∷ cs) =
      let existing = find (has_id c.chunk_id) seen in
      require (check c) invalid_candidate
      >> (require (no_conflict existing c) conflicting_evidence
          >> (unique_chunks check (seen_with existing c seen) cs >>= λ rest.
              ok (kept existing c rest)))

module _ {S : Type 0} (f : Floats S) where
  -- `_validate_public_fusion_chunk`
  unfoldable pub valid_fusion_chunk : StoredChunk S → Bool
  valid_fusion_chunk c =
      filled c.chunk_id
      && filled c.qdrant_point_id
      && filled c.source_id
      && filled c.source_url
      && filled c.source_version
      && filled c.parent_title
      && all filled c.section_path
      && filled c.text
      && filled c.data_class
      && filled c.access_policy
      && f.is_finite c.score

  abbrev Fused : Type 0
  Fused = List (StoredChunk S)

  -- The fused dictionary in the order of its keys; the score of an entry is the sum so far.
  unfoldable pub add_rank : StoredChunk S → S → Fused → Outcome RetrievalError Fused
  add_rank c s [] = ok (record c { score = f.add f.zero_score s } ∷ [])
  add_rank c s (e ∷ es) =
      let rest = add_rank c s es in
      if has_id c.chunk_id e
      then (if same_fingerprint c e
          then ok (record e { score = f.add e.score s } ∷ es)
          else err conflicting_evidence)
      else (rest >>= λ more. ok (e ∷ more))

  unfoldable pub add_ranking : ℕ → List (StoredChunk S) → Fused → Outcome RetrievalError Fused
  add_ranking n [] fused = ok fused
  add_ranking n (c ∷ cs) fused =
      add_rank c (f.reciprocal n) fused >>= λ more. add_ranking (n + 1) cs more

  -- `sorted(…, reverse=True)` keeps the order of equal scores.
  unfoldable pub insert : StoredChunk S → Fused → Fused
  insert c [] = c ∷ []
  insert c (e ∷ es) = if f.less e.score c.score then c ∷ e ∷ es else e ∷ insert c es

  unfoldable pub sort_onto : Fused → Fused → Fused
  sort_onto done [] = done
  sort_onto done (c ∷ cs) = sort_onto (insert c done) cs

  abbrev checked_scores : Fused → Outcome RetrievalError Fused
  checked_scores cs = require (all valid_fusion_chunk cs) invalid_candidate >> ok cs

  -- With the default k of 60.
  unfoldable pub fuse_public_rrf :
      List (StoredChunk S) → List (StoredChunk S) → Outcome RetrievalError (List (StoredChunk S))
  fuse_public_rrf lexical dense = unique_chunks valid_fusion_chunk [] lexical >>= λ first.
      add_ranking 61 first [] >>= λ half. unique_chunks valid_fusion_chunk [] dense >>= λ second.
      add_ranking 61 second half >>= λ fused. checked_scores (sort_onto [] fused)
