-- ===== src/Retrieval/Hybrid.antt =====
-- hybrid.py: the request of public evidence over two providers and a reranker.
use aquaops_copilot.Common.{
  ℕ, String, Bool, true, ◌&&◌, not, Option, none, some, List, [], ◌∷◌, map, ◌==◌, leb, str_eq, all,
  any, find, take, length, Outcome, ok, err, ◌>>=◌, ◌>>◌, require,
}
use aquaops_copilot.Common.Text.{codes, len, is_blank, is_lower_hex}
use mathlib.Core.List.{reverse}
use aquaops_copilot.Retrieval.Fusion.{
  Floats, StoredChunk, RetrievalError, invalid_request, unavailable, not_a_list, over_limit,
  invalid_candidate, not_fused, changed_candidate, duplicate_candidate, invalid_evidence, filled,
  has_id, same_fingerprint, unique_chunks, fuse_public_rrf,
}

-- What the candidates are checked with: an accepted URL with the scheme http or https, and whether
-- a point id is the version 5 UUID of a chunk id.
pub record Identities : Type 0 where
  pub http_url : String → Bool
  pub point_id_of : String → String → Bool

-- The result of a call of a provider; an item that is no StoredChunk is `none`.
pub data Provided (S : Type 0) : Type 0 where
  raised other_type : Provided S
  listed : List (Option (StoredChunk S)) → Provided S

abbrev pub Provider : Type 0 → Type 0
Provider S = String → ℕ → Provided S

abbrev pub Reranker : Type 0 → Type 0
Reranker S = String → List (StoredChunk S) → Provided S

pub record Request : Type 0 where
  pub query : String
  pub candidate_limit : ℕ
  pub rerank_limit : ℕ
  pub answer_limit : ℕ

-- `data_class` is "public" and `access_policy` is "public_read".
pub record PublicEvidence (S : Type 0) : Type 0 where
  pub chunk_id : String
  pub source_url : String
  pub source_version : String
  pub text : String
  pub score : S

pub record RetrievalResult (S : Type 0) : Type 0 where
  pub evidence : List (PublicEvidence S)
  pub fused_candidate_ids : List String

unfoldable pub valid_request : Request → Bool
valid_request q =
    not (is_blank (codes q.query))
    && leb 1 q.answer_limit
    && leb q.answer_limit q.rerank_limit
    && leb q.rerank_limit q.candidate_limit
    && leb q.candidate_limit 40

module _ {S : Type 0} where
  -- A dictionary by `chunk_id` holds the last candidate of an id.
  abbrev pub by_chunk_id : String → List (StoredChunk S) → Option (StoredChunk S)
  by_chunk_id id cs = find (has_id id) (reverse cs)

  abbrev pub evidence_of : StoredChunk S → PublicEvidence S
  evidence_of c = record {
    chunk_id = c.chunk_id;
    source_url = c.source_url;
    source_version = c.source_version;
    text = c.text;
    score = c.score;
  }

module _ {S : Type 0} (f : Floats S) (ids : Identities) where
  -- `_validate_evidence_fields`
  abbrev pub valid_evidence_fields : String → String → String → Bool
  valid_evidence_fields url version text =
      filled url && ids.http_url url && filled version && filled text

  -- `_validate_public_candidate`
  unfoldable pub valid_candidate : StoredChunk S → Bool
  valid_candidate c =
      str_eq c.data_class "public"
      && str_eq c.access_policy "public_read"
      && f.is_finite c.score
      && valid_evidence_fields c.source_url c.source_version c.text
      && all filled c.section_path
      && (len c.chunk_id == 64)
      && all is_lower_hex (codes c.chunk_id)
      && ids.point_id_of c.qdrant_point_id c.chunk_id

  -- Every item is a chunk, and valid.
  unfoldable pub validate_candidates :
      List (Option (StoredChunk S)) → Outcome RetrievalError (List (StoredChunk S))
  validate_candidates [] = ok []
  validate_candidates (none ∷ cs) = err invalid_candidate
  validate_candidates (some c ∷ cs) =
      require (valid_candidate c) invalid_candidate
      >> (validate_candidates cs >>= λ more. ok (c ∷ more))

  -- `_deduplicate_by_chunk_id(candidates)[:limit]`
  abbrev searched : ℕ → Provided S → Outcome RetrievalError (List (StoredChunk S))
  searched limit raised = err unavailable
  searched limit other_type = err not_a_list
  searched limit (listed cs) =
      require (leb (length cs) limit) over_limit
      >> (validate_candidates cs >>= λ valid.
          unique_chunks (λ _. true) [] valid >>= λ unique. ok (take limit unique))

  unfoldable pub search : Provider S → String → ℕ → Outcome RetrievalError (List (StoredChunk S))
  search provider query limit = searched limit (provider query limit)

  abbrev reranked : ℕ → Provided S → Outcome RetrievalError (List (Option (StoredChunk S)))
  reranked limit raised = err unavailable
  reranked limit other_type = err not_a_list
  reranked limit (listed cs) = require (leb (length cs) limit) over_limit >> ok cs

  unfoldable pub rerank :
      Reranker S
      → String
      → List (StoredChunk S)
      → ℕ
      → Outcome RetrievalError (List (Option (StoredChunk S)))
  rerank reranker query candidates limit = reranked limit (reranker query candidates)

  -- `_fingerprint(a) == _fingerprint(b)`
  unfoldable pub same_candidate : StoredChunk S → StoredChunk S → Bool
  same_candidate a b =
      str_eq a.chunk_id b.chunk_id && same_fingerprint a b && f.equal a.score b.score

  abbrev pub allowed_as : Option (StoredChunk S) → StoredChunk S → Outcome RetrievalError (Unit {0})
  allowed_as none c = err not_fused
  allowed_as (some snapshot) c = require (same_candidate c snapshot) changed_candidate

  -- `seen` holds the chunk ids met before.
  unfoldable pub validate_reranked :
      List (StoredChunk S)
      → List String
      → List (Option (StoredChunk S))
      → Outcome RetrievalError (List (StoredChunk S))
  validate_reranked candidates seen [] = ok []
  validate_reranked candidates seen (none ∷ cs) = err invalid_candidate
  validate_reranked candidates seen (some c ∷ cs) =
      require (valid_candidate c) invalid_candidate
      >> (allowed_as (by_chunk_id c.chunk_id candidates) c
          >> (require (not (any (λ id. str_eq id c.chunk_id) seen)) duplicate_candidate
              >> (validate_reranked candidates (c.chunk_id ∷ seen) cs >>= λ more. ok (c ∷ more))))

  -- `_evidence(answer_candidates[chunk_id])`; a missing key is an error as well.
  abbrev pub evidence_from : Option (StoredChunk S) → Outcome RetrievalError (PublicEvidence S)
  evidence_from none = err invalid_evidence
  evidence_from (some c) =
      require (valid_evidence_fields c.source_url c.source_version c.text) invalid_evidence
      >> ok (evidence_of c)

  unfoldable pub answers :
      List (StoredChunk S) → List (StoredChunk S) → Outcome RetrievalError (List (PublicEvidence S))
  answers candidates [] = ok []
  answers candidates (c ∷ cs) = evidence_from (by_chunk_id c.chunk_id candidates) >>= λ e.
      answers candidates cs >>= λ es. ok (e ∷ es)

  -- What follows the fusion. The reranker is given copies, so it cannot change the candidates.
  unfoldable pub answer_from :
      Reranker S → Request → List (StoredChunk S) → Outcome RetrievalError (RetrievalResult S)
  answer_from reranker q fused =
      let candidates = take q.rerank_limit fused in
      rerank reranker q.query candidates q.rerank_limit >>= λ result.
      validate_reranked candidates [] result >>= λ valid.
      answers candidates (take q.answer_limit valid) >>= λ es.
      ok (record { evidence = es; fused_candidate_ids = map (λ c. c.chunk_id) fused })

  abbrev pub connected :
      Option (Provider S)
      → Option (Provider S)
      → Option (Reranker S)
      → Request
      → Outcome RetrievalError (RetrievalResult S)
  connected (some lexical) (some dense) (some reranker) q =
      search lexical q.query q.candidate_limit >>= λ first.
      search dense q.query q.candidate_limit >>= λ second.
      fuse_public_rrf f first second >>= λ fused. answer_from reranker q fused
  connected _ _ _ q = err unavailable

  unfoldable pub retrieve :
      Option (Provider S)
      → Option (Provider S)
      → Option (Reranker S)
      → Request
      → Outcome RetrievalError (RetrievalResult S)
  retrieve lexical dense reranker q =
      require (valid_request q) invalid_request >> connected lexical dense reranker q
