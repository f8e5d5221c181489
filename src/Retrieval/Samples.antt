-- ===== src/Retrieval/Samples.antt =====
-- A retrieval in which both providers return the same chunk, and the theorems at these inputs.
use aquaops_copilot.Common.{
  ℕ, ◌+◌, ◌/◌, ◌==◌, String, ◌≡◌, refl, true, ltb, [], ◌∷◌, map, some, str_eq, ok,
}
use aquaops_copilot.Retrieval.Fusion.{
  Floats, StoredChunk, same_fingerprint, unique_chunks, valid_fusion_chunk, add_rank, add_ranking,
  insert, sort_onto, fuse_public_rrf,
}
use aquaops_copilot.Retrieval.Hybrid.{
  Identities, Provider, Reranker, listed, Request, RetrievalResult, valid_request, valid_candidate,
  validate_candidates, search, rerank, same_candidate, validate_reranked, evidence_of, answers,
  answer_from, retrieve,
}
use aquaops_copilot.Retrieval.Snapshot.{Retrieved, retrieve_returns_snapshot}

-- Scores in millionths
abbrev millionths : Floats ℕ
millionths = record {
  zero_score = 0;
  add = λ a b. a + b;
  reciprocal = λ n. 1000000 / n;
  less = ltb;
  equal = λ a b. a == b;
  is_finite = λ _. true;
}

abbrev point : String
point = "8f14e45f-ceea-567a-9b36-3b1f0c0ffee0"

abbrev identities : Identities
identities = record {
  http_url = λ u. str_eq u "https://data.example.org/nh4";
  point_id_of = λ p c. str_eq p point;
}

abbrev chunk : ℕ → StoredChunk ℕ
chunk score = record {
  chunk_id = "0123456789abcdef0123456789abcdef0123456789abcdef0123456789abcdef";
  qdrant_point_id = point;
  source_id = "handbook";
  source_url = "https://data.example.org/nh4";
  source_version = "1.0";
  parent_title = "Ammonium";
  section_path = "Limits" ∷ [];
  text = "Ammonium limits";
  data_class = "public";
  access_policy = "public_read";
  score = score;
}

abbrev provider : ℕ → Provider ℕ
provider score query limit = listed (some (chunk score) ∷ [])

abbrev echo : Reranker ℕ
echo query candidates = listed (map (λ c. some c) candidates)

abbrev request : Request
request = record { query = "ammonium"; candidate_limit = 40; rerank_limit = 20; answer_limit = 6 }

abbrev result : RetrievalResult ℕ
result = record {
  evidence = evidence_of (chunk 32786) ∷ [];
  fused_candidate_ids = "0123456789abcdef0123456789abcdef0123456789abcdef0123456789abcdef" ∷ [];
}

retrieved :
    retrieve millionths identities (some (provider 3)) (some (provider 5)) (some echo) request
    ≡ ok result
unfolding retrieve answer_from valid_request search validate_candidates valid_candidate
    unique_chunks same_fingerprint fuse_public_rrf valid_fusion_chunk add_rank add_ranking insert
    sort_onto rerank validate_reranked same_candidate answers
retrieved = refl

retrieve_returns_snapshot_example :
    (valid_request request ≡ true)
    × Retrieved millionths identities (provider 3) (provider 5) request result
retrieve_returns_snapshot_example =
    retrieve_returns_snapshot millionths identities (provider 3) (provider 5) echo request result
      retrieved
