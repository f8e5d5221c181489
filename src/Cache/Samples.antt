-- ===== src/Cache/Samples.antt =====
-- A cache of two keys, and the theorems at these inputs.
use aquaops_copilot.Common.{
  ℕ, suc, String, ◌≡◌, true, false, none, some, List, [], ◌∷◌, length, if◌then◌else◌, str_eq,
}
use aquaops_copilot.Cache.{RedisLike, valid_segment, invalidate_index_cache}
use aquaops_copilot.Cache.Invalidation.{
  concat, AreBatches, sum, counts, after, invalidate_deletes_scan,
}

-- The state is the number of calls.
abbrev redis : RedisLike ℕ
redis = record {
  scan = λ v. if str_eq v "v1" then "retrieval:v1:a" ∷ "retrieval:v1:b" ∷ [] else [];
  delete = λ keys calls. (length keys, suc calls);
}

invalidate_deletes_scan_example :
    (valid_segment "v1" ≡ true
      → (bs : List (List String)) × (concat bs ≡ redis.scan "v1")
        × AreBatches bs
        × (invalidate_index_cache redis "v1" 0 ≡ some (sum (counts redis bs 0), after redis bs 0)))
    × (valid_segment "v1" ≡ false → invalidate_index_cache redis "v1" 0 ≡ none)
invalidate_deletes_scan_example = invalidate_deletes_scan redis "v1" 0
