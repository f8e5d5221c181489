-- ===== src/Cache.antt =====
-- aquaops/cache/service.py: the invalidation of the retrieval cache of an index version.
use aquaops_copilot.Common.{
  ℕ, ◌+◌, String, Bool, true, false, ◌||◌, Option, none, some, List, [], ◌∷◌, ◌++◌, if◌then◌else◌,
  ◌==◌, length,
}
use aquaops_copilot.Common.Text.{codes, head_tail, is_alnum}
pub mod Invalidation
mod Samples

-- Redis: `scan` yields the keys of a version that match `retrieval:{version}:*`, in the order in
-- which the iteration meets them, and `delete` returns how many of the keys were there.
pub record RedisLike (R : Type 0) : Type 0 where
  pub scan : String → List String
  pub delete : List String → R → ℕ × R

-- `_valid_segment`
unfoldable pub valid_segment : String → Bool
valid_segment s =
    head_tail is_alnum (λ c. is_alnum c || c == b'.' || c == b'_' || c == b'-') 0 79 (codes s)

module _ {R : Type 0} (redis : RedisLike R) where
  -- `deleted += redis.delete(*batch)`
  abbrev pub delete_batch : List String → ℕ × R → ℕ × R
  delete_batch batch (deleted, r) = let (n, r') = redis.delete batch r in (deleted + n, r')

  abbrev last_batch : List String → ℕ × R → ℕ × R
  last_batch [] done = done
  last_batch (k ∷ ks) done = delete_batch (k ∷ ks) done

  -- The loop: the keys to come, the batch that is being filled, and what was deleted.
  unfoldable pub delete_keys : List String → List String → ℕ × R → ℕ × R
  delete_keys [] batch done = last_batch batch done
  delete_keys (k ∷ ks) batch done =
      let filled = batch ++ (k ∷ []) in
      let is_full = length filled == 100 in
      delete_keys ks (if is_full then [] else filled)
        (if is_full then delete_batch filled done else done)

  -- `none` is a ValueError.
  unfoldable pub invalidate_index_cache : String → R → Option (ℕ × R)
  invalidate_index_cache version r =
      if valid_segment version then some (delete_keys (redis.scan version) [] (0, r)) else none
