-- ===== src/Cache/Invalidation.antt =====
-- Every key is deleted once, in order, in full batches of at most a hundred.
use aquaops_copilot.Common.{
  ℕ, ◌+◌, ◌≤◌, ◌<◌, String, true, false, inl, inr, Bool-cases, none, some, List, [], ◌∷◌, ◌++◌,
  if◌then◌else◌, ◌==◌, length, length-append, ◌≡◌, refl, arith, ap, ◌∙◌,
}
use mathlib.Core.List.{append_assoc}
use aquaops_copilot.Cache.{
  RedisLike, delete_batch, delete_keys, valid_segment, invalidate_index_cache,
}

abbrev pub concat : List (List String) → List String
concat [] = []
concat (b ∷ bs) = b ++ concat bs

-- Each batch has at least one and at most a hundred keys.
abbrev pub AreBatches : List (List String) → Type 0
AreBatches [] = Unit
AreBatches (b ∷ bs) = ((1 ≤ length b) × (length b ≤ 100)) × AreBatches bs

abbrev delete_all : {R : Type 0} → RedisLike R → List (List String) → ℕ × R → ℕ × R
delete_all redis [] done = done
delete_all redis (b ∷ bs) done = delete_all redis bs (delete_batch redis b done)

-- What the deletions of some batches report, one after the other, and the state behind them.
abbrev pub counts : {R : Type 0} → RedisLike R → List (List String) → R → List ℕ
counts redis [] r = []
counts redis (b ∷ bs) r = (redis.delete b r).0 ∷ counts redis bs (redis.delete b r).1

abbrev pub after : {R : Type 0} → RedisLike R → List (List String) → R → R
after redis [] r = r
after redis (b ∷ bs) r = after redis bs (redis.delete b r).1

abbrev pub sum : List ℕ → ℕ
sum [] = 0
sum (n ∷ ns) = n + sum ns

to_sum : (n : ℕ) → n ≡ n + 0
to_sum n = omega arith

delete_all_lem :
    {R : Type 0} (redis : RedisLike R) (bs : List (List String)) (n : ℕ) (r : R)
    → delete_all redis bs (n, r) ≡ (n + sum (counts redis bs r), after redis bs r)
delete_all_lem redis [] n r = ap (λ m. (m, r)) (to_sum n)
delete_all_lem redis (b ∷ bs) n r =
    delete_all_lem redis bs (n + (redis.delete b r).0) (redis.delete b r).1
    ∙ ap (λ m. (m, after redis bs (redis.delete b r).1))
        (add_assoc n (redis.delete b r).0 (sum (counts redis bs (redis.delete b r).1)))
  where
    add_assoc : (a b c : ℕ) → a + b + c ≡ a + (b + c)
    add_assoc a b c = omega arith

-- From a batch that is not full, the loop deletes that batch and the keys to come: their sequence
-- is cut into batches of one to a hundred keys, in order, which are deleted one after the other.
delete_keys_batches :
    {R : Type 0} (redis : RedisLike R) (keys batch : List String) (done : ℕ × R)
    → length batch < 100
    → (bs : List (List String)) × (concat bs ≡ batch ++ keys)
      × AreBatches bs
      × (delete_keys redis keys batch done ≡ delete_all redis bs done)
unfolding delete_keys
delete_keys_batches redis [] [] done h = ([], refl, tt, refl)
delete_keys_batches redis [] (b ∷ batch) done h =
    ((b ∷ batch) ∷ [], refl, ((omega arith, omega arith), tt), refl)
delete_keys_batches redis (k ∷ keys) batch done h =
    let filled = batch ++ (k ∷ []) in
    let size = length-append batch (k ∷ []) in
    elim (Bool-cases (length (batch ++ (k ∷ [])) == 100)) [
      | inl y ↦
          let (bs, c, a, d) =
            delete_keys_batches redis keys [] (delete_batch redis (batch ++ (k ∷ [])) done)
              (omega arith) in
          (
            (batch ++ (k ∷ [])) ∷ bs,
            ap (λ l. (batch ++ (k ∷ [])) ++ l) c ∙ append_assoc batch (k ∷ []) keys,
            ((ground arith, ground arith), a),
            ap
                  (λ t.
                    delete_keys redis keys (if t then [] else filled)
                      (if t then delete_batch redis filled done else done))
                  y
                ∙ d,
          )
      | inr n ↦
          let (bs, c, a, d) =
            delete_keys_batches redis keys (batch ++ (k ∷ [])) done (ground arith) in
          (
            bs,
            c ∙ append_assoc batch (k ∷ []) keys,
            a,
            ap
                  (λ t.
                    delete_keys redis keys (if t then [] else filled)
                      (if t then delete_batch redis filled done else done))
                  n
                ∙ d,
          )
    ]

from_zero : (n : ℕ) → 0 + n ≡ n
from_zero n = omega arith

-- With a valid version, the invalidation cuts the keys of the scan into batches of one to a hundred
-- keys, in order and without omission, deletes them one batch after the other, and returns the sum
-- of what each deletion reports; with any other version it raises.
pub invalidate_deletes_scan :
    {R : Type 0} (redis : RedisLike R) (version : String) (r : R)
    → (valid_segment version ≡ true
        → (bs : List (List String)) × (concat bs ≡ redis.scan version)
          × AreBatches bs
          × (invalidate_index_cache redis version r
              ≡ some (sum (counts redis bs r), after redis bs r)))
      × (valid_segment version ≡ false → invalidate_index_cache redis version r ≡ none)
unfolding invalidate_index_cache
invalidate_deletes_scan redis version r = (
  λ v.
      let (bs, c, a, d) = delete_keys_batches redis (redis.scan version) [] (0, r) (omega arith) in
      (
        bs,
        c,
        a,
        ap (λ t. if t then some (delete_keys redis (redis.scan version) [] (0, r)) else none) v
            ∙ ap some (
                d
                ∙ delete_all_lem redis bs 0 r
                ∙ ap (λ n. (n, after redis bs r)) (from_zero (sum (counts redis bs r)))),
      ),
  λ v. ground arith,
)
