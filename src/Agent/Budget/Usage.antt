-- ===== src/Agent/Budget/Usage.antt =====
-- The usage dictionary: what replacing a count and sorting do to lookups, sums and validity.
use mathlib.Core.List.{append-nil, append_assoc}
use aquaops_copilot.Common.{
  ℕ, ◌+◌, ◌≤◌, String, ◌≡◌, refl, sym, ap, ◌∙◌, Bool, true, false, ◌||◌, List, [], ◌∷◌, ◌++◌,
  if◌then◌else◌, str_eq, contains, arith, eq_iff, eq_refl,
}
use aquaops_copilot.Agent.Budget.{
  Usage, registered, get_count, put_count, dict_from, insert_sorted, sort_usage, sum_counts,
  usage_valid,
}

-- Is the name counted?
get_key : String → Usage → Bool
get_key k [] = false
get_key k ((j, n) ∷ m) = str_eq j k || get_key k m

-- Validity depends on which names were seen only.
usage_valid_congr :
    (s t : List String) (m : Usage)
    → ((j : String) → contains s j ≡ contains t j)
    → usage_valid s m ≡ usage_valid t m
unfolding usage_valid
usage_valid_congr s t [] h = refl
usage_valid_congr s t ((k, n) ∷ m) h =
    ground (arith, h k, usage_valid_congr (k ∷ s) (k ∷ t) m (λ j. ap (λ b. str_eq k j || b) (h j)))

usage_valid_swap :
    (j k : String) (s : List String) (m : Usage)
    → usage_valid (j ∷ k ∷ s) m ≡ usage_valid (k ∷ j ∷ s) m
usage_valid_swap j k s m =
    usage_valid_congr (j ∷ k ∷ s) (k ∷ j ∷ s) m
      (λ i. or_swap (str_eq j i) (str_eq k i) (contains s i))
  where
    or_swap : (a b c : Bool) → (a || (b || c)) ≡ (b || (a || c))
    or_swap a b c = ground arith

pub usage_valid-insert_sorted :
    (s : List String) (k : String) (n : ℕ) (m : Usage)
    → usage_valid s (insert_sorted (k, n) m) ≡ usage_valid s ((k, n) ∷ m)
unfolding usage_valid insert_sorted
usage_valid-insert_sorted s k n [] = refl
usage_valid-insert_sorted s k n ((j, c) ∷ m) = ground (
  arith,
  usage_valid-insert_sorted (j ∷ s) k n m,
  usage_valid_swap j k s m,
  eq_iff j k,
  eq_iff k j,
)

pub usage_valid-sort_usage :
    (s : List String) (m : Usage) → usage_valid s (sort_usage m) ≡ usage_valid s m
unfolding sort_usage usage_valid
usage_valid-sort_usage s [] = refl
usage_valid-sort_usage s ((k, n) ∷ m) =
    usage_valid-insert_sorted s k n (sort_usage m)
    ∙ ground (arith, usage_valid-sort_usage (k ∷ s) m)

pub usage_valid-put_count :
    (s : List String) (k : String) (n : ℕ) (m : Usage)
    → usage_valid s m ≡ true
    → registered k ≡ true
    → contains s k ≡ false
    → n ≤ 2
    → usage_valid s (put_count k n m) ≡ true
unfolding usage_valid put_count
usage_valid-put_count s k n [] v r c b = ground arith
usage_valid-put_count s k n ((j, d) ∷ m) v r c b =
    ground (arith, usage_valid-put_count (j ∷ s) k n m, eq_iff j k)

sum_counts-insert_sorted :
    (k : String) (n : ℕ) (m : Usage) → sum_counts (insert_sorted (k, n) m) ≡ n + sum_counts m
unfolding insert_sorted sum_counts
sum_counts-insert_sorted k n [] = refl
sum_counts-insert_sorted k n ((j, c) ∷ m) = ground (arith, sum_counts-insert_sorted k n m)

pub sum_counts-sort_usage : (m : Usage) → sum_counts (sort_usage m) ≡ sum_counts m
unfolding sort_usage sum_counts
sum_counts-sort_usage [] = refl
sum_counts-sort_usage ((k, n) ∷ m) =
    sum_counts-insert_sorted k n (sort_usage m) ∙ ap (λ (x : ℕ). n + x) (sum_counts-sort_usage m)

-- One more call of a tool is one more call.
pub sum_counts-put_count :
    (k : String) (m : Usage) → sum_counts (put_count k (get_count k m + 1) m) ≡ sum_counts m + 1
unfolding put_count get_count sum_counts
sum_counts-put_count k [] = omega arith
sum_counts-put_count k ((j, c) ∷ m) = ground (arith, sum_counts-put_count k m)

pub get_count-put_count :
    (k j : String) (n : ℕ) (m : Usage)
    → get_count j (put_count k n m) ≡ (if str_eq k j then n else get_count j m)
unfolding put_count get_count
get_count-put_count k j n [] = refl
get_count-put_count k j n ((i, c) ∷ m) =
    ground (arith, get_count-put_count k j n m, eq_iff i k, eq_iff i j, eq_iff k j)

-- A name that was seen is not counted again.
get_key-seen :
    (k : String) (s : List String) (m : Usage)
    → usage_valid s m ≡ true
    → contains s k ≡ true
    → get_key k m ≡ false
unfolding usage_valid get_key
get_key-seen k s [] v c = refl
get_key-seen k s ((j, n) ∷ m) v c = ground (arith, get_key-seen k (j ∷ s) m, eq_iff j k)

get_count-insert_sorted :
    (k j : String) (n : ℕ) (m : Usage)
    → get_key k m ≡ false
    → get_count j (insert_sorted (k, n) m) ≡ get_count j ((k, n) ∷ m)
unfolding insert_sorted get_count get_key
get_count-insert_sorted k j n [] v = refl
get_count-insert_sorted k j n ((i, c) ∷ m) v =
    ground (arith, get_count-insert_sorted k j n m, eq_iff i j, eq_iff k j, eq_iff i k)

valid-tail :
    (s : List String) (k : String) (n : ℕ) (m : Usage)
    → usage_valid s ((k, n) ∷ m) ≡ true
    → usage_valid (k ∷ s) m ≡ true
unfolding usage_valid
valid-tail s k n m v = ground arith

get_count-cons :
    (j k : String) (n : ℕ) (m m' : Usage)
    → get_count j m ≡ get_count j m'
    → get_count j ((k, n) ∷ m) ≡ get_count j ((k, n) ∷ m')
unfolding get_count
get_count-cons j k n m m' h = ground arith

pub get_count-sort_usage :
    (j : String) (s : List String) (m : Usage)
    → usage_valid s m ≡ true
    → get_count j (sort_usage m) ≡ get_count j m
unfolding sort_usage
get_count-sort_usage j s [] v = refl
get_count-sort_usage j s ((k, n) ∷ m) v =
    let rest = valid-tail s k n m v in
    get_count-insert_sorted k j n (sort_usage m) (
      get_key-seen k (k ∷ s) (sort_usage m) (usage_valid-sort_usage (k ∷ s) m ∙ rest)
        (ground (arith, eq_refl k)))
    ∙ get_count-cons j k n (sort_usage m) m (get_count-sort_usage j (k ∷ s) m rest)

put_count-fresh :
    (k : String) (n : ℕ) (acc : Usage)
    → get_key k acc ≡ false
    → put_count k n acc ≡ acc ++ (k, n) ∷ []
unfolding put_count get_key
put_count-fresh k n [] h = refl
put_count-fresh k n ((j, c) ∷ acc) h = ground (arith, put_count-fresh k n acc)

get_key-snoc :
    (j k : String) (n : ℕ) (acc : Usage)
    → get_key j (acc ++ (k, n) ∷ []) ≡ (str_eq k j || get_key j acc)
unfolding get_key
get_key-snoc j k n [] = ground arith
get_key-snoc j k n ((i, c) ∷ acc) = ground (arith, get_key-snoc j k n acc)

dict_from-valid :
    (s : List String) (acc m : Usage)
    → ((j : String) → get_key j acc ≡ contains s j)
    → usage_valid s m ≡ true
    → dict_from acc m ≡ acc ++ m
unfolding dict_from
dict_from-valid s acc [] h v = sym (append-nil acc)
dict_from-valid s acc ((k, n) ∷ m) h v = rw (put_count-fresh k n acc (h k ∙ unseen s k n m v)) (
    dict_from-valid (k ∷ s) (acc ++ (k, n) ∷ []) m
      (λ j. get_key-snoc j k n acc ∙ ap (λ b. str_eq k j || b) (h j)) (valid-tail s k n m v)
    ∙ append_assoc acc ((k, n) ∷ []) m)
  where
    unseen :
        (s : List String) (k : String) (n : ℕ) (m : Usage)
        → usage_valid s ((k, n) ∷ m) ≡ true
        → contains s k ≡ false
    unseen s k n m v = unfold usage_valid in ground arith

-- `dict(pairs)` of a valid usage is the usage itself.
pub dict_from_nil : (m : Usage) → usage_valid [] m ≡ true → dict_from [] m ≡ m
dict_from_nil m v = dict_from-valid [] [] m (λ j. unfold get_key in refl) v

-- A valid usage counts at most two calls of any tool.
pub get_count-le :
    (k : String) (s : List String) (m : Usage) → usage_valid s m ≡ true → get_count k m ≤ 2
unfolding usage_valid get_count
get_count-le k s [] v = omega arith
get_count-le k s ((j, n) ∷ m) v = ground (arith, get_count-le k (j ∷ s) m)
