-- ===== src/Tasks/Identifiers.antt =====
-- jobs.py: the patterns of the identifiers in a message.
use aquaops_copilot.Common.{
  ℕ, String, Bool, ◌&&◌, ◌||◌, ◌==◌, List, [], ◌∷◌, all, length, take, drop,
}
use aquaops_copilot.Common.Text.{
  codes, head_tail, is_alnum, is_lower, is_digit, is_lower_hex, between,
}

-- _SAFE_SOURCE_ID = [a-z][a-z0-9-]{2,63}
unfoldable pub is_safe_source_id : String → Bool
is_safe_source_id s = head_tail is_lower (λ c. is_lower c || is_digit c || c == b'-') 2 63 (codes s)

-- _SAFE_WORKER_TOKEN = [A-Za-z0-9][A-Za-z0-9._-]{0,79}
unfoldable pub is_safe_worker_token : String → Bool
is_safe_worker_token s =
    head_tail is_alnum (λ c. is_alnum c || c == b'.' || c == b'_' || c == b'-') 0 79 (codes s)

-- The text begins with `n` characters of the class, and the rest passes.
group : ℕ → (ℕ → Bool) → (List ℕ → Bool) → List ℕ → Bool
group n is_in rest cs = all is_in (take n cs) && length (take n cs) == n && rest (drop n cs)

abbrev dash : (List ℕ → Bool) → List ℕ → Bool
dash rest [] = Bool.false
dash rest (c ∷ cs) = c == b'-' && rest cs

abbrev ends : List ℕ → Bool
ends [] = Bool.true
ends (_ ∷ _) = Bool.false

-- _SAFE_UUID: 8-4-4-4-12 lowercase hexadecimal digits, version 1 to 5, variant 8, 9, a or b
unfoldable pub is_safe_uuid : String → Bool
unfolding group
is_safe_uuid s =
    group 8 is_lower_hex
      (dash (
        group 4 is_lower_hex (
          dash (
            group 1 (between b'1' b'5') (
              group 3 is_lower_hex (
                dash (
                  group 1 (λ c. c == b'8' || c == b'9' || c == b'a' || c == b'b')
                    (group 3 is_lower_hex (dash (group 12 is_lower_hex ends))))))))))
      (codes s)
