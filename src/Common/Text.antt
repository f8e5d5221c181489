-- ===== src/Common/Text.antt =====
-- Texts as code points, and the patterns of the program's regular expressions.
use Prim.Native.Nat.{ℕ}
use Prim.Native.Char.{code}
use Prim.Native.String.{String}
use mathlib.Core.Bool.{Bool, false, ◌&&◌, ◌||◌}
use mathlib.Core.List.{List, [], ◌∷◌, reverse}
use aquaops_copilot.Common.Tests.{leb, ◌==◌, if◌then◌else◌}
use aquaops_copilot.Common.Lists.{length, all}

abbrev pub codes : String → List ℕ
codes String.[] = []
codes (String.◌∷◌ c s) = code c ∷ codes s

-- len(s)
abbrev pub len : String → ℕ
len s = length (codes s)

abbrev pub between : ℕ → ℕ → ℕ → Bool
between lo hi c = leb lo c && leb c hi

abbrev pub is_lower : ℕ → Bool
is_lower c = between b'a' b'z' c

abbrev pub is_upper : ℕ → Bool
is_upper c = between b'A' b'Z' c

abbrev pub is_digit : ℕ → Bool
is_digit c = between b'0' b'9' c

abbrev pub is_alnum : ℕ → Bool
is_alnum c = is_lower c || is_upper c || is_digit c

abbrev pub is_lower_hex : ℕ → Bool
is_lower_hex c = is_digit c || between b'a' b'f' c

-- `first rest{lo,hi}` matched against the whole text.
abbrev pub head_tail : (ℕ → Bool) → (ℕ → Bool) → ℕ → ℕ → List ℕ → Bool
head_tail first rest lo hi [] = false
head_tail first rest lo hi (c ∷ cs) = first c && all rest cs && between lo hi (length cs)

-- What `str.isspace` holds of, one code point at a time.
abbrev pub is_space : ℕ → Bool
is_space c =
    between 9 13 c
    || between 28 32 c
    || c == 133
    || c == 160
    || c == 5760
    || between 8192 8202 c
    || c == 8232
    || c == 8233
    || c == 8239
    || c == 8287
    || c == 12288

pub lstrip : List ℕ → List ℕ
lstrip [] = []
lstrip (c ∷ cs) = if is_space c then lstrip cs else c ∷ cs

-- str.strip()
unfoldable pub strip : List ℕ → List ℕ
unfolding lstrip
strip cs = reverse (lstrip (reverse (lstrip cs)))

abbrev pub is_blank : List ℕ → Bool
is_blank cs = all is_space cs
