-- ===== src/Corpus/Tokens.antt =====
-- public_corpus.py: `_token_spans`.
use aquaops_copilot.Common.{
  ℕ, ◌+◌, Bool, ◌||◌, Option, none, some, List, [], ◌∷◌, if◌then◌else◌, ◌==◌,
}
use aquaops_copilot.Common.Text.{is_space, is_alnum}
use aquaops_copilot.Corpus.Reading.{Text}

-- The start and the end of a token; its text is what stands between them.
pub record TokenSpan : Type 0 where
  pub start : ℕ
  pub end : ℕ

abbrev pub is_word : ℕ → Bool
is_word c = is_alnum c || c == b'_'

abbrev pub close_word : Option ℕ → ℕ → List TokenSpan → List TokenSpan
close_word none pos spans = spans
close_word (some start) pos spans = record { start = start; end = pos } ∷ spans

abbrev pub open_word : Option ℕ → ℕ → Option ℕ
open_word none pos = some pos
open_word (some start) pos = some start

-- The matches of `_TOKENS` from the position `pos`, when `word` is the start of a run of word characters that
-- ends here. A character of a CJK script is a token of its own, like any other that is no space.
unfoldable pub token_spans_from : Option ℕ → ℕ → Text → List TokenSpan
token_spans_from word pos [] = close_word word pos []
token_spans_from word pos (c ∷ cs) =
    let rest = token_spans_from (if is_word c then open_word word pos else none) (pos + 1) cs in
    if is_word c
    then rest
    else close_word word pos
        (if is_space c then rest else record { start = pos; end = pos + 1 } ∷ rest)

-- `_token_spans(text, offset)`
unfoldable pub token_spans : Text → ℕ → List TokenSpan
unfolding token_spans_from
token_spans text offset = token_spans_from none offset text
