-- ===== src/Corpus/Spans.antt =====
-- Where the tokens of a text stand.
use aquaops_copilot.Common.{
  ℕ, ◌+◌, ◌≤◌, ◌<◌, ◌≡◌, refl, true, false, Option, none, some, List, [], ◌∷◌, arith, length,
  if◌then◌else◌,
}
use aquaops_copilot.Common.Text.{is_space}
use aquaops_copilot.Corpus.Reading.{Text}
use aquaops_copilot.Corpus.Tokens.{
  TokenSpan, token_spans, token_spans_from, is_word, open_word, close_word,
}

-- Spans that follow one another between two positions, none empty.
abbrev pub InOrder : ℕ → ℕ → List TokenSpan → Type 0
InOrder lo hi [] = lo ≤ hi
InOrder lo hi (t ∷ ts) = (lo ≤ t.start) × (t.start < t.end) × InOrder t.end hi ts

InOrder-from :
    (lo lo' hi : ℕ) (ts : List TokenSpan) → lo ≤ lo' → InOrder lo' hi ts → InOrder lo hi ts
InOrder-from lo lo' hi [] le o = omega arith
InOrder-from lo lo' hi (t ∷ ts) le (a, b, c) = (omega arith, b, c)

-- Where the spans may begin: at the open word, or here.
abbrev from_word : Option ℕ → ℕ → ℕ
from_word none pos = pos
from_word (some start) pos = start

abbrev Before : Option ℕ → ℕ → Type 0
Before none pos = Unit
Before (some start) pos = start < pos

close_word-InOrder :
    (word : Option ℕ) (pos lo hi : ℕ) (ts : List TokenSpan)
    → Before word pos
    → pos ≤ lo
    → InOrder lo hi ts
    → InOrder (from_word word pos) hi (close_word word pos ts)
close_word-InOrder none pos lo hi ts b le o = InOrder-from pos lo hi ts le o
close_word-InOrder (some start) pos lo hi ts b le o =
    (omega arith, b, InOrder-from pos lo hi ts le o)

token_spans_from-InOrder :
    (word : Option ℕ) (pos hi : ℕ) (cs : Text)
    → Before word pos
    → pos + length cs ≡ hi
    → InOrder (from_word word pos) hi (token_spans_from word pos cs)
unfolding token_spans_from
token_spans_from-InOrder word pos hi [] b e =
    close_word-InOrder word pos pos hi [] b (omega arith) (omega arith)
token_spans_from-InOrder word pos hi (c ∷ cs) b e =
    let inside =
      token_spans_from-InOrder (open_word word pos) (pos + 1) hi cs (opened word b) (omega arith) in
    let outside = token_spans_from-InOrder none (pos + 1) hi cs tt (omega arith) in
    elim (is_word c)
      as (λ w. InOrder (from_word word pos) hi (
        if w
        then token_spans_from (if w then open_word word pos else none) (pos + 1) cs
        else close_word word pos (
            if is_space c
            then token_spans_from (if w then open_word word pos else none) (pos + 1) cs
            else record { start = pos; end = pos + 1 }
              ∷ token_spans_from (if w then open_word word pos else none) (pos + 1) cs))) [
                | true ↦ within word inside
                | false ↦
                    elim (is_space c)
                      as (λ s. InOrder (from_word word pos) hi (
                        close_word word pos (
                          if s
                          then token_spans_from none (pos + 1) cs
                          else record { start = pos; end = pos + 1 }
                            ∷ token_spans_from none (pos + 1) cs))) [
                              | true ↦
                                  close_word-InOrder word pos (pos + 1) hi
                                    (token_spans_from none (pos + 1) cs) b (omega arith) outside
                              | false ↦
                                  close_word-InOrder word pos pos hi
                                    (record { start = pos; end = pos + 1 }
                                      ∷ token_spans_from none (pos + 1) cs)
                                    b (omega arith) (omega arith, omega arith, outside)
                            ]
              ]
  where
    opened : (o : Option ℕ) → Before o pos → Before (open_word o pos) (pos + 1)
    opened none u = omega arith
    opened (some start) u = omega arith

    within :
        (o : Option ℕ)
        → InOrder
            (from_word (open_word o pos) (pos + 1))
            hi
            (token_spans_from (open_word o pos) (pos + 1) cs)
        → InOrder (from_word o pos) hi (token_spans_from (open_word o pos) (pos + 1) cs)
    within none i = i
    within (some start) i = i

-- The tokens of a text stand in it one after the other, none empty and none beyond its ends.
pub token_spans-InOrder :
    (text : Text) (offset : ℕ) → InOrder offset (offset + length text) (token_spans text offset)
unfolding token_spans
token_spans-InOrder text offset =
    token_spans_from-InOrder none offset (offset + length text) text tt refl
