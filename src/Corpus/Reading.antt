-- ===== src/Corpus/Reading.antt =====
-- public_corpus.py: lines, headings, sections, paragraphs, sentences and tables of a text, which is
-- a list of code points. A span of a text is its start and what it holds.
use mathlib.Core.List.{reverse}
use aquaops_copilot.Common.{
  ℕ, zero, suc, ◌+◌, ◌-◌, Bool, true, false, ◌&&◌, ◌||◌, not, Option, none, some, List, [], ◌∷◌,
  ◌++◌, if◌then◌else◌, ◌==◌, ltb, leb, length, take, all, any,
}
use aquaops_copilot.Common.Text.{is_space, is_blank, lstrip, strip, between}

abbrev pub Text : Type 0
Text = List ℕ

abbrev pub newline : ℕ
newline = 10

abbrev nonempty : Text → Bool
nonempty [] = false
nonempty (c ∷ cs) = true

-- Where `str.splitlines` breaks a line; a carriage return takes a line feed with it.
abbrev is_line_break : ℕ → Bool
is_line_break c = between 10 13 c || between 28 30 c || c == 133 || c == 8232 || c == 8233

unfoldable pub split_from : Bool → Text → Text → List Text
split_from after_cr line [] = if nonempty line then reverse line ∷ [] else []
split_from after_cr line (c ∷ cs) =
    let skipped = after_cr && c == newline in
    let breaks = is_line_break c && not skipped in
    let rest = split_from (breaks && c == 13) (if skipped || breaks then [] else c ∷ line) cs in
    if breaks then reverse line ∷ rest else rest

unfoldable pub splitlines : Text → List Text
unfolding split_from
splitlines = split_from false []

unfoldable pub drop_hashes : Text → Text
drop_hashes [] = []
drop_hashes (c ∷ cs) = if c == b'#' then drop_hashes cs else c ∷ cs

-- `\s*#*\s*$`
abbrev closes_heading : Text → Bool
closes_heading cs = is_blank (drop_hashes (lstrip cs))

-- `(.+?)` before it
unfoldable pub heading_title : Text → Text
unfolding drop_hashes
heading_title [] = []
heading_title (c ∷ cs) =
    let rest = heading_title cs in if closes_heading cs then c ∷ [] else c ∷ rest

unfoldable pub titled : ℕ → Text → Text → Option (ℕ × Text)
unfolding heading_title
titled level spaces [] = if ltb (length spaces) 2 then none else some (level, [])
titled level spaces (c ∷ cs) = some (level, strip (heading_title (c ∷ cs)))

abbrev spaced : ℕ → Text → Option (ℕ × Text)
spaced level [] = none
spaced level (c ∷ cs) = if is_space c then titled level (c ∷ cs) (lstrip cs) else none

-- `_HEADING.match`: the level and the stripped title
unfoldable pub heading_from : ℕ → Text → Option (ℕ × Text)
unfolding titled
heading_from level [] = none
heading_from level (c ∷ cs) =
    let more = heading_from (level + 1) cs in
    if c == b'#' then more else if between 1 6 level then spaced level (c ∷ cs) else none

abbrev pub heading : Text → Option (ℕ × Text)
heading = heading_from 0

-- "\n".join(lines)
unfoldable pub join_lines : List Text → Text
join_lines [] = []
join_lines (line ∷ []) = line
join_lines (line ∷ (next ∷ lines)) = line ++ (newline ∷ join_lines (next ∷ lines))

abbrev pub Section : Type 0
Section = List Text × Text

-- `finish`
unfoldable pub finish : List Text → List Text → List Section
unfolding join_lines
finish path body =
    let content = strip (join_lines (reverse body)) in
    if nonempty content then (path, content) ∷ [] else []

-- `hierarchy[level - 1 :] = [title]`
abbrev nested : List Text → ℕ → Text → List Text
nested hierarchy level title = take (level - 1) hierarchy ++ (title ∷ [])

abbrev path_after : Option (ℕ × Text) → List Text → List Text
path_after none hierarchy = hierarchy
path_after (some (level, title)) hierarchy = nested hierarchy level title

abbrev body_after : Option (ℕ × Text) → Text → List Text → List Text
body_after none line body = line ∷ body
body_after (some h) line body = []

abbrev finished_by : Option (ℕ × Text) → List Section → List Section
finished_by none done = []
finished_by (some h) done = done

-- The loop over the lines. The path is the hierarchy of headings, and the lines of the body stand
-- last first.
unfoldable pub sections_from : List Text → List Text → List Text → List Section
unfolding finish heading_from
sections_from path body [] = finish path body
sections_from path body (line ∷ lines) =
    let h = heading line in
    finished_by h (finish path body)
    ++ sections_from (path_after h path) (body_after h line body) lines

unfoldable pub sections : Text → List Section
unfolding sections_from splitlines
sections text = sections_from [] [] (splitlines text)

abbrev pub Span : Type 0
Span = ℕ × Text

-- `_trim_span`
abbrev pub trim_span : Span → Span
trim_span (start, cs) = (start + (length cs - length (lstrip cs)), strip cs)

-- The length of `[ \t]*\n` at the front.
unfoldable pub blank_line : ℕ → Text → Option ℕ
blank_line n [] = none
blank_line n (c ∷ cs) =
    let more = blank_line (n + 1) cs in
    if c == newline then some (n + 1) else if c == b' ' || c == 9 then more else none

abbrev kept_span : Span → List Span → List Span
kept_span (start, []) spans = spans
kept_span (start, c ∷ cs) spans = (start, c ∷ cs) ∷ spans

abbrev separator_at : ℕ → Text → Option ℕ
separator_at c cs = if c == newline then blank_line 0 cs else none

abbrev skip_after : Option ℕ → ℕ
skip_after none = 0
skip_after (some n) = n

abbrev taken_after : Option ℕ → ℕ → Text → Text
taken_after none c taken = c ∷ taken
taken_after (some n) c taken = []

abbrev ended_by : Option ℕ → Span → List Span → List Span
ended_by none span spans = spans
ended_by (some n) span spans = kept_span (trim_span span) spans

-- `_paragraph_spans` at the position `pos`: the paragraph begins at `start`, of which `taken` is
-- read, last first, and `skip` code points of a separator are still to come.
unfoldable pub paragraphs_from : ℕ → ℕ → Text → ℕ → Text → List Span
paragraphs_from pos start taken skip [] = kept_span (trim_span (start, reverse taken)) []
paragraphs_from pos start taken (suc skip) (c ∷ cs) = paragraphs_from (pos + 1) (pos + 1) [] skip cs
paragraphs_from pos start taken zero (c ∷ cs) =
    let separator = separator_at c cs in
    ended_by separator (start, reverse taken)
      (paragraphs_from (pos + 1) start (taken_after separator c taken) (skip_after separator) cs)

unfoldable pub paragraph_spans : Text → List Span
unfolding paragraphs_from blank_line
paragraph_spans = paragraphs_from 0 0 [] 0

-- `[.!?。！？]`
abbrev is_sentence_end : ℕ → Bool
is_sentence_end c = c == b'.' || c == b'!' || c == b'?' || c == 12290 || c == 65281 || c == 65311

-- `_SENTENCES.finditer`: a sentence has a code point before its mark.
unfoldable pub sentences_from : ℕ → ℕ → Text → Text → List Span
sentences_from pos start taken [] = if nonempty taken then (start, reverse taken) ∷ [] else []
sentences_from pos start taken (c ∷ cs) =
    let ends = nonempty taken && is_sentence_end c in
    let rest =
      sentences_from (pos + 1) (if ends then pos + 1 else start) (if ends then [] else c ∷ taken)
        cs in
    if ends then (start, reverse (c ∷ taken)) ∷ rest else rest

unfoldable pub sentence_spans : Text → List Span
unfolding sentences_from
sentence_spans = sentences_from 0 0 []

abbrev drop_colon : Text → Text
drop_colon [] = []
drop_colon (c ∷ cs) = if c == b':' then cs else c ∷ cs

-- `-{3,}`, when `n` dashes are read
unfoldable pub dashes : ℕ → Text → Option Text
dashes n [] = if leb 3 n then some [] else none
dashes n (c ∷ cs) =
    let more = dashes (n + 1) cs in
    if c == b'-' then more else if leb 3 n then some (c ∷ cs) else none

abbrev cell_end : Option Text → Option Text
cell_end none = none
cell_end (some cs) = some (lstrip (drop_colon cs))

-- `\s*:?-{3,}:?\s*`
abbrev table_cell : Text → Option Text
table_cell cs = cell_end (dashes 0 (drop_colon (lstrip cs)))

-- `(?:\|…)+\|?\s*$`, when `seen` says whether there was a further cell; each cell is shorter than
-- what is left, so the length of the line is fuel enough.
unfoldable pub more_cells : ℕ → Bool → Text → Bool
more_cells zero seen cs = false
more_cells (suc fuel) seen [] = seen
more_cells (suc fuel) seen (c ∷ cs) =
    let next : Bool = elim (table_cell cs) [
      | none ↦ seen && is_blank cs
      | some rest ↦ more_cells fuel true rest
    ] in
    if c == b'|' then next else false

abbrev drop_bar : Text → Text
drop_bar [] = []
drop_bar (c ∷ cs) = if c == b'|' then cs else c ∷ cs

abbrev after_first_cell : Text → Option Text → Bool
after_first_cell line none = false
after_first_cell line (some rest) = more_cells (length line) false rest

-- `_TABLE_SEPARATOR.match`
unfoldable pub is_table_separator : Text → Bool
unfolding more_cells dashes
is_table_separator line = after_first_cell line (table_cell (drop_bar (lstrip line)))

abbrev starts_with_bar : Text → Bool
starts_with_bar [] = false
starts_with_bar (c ∷ cs) = c == b'|'

abbrev not_blank : List Text → List Text
not_blank [] = []
not_blank (line ∷ lines) = if is_blank line then not_blank lines else line ∷ not_blank lines

abbrev some_lines : List Text → Bool
some_lines [] = false
some_lines (line ∷ lines) = true

unfoldable pub is_table : Text → Bool
unfolding splitlines is_table_separator
is_table block =
    let lines = not_blank (splitlines block) in
    some_lines lines
    && (all (λ line. starts_with_bar (lstrip line)) lines || any is_table_separator lines)
