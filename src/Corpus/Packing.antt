-- ===== src/Corpus/Packing.antt =====
-- public_corpus.py: the loop of `chunk_public_document` over the segments of one section.
use aquaops_copilot.Common.{
  ℕ, zero, suc, ◌+◌, ◌-◌, Bool, true, false, ◌||◌, not, List, [], ◌∷◌, ◌++◌, if◌then◌else◌, ◌==◌,
  ltb, leb, length, take, drop,
}

pub record Limits : Type 0 where
  pub max_tokens : ℕ
  pub overlap_tokens : ℕ

module _ {T : Type 0} where
  abbrev pub is_empty : List T → Bool
  is_empty [] = true
  is_empty (x ∷ xs) = false

  -- `xs[-n:]`, for n > 0
  abbrev pub last_n : ℕ → List T → List T
  last_n n xs = drop (length xs - n) xs

-- `_Segment`
pub record Segment (T : Type 0) : Type 0 where
  pub tokens : List T
  pub is_table : Bool

-- The variables of the loop. A chunk is the list of its tokens.
pub record Packing (T : Type 0) : Type 0 where
  pub output : List (List T)
  pub current : List T
  pub current_has_table : Bool
  pub previous : List T
  pub previous_can_overlap : Bool

module _ {T : Type 0} (l : Limits) where
  abbrev pub start : Packing T
  start = record {
    output = [];
    current = [];
    current_has_table = false;
    previous = [];
    previous_can_overlap = false;
  }

  unfoldable pub emit : List T → Bool → Packing T → Packing T
  emit tokens has_table s = if is_empty tokens then s else record s {
    output = s.output ++ (tokens ∷ []);
    previous = tokens;
    previous_can_overlap = not has_table;
  }

  -- The end of the previous chunk, if there is one that may overlap.
  abbrev pub carried : Packing T → List T
  carried s =
      if l.overlap_tokens == 0 || not s.previous_can_overlap
      then []
      else last_n l.overlap_tokens s.previous

  unfoldable pub overlap_prefix : Segment T → Packing T → List T
  overlap_prefix g s =
      if leb (length (carried s) + length g.tokens) l.max_tokens then carried s else []

  -- `while consumed < len(segment.tokens)`, on the tokens that are left; each round consumes one
  -- at least, so their number is fuel enough.
  unfoldable pub split_long : ℕ → List T → List T → Packing T → Packing T
  split_long zero rest carry s = s
  split_long (suc fuel) [] carry s = s
  split_long (suc fuel) (t ∷ rest) carry s =
      let capacity = l.max_tokens - length carry in
      let new_tokens = take capacity (t ∷ rest) in
      let s' = emit (carry ++ new_tokens) false s in
      let carry' = if l.overlap_tokens == 0 then [] else last_n l.overlap_tokens s'.previous in
      let done = split_long fuel (drop capacity (t ∷ rest)) carry' s' in
      if is_empty new_tokens then s else done

  -- Before a segment that is too long, the current chunk is closed.
  abbrev pub closed : Packing T → Packing T
  closed s =
      if is_empty s.current
      then s
      else record (emit s.current s.current_has_table s) { current = []; current_has_table = false }

  abbrev pub open_with : Segment T → Packing T → Packing T
  open_with g s = record s {
    current = overlap_prefix g s ++ g.tokens;
    current_has_table = g.is_table;
  }

  unfoldable pub pack_segment : Segment T → Packing T → Packing T
  unfolding split_long
  pack_segment g s =
      if ltb l.max_tokens (length g.tokens)
      then split_long (length g.tokens) g.tokens (carried (closed s)) (closed s)
      else if is_empty s.current
      then open_with g s
      else if leb (length s.current + length g.tokens) l.max_tokens
      then record s {
        current = s.current ++ g.tokens;
        current_has_table = s.current_has_table || g.is_table;
      }
      else open_with g (emit s.current s.current_has_table s)

  unfoldable pub pack_segments : List (Segment T) → Packing T → Packing T
  pack_segments [] s = s
  pack_segments (g ∷ gs) s = pack_segments gs (pack_segment g s)

  -- The chunks of one section.
  unfoldable pub pack : List (Segment T) → List (List T)
  pack gs = let s = pack_segments gs start in (emit s.current s.current_has_table s).output
