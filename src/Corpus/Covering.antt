-- ===== src/Corpus/Covering.antt =====
-- The chunks of a section hold its tokens in order, with bounded overlaps.
use mathlib.Core.Path.{subst}
use mathlib.Core.List.{append_assoc, append-nil}
use aquaops_copilot.Common.{
  ℕ, zero, suc, ◌+◌, ◌-◌, ◌≤◌, ◌<◌, ◌≡◌, refl, sym, ap, ◌∙◌, inl, inr, Bool, true, false, ◌||◌,
  List, [], ◌∷◌, ◌++◌, map, if◌then◌else◌, ◌==◌, ltb, leb, length, take, drop, length-append,
  Bool-cases, arith, leb→le,
}
use aquaops_copilot.Corpus.Packing.{
  Limits, Segment, Packing, is_empty, last_n, start, emit, carried, overlap_prefix, split_long,
  closed, open_with, pack_segment, pack_segments, pack,
}
use aquaops_copilot.Corpus.Parts.{
  Part, chunk_of, fresh_of, Repeats, AreChunks, Emitted, emit_chunk, carried_lem,
  split_long-Emitted,
}

module _ {T : Type 0} where
  abbrev pub tokens_of : List (Segment T) → List T
  tokens_of [] = []
  tokens_of (g ∷ gs) = g.tokens ++ tokens_of gs

module _ {T : Type 0} (l : Limits) where
  -- Between two segments: the chunks emitted and the open one hold the tokens `seen`.
  record IsPacked (s : Packing T) (seen : List T) : Type 0 where
    out : List T
    emitted : Emitted l s out
    carry : List T
    fresh : List T
    is_current : carry ++ fresh ≡ s.current
    short : length carry ≤ l.overlap_tokens
    repeats : Repeats l s.previous carry
    within : length s.current ≤ l.max_tokens
    is_seen : out ++ fresh ≡ seen

  emit_current :
      (s : Packing T) (seen : List T)
      → IsPacked s seen
      → Emitted l (emit l s.current s.current_has_table s) seen
  emit_current s seen i = subst (Emitted l (emit l s.current s.current_has_table s)) i.is_seen (
      emit_chunk l s i.out i.carry i.fresh s.current s.current_has_table i.emitted i.is_current
        i.within i.short i.repeats)

  overlap_prefix_lem :
      (g : Segment T) (s : Packing T)
      → length g.tokens ≤ l.max_tokens
      → (length (overlap_prefix l g s) ≤ l.overlap_tokens)
        × Repeats l s.previous (overlap_prefix l g s)
        × (length (overlap_prefix l g s ++ g.tokens) ≤ l.max_tokens)
  unfolding overlap_prefix
  overlap_prefix_lem g s small =
      let (short, repeats) = carried_lem l s in
      elim (leb (length (carried l s) + length g.tokens) l.max_tokens)
          as (λ b.
            leb (length (carried l s) + length g.tokens) l.max_tokens ≡ b
            → (length (if b then carried l s else []) ≤ l.overlap_tokens)
              × Repeats l s.previous (if b then carried l s else [])
              × (length ((if b then carried l s else []) ++ g.tokens) ≤ l.max_tokens)) [
                | true ↦ λ y.
                    let fits = leb→le (length (carried l s) + length g.tokens) l.max_tokens y in
                    (short, repeats, omega (arith, fits, length-append (carried l s) g.tokens))
                | false ↦ λ n. (omega arith, inl refl, small)
              ]
        refl

  -- What the loop has emitted does not depend on the open chunk.
  same_output :
      (s s' : Packing T) (out : List T)
      → s'.output ≡ s.output
      → s'.previous ≡ s.previous
      → Emitted l s out
      → Emitted l s' out
  same_output s s' out o p e = record {
    parts = e.parts;
    is_output = o ∙ e.is_output;
    are_chunks = e.are_chunks;
    is_previous = p ∙ e.is_previous;
    is_out = e.is_out;
  }

  open_with-IsPacked :
      (g : Segment T) (s : Packing T) (seen : List T)
      → Emitted l s seen
      → length g.tokens ≤ l.max_tokens
      → IsPacked (open_with l g s) (seen ++ g.tokens)
  open_with-IsPacked g s seen e small =
      let (short, repeats, within) = overlap_prefix_lem g s small in
      record {
        out = seen;
        emitted = same_output s (open_with l g s) seen refl refl e;
        carry = overlap_prefix l g s;
        fresh = g.tokens;
        is_current = refl;
        short = short;
        repeats = repeats;
        within = within;
        is_seen = refl;
      }

  emit_nothing :
      (s : Packing T) (tokens : List T) (b : Bool) → is_empty tokens ≡ true → emit l tokens b s ≡ s
  unfolding emit
  emit_nothing s [] b y = refl
  emit_nothing s (t ∷ tokens) b y = absurd (cc y)

  is_empty_lem : (xs : List T) → is_empty xs ≡ true → [] ≡ xs
  is_empty_lem [] y = refl
  is_empty_lem (x ∷ xs) y = absurd (cc y)

  -- A closed state has emitted all that was seen, and holds no open chunk.
  closed-Emitted :
      (s : Packing T) (seen : List T)
      → IsPacked s seen
      → Emitted l (closed l s) seen × ([] ≡ (closed l s).current)
  closed-Emitted s seen i =
      let e = emit_current s seen i in
      elim (Bool-cases (is_empty s.current)) [
        | inl y ↦ (
          subst (λ o. Emitted l o seen)
              (emit_nothing s s.current s.current_has_table y ∙ ground arith) e,
          is_empty_lem s.current y ∙ ground arith,
        )
        | inr n ↦
            let shut : Packing T = record (emit l s.current s.current_has_table s) {
              current = [];
              current_has_table = false;
            } in
            let same : shut ≡ closed l s = ground arith in
            subst (λ o. Emitted l o seen × ([] ≡ o.current)) same
              (same_output (emit l s.current s.current_has_table s) shut seen refl refl e, refl)
      ]

  emit-current :
      (tokens : List T) (b : Bool) (s : Packing T) → (emit l tokens b s).current ≡ s.current
  unfolding emit
  emit-current tokens b s = ground arith

  split_long-current :
      (fuel : ℕ) (rest carry : List T) (s : Packing T)
      → (split_long l fuel rest carry s).current ≡ s.current
  unfolding split_long
  split_long-current zero rest carry s = refl
  split_long-current (suc fuel) [] carry s = refl
  split_long-current (suc fuel) (t ∷ rest) carry s =
      let new_tokens = take (l.max_tokens - length carry) (t ∷ rest) in
      let s' = emit l (carry ++ new_tokens) false s in
      let later =
        split_long-current fuel (drop (l.max_tokens - length carry) (t ∷ rest))
          (if l.overlap_tokens == 0 then [] else last_n l.overlap_tokens s'.previous) s' in
      let here = emit-current (carry ++ new_tokens) false s in ground arith

  shut-IsPacked : (s : Packing T) (out : List T) → Emitted l s out → [] ≡ s.current → IsPacked s out
  shut-IsPacked s out e c = record {
    out = out;
    emitted = e;
    carry = [];
    fresh = [];
    is_current = c;
    short = omega arith;
    repeats = inl refl;
    within = subst (λ x. length x ≤ l.max_tokens) c (omega arith);
    is_seen = append-nil out;
  }

  split-IsPacked :
      (g : Segment T) (s : Packing T) (seen : List T)
      → l.overlap_tokens < l.max_tokens
      → IsPacked s seen
      → IsPacked
          (split_long l (length g.tokens) g.tokens (carried l (closed l s)) (closed l s))
          (seen ++ g.tokens)
  split-IsPacked g s seen lt i =
      let (e, c) = closed-Emitted s seen i in
      let (short, repeats) = carried_lem l (closed l s) in
      shut-IsPacked (split_long l (length g.tokens) g.tokens (carried l (closed l s)) (closed l s))
        (seen ++ g.tokens)
        (split_long-Emitted l (length g.tokens) g.tokens (carried l (closed l s)) seen (closed l s)
          lt (omega arith) e short repeats)
        (c
          ∙ sym
              (split_long-current (length g.tokens) g.tokens (carried l (closed l s)) (closed l s)))

  extend-IsPacked :
      (g : Segment T) (s : Packing T) (seen : List T)
      → IsPacked s seen
      → length s.current + length g.tokens ≤ l.max_tokens
      → IsPacked
          (record s {
            current = s.current ++ g.tokens;
            current_has_table = s.current_has_table || g.is_table;
          })
          (seen ++ g.tokens)
  extend-IsPacked g s seen i fits = record {
    out = i.out;
    emitted = same_output s _ i.out refl refl i.emitted;
    carry = i.carry;
    fresh = i.fresh ++ g.tokens;
    is_current = sym (append_assoc i.carry i.fresh g.tokens) ∙ ap (λ c. c ++ g.tokens) i.is_current;
    short = i.short;
    repeats = i.repeats;
    within = omega (arith, length-append s.current g.tokens);
    is_seen = sym (append_assoc i.out i.fresh g.tokens) ∙ ap (λ c. c ++ g.tokens) i.is_seen;
  }

  abbrev choice : Bool → Segment T → Packing T → Packing T
  choice b g s =
      if b
      then record s {
        current = s.current ++ g.tokens;
        current_has_table = s.current_has_table || g.is_table;
      }
      else open_with l g (emit l s.current s.current_has_table s)

  abbrev another : Segment T → Packing T → Packing T
  another g s = choice (leb (length s.current + length g.tokens) l.max_tokens) g s

  abbrev other : Segment T → Packing T → Packing T
  other g s = if is_empty s.current then open_with l g s else another g s

  pack_segment-IsPacked :
      (g : Segment T) (s : Packing T) (seen : List T)
      → l.overlap_tokens < l.max_tokens
      → IsPacked s seen
      → IsPacked (pack_segment l g s) (seen ++ g.tokens)
  unfolding pack_segment
  pack_segment-IsPacked g s seen lt i =
      let e = emit_current s seen i in
      elim (Bool-cases (ltb l.max_tokens (length g.tokens))) [
        | inl long ↦
            let same : split_long l (length g.tokens) g.tokens (carried l (closed l s)) (closed l s)
                ≡ pack_segment l g s =
              ap
                (λ b.
                  if b
                  then split_long l (length g.tokens) g.tokens (carried l (closed l s)) (closed l s)
                  else other g s)
                (sym long) in
            subst (λ o. IsPacked o (seen ++ g.tokens)) same (split-IsPacked g s seen lt i)
        | inr short ↦
            let small : length g.tokens ≤ l.max_tokens = ground arith in
            subst
              (λ b.
                IsPacked
                  (if b
                    then split_long l (length g.tokens) g.tokens (carried l (closed l s))
                        (closed l s)
                    else other g s)
                  (seen ++ g.tokens))
              (sym short)
              (elim (Bool-cases (is_empty s.current)) [
                | inl none_open ↦
                    subst
                      (λ b.
                        IsPacked (if b then open_with l g s else another g s) (seen ++ g.tokens))
                      (sym none_open)
                      (open_with-IsPacked g s seen
                        (subst (λ o. Emitted l o seen)
                          (emit_nothing s s.current s.current_has_table none_open) e)
                        small)
                | inr some_open ↦
                    subst
                      (λ b.
                        IsPacked (if b then open_with l g s else another g s) (seen ++ g.tokens))
                      (sym some_open)
                      (elim (Bool-cases (leb (length s.current + length g.tokens) l.max_tokens)) [
                        | inl fits ↦
                            subst (λ b. IsPacked (choice b g s) (seen ++ g.tokens)) (sym fits)
                              (extend-IsPacked g s seen i
                                (leb→le (length s.current + length g.tokens) l.max_tokens fits))
                        | inr full ↦
                            subst (λ b. IsPacked (choice b g s) (seen ++ g.tokens)) (sym full)
                              (open_with-IsPacked g (emit l s.current s.current_has_table s) seen e
                                small)
                      ])
              ])
      ]

  pack_segments-IsPacked :
      (gs : List (Segment T)) (s : Packing T) (seen : List T)
      → l.overlap_tokens < l.max_tokens
      → IsPacked s seen
      → IsPacked (pack_segments l gs s) (seen ++ tokens_of gs)
  unfolding pack_segments
  pack_segments-IsPacked [] s seen lt i = subst (IsPacked s) (sym (append-nil seen)) i
  pack_segments-IsPacked (g ∷ gs) s seen lt i =
      subst (IsPacked (pack_segments l gs (pack_segment l g s)))
        (append_assoc seen g.tokens (tokens_of gs))
        (pack_segments-IsPacked gs (pack_segment l g s) (seen ++ g.tokens) lt
          (pack_segment-IsPacked g s seen lt i))

  start-IsPacked : IsPacked (start l) []
  start-IsPacked =
      shut-IsPacked (start l) []
        (record {
          parts = [];
          is_output = refl;
          are_chunks = tt;
          is_previous = refl;
          is_out = refl;
        })
        refl

  -- With an overlap below the maximum, the chunks of a section hold its tokens in order: each has
  -- at least one token and at most the maximum, repeats nothing or the last tokens of the chunk
  -- before, at most as many as the overlap, and what is new in the chunks is, one after the other,
  -- the tokens of the segments, none lost and none doubled.
  pub pack_covers_tokens :
      (gs : List (Segment T))
      → l.overlap_tokens < l.max_tokens
      → (parts : List (Part T)) × (pack l gs ≡ map chunk_of parts)
        × AreChunks l [] parts
        × (fresh_of parts ≡ tokens_of gs)
  unfolding pack
  pack_covers_tokens gs lt =
      let e =
        emit_current (pack_segments l gs (start l)) (tokens_of gs)
          (pack_segments-IsPacked gs (start l) [] lt start-IsPacked) in
      (e.parts, e.is_output, e.are_chunks, e.is_out)
