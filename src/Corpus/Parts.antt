-- ===== src/Corpus/Parts.antt =====
-- What has been emitted: chunks with the tokens that each repeats and those that are new in it.
use mathlib.Core.Path.{subst}
use mathlib.Core.List.{append_assoc, append-nil, map-append}
use aquaops_copilot.Common.{
  ℕ, zero, suc, ◌-◌, ◌≤◌, ◌<◌, ◌≡◌, refl, sym, ap, ◌∙◌, ◌⊎◌, inl, inr, Bool, false, not, ◌||◌, List,
  [], ◌∷◌, ◌++◌, map, if◌then◌else◌, ◌==◌, length, take, drop, length-append, length-drop,
  length-take, take-append-drop, Bool-cases, arith,
}
use aquaops_copilot.Corpus.Packing.{Limits, Packing, is_empty, last_n, emit, carried, split_long}

-- A chunk as the tokens that it repeats and those that are new in it.
pub record Part (T : Type 0) : Type 0 where
  pub carry : List T
  pub fresh : List T

module _ {T : Type 0} where
  abbrev pub chunk_of : Part T → List T
  chunk_of p = p.carry ++ p.fresh

  -- The new tokens of all chunks.
  abbrev pub fresh_of : List (Part T) → List T
  fresh_of [] = []
  fresh_of (p ∷ ps) = p.fresh ++ fresh_of ps

  abbrev pub last_chunk : List T → List (Part T) → List T
  last_chunk previous [] = previous
  last_chunk previous (p ∷ ps) = last_chunk (chunk_of p) ps

  fresh_of-append :
      (ps : List (Part T)) (p : Part T) → fresh_of (ps ++ (p ∷ [])) ≡ fresh_of ps ++ p.fresh
  fresh_of-append [] p = append-nil p.fresh
  fresh_of-append (q ∷ ps) p =
      ap (λ l. q.fresh ++ l) (fresh_of-append ps p)
      ∙ sym (append_assoc q.fresh (fresh_of ps) p.fresh)

  last_chunk-append :
      (previous : List T) (ps : List (Part T)) (p : Part T)
      → last_chunk previous (ps ++ (p ∷ [])) ≡ chunk_of p
  last_chunk-append previous [] p = refl
  last_chunk-append previous (q ∷ ps) p = last_chunk-append (chunk_of q) ps p

module _ {T : Type 0} (l : Limits) where
  -- What a chunk repeats is nothing, or the last tokens of the chunk before.
  abbrev pub Repeats : List T → List T → Type 0
  Repeats previous carry = (carry ≡ []) ⊎ (carry ≡ last_n l.overlap_tokens previous)

  -- Each chunk has one to `max_tokens` tokens, of which at most `overlap_tokens` are repeated, and
  -- they are the last ones of the chunk before.
  abbrev pub AreChunks : List T → List (Part T) → Type 0
  AreChunks previous [] = Unit
  AreChunks previous (p ∷ ps) =
      ((1 ≤ length (chunk_of p))
        × (length (chunk_of p) ≤ l.max_tokens)
        × (length p.carry ≤ l.overlap_tokens)
        × Repeats previous p.carry)
      × AreChunks (chunk_of p) ps

  AreChunks-append :
      (previous : List T) (ps : List (Part T)) (p : Part T)
      → AreChunks previous ps
      → 1 ≤ length (chunk_of p)
      → length (chunk_of p) ≤ l.max_tokens
      → length p.carry ≤ l.overlap_tokens
      → Repeats (last_chunk previous ps) p.carry
      → AreChunks previous (ps ++ (p ∷ []))
  AreChunks-append previous [] p cs a b c d = ((a, b, c, d), tt)
  AreChunks-append previous (q ∷ ps) p cs a b c d =
      (cs.0, AreChunks-append (chunk_of q) ps p cs.1 a b c d)

  -- The output holds the tokens `out`.
  pub record Emitted (s : Packing T) (out : List T) : Type 0 where
    pub parts : List (Part T)
    pub is_output : s.output ≡ map chunk_of parts
    pub are_chunks : AreChunks [] parts
    pub is_previous : s.previous ≡ last_chunk [] parts
    pub is_out : fresh_of parts ≡ out

  pub emit_chunk :
      (s : Packing T) (out carry fresh chunk : List T) (has_table : Bool)
      → Emitted s out
      → carry ++ fresh ≡ chunk
      → length chunk ≤ l.max_tokens
      → length carry ≤ l.overlap_tokens
      → Repeats s.previous carry
      → Emitted (emit l chunk has_table s) (out ++ fresh)
  unfolding emit
  emit_chunk s out carry fresh [] has_table e same small short repeats =
      subst (Emitted s)
        (sym (append-nil out) ∙ ap (λ f. out ++ f) (sym (no_fresh carry fresh same))) e
    where
      no_fresh : (xs ys : List T) → xs ++ ys ≡ [] → ys ≡ []
      no_fresh [] ys h = h
      no_fresh (x ∷ xs) ys h = absurd (cc h)
  emit_chunk s out carry fresh (c ∷ chunk) has_table e same small short repeats =
      let p : Part T = record { carry = carry; fresh = fresh } in
      record {
        parts = e.parts ++ (p ∷ []);
        is_output =
            ap (λ o. o ++ ((c ∷ chunk) ∷ [])) e.is_output
            ∙ ap (λ k. map chunk_of e.parts ++ (k ∷ [])) (sym same)
            ∙ sym (map-append chunk_of e.parts (p ∷ []));
        are_chunks =
            AreChunks-append [] e.parts p e.are_chunks
              (subst (λ k. 1 ≤ length k) (sym same) (omega arith))
              (subst (λ k. length k ≤ l.max_tokens) (sym same) small) short
              (subst (λ k. Repeats k carry) e.is_previous repeats);
        is_previous = sym same ∙ sym (last_chunk-append [] e.parts p);
        is_out = fresh_of-append e.parts p ∙ ap (λ o. o ++ fresh) e.is_out;
      }

  length-last_n : (n : ℕ) (xs : List T) → length (last_n n xs) ≤ n
  length-last_n n xs = omega (arith, length-drop (length xs - n) xs)

  -- What is carried over after a chunk that may overlap.
  carry_over : List T → List T
  carry_over previous = if l.overlap_tokens == 0 then [] else last_n l.overlap_tokens previous

  carry_over_lem :
      (previous : List T)
      → (length (carry_over previous) ≤ l.overlap_tokens) × Repeats previous (carry_over previous)
  unfolding carry_over
  carry_over_lem previous = elim (Bool-cases (l.overlap_tokens == 0)) [
    | inl z ↦ (ground arith, inl (ground arith))
    | inr n ↦ (ground (arith, length-last_n l.overlap_tokens previous), inr (ground arith))
  ]

  pub carried_lem :
      (s : Packing T) → (length (carried l s) ≤ l.overlap_tokens) × Repeats s.previous (carried l s)
  carried_lem s = elim (Bool-cases (l.overlap_tokens == 0 || not s.previous_can_overlap)) [
    | inl z ↦ (ground arith, inl (ground arith))
    | inr n ↦ (ground (arith, length-last_n l.overlap_tokens s.previous), inr (ground arith))
  ]

  -- What a round leaves, with its capacity as an argument.
  round_of : ℕ → ℕ → T → List T → List T → Packing T → Packing T
  round_of capacity fuel t rest carry s =
      if is_empty (take capacity (t ∷ rest))
      then s
      else split_long l fuel (drop capacity (t ∷ rest))
          (carry_over (emit l (carry ++ take capacity (t ∷ rest)) false s).previous)
          (emit l (carry ++ take capacity (t ∷ rest)) false s)

  -- The loop consumes all tokens that are left.
  pub split_long-Emitted :
      (fuel : ℕ) (rest carry out : List T) (s : Packing T)
      → l.overlap_tokens < l.max_tokens
      → length rest ≤ fuel
      → Emitted s out
      → length carry ≤ l.overlap_tokens
      → Repeats s.previous carry
      → Emitted (split_long l fuel rest carry s) (out ++ rest)
  unfolding split_long carry_over round_of
  split_long-Emitted zero [] carry out s lt f e short repeats =
      subst (Emitted s) (sym (append-nil out)) e
  split_long-Emitted zero (t ∷ rest) carry out s lt f e short repeats = absurd (omega arith)
  split_long-Emitted (suc fuel) [] carry out s lt f e short repeats =
      subst (Emitted s) (sym (append-nil out)) e
  split_long-Emitted (suc fuel) (t ∷ rest) carry out s lt f e short repeats =
      let k = l.max_tokens - length carry - 1 in
      let fits : l.max_tokens - length carry ≡ suc k = omega arith in
      let fresh : List T = t ∷ take k rest in
      let s' = emit l (carry ++ fresh) false s in
      let small : length (carry ++ fresh) ≤ l.max_tokens =
        omega (arith, length-append carry fresh, length-take k rest) in
      let (short', repeats') = carry_over_lem s'.previous in
      let e' = emit_chunk s out carry fresh (carry ++ fresh) false e refl small short repeats in
      let left : length (drop k rest) ≤ fuel = omega (arith, length-drop k rest) in
      let done =
        split_long-Emitted fuel (drop k rest) (carry_over s'.previous) (out ++ fresh) s' lt left e'
          short' repeats' in
      let whole =
        append_assoc out fresh (drop k rest) ∙ ap (λ r. out ++ (t ∷ r)) (take-append-drop k rest) in
      subst (λ c. Emitted (round_of c fuel t rest carry s) (out ++ (t ∷ rest))) (sym fits)
        (subst (Emitted (split_long l fuel (drop k rest) (carry_over s'.previous) s')) whole done)
