-- ===== src/Corpus/Chunks.antt =====
-- What the chunks of a document are.
use mathlib.Core.Path.{subst}
use aquaops_copilot.Common.{
  ℕ, ◌≤◌, ◌<◌, ◌≡◌, refl, sym, ap, ◌∙◌, Bool, true, ◌&&◌, List, [], ◌∷◌, ◌++◌, map, arith, length,
  ltb, str_eq, ok, ◌>>=◌, ◌>>◌, require, not, bind-ok, require-ok, ok_same,
}
use aquaops_copilot.Common.Text.{is_blank}
use aquaops_copilot.Corpus.Reading.{Section, sections, paragraph_spans}
use aquaops_copilot.Corpus.Tokens.{TokenSpan}
use aquaops_copilot.Corpus.Packing.{Limits, Segment, pack}
use aquaops_copilot.Corpus.Parts.{Part, chunk_of, fresh_of, AreChunks}
use aquaops_copilot.Corpus.Covering.{tokens_of, pack_covers_tokens}
use aquaops_copilot.Corpus.Document.{
  Document, Chunk, Hashes, segments_of, chunk_of_tokens, section_chunks, all_chunks, some_chunks,
  slice_of, chunk_public_document, not_public, invalid_limits, empty_text,
}

below : (b : Bool) (m n : ℕ) → (b && ltb m n) ≡ true → m < n
below b m n e = ground arith

module _ (h : Hashes) (d : Document) (l : Limits) where
  -- A chunk of some tokens of a section: the text from the first to the last of them, under the
  -- section's path, with the metadata of the document.
  pub record IsSlice (s : Section) (tokens : List TokenSpan) (c : Chunk) : Type 0 where
    pub same_text : c.text ≡ slice_of s.1 tokens
    pub same_path : c.section_path ≡ s.0
    pub same_source : c.source_id ≡ d.source_id
    pub same_url : c.source_url ≡ d.source_url
    pub same_version : c.source_version ≡ d.source_version
    pub same_title : c.parent_title ≡ d.title
    pub hashed : c.chunk_id ≡ h.chunk_hash d.source_id d.source_version s.0 c.text
    pub named : c.qdrant_point_id ≡ h.point_id c.chunk_id

  abbrev pub AreSlices : Section → List (Part TokenSpan) → List Chunk → Type 0
  AreSlices s [] [] = Unit
  AreSlices s [] (c ∷ cs) = ⊥
  AreSlices s (p ∷ ps) [] = ⊥
  AreSlices s (p ∷ ps) (c ∷ cs) = IsSlice s (chunk_of p) c × AreSlices s ps cs

  -- The chunks of a section: slices of one to `max_tokens` of its tokens each, which begin with no
  -- more than `overlap_tokens` repeated ones, and whose new tokens are, in order, those of the
  -- section's segments, none lost and none doubled.
  pub record OfSection (s : Section) (cs : List Chunk) : Type 0 where
    pub segments : List (Segment TokenSpan)
    pub segmented : segments_of l.max_tokens (paragraph_spans s.1) ≡ ok segments
    pub parts : List (Part TokenSpan)
    pub are_slices : AreSlices s parts cs
    pub are_chunks : AreChunks l [] parts
    pub covering : fresh_of parts ≡ tokens_of segments

  -- The chunks of some sections, one section after the other.
  abbrev pub OfSections : List Section → List Chunk → Type 0
  OfSections [] cs = cs ≡ []
  OfSections (s ∷ ss) cs =
      (first : List Chunk) × (rest : List Chunk) × (cs ≡ first ++ rest)
      × OfSection s first
      × OfSections ss rest

  parts-AreSlices :
      (s : Section) (parts : List (Part TokenSpan))
      → AreSlices s parts (map (chunk_of_tokens h d s) (map chunk_of parts))
  parts-AreSlices s [] = tt
  parts-AreSlices s (p ∷ ps) = (
    record {
      same_text = refl;
      same_path = refl;
      same_source = refl;
      same_url = refl;
      same_version = refl;
      same_title = refl;
      hashed = refl;
      named = refl;
    },
    parts-AreSlices s ps,
  )

  section_chunks-OfSection :
      (s : Section) (cs : List Chunk)
      → l.overlap_tokens < l.max_tokens
      → section_chunks h d l s ≡ ok cs
      → OfSection s cs
  unfolding section_chunks
  section_chunks-OfSection s cs lt e =
      let (gs, found, e') = bind-ok (segments_of l.max_tokens (paragraph_spans s.1)) _ cs e in
      let (parts, made, are, covers) = pack_covers_tokens l gs lt in
      record {
        segments = gs;
        segmented = found;
        parts = parts;
        are_slices =
            subst (AreSlices s parts)
              (ap (map (chunk_of_tokens h d s)) (sym made)
                ∙ ok_same (ok (map (chunk_of_tokens h d s) (pack l gs)))
                    (map (chunk_of_tokens h d s) (pack l gs)) cs refl e')
              (parts-AreSlices s parts);
        are_chunks = are;
        covering = covers;
      }

  all_chunks-OfSections :
      (ss : List Section) (cs : List Chunk)
      → l.overlap_tokens < l.max_tokens
      → all_chunks h d l ss ≡ ok cs
      → OfSections ss cs
  unfolding all_chunks
  all_chunks-OfSections [] cs lt e = sym (ok_same (ok []) [] cs refl e)
  all_chunks-OfSections (s ∷ ss) cs lt e =
      let (first, f, e1) = bind-ok (section_chunks h d l s) _ cs e in
      let (rest, r, e2) = bind-ok (all_chunks h d l ss) (λ rest. ok (first ++ rest)) cs e1 in
      (
        first,
        rest,
        sym (ok_same (ok (first ++ rest)) (first ++ rest) cs refl e2),
        section_chunks-OfSection s first lt f,
        all_chunks-OfSections ss rest lt r,
      )

  some_chunks-same : (ds cs : List Chunk) → some_chunks h d ds ≡ ok cs → (ds ≡ cs) × (1 ≤ length cs)
  some_chunks-same [] cs e = absurd (cc e)
  some_chunks-same (c ∷ ds) cs e =
      let same = ok_same (ok (c ∷ ds)) (c ∷ ds) cs refl e in
      (same, subst (λ x. 1 ≤ length x) same (omega arith))

  -- When chunking returns, the document was public and the overlap below the maximum, and there is
  -- at least one chunk. The chunks are those of the sections of the document's text, in order: each
  -- is the slice of its section from the first to the last of one to `max_tokens` tokens, with the
  -- path of the section and the metadata of the document, and the new tokens of a section's chunks
  -- are those of its segments, in order, none lost and none doubled.
  pub chunking_returns_slices :
      (cs : List Chunk)
      → chunk_public_document h d l ≡ ok cs
      → ((str_eq d.data_class "public" && str_eq d.access_policy "public_read") ≡ true)
        × (l.overlap_tokens < l.max_tokens)
        × (1 ≤ length cs)
        × OfSections (sections d.text) cs
  unfolding chunk_public_document
  chunking_returns_slices cs e =
      let is_public_document =
        str_eq d.data_class "public" && str_eq d.access_policy "public_read" in
      let chunked = all_chunks h d l (sections d.text) >>= λ chunks. some_chunks h d chunks in
      let filled = require (not (is_blank d.text)) empty_text >> chunked in
      let limits_valid = ltb 0 l.max_tokens && ltb l.overlap_tokens l.max_tokens in
      let (is_public, e1) =
        require-ok is_public_document not_public (require limits_valid invalid_limits >> filled) cs
          e in
      let (limits, e2) = require-ok limits_valid invalid_limits filled cs e1 in
      let (_, e3) = require-ok (not (is_blank d.text)) empty_text chunked cs e2 in
      let (ds, made, e4) =
        bind-ok (all_chunks h d l (sections d.text)) (λ chunks. some_chunks h d chunks) cs e3 in
      let lt = below (ltb 0 l.max_tokens) l.overlap_tokens l.max_tokens limits in
      let (same, some_) = some_chunks-same ds cs e4 in
      (
        is_public,
        lt,
        some_,
        subst (OfSections (sections d.text)) same
            (all_chunks-OfSections (sections d.text) ds lt made),
      )
