-- ===== src/Corpus/Document.antt =====
-- public_corpus.py: `_segments` and `chunk_public_document`.
use aquaops_copilot.Common.{
  ℕ, ◌+◌, ◌-◌, String, Bool, true, false, ◌&&◌, not, List, [], ◌∷◌, ◌++◌, map, if◌then◌else◌, ltb,
  leb, length, take, drop, str_eq, Outcome, ok, err, ◌>>=◌, ◌>>◌, require,
}
use aquaops_copilot.Common.Text.{is_blank}
use aquaops_copilot.Corpus.Reading.{
  Text, Section, Span, sections, trim_span, paragraph_spans, sentence_spans, is_table,
}
use aquaops_copilot.Corpus.Tokens.{TokenSpan, token_spans}
use aquaops_copilot.Corpus.Packing.{Limits, Segment, pack}

pub data CorpusError : Type 0 where
  not_public invalid_limits empty_text table_too_large no_chunks : CorpusError

-- `PublicKnowledgeDocument`, its texts other than the body as strings
pub record Document : Type 0 where
  pub source_id : String
  pub title : String
  pub source_url : String
  pub source_version : String
  pub text : Text
  pub data_class : String
  pub access_policy : String

-- `PublicKnowledgeChunk`; `data_class` and `access_policy` are the defaults, "public" and
-- "public_read".
pub record Chunk : Type 0 where
  pub chunk_id : String
  pub qdrant_point_id : String
  pub source_id : String
  pub source_url : String
  pub source_version : String
  pub parent_title : String
  pub section_path : List Text
  pub text : Text

-- SHA-256 of the stable input of a chunk, and the version 5 UUID of an id.
pub record Hashes : Type 0 where
  pub chunk_hash : String → String → List Text → Text → String
  pub point_id : String → String

abbrev pub segment : Bool → List TokenSpan → Segment TokenSpan
segment table spans = record { tokens = spans; is_table = table }

abbrev sentence_segment : List TokenSpan → List (Segment TokenSpan)
sentence_segment [] = []
sentence_segment (t ∷ ts) = segment false (t ∷ ts) ∷ []

abbrev spans_of : ℕ → Span → List TokenSpan
spans_of offset (start, text) = token_spans text (offset + start)

unfoldable pub sentence_segments : ℕ → List Span → List (Segment TokenSpan)
sentence_segments offset [] = []
sentence_segments offset (s ∷ ss) =
    sentence_segment (spans_of offset (trim_span s)) ++ sentence_segments offset ss

abbrev block_tokens : ℕ → Span → List TokenSpan → Outcome CorpusError (List (Segment TokenSpan))
block_tokens max_tokens (start, block) [] = ok []
block_tokens max_tokens (start, block) (t ∷ ts) =
    if is_table block
    then require (leb (length (t ∷ ts)) max_tokens) table_too_large
      >> ok (segment true (t ∷ ts) ∷ [])
    else if leb (length (t ∷ ts)) max_tokens
    then ok (segment false (t ∷ ts) ∷ [])
    else ok (sentence_segments start (sentence_spans block))

-- One paragraph: a table, a short paragraph, or its sentences.
unfoldable pub block_segments : ℕ → Span → Outcome CorpusError (List (Segment TokenSpan))
unfolding sentence_segments
block_segments max_tokens span = block_tokens max_tokens span (spans_of 0 span)

unfoldable pub segments_of : ℕ → List Span → Outcome CorpusError (List (Segment TokenSpan))
segments_of max_tokens [] = ok []
segments_of max_tokens (s ∷ ss) = block_segments max_tokens s >>= λ first.
    segments_of max_tokens ss >>= λ rest. ok (first ++ rest)

-- `section_text[tokens[0][1] : tokens[-1][2]]`
abbrev pub end_of : ℕ → List TokenSpan → ℕ
end_of end [] = end
end_of end (t ∷ ts) = end_of t.end ts

abbrev pub slice_of : Text → List TokenSpan → Text
slice_of text [] = []
slice_of text (t ∷ ts) = take (end_of t.end ts - t.start) (drop t.start text)

module _ (h : Hashes) (d : Document) where
  abbrev pub chunk_with : String → List Text → Text → Chunk
  chunk_with id path text = record {
    chunk_id = id;
    qdrant_point_id = h.point_id id;
    source_id = d.source_id;
    source_url = d.source_url;
    source_version = d.source_version;
    parent_title = d.title;
    section_path = path;
    text = text;
  }

  abbrev pub chunk_of_tokens : Section → List TokenSpan → Chunk
  chunk_of_tokens (path, text) tokens =
      let chunk_text = slice_of text tokens in
      chunk_with (h.chunk_hash d.source_id d.source_version path chunk_text) path chunk_text

  unfoldable pub section_chunks : Limits → Section → Outcome CorpusError (List Chunk)
  section_chunks l s = segments_of l.max_tokens (paragraph_spans s.1) >>= λ gs.
      ok (map (chunk_of_tokens s) (pack l gs))

  unfoldable pub all_chunks : Limits → List Section → Outcome CorpusError (List Chunk)
  all_chunks l [] = ok []
  all_chunks l (s ∷ ss) =
      section_chunks l s >>= λ first. all_chunks l ss >>= λ rest. ok (first ++ rest)

  abbrev pub some_chunks : List Chunk → Outcome CorpusError (List Chunk)
  some_chunks [] = err no_chunks
  some_chunks (c ∷ cs) = ok (c ∷ cs)

  unfoldable pub chunk_public_document : Limits → Outcome CorpusError (List Chunk)
  chunk_public_document l =
      require (str_eq d.data_class "public" && str_eq d.access_policy "public_read") not_public
      >> (require (ltb 0 l.max_tokens && ltb l.overlap_tokens l.max_tokens) invalid_limits
          >> (require (not (is_blank d.text)) empty_text
              >> (all_chunks l (sections d.text) >>= λ chunks. some_chunks chunks)))
