-- ===== src/Corpus/Samples.antt =====
-- A document of a heading and two sentences, and the theorems at these inputs.
use aquaops_copilot.Common.{
  ℕ, ◌+◌, ◌≤◌, ◌<◌, ◌≡◌, refl, true, false, ◌&&◌, List, [], ◌∷◌, map, arith, length, str_eq, ok,
}
use aquaops_copilot.Common.Text.{codes, strip}
use aquaops_copilot.Corpus.Reading.{Text, sections, paragraph_spans, sentence_spans, is_table}
use aquaops_copilot.Corpus.Tokens.{token_spans}
use aquaops_copilot.Corpus.Packing.{
  Limits, Segment, emit, overlap_prefix, split_long, pack_segment, pack_segments, pack,
}
use aquaops_copilot.Corpus.Parts.{Part, chunk_of, fresh_of, AreChunks}
use aquaops_copilot.Corpus.Covering.{tokens_of, pack_covers_tokens}
use aquaops_copilot.Corpus.Document.{
  Document, Chunk, Hashes, block_segments, segments_of, section_chunks, all_chunks,
  chunk_public_document,
}
use aquaops_copilot.Corpus.Spans.{InOrder, token_spans-InOrder}
use aquaops_copilot.Corpus.Chunks.{OfSections, chunking_returns_slices}

abbrev limits : Limits
limits = record { max_tokens = 4; overlap_tokens = 1 }

abbrev number : List ℕ → Segment ℕ
number tokens = record { tokens = tokens; is_table = false }

-- The second segment is split, and each part repeats the token before it.
abbrev numbers : List (Segment ℕ)
numbers = number (1 ∷ 2 ∷ []) ∷ number (3 ∷ 4 ∷ 5 ∷ 6 ∷ 7 ∷ []) ∷ []

numbers_packed : pack limits numbers ≡ (1 ∷ 2 ∷ []) ∷ (2 ∷ 3 ∷ 4 ∷ 5 ∷ []) ∷ (5 ∷ 6 ∷ 7 ∷ []) ∷ []
unfolding pack pack_segments pack_segment split_long overlap_prefix emit
numbers_packed = refl

pack_covers_tokens_example :
    (parts : List (Part ℕ)) × (pack limits numbers ≡ map chunk_of parts)
    × AreChunks limits [] parts
    × (fresh_of parts ≡ tokens_of numbers)
pack_covers_tokens_example = pack_covers_tokens limits numbers (omega arith)

token_spans-InOrder_example :
    InOrder 7 (7 + length (codes "NH4 is 2.5")) (token_spans (codes "NH4 is 2.5") 7)
token_spans-InOrder_example = token_spans-InOrder (codes "NH4 is 2.5") 7

abbrev document : Document
document = record {
  source_id = "handbook";
  title = "Ammonium";
  source_url = "https://data.example.org/nh4";
  source_version = "1.0";
  text = codes "# Limits ##\nKeep it low.\n\nMeasure daily";
  data_class = "public";
  access_policy = "public_read";
}

abbrev hashes : Hashes
hashes = record { chunk_hash = λ source version path text. source; point_id = λ id. id }

abbrev chunk : Text → Chunk
chunk text = record {
  chunk_id = "handbook";
  qdrant_point_id = "handbook";
  source_id = "handbook";
  source_url = "https://data.example.org/nh4";
  source_version = "1.0";
  parent_title = "Ammonium";
  section_path = codes "Limits" ∷ [];
  text = text;
}

document_chunks :
    chunk_public_document hashes document limits
    ≡ ok (chunk (codes "Keep it low.") ∷ chunk (codes ".\n\nMeasure daily") ∷ [])
unfolding chunk_public_document all_chunks section_chunks segments_of block_segments sections
    paragraph_spans sentence_spans is_table token_spans pack pack_segments pack_segment
    overlap_prefix emit strip
document_chunks = refl

chunking_returns_slices_example :
    ((str_eq document.data_class "public" && str_eq document.access_policy "public_read") ≡ true)
    × (limits.overlap_tokens < limits.max_tokens)
    × (1 ≤ length (chunk (codes "Keep it low.") ∷ chunk (codes ".\n\nMeasure daily") ∷ []))
    × OfSections hashes document limits
        (sections document.text)
        (chunk (codes "Keep it low.") ∷ chunk (codes ".\n\nMeasure daily") ∷ [])
chunking_returns_slices_example =
    chunking_returns_slices hashes document limits
      (chunk (codes "Keep it low.") ∷ chunk (codes ".\n\nMeasure daily") ∷ []) document_chunks
