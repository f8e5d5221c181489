-- ===== src/Corpus.antt =====
-- aquaops/rag/public_corpus.py: the chunking of a public document.
pub mod Reading
pub mod Tokens
pub mod Packing
pub mod Parts
pub mod Covering
pub mod Document
pub mod Spans
pub mod Chunks
mod Samples
