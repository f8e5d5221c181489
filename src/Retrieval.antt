-- ===== src/Retrieval.antt =====
-- aquaops/rag: the fusion of two rankings of public chunks, and their reranking.
pub mod Fusion
pub mod Hybrid
pub mod Snapshot
mod Samples
