-- ===== src/Rag.antt =====
-- Retrieval-augmented answers: app/rag/retriever.py (`Rag.Chunking`, `Rag.Retriever`) and
-- app/rag/ingest.py (`Rag.Ingest`).
pub mod Chunking
pub mod Scoring
pub mod Retriever
pub mod Ingest
