-- ===== src/ResultStore.antt =====
-- src/open_transcribe/result_store: temporary storage of transcripts, read in chunks.
pub mod Cursor
pub mod Chunks
pub mod Memory
