-- ===== src/Console/History.antt =====
-- console/src/history.ts: the entries of the bounded conversation history, its ring, the dedupe of
-- tail reads and the raw transcript.
pub mod Entry
pub mod Ring
pub mod DiffTail
pub mod Raw
