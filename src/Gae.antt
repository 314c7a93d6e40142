-- ===== src/Gae.antt =====
-- server/gae: how the server keeps its records in the datastore of Google's App Engine.
pub mod Store
pub mod Codec
pub mod Heap
pub mod Matching
pub mod Server
