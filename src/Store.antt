-- ===== src/Store.antt =====
-- internal/store: the in-memory store, and the store that saves it to a file.
pub mod Types
pub mod Messages
pub mod Pendings
pub mod Outbox
pub mod Retries
pub mod Submit
pub mod Valid
pub mod Machine
pub mod Examples
pub mod File
pub mod Tests
