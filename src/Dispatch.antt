-- ===== src/Dispatch.antt =====
-- internal/dispatch/idalloc.go: gateway ids in ranges that the store reserves.
pub mod Ids
pub mod Worker
pub mod Receipts
pub mod Tests
