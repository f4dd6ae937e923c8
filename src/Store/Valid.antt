-- ===== src/Store/Valid.antt =====
-- The invariant of the memory store of internal/store/memory.go.
pub mod Messages
pub mod Pendings
pub mod Outbox
pub mod Submit
use mysmpp.Base.{text_eq, text2_eq, IsDict}
use mysmpp.Store.Pendings.Filed.{IsReceipts, nil-IsReceipts}
use mysmpp.Store.Types.{MemoryStore, new_memory}
use mysmpp.Store.Messages.Index.{IsIndexed, nil-IsIndexed}
use mysmpp.Store.Outbox.Keyed.{IsKeyed, nil-IsKeyed}

-- The message index agrees with the list, the outbox holds items under their ids, the receipts are
-- normalized under theirs, and every map has each key once.
pub record IsValid (s : MemoryStore) : Type 0 where
  pub indexed : IsIndexed s.messages s.message_by_id
  pub keyed : IsKeyed s.next_outbox s.outbox
  pub receipts : IsReceipts s.pending
  pub idempotency_dict : IsDict s.idempotency

pub new_memory-IsValid : IsValid new_memory
unfolding new_memory
new_memory-IsValid = record {
  indexed = nil-IsIndexed;
  keyed = nil-IsKeyed;
  receipts = nil-IsReceipts;
  idempotency_dict = tt;
}
