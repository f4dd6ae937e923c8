-- ===== src/Lib.antt =====
-- A verification library for mysmpp, an SMPP and HTTP short message gateway written in Go.
--
-- The gateway takes a message from an SMPP or HTTP client, routes it to a provider, stores it with an
-- outbox item in one atomic step, and lets workers claim, send and complete the items. The library
-- models the parts that decide whether a message is kept, sent once and read correctly:
--
--   Base     numbers, lists, maps, strings and sorting, shared by all
--   Store    internal/store/memory.go: the in-memory store; Store.File internal/store/file.go: the
--            store with a copy on disk
--   Sms      internal/message: encodings and the splitting of long messages
--   Wire     internal/smpp (pdu.go, tlv.go, udh.go, submit.go), the C-octet strings, and
--            buildSubmitBody of internal/smppclient/encode.go
--   Routing  internal/router/router.go and the records it reads of internal/config/config.go
--   Dispatch internal/dispatch: the gateway ids (idalloc.go), and from dispatcher.go the delivery of an
--            outbox item and the receipts that come back
--   Session  internal/smpp/session.go and server.go: the sessions of the clients
--
-- Store. Store.Types has the records: MemoryStore is the struct without its lock, Message and Segment
-- are those of internal/message/message.go. Store.Messages, Store.Pendings, Store.Outbox,
-- Store.Retries and Store.Submit have one function for each method, named like it in snake case:
-- SaveMessage is save_message, ClaimOutbox is claim_outbox, SubmitAtomic is submit_atomic. A method
-- that can fail returns a Result, and an error leaves the store as it was (submit_atomic: as the
-- sweep left it). Store.Machine makes a state machine of them: an Event is a call with its
-- arguments, `step` runs it at a time, and `run` runs a history; the mutex makes each call one step, so a history
-- is any interleaving of the callers. Store.Valid is the invariant, and the modules below each
-- component hold its lemmas. Store.Examples and the Tests modules hold concrete data.
--
-- Store.File. A FileStore is the memory store and a disk, which holds the file and its backup. A call
-- is a step of Store.Machine, and `persists` tells whether the method goes on to `persist`; `replaced`
-- is the disk after a write that succeeds. What a crash inside persist leaves is not modelled.
--
-- Dispatch. Dispatch.Worker is processOutbox and what it calls, as a client of the store: `deliver` in
-- Dispatch.Worker.Delivery is its first half, up to the call of the provider, with any calls of other
-- workers before and after; `process_outbox` is the whole, with nothing in between.
-- Dispatch.Receipts is HandleDLR, FlushDLR, finishDLRDelivery and aggregateDLR; how a client answers a
-- receipt is the argument `push`.
--
-- Session. `dispatch` takes a unit and gives the session and its effects in order; Session.Window has
-- the reachable sessions, in which any number of messages are with OnSubmit. Session.Server is the
-- table of the sessions, with the two limits.
--
-- Values. A Go string is the list of its bytes (Text). Sms.Utf8 decodes and encodes the runes of a string
-- as Go does, and Split counts and cuts runes. A time is the number of nanoseconds since the zero time, read by the call as `now`. A map is
-- an association list without repeated keys, and its order stands for the order of a range over it,
-- which Go leaves open. Cloning a value is the identity. An `int` that only counts or is compared is
-- an integer without bound (`attempt`, the lengths, the quota); NextOutbox, an int64 that serves as a
-- key, is its bit pattern modulo 2 ^ 64, and the theorems that need fresh keys ask for room below
-- that. `out_of_range` is the panic of an index that is out of range. Bytes are numbers below 256,
-- and length fields and headers are cut to their width (`% 2 ^ 16`, `% 2 ^ 32`, `% 256`).
--
-- Parameters. `valid_date` is the library's test of a date in validateDailyQuotaDebit, `stable_hash`
-- is the library's FNV hash, `current` is the clock, `ref` is the random reference of Split, `encode`
-- and `decode` are the library's JSON, `parse_uint` is its ParseUint, `normal` is its trim and upper
-- case of a state, and `session_id` is its decimal form of a session number.
--
-- Fuel. parse_loop (ParseTLVsStrict) takes at least four bytes a round, check_elements and find_concat
-- (SplitUDH, ParseConcat) at least two, chunk_runes at least one rune and runes_from a byte, so each starts with the
-- number of bytes or runes left, which is enough. FlushDLR takes its rounds as
-- fuel, and one more than the receipts that wait are enough. All other loops are structural.
--
-- Not modelled: the text of a parsed submit_sm (DecodeSubmitText), the packed 7-bit codec, the text of
-- delivery receipts, the client connections, Submit and the loops of the dispatcher, the content
-- filter, the tenants' rate limits, the SQL store, and the HTTP and administration parts, which are
-- mostly sockets, SQL and goroutines around these. Sockets, deadlines, call detail records and logs
-- are left out everywhere.
pub mod Base
pub mod Store
pub mod Wire
pub mod Sms
pub mod Routing
pub mod Dispatch
pub mod Session
