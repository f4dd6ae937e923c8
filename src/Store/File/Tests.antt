-- ===== src/Store/File/Tests.antt =====
-- Tests of internal/store/file.go on concrete data. The codec is the identity on snapshots.
use mysmpp.Base.{ℕ, ◌≡◌, Option, none, some, Text, refl, arith, lookup, nat_eq, insert, retain}
use mysmpp.Store.Types.{MemoryStore, new_memory}
use mysmpp.Store.Machine.{step, run}
use mysmpp.Store.Submit.{submit_atomic}
use mysmpp.Store.Outbox.{claim_outbox, mark_outbox_sending}
use mysmpp.Store.Examples.{sending_store, sending_store-IsValid, events, valid_date}
use mysmpp.Store.File.{FileSnapshot, Disk, opened, absent, snapshot, new_file, replaced, run_file}
use mysmpp.Store.File.Loads.{released}
use mysmpp.Store.File.Restart.{Restarted, new_file-persist}
use mysmpp.Store.File.Saved.{run_file_reopens}

abbrev parse_uint : Text → ℕ → Option ℕ
parse_uint digits base = none

abbrev encode : FileSnapshot → FileSnapshot
encode snap = snap

abbrev decode : FileSnapshot → Option FileSnapshot
decode snap = some snap

abbrev no_disk : Disk FileSnapshot
no_disk = record { current = absent; backup = absent }

sending_next : sending_store.next_outbox ≡ 1
unfolding run step submit_atomic claim_outbox mark_outbox_sending new_memory lookup insert retain
sending_next = refl

new_file-persist_example :
    (t : MemoryStore) × (new_file parse_uint decode
        (replaced (encode (snapshot 9 sending_store)) no_disk)
      ≡ opened t)
    × Restarted sending_store t
new_file-persist_example =
    new_file-persist parse_uint encode decode 9 sending_store no_disk (omega (arith, sending_next))
      sending_store-IsValid refl

run_file_reopens_example :
    (t : MemoryStore) × (new_file parse_uint decode
        (run_file valid_date encode (record { memory = new_memory; disk = no_disk }) events).disk
      ≡ opened t)
    × ((k : ℕ)
        → lookup k t.outbox
          ≡ released (
              lookup k
                (run_file valid_date encode
                  (record { memory = new_memory; disk = no_disk })
                  events).memory.outbox))
run_file_reopens_example =
    run_file_reopens valid_date encode parse_uint decode events (omega arith) (λ snap is_last. refl)
