-- ===== src/Store/File/Saved.antt =====
-- What the file of internal/store/file.go keeps of a history of calls.
use mysmpp.Store.File.Loads.{released}
use mysmpp.Store.File.Quiet.{step-quiet}
use mysmpp.Store.Valid.{new_memory-IsValid, IsValid}
use mysmpp.Store.File.Restart.{restore-outbox}
use mysmpp.Store.File.{
  open_current, restore_decoded, FileSnapshot, FileStore, opened, holds, absent, snapshot, restore,
  new_file, persists, file_step, run_file, replaced,
}
use mysmpp.Base.{
  ℕ, ◌≡◌, ◌<◌, ◌+◌, ◌^◌, Bool, true, false, List, [], ◌∷◌, Option, none, some, Text, arith, refl,
  ap, ◌∙◌, nat_eq, lookup, length, if◌then◌else◌,
}
use mysmpp.Store.Types.{MemoryStore, new_memory}
use mysmpp.Store.Machine.{Event, step}
use mysmpp.Store.Machine.Step.{step-Advances}
use mysmpp.Store.Machine.Valid.{step-IsValid}

-- What the disk holds: nothing, and the outbox is empty; or a store that was valid, with the same
-- outbox, and `last` is what was written.
data OnDisk {D : Type 0} (encode : FileSnapshot → D) (f : FileStore D) (last : Option FileSnapshot)
    : Type 0 where
  nothing_yet : f.disk.current ≡ absent → f.memory.outbox ≡ [] → OnDisk encode f last
  saved :
      (at : ℕ) (s : MemoryStore)
      → f.disk.current ≡ holds (encode (snapshot at s))
      → IsValid s
      → s.next_outbox < 2 ^ 63
      → f.memory.outbox ≡ s.outbox
      → last ≡ some (snapshot at s)
      → OnDisk encode f last

-- The snapshot that the last call of a history that persists has written, if there is one.
unfoldable pub last_written :
    (Text → Bool) → MemoryStore → List (ℕ × Event) → Option FileSnapshot → Option FileSnapshot
last_written valid_date s [] last = last
last_written valid_date s ((now, e) ∷ events) last =
    let t = step valid_date now s e in
    last_written valid_date t events
      (if persists valid_date now s e then some (snapshot now t) else last)

module _ (valid_date : Text → Bool) {D : Type 0} (encode : FileSnapshot → D) where
  abbrev next_file : ℕ → FileStore D → Event → Bool → FileStore D
  next_file now f e writes =
      let s = step valid_date now f.memory e in
      record {
        memory = s;
        disk = if writes then replaced (encode (snapshot now s)) f.disk else f.disk;
      }

  abbrev next_written : ℕ → MemoryStore → Event → Option FileSnapshot → Bool → Option FileSnapshot
  next_written now s e last writes =
      if writes then some (snapshot now (step valid_date now s e)) else last

  file_step-OnDisk :
      (now : ℕ) (f : FileStore D) (e : Event) (last : Option FileSnapshot)
      → f.memory.next_outbox + 1 < 2 ^ 63
      → IsValid f.memory
      → OnDisk encode f last
      → OnDisk encode
          (file_step valid_date encode now f e)
          (next_written now f.memory e last (persists valid_date now f.memory e))
  unfolding file_step replaced
  file_step-OnDisk now f e last room v d = go (persists valid_date now f.memory e) refl d
    where
      t : MemoryStore
      t = step valid_date now f.memory e

      go :
          (writes : Bool)
          → persists valid_date now f.memory e ≡ writes
          → OnDisk encode f last
          → OnDisk encode (next_file now f e writes) (next_written now f.memory e last writes)
      go true h d =
          saved now t refl (step-IsValid valid_date now f.memory e (omega arith) v)
            (omega (arith, (step-Advances valid_date now f.memory e (omega arith) v).grows)) refl
            refl
      go false h (nothing_yet a b) = nothing_yet a (step-quiet valid_date now f.memory e h ∙ b)
      go false h (saved at s a w low same is_last) =
          saved at s a w low (step-quiet valid_date now f.memory e h ∙ same) is_last

  run_file-OnDisk :
      (f : FileStore D) (events : List (ℕ × Event)) (last : Option FileSnapshot)
      → f.memory.next_outbox + length events < 2 ^ 63
      → IsValid f.memory
      → OnDisk encode f last
      → OnDisk encode
          (run_file valid_date encode f events)
          (last_written valid_date f.memory events last)
  unfolding run_file file_step last_written
  run_file-OnDisk f [] last room v d = d
  run_file-OnDisk f ((now, e) ∷ events) last room v d =
      let grows = (step-Advances valid_date now f.memory e (omega arith) v).grows in
      run_file-OnDisk (file_step valid_date encode now f e) events _ (omega (arith, grows))
        (step-IsValid valid_date now f.memory e (omega arith) v)
        (file_step-OnDisk now f e last (omega arith) v d)

  module _ (parse_uint : Text → ℕ → Option ℕ) (decode : D → Option FileSnapshot) where
    reopens :
        (f : FileStore D) (last : Option FileSnapshot)
        → ((snap : FileSnapshot) → last ≡ some snap → decode (encode snap) ≡ some snap)
        → OnDisk encode f last
        → (t : MemoryStore) × (new_file parse_uint decode f.disk ≡ opened t)
          × ((k : ℕ) → lookup k t.outbox ≡ released (lookup k f.memory.outbox))
    unfolding new_file new_memory lookup
    reopens f last codec (nothing_yet a b) =
        (new_memory, ap (open_current parse_uint decode) a, λ k. rw b refl)
    reopens f last codec (saved at s a v room same is_last) = (
      restore parse_uint (snapshot at s),
      ap (open_current parse_uint decode) a
          ∙ ap (restore_decoded parse_uint) (codec (snapshot at s) is_last),
      λ k. rw same (restore-outbox parse_uint at s k v),
    )

    -- After any history of calls on a new file store that leaves room for ids, with writes that
    -- succeed and a codec that reads back the snapshot that was written last: a process that starts
    -- again finds the outbox as it was in memory, with every claimed item pending again.
    pub run_file_reopens :
        (events : List (ℕ × Event))
        → length events < 2 ^ 63
        → ((snap : FileSnapshot)
            → last_written valid_date new_memory events none ≡ some snap
            → decode (encode snap) ≡ some snap)
        → (t : MemoryStore) × (new_file parse_uint decode
              (run_file valid_date encode
                (record {
                  memory = new_memory;
                  disk = record { current = absent; backup = absent };
                })
                events).disk
            ≡ opened t)
          × ((k : ℕ)
              → lookup k t.outbox
                ≡ released (
                    lookup k
                      (run_file valid_date encode
                        (record {
                          memory = new_memory;
                          disk = record { current = absent; backup = absent };
                        })
                        events).memory.outbox))
    unfolding new_memory
    run_file_reopens events room codec = reopens _ _ codec (
        run_file-OnDisk _ events none (omega (arith, room)) new_memory-IsValid
          (nothing_yet refl refl))
