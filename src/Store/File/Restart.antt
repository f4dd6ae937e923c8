-- ===== src/Store/File/Restart.antt =====
-- `persist` and `NewFile` of internal/store/file.go: a process that ends and starts again.
use mysmpp.Store.Pendings.Filed.{nil-IsReceipts}
use mysmpp.Base.{
  if◌then◌else◌, ℕ, ◌≡◌, ◌≤◌, ◌<◌, ◌^◌, [], Option, none, some, Text, arith, refl, sym, ap, ◌∙◌,
  nat_eq, text_eq, text2_eq, Dict, lookup, values,
}
use mysmpp.Store.File.{
  restore_decoded, FileSnapshot, Disk, opened, snapshot, idempotency_records, load_outbox, unclaim,
  raise_next, restore, new_file, replaced, exceeds64,
}
use mathlib.Core.Path.{subst⁻¹}
use mysmpp.Store.Types.{OutboxItem, MemoryStore, new_memory}
use mysmpp.Store.Messages.Index.{drop-IsIndexed}
use mysmpp.Store.Outbox.Keyed.{IsKeyed}
use mysmpp.Store.Valid.{IsValid}
use mysmpp.Store.File.Loads.{
  or_else, released, unclaimed, unclaimed_lem, lookup-load_outbox, load_outbox-IsDict,
  lookup-load_idempotency, load_idempotency-IsDict, lookup-load_pendings, load_pendings-IsReceipts,
  raise_next_low, raise_seq_grows,
}

-- A store that is loaded again holds what the other held, except that no item is claimed.
pub record Restarted (s t : MemoryStore) : Type 0 where
  pub messages : t.messages ≡ s.messages
  pub pending : (k : Text) → lookup k t.pending ≡ lookup k s.pending
  pub outbox : (k : ℕ) → lookup k t.outbox ≡ released (lookup k s.outbox)
  pub next_outbox : t.next_outbox ≡ s.next_outbox
  pub idempotency : (k : Text × Text) → lookup k t.idempotency ≡ lookup k s.idempotency
  pub gateway_seq : s.gateway_seq ≤ t.gateway_seq
  pub valid : IsValid t

or_else-none {ℓ} : {A : Type ℓ} (o : Option A) → or_else o none ≡ o
or_else-none none = refl
or_else-none (some a) = refl

unclaim-id : (item : OutboxItem) → (unclaim item).id ≡ item.id
unfolding unclaim
unclaim-id item = ground arith

load_outbox-IsKeyed :
    (n : ℕ) (entries : Dict ℕ OutboxItem) → IsKeyed n entries → IsKeyed n (load_outbox entries [])
unfolding lookup
load_outbox-IsKeyed n entries v = record { dict = load_outbox-IsDict entries [] tt; own = own }
  where
    find :
        (k : ℕ) (item : OutboxItem) (found : Option OutboxItem)
        → lookup k entries ≡ found
        → or_else (unclaimed found) none ≡ some item
        → (item.id ≡ k) × (k ≤ n)
    find k item none e h = absurd (cc)
    find k item (some x) e h =
        let same : unclaim x ≡ item = cc in
        (ap (λ (i : OutboxItem). i.id) (sym same) ∙ unclaim-id x ∙ (v.own k x e).0, (v.own k x e).1)

    own :
        (k : ℕ) (item : OutboxItem)
        → lookup k (load_outbox entries []) ≡ some item
        → (item.id ≡ k) × (k ≤ n)
    own k item h =
        find k item (lookup k entries) refl (sym (lookup-load_outbox k entries [] v.dict) ∙ h)

module _ (parse_uint : Text → ℕ → Option ℕ) where
  pub restore-outbox :
      (now : ℕ) (s : MemoryStore) (k : ℕ)
      → IsValid s
      → lookup k (restore parse_uint (snapshot now s)).outbox ≡ released (lookup k s.outbox)
  unfolding restore snapshot lookup
  restore-outbox now s k v =
      lookup-load_outbox k s.outbox [] v.keyed.dict
      ∙ or_else-none (unclaimed (lookup k s.outbox))
      ∙ unclaimed_lem (lookup k s.outbox)

  restore-Restarted :
      (now : ℕ) (s : MemoryStore)
      → s.next_outbox < 2 ^ 63
      → IsValid s
      → Restarted s (restore parse_uint (snapshot now s))
  unfolding restore snapshot new_memory lookup
  restore-Restarted now s room v =
      let next : raise_next s.outbox 0 ≤ s.next_outbox =
        raise_next_low s.next_outbox s.outbox 0 room v.keyed.dict
          (λ k item h. (v.keyed.own k item h).1) (omega arith) in
      let same : (if exceeds64 s.next_outbox (raise_next s.outbox 0)
            then s.next_outbox
            else raise_next s.outbox 0)
          ≡ s.next_outbox =
        ground arith in
      record {
        messages = refl;
        pending = λ k.
            lookup-load_pendings k s.pending [] v.receipts.dict v.receipts.filed
            ∙ or_else-none (lookup k s.pending);
        outbox = λ k. restore-outbox now s k v;
        next_outbox = same;
        idempotency = λ k.
            lookup-load_idempotency k s.idempotency [] v.idempotency_dict
            ∙ or_else-none (lookup k s.idempotency);
        gateway_seq = raise_seq_grows parse_uint s.messages s.gateway_seq;
        valid = record {
          indexed = drop-IsIndexed 0 v.indexed;
          keyed =
              subst⁻¹ (λ n. IsKeyed n (load_outbox s.outbox [])) same
                (load_outbox-IsKeyed s.next_outbox s.outbox v.keyed);
          receipts = load_pendings-IsReceipts (values s.pending) [] nil-IsReceipts;
          idempotency_dict = load_idempotency-IsDict (idempotency_records s.idempotency) [] tt;
        };
      }

  module _ {D : Type 0} (encode : FileSnapshot → D) (decode : D → Option FileSnapshot) where
    -- What a valid store with room for ids wrote to the file is read back at the next start, if the
    -- codec reads this snapshot back: messages, receipts, keys and the outbox counter are the same,
    -- the counter of gateway ids is not lower, each claimed item is pending again and every other
    -- item is as it was, and the new store is valid.
    pub new_file-persist :
        (now : ℕ) (s : MemoryStore) (disk : Disk D)
        → s.next_outbox < 2 ^ 63
        → IsValid s
        → decode (encode (snapshot now s)) ≡ some (snapshot now s)
        → (t : MemoryStore) × (new_file parse_uint decode (replaced (encode (snapshot now s)) disk)
            ≡ opened t)
          × Restarted s t
    unfolding new_file replaced
    new_file-persist now s disk room v read = (
      restore parse_uint (snapshot now s),
      ap (restore_decoded parse_uint) read,
      restore-Restarted now s room v,
    )
