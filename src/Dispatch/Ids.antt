-- ===== src/Dispatch/Ids.antt =====
-- `idAllocator` of internal/dispatch/idalloc.go on the memory store, whose reservation never fails.
use mysmpp.Base.{
  ap, ◌||◌, arith, false, refl, ◌%◌, ◌*◌, ℕ, ◌≡◌, ◌+◌, ◌≤◌, ◌<◌, ◌^◌, List, [], ◌∷◌, if◌then◌else◌,
  ltb, nat_eqb, zero, suc, Bool-cases, inl, inr,
}
use mathlib.Core.Path.{subst}
use mysmpp.Store.Types.{MemoryStore}
use mysmpp.Store.Submit.{reserve_gateway_id_range}

pub record IdAllocator : Type 0 where
  pub next : ℕ
  pub end : ℕ
  pub span : ℕ

-- `newIDAllocator`.
unfoldable pub new_id_allocator : ℕ → IdAllocator
new_id_allocator span = record { next = 0; end = 0; span = (if nat_eqb span 0 then 1000 else span) }

refill : IdAllocator → MemoryStore → IdAllocator × MemoryStore
unfolding reserve_gateway_id_range
refill a s =
    let (s', start, end) = reserve_gateway_id_range s a.span in
    (record a { next = start; end = end }, s')

-- The allocator and the store when an id is due.
unfoldable pub with_ids : IdAllocator → MemoryStore → IdAllocator × MemoryStore
unfolding refill
with_ids a s = if nat_eqb a.next 0 || ltb a.end a.next then refill a s else (a, s)

-- `Next`: the id, the allocator and the store.
unfoldable pub next_gateway_id : IdAllocator → MemoryStore → ℕ × IdAllocator × MemoryStore
unfolding with_ids
next_gateway_id a s =
    let (b, t) = with_ids a s in (b.next, record b { next = (b.next + 1) % 2 ^ 64 }, t)

-- The ids of `n` calls in a row.
unfoldable pub gateway_ids : ℕ → IdAllocator → MemoryStore → List ℕ
unfolding next_gateway_id
gateway_ids zero a s = []
gateway_ids (suc n) a s = let (id, b, t) = next_gateway_id a s in id ∷ gateway_ids n b t

-- The allocator's range is reserved.
pub record IsReserved (a : IdAllocator) (s : MemoryStore) : Type 0 where
  pub within : a.end ≤ s.gateway_seq
  pub place : a.next ≤ a.end + 1
  pub spans : 0 < a.span

-- From `low` on, each number is larger than the one before.
abbrev pub Ascends : ℕ → List ℕ → Type 0
Ascends low [] = Unit
Ascends low (x ∷ xs) = (low ≤ x) × Ascends (x + 1) xs

pub record Next (a : IdAllocator) (s : MemoryStore) (id : ℕ) (b : IdAllocator) (t : MemoryStore)
    : Type 0 where
  pub positive : 0 < id
  pub fresh : a.next ≤ id
  pub stepped : b.next ≡ id + 1
  pub same_span : b.span ≡ a.span
  pub grows : t.gateway_seq ≤ s.gateway_seq + a.span
  pub reserved : IsReserved b t

-- What `Next` works with: an id is left in a reserved range.
record Ready (a : IdAllocator) (s : MemoryStore) (b : IdAllocator) (t : MemoryStore) : Type 0 where
  left : (0 < b.next) × (b.next ≤ b.end)
  later : a.next ≤ b.next
  kept_span : b.span ≡ a.span
  in_store : (b.end ≤ t.gateway_seq) × (t.gateway_seq ≤ s.gateway_seq + a.span)

refill-Ready :
    (a : IdAllocator) (s : MemoryStore)
    → IsReserved a s
    → s.gateway_seq + a.span + 1 < 2 ^ 64
    → Ready a s (refill a s).0 (refill a s).1
unfolding refill
refill-Ready a s v room =
    let wide : nat_eqb a.span 0 ≡ false = ground (arith, v.spans) in
    let start : (s.gateway_seq + 1) % 2 ^ 64 ≡ s.gateway_seq + 1 = omega arith in
    let last : (s.gateway_seq + a.span) % 2 ^ 64 ≡ s.gateway_seq + a.span = omega arith in
    rw (wide, start, last)
      (record {
        left = (omega arith, omega (arith, v.spans));
        later = omega (arith, v.place, v.within);
        kept_span = refl;
        in_store = (omega arith, omega arith);
      })

with_ids-Ready :
    (a : IdAllocator) (s : MemoryStore)
    → IsReserved a s
    → s.gateway_seq + a.span + 1 < 2 ^ 64
    → Ready a s (with_ids a s).0 (with_ids a s).1
unfolding with_ids
with_ids-Ready a s v room = elim (Bool-cases (nat_eqb a.next 0 || ltb a.end a.next)) [
  | inl out ↦ rw out (refill-Ready a s v room)
  | inr fits ↦ rw fits (record {
    left = (ground arith, ground arith);
    later = omega arith;
    kept_span = refl;
    in_store = (v.within, omega arith);
  })
]

next_gateway_id-Next :
    (a : IdAllocator) (s : MemoryStore)
    → IsReserved a s
    → s.gateway_seq + a.span + 1 < 2 ^ 64
    → Next a s (next_gateway_id a s).0 (next_gateway_id a s).1 (next_gateway_id a s).2
unfolding next_gateway_id
next_gateway_id-Next a s v room =
    let r = with_ids-Ready a s v room in
    let small : ((with_ids a s).0.next + 1) % 2 ^ 64 ≡ (with_ids a s).0.next + 1 =
      omega (arith, r.left.1, r.in_store.0, r.in_store.1) in
    record {
      positive = r.left.0;
      fresh = r.later;
      stepped = small;
      same_span = r.kept_span;
      grows = r.in_store.1;
      reserved = record {
        within = r.in_store.0;
        place = omega (arith, small, r.left.1);
        spans = omega (arith, r.kept_span, v.spans);
      };
    }

-- The ids of any number of calls in a row ascend, so none is given out twice, as long as the
-- ranges that the calls may reserve leave the store's counter below 2 ^ 64.
pub gateway_ids-Ascends :
    (n : ℕ) (a : IdAllocator) (s : MemoryStore)
    → IsReserved a s
    → s.gateway_seq + n * a.span + 1 < 2 ^ 64
    → Ascends a.next (gateway_ids n a s)
unfolding gateway_ids
gateway_ids-Ascends zero a s v room = tt
gateway_ids-Ascends (suc n) a s v room =
    let x = next_gateway_id-Next a s v (omega arith) in
    (
      x.fresh,
      subst (λ k. Ascends k (gateway_ids n (next_gateway_id a s).1 (next_gateway_id a s).2))
          x.stepped
          (gateway_ids-Ascends n (next_gateway_id a s).1 (next_gateway_id a s).2 x.reserved
            (omega (arith, x.grows, ap (λ k. n * k) x.same_span))),
    )
