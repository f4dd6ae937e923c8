-- ===== src/Store/Tests.antt =====
-- Tests of internal/store/memory.go on concrete data.
use mysmpp.Store.Messages.{list_messages, save_message, get_message}
use mysmpp.Store.Types.{ListOptions, MemoryStore, new_memory, ok, OutboxItem, OutboxState}
use mysmpp.Store.Messages.Pages.{IsPage, list_messages_page_lem}
use mysmpp.Store.Messages.Laws.{list_messages_lem, get-save}
use mysmpp.Base.{
  retain, if◌then◌else◌, leb, take, insert, lookup, ℕ, ◌≡◌, ◌<◌, ◌≤◌, ◌≢◌, ◌+◌, ◌⊎◌, List, [], ◌∷◌,
  All, some, codes, pos, nat_eq, true, false, refl, arith, length, ◌^◌,
}
use mysmpp.Store.Outbox.{claim_outbox, mark_outbox_sending, complete_outbox_send}
use mysmpp.Store.Pendings.{sweep}
use mysmpp.Store.Submit.{submit_atomic, used_quota, Submitted}
use mysmpp.Store.Machine.{run, step, Event}
use mysmpp.Store.Outbox.Claim.{claim_outbox_disjoint}
use mysmpp.Store.Outbox.Sent.{IsSent, complete_outbox_send-IsSent}
use mysmpp.Store.Submit.Laws.{submit_atomic_repeats}
use mysmpp.Store.Submit.Effects.{submit_atomic_quota, IsNew, IsRepeat}
use mysmpp.Store.Valid.{IsValid, new_memory-IsValid}
use mysmpp.Store.Machine.Step.{Advances, step-Advances}
use mysmpp.Store.Machine.History.{run-IsValid, run-is_handed, is_handed}
use mysmpp.Store.Examples.{
  sending_store, sending_store-IsValid, submitted_store, events, item_in_sending, answer,
  valid_date, worker, first_message, first_item, options, debit, submitted_store-IsValid,
}

-- What may follow: a retry, an acknowledgement and a completion.
abbrev later_events : List (ℕ × Event)
later_events =
    (8, Event.requeues_stale 100 (pos 5))
    ∷ (9, Event.fails 1 (codes "late") 50)
    ∷ (10, Event.completes_send 1 worker (answer ∷ []))
    ∷ (11, Event.claims worker (pos 5))
    ∷ []

run-IsValid_example : IsValid (run valid_date new_memory events)
unfolding new_memory
run-IsValid_example = run-IsValid valid_date new_memory events (omega arith) new_memory-IsValid

sending_found : lookup 1 sending_store.outbox ≡ some item_in_sending
unfolding run step submit_atomic claim_outbox mark_outbox_sending new_memory lookup insert retain
sending_found = refl

one_id : sending_store.next_outbox ≡ 1
unfolding run step submit_atomic claim_outbox mark_outbox_sending new_memory lookup insert retain
one_id = refl

sending_room : sending_store.next_outbox + 4 < 2 ^ 64
sending_room = omega (arith, one_id)

run-is_handed_example :
    (item : OutboxItem) × (lookup 1 (run valid_date sending_store later_events).outbox ≡ some item)
    × (is_handed item.state ≡ true)
run-is_handed_example =
    run-is_handed valid_date sending_store later_events 1 item_in_sending sending_room
      sending_store-IsValid sending_found refl

step-Advances_example :
    Advances sending_store
      (step valid_date 10 sending_store (Event.completes_send 1 worker (answer ∷ [])))
step-Advances_example =
    step-Advances valid_date 10 sending_store (Event.completes_send 1 worker (answer ∷ []))
      (omega (arith, sending_room)) sending_store-IsValid

get-save_example :
    (t : MemoryStore) × (save_message sending_store first_message ≡ ok t)
    × (get_message t first_message.id ≡ ok (some first_message))
get-save_example = get-save sending_store first_message sending_store-IsValid.indexed

claim_outbox_disjoint_example :
    All
      (λ a.
        All
          (λ b. a.id ≢ b.id)
          (claim_outbox 7 (claim_outbox 6 submitted_store worker (pos 1)).0 worker (pos 2)).1)
      (claim_outbox 6 submitted_store worker (pos 1)).1
claim_outbox_disjoint_example =
    claim_outbox_disjoint 6 7 submitted_store worker worker (pos 1) (pos 2) submitted_store-IsValid

abbrev completed_store : MemoryStore
completed_store = step valid_date 10 sending_store (Event.completes_send 1 worker (answer ∷ []))

completion_accepted :
    complete_outbox_send 10 sending_store 1 worker (answer ∷ []) ≡ ok completed_store
unfolding run step submit_atomic claim_outbox mark_outbox_sending new_memory complete_outbox_send
    lookup insert retain
completion_accepted = refl

complete_outbox_send_example :
    (item : OutboxItem) × (lookup 1 sending_store.outbox ≡ some item)
    × (((item.state ≡ OutboxState.done) × (completed_store ≡ sending_store))
        ⊎ ((item.state ≡ OutboxState.sending)
            × (item.claimed_by ≡ worker)
            × IsSent 10 sending_store completed_store 1 item (answer ∷ [])))
complete_outbox_send_example =
    complete_outbox_send-IsSent 10 sending_store completed_store 1 worker (answer ∷ [])
      completion_accepted

abbrev first_answer : Submitted
first_answer = record { outbox_id = 1; gateway_id = codes "g1"; repeated = false }

first_accepted :
    submit_atomic valid_date 5 new_memory first_message first_item options
    ≡ (submitted_store, ok first_answer)
unfolding submit_atomic new_memory lookup insert retain
first_accepted = refl

submit_atomic_repeats_example :
    submit_atomic valid_date 8 submitted_store first_message first_item options ≡ (
      sweep 8 submitted_store,
      ok (record { outbox_id = 0; gateway_id = codes "g1"; repeated = true }),
    )
unfolding new_memory
submit_atomic_repeats_example =
    submit_atomic_repeats valid_date 5 8 new_memory submitted_store first_message first_message
      first_item first_item options options first_answer new_memory-IsValid (omega arith) refl refl
      refl first_accepted refl (omega arith)

submit_atomic_quota_example :
    ((used_quota debit.tenant_id debit.date submitted_store
        ≡ used_quota debit.tenant_id debit.date new_memory)
      × IsRepeat (ok first_answer))
    ⊎ ((used_quota debit.tenant_id debit.date submitted_store
          ≡ used_quota debit.tenant_id debit.date new_memory + 2)
        × (used_quota debit.tenant_id debit.date submitted_store ≤ 5)
        × (0 < 2)
        × IsNew first_message.id (ok first_answer))
submit_atomic_quota_example =
    submit_atomic_quota valid_date 5 new_memory submitted_store first_message first_item options
      debit (ok first_answer) refl refl first_accepted

list_messages_example :
    list_messages sending_store
    ≡ ok (
        if leb (length sending_store.messages) 1000
        then sending_store.messages
        else take 100 sending_store.messages)
list_messages_example = list_messages_lem sending_store

abbrev second_page : ListOptions
second_page = record { limit = pos 1; offset = pos 1; client_id = [] }

list_messages_page_example : IsPage sending_store second_page
list_messages_page_example = list_messages_page_lem sending_store second_page
