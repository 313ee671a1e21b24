-- ===== src/Tests/Tables.antt =====
-- The queue of IDs, the content store and the tables of events on the node of the tests.
use drtp.Base.{
  ℕ, ◌≤◌, ◌<◌, ◌≡◌, ◌≢◌, refl, true, false, not, ◌&&◌, ◌||◌, ◌⊎◌, none, some, List, [], ◌∷◌, arith,
  ltb, if◌then◌else◌,
}
use drtp.Base.Seqs.{elem}
use drtp.Base.Maps.{find, has_key}
use drtp.DataIdQueue.{LltcDataIdQueue, contains, set_len, empty, append}
use drtp.DataIdQueue.Invariant.{IsValid, empty-IsValid, push-IsValid}
use drtp.DataIdQueue.Capacity.{Slack, push_all, ids, push_all-Slack}
use drtp.Messages.{Data}
use drtp.Fs.{uint_max}
use drtp.State.{State, Cs, RetransInSingleEvent}
use drtp.State.Ops.{with_transmitted, with_lost, with_waiting, with_single, with_batch}
use drtp.Cs.{find_capsule, lookup_in_cs}
use drtp.Cs.Closest.{lookup_in_cs-closest}
use drtp.Retrans.Events.{
  check_and_record_retransmitted_data_id, compute_next_data_id, clean_wait_for_next_event,
  clean_retran_in_single_events, clean_retran_m_events, add_to_set, set_minus,
}
use drtp.Retrans.Events.Recording.{check_and_record_twice}
use drtp.Retrans.Events.Next.{IsFirstFree, NoWrap, compute_next_data_id_first}
use drtp.Retrans.Events.Cleaning.{
  find-clean_wait_for_next_event, find-clean_retran_in_single_events, on_some_path, cancelled,
  all_cancelled, any_pending,
}
use drtp.Retrans.Events.Cleaning.Batches.{left, emptied, clean_retran_m_events_lem}
use drtp.Retrans.Events.Sets.{set_operations}
use drtp.Retrans.Multiple.{new_lost_data_ids}
use drtp.Retrans.Multiple.Lost.{elem-new_lost_data_ids}
use drtp.Tests.{program, topic, node, capsule_of, store, subgraph}

abbrev ten : LltcDataIdQueue
ten = set_len empty 10

abbrev one_id : LltcDataIdQueue
one_id = append ten 4 100

push-IsValid_example : IsValid one_id
push-IsValid_example = push-IsValid ten 4 100 (unfold program in refl) (empty-IsValid 10)

abbrev two_pushes : List (ℕ × ℕ)
two_pushes = (4, 100) ∷ (9, 120) ∷ []

push_all-Slack_example :
    (d : LltcDataIdQueue) × (push_all two_pushes ten ≡ some d)
    × Slack 10 d
    × ((y : ℕ) → contains d y ≡ (elem y (ids two_pushes) || contains ten y))
unfolding program
push_all-Slack_example = push_all-Slack two_pushes 10 ten (refl, omega arith) (omega arith)

-- Capsule 2 is passed on, capsule 3 lost upstream, and capsules 1 to 3 known.
abbrev busy : State
busy = with_lost (3 ∷ []) (with_transmitted (append ten 2 100) node)

new_id :
    check_and_record_retransmitted_data_id 4 busy
    ≡ some (true, with_transmitted (append (append ten 2 100) 4 0) busy)
unfolding program
new_id = refl

check_and_record_twice_example :
    check_and_record_retransmitted_data_id 4 (with_transmitted (append (append ten 2 100) 4 0) busy)
    ≡ some (false, with_transmitted (append (append ten 2 100) 4 0) busy)
check_and_record_twice_example = check_and_record_twice 4 busy new_id

no_wrap : NoWrap busy.ds
unfolding program
no_wrap id e = ground arith

compute_next_data_id_first_example : IsFirstFree busy.ds 2 (compute_next_data_id busy.ds 1)
compute_next_data_id_first_example = compute_next_data_id_first busy.ds 1 no_wrap (omega arith)

elem-new_lost_data_ids_example : elem 1 (new_lost_data_ids busy.ds 5) ≡ (
    not (
      elem 1 busy.ds.lost_data_ids_from_prev_routers
      || has_key 1 busy.ds.wait_for_next_data_events
      || contains busy.ds.transmitted_data_ids 1)
    && (ltb busy.ds.last_data_id 1 && ltb 1 5))
elem-new_lost_data_ids_example = elem-new_lost_data_ids busy.ds 5 1 (unfold program in omega arith)

abbrev full_store : Cs
full_store = record store { table = capsule_of 6 ∷ capsule_of 4 ∷ [] }

lookup_in_cs-closest_example :
    ((lookup_in_cs full_store topic 2 false ≡ some (0, none))
      × ((y : ℕ) (d : Data) → 2 < y → y < uint_max → find_capsule full_store topic y ≢ some d))
    ⊎ ((x : ℕ) × (found : Data) × (lookup_in_cs full_store topic 2 false ≡ some (x, some found))
        × (find_capsule full_store topic x ≡ some found)
        × (2 < x)
        × ((y : ℕ) (d : Data) → 2 < y → find_capsule full_store topic y ≡ some d → x ≤ y))
lookup_in_cs-closest_example =
    lookup_in_cs-closest full_store topic 2 (unfold program in refl) refl (omega arith)

abbrev timer : RetransInSingleEvent
timer = record { e = some 0; req_time = 0 }

abbrev waiting : State
waiting = with_waiting ((2, timer) ∷ (5, timer) ∷ []) node

find-clean_wait_for_next_event_example :
    (find 5 ((clean_wait_for_next_event 2 waiting).0).ds.wait_for_next_data_events
      ≡ find 5 waiting.ds.wait_for_next_data_events)
    × (((clean_wait_for_next_event 2 waiting).0).env.calls
        ≡ cancelled (find 2 waiting.ds.wait_for_next_data_events) waiting.env.calls)
    × ((clean_wait_for_next_event 2 waiting).1 ≡ has_key 2 waiting.ds.wait_for_next_data_events)
find-clean_wait_for_next_event_example = find-clean_wait_for_next_event 2 5 waiting

-- A request for capsule 2 on path 1.
abbrev requested : State
requested = with_single ((8589934593, timer) ∷ []) node

find-clean_retran_in_single_events_example :
    (find 8589934593
        ((clean_retran_in_single_events 2 subgraph requested).0).ds.retrans_in_single_events
      ≡ (if on_some_path 2 8589934593 subgraph.fib_entries
          then none
          else find 8589934593 requested.ds.retrans_in_single_events))
    × (((clean_retran_in_single_events 2 subgraph requested).0).env.calls
        ≡ all_cancelled 2 subgraph.fib_entries requested.ds.retrans_in_single_events
            requested.env.calls)
    × ((clean_retran_in_single_events 2 subgraph requested).1
        ≡ any_pending 2 subgraph.fib_entries requested.ds.retrans_in_single_events)
find-clean_retran_in_single_events_example =
    find-clean_retran_in_single_events 2 8589934593 subgraph requested

abbrev batches : State
batches = with_batch ((0, record { e = some 1; time = 5; retrans_data_ids = 2 ∷ 6 ∷ [] }) ∷ []) node

clean_retran_m_events_lem_example :
    (find 0 (clean_retran_m_events 2 batches).ds.retrans_in_batch_events
      ≡ left 2 (find 0 batches.ds.retrans_in_batch_events))
    × ((clean_retran_m_events 2 batches).env.calls
        ≡ emptied 2 batches.ds.retrans_in_batch_events batches.env.calls)
clean_retran_m_events_lem_example =
    clean_retran_m_events_lem 2 0 batches (unfold program in (refl, (refl, (refl, tt)), tt))

set_operations_example :
    (elem 4 (add_to_set (4 ∷ 2 ∷ []) (2 ∷ [])) ≡ (elem 4 (4 ∷ 2 ∷ []) || elem 4 (2 ∷ [])))
    × (elem 4 (set_minus (4 ∷ 2 ∷ []) (2 ∷ [])) ≡ (elem 4 (4 ∷ 2 ∷ []) && not (elem 4 (2 ∷ []))))
set_operations_example = set_operations 4 (4 ∷ 2 ∷ []) (2 ∷ [])
