-- ===== src/Retrans/Events.antt =====
-- The tables of pending events of lltc-strategy-service-sublayer-retrans-control.cpp
-- (NFD/daemon/fw): recording and cleaning. A function of the source that takes the pointer `ds`
-- takes the state whose `ds` it is.
pub mod Recording
pub mod Next
pub mod Cleaning
pub mod Sets
use Prim.Native.Nat.{bit_or}
use drtp.Base.{
  ℕ, zero, suc, ◌+◌, ◌*◌, ◌%◌, ◌^◌, Bool, true, false, ◌||◌, Option, none, some, List, [], ◌∷◌, map,
  ◌==◌, if◌then◌else◌, ◌>>=◌,
}
use drtp.Base.Seqs.{length, elem, insert, remove, remove_first}
use drtp.Base.Maps.{find, assign, erase}
use drtp.DataIdQueue.{contains, push}
use drtp.Fs.{LltcFibEntry, ForwardingStateForRsg}
use drtp.State.{
  State, CapsuleForwardingStates, RetransInSingleEvent, RetransInMultipleEvent,
  WaitForRetransInBatchEvent, remove_event,
}
use drtp.State.Ops.{
  call, with_transmitted, with_waiting, with_single, with_batch, with_batch_waits, with_id_sets,
}

abbrev no_single_event : RetransInSingleEvent
no_single_event = record { e = none; req_time = 0 }

abbrev no_multiple_event : RetransInMultipleEvent
no_multiple_event = record { e = none; time = 0; retrans_data_ids = [] }

single_or_new : Option RetransInSingleEvent → RetransInSingleEvent
single_or_new none = no_single_event
single_or_new (some ev) = ev

-- `m[k]` of the tables of single events, which adds an entry where there is none.
unfoldable pub single_event : ℕ → List (ℕ × RetransInSingleEvent) → RetransInSingleEvent
unfolding single_or_new
single_event k m = single_or_new (find k m)

multiple_or_new : Option RetransInMultipleEvent → RetransInMultipleEvent
multiple_or_new none = no_multiple_event
multiple_or_new (some ev) = ev

-- `getRetranMEvent`.
unfoldable pub get_retran_m_event : ℕ → List (ℕ × RetransInMultipleEvent) → RetransInMultipleEvent
unfolding multiple_or_new
get_retran_m_event rbi m = multiple_or_new (find rbi m)

-- `checkAndRecordRetransmittedDataId`.
unfoldable pub check_and_record_retransmitted_data_id : ℕ → State → Option (Bool × State)
check_and_record_retransmitted_data_id id σ =
    if contains σ.ds.transmitted_data_ids id
    then some (false, σ)
    else (push σ.ds.transmitted_data_ids id σ.env.now >>= λ q. some (true, with_transmitted q σ))

-- `computeDataRetransID`.
unfoldable pub compute_data_retrans_id : ℕ → ℕ → ℕ
compute_data_retrans_id data_id path_id = bit_or (data_id * 2 ^ 32 % 2 ^ 64) path_id

-- The loop of `computeNextDataId`, with fuel.
next_free : ℕ → CapsuleForwardingStates → ℕ → ℕ
next_free zero ds next = next
next_free (suc fuel) ds next =
    let rest = next_free fuel ds ((next + 1) % 2 ^ 32) in
    if elem next ds.lost_data_ids_from_prev_routers || contains ds.transmitted_data_ids next
    then rest
    else next

-- `computeNextDataId`. There are at most as many IDs to skip as the two sets hold.
unfoldable pub compute_next_data_id : CapsuleForwardingStates → ℕ → ℕ
unfolding next_free
compute_next_data_id ds cur =
    next_free (length ds.lost_data_ids_from_prev_routers + length ds.transmitted_data_ids.set + 1)
      ds ((cur + 1) % 2 ^ 32)

-- `cleanWaitForNextEvent`.
unfoldable pub clean_wait_for_next_event : ℕ → State → State × Bool
clean_wait_for_next_event id σ = elim (find id σ.ds.wait_for_next_data_events) [
  | some ev ↦
      (with_waiting (erase id σ.ds.wait_for_next_data_events) (call (remove_event ev.e) σ), true)
  | none ↦ (σ, false)
]

-- One round of `cleanRetranInSingleEvents`, for one entry of the FIB.
clean_single_on : ℕ → State → State × Bool
clean_single_on dpi σ = elim (find dpi σ.ds.retrans_in_single_events) [
  | some ev ↦
      (with_single (erase dpi σ.ds.retrans_in_single_events) (call (remove_event ev.e) σ), true)
  | none ↦ (σ, false)
]

clean_single_loop : ℕ → List LltcFibEntry → State → State × Bool
clean_single_loop id [] σ = (σ, false)
clean_single_loop id (fe ∷ fes) σ =
    let (σ', here) = clean_single_on (compute_data_retrans_id id fe.path_id) σ in
    let (σ'', later) = clean_single_loop id fes σ' in (σ'', here || later)

-- `cleanRetranInSingleEvents`.
unfoldable pub clean_retran_in_single_events : ℕ → ForwardingStateForRsg → State → State × Bool
unfolding clean_single_on clean_single_loop
clean_retran_in_single_events id fs σ = clean_single_loop id fs.fib_entries σ

set_at : ℕ → List (ℕ × List ℕ) → List ℕ
set_at p m = elim (find p m) [ some ids ↦ ids | none ↦ [] ]

-- The events behind the first one whose set holds the ID, and that event.
split_at_holder :
    ℕ
    → List (ℕ × List ℕ)
    → List WaitForRetransInBatchEvent
    → Option (WaitForRetransInBatchEvent × List WaitForRetransInBatchEvent)
unfolding set_at
split_at_holder id m [] = none
split_at_holder id m (ev ∷ evs) =
    let rest = split_at_holder id m evs in
    if elem id (set_at ev.data_ids m)
    then some (ev, evs)
    else elim rest [ none ↦ none | some (hit, others) ↦ some (hit, ev ∷ others) ]

-- The body of the loop of `cleanWaitForRequestMEvents`, at the event found: the ID leaves the shared
-- set, the task is removed if the set is empty, and the event leaves the list either way.
release_holder : ℕ → State → WaitForRetransInBatchEvent → List WaitForRetransInBatchEvent → State
unfolding set_at
release_holder id σ hit others =
    let ids = remove id (set_at hit.data_ids σ.ds.id_sets) in
    let σ' = with_batch_waits others (with_id_sets (assign hit.data_ids ids σ.ds.id_sets) σ) in
    if length ids == 0 then call (remove_event hit.e) σ' else σ'

-- `cleanWaitForRequestMEvents`.
unfoldable pub clean_wait_for_request_m_events : ℕ → State → State
unfolding split_at_holder release_holder
clean_wait_for_request_m_events id σ =
    elim (split_at_holder id σ.ds.id_sets σ.ds.wait_for_retrans_in_batch_events) [
      | none ↦ σ
      | some (hit, others) ↦ release_holder id σ hit others
    ]

-- `cleanRetranMEvents(ds, bri, retransDataId)`: an empty event is removed, any other loses the ID.
clean_batch_event : ℕ → ℕ → State → RetransInMultipleEvent → State
clean_batch_event bri id σ rbe =
    if length rbe.retrans_data_ids == 0
    then with_batch (erase bri σ.ds.retrans_in_batch_events) (call (remove_event rbe.e) σ)
    else with_batch
        (assign bri (record rbe { retrans_data_ids = remove_first id rbe.retrans_data_ids })
          σ.ds.retrans_in_batch_events)
        σ

unfoldable pub clean_retran_m_events_of : ℕ → ℕ → State → State
unfolding clean_batch_event
clean_retran_m_events_of bri id σ = elim (find bri σ.ds.retrans_in_batch_events) [
  | none ↦ σ
  | some rbe ↦ clean_batch_event bri id σ rbe
]

-- `cleanRetranMEvents(ds, retransDataId)`: every event loses the ID, and the events that are then
-- empty are removed.
without_id : ℕ → ℕ × RetransInMultipleEvent → ℕ × RetransInMultipleEvent
without_id id (k, rbe) = (k, record rbe { retrans_data_ids = remove_first id rbe.retrans_data_ids })

drop_empty : List (ℕ × RetransInMultipleEvent) → List (ℕ × RetransInMultipleEvent)
drop_empty [] = []
drop_empty ((k, rbe) ∷ m) =
    let rest = drop_empty m in if length rbe.retrans_data_ids == 0 then rest else (k, rbe) ∷ rest

remove_empty : List (ℕ × RetransInMultipleEvent) → State → State
remove_empty [] σ = σ
remove_empty ((k, rbe) ∷ m) σ =
    remove_empty m (if length rbe.retrans_data_ids == 0 then call (remove_event rbe.e) σ else σ)

unfoldable pub clean_retran_m_events : ℕ → State → State
unfolding without_id drop_empty remove_empty
clean_retran_m_events id σ =
    let m = map (without_id id) σ.ds.retrans_in_batch_events in
    with_batch (drop_empty m) (remove_empty m σ)

-- `addToSet`.
unfoldable pub add_to_set : List ℕ → List ℕ → List ℕ
add_to_set [] set = set
add_to_set (id ∷ ids) set = add_to_set ids (insert id set)

-- `setMinus`.
pub minus_onto : List ℕ → List ℕ → List ℕ → List ℕ
minus_onto [] set rest = rest
minus_onto (id ∷ ids) set rest = minus_onto ids set (if elem id set then rest else insert id rest)

unfoldable pub set_minus : List ℕ → List ℕ → List ℕ
unfolding minus_onto
set_minus ids set = minus_onto ids set []
