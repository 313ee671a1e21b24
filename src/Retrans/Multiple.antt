-- ===== src/Retrans/Multiple.antt =====
-- Requests for several capsules at once, of lltc-strategy-service-sublayer-retrans-control.cpp
-- (NFD/daemon/fw): `broadcastRequestMAndWaitForRetranM`, its recursive task, `discoverLostCapsules`
-- and `waitToRequestM`.
pub mod Lost
use drtp.Base.{
  ℕ, zero, suc, ◌+◌, ◌-◌, ◌%◌, ◌^◌, Bool, true, not, ◌||◌, Option, none, some, List, [], ◌∷◌, ◌++◌,
  ◌==◌, ltb, if◌then◌else◌,
}
use drtp.Base.Seqs.{length, elem, keep}
use drtp.Base.Maps.{find, assign, erase, has_key}
use drtp.DataIdQueue.{contains}
use drtp.Messages.{Data, construct_request_m}
use drtp.Fs.{LltcFibEntry, ForwardingStateForRsg, is_upstream_retrans_point}
use drtp.State.{
  State, CapsuleForwardingStates, PitEntry, WaitForRetransInBatchEvent,
  broadcast_request_m_recursive, log_retran,
}
use drtp.State.Ops.{
  call, schedule_task, send_lltc_non_pit_data, with_batch, with_batch_waits, with_batch_id,
}
use drtp.Retrans.Events.{get_retran_m_event}
use drtp.Retrans.Timers.{send_report}
use drtp.Forwarding.{down_path}

log_all : ℕ → ℕ → List ℕ → State → State
log_all rsg_id path_id [] σ = σ
log_all rsg_id path_id (id ∷ ids) σ =
    log_all rsg_id path_id ids (call (log_retran σ.env.coll.local_node_id rsg_id path_id id 1) σ)

-- The loop of the task: a RequestM on each upstream retransmission path.
broadcast_loop : Data → ℕ → List ℕ → List LltcFibEntry → State → State
unfolding log_all
broadcast_loop request rsg_id ids [] σ = σ
broadcast_loop request rsg_id ids (fe ∷ fes) σ = broadcast_loop request rsg_id ids fes (
    if is_upstream_retrans_point fe
    then log_all rsg_id fe.path_id ids
        (send_lltc_non_pit_data request fe.face_next_hop rsg_id fe.path_id σ)
    else σ)

longer : LltcFibEntry → Option ℕ → Option ℕ
longer fe none = some fe.retrans_timeout
longer fe (some t) = if ltb t fe.retrans_timeout then some fe.retrans_timeout else some t

-- `maxRetransTimeoutInUs`, where -1 is `none`.
max_timeout : List LltcFibEntry → Option ℕ → Option ℕ
unfolding longer
max_timeout [] t = t
max_timeout (fe ∷ fes) t = max_timeout fes (if is_upstream_retrans_point fe then longer fe t else t)

-- What follows the loop: the next round is scheduled and its event recorded.
schedule_round : ℕ → ℕ → Bool → PitEntry → ℕ → List ℕ → State → Option ℕ → State
schedule_round rbi rest find_closest pit rsg_id ids σ none = σ
schedule_round rbi rest find_closest pit rsg_id ids σ (some t) =
    with_batch
      (assign rbi (record { e = some σ.env.scheduled; time = σ.env.now; retrans_data_ids = ids })
        σ.ds.retrans_in_batch_events)
      (schedule_task t (broadcast_request_m_recursive rbi rest find_closest pit rsg_id) σ)

-- A round with requests left, for the IDs that the event still holds. `getRetranMEvent` adds the
-- event where there is none.
broadcast_round : ℕ → ℕ → Bool → PitEntry → ForwardingStateForRsg → ℕ → State → State
unfolding broadcast_loop max_timeout schedule_round
broadcast_round rbi rest find_closest pit fs rsg_id σ =
    let rbe = get_retran_m_event rbi σ.ds.retrans_in_batch_events in
    let ids = rbe.retrans_data_ids in
    let request = construct_request_m pit.name rbi ids σ.env.coll.local_node_id find_closest in
    if length ids == 0
    then with_batch (erase rbi σ.ds.retrans_in_batch_events) σ
    else schedule_round rbi rest find_closest pit rsg_id ids
        (broadcast_loop request rsg_id ids fs.fib_entries
          (with_batch (assign rbi rbe σ.ds.retrans_in_batch_events) σ))
        (max_timeout fs.fib_entries none)

-- `broadcastRequestMAndWaitForRetranMRecursive`.
unfoldable pub broadcast_request_m_and_wait_recursive :
    ℕ → ℕ → Bool → PitEntry → ForwardingStateForRsg → ℕ → State → State
unfolding broadcast_round
broadcast_request_m_and_wait_recursive rbi zero find_closest pit fs rsg_id σ = σ
broadcast_request_m_and_wait_recursive rbi (suc rest) find_closest pit fs rsg_id σ =
    broadcast_round rbi rest find_closest pit fs rsg_id σ

-- `rbi = curRetransInBatchID++`, and the IDs appended to the event of that number.
open_batch : List ℕ → State → State
open_batch lost σ =
    let rbi = σ.ds.cur_retrans_in_batch_id in
    let rbe = get_retran_m_event rbi σ.ds.retrans_in_batch_events in
    with_batch
      (assign rbi (record rbe { retrans_data_ids = rbe.retrans_data_ids ++ lost })
        σ.ds.retrans_in_batch_events)
      (with_batch_id ((rbi + 1) % 2 ^ 64) σ)

-- `broadcastRequestMAndWaitForRetranM`.
unfoldable pub broadcast_request_m_and_wait :
    List ℕ → PitEntry → Bool → ForwardingStateForRsg → ℕ → State → State
unfolding open_batch
broadcast_request_m_and_wait lost pit find_closest fs rsg_id σ =
    broadcast_request_m_and_wait_recursive σ.ds.cur_retrans_in_batch_id
      σ.env.config.num_retrans_requests find_closest pit fs rsg_id (open_batch lost σ)

-- `for (id = a; id < a + n; ++id)`.
unfoldable pub range_from : ℕ → ℕ → List ℕ
range_from a zero = []
range_from a (suc n) = a ∷ range_from (a + 1) n

-- Whether `discoverLostCapsules` takes an ID for a new loss.
unfoldable pub is_newly_lost : CapsuleForwardingStates → ℕ → Bool
is_newly_lost ds id = not (
    elem id ds.lost_data_ids_from_prev_routers
    || has_key id ds.wait_for_next_data_events
    || contains ds.transmitted_data_ids id)

unfoldable pub new_lost_data_ids : CapsuleForwardingStates → ℕ → List ℕ
new_lost_data_ids ds cur =
    let first = (ds.last_data_id + 1) % 2 ^ 32 in
    keep (is_newly_lost ds) (range_from first (cur - first))

report_lost : List ℕ → PitEntry → ForwardingStateForRsg → ℕ → State → State
report_lost [] pit fs rsg_id σ = σ
report_lost (id ∷ ids) pit fs rsg_id σ =
    send_report (id ∷ ids) pit rsg_id (down_path fs)
      (broadcast_request_m_and_wait (id ∷ ids) pit true fs rsg_id σ)

-- `discoverLostCapsules`.
unfoldable pub discover_lost_capsules : ℕ → PitEntry → ForwardingStateForRsg → ℕ → State → State
unfolding report_lost
discover_lost_capsules cur pit fs rsg_id σ =
    report_lost (new_lost_data_ids σ.ds cur) pit fs rsg_id σ

without_event : ℕ → List WaitForRetransInBatchEvent → List WaitForRetransInBatchEvent
without_event event_id [] = []
without_event event_id (ev ∷ evs) =
    if ev.event_id == event_id then evs else ev ∷ without_event event_id evs

set_at : ℕ → List (ℕ × List ℕ) → List ℕ
set_at p m = elim (find p m) [ some ids ↦ ids | none ↦ [] ]

request_rest : List ℕ → PitEntry → ForwardingStateForRsg → ℕ → State → State
request_rest [] pit fs rsg_id σ = σ
request_rest (id ∷ ids) pit fs rsg_id σ =
    broadcast_request_m_and_wait (id ∷ ids) pit true fs rsg_id σ

-- `waitToRequestM`: the set that the task was given may have lost IDs since.
unfoldable pub wait_to_request_m : ℕ → ℕ → PitEntry → ForwardingStateForRsg → ℕ → State → State
unfolding without_event set_at request_rest
wait_to_request_m event_id ids pit fs rsg_id σ =
    request_rest
      (keep (λ id. not (contains σ.ds.transmitted_data_ids id)) (set_at ids σ.ds.id_sets)) pit fs
      rsg_id (with_batch_waits (without_event event_id σ.ds.wait_for_retrans_in_batch_events) σ)
