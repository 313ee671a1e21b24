-- ===== src/Retrans/Arrivals.antt =====
-- Retransmitted capsules that arrive, of lltc-strategy-service-sublayer-retrans-control.cpp
-- (NFD/daemon/fw): `onReceiveRetranS` and `onReceiveRetranM`; and capsules that arrive,
-- `onReceiveCapsule` and `onReceiveCapsuleOnRsp` of lltc-strategy-service-sublayer-forwarding.cpp.
-- `fs` is what `getForwardingState(rsgId)` returns, and `none` a fault.
pub mod Effects
pub mod Once
pub mod Progress
pub mod Duplicates
pub mod Last
use drtp.Base.{
  ℕ, ◌+◌, ◌-◌, ◌%◌, ◌^◌, false, ◌||◌, Option, none, some, List, ◌==◌, ltb, if◌then◌else◌, ◌>>=◌,
}
use drtp.Base.Seqs.{elem, remove}
use drtp.Base.Maps.{assign, has_key}
use drtp.DataIdQueue.{contains}
use drtp.Messages.{Data, RetransType, RetranSUri, RetranMUri, CapsuleOnRspUri, construct_capsule}
use drtp.Fs.{ForwardingStateForRsg}
use drtp.State.{State, PitEntry, wait_for_next_capsule_delayed}
use drtp.State.Ops.{schedule_task, with_last_data_id, with_lost, with_waiting, with_cs}
use drtp.Cs.{find_capsule}
use drtp.Cs
use drtp.Forwarding.{deliver_capsule}
use drtp.Retrans.Events.{
  single_event, check_and_record_retransmitted_data_id, compute_next_data_id,
  clean_wait_for_next_event, clean_retran_in_single_events, clean_wait_for_request_m_events,
  clean_retran_m_events_of,
}
use drtp.Retrans.Timers.{wait_for_next_capsule}
use drtp.Retrans.Multiple.{discover_lost_capsules}

-- `waitForNextCapsule(nextDataId, …, nextDataId - ds->lastDataId, …)` with
-- `nextDataId = computeNextDataId(ds, ds->lastDataId)`.
unfoldable pub await_next : PitEntry → ℕ → ForwardingStateForRsg → ℕ → State → State
await_next pit rsg_id fs penalty σ =
    let next = compute_next_data_id σ.ds σ.ds.last_data_id in
    wait_for_next_capsule next pit ((next + 2 ^ 32 - σ.ds.last_data_id) % 2 ^ 32) rsg_id fs penalty
      σ

-- A new capsule leaves the lost IDs, or shows which IDs before it are lost, and is the last ID if it
-- is later.
pub note_arrival : ℕ → PitEntry → ℕ → ForwardingStateForRsg → State → State
note_arrival id pit rsg_id fs σ =
    if elem id σ.ds.lost_data_ids_from_prev_routers
    then with_lost (remove id σ.ds.lost_data_ids_from_prev_routers) σ
    else (let σ' =
          if ltb ((σ.ds.last_data_id + 1) % 2 ^ 32) id
          then discover_lost_capsules id pit fs rsg_id σ
          else σ in
        if ltb σ'.ds.last_data_id id then with_last_data_id id σ' else σ')

pub clean_arrived : ℕ → ForwardingStateForRsg → State → State
clean_arrived id fs σ =
    clean_wait_for_request_m_events id
      ((clean_retran_in_single_events id fs ((clean_wait_for_next_event id σ).0)).0)

-- The rest of `onReceiveCapsule`, for a capsule that is new.
pub accept_capsule : Data → ℕ → List ℕ → PitEntry → ℕ → ForwardingStateForRsg → State → Option State
unfolding note_arrival clean_arrived
accept_capsule packet id content pit rsg_id fs σ =
    deliver_capsule pit packet content id rsg_id fs
      (clean_arrived id fs (note_arrival id pit rsg_id fs σ))
    >>= λ σ'. some (if id == σ'.ds.last_data_id then await_next pit rsg_id fs 0 σ' else σ')

-- `onReceiveCapsule`, of a packet with this data ID and content.
unfoldable pub on_receive_capsule :
    Data → ℕ → List ℕ → PitEntry → ℕ → ForwardingStateForRsg → State → Option State
unfolding accept_capsule
on_receive_capsule packet id content pit rsg_id fs σ =
    if σ.env.config.disable_retran
    then deliver_capsule pit packet content id rsg_id fs σ
    else (check_and_record_retransmitted_data_id id σ >>= λ r.
        if r.0 then accept_capsule packet id content pit rsg_id fs (r.1) else some (r.1))

-- `onReceiveCapsuleOnRsp`.
unfoldable pub on_receive_capsule_on_rsp :
    Data → CapsuleOnRspUri → List ℕ → PitEntry → ℕ → ForwardingStateForRsg → State → Option State
on_receive_capsule_on_rsp packet dbu content pit rsg_id fs =
    on_receive_capsule (construct_capsule pit.name dbu.data_id content packet.freshness_period)
      dbu.data_id content pit rsg_id fs

-- `if (localCs->find(name) == localCs->end()) localCs->insert(newData)`.
pub store_capsule : Data → ℕ → PitEntry → State → State
store_capsule packet id pit σ = elim (find_capsule σ.env.local_cs pit.name id) [
  | some old ↦ σ
  | none ↦ with_cs (Cs.insert σ.env.local_cs pit.name id packet) σ
]

-- A later capsule than the last is the last, and the next one is awaited.
unfoldable pub advance : ℕ → PitEntry → ℕ → ForwardingStateForRsg → ℕ → State → State
advance id pit rsg_id fs penalty σ =
    if ltb σ.ds.last_data_id id
    then await_next pit rsg_id fs penalty (with_last_data_id id σ)
    else σ

-- The answer to a request that the upstream node cannot serve.
pub miss_answer : RetranSUri → PitEntry → ℕ → ForwardingStateForRsg → State → State
miss_answer dru pit rsg_id fs σ =
    let σ' = (clean_retran_in_single_events dru.requested_data_id fs σ).0 in
    if has_key dru.data_id σ'.ds.wait_for_next_data_events
      || contains σ'.ds.transmitted_data_ids dru.data_id
    then σ'
    else with_waiting
        (assign dru.data_id (record { e = some σ'.env.scheduled; req_time = 0 })
          σ'.ds.wait_for_next_data_events)
        (schedule_task fs.waiting_timeout_on_next_packet_for_lost_report
          (wait_for_next_capsule_delayed dru.data_id pit rsg_id false) σ')

-- `ds->waitForNextDataEvents[dataId].reqTime`, which adds an entry where there is none.
touch_waiting : ℕ → State → State
touch_waiting id σ =
    with_waiting
      (assign id (single_event id σ.ds.wait_for_next_data_events) σ.ds.wait_for_next_data_events) σ

-- The rest of `onReceiveRetranS`, for a capsule that is new. A request time is not later than now.
pub accept_retran_s :
    Data → RetranSUri → List ℕ → PitEntry → ℕ → ForwardingStateForRsg → State → Option State
unfolding touch_waiting store_capsule
accept_retran_s packet dru content pit rsg_id fs σ =
    let waited = single_event dru.data_id σ.ds.wait_for_next_data_events in
    let penalty = (σ.env.now - waited.req_time + dru.drifting_delta) % 2 ^ 64 in
    let σ1 = (clean_wait_for_next_event dru.requested_data_id (touch_waiting dru.data_id σ)).0 in
    let σ2 = (clean_retran_in_single_events dru.requested_data_id fs σ1).0 in
    let capsule = construct_capsule pit.name dru.data_id content packet.freshness_period in
    deliver_capsule pit capsule content dru.requested_data_id rsg_id fs
      (store_capsule capsule dru.data_id pit σ2)
    >>= λ σ3. some (advance dru.data_id pit rsg_id fs penalty σ3)

pub retran_s_of_type :
    RetransType
    → Data
    → RetranSUri
    → List ℕ
    → PitEntry
    → ℕ
    → ForwardingStateForRsg
    → State
    → Option State
unfolding miss_answer accept_retran_s
retran_s_of_type RetransType.miss packet dru content pit rsg_id fs σ =
    some (miss_answer dru pit rsg_id fs σ)
retran_s_of_type type packet dru content pit rsg_id fs σ =
    check_and_record_retransmitted_data_id dru.data_id σ >>= λ r.
    if r.0 then accept_retran_s packet dru content pit rsg_id fs (r.1) else some (r.1)

-- `onReceiveRetranS`.
unfoldable pub on_receive_retran_s :
    Data → RetranSUri → List ℕ → PitEntry → ℕ → ForwardingStateForRsg → State → Option State
unfolding retran_s_of_type
on_receive_retran_s packet dru = retran_s_of_type dru.type packet dru

pub accept_retran_m :
    Data → RetranMUri → List ℕ → PitEntry → ℕ → ForwardingStateForRsg → State → Option State
unfolding store_capsule
accept_retran_m packet drbu content pit rsg_id fs σ =
    let capsule = construct_capsule pit.name drbu.data_id content packet.freshness_period in
    deliver_capsule pit capsule content drbu.requested_data_id rsg_id fs
      (store_capsule capsule drbu.data_id pit (clean_retran_m_events_of drbu.bri drbu.data_id σ))
    >>= λ σ'. some (advance drbu.data_id pit rsg_id fs 0 σ')

-- `onReceiveRetranM`.
unfoldable pub on_receive_retran_m :
    Data → RetranMUri → List ℕ → PitEntry → ℕ → ForwardingStateForRsg → State → Option State
unfolding accept_retran_m
on_receive_retran_m packet drbu content pit rsg_id fs σ =
    check_and_record_retransmitted_data_id drbu.data_id σ >>= λ r.
    if r.0 then accept_retran_m packet drbu content pit rsg_id fs (r.1) else some (r.1)
