-- ===== src/Retrans/Report.antt =====
-- `onReceiveReport` of lltc-strategy-service-sublayer-retrans-control.cpp (NFD/daemon/fw).
pub mod Once
use drtp.Base.{
  ℕ, zero, suc, ◌+◌, ◌-◌, ◌%◌, ◌^◌, Option, none, some, List, [], ◌∷◌, ◌++◌, ltb, if◌then◌else◌,
}
use drtp.Base.Seqs.{elem, insert}
use drtp.Base.Maps.{find, assign, has_key}
use drtp.Messages.{Data, ReportUri}
use drtp.Fs.{LltcFibEntry, ForwardingStateForRsg, lookup_forwarding_entry}
use drtp.State.{State, PitEntry, WaitForRetransInBatchEvent, wait_to_request_m}
use drtp.State.Ops.{
  schedule_task, send_lltc_non_pit_data, with_lost, with_batch_waits, with_id_sets,
  with_batch_wait_id, with_report_uids,
}
use drtp.Forwarding.{down_path}
use drtp.Retrans.Events.{
  compute_next_data_id, clean_wait_for_next_event, clean_retran_in_single_events,
  clean_retran_m_events, add_to_set, set_minus,
}
use drtp.Retrans.Timers.{wait_for_next_capsule}

-- A task that requests the IDs once the upstream node has had its time. The set is shared with the
-- task, and is named by the number of the event. `cout << "exception!"` where there is no timeout.
plan_request : List ℕ → PitEntry → ℕ → State → Option ℕ → State
plan_request ids pit rsg_id σ none = σ
plan_request ids pit rsg_id σ (some timeout) =
    let event_id = σ.ds.cur_wait_for_retrans_in_batch_event_id in
    let event : WaitForRetransInBatchEvent = record {
      event_id = event_id;
      data_ids = event_id;
      e = some σ.env.scheduled;
      time = σ.env.now;
    } in
    with_batch_waits (σ.ds.wait_for_retrans_in_batch_events ++ (event ∷ [])) (
      with_id_sets (assign event_id ids σ.ds.id_sets) (
        with_batch_wait_id ((event_id + 1) % 2 ^ 32)
          (schedule_task timeout (wait_to_request_m event_id event_id pit rsg_id) σ)))

plan_requests : List ℕ → ReportUri → PitEntry → ForwardingStateForRsg → ℕ → State → State
unfolding plan_request
plan_requests [] rdru pit fs rsg_id σ = σ
plan_requests (id ∷ ids) rdru pit fs rsg_id σ =
    plan_request (id ∷ ids) pit rsg_id σ
      (find rdru.source_node_id fs.waiting_timeout_on_retrans_report)

-- One round of the loop over the lost IDs; `most` is `maxDataIdInWaiting`, with `none` for -1.
later : ℕ → Option ℕ → Option ℕ
later id none = some id
later id (some m) = if ltb m id then some id else some m

cancel_lost : ℕ → ForwardingStateForRsg → State → Option ℕ → State × Option ℕ
unfolding later
cancel_lost id fs σ most =
    if has_key id σ.ds.wait_for_next_data_events
    then (
      clean_retran_m_events id
          ((clean_retran_in_single_events id fs ((clean_wait_for_next_event id σ).0)).0),
      later id most,
    )
    else (clean_retran_m_events id σ, most)

cancel_loop : List ℕ → ForwardingStateForRsg → State → Option ℕ → State × Option ℕ
unfolding cancel_lost
cancel_loop [] fs σ most = (σ, most)
cancel_loop (id ∷ ids) fs σ most =
    let (σ', most') = cancel_lost id fs σ most in cancel_loop ids fs σ' most'

resume_waiting : PitEntry → ForwardingStateForRsg → ℕ → State × Option ℕ → State
resume_waiting pit fs rsg_id (σ, none) = σ
resume_waiting pit fs rsg_id (σ, some most) =
    let next = compute_next_data_id σ.ds most in
    wait_for_next_capsule next pit ((next + 2 ^ 32 - most) % 2 ^ 32) rsg_id fs 0 σ

-- What a report with IDs does: the new ones are planned, all are noted as lost, and the requests for
-- them of this node are cancelled.
take_report : List ℕ → ReportUri → PitEntry → ForwardingStateForRsg → ℕ → State → State
unfolding plan_requests cancel_loop resume_waiting
take_report [] rdru pit fs rsg_id σ = σ
take_report (id ∷ ids) rdru pit fs rsg_id σ =
    let fresh = set_minus (id ∷ ids) σ.ds.lost_data_ids_from_prev_routers in
    let σ1 = plan_requests fresh rdru pit fs rsg_id σ in
    let lost = add_to_set (id ∷ ids) σ1.ds.lost_data_ids_from_prev_routers in
    resume_waiting pit fs rsg_id (cancel_loop lost fs (with_lost lost σ1) none)

send_times : ℕ → Data → ℕ → ℕ → ℕ → State → State
send_times zero packet face rsg_id path_id σ = σ
send_times (suc n) packet face rsg_id path_id σ =
    send_times n packet face rsg_id path_id (send_lltc_non_pit_data packet face rsg_id path_id σ)

pass_on : Data → ForwardingStateForRsg → ℕ → State → Option LltcFibEntry → State
unfolding send_times
pass_on packet fs rsg_id σ none = σ
pass_on packet fs rsg_id σ (some fe) =
    send_times σ.env.config.num_data_retrans_reports_to_send packet fe.face_next_hop rsg_id
      (down_path fs) σ

-- `onReceiveReport`, of a packet with the IDs that `extractReport` reads.
unfoldable pub on_receive_report :
    Data → ReportUri → List ℕ → PitEntry → ForwardingStateForRsg → ℕ → State → State
unfolding take_report pass_on
on_receive_report packet rdru ids pit fs rsg_id σ =
    if elem rdru.report_uid σ.ds.recent_data_retrans_report_uids
    then σ
    else (let σ' =
          take_report ids rdru pit fs rsg_id
            (with_report_uids (insert rdru.report_uid σ.ds.recent_data_retrans_report_uids) σ) in
        pass_on packet fs rsg_id σ' (lookup_forwarding_entry σ'.env.coll rsg_id (down_path fs) 0))
