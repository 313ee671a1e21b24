-- ===== src/Retrans/Timers.antt =====
-- Requests for a single capsule, of lltc-strategy-service-sublayer-retrans-control.cpp
-- (NFD/daemon/fw): `sendReport`, `waitForNextCapsule` and the tasks that it schedules.
pub mod Requests
pub mod Unanswered
pub mod Arming
pub mod Waiting
use drtp.Base.{
  ℕ, zero, suc, ◌+◌, ◌%◌, ◌^◌, Bool, true, false, ◌&&◌, Option, none, some, List, [], ◌∷◌, ◌==◌,
  if◌then◌else◌,
}
use drtp.Base.Int.{clamp}
use drtp.Base.Maps.{assign, has_key}
use drtp.Messages.{Data, construct_report, construct_request_s}
use drtp.Fs.{
  LltcFibEntry, ForwardingStateForRsg, lookup_forwarding_entry, is_upstream_retrans_point,
}
use drtp.State.{
  State, PitEntry, RequestCallingParam, wait_for_next_capsule_delayed,
  wait_for_next_capsule_iterative, log_retran, check_link,
}
use drtp.State.Ops.{
  call, schedule_task, send_lltc_non_pit_data, with_waiting, with_single, with_draws,
}
use drtp.Retrans.Events.{single_event, compute_data_retrans_id}

-- The copies of a report, each a packet of its own.
send_copies : ℕ → Data → ℕ → ℕ → ℕ → State → State
send_copies zero packet face rsg_id path_id σ = σ
send_copies (suc n) packet face rsg_id path_id σ =
    send_copies n packet face rsg_id path_id (send_lltc_non_pit_data packet face rsg_id path_id σ)

send_report_on : List ℕ → PitEntry → ℕ → ℕ → State → Option LltcFibEntry → State
unfolding send_copies
send_report_on lost pit rsg_id path_id σ none = σ
send_report_on lost pit rsg_id path_id σ (some fe) =
    let uid = σ.env.random σ.env.draws in
    send_copies σ.env.config.num_data_retrans_reports_to_send
      (construct_report pit.name lost σ.env.coll.local_node_id uid) fe.face_next_hop rsg_id path_id
      (with_draws (σ.env.draws + 1) σ)

-- `sendReport`.
unfoldable pub send_report : List ℕ → PitEntry → ℕ → ℕ → State → State
unfolding send_report_on
send_report lost pit rsg_id path_id σ =
    send_report_on lost pit rsg_id path_id σ (lookup_forwarding_entry σ.env.coll rsg_id path_id 0)

-- `waitForNextCapsule`.
unfoldable pub wait_for_next_capsule :
    ℕ → PitEntry → ℕ → ℕ → ForwardingStateForRsg → ℕ → State → State
wait_for_next_capsule next pit skipped rsg_id fs penalty σ =
    if has_key next σ.ds.wait_for_next_data_events
    then σ
    else with_waiting
        (assign next (record { e = some σ.env.scheduled; req_time = 0 })
          σ.ds.wait_for_next_data_events)
        (schedule_task
          (clamp (σ.env.config.waiting_time skipped fs.waiting_timeout_on_next_packet penalty))
          (wait_for_next_capsule_delayed next pit rsg_id true) σ)

-- `waitForNextCapsuleDelayedTaskIterative`, which sends one RequestS and schedules itself.
request_single : ℕ → RequestCallingParam → PitEntry → LltcFibEntry → Bool → ℕ → State → State
request_single lost rrcp pit fe check rest σ =
    let request =
      construct_request_s pit.name lost σ.env.coll.local_node_id
        rrcp.find_closest_data_if_cs_missed in
    let dri = compute_data_retrans_id lost fe.path_id in
    let sent = send_lltc_non_pit_data request fe.face_next_hop rrcp.rsg_id fe.path_id σ in
    call (log_retran σ.env.coll.local_node_id rrcp.rsg_id fe.path_id lost 0) (
      with_single
        (assign dri (record { e = some σ.env.scheduled; req_time = σ.env.now })
          σ.ds.retrans_in_single_events)
        (schedule_task fe.retrans_timeout
          (wait_for_next_capsule_iterative lost (record rrcp { rest_retrans_requests = rest }) pit
            fe check)
          sent))

iterative_from : ℕ → RequestCallingParam → PitEntry → LltcFibEntry → Bool → ℕ → State → State
unfolding request_single
iterative_from lost rrcp pit fe check zero σ =
    if check && σ.env.config.enable_failover then call (check_link fe.face_next_hop) σ else σ
iterative_from lost rrcp pit fe check (suc rest) σ = request_single lost rrcp pit fe check rest σ

unfoldable pub wait_for_next_capsule_delayed_task_iterative :
    ℕ → RequestCallingParam → PitEntry → LltcFibEntry → Bool → State → State
unfolding iterative_from
wait_for_next_capsule_delayed_task_iterative lost rrcp pit fe check σ =
    iterative_from lost rrcp pit fe check rrcp.rest_retrans_requests σ

-- The loop over the FIB. The source passes `fe->retransTimeout` for the flag.
request_loop : ℕ → PitEntry → ℕ → List LltcFibEntry → State → State
request_loop lost pit rsg_id [] σ = σ
request_loop lost pit rsg_id (fe ∷ fes) σ = request_loop lost pit rsg_id fes (
    if is_upstream_retrans_point fe
    then wait_for_next_capsule_delayed_task_iterative lost
        (record {
          rest_retrans_requests = σ.env.config.num_retrans_requests;
          find_closest_data_if_cs_missed = false;
          rsg_id = rsg_id;
        })
        pit fe (if fe.retrans_timeout == 0 then false else true) σ
    else σ)

note_request_time : ℕ → State → State
note_request_time lost σ =
    with_waiting
      (assign lost
        (record (single_event lost σ.ds.wait_for_next_data_events) { req_time = σ.env.now })
        σ.ds.wait_for_next_data_events)
      σ

-- `waitForNextCapsuleDelayedTask`. The source hands `preferredDownPathId` and `rsgId` to
-- `sendReport` in this order. Its last parameter is not used.
unfoldable pub wait_for_next_capsule_delayed_task :
    ℕ → PitEntry → ForwardingStateForRsg → ℕ → Bool → State → State
unfolding request_loop note_request_time
wait_for_next_capsule_delayed_task lost pit fs rsg_id check_link_states σ =
    request_loop lost pit rsg_id fs.fib_entries (
      note_request_time lost
        (send_report (lost ∷ []) pit (fs.preferred_down_path_id % 2 ^ 32) rsg_id σ))
