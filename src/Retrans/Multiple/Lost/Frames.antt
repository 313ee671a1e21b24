-- ===== src/Retrans/Multiple/Lost/Frames.antt =====
-- What the requests for several capsules (lltc-strategy-service-sublayer-retrans-control.cpp) leave
-- alone.
use drtp.Base.{
  ℕ, zero, suc, ◌+◌, ◌%◌, ◌^◌, Bool, true, not, inl, inr, List, [], ◌∷◌, ◌++◌, Option, none, some,
  ◌==◌, Bool-cases,
}
use drtp.Base.Seqs.{length, keep}
use drtp.Base.Maps.{assign}
use drtp.Messages.{Data, construct_request_m}
use drtp.DataIdQueue.{contains}
use drtp.Fs.{LltcFibEntry, ForwardingStateForRsg, is_upstream_retrans_point}
use drtp.State.{State, PitEntry}
use drtp.State.Ops.{with_batch, with_batch_id}
use drtp.State.Frame.{
  Frame, Frame-refl, Frame-trans, schedule_task-Frame, send_lltc_non_pit_data-Frame,
  with_batch-Frame, with_batch_id-Frame, with_batch_waits-Frame,
}
use drtp.Forwarding.{down_path}
use drtp.Retrans.Events.{get_retran_m_event}
use drtp.Retrans.Timers.Waiting.{log_retran-Frame, send_report-Frame}
use drtp.Retrans.Multiple.{
  log_all, broadcast_loop, max_timeout, schedule_round, broadcast_round,
  broadcast_request_m_and_wait_recursive, open_batch, broadcast_request_m_and_wait, report_lost,
  discover_lost_capsules, new_lost_data_ids, without_event, set_at, request_rest, wait_to_request_m,
}

log_all-Frame :
    (rsg_id path_id : ℕ) (ids : List ℕ) (σ : State) → Frame σ (log_all rsg_id path_id ids σ)
unfolding log_all
log_all-Frame rsg_id path_id [] σ = Frame-refl σ
log_all-Frame rsg_id path_id (id ∷ ids) σ =
    Frame-trans (log_retran-Frame σ.env.coll.local_node_id rsg_id path_id id 1 σ)
      (log_all-Frame rsg_id path_id ids _)

broadcast_loop-Frame :
    (request : Data) (rsg_id : ℕ) (ids : List ℕ) (fes : List LltcFibEntry) (σ : State)
    → Frame σ (broadcast_loop request rsg_id ids fes σ)
unfolding broadcast_loop
broadcast_loop-Frame request rsg_id ids [] σ = Frame-refl σ
broadcast_loop-Frame request rsg_id ids (fe ∷ fes) σ =
    elim (Bool-cases (is_upstream_retrans_point fe)) [
      | inl e ↦ rw e (
          Frame-trans (send_lltc_non_pit_data-Frame request fe.face_next_hop rsg_id fe.path_id σ) (
            Frame-trans (log_all-Frame rsg_id fe.path_id ids _)
              (broadcast_loop-Frame request rsg_id ids fes _)))
      | inr e ↦ rw e (broadcast_loop-Frame request rsg_id ids fes σ)
    ]

schedule_round-Frame :
    (rbi rest : ℕ) (find_closest : Bool) (pit : PitEntry) (rsg_id : ℕ) (ids : List ℕ) (σ : State)
    (t : Option ℕ)
    → Frame σ (schedule_round rbi rest find_closest pit rsg_id ids σ t)
unfolding schedule_round
schedule_round-Frame rbi rest find_closest pit rsg_id ids σ none = Frame-refl σ
schedule_round-Frame rbi rest find_closest pit rsg_id ids σ (some t) =
    Frame-trans (schedule_task-Frame t _ σ) (with_batch-Frame _ _)

broadcast_round-Frame :
    (rbi rest : ℕ) (find_closest : Bool) (pit : PitEntry) (fs : ForwardingStateForRsg) (rsg_id : ℕ)
    (σ : State)
    → Frame σ (broadcast_round rbi rest find_closest pit fs rsg_id σ)
unfolding broadcast_round
broadcast_round-Frame rbi rest find_closest pit fs rsg_id σ =
    let rbe = get_retran_m_event rbi σ.ds.retrans_in_batch_events in
    let ids = rbe.retrans_data_ids in
    let σ' = with_batch (assign rbi rbe σ.ds.retrans_in_batch_events) σ in
    let request = construct_request_m pit.name rbi ids σ.env.coll.local_node_id find_closest in
    elim (Bool-cases (length ids == 0)) [
      | inl e ↦ rw e (with_batch-Frame _ σ)
      | inr e ↦ rw e (
          Frame-trans (with_batch-Frame (assign rbi rbe σ.ds.retrans_in_batch_events) σ) (
            Frame-trans (broadcast_loop-Frame request rsg_id ids fs.fib_entries σ') (
              schedule_round-Frame rbi rest find_closest pit rsg_id ids _
                (max_timeout fs.fib_entries none))))
    ]

pub broadcast_request_m_and_wait_recursive-Frame :
    (rbi rest : ℕ) (find_closest : Bool) (pit : PitEntry) (fs : ForwardingStateForRsg) (rsg_id : ℕ)
    (σ : State)
    → Frame σ (broadcast_request_m_and_wait_recursive rbi rest find_closest pit fs rsg_id σ)
unfolding broadcast_request_m_and_wait_recursive
broadcast_request_m_and_wait_recursive-Frame rbi zero find_closest pit fs rsg_id σ = Frame-refl σ
broadcast_request_m_and_wait_recursive-Frame rbi (suc rest) find_closest pit fs rsg_id σ =
    broadcast_round-Frame rbi rest find_closest pit fs rsg_id σ

open_batch-Frame : (lost : List ℕ) (σ : State) → Frame σ (open_batch lost σ)
unfolding open_batch
open_batch-Frame lost σ =
    let rbi = σ.ds.cur_retrans_in_batch_id in
    let rbe = get_retran_m_event rbi σ.ds.retrans_in_batch_events in
    Frame-trans (with_batch_id-Frame ((rbi + 1) % 2 ^ 64) σ) (
      with_batch-Frame
        (assign rbi (record rbe { retrans_data_ids = rbe.retrans_data_ids ++ lost })
          σ.ds.retrans_in_batch_events)
        (with_batch_id ((rbi + 1) % 2 ^ 64) σ))

pub broadcast_request_m_and_wait-Frame :
    (lost : List ℕ) (pit : PitEntry) (find_closest : Bool) (fs : ForwardingStateForRsg) (rsg_id : ℕ)
    (σ : State)
    → Frame σ (broadcast_request_m_and_wait lost pit find_closest fs rsg_id σ)
unfolding broadcast_request_m_and_wait
broadcast_request_m_and_wait-Frame lost pit find_closest fs rsg_id σ =
    Frame-trans (open_batch-Frame lost σ) (
      broadcast_request_m_and_wait_recursive-Frame σ.ds.cur_retrans_in_batch_id
        σ.env.config.num_retrans_requests find_closest pit fs rsg_id (open_batch lost σ))

report_lost-Frame :
    (ids : List ℕ) (pit : PitEntry) (fs : ForwardingStateForRsg) (rsg_id : ℕ) (σ : State)
    → Frame σ (report_lost ids pit fs rsg_id σ)
unfolding report_lost
report_lost-Frame [] pit fs rsg_id σ = Frame-refl σ
report_lost-Frame (id ∷ ids) pit fs rsg_id σ =
    Frame-trans (broadcast_request_m_and_wait-Frame (id ∷ ids) pit true fs rsg_id σ)
      (send_report-Frame (id ∷ ids) pit rsg_id (down_path fs) _)

pub discover_lost_capsules-Frame :
    (cur : ℕ) (pit : PitEntry) (fs : ForwardingStateForRsg) (rsg_id : ℕ) (σ : State)
    → Frame σ (discover_lost_capsules cur pit fs rsg_id σ)
unfolding discover_lost_capsules
discover_lost_capsules-Frame cur pit fs rsg_id σ =
    report_lost-Frame (new_lost_data_ids σ.ds cur) pit fs rsg_id σ

request_rest-Frame :
    (ids : List ℕ) (pit : PitEntry) (fs : ForwardingStateForRsg) (rsg_id : ℕ) (σ : State)
    → Frame σ (request_rest ids pit fs rsg_id σ)
unfolding request_rest
request_rest-Frame [] pit fs rsg_id σ = Frame-refl σ
request_rest-Frame (id ∷ ids) pit fs rsg_id σ =
    broadcast_request_m_and_wait-Frame (id ∷ ids) pit true fs rsg_id σ

pub wait_to_request_m-Frame :
    (event_id ids : ℕ) (pit : PitEntry) (fs : ForwardingStateForRsg) (rsg_id : ℕ) (σ : State)
    → Frame σ (wait_to_request_m event_id ids pit fs rsg_id σ)
unfolding wait_to_request_m
wait_to_request_m-Frame event_id ids pit fs rsg_id σ =
    Frame-trans
      (with_batch_waits-Frame (without_event event_id σ.ds.wait_for_retrans_in_batch_events) σ)
      (request_rest-Frame
        (keep (λ id. not (contains σ.ds.transmitted_data_ids id)) (set_at ids σ.ds.id_sets)) pit fs
        rsg_id _)
