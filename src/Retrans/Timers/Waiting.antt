-- ===== src/Retrans/Timers/Waiting.antt =====
-- What the timers of lltc-strategy-service-sublayer-retrans-control.cpp leave alone.
use drtp.Base.{
  ℕ, zero, suc, ◌+◌, refl, Bool, inl, inr, List, [], ◌∷◌, Option, none, some, ◌&&◌, Bool-cases,
}
use drtp.Base.Maps.{has_key}
use drtp.Messages.{Data, construct_report}
use drtp.Fs.{LltcFibEntry, ForwardingStateForRsg, is_upstream_retrans_point}
use drtp.State.{State, PitEntry, RequestCallingParam, log_retran, check_link}
use drtp.State.Ops.{call, with_draws}
use drtp.State.Frame.{
  Frame, Frame-refl, Frame-trans, call-Frame, is_delivery, schedule_task-Frame,
  send_lltc_non_pit_data-Frame, with_waiting-Frame, with_single-Frame, with_draws-Frame,
}
use drtp.Retrans.Timers.{
  send_copies, send_report_on, send_report, wait_for_next_capsule, request_single, iterative_from,
  wait_for_next_capsule_delayed_task_iterative, request_loop, note_request_time,
  wait_for_next_capsule_delayed_task,
}

pub log_retran-Frame :
    (node rsg_id path_id id type : ℕ) (σ : State)
    → Frame σ (call (log_retran node rsg_id path_id id type) σ)
unfolding is_delivery
log_retran-Frame node rsg_id path_id id type σ = call-Frame _ σ (λ _. refl)

check_link-Frame : (face : ℕ) (σ : State) → Frame σ (call (check_link face) σ)
unfolding is_delivery
check_link-Frame face σ = call-Frame (check_link face) σ (λ _. refl)

send_copies-Frame :
    (n : ℕ) (packet : Data) (face rsg_id path_id : ℕ) (σ : State)
    → Frame σ (send_copies n packet face rsg_id path_id σ)
unfolding send_copies
send_copies-Frame zero packet face rsg_id path_id σ = Frame-refl σ
send_copies-Frame (suc n) packet face rsg_id path_id σ =
    Frame-trans (send_lltc_non_pit_data-Frame packet face rsg_id path_id σ)
      (send_copies-Frame n packet face rsg_id path_id _)

send_report_on-Frame :
    (lost : List ℕ) (pit : PitEntry) (rsg_id path_id : ℕ) (σ : State) (fe : Option LltcFibEntry)
    → Frame σ (send_report_on lost pit rsg_id path_id σ fe)
unfolding send_report_on
send_report_on-Frame lost pit rsg_id path_id σ none = Frame-refl σ
send_report_on-Frame lost pit rsg_id path_id σ (some fe) =
    Frame-trans (with_draws-Frame (σ.env.draws + 1) σ) (
      send_copies-Frame σ.env.config.num_data_retrans_reports_to_send
        (construct_report pit.name lost σ.env.coll.local_node_id (σ.env.random σ.env.draws))
        fe.face_next_hop rsg_id path_id (with_draws (σ.env.draws + 1) σ))

pub send_report-Frame :
    (lost : List ℕ) (pit : PitEntry) (rsg_id path_id : ℕ) (σ : State)
    → Frame σ (send_report lost pit rsg_id path_id σ)
unfolding send_report
send_report-Frame lost pit rsg_id path_id σ = send_report_on-Frame lost pit rsg_id path_id σ _

pub wait_for_next_capsule-Frame :
    (next : ℕ) (pit : PitEntry) (skipped rsg_id : ℕ) (fs : ForwardingStateForRsg) (penalty : ℕ)
    (σ : State)
    → Frame σ (wait_for_next_capsule next pit skipped rsg_id fs penalty σ)
unfolding wait_for_next_capsule
wait_for_next_capsule-Frame next pit skipped rsg_id fs penalty σ =
    elim (Bool-cases (has_key next σ.ds.wait_for_next_data_events)) [
      | inl e ↦ rw e (Frame-refl σ)
      | inr e ↦ rw e (Frame-trans (schedule_task-Frame _ _ σ) (with_waiting-Frame _ _))
    ]

request_single-Frame :
    (lost : ℕ) (rrcp : RequestCallingParam) (pit : PitEntry) (fe : LltcFibEntry) (check : Bool)
    (rest : ℕ) (σ : State)
    → Frame σ (request_single lost rrcp pit fe check rest σ)
unfolding request_single
request_single-Frame lost rrcp pit fe check rest σ =
    Frame-trans (send_lltc_non_pit_data-Frame _ _ _ _ σ) (
      Frame-trans (schedule_task-Frame _ _ _)
        (Frame-trans (with_single-Frame _ _) (log_retran-Frame _ _ _ _ _ _)))

iterative_from-Frame :
    (lost : ℕ) (rrcp : RequestCallingParam) (pit : PitEntry) (fe : LltcFibEntry) (check : Bool)
    (rest : ℕ) (σ : State)
    → Frame σ (iterative_from lost rrcp pit fe check rest σ)
unfolding iterative_from
iterative_from-Frame lost rrcp pit fe check zero σ =
    elim (Bool-cases (check && σ.env.config.enable_failover)) [
      | inl e ↦ rw e (check_link-Frame _ σ)
      | inr e ↦ rw e (Frame-refl σ)
    ]
iterative_from-Frame lost rrcp pit fe check (suc rest) σ =
    request_single-Frame lost rrcp pit fe check rest σ

pub wait_for_next_capsule_delayed_task_iterative-Frame :
    (lost : ℕ) (rrcp : RequestCallingParam) (pit : PitEntry) (fe : LltcFibEntry) (check : Bool)
    (σ : State)
    → Frame σ (wait_for_next_capsule_delayed_task_iterative lost rrcp pit fe check σ)
unfolding wait_for_next_capsule_delayed_task_iterative
wait_for_next_capsule_delayed_task_iterative-Frame lost rrcp pit fe check σ =
    iterative_from-Frame lost rrcp pit fe check rrcp.rest_retrans_requests σ

request_loop-Frame :
    (lost : ℕ) (pit : PitEntry) (rsg_id : ℕ) (fes : List LltcFibEntry) (σ : State)
    → Frame σ (request_loop lost pit rsg_id fes σ)
unfolding request_loop
request_loop-Frame lost pit rsg_id [] σ = Frame-refl σ
request_loop-Frame lost pit rsg_id (fe ∷ fes) σ = elim (Bool-cases (is_upstream_retrans_point fe)) [
  | inl e ↦ rw e (
      Frame-trans (wait_for_next_capsule_delayed_task_iterative-Frame lost _ pit fe _ σ)
        (request_loop-Frame lost pit rsg_id fes _))
  | inr e ↦ rw e (request_loop-Frame lost pit rsg_id fes σ)
]

pub wait_for_next_capsule_delayed_task-Frame :
    (lost : ℕ) (pit : PitEntry) (fs : ForwardingStateForRsg) (rsg_id : ℕ) (check : Bool) (σ : State)
    → Frame σ (wait_for_next_capsule_delayed_task lost pit fs rsg_id check σ)
unfolding wait_for_next_capsule_delayed_task note_request_time
wait_for_next_capsule_delayed_task-Frame lost pit fs rsg_id check σ =
    Frame-trans (send_report-Frame _ pit _ _ σ)
      (Frame-trans (with_waiting-Frame _ _) (request_loop-Frame lost pit rsg_id fs.fib_entries _))
