-- ===== src/Retrans/Timers/Requests.antt =====
-- What the timers of lltc-strategy-service-sublayer-retrans-control.cpp report.
use drtp.Base.{
  ℕ, zero, suc, ◌%◌, ◌^◌, ◌≡◌, refl, ◌∙◌, inl, inr, Bool, true, false, List, [], ◌∷◌, none, ◌&&◌,
  Bool-cases,
}
use drtp.Base.Seqs.{tally}
use drtp.Base.Maps.{find}
use drtp.Messages.{Body, report, construct_request_s}
use drtp.Fs.{LltcFibEntry, ForwardingStateForRsg, is_upstream_retrans_point}
use drtp.Fs.Lookup.{lookup_forwarding_entry_unknown}
use drtp.State.{State, Call, PitEntry, RequestCallingParam, send_non_pit_data}
use drtp.State.Ops.{call, schedule_task, send_lltc_non_pit_data, with_single, with_waiting}
use drtp.Retrans.Timers.{
  send_report, send_report_on, request_single, iterative_from,
  wait_for_next_capsule_delayed_task_iterative, request_loop, note_request_time,
  wait_for_next_capsule_delayed_task,
}

-- A report of lost IDs.
is_report : Body → Bool
is_report (report rdru ids) = true
is_report body = false

unfoldable pub is_report_call : Call → Bool
unfolding is_report
is_report_call (send_non_pit_data d face) = is_report d.body
is_report_call c = false

-- How many reports were sent.
unfoldable pub reports : State → ℕ
unfolding is_report_call
reports σ = tally is_report_call σ.env.calls

iterative_from-reports :
    (lost : ℕ) (rrcp : RequestCallingParam) (pit : PitEntry) (fe : LltcFibEntry) (check : Bool)
    (rest : ℕ) (σ : State)
    → reports (iterative_from lost rrcp pit fe check rest σ) ≡ reports σ
unfolding iterative_from request_single reports call tally schedule_task send_lltc_non_pit_data
    with_single construct_request_s
iterative_from-reports lost rrcp pit fe check zero σ =
    elim (Bool-cases (check && σ.env.config.enable_failover)) [
      | inl e ↦ simp e refl
      | inr e ↦ simp e refl
    ]
iterative_from-reports lost rrcp pit fe check (suc rest) σ = refl

iterative-reports :
    (lost : ℕ) (rrcp : RequestCallingParam) (pit : PitEntry) (fe : LltcFibEntry) (check : Bool)
    (σ : State)
    → reports (wait_for_next_capsule_delayed_task_iterative lost rrcp pit fe check σ) ≡ reports σ
unfolding wait_for_next_capsule_delayed_task_iterative
iterative-reports lost rrcp pit fe check σ =
    iterative_from-reports lost rrcp pit fe check rrcp.rest_retrans_requests σ

request_loop-reports :
    (lost : ℕ) (pit : PitEntry) (rsg_id : ℕ) (fes : List LltcFibEntry) (σ : State)
    → reports (request_loop lost pit rsg_id fes σ) ≡ reports σ
unfolding request_loop
request_loop-reports lost pit rsg_id [] σ = refl
request_loop-reports lost pit rsg_id (fe ∷ fes) σ =
    elim (Bool-cases (is_upstream_retrans_point fe)) [
      | inl e ↦
          rw e (request_loop-reports lost pit rsg_id fes _ ∙ iterative-reports lost _ pit fe _ σ)
      | inr e ↦ rw e (request_loop-reports lost pit rsg_id fes σ)
    ]

-- The task that runs out of patience sends no report unless some subgraph has the number of the
-- preferred path: the path's number stands where that of the subgraph is looked up.
pub delayed_task_reports_nothing :
    (lost : ℕ) (pit : PitEntry) (fs : ForwardingStateForRsg) (rsg_id : ℕ) (check : Bool) (σ : State)
    → find (fs.preferred_down_path_id % 2 ^ 32) σ.env.coll.fss_map ≡ none
    → reports (wait_for_next_capsule_delayed_task lost pit fs rsg_id check σ) ≡ reports σ
unfolding wait_for_next_capsule_delayed_task note_request_time send_report
delayed_task_reports_nothing lost pit fs rsg_id check σ h =
    request_loop-reports lost pit rsg_id fs.fib_entries _
    ∙ rw
        (lookup_forwarding_entry_unknown σ.env.coll (fs.preferred_down_path_id % 2 ^ 32) rsg_id 0 h)
        (unfold send_report_on reports with_waiting in refl)
