-- ===== src/Retrans/Report/Once.antt =====
-- What `onReceiveReport` (lltc-strategy-service-sublayer-retrans-control.cpp) leaves alone, and that
-- it acts on a report once.
use drtp.Base.{
  ℕ, zero, suc, ◌≡◌, refl, sym, true, inl, inr, List, [], ◌∷◌, Option, none, some, arith,
  Bool-cases, if◌then◌else◌,
}
use mathlib.Core.Path.{subst}
use drtp.Base.Seqs.{elem, insert, elem-insert}
use drtp.Base.Maps.{find, has_key}
use drtp.Messages.{Data, ReportUri}
use drtp.Fs.{LltcFibEntry, ForwardingStateForRsg, lookup_forwarding_entry}
use drtp.State.{State, PitEntry}
use drtp.State.Ops.{with_lost, with_report_uids}
use drtp.State.Frame.{
  Frame, Quiet, Frame-refl, Quiet-trans, quiet, with_report_uids-Quiet, Frame-trans,
  schedule_task-Frame, send_lltc_non_pit_data-Frame, with_lost-Frame, with_batch_waits-Frame,
  with_id_sets-Frame, with_batch_wait_id-Frame,
}
use drtp.Forwarding.{down_path}
use drtp.Retrans.Events.{add_to_set, set_minus}
use drtp.Retrans.Events.Cleaning.Frames.{
  clean_wait_for_next_event-Frame, clean_retran_in_single_events-Frame, clean_retran_m_events-Frame,
}
use drtp.Retrans.Timers.Waiting.{wait_for_next_capsule-Frame}
use drtp.Retrans.Report.{
  plan_request, plan_requests, cancel_lost, cancel_loop, resume_waiting, take_report, send_times,
  pass_on, on_receive_report,
}

plan_request-Frame :
    (ids : List ℕ) (pit : PitEntry) (rsg_id : ℕ) (σ : State) (t : Option ℕ)
    → Frame σ (plan_request ids pit rsg_id σ t)
unfolding plan_request
plan_request-Frame ids pit rsg_id σ none = Frame-refl σ
plan_request-Frame ids pit rsg_id σ (some t) = Frame-trans (schedule_task-Frame t _ σ) (
    Frame-trans (with_batch_wait_id-Frame _ _)
      (Frame-trans (with_id_sets-Frame _ _) (with_batch_waits-Frame _ _)))

plan_requests-Frame :
    (ids : List ℕ) (rdru : ReportUri) (pit : PitEntry) (fs : ForwardingStateForRsg) (rsg_id : ℕ)
    (σ : State)
    → Frame σ (plan_requests ids rdru pit fs rsg_id σ)
unfolding plan_requests
plan_requests-Frame [] rdru pit fs rsg_id σ = Frame-refl σ
plan_requests-Frame (id ∷ ids) rdru pit fs rsg_id σ =
    plan_request-Frame (id ∷ ids) pit rsg_id σ
      (find rdru.source_node_id fs.waiting_timeout_on_retrans_report)

cancel_lost-Frame :
    (id : ℕ) (fs : ForwardingStateForRsg) (σ : State) (most : Option ℕ)
    → Frame σ ((cancel_lost id fs σ most).0)
unfolding cancel_lost
cancel_lost-Frame id fs σ most = elim (Bool-cases (has_key id σ.ds.wait_for_next_data_events)) [
  | inl e ↦ rw e (
      Frame-trans (clean_wait_for_next_event-Frame id σ) (
        Frame-trans (clean_retran_in_single_events-Frame id fs _)
          (clean_retran_m_events-Frame id _)))
  | inr e ↦ rw e (clean_retran_m_events-Frame id σ)
]

cancel_loop-Frame :
    (ids : List ℕ) (fs : ForwardingStateForRsg) (σ : State) (most : Option ℕ)
    → Frame σ ((cancel_loop ids fs σ most).0)
unfolding cancel_loop
cancel_loop-Frame [] fs σ most = Frame-refl σ
cancel_loop-Frame (id ∷ ids) fs σ most =
    Frame-trans (cancel_lost-Frame id fs σ most) (cancel_loop-Frame ids fs _ _)

resume_waiting-Frame :
    (pit : PitEntry) (fs : ForwardingStateForRsg) (rsg_id : ℕ) (σ : State) (most : Option ℕ)
    → Frame σ (resume_waiting pit fs rsg_id (σ, most))
unfolding resume_waiting
resume_waiting-Frame pit fs rsg_id σ none = Frame-refl σ
resume_waiting-Frame pit fs rsg_id σ (some most) = wait_for_next_capsule-Frame _ pit _ rsg_id fs 0 σ

take_report-Frame :
    (ids : List ℕ) (rdru : ReportUri) (pit : PitEntry) (fs : ForwardingStateForRsg) (rsg_id : ℕ)
    (σ : State)
    → Frame σ (take_report ids rdru pit fs rsg_id σ)
unfolding take_report
take_report-Frame [] rdru pit fs rsg_id σ = Frame-refl σ
take_report-Frame (id ∷ ids) rdru pit fs rsg_id σ =
    let fresh = set_minus (id ∷ ids) σ.ds.lost_data_ids_from_prev_routers in
    let σ1 = plan_requests fresh rdru pit fs rsg_id σ in
    let lost = add_to_set (id ∷ ids) σ1.ds.lost_data_ids_from_prev_routers in
    let r = cancel_loop lost fs (with_lost lost σ1) none in
    Frame-trans (plan_requests-Frame fresh rdru pit fs rsg_id σ) (
      Frame-trans (with_lost-Frame lost σ1) (
        Frame-trans (cancel_loop-Frame lost fs (with_lost lost σ1) none)
          (resume_waiting-Frame pit fs rsg_id (r.0) (r.1))))

send_times-Frame :
    (n : ℕ) (packet : Data) (face rsg_id path_id : ℕ) (σ : State)
    → Frame σ (send_times n packet face rsg_id path_id σ)
unfolding send_times
send_times-Frame zero packet face rsg_id path_id σ = Frame-refl σ
send_times-Frame (suc n) packet face rsg_id path_id σ =
    Frame-trans (send_lltc_non_pit_data-Frame packet face rsg_id path_id σ)
      (send_times-Frame n packet face rsg_id path_id _)

pass_on-Frame :
    (packet : Data) (fs : ForwardingStateForRsg) (rsg_id : ℕ) (σ : State) (fe : Option LltcFibEntry)
    → Frame σ (pass_on packet fs rsg_id σ fe)
unfolding pass_on
pass_on-Frame packet fs rsg_id σ none = Frame-refl σ
pass_on-Frame packet fs rsg_id σ (some fe) =
    send_times-Frame σ.env.config.num_data_retrans_reports_to_send packet fe.face_next_hop rsg_id
      (down_path fs) σ

-- What a report does once its UID is noted.
acted-Frame :
    (packet : Data) (rdru : ReportUri) (ids : List ℕ) (pit : PitEntry) (fs : ForwardingStateForRsg)
    (rsg_id : ℕ) (σ : State)
    → Frame σ (
        pass_on packet fs rsg_id (take_report ids rdru pit fs rsg_id σ) (
          lookup_forwarding_entry
            (take_report ids rdru pit fs rsg_id σ).env.coll
            rsg_id
            (down_path fs)
            0))
acted-Frame packet rdru ids pit fs rsg_id σ =
    Frame-trans (take_report-Frame ids rdru pit fs rsg_id σ) (pass_on-Frame packet fs rsg_id _ _)

pub on_receive_report-Quiet :
    (packet : Data) (rdru : ReportUri) (ids : List ℕ) (pit : PitEntry) (fs : ForwardingStateForRsg)
    (rsg_id : ℕ) (σ : State)
    → Quiet σ (on_receive_report packet rdru ids pit fs rsg_id σ)
unfolding on_receive_report
on_receive_report-Quiet packet rdru ids pit fs rsg_id σ =
    let uids = insert rdru.report_uid σ.ds.recent_data_retrans_report_uids in
    elim (Bool-cases (elem rdru.report_uid σ.ds.recent_data_retrans_report_uids)) [
      | inl e ↦ rw e (quiet (Frame-refl σ))
      | inr e ↦ rw e (
          Quiet-trans (with_report_uids-Quiet uids σ)
            (quiet (acted-Frame packet rdru ids pit fs rsg_id (with_report_uids uids σ))))
    ]

-- A report leaves its UID behind.
on_receive_report_noted :
    (packet : Data) (rdru : ReportUri) (ids : List ℕ) (pit : PitEntry) (fs : ForwardingStateForRsg)
    (rsg_id : ℕ) (σ : State)
    → elem rdru.report_uid
        (on_receive_report packet rdru ids pit fs rsg_id σ).ds.recent_data_retrans_report_uids
      ≡ true
unfolding on_receive_report
on_receive_report_noted packet rdru ids pit fs rsg_id σ =
    let uids = insert rdru.report_uid σ.ds.recent_data_retrans_report_uids in
    elim (Bool-cases (elem rdru.report_uid σ.ds.recent_data_retrans_report_uids)) [
      | inl e ↦ rw e e
      | inr e ↦
          let f = acted-Frame packet rdru ids pit fs rsg_id (with_report_uids uids σ) in
          rw (e, f.uids)
            (unfold with_report_uids in
              ground (
                arith,
                elem-insert rdru.report_uid rdru.report_uid σ.ds.recent_data_retrans_report_uids,
              ))
    ]

-- A report is acted on once: whatever its first copy did, a second copy with its UID, on any path and
-- with any content, changes nothing, and is not passed on.
pub on_receive_report_twice :
    (packet packet' : Data) (rdru rdru' : ReportUri) (ids ids' : List ℕ) (pit pit' : PitEntry)
    (fs fs' : ForwardingStateForRsg) (rsg_id rsg_id' : ℕ) (σ : State)
    → rdru'.report_uid ≡ rdru.report_uid
    → on_receive_report packet' rdru' ids' pit' fs' rsg_id'
        (on_receive_report packet rdru ids pit fs rsg_id σ)
      ≡ on_receive_report packet rdru ids pit fs rsg_id σ
unfolding on_receive_report
on_receive_report_twice packet packet' rdru rdru' ids ids' pit pit' fs fs' rsg_id rsg_id' σ e =
    known rdru'.report_uid _ _ (
      subst
        (λ u.
          elem u
            (on_receive_report packet rdru ids pit fs rsg_id σ).ds.recent_data_retrans_report_uids
          ≡ true)
        (sym e) (on_receive_report_noted packet rdru ids pit fs rsg_id σ))
  where
    known :
        (uid : ℕ) (τ υ : State)
        → elem uid τ.ds.recent_data_retrans_report_uids ≡ true
        → (if elem uid τ.ds.recent_data_retrans_report_uids then τ else υ) ≡ τ
    known uid τ υ h = simp h refl
