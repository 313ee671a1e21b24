-- ===== src/Retrans/Events/Cleaning/Frames.antt =====
-- What the cleaning of pending events (lltc-strategy-service-sublayer-retrans-control.cpp) leaves
-- alone.
use drtp.Base.{ℕ, inl, inr, List, [], ◌∷◌, map, ◌==◌, Bool-cases, Option-cases}
use drtp.Base.Seqs.{length, remove}
use drtp.Base.Maps.{find, assign}
use drtp.Fs.{LltcFibEntry, ForwardingStateForRsg}
use drtp.State.{State, RetransInMultipleEvent, WaitForRetransInBatchEvent}
use drtp.State.Frame.{
  Frame, Frame-refl, Frame-trans, remove_event-Frame, with_waiting-Frame, with_single-Frame,
  with_batch-Frame, with_batch_waits-Frame, with_id_sets-Frame,
}
use drtp.Retrans.Events.{
  compute_data_retrans_id, clean_wait_for_next_event, clean_single_on, clean_single_loop,
  clean_retran_in_single_events, split_at_holder, release_holder, set_at,
  clean_wait_for_request_m_events, clean_batch_event, clean_retran_m_events_of,
  clean_retran_m_events, remove_empty, without_id, drop_empty,
}

pub clean_wait_for_next_event-Frame :
    (id : ℕ) (σ : State) → Frame σ ((clean_wait_for_next_event id σ).0)
unfolding clean_wait_for_next_event
clean_wait_for_next_event-Frame id σ =
    elim (Option-cases (find id σ.ds.wait_for_next_data_events)) [
      | inl e ↦ rw (e, clean_wait_for_next_event) (Frame-refl σ)
      | inr (ev, e) ↦
          rw (e, clean_wait_for_next_event)
            (Frame-trans (remove_event-Frame ev.e σ) (with_waiting-Frame _ _))
    ]

clean_single_on-Frame : (dpi : ℕ) (σ : State) → Frame σ ((clean_single_on dpi σ).0)
unfolding clean_single_on
clean_single_on-Frame dpi σ = elim (Option-cases (find dpi σ.ds.retrans_in_single_events)) [
  | inl e ↦ rw (e, clean_single_on) (Frame-refl σ)
  | inr (ev, e) ↦
      rw (e, clean_single_on) (Frame-trans (remove_event-Frame ev.e σ) (with_single-Frame _ _))
]

clean_single_loop-Frame :
    (id : ℕ) (fes : List LltcFibEntry) (σ : State) → Frame σ ((clean_single_loop id fes σ).0)
unfolding clean_single_loop
clean_single_loop-Frame id [] σ = Frame-refl σ
clean_single_loop-Frame id (fe ∷ fes) σ =
    Frame-trans (clean_single_on-Frame (compute_data_retrans_id id fe.path_id) σ)
      (clean_single_loop-Frame id fes _)

pub clean_retran_in_single_events-Frame :
    (id : ℕ) (fs : ForwardingStateForRsg) (σ : State)
    → Frame σ ((clean_retran_in_single_events id fs σ).0)
unfolding clean_retran_in_single_events
clean_retran_in_single_events-Frame id fs σ = clean_single_loop-Frame id fs.fib_entries σ

release_holder-Frame :
    (id : ℕ) (σ : State) (hit : WaitForRetransInBatchEvent)
    (others : List WaitForRetransInBatchEvent)
    → Frame σ (release_holder id σ hit others)
unfolding release_holder
release_holder-Frame id σ hit others =
    let ids = remove id (set_at hit.data_ids σ.ds.id_sets) in
    let base =
      Frame-trans (with_id_sets-Frame (assign hit.data_ids ids σ.ds.id_sets) σ)
        (with_batch_waits-Frame others _) in
    elim (Bool-cases (length ids == 0)) [
      | inl e ↦ rw e (Frame-trans base (remove_event-Frame hit.e _))
      | inr e ↦ rw e base
    ]

pub clean_wait_for_request_m_events-Frame :
    (id : ℕ) (σ : State) → Frame σ (clean_wait_for_request_m_events id σ)
unfolding clean_wait_for_request_m_events
clean_wait_for_request_m_events-Frame id σ =
    elim (Option-cases (split_at_holder id σ.ds.id_sets σ.ds.wait_for_retrans_in_batch_events)) [
      | inl e ↦ rw (e, clean_wait_for_request_m_events) (Frame-refl σ)
      | inr (r, e) ↦ rw (e, clean_wait_for_request_m_events) (release_holder-Frame id σ (r.0) (r.1))
    ]

clean_batch_event-Frame :
    (bri id : ℕ) (σ : State) (rbe : RetransInMultipleEvent)
    → Frame σ (clean_batch_event bri id σ rbe)
unfolding clean_batch_event
clean_batch_event-Frame bri id σ rbe = elim (Bool-cases (length rbe.retrans_data_ids == 0)) [
  | inl e ↦ rw e (Frame-trans (remove_event-Frame rbe.e σ) (with_batch-Frame _ _))
  | inr e ↦ rw e (with_batch-Frame _ σ)
]

pub clean_retran_m_events_of-Frame :
    (bri id : ℕ) (σ : State) → Frame σ (clean_retran_m_events_of bri id σ)
unfolding clean_retran_m_events_of
clean_retran_m_events_of-Frame bri id σ =
    elim (Option-cases (find bri σ.ds.retrans_in_batch_events)) [
      | inl e ↦ rw (e, clean_retran_m_events_of) (Frame-refl σ)
      | inr (rbe, e) ↦ rw (e, clean_retran_m_events_of) (clean_batch_event-Frame bri id σ rbe)
    ]

remove_empty-Frame :
    (m : List (ℕ × RetransInMultipleEvent)) (σ : State) → Frame σ (remove_empty m σ)
unfolding remove_empty
remove_empty-Frame [] σ = Frame-refl σ
remove_empty-Frame ((k, rbe) ∷ m) σ = elim (Bool-cases (length rbe.retrans_data_ids == 0)) [
  | inl e ↦ rw e (Frame-trans (remove_event-Frame rbe.e σ) (remove_empty-Frame m _))
  | inr e ↦ rw e (remove_empty-Frame m σ)
]

pub clean_retran_m_events-Frame : (id : ℕ) (σ : State) → Frame σ (clean_retran_m_events id σ)
unfolding clean_retran_m_events
clean_retran_m_events-Frame id σ =
    let m = map (without_id id) σ.ds.retrans_in_batch_events in
    Frame-trans (remove_empty-Frame m σ) (with_batch-Frame (drop_empty m) (remove_empty m σ))
