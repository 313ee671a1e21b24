-- ===== src/Retrans/Events/Cleaning.antt =====
-- The cleaning of pending events, of lltc-strategy-service-sublayer-retrans-control.cpp.
pub mod Frames
pub mod Batches
use drtp.Base.{
  ℕ, ◌+◌, ◌≤◌, ◌<◌, ◌≡◌, refl, ◌∙◌, false, ◌||◌, ◌⊎◌, inl, inr, ◌≢◌, Option, none, some, List, [],
  ◌∷◌, arith, ◌==◌, Bool, Option-cases, if◌then◌else◌,
}
use drtp.Base.Maps.{find, erase, has_key, find-erase, erase_absent}
use drtp.Fs.{LltcFibEntry, ForwardingStateForRsg}
use drtp.State.{State, Call, RetransInSingleEvent, remove_event}
use drtp.State.Ops.{call, with_waiting, with_single}
use drtp.Retrans.Events.{
  compute_data_retrans_id, clean_wait_for_next_event, clean_single_on, clean_single_loop,
  clean_retran_in_single_events,
}

-- The removal of an event from the simulator's queue, where there is one.
pub cancelled : Option RetransInSingleEvent → List Call → List Call
cancelled none calls = calls
cancelled (some ev) calls = remove_event ev.e ∷ calls

-- After cleaning no timer waits for the ID, and those of the other IDs are as before. The task of the
-- timer, if there was one, is removed from the simulator, and nothing else is called; the result says
-- whether there was one.
pub find-clean_wait_for_next_event :
    (id k : ℕ) (σ : State)
    → (find k ((clean_wait_for_next_event id σ).0).ds.wait_for_next_data_events
        ≡ (if id == k then none else find k σ.ds.wait_for_next_data_events))
      × (((clean_wait_for_next_event id σ).0).env.calls
          ≡ cancelled (find id σ.ds.wait_for_next_data_events) σ.env.calls)
      × ((clean_wait_for_next_event id σ).1 ≡ has_key id σ.ds.wait_for_next_data_events)
unfolding clean_wait_for_next_event with_waiting call cancelled
find-clean_wait_for_next_event id k σ =
    (ground (arith, find-erase id k σ.ds.wait_for_next_data_events), ground arith, ground arith)

abbrev OnOne : ℕ → ℕ → State → Type 0
OnOne dpi k σ =
    (find k ((clean_single_on dpi σ).0).ds.retrans_in_single_events
      ≡ (if dpi == k then none else find k σ.ds.retrans_in_single_events))
    × (((clean_single_on dpi σ).0).ds.retrans_in_single_events
        ≡ erase dpi σ.ds.retrans_in_single_events)
    × (((clean_single_on dpi σ).0).env.calls
        ≡ cancelled (find dpi σ.ds.retrans_in_single_events) σ.env.calls)
    × ((clean_single_on dpi σ).1 ≡ has_key dpi σ.ds.retrans_in_single_events)

find-clean_single_on : (dpi k : ℕ) (σ : State) → OnOne dpi k σ
unfolding clean_single_on with_single call cancelled
find-clean_single_on dpi k σ = (
  ground (arith, find-erase dpi k σ.ds.retrans_in_single_events),
  ground (arith, erase_absent dpi σ.ds.retrans_in_single_events),
  ground arith,
  ground arith,
)

-- Whether a key of the table is that of the ID on a path of the FIB.
pub on_some_path : ℕ → ℕ → List LltcFibEntry → Bool
on_some_path id k [] = false
on_some_path id k (fe ∷ fes) = (compute_data_retrans_id id fe.path_id == k) || on_some_path id k fes

-- Whether a request for the ID is pending on a path of the FIB.
pub any_pending : ℕ → List LltcFibEntry → List (ℕ × RetransInSingleEvent) → Bool
any_pending id [] m = false
any_pending id (fe ∷ fes) m =
    has_key (compute_data_retrans_id id fe.path_id) m || any_pending id fes m

-- The removals of the tasks of those requests, each once.
pub all_cancelled : ℕ → List LltcFibEntry → List (ℕ × RetransInSingleEvent) → List Call → List Call
all_cancelled id [] m calls = calls
all_cancelled id (fe ∷ fes) m calls =
    let dpi = compute_data_retrans_id id fe.path_id in
    all_cancelled id fes (erase dpi m) (cancelled (find dpi m) calls)

any_pending-erase :
    (id dpi : ℕ) (fes : List LltcFibEntry) (m : List (ℕ × RetransInSingleEvent))
    → (has_key dpi m || any_pending id fes (erase dpi m)) ≡ (has_key dpi m || any_pending id fes m)
any_pending-erase id dpi fes m = elim (Option-cases (find dpi m)) [
  | inl e ↦ rw (erase_absent dpi m e) refl
  | inr (ev, e) ↦ simp e refl
]

find-clean_single_loop :
    (id k : ℕ) (fes : List LltcFibEntry) (σ : State)
    → (find k ((clean_single_loop id fes σ).0).ds.retrans_in_single_events
        ≡ (if on_some_path id k fes then none else find k σ.ds.retrans_in_single_events))
      × (((clean_single_loop id fes σ).0).env.calls
          ≡ all_cancelled id fes σ.ds.retrans_in_single_events σ.env.calls)
      × ((clean_single_loop id fes σ).1 ≡ any_pending id fes σ.ds.retrans_in_single_events)
unfolding clean_single_loop on_some_path any_pending all_cancelled
find-clean_single_loop id k [] σ = (refl, refl, refl)
find-clean_single_loop id k (fe ∷ fes) σ =
    let dpi = compute_data_retrans_id id fe.path_id in
    let (f, table, calls, flag) = find-clean_single_on dpi k σ in
    let (g, later, more) = find-clean_single_loop id k fes ((clean_single_on dpi σ).0) in
    (
      ground (arith, f, g),
      later ∙ rw (table, calls) refl,
      rw (more, table, flag) (any_pending-erase id dpi fes σ.ds.retrans_in_single_events),
    )

-- After cleaning no request for the ID is pending on a path of the FIB, and every other request is
-- pending as before. The tasks of those requests are removed from the simulator, each once and in the
-- order of the FIB, and nothing else is called; the result says whether there was one.
pub find-clean_retran_in_single_events :
    (id k : ℕ) (fs : ForwardingStateForRsg) (σ : State)
    → (find k ((clean_retran_in_single_events id fs σ).0).ds.retrans_in_single_events
        ≡ (if on_some_path id k fs.fib_entries then none else find k σ.ds.retrans_in_single_events))
      × (((clean_retran_in_single_events id fs σ).0).env.calls
          ≡ all_cancelled id fs.fib_entries σ.ds.retrans_in_single_events σ.env.calls)
      × ((clean_retran_in_single_events id fs σ).1
          ≡ any_pending id fs.fib_entries σ.ds.retrans_in_single_events)
unfolding clean_retran_in_single_events
find-clean_retran_in_single_events id k fs σ = find-clean_single_loop id k fs.fib_entries σ
