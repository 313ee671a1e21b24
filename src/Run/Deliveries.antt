-- ===== src/Run/Deliveries.antt =====
-- What a node hands to `sendData` over a whole run.
use drtp.Base.{
  Bool, ℕ, ◌+◌, ◌^◌, ◌≤◌, ◌<◌, ◌≡◌, refl, false, Option, some, List, [], ◌∷◌, String, arith,
  >>=-eq-some, of_result, ◌>>=◌,
}
use drtp.Base.Seqs.{length, tally}
use drtp.DataIdQueue.{contains, set_len}
use drtp.Fs.{ForwardingStateCollection, get_forwarding_state, ForwardingStateForRsg}
use drtp.State.{
  State, Env, Task, wait_for_next_capsule_delayed, wait_for_next_capsule_iterative,
  broadcast_request_m_recursive, wait_to_request_m,
}
use drtp.State.Frame.{Frame, Quiet, quiet, delivered, serves}
use drtp.Retrans.Timers.Waiting.{
  wait_for_next_capsule_delayed_task-Frame, wait_for_next_capsule_delayed_task_iterative-Frame,
}
use drtp.Retrans.Multiple.Lost.Frames.{
  broadcast_request_m_and_wait_recursive-Frame, wait_to_request_m-Frame,
}
use drtp.Retrans.Arrivals.Once.{AtMostOnce, Quiet-AtMostOnce, Quiet-keeps, weaken}
use drtp.Dispatch.Routing.{after_receive_data-AtMostOnce, after_receive_non_pit_data-Frame}
use drtp.Run.{
  Event, data_arrives, non_pit_data_arrives, timer_fires, run_task, handle, at_time, run, start,
  new_capsule_forwarding_states,
}

with_fs-Frame :
    (σ : State) (m : Option ForwardingStateForRsg) (task : ForwardingStateForRsg → State)
    {σ' : State}
    → ((fs : ForwardingStateForRsg) → Frame σ (task fs))
    → (m >>= λ fs. some (task fs)) ≡ some σ'
    → Frame σ σ'
with_fs-Frame σ m task f e =
    let (fs, _, r) = >>=-eq-some m (λ fs. some (task fs)) e in of_result (Frame σ) refl r (f fs)

-- A task that runs hands no capsule to `sendData`, and leaves the IDs that were passed on alone.
pub run_task-Frame : (task : Task) (σ : State) {σ' : State} → run_task task σ ≡ some σ' → Frame σ σ'
unfolding run_task
run_task-Frame (wait_for_next_capsule_delayed id pit rsg_id check) σ e =
    with_fs-Frame σ (get_forwarding_state σ.env.coll rsg_id) _
      (λ fs. wait_for_next_capsule_delayed_task-Frame id pit fs rsg_id check σ) e
run_task-Frame (wait_for_next_capsule_iterative id rrcp pit fe check) σ e =
    of_result (Frame σ) refl e
      (wait_for_next_capsule_delayed_task_iterative-Frame id rrcp pit fe check σ)
run_task-Frame (broadcast_request_m_recursive rbi rest find_closest pit rsg_id) σ e =
    with_fs-Frame σ (get_forwarding_state σ.env.coll rsg_id) _
      (λ fs. broadcast_request_m_and_wait_recursive-Frame rbi rest find_closest pit fs rsg_id σ) e
run_task-Frame (wait_to_request_m event_id ids pit rsg_id) σ e =
    with_fs-Frame σ (get_forwarding_state σ.env.coll rsg_id) _
      (λ fs. wait_to_request_m-Frame event_id ids pit fs rsg_id σ) e

at_time-Quiet : (t : ℕ) (σ : State) → Quiet σ (at_time t σ)
unfolding at_time delivered
at_time-Quiet t σ = record {
  transmitted = refl;
  coll = refl;
  config = refl;
  serving = refl;
  deliveries = λ id. refl;
}

pub at_time-AtMostOnce :
    {kept : ForwardingStateCollection × Bool} {limit k : ℕ} (t : ℕ) (σ : State)
    → AtMostOnce kept limit k σ
    → AtMostOnce kept limit k (at_time t σ)
at_time-AtMostOnce t σ v = Quiet-keeps (at_time-Quiet t σ) v

pub handle-AtMostOnce :
    {kept : ForwardingStateCollection × Bool} (limit k : ℕ) (ev : Event) (σ : State) {σ' : State}
    → AtMostOnce kept limit k σ
    → limit + k + 1 < 2 ^ 64
    → handle ev σ ≡ some σ'
    → AtMostOnce kept limit (k + 1) σ'
unfolding handle
handle-AtMostOnce limit k (data_arrives pit face packet name) σ v h e =
    after_receive_data-AtMostOnce limit k pit face packet name σ v h e
handle-AtMostOnce limit k (non_pit_data_arrives face packet name) σ v h e =
    of_result (AtMostOnce _ limit (k + 1)) refl e
      (Quiet-AtMostOnce (quiet ((after_receive_non_pit_data-Frame face packet name σ).1)) v)
handle-AtMostOnce limit k (timer_fires task) σ v h e =
    Quiet-AtMostOnce (quiet (run_task-Frame task σ e)) v

-- A run keeps every capsule handed to `sendData` at most once.
pub run-AtMostOnce :
    {kept : ForwardingStateCollection × Bool} (limit k n : ℕ) (evs : List (ℕ × Event)) (σ : State)
    {σ' : State}
    → AtMostOnce kept limit k σ
    → k + length evs ≤ n
    → limit + n < 2 ^ 64
    → run evs σ ≡ some σ'
    → AtMostOnce kept limit n σ'
unfolding run
run-AtMostOnce limit k n [] σ v l h e =
    of_result (AtMostOnce _ limit n) refl e (weaken (omega arith) v)
run-AtMostOnce limit k n ((t, ev) ∷ evs) σ v l h e =
    let (τ, handled, rest) = >>=-eq-some (handle ev (at_time t σ)) (run evs) e in
    let v' =
      handle-AtMostOnce limit k ev (at_time t σ) (at_time-AtMostOnce t σ v) (omega arith) handled in
    run-AtMostOnce limit (k + 1) n evs τ v' (omega arith) h rest

pub start-AtMostOnce :
    (prefix : String) (env : Env)
    → 0 < env.config.queue_size_for_transmitted_data_ids
    → env.config.disable_retran ≡ false
    → env.calls ≡ []
    → AtMostOnce
        (env.coll, serves env.local_cs)
        env.config.queue_size_for_transmitted_data_ids
        0
        (start prefix env)
unfolding start new_capsule_forwarding_states set_len delivered tally
start-AtMostOnce prefix env positive enabled c = record {
  same_coll = refl;
  same_serving = refl;
  enabled = enabled;
  room = omega arith;
  size = omega arith;
  once = λ id. simp c (ground arith);
}

-- From the states that a node makes for a prefix, whatever messages and timers come, in whatever
-- order and at whatever times, as long as no handler faults: each capsule is handed to `sendData` at
-- most once, and not at all unless it is recorded as passed on. Retransmission is asked to be on
-- (`disable_retran` is false: without it a Capsule is passed on as often as it comes), no call to be made
-- before, the set of passed-on IDs to have a positive limit, and the limit and the events of the run to
-- be fewer than 2^64 together.
pub run_delivers_once :
    (prefix : String) (env : Env) (evs : List (ℕ × Event)) (id : ℕ) {σ' : State}
    → 0 < env.config.queue_size_for_transmitted_data_ids
    → env.config.disable_retran ≡ false
    → env.calls ≡ []
    → env.config.queue_size_for_transmitted_data_ids + length evs < 2 ^ 64
    → run evs (start prefix env) ≡ some σ'
    → (delivered id σ' ≤ 1) × (contains σ'.ds.transmitted_data_ids id ≡ false → delivered id σ' ≡ 0)
run_delivers_once prefix env evs id {σ'} positive enabled c h e =
    let v =
      run-AtMostOnce env.config.queue_size_for_transmitted_data_ids 0 (length evs) evs
        (start prefix env) (start-AtMostOnce prefix env positive enabled c) (omega arith) h e in
    let once = v.once id in (ground arith, λ fresh. ground arith)
