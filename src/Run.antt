-- ===== src/Run.antt =====
-- One node over time: the capsule states of a prefix from `createOrGetCapsuleForwardingStates`
-- (lltc-strategy-service-sublayer-retrans-control.cpp, ndnSIM/ns-3/src/ndnSIM/NFD/daemon/fw), and the
-- events that the simulator and the forwarder hand to the strategy, one after another. The packets
-- and tasks are any at any time, so that they include the orders and losses of a network.
pub mod Deliveries
pub mod Progress
use drtp.Base.{ℕ, Option, some, List, [], ◌∷◌, String, ◌>>=◌}
use drtp.Messages.{Data}
use drtp.DataIdQueue.{empty, set_len}
use drtp.Fs.{get_forwarding_state}
use drtp.State.{
  State, CapsuleForwardingStates, Env, PitEntry, Task, wait_for_next_capsule_delayed,
  wait_for_next_capsule_iterative, broadcast_request_m_recursive, wait_to_request_m,
}
use drtp.Retrans.Timers.{
  wait_for_next_capsule_delayed_task, wait_for_next_capsule_delayed_task_iterative,
}
use drtp.Retrans.Multiple
use drtp.Dispatch.{after_receive_data, after_receive_non_pit_data}

-- The states that `createOrGetCapsuleForwardingStates` makes for a prefix without any.
unfoldable pub new_capsule_forwarding_states : String → ℕ → CapsuleForwardingStates
new_capsule_forwarding_states prefix queue_size = record {
  prefix = prefix;
  last_data_id = 0;
  transmitted_data_ids = set_len empty queue_size;
  lost_data_ids_from_prev_routers = [];
  wait_for_next_data_events = [];
  retrans_in_single_events = [];
  retrans_in_batch_events = [];
  wait_for_retrans_in_batch_events = [];
  recent_data_retrans_report_uids = [];
  cur_retrans_in_batch_id = 0;
  cur_wait_for_retrans_in_batch_event_id = 0;
  id_sets = [];
}

unfoldable pub start : String → Env → State
unfolding new_capsule_forwarding_states
start prefix env = record {
  ds = new_capsule_forwarding_states prefix env.config.queue_size_for_transmitted_data_ids;
  env = env;
}

-- A task takes the forwarding state of its subgraph by pointer; `none` is a null one, which the task
-- dereferences.
unfoldable pub run_task : Task → State → Option State
run_task (wait_for_next_capsule_delayed id pit rsg_id check) σ =
    get_forwarding_state σ.env.coll rsg_id >>= λ fs.
    some (wait_for_next_capsule_delayed_task id pit fs rsg_id check σ)
run_task (wait_for_next_capsule_iterative id rrcp pit fe check) σ =
    some (wait_for_next_capsule_delayed_task_iterative id rrcp pit fe check σ)
run_task (broadcast_request_m_recursive rbi rest find_closest pit rsg_id) σ =
    get_forwarding_state σ.env.coll rsg_id >>= λ fs.
    some (Multiple.broadcast_request_m_and_wait_recursive rbi rest find_closest pit fs rsg_id σ)
run_task (wait_to_request_m event_id ids pit rsg_id) σ =
    get_forwarding_state σ.env.coll rsg_id >>= λ fs.
    some (Multiple.wait_to_request_m event_id ids pit fs rsg_id σ)

pub data Event : Type 0 where
  -- `afterReceiveData`, with the PIT entry, the ingress face and the packet with its name
  data_arrives : PitEntry → ℕ → Data → String → Event
  -- `afterReceiveNonPitData`
  non_pit_data_arrives : ℕ → Data → String → Event
  -- a scheduled task whose time has come
  timer_fires : Task → Event

unfoldable pub handle : Event → State → Option State
handle (data_arrives pit face packet name) σ = after_receive_data pit face packet name σ
handle (non_pit_data_arrives face packet name) σ =
    some (after_receive_non_pit_data face packet name σ)
handle (timer_fires task) σ = run_task task σ

-- The clock of the simulator moves to the time of the event.
unfoldable pub at_time : ℕ → State → State
at_time t σ = record σ { env = record (σ.env) { now = t } }

-- A run over timed events; `none` when one of them faults.
unfoldable pub run : List (ℕ × Event) → State → Option State
run [] σ = some σ
run ((t, ev) ∷ evs) σ = handle ev (at_time t σ) >>= run evs
