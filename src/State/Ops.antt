-- ===== src/State/Ops.antt =====
-- Recorded calls and field updates of the state; `sendLltcData` and `sendLltcNonPitData` of
-- lltc-strategy-forwarding-sublayer-packet-forwarding.cpp.
use drtp.Base.{ℕ, ◌+◌, some, List, ◌∷◌}
use drtp.Messages.{Data}
use drtp.State.{
  RetransInSingleEvent, RetransInMultipleEvent, WaitForRetransInBatchEvent, Task, Call, Cs, State,
  schedule, send_data, send_non_pit_data,
}
use drtp.DataIdQueue.{LltcDataIdQueue}

unfoldable pub call : Call → State → State
call c σ = record σ { env = record (σ.env) { calls = c ∷ σ.env.calls } }

-- The state after a `Schedule`, whose `EventId` is `σ.env.scheduled`.
unfoldable pub schedule_task : ℕ → Task → State → State
schedule_task delay task σ = record σ {
  env = record (σ.env) {
    calls = schedule delay task ∷ σ.env.calls;
    scheduled = σ.env.scheduled + 1;
  };
}

abbrev pub calls : State → List Call
calls σ = σ.env.calls

-- The tags are set on the packet itself, before it is sent.
unfoldable pub tagged : Data → ℕ → ℕ → ℕ → Data
tagged packet transient rsg_id path_id = record packet {
  rsg_id_tag = some rsg_id;
  path_id_tag = some path_id;
  transient_tag = some transient;
}

unfoldable pub send_lltc_data : Data → ℕ → ℕ → ℕ → State → State
unfolding tagged call
send_lltc_data packet face rsg_id path_id = call (send_data (tagged packet 0 rsg_id path_id) face)

unfoldable pub send_lltc_non_pit_data : Data → ℕ → ℕ → ℕ → State → State
unfolding tagged call
send_lltc_non_pit_data packet face rsg_id path_id =
    call (send_non_pit_data (tagged packet 1 rsg_id path_id) face)

unfoldable pub with_last_data_id : ℕ → State → State
with_last_data_id n σ = record σ { ds = record (σ.ds) { last_data_id = n } }

unfoldable pub with_transmitted : LltcDataIdQueue → State → State
with_transmitted q σ = record σ { ds = record (σ.ds) { transmitted_data_ids = q } }

unfoldable pub with_lost : List ℕ → State → State
with_lost xs σ = record σ { ds = record (σ.ds) { lost_data_ids_from_prev_routers = xs } }

unfoldable pub with_waiting : List (ℕ × RetransInSingleEvent) → State → State
with_waiting m σ = record σ { ds = record (σ.ds) { wait_for_next_data_events = m } }

unfoldable pub with_single : List (ℕ × RetransInSingleEvent) → State → State
with_single m σ = record σ { ds = record (σ.ds) { retrans_in_single_events = m } }

unfoldable pub with_batch : List (ℕ × RetransInMultipleEvent) → State → State
with_batch m σ = record σ { ds = record (σ.ds) { retrans_in_batch_events = m } }

unfoldable pub with_batch_waits : List WaitForRetransInBatchEvent → State → State
with_batch_waits es σ = record σ { ds = record (σ.ds) { wait_for_retrans_in_batch_events = es } }

unfoldable pub with_id_sets : List (ℕ × List ℕ) → State → State
with_id_sets m σ = record σ { ds = record (σ.ds) { id_sets = m } }

unfoldable pub with_draws : ℕ → State → State
with_draws n σ = record σ { env = record (σ.env) { draws = n } }

unfoldable pub with_cs : Cs → State → State
with_cs cs σ = record σ { env = record (σ.env) { local_cs = cs } }

unfoldable pub with_batch_id : ℕ → State → State
with_batch_id n σ = record σ { ds = record (σ.ds) { cur_retrans_in_batch_id = n } }

unfoldable pub with_batch_wait_id : ℕ → State → State
with_batch_wait_id n σ = record σ {
  ds = record (σ.ds) { cur_wait_for_retrans_in_batch_event_id = n };
}

unfoldable pub with_report_uids : List ℕ → State → State
with_report_uids m σ = record σ { ds = record (σ.ds) { recent_data_retrans_report_uids = m } }
