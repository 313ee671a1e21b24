-- ===== src/Tests.antt =====
-- A node with one subgraph, one upstream retransmission path and an application, on which the
-- theorems are applied.
pub mod Deliveries
pub mod Interests
pub mod Requests
pub mod Tables
pub mod Wires
pub mod Network
pub mod Routes
pub mod Subgraphs
pub mod Paths
use drtp.Base.{ℕ, ◌-◌, ◌*◌, true, false, some, [], ◌∷◌, String}
use drtp.Base.Int.{pos}
use drtp.Base.Seqs.{tally, elem, insert, remove, remove_first, keep}
use drtp.Base.Maps.{find, assign, erase}
use drtp.DataIdQueue.{set_len, contains, append, push, get_data_id_add_time}
use drtp.Messages.{
  Data, new_data, capsule, construct_capsule, construct_capsule_on_rsp, construct_report,
  construct_request_s, construct_request_m, construct_retran_s, construct_retran_m, request_type,
  retran_s_uri,
}
use drtp.Fs.{
  LltcFibEntry, ForwardingStateForRsg, ForwardingStateCollection, get_forwarding_state,
  is_upstream_retrans_point, first_entry, lookup_forwarding_entry, extract_rsg_id, lookup_rsg_id,
}
use drtp.State.{State, Config, Cs, Env, PitEntry}
use drtp.State.Ops.{
  call, schedule_task, tagged, send_lltc_data, send_lltc_non_pit_data, with_last_data_id,
  with_transmitted, with_lost, with_waiting, with_single, with_batch, with_batch_waits,
  with_id_sets, with_draws, with_cs, with_batch_id, with_batch_wait_id, with_report_uids,
}
use drtp.State.Frame.{delivered, serves}
use drtp.Cs.{
  capsule_id, names_capsule, find_in, find_capsule, closer, closest_in,
  find_closest_data_name_in_cs, lookup_in_cs,
}
use drtp.Cs
use drtp.Forwarding.{
  deliver_capsule, forward_in_non_pit_region_if_necessary, deliver_non_pit_message, control_path,
}
use drtp.Retrans.Events.{
  single_event, get_retran_m_event, check_and_record_retransmitted_data_id, compute_data_retrans_id,
  compute_next_data_id, clean_wait_for_next_event, clean_retran_in_single_events,
  clean_wait_for_request_m_events, clean_retran_m_events_of, clean_retran_m_events, add_to_set,
  set_minus,
}
use drtp.Retrans.Timers.{
  send_report, wait_for_next_capsule, wait_for_next_capsule_delayed_task_iterative,
  wait_for_next_capsule_delayed_task,
}
use drtp.Retrans.Multiple.{
  broadcast_request_m_and_wait_recursive, broadcast_request_m_and_wait, range_from, is_newly_lost,
  new_lost_data_ids, discover_lost_capsules, wait_to_request_m,
}
use drtp.Retrans.Replies.{
  is_exact, capsule_content, answer_type, single_answer, on_receive_request_s, on_receive_request_m,
}
use drtp.Retrans.Arrivals.{
  await_next, on_receive_capsule, on_receive_capsule_on_rsp, advance, on_receive_retran_s,
  on_receive_retran_m,
}
use drtp.Retrans.Report.{on_receive_report}
use drtp.Dispatch.{
  extract_path_id, direction_of, is_retrans_op, need_to_forward, handle_locally, dispatch,
  after_receive_data, transit_direction, is_link_op, after_receive_non_pit_data,
}
use drtp.Run.{new_capsule_forwarding_states, start, run_task, handle, at_time, run}

pub program : Unit {0}
unfolding tally elem insert remove remove_first keep find assign erase set_len contains append push
    get_data_id_add_time construct_capsule construct_capsule_on_rsp construct_report
    construct_request_s construct_request_m construct_retran_s construct_retran_m request_type
    retran_s_uri get_forwarding_state is_upstream_retrans_point first_entry lookup_forwarding_entry
    extract_rsg_id lookup_rsg_id call schedule_task tagged send_lltc_data send_lltc_non_pit_data
    with_last_data_id with_transmitted with_lost with_waiting with_single with_batch
    with_batch_waits with_id_sets with_draws with_cs with_batch_id with_batch_wait_id
    with_report_uids delivered serves capsule_id names_capsule find_in find_capsule closer
    closest_in find_closest_data_name_in_cs lookup_in_cs Cs.insert deliver_capsule
    forward_in_non_pit_region_if_necessary deliver_non_pit_message control_path single_event
    get_retran_m_event check_and_record_retransmitted_data_id compute_data_retrans_id
    compute_next_data_id clean_wait_for_next_event clean_retran_in_single_events
    clean_wait_for_request_m_events clean_retran_m_events_of clean_retran_m_events add_to_set
    set_minus send_report wait_for_next_capsule wait_for_next_capsule_delayed_task_iterative
    wait_for_next_capsule_delayed_task broadcast_request_m_and_wait_recursive
    broadcast_request_m_and_wait range_from is_newly_lost new_lost_data_ids discover_lost_capsules
    wait_to_request_m is_exact capsule_content answer_type single_answer on_receive_request_s
    on_receive_request_m await_next on_receive_capsule on_receive_capsule_on_rsp advance
    on_receive_retran_s on_receive_retran_m on_receive_report extract_path_id direction_of
    is_retrans_op need_to_forward handle_locally dispatch after_receive_data transit_direction
    is_link_op after_receive_non_pit_data new_capsule_forwarding_states start run_task handle
    at_time run
program = tt

abbrev pub topic : String
topic = "lltc"

abbrev pub pit : PitEntry
pit = record { name = topic; in_faces = 7 ∷ [] }

abbrev pub upstream : LltcFibEntry
upstream = record {
  path_id = 1;
  face_next_hop = 4;
  metric = 1;
  direction = 1;
  retrans_timeout = 500;
  is_retrans_point = true;
}

abbrev pub subgraph : ForwardingStateForRsg
subgraph = record {
  prefix_list = topic ∷ [];
  fib_entries = upstream ∷ [];
  primary_path_id = 1;
  preferred_down_path_id = 1;
  preferred_up_path_id = 1;
  is_down_path_in_rsp_state = false;
  is_up_path_in_rsp_state = false;
  waiting_timeout_on_next_packet = 300;
  waiting_timeout_on_next_packet_for_lost_report = 400;
  waiting_timeout_on_retrans_report = (9, 600) ∷ [];
}

abbrev pub coll : ForwardingStateCollection
coll = record { fss_map = (3, subgraph) ∷ []; app_face = some 7; local_node_id = 5 }

abbrev pub config : Config
config = record {
  queue_size_for_transmitted_data_ids = 10;
  num_retrans_requests = 2;
  num_data_retrans_reports_to_send = 2;
  enable_failover = true;
  disable_retran = false;
  enable_failover_active_check = false;
  waiting_time = λ skipped timeout penalty. pos (skipped * 20000 - penalty);
}

abbrev pub store : Cs
store = record {
  table = [];
  should_admit = true;
  should_serve = true;
  limit = 100;
  after_insert = λ ds. ds;
}

abbrev pub env : Env
env = record {
  config = config;
  coll = coll;
  local_cs = store;
  now = 0;
  random = λ k. k;
  draws = 0;
  scheduled = 0;
  calls = [];
}

abbrev pub capsule_of : ℕ → Data
capsule_of id = record (new_data topic (capsule id (id ∷ [])) 1000) {
  rsg_id_tag = some 3;
  path_id_tag = some 1;
}

abbrev pub node : State
node = start topic env
