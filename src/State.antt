-- ===== src/State.antt =====
-- NFD/daemon/fw/lltc-common.hpp, lltc-strategy.hpp and lltc-strategy-config.hpp
-- (ndnSIM/ns-3/src/ndnSIM): the state that `LltcStrategy` keeps for one prefix
-- (`CapsuleForwardingStates`), what it shares between prefixes, and the calls that it makes of the
-- simulator, of the forwarder and of its own link measurement. Every such call is recorded, newest first. An `EventId` is the
-- number of `Simulator::Schedule` calls before the one that returned it.
pub mod Ops
pub mod Frame
use drtp.Base.{ℕ, Bool, Option, List, String}
use drtp.Base.Int.{ℤ}
use drtp.DataIdQueue.{LltcDataIdQueue}
use drtp.Messages.{Data}
use drtp.Fs.{LltcFibEntry, ForwardingStateCollection}

-- `e` is `none` for an `EventId` that was never assigned.
pub record RetransInSingleEvent : Type 0 where
  pub e : Option ℕ
  pub req_time : ℕ

pub record RetransInMultipleEvent : Type 0 where
  pub e : Option ℕ
  pub time : ℕ
  pub retrans_data_ids : List ℕ

-- `data_ids` points to a set in `id_sets`, which the scheduled task shares.
pub record WaitForRetransInBatchEvent : Type 0 where
  pub event_id : ℕ
  pub data_ids : ℕ
  pub e : Option ℕ
  pub time : ℕ

pub record CapsuleForwardingStates : Type 0 where
  pub prefix : String
  pub last_data_id : ℕ
  pub transmitted_data_ids : LltcDataIdQueue
  pub lost_data_ids_from_prev_routers : List ℕ
  pub wait_for_next_data_events : List (ℕ × RetransInSingleEvent)
  pub retrans_in_single_events : List (ℕ × RetransInSingleEvent)
  pub retrans_in_batch_events : List (ℕ × RetransInMultipleEvent)
  pub wait_for_retrans_in_batch_events : List WaitForRetransInBatchEvent
  pub recent_data_retrans_report_uids : List ℕ
  pub cur_retrans_in_batch_id : ℕ
  pub cur_wait_for_retrans_in_batch_event_id : ℕ
  pub id_sets : List (ℕ × List ℕ)

pub record RequestCallingParam : Type 0 where
  pub rest_retrans_requests : ℕ
  pub find_closest_data_if_cs_missed : Bool
  pub rsg_id : ℕ

-- A `pit::Entry`: its name, and the faces of its in-records.
pub record PitEntry : Type 0 where
  pub name : String
  pub in_faces : List ℕ

-- A member function bound to its arguments by `Simulator::Schedule`. The capsule states that it
-- takes are those of the PIT entry's name.
pub data Task : Type 0 where
  wait_for_next_capsule_delayed : ℕ → PitEntry → ℕ → Bool → Task
  wait_for_next_capsule_iterative : ℕ → RequestCallingParam → PitEntry → LltcFibEntry → Bool → Task
  broadcast_request_m_recursive : ℕ → ℕ → Bool → PitEntry → ℕ → Task
  wait_to_request_m : ℕ → ℕ → PitEntry → ℕ → Task

pub data Call : Type 0 where
  -- `Simulator::Schedule(MicroSeconds(delay), …)`
  schedule : ℕ → Task → Call
  -- `Simulator::Remove(e)`
  remove_event : Option ℕ → Call
  -- `Strategy::sendData`, to a face
  send_data : Data → ℕ → Call
  -- `Strategy::sendNonPitData`, to a face
  send_non_pit_data : Data → ℕ → Call
  -- `LltcLog::getRetranEvents()->push_back`: node, subgraph, path, data ID and type
  log_retran : ℕ → ℕ → ℕ → ℕ → ℕ → Call
  -- `checkLinkConnectivityInActiveManner`, of a face
  check_link : ℕ → Call
  -- `doActiveLinkConnectivityCheck`, of an ingress face
  active_check : ℕ → Call
  -- `onReceiveEcho`, `onReceiveBack` or `onReceiveLsa`, from a face
  link_message : Data → ℕ → Call

-- `waiting_time` is the floating-point expression of `waitForNextCapsule`, over the number of
-- skipped capsules, the timeout of the subgraph and the penalty, in microseconds.
pub record Config : Type 0 where
  pub queue_size_for_transmitted_data_ids : ℕ
  pub num_retrans_requests : ℕ
  pub num_data_retrans_reports_to_send : ℕ
  pub enable_failover : Bool
  pub disable_retran : Bool
  pub enable_failover_active_check : Bool
  pub waiting_time : ℕ → ℕ → ℕ → ℤ

-- The content store (table/cs.hpp): `after_insert` is what the replacement policy leaves of the
-- table once an entry has been added, the policy not being part of the repository.
pub record Cs : Type 0 where
  pub table : List Data
  pub should_admit : Bool
  pub should_serve : Bool
  pub limit : ℕ
  pub after_insert : List Data → List Data

-- `now` is the time of the event being handled; `random k` is the k-th draw of the generator.
pub record Env : Type 0 where
  pub config : Config
  pub coll : ForwardingStateCollection
  pub local_cs : Cs
  pub now : ℕ
  pub random : ℕ → ℕ
  pub draws : ℕ
  pub scheduled : ℕ
  pub calls : List Call

-- What a handler works on: the capsule states of its prefix, and the rest of the node.
pub record State : Type 0 where
  pub ds : CapsuleForwardingStates
  pub env : Env
