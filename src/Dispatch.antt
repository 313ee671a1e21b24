-- ===== src/Dispatch.antt =====
-- `afterReceiveData` and `afterReceiveNonPitData` of
-- lltc-strategy-forwarding-sublayer-packet-forwarding.cpp (ndnSIM/ns-3/src/ndnSIM/NFD/daemon/fw):
-- which handler a message goes to. `name` is the packet's name as text. The log of messages is
-- left out.
pub mod Routing
pub mod Progress
use drtp.Base.{
  ℕ, ◌%◌, ◌^◌, Bool, true, false, Option, none, some, String, ◌==◌, if◌then◌else◌, ◌>>=◌,
}
use drtp.Messages.{
  Data, Body, capsule, capsule_on_rsp, down_side_control, up_side_control, retran_s, retran_m,
  request_s, request_m, report, lsa, echo, back,
}
use drtp.Fs.{ForwardingStateForRsg, get_forwarding_state, extract_rsg_id, uint_max}
use drtp.State.{State, PitEntry, active_check, link_message}
use drtp.State.Ops.{call}
use drtp.Forwarding.{
  forward_in_non_pit_region_if_necessary, on_receive_down_side_control, on_receive_up_side_control,
}
use drtp.Retrans.Replies.{on_receive_request_s, on_receive_request_m}
use drtp.Retrans.Arrivals.{
  on_receive_capsule, on_receive_capsule_on_rsp, on_receive_retran_s, on_receive_retran_m,
}
use drtp.Retrans.Report.{on_receive_report}

-- `extractPathId`, once the forwarding state is known.
unfoldable pub extract_path_id : Option ℕ → ForwardingStateForRsg → ℕ
extract_path_id none fs = fs.primary_path_id
extract_path_id (some tag) fs = tag % 2 ^ 32

-- The direction of a message of `afterReceiveData` that is neither a Capsule nor a Report: `none`
-- for the operations that it drops.
unfoldable pub direction_of : Body → Option ℕ
direction_of (retran_s dru content) = some 0
direction_of (retran_m drbu content) = some 0
direction_of (capsule_on_rsp dbu content) = some 0
direction_of (down_side_control u content) = some 0
direction_of (request_s rru) = some 1
direction_of (request_m rrbu ids) = some 1
direction_of (up_side_control u content) = some 1
direction_of body = none

-- The messages that a node on the primary path handles itself.
unfoldable pub is_retrans_op : Body → Bool
is_retrans_op (retran_s dru content) = true
is_retrans_op (retran_m drbu content) = true
is_retrans_op (request_s rru) = true
is_retrans_op (request_m rrbu ids) = true
is_retrans_op body = false

-- `needToForward`.
unfoldable pub need_to_forward : Body → ℕ → ForwardingStateForRsg → Bool
need_to_forward body path_id fs =
    if is_retrans_op body then (if path_id == fs.primary_path_id then false else true) else true

-- The last ladder of `afterReceiveData`.
unfoldable pub handle_locally :
    Body → Data → PitEntry → ℕ → ℕ → ℕ → ForwardingStateForRsg → State → Option State
handle_locally (request_s rru) packet pit face rsg_id path_id fs σ =
    on_receive_request_s rru pit face rsg_id path_id σ
handle_locally (request_m rrbu ids) packet pit face rsg_id path_id fs σ =
    on_receive_request_m rrbu ids pit face rsg_id path_id σ
handle_locally (retran_s dru content) packet pit face rsg_id path_id fs σ =
    on_receive_retran_s packet dru content pit rsg_id fs σ
handle_locally (retran_m drbu content) packet pit face rsg_id path_id fs σ =
    on_receive_retran_m packet drbu content pit rsg_id fs σ
handle_locally (capsule_on_rsp dbu content) packet pit face rsg_id path_id fs σ =
    on_receive_capsule_on_rsp packet dbu content pit rsg_id fs σ
handle_locally (down_side_control u content) packet pit face rsg_id path_id fs σ =
    some (on_receive_down_side_control packet rsg_id fs σ)
handle_locally (up_side_control u content) packet pit face rsg_id path_id fs σ =
    some (on_receive_up_side_control packet rsg_id fs σ)
handle_locally body packet pit face rsg_id path_id fs σ = some σ

pub forward_or_handle :
    Data → PitEntry → ℕ → ℕ → ℕ → ForwardingStateForRsg → State → Option ℕ → Option State
forward_or_handle packet pit face rsg_id path_id fs σ none = some σ
forward_or_handle packet pit face rsg_id path_id fs σ (some direction) =
    let local = handle_locally packet.body packet pit face rsg_id path_id fs σ in
    if need_to_forward packet.body path_id fs
    then (let (σ', sent) =
          forward_in_non_pit_region_if_necessary packet rsg_id path_id direction σ in
        if sent then some σ' else local)
    else local

-- `if (LLTC_ENABLE_FAILOVER_ACTIVE_CHECK) doActiveLinkConnectivityCheck(ingress)`.
pub check_ingress : ℕ → State → State
check_ingress face σ =
    if σ.env.config.enable_failover_active_check then call (active_check face) σ else σ

-- `afterReceiveData` for a packet whose subgraph and path are known.
unfoldable pub dispatch :
    Body → Data → PitEntry → ℕ → ℕ → ℕ → ForwardingStateForRsg → State → Option State
unfolding forward_or_handle check_ingress
dispatch (capsule id content) packet pit face rsg_id path_id fs σ =
    on_receive_capsule packet id content pit rsg_id fs (check_ingress face σ)
dispatch (report rdru ids) packet pit face rsg_id path_id fs σ =
    some (on_receive_report packet rdru ids pit fs rsg_id σ)
dispatch body packet pit face rsg_id path_id fs σ =
    forward_or_handle packet pit face rsg_id path_id fs σ (direction_of body)

-- `afterReceiveData`, on the capsule states of the PIT entry's name. Where the tag names no subgraph
-- `extractPathId` dereferences a null pointer, so that `fs` is there in every handler.
unfoldable pub after_receive_data : PitEntry → ℕ → Data → String → State → Option State
after_receive_data pit face packet name σ =
    let rsg_id = extract_rsg_id σ.env.coll packet.rsg_id_tag name in
    if rsg_id == uint_max
    then some σ
    else (get_forwarding_state σ.env.coll rsg_id >>= λ fs.
        dispatch packet.body packet pit face rsg_id (extract_path_id packet.path_id_tag fs) fs σ)

-- The direction in which `afterReceiveNonPitData` passes a message on. It reads the operation at the
-- fourth component from the end of the name, where a Report, which has three behind the prefix, and a
-- Capsule, which has two, have a component of the prefix; that is not the name of an operation here.
unfoldable pub transit_direction : Body → Option ℕ
transit_direction (request_s rru) = some 1
transit_direction (request_m rrbu ids) = some 1
transit_direction (up_side_control u content) = some 1
transit_direction (retran_s dru content) = some 0
transit_direction (retran_m drbu content) = some 0
transit_direction (capsule_on_rsp dbu content) = some 0
transit_direction (down_side_control u content) = some 0
transit_direction body = none

transit : Data → ℕ → ℕ → State → Option ℕ → State
transit packet rsg_id path_id σ none = σ
transit packet rsg_id path_id σ (some direction) =
    (forward_in_non_pit_region_if_necessary packet rsg_id path_id direction σ).0

transit_on : Data → String → State → Option ℕ → State
unfolding transit
transit_on packet name σ none = σ
transit_on packet name σ (some tag) =
    let rsg_id = extract_rsg_id σ.env.coll packet.rsg_id_tag name in
    if rsg_id == uint_max
    then σ
    else transit packet rsg_id (tag % 2 ^ 32) σ (transit_direction packet.body)

-- Whether `afterReceiveNonPitData` hands a message to the link measurement.
unfoldable pub is_link_op : Body → Bool
is_link_op (echo u) = true
is_link_op (back u) = true
is_link_op (lsa u links) = true
is_link_op body = false

-- `afterReceiveNonPitData`, of a packet from a face.
unfoldable pub after_receive_non_pit_data : ℕ → Data → String → State → State
unfolding transit_on
after_receive_non_pit_data face packet name σ =
    if is_link_op packet.body
    then call (link_message packet face) σ
    else transit_on packet name σ packet.path_id_tag
