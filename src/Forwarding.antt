-- ===== src/Forwarding.antt =====
-- lltc-strategy-service-sublayer-forwarding.cpp (ndnSIM/ns-3/src/ndnSIM/NFD/daemon/fw): where a
-- capsule or a control message goes next. `fs` is what `getForwardingState(rsgId)` returns. `none` is
-- a dereference of a null pointer.
pub mod Delivery
pub mod Progress
use drtp.Base.{
  ℕ, ◌%◌, ◌^◌, Bool, true, false, Option, none, some, List, [], ◌∷◌, ◌==◌, if◌then◌else◌,
}
use drtp.Messages.{Data, construct_capsule_on_rsp}
use drtp.Fs.{LltcFibEntry, ForwardingStateForRsg, lookup_forwarding_entry}
use drtp.State.{State, PitEntry}
use drtp.State.Ops.{send_lltc_data, send_lltc_non_pit_data}

-- `preferredDownPathId` and `preferredUpPathId` are 64 bits wide; a path ID has 32.
abbrev pub down_path : ForwardingStateForRsg → ℕ
down_path fs = fs.preferred_down_path_id % 2 ^ 32

abbrev pub up_path : ForwardingStateForRsg → ℕ
up_path fs = fs.preferred_up_path_id % 2 ^ 32

deliver_on_rsp : Data → ℕ → ForwardingStateForRsg → State → Option LltcFibEntry → Option State
deliver_on_rsp bypass rsg_id fs σ none = none
deliver_on_rsp bypass rsg_id fs σ (some fe) =
    some (send_lltc_non_pit_data bypass fe.face_next_hop rsg_id (down_path fs) σ)

-- The application that asked, if there is one.
deliver_to_app : Data → List ℕ → ℕ → ForwardingStateForRsg → State → State
deliver_to_app packet [] rsg_id fs σ = σ
deliver_to_app packet (face ∷ faces) rsg_id fs σ =
    send_lltc_data packet face rsg_id fs.primary_path_id σ

deliver_on_path : PitEntry → Data → ℕ → ForwardingStateForRsg → State → Option LltcFibEntry → State
unfolding deliver_to_app
deliver_on_path pit packet rsg_id fs σ none = deliver_to_app packet pit.in_faces rsg_id fs σ
deliver_on_path pit packet rsg_id fs σ (some fe) =
    send_lltc_data packet fe.face_next_hop rsg_id (down_path fs) σ

-- `deliverCapsule`, of a packet with this content.
unfoldable pub deliver_capsule :
    PitEntry → Data → List ℕ → ℕ → ℕ → ForwardingStateForRsg → State → Option State
unfolding deliver_on_rsp deliver_on_path
deliver_capsule pit packet content data_id rsg_id fs σ =
    let down = lookup_forwarding_entry σ.env.coll rsg_id (down_path fs) 0 in
    if fs.is_down_path_in_rsp_state
    then deliver_on_rsp
        (construct_capsule_on_rsp pit.name data_id content packet.freshness_period false 0) rsg_id
        fs σ down
    else some (deliver_on_path pit packet rsg_id fs σ down)

send_on : Data → ℕ → ℕ → State → Option LltcFibEntry → State × Bool
send_on packet rsg_id path_id σ none = (σ, false)
send_on packet rsg_id path_id σ (some fe) =
    (send_lltc_non_pit_data packet fe.face_next_hop rsg_id path_id σ, true)

-- `forwardInNonPitRegionIfNecessary`.
unfoldable pub forward_in_non_pit_region_if_necessary : Data → ℕ → ℕ → ℕ → State → State × Bool
unfolding send_on
forward_in_non_pit_region_if_necessary packet rsg_id path_id direction σ =
    send_on packet rsg_id path_id σ (lookup_forwarding_entry σ.env.coll rsg_id path_id direction)

-- The path of a control message: the preferred one while the direction is on a redundant sub-path.
unfoldable pub control_path : ForwardingStateForRsg → ℕ → ℕ
control_path fs direction =
    if direction == 0
    then if fs.is_down_path_in_rsp_state then down_path fs else fs.primary_path_id
    else if fs.is_up_path_in_rsp_state
    then up_path fs
    else fs.primary_path_id

to_app : Data → ℕ → ℕ → State → Option ℕ → State
to_app packet rsg_id path_id σ none = σ
to_app packet rsg_id path_id σ (some face) = send_lltc_non_pit_data packet face rsg_id path_id σ

deliver_control : Data → ℕ → ℕ → ForwardingStateForRsg → State → Option LltcFibEntry → State
unfolding to_app
deliver_control packet path_id rsg_id fs σ none =
    to_app packet rsg_id fs.primary_path_id σ σ.env.coll.app_face
deliver_control packet path_id rsg_id fs σ (some fe) =
    send_lltc_non_pit_data packet fe.face_next_hop rsg_id path_id σ

-- `deliverNonPitMessage`.
unfoldable pub deliver_non_pit_message : Data → ℕ → ℕ → ForwardingStateForRsg → State → State
unfolding control_path deliver_control
deliver_non_pit_message packet direction rsg_id fs σ =
    let path_id = control_path fs direction in
    deliver_control packet path_id rsg_id fs σ
      (lookup_forwarding_entry σ.env.coll rsg_id path_id direction)

-- `onReceiveDownSideControl` and `onReceiveUpSideControl`.
unfoldable pub on_receive_down_side_control : Data → ℕ → ForwardingStateForRsg → State → State
on_receive_down_side_control packet = deliver_non_pit_message packet 0

unfoldable pub on_receive_up_side_control : Data → ℕ → ForwardingStateForRsg → State → State
on_receive_up_side_control packet = deliver_non_pit_message packet 1
