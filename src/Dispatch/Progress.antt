-- ===== src/Dispatch/Progress.antt =====
-- `afterReceiveData` (lltc-strategy-forwarding-sublayer-packet-forwarding.cpp) returns while the
-- forwarding state of the packet's subgraph is complete.
use drtp.Base.{ℕ, ◌≡◌, true, refl, Option, none, some}
use drtp.Messages.{
  Data, Body, capsule, capsule_on_rsp, down_side_control, up_side_control, retran_s, retran_m,
  request_s, request_m, report,
}
use drtp.Fs.{ForwardingStateForRsg}
use drtp.State.Frame.{serves}
use drtp.Retrans.Replies.Progress.{on_receive_request_s-Returns, on_receive_request_m-Returns}
use drtp.State.{State, PitEntry}
use drtp.Forwarding.Progress.{CanBypass, Returns, both_return}
use drtp.Retrans.Arrivals.{on_receive_capsule_on_rsp}
use drtp.Retrans.Arrivals.Progress.{
  HasRoom, on_receive_capsule-Returns, on_receive_retran_s-Returns, on_receive_retran_m-Returns,
}
use drtp.Dispatch.{
  direction_of, need_to_forward, handle_locally, forward_or_handle, check_ingress, dispatch,
}
use drtp.Dispatch.Routing.{check_ingress-Frame}

handle_locally-Returns :
    (limit : ℕ) (body : Body) (packet : Data) (pit : PitEntry) (face rsg_id path_id : ℕ)
    (fs : ForwardingStateForRsg) (σ : State)
    → HasRoom limit σ
    → serves σ.env.local_cs ≡ true
    → CanBypass σ.env.coll rsg_id fs
    → Returns (handle_locally body packet pit face rsg_id path_id fs σ)
unfolding handle_locally on_receive_capsule_on_rsp
handle_locally-Returns limit (request_s rru) packet pit face rsg_id path_id fs σ room s h =
    on_receive_request_s-Returns rru pit face rsg_id path_id σ s
handle_locally-Returns limit (request_m rrbu ids) packet pit face rsg_id path_id fs σ room s h =
    on_receive_request_m-Returns rrbu ids pit face rsg_id path_id σ s
handle_locally-Returns limit (retran_s dru content) packet pit face rsg_id path_id fs σ room s h =
    on_receive_retran_s-Returns limit packet dru content pit rsg_id fs σ room h
handle_locally-Returns limit (retran_m drbu content) packet pit face rsg_id path_id fs σ room s h =
    on_receive_retran_m-Returns limit packet drbu content pit rsg_id fs σ room h
handle_locally-Returns limit (capsule_on_rsp dbu content) packet pit face rsg_id path_id fs σ room s
      h =
    on_receive_capsule-Returns limit _ dbu.data_id content pit rsg_id fs σ room h
handle_locally-Returns limit (down_side_control u content) packet pit face rsg_id path_id fs σ room
      s h =
    (_, refl)
handle_locally-Returns limit (up_side_control u content) packet pit face rsg_id path_id fs σ room s
      h =
    (_, refl)
handle_locally-Returns limit body packet pit face rsg_id path_id fs σ room s h = (_, refl)

forward_or_handle-Returns :
    (limit : ℕ) (packet : Data) (pit : PitEntry) (face rsg_id path_id : ℕ)
    (fs : ForwardingStateForRsg) (σ : State) (direction : Option ℕ)
    → HasRoom limit σ
    → serves σ.env.local_cs ≡ true
    → CanBypass σ.env.coll rsg_id fs
    → Returns (forward_or_handle packet pit face rsg_id path_id fs σ direction)
unfolding forward_or_handle
forward_or_handle-Returns limit packet pit face rsg_id path_id fs σ none room s h = (_, refl)
forward_or_handle-Returns limit packet pit face rsg_id path_id fs σ (some direction) room s h =
    let local =
      handle_locally-Returns limit packet.body packet pit face rsg_id path_id fs σ room s h in
    both_return (need_to_forward packet.body path_id fs) _ _ (both_return _ _ _ (_, refl) local)
      local

pub dispatch-Returns :
    (limit : ℕ) (body : Body) (packet : Data) (pit : PitEntry) (face rsg_id path_id : ℕ)
    (fs : ForwardingStateForRsg) (σ : State)
    → HasRoom limit σ
    → serves σ.env.local_cs ≡ true
    → CanBypass σ.env.coll rsg_id fs
    → Returns (dispatch body packet pit face rsg_id path_id fs σ)
unfolding dispatch
dispatch-Returns limit (capsule id content) packet pit face rsg_id path_id fs σ room s h =
    let f = check_ingress-Frame face σ in
    on_receive_capsule-Returns limit packet id content pit rsg_id fs (check_ingress face σ)
      (rw f.transmitted room) (rw f.coll h)
dispatch-Returns limit (report rdru ids) packet pit face rsg_id path_id fs σ room s h = (_, refl)
dispatch-Returns limit body packet pit face rsg_id path_id fs σ room s h =
    forward_or_handle-Returns limit packet pit face rsg_id path_id fs σ (direction_of body) room s h
