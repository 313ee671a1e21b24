-- ===== src/Dispatch/Routing.antt =====
-- What the dispatch of messages (lltc-strategy-forwarding-sublayer-packet-forwarding.cpp) does to
-- the capsules that were passed on.
use drtp.Base.{
  ℕ, ◌+◌, ◌^◌, ◌<◌, ◌≡◌, refl, Bool, true, false, inl, inr, Option, none, some, String, ◌==◌,
  Bool-cases, of_result, >>=-eq-some, if◌then◌else◌,
}
use drtp.Messages.{
  Data, Body, capsule, capsule_on_rsp, down_side_control, up_side_control, retran_s, retran_m,
  request_s, request_m, report, construct_capsule,
}
use drtp.Fs.{
  ForwardingStateCollection, ForwardingStateForRsg, get_forwarding_state, extract_rsg_id, uint_max,
}
use drtp.State.{State, PitEntry, active_check, link_message}
use drtp.State.Ops.{call}
use drtp.State.Frame.{Frame, Frame-refl, if-Frame, quiet, call-Frame, is_delivery}
use drtp.Forwarding.{on_receive_down_side_control, on_receive_up_side_control}
use drtp.Forwarding.Delivery.{
  forward_in_non_pit_region-ds, deliver_non_pit_message-Frame, forward_in_non_pit_region-Frame,
}
use drtp.Retrans.Replies.Frames.{on_receive_request_s-Frame, on_receive_request_m-Frame}
use drtp.Retrans.Report.Once.{on_receive_report-Quiet}
use drtp.Retrans.Arrivals.{on_receive_capsule_on_rsp}
use drtp.Retrans.Arrivals.Once.{
  AtMostOnce, Quiet-AtMostOnce, Quiet-keeps, on_receive_capsule-AtMostOnce,
  on_receive_retran_s-AtMostOnce, on_receive_retran_m-AtMostOnce,
}
use drtp.Dispatch.{
  extract_path_id, direction_of, need_to_forward, handle_locally, forward_or_handle, check_ingress,
  dispatch, after_receive_data, transit_direction, transit, transit_on, is_link_op,
  after_receive_non_pit_data,
}

module _ {kept : ForwardingStateCollection × Bool} (limit k : ℕ) (packet : Data) (pit : PitEntry)
    (face rsg_id path_id : ℕ) (fs : ForwardingStateForRsg) (σ : State)
    (v : AtMostOnce kept limit k σ) (h : limit + k + 1 < 2 ^ 64) where
  unchanged : {σ' : State} → some σ ≡ some σ' → AtMostOnce kept limit (k + 1) σ'
  unchanged e =
      of_result (AtMostOnce _ limit (k + 1)) refl e (Quiet-AtMostOnce (quiet (Frame-refl σ)) v)

  framed : {τ σ' : State} → Frame σ τ → some τ ≡ some σ' → AtMostOnce kept limit (k + 1) σ'
  framed f e = of_result (AtMostOnce _ limit (k + 1)) refl e (Quiet-AtMostOnce (quiet f) v)

  handle_locally-AtMostOnce :
      (body : Body) {σ' : State}
      → handle_locally body packet pit face rsg_id path_id fs σ ≡ some σ'
      → AtMostOnce kept limit (k + 1) σ'
  unfolding handle_locally on_receive_capsule_on_rsp on_receive_down_side_control
      on_receive_up_side_control construct_capsule
  handle_locally-AtMostOnce (request_s rru) e =
      Quiet-AtMostOnce (quiet (on_receive_request_s-Frame rru pit face rsg_id path_id σ e)) v
  handle_locally-AtMostOnce (request_m rrbu ids) e =
      Quiet-AtMostOnce (quiet (on_receive_request_m-Frame rrbu ids pit face rsg_id path_id σ e)) v
  handle_locally-AtMostOnce (retran_s dru content) e =
      on_receive_retran_s-AtMostOnce limit k packet dru content pit rsg_id fs σ v h e
  handle_locally-AtMostOnce (retran_m drbu content) e =
      on_receive_retran_m-AtMostOnce limit k packet drbu content pit rsg_id fs σ v h e
  handle_locally-AtMostOnce (capsule_on_rsp dbu content) e =
      on_receive_capsule-AtMostOnce limit k _ dbu.data_id content pit rsg_id fs σ v h refl e
  handle_locally-AtMostOnce (down_side_control u content) e =
      framed (deliver_non_pit_message-Frame packet 0 rsg_id fs σ) e
  handle_locally-AtMostOnce (up_side_control u content) e =
      framed (deliver_non_pit_message-Frame packet 1 rsg_id fs σ) e
  handle_locally-AtMostOnce body e = unchanged e

  sent_on-AtMostOnce :
      (b : Bool) (τ : State) (m : Option State) {σ' : State}
      → Frame σ τ
      → (m ≡ some σ' → AtMostOnce kept limit (k + 1) σ')
      → (if b then some τ else m) ≡ some σ'
      → AtMostOnce kept limit (k + 1) σ'
  sent_on-AtMostOnce true τ m f local e = framed f e
  sent_on-AtMostOnce false τ m f local e = local e

  routed-AtMostOnce :
      (b : Bool) (m m' : Option State) {σ' : State}
      → (m ≡ some σ' → AtMostOnce kept limit (k + 1) σ')
      → (m' ≡ some σ' → AtMostOnce kept limit (k + 1) σ')
      → (if b then m else m') ≡ some σ'
      → AtMostOnce kept limit (k + 1) σ'
  routed-AtMostOnce true m m' f g e = f e
  routed-AtMostOnce false m m' f g e = g e

  forward_or_handle-AtMostOnce :
      (direction : Option ℕ) {σ' : State}
      → forward_or_handle packet pit face rsg_id path_id fs σ direction ≡ some σ'
      → AtMostOnce kept limit (k + 1) σ'
  unfolding forward_or_handle
  forward_or_handle-AtMostOnce none e = unchanged e
  forward_or_handle-AtMostOnce (some direction) {σ'} e =
      routed-AtMostOnce (need_to_forward packet.body path_id fs) _ _
        (sent_on-AtMostOnce _ _ _
          (forward_in_non_pit_region-Frame packet rsg_id path_id direction σ)
          (handle_locally-AtMostOnce packet.body))
        (handle_locally-AtMostOnce packet.body) e

pub check_ingress-Frame : (face : ℕ) (σ : State) → Frame σ (check_ingress face σ)
unfolding check_ingress is_delivery
check_ingress-Frame face σ =
    if-Frame σ.env.config.enable_failover_active_check σ _
      (call-Frame (active_check face) σ (λ _. refl))

pub dispatch-AtMostOnce :
    {kept : ForwardingStateCollection × Bool} (limit k : ℕ) (body : Body) (packet : Data)
    (pit : PitEntry) (face rsg_id path_id : ℕ) (fs : ForwardingStateForRsg) (σ : State) {σ' : State}
    → packet.body ≡ body
    → AtMostOnce kept limit k σ
    → limit + k + 1 < 2 ^ 64
    → dispatch body packet pit face rsg_id path_id fs σ ≡ some σ'
    → AtMostOnce kept limit (k + 1) σ'
unfolding dispatch
dispatch-AtMostOnce limit k (capsule id content) packet pit face rsg_id path_id fs σ b v h e =
    on_receive_capsule-AtMostOnce limit k packet id content pit rsg_id fs (check_ingress face σ)
      (Quiet-keeps (quiet (check_ingress-Frame face σ)) v) h b e
dispatch-AtMostOnce limit k (report rdru ids) packet pit face rsg_id path_id fs σ b v h e =
    of_result (AtMostOnce _ limit (k + 1)) refl e
      (Quiet-AtMostOnce (on_receive_report-Quiet packet rdru ids pit fs rsg_id σ) v)
dispatch-AtMostOnce limit k body packet pit face rsg_id path_id fs σ b v h e =
    forward_or_handle-AtMostOnce limit k packet pit face rsg_id path_id fs σ v h (direction_of body)
      e

-- `afterReceiveData` keeps the states in which retransmission is on and every capsule was handed to
-- `sendData` at most once, whatever the message, on a queue of passed-on IDs whose limit and length are
-- below 2^64 together; the queue has one ID more at most.
pub after_receive_data-AtMostOnce :
    {kept : ForwardingStateCollection × Bool} (limit k : ℕ) (pit : PitEntry) (face : ℕ)
    (packet : Data) (name : String) (σ : State) {σ' : State}
    → AtMostOnce kept limit k σ
    → limit + k + 1 < 2 ^ 64
    → after_receive_data pit face packet name σ ≡ some σ'
    → AtMostOnce kept limit (k + 1) σ'
unfolding after_receive_data
after_receive_data-AtMostOnce limit k pit face packet name σ {σ'} v h e =
    elim (Bool-cases (extract_rsg_id σ.env.coll packet.rsg_id_tag name == uint_max)) [
      | inl drop ↦
          of_result (AtMostOnce _ limit (k + 1)) refl (rw drop at e)
            (Quiet-AtMostOnce (quiet (Frame-refl σ)) v)
      | inr known ↦
          let (fs, f, r) =
            >>=-eq-some (get_forwarding_state σ.env.coll rsg_id)
              (λ fs. dispatch packet.body packet pit face rsg_id (path_of fs) fs σ)
              (rw known at e) in
          dispatch-AtMostOnce limit k packet.body packet pit face rsg_id (path_of fs) fs σ refl v h
            r
    ]
  where
    rsg_id : ℕ
    rsg_id = extract_rsg_id σ.env.coll packet.rsg_id_tag name

    path_of : ForwardingStateForRsg → ℕ
    path_of fs = extract_path_id packet.path_id_tag fs

transit-Frame :
    (packet : Data) (rsg_id path_id : ℕ) (σ : State) (direction : Option ℕ)
    → Frame σ (transit packet rsg_id path_id σ direction)
unfolding transit
transit-Frame packet rsg_id path_id σ none = Frame-refl σ
transit-Frame packet rsg_id path_id σ (some direction) =
    forward_in_non_pit_region-Frame packet rsg_id path_id direction σ

transit_on-Frame :
    (packet : Data) (name : String) (σ : State) (tag : Option ℕ)
    → Frame σ (transit_on packet name σ tag)
unfolding transit_on
transit_on-Frame packet name σ none = Frame-refl σ
transit_on-Frame packet name σ (some tag) =
    elim (Bool-cases (extract_rsg_id σ.env.coll packet.rsg_id_tag name == uint_max)) [
      | inl drop ↦ rw drop (Frame-refl σ)
      | inr known ↦ rw known (transit-Frame packet _ _ σ (transit_direction packet.body))
    ]

transit-ds :
    (packet : Data) (rsg_id path_id : ℕ) (σ : State) (direction : Option ℕ)
    → (transit packet rsg_id path_id σ direction).ds ≡ σ.ds
unfolding transit
transit-ds packet rsg_id path_id σ none = refl
transit-ds packet rsg_id path_id σ (some direction) =
    forward_in_non_pit_region-ds packet rsg_id path_id direction σ

transit_on-ds :
    (packet : Data) (name : String) (σ : State) (tag : Option ℕ)
    → (transit_on packet name σ tag).ds ≡ σ.ds
unfolding transit_on
transit_on-ds packet name σ none = refl
transit_on-ds packet name σ (some tag) =
    elim (Bool-cases (extract_rsg_id σ.env.coll packet.rsg_id_tag name == uint_max)) [
      | inl drop ↦ rw drop refl
      | inr known ↦ rw known (transit-ds packet _ _ σ (transit_direction packet.body))
    ]

pub after_receive_non_pit_data-Frame :
    (face : ℕ) (packet : Data) (name : String) (σ : State)
    → ((after_receive_non_pit_data face packet name σ).ds ≡ σ.ds)
      × Frame σ (after_receive_non_pit_data face packet name σ)
unfolding after_receive_non_pit_data is_delivery call
after_receive_non_pit_data-Frame face packet name σ = elim (Bool-cases (is_link_op packet.body)) [
  | inl e ↦ rw e (refl, call-Frame (link_message packet face) σ (λ _. refl))
  | inr e ↦ rw e (
    transit_on-ds packet name σ packet.path_id_tag,
    transit_on-Frame packet name σ packet.path_id_tag,
  )
]
