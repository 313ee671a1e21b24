-- ===== src/Retrans/Arrivals/Progress.antt =====
-- The handlers of arriving capsules return: the only null pointer that they may dereference is the
-- FIB entry of a bypassed path.
use drtp.Base.{ℕ, ◌+◌, ◌^◌, ◌<◌, ◌≡◌, refl, Option, some, List, ◌>>=◌, not, if◌then◌else◌}
use drtp.Base.Seqs.{length}
use drtp.DataIdQueue.{contains}
use drtp.DataIdQueue.Capacity.{Slack}
use drtp.Messages.{Data, RetransType, RetranSUri, RetranMUri, construct_capsule}
use drtp.Fs.{ForwardingStateForRsg}
use drtp.State.{State, PitEntry}
use drtp.State.Ops.{with_transmitted}
use drtp.State.Frame.{Frame-trans, Quiet-trans, quiet, with_waiting-Frame}
use drtp.Forwarding.Progress.{
  CanBypass, Returns, both_return, then_returns, deliver_capsule-Returns,
}
use drtp.Retrans.Events.{
  check_and_record_retransmitted_data_id, clean_wait_for_next_event, clean_retran_in_single_events,
  clean_retran_m_events_of,
}
use drtp.Retrans.Events.Recording.{check_and_record_total}
use drtp.Retrans.Events.Cleaning.Frames.{
  clean_wait_for_next_event-Frame, clean_retran_in_single_events-Frame,
  clean_retran_m_events_of-Frame,
}
use drtp.Retrans.Arrivals.{
  note_arrival, clean_arrived, accept_capsule, on_receive_capsule, store_capsule, touch_waiting,
  accept_retran_s, on_receive_retran_s, retran_s_of_type, accept_retran_m, on_receive_retran_m,
}
use drtp.Retrans.Arrivals.Effects.{note_arrival-Quiet, clean_arrived-Frame, store_capsule-Frame}

pub accept_capsule-Returns :
    (packet : Data) (id : ℕ) (content : List ℕ) (pit : PitEntry) (rsg_id : ℕ)
    (fs : ForwardingStateForRsg) (σ : State)
    → CanBypass σ.env.coll rsg_id fs
    → Returns (accept_capsule packet id content pit rsg_id fs σ)
unfolding accept_capsule
accept_capsule-Returns packet id content pit rsg_id fs σ h =
    let σ1 = note_arrival id pit rsg_id fs σ in
    let q =
      Quiet-trans (note_arrival-Quiet id pit rsg_id fs σ) (quiet (clean_arrived-Frame id fs σ1)) in
    then_returns _ _ (
      deliver_capsule-Returns pit packet content id rsg_id fs (clean_arrived id fs σ1)
        (rw q.coll h))

accept_retran_s-Returns :
    (packet : Data) (dru : RetranSUri) (content : List ℕ) (pit : PitEntry) (rsg_id : ℕ)
    (fs : ForwardingStateForRsg) (σ : State)
    → CanBypass σ.env.coll rsg_id fs
    → Returns (accept_retran_s packet dru content pit rsg_id fs σ)
unfolding accept_retran_s touch_waiting
accept_retran_s-Returns packet dru content pit rsg_id fs σ h =
    let σ0 = touch_waiting dru.data_id σ in
    let σ1 = (clean_wait_for_next_event dru.requested_data_id σ0).0 in
    let σ2 = (clean_retran_in_single_events dru.requested_data_id fs σ1).0 in
    let capsule = construct_capsule pit.name dru.data_id content packet.freshness_period in
    let f = Frame-trans (with_waiting-Frame _ σ) (
      Frame-trans (clean_wait_for_next_event-Frame dru.requested_data_id σ0) (
        Frame-trans (clean_retran_in_single_events-Frame dru.requested_data_id fs σ1)
          (store_capsule-Frame capsule dru.data_id pit σ2))) in
    then_returns _ _ (
      deliver_capsule-Returns pit capsule content dru.requested_data_id rsg_id fs
        (store_capsule capsule dru.data_id pit σ2) (rw f.coll h))

accept_retran_m-Returns :
    (packet : Data) (drbu : RetranMUri) (content : List ℕ) (pit : PitEntry) (rsg_id : ℕ)
    (fs : ForwardingStateForRsg) (σ : State)
    → CanBypass σ.env.coll rsg_id fs
    → Returns (accept_retran_m packet drbu content pit rsg_id fs σ)
unfolding accept_retran_m
accept_retran_m-Returns packet drbu content pit rsg_id fs σ h =
    let σ1 = clean_retran_m_events_of drbu.bri drbu.data_id σ in
    let capsule = construct_capsule pit.name drbu.data_id content packet.freshness_period in
    let f =
      Frame-trans (clean_retran_m_events_of-Frame drbu.bri drbu.data_id σ)
        (store_capsule-Frame capsule drbu.data_id pit σ1) in
    then_returns _ _ (
      deliver_capsule-Returns pit capsule content drbu.requested_data_id rsg_id fs
        (store_capsule capsule drbu.data_id pit σ1) (rw f.coll h))

-- The room of the queue is what the check of the ID needs.
abbrev pub HasRoom : ℕ → State → Type 0
HasRoom limit σ =
    Slack limit σ.ds.transmitted_data_ids
    × (limit + length σ.ds.transmitted_data_ids.q + 1 < 2 ^ 64)

checked-Returns :
    (limit id : ℕ) (σ : State) (accept : State → Option State)
    → HasRoom limit σ
    → ((τ : State) → τ.env.coll ≡ σ.env.coll → Returns (accept τ))
    → Returns (
        check_and_record_retransmitted_data_id id σ >>= λ r.
        if r.0 then accept (r.1) else some (r.1))
checked-Returns limit id σ accept (room, h) f =
    let (d, e, _, _, _) = check_and_record_total limit id σ room h in
    rw e (
      both_return (not (contains σ.ds.transmitted_data_ids id)) _ _
        (f (with_transmitted d σ) (unfold with_transmitted in refl)) (_, refl))

pub on_receive_capsule-Returns :
    (limit : ℕ) (packet : Data) (id : ℕ) (content : List ℕ) (pit : PitEntry) (rsg_id : ℕ)
    (fs : ForwardingStateForRsg) (σ : State)
    → HasRoom limit σ
    → CanBypass σ.env.coll rsg_id fs
    → Returns (on_receive_capsule packet id content pit rsg_id fs σ)
unfolding on_receive_capsule
on_receive_capsule-Returns limit packet id content pit rsg_id fs σ room h =
    both_return σ.env.config.disable_retran _ _
      (deliver_capsule-Returns pit packet content id rsg_id fs σ h)
      (checked-Returns limit id σ _ room
        (λ τ c. accept_capsule-Returns packet id content pit rsg_id fs τ (rw c h)))

of_type-Returns :
    (limit : ℕ) (type : RetransType) (packet : Data) (dru : RetranSUri) (content : List ℕ)
    (pit : PitEntry) (rsg_id : ℕ) (fs : ForwardingStateForRsg) (σ : State)
    → HasRoom limit σ
    → CanBypass σ.env.coll rsg_id fs
    → Returns (retran_s_of_type type packet dru content pit rsg_id fs σ)
unfolding retran_s_of_type
of_type-Returns limit RetransType.miss packet dru content pit rsg_id fs σ room h = (_, refl)
of_type-Returns limit type packet dru content pit rsg_id fs σ room h =
    checked-Returns limit dru.data_id σ _ room
      (λ τ c. accept_retran_s-Returns packet dru content pit rsg_id fs τ (rw c h))

pub on_receive_retran_s-Returns :
    (limit : ℕ) (packet : Data) (dru : RetranSUri) (content : List ℕ) (pit : PitEntry) (rsg_id : ℕ)
    (fs : ForwardingStateForRsg) (σ : State)
    → HasRoom limit σ
    → CanBypass σ.env.coll rsg_id fs
    → Returns (on_receive_retran_s packet dru content pit rsg_id fs σ)
unfolding on_receive_retran_s
on_receive_retran_s-Returns limit packet dru content pit rsg_id fs σ room h =
    of_type-Returns limit dru.type packet dru content pit rsg_id fs σ room h

pub on_receive_retran_m-Returns :
    (limit : ℕ) (packet : Data) (drbu : RetranMUri) (content : List ℕ) (pit : PitEntry) (rsg_id : ℕ)
    (fs : ForwardingStateForRsg) (σ : State)
    → HasRoom limit σ
    → CanBypass σ.env.coll rsg_id fs
    → Returns (on_receive_retran_m packet drbu content pit rsg_id fs σ)
unfolding on_receive_retran_m
on_receive_retran_m-Returns limit packet drbu content pit rsg_id fs σ room h =
    checked-Returns limit drbu.data_id σ _ room
      (λ τ c. accept_retran_m-Returns packet drbu content pit rsg_id fs τ (rw c h))
