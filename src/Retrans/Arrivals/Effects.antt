-- ===== src/Retrans/Arrivals/Effects.antt =====
-- What the handlers of new capsules do to the deliveries: `onReceiveCapsule`
-- (lltc-strategy-service-sublayer-forwarding.cpp), `onReceiveRetranS` and `onReceiveRetranM`
-- (lltc-strategy-service-sublayer-retrans-control.cpp).
use drtp.Base.{
  ℕ, String, not, ◌+◌, ◌%◌, ◌^◌, ◌≡◌, refl, inl, inr, some, List, ◌==◌, ◌||◌, ltb, Bool-cases,
  Option-cases, >>=-eq-some, of_result, if◌then◌else◌,
}
use drtp.Base.Seqs.{elem}
use drtp.Messages.{Data, RetranSUri, RetranMUri, capsule, construct_capsule}
use drtp.Fs.{ForwardingStateForRsg}
use drtp.Base.Maps.{has_key}
use drtp.DataIdQueue.{contains}
use drtp.State.{State, PitEntry, Cs}
use drtp.State.Ops.{with_last_data_id}
use drtp.State.Frame.{
  Frame, Quiet, Delivers, Frame-refl, Frame-trans, Quiet-trans, quiet, Delivers-between,
  with_last_data_id-Quiet, with_lost-Frame, with_waiting-Frame, with_cs-Frame, schedule_task-Frame,
  serves,
}
use drtp.Cs.{find_capsule, find_in, insert}
use drtp.Forwarding.{deliver_capsule}
use drtp.Forwarding.Delivery.{deliver_capsule-Delivers}
use drtp.Retrans.Events.{
  clean_wait_for_next_event, clean_retran_in_single_events, clean_retran_m_events_of,
}
use drtp.Retrans.Events.Cleaning.Frames.{
  clean_wait_for_next_event-Frame, clean_retran_in_single_events-Frame,
  clean_wait_for_request_m_events-Frame, clean_retran_m_events_of-Frame,
}
use drtp.Retrans.Timers.Waiting.{wait_for_next_capsule-Frame}
use drtp.Retrans.Multiple.{discover_lost_capsules}
use drtp.Retrans.Multiple.Lost.Frames.{discover_lost_capsules-Frame}
use drtp.Retrans.Arrivals.{
  await_next, note_arrival, clean_arrived, accept_capsule, store_capsule, advance, touch_waiting,
  miss_answer, accept_retran_s, accept_retran_m,
}

pub await_next-Frame :
    (pit : PitEntry) (rsg_id : ℕ) (fs : ForwardingStateForRsg) (penalty : ℕ) (σ : State)
    → Frame σ (await_next pit rsg_id fs penalty σ)
unfolding await_next
await_next-Frame pit rsg_id fs penalty σ = wait_for_next_capsule-Frame _ pit _ rsg_id fs penalty σ

later_last-Quiet :
    (id : ℕ) (σ : State) → Quiet σ (if ltb σ.ds.last_data_id id then with_last_data_id id σ else σ)
later_last-Quiet id σ = elim (Bool-cases (ltb σ.ds.last_data_id id)) [
  | inl e ↦ rw e (with_last_data_id-Quiet id σ)
  | inr e ↦ rw e (quiet (Frame-refl σ))
]

pub note_arrival-Quiet :
    (id : ℕ) (pit : PitEntry) (rsg_id : ℕ) (fs : ForwardingStateForRsg) (σ : State)
    → Quiet σ (note_arrival id pit rsg_id fs σ)
unfolding note_arrival
note_arrival-Quiet id pit rsg_id fs σ =
    elim (Bool-cases (elem id σ.ds.lost_data_ids_from_prev_routers)) [
      | inl e ↦ rw e (quiet (with_lost-Frame _ σ))
      | inr e ↦ rw e (Quiet-trans (quiet discovered) (later_last-Quiet id _))
    ]
  where
    discovered : Frame σ (
        if ltb ((σ.ds.last_data_id + 1) % 2 ^ 32) id
        then discover_lost_capsules id pit fs rsg_id σ
        else σ)
    discovered = elim (Bool-cases (ltb ((σ.ds.last_data_id + 1) % 2 ^ 32) id)) [
      | inl e ↦ rw e (discover_lost_capsules-Frame id pit fs rsg_id σ)
      | inr e ↦ rw e (Frame-refl σ)
    ]

pub clean_arrived-Frame :
    (id : ℕ) (fs : ForwardingStateForRsg) (σ : State) → Frame σ (clean_arrived id fs σ)
unfolding clean_arrived
clean_arrived-Frame id fs σ = Frame-trans (clean_wait_for_next_event-Frame id σ) (
    Frame-trans (clean_retran_in_single_events-Frame id fs _)
      (clean_wait_for_request_m_events-Frame id _))

pub accept_capsule-Delivers :
    (packet : Data) (id : ℕ) (content : List ℕ) (pit : PitEntry) (rsg_id : ℕ)
    (fs : ForwardingStateForRsg) (σ : State) {σ' : State}
    → packet.body ≡ capsule id content
    → accept_capsule packet id content pit rsg_id fs σ ≡ some σ'
    → Delivers id σ σ'
unfolding accept_capsule
accept_capsule-Delivers packet id content pit rsg_id fs σ b e =
    let σ1 = note_arrival id pit rsg_id fs σ in
    let σ2 = clean_arrived id fs σ1 in
    let (σ3, delivers, rest) =
      >>=-eq-some (deliver_capsule pit packet content id rsg_id fs σ2) _ e in
    Delivers-between id
      (Quiet-trans (note_arrival-Quiet id pit rsg_id fs σ) (quiet (clean_arrived-Frame id fs σ1)))
      (deliver_capsule-Delivers pit packet id content id rsg_id fs σ2 b delivers)
      (of_result (Quiet σ3) refl rest (quiet (awaited σ3)))
  where
    awaited :
        (τ : State) → Frame τ (if id == τ.ds.last_data_id then await_next pit rsg_id fs 0 τ else τ)
    awaited τ = elim (Bool-cases (id == τ.ds.last_data_id)) [
      | inl e ↦ rw e (await_next-Frame pit rsg_id fs 0 τ)
      | inr e ↦ rw e (Frame-refl τ)
    ]

insert-serves :
    (cs : Cs) (prefix : String) (id : ℕ) (d : Data) → serves (insert cs prefix id d) ≡ serves cs
unfolding insert serves
insert-serves cs prefix id d = elim (Bool-cases (not cs.should_admit || cs.limit == 0)) [
  | inl e ↦ rw e refl
  | inr e ↦ elim (Option-cases (find_in prefix id cs.table)) [
    | inl f ↦ rw (e, f) refl
    | inr (old, f) ↦ rw (e, f) refl
  ]
]

pub store_capsule-Frame :
    (packet : Data) (id : ℕ) (pit : PitEntry) (σ : State) → Frame σ (store_capsule packet id pit σ)
unfolding store_capsule
store_capsule-Frame packet id pit σ =
    elim (Option-cases (find_capsule σ.env.local_cs pit.name id)) [
      | inl e ↦
          rw (e, store_capsule)
            (with_cs-Frame _ σ (insert-serves σ.env.local_cs pit.name id packet))
      | inr (old, e) ↦ rw (e, store_capsule) (Frame-refl σ)
    ]

pub advance-Quiet :
    (id : ℕ) (pit : PitEntry) (rsg_id : ℕ) (fs : ForwardingStateForRsg) (penalty : ℕ) (σ : State)
    → Quiet σ (advance id pit rsg_id fs penalty σ)
unfolding advance
advance-Quiet id pit rsg_id fs penalty σ = elim (Bool-cases (ltb σ.ds.last_data_id id)) [
  | inl e ↦ rw e (
      Quiet-trans (with_last_data_id-Quiet id σ) (quiet (await_next-Frame pit rsg_id fs penalty _)))
  | inr e ↦ rw e (quiet (Frame-refl σ))
]

pub accept_retran_s-Delivers :
    (packet : Data) (dru : RetranSUri) (content : List ℕ) (pit : PitEntry) (rsg_id : ℕ)
    (fs : ForwardingStateForRsg) (σ : State) {σ' : State}
    → accept_retran_s packet dru content pit rsg_id fs σ ≡ some σ'
    → Delivers dru.data_id σ σ'
unfolding accept_retran_s touch_waiting construct_capsule
accept_retran_s-Delivers packet dru content pit rsg_id fs σ e =
    let σ0 = touch_waiting dru.data_id σ in
    let σ1 = (clean_wait_for_next_event dru.requested_data_id σ0).0 in
    let σ2 = (clean_retran_in_single_events dru.requested_data_id fs σ1).0 in
    let capsule = construct_capsule pit.name dru.data_id content packet.freshness_period in
    let σ3 = store_capsule capsule dru.data_id pit σ2 in
    let (σ4, delivers, rest) =
      >>=-eq-some (deliver_capsule pit capsule content dru.requested_data_id rsg_id fs σ3) _ e in
    Delivers-between dru.data_id
      (quiet (
        Frame-trans (with_waiting-Frame _ σ) (
          Frame-trans (clean_wait_for_next_event-Frame dru.requested_data_id σ0) (
            Frame-trans (clean_retran_in_single_events-Frame dru.requested_data_id fs σ1)
              (store_capsule-Frame capsule dru.data_id pit σ2)))))
      (deliver_capsule-Delivers pit capsule dru.data_id content dru.requested_data_id rsg_id fs σ3
        refl delivers)
      (of_result (Quiet σ4) refl rest (advance-Quiet dru.data_id pit rsg_id fs _ σ4))

pub accept_retran_m-Delivers :
    (packet : Data) (drbu : RetranMUri) (content : List ℕ) (pit : PitEntry) (rsg_id : ℕ)
    (fs : ForwardingStateForRsg) (σ : State) {σ' : State}
    → accept_retran_m packet drbu content pit rsg_id fs σ ≡ some σ'
    → Delivers drbu.data_id σ σ'
unfolding accept_retran_m construct_capsule
accept_retran_m-Delivers packet drbu content pit rsg_id fs σ e =
    let σ1 = clean_retran_m_events_of drbu.bri drbu.data_id σ in
    let capsule = construct_capsule pit.name drbu.data_id content packet.freshness_period in
    let σ2 = store_capsule capsule drbu.data_id pit σ1 in
    let (σ3, delivers, rest) =
      >>=-eq-some (deliver_capsule pit capsule content drbu.requested_data_id rsg_id fs σ2) _ e in
    Delivers-between drbu.data_id
      (quiet (
        Frame-trans (clean_retran_m_events_of-Frame drbu.bri drbu.data_id σ)
          (store_capsule-Frame capsule drbu.data_id pit σ1)))
      (deliver_capsule-Delivers pit capsule drbu.data_id content drbu.requested_data_id rsg_id fs σ2
        refl delivers)
      (of_result (Quiet σ3) refl rest (advance-Quiet drbu.data_id pit rsg_id fs 0 σ3))

pub miss_answer-Frame :
    (dru : RetranSUri) (pit : PitEntry) (rsg_id : ℕ) (fs : ForwardingStateForRsg) (σ : State)
    → Frame σ (miss_answer dru pit rsg_id fs σ)
unfolding miss_answer
miss_answer-Frame dru pit rsg_id fs σ =
    let σ' = (clean_retran_in_single_events dru.requested_data_id fs σ).0 in
    let cleaned = clean_retran_in_single_events-Frame dru.requested_data_id fs σ in
    elim (Bool-cases (
      has_key dru.data_id σ'.ds.wait_for_next_data_events
      || contains σ'.ds.transmitted_data_ids dru.data_id)) [
        | inl e ↦ rw e cleaned
        | inr e ↦ rw e (
            Frame-trans cleaned (Frame-trans (schedule_task-Frame _ _ σ') (with_waiting-Frame _ _)))
      ]
