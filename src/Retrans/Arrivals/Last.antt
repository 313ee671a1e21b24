-- ===== src/Retrans/Arrivals/Last.antt =====
-- `lastDataId` under `onReceiveCapsule` (lltc-strategy-service-sublayer-forwarding.cpp).
use drtp.Base.{
  ℕ, ◌+◌, ◌%◌, ◌^◌, ◌≡◌, refl, ap, ◌∙◌, inl, inr, some, List, ltb, ◌==◌, >>=-eq-some, Bool-cases,
  if◌then◌else◌, of_result,
}
use drtp.Base.Seqs.{elem}
use drtp.Messages.{Data}
use drtp.Fs.{ForwardingStateForRsg}
use drtp.State.{State, PitEntry}
use drtp.State.Ops.{with_last_data_id}
use drtp.State.Frame.{Frame, with_lost-Frame, if-Frame}
use drtp.Forwarding.{deliver_capsule}
use drtp.Forwarding.Delivery.{deliver_capsule-ds}
use drtp.Retrans.Multiple.Lost.Frames.{discover_lost_capsules-Frame}
use drtp.Retrans.Arrivals.{note_arrival, clean_arrived, accept_capsule}
use drtp.Retrans.Arrivals.Effects.{clean_arrived-Frame, await_next-Frame}

-- The later of two IDs.
abbrev pub later_of : ℕ → ℕ → ℕ
later_of a b = if ltb a b then b else a

noted-last :
    (id : ℕ) (σ : State)
    → (if ltb σ.ds.last_data_id id then with_last_data_id id σ else σ).ds.last_data_id
      ≡ later_of σ.ds.last_data_id id
unfolding with_last_data_id
noted-last id σ = elim (Bool-cases (ltb σ.ds.last_data_id id)) [
  | inl e ↦ simp e refl
  | inr e ↦ simp e refl
]

note_arrival-last :
    (id : ℕ) (pit : PitEntry) (rsg_id : ℕ) (fs : ForwardingStateForRsg) (σ : State)
    → (note_arrival id pit rsg_id fs σ).ds.last_data_id ≡ (
        if elem id σ.ds.lost_data_ids_from_prev_routers
        then σ.ds.last_data_id
        else later_of σ.ds.last_data_id id)
unfolding note_arrival
note_arrival-last id pit rsg_id fs σ =
    elim (Bool-cases (elem id σ.ds.lost_data_ids_from_prev_routers)) [
      | inl e ↦ simp e (with_lost-Frame _ σ).last
      | inr e ↦
          let f =
            if-Frame (ltb ((σ.ds.last_data_id + 1) % 2 ^ 32) id) σ _
              (discover_lost_capsules-Frame id pit fs rsg_id σ) in
          simp e (noted-last id _ ∙ ap (λ l. later_of l id) f.last)
    ]

-- A new Capsule moves the last ID on to its own, unless an upstream node reported it lost, and never
-- back.
pub accept_capsule-last :
    (packet : Data) (id : ℕ) (content : List ℕ) (pit : PitEntry) (rsg_id : ℕ)
    (fs : ForwardingStateForRsg) (σ : State) {σ' : State}
    → accept_capsule packet id content pit rsg_id fs σ ≡ some σ'
    → σ'.ds.last_data_id ≡ (
        if elem id σ.ds.lost_data_ids_from_prev_routers
        then σ.ds.last_data_id
        else later_of σ.ds.last_data_id id)
unfolding accept_capsule
accept_capsule-last packet id content pit rsg_id fs σ e =
    let σ1 = note_arrival id pit rsg_id fs σ in
    let σ2 = clean_arrived id fs σ1 in
    let (σ3, delivers, rest) =
      >>=-eq-some (deliver_capsule pit packet content id rsg_id fs σ2) _ e in
    let awaited =
      of_result (Frame σ3) refl rest
        (if-Frame (id == σ3.ds.last_data_id) σ3 _ (await_next-Frame pit rsg_id fs 0 σ3)) in
    awaited.last
    ∙ (ap (λ ds. ds.last_data_id) (deliver_capsule-ds pit packet content id rsg_id fs σ2 delivers)
        ∙ ((clean_arrived-Frame id fs σ1).last ∙ note_arrival-last id pit rsg_id fs σ))
