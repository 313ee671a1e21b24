-- ===== src/Forwarding/Delivery.antt =====
-- What `deliverCapsule` and `deliverNonPitMessage`
-- (lltc-strategy-service-sublayer-forwarding.cpp) send.
use drtp.Base.{
  ℕ, ◌≡◌, refl, Bool, true, false, Option, none, some, List, [], ◌∷◌, arith, of_result, no_result,
  if◌then◌else◌,
}
use drtp.Messages.{Data, capsule}
use drtp.Fs.{LltcFibEntry, ForwardingStateForRsg, lookup_forwarding_entry}
use drtp.State.{State, PitEntry}
use drtp.State.Ops.{call, send_lltc_data, send_lltc_non_pit_data}
use drtp.State.Frame.{
  Frame, Delivers, Frame-refl, quiet, Quiet-Delivers, delivered, send_lltc_non_pit_data-Frame,
}
use drtp.Forwarding.{
  down_path, deliver_on_rsp, deliver_to_app, deliver_on_path, deliver_capsule, to_app,
  deliver_control, control_path, deliver_non_pit_message, send_on,
  forward_in_non_pit_region_if_necessary,
}

send_lltc_data-Delivers :
    (packet : Data) (x : ℕ) (content : List ℕ) (face rsg_id path_id : ℕ) (σ : State)
    → packet.body ≡ capsule x content
    → Delivers x σ (send_lltc_data packet face rsg_id path_id σ)
unfolding send_lltc_data delivered
send_lltc_data-Delivers packet x content face rsg_id path_id σ e = record {
  transmitted = refl;
  coll = refl;
  config = refl;
  serving = refl;
  deliveries = λ id. ground (arith, e);
}

deliver_to_app-Delivers :
    (packet : Data) (x : ℕ) (content : List ℕ) (faces : List ℕ) (rsg_id : ℕ)
    (fs : ForwardingStateForRsg) (σ : State)
    → packet.body ≡ capsule x content
    → Delivers x σ (deliver_to_app packet faces rsg_id fs σ)
unfolding deliver_to_app
deliver_to_app-Delivers packet x content [] rsg_id fs σ e = Quiet-Delivers x (quiet (Frame-refl σ))
deliver_to_app-Delivers packet x content (face ∷ faces) rsg_id fs σ e =
    send_lltc_data-Delivers packet x content face rsg_id fs.primary_path_id σ e

deliver_on_path-Delivers :
    (pit : PitEntry) (packet : Data) (x : ℕ) (content : List ℕ) (rsg_id : ℕ)
    (fs : ForwardingStateForRsg) (σ : State) (fe : Option LltcFibEntry)
    → packet.body ≡ capsule x content
    → Delivers x σ (deliver_on_path pit packet rsg_id fs σ fe)
unfolding deliver_on_path
deliver_on_path-Delivers pit packet x content rsg_id fs σ none e =
    deliver_to_app-Delivers packet x content pit.in_faces rsg_id fs σ e
deliver_on_path-Delivers pit packet x content rsg_id fs σ (some fe) e =
    send_lltc_data-Delivers packet x content fe.face_next_hop rsg_id (down_path fs) σ e

deliver_on_rsp-Frame :
    (bypass : Data) (rsg_id : ℕ) (fs : ForwardingStateForRsg) (σ : State) (fe : Option LltcFibEntry)
    {σ' : State}
    → deliver_on_rsp bypass rsg_id fs σ fe ≡ some σ'
    → Frame σ σ'
unfolding deliver_on_rsp
deliver_on_rsp-Frame bypass rsg_id fs σ none e = no_result refl e
deliver_on_rsp-Frame bypass rsg_id fs σ (some fe) e =
    of_result (Frame σ) refl e (send_lltc_non_pit_data-Frame _ _ _ _ σ)

either_way :
    (b : Bool) (x : ℕ) (σ τ : State) (m : Option State) {σ' : State}
    → ((υ : State) → m ≡ some υ → Frame σ υ)
    → Delivers x σ τ
    → (if b then m else some τ) ≡ some σ'
    → Delivers x σ σ'
either_way true x σ τ m {σ'} on_rsp on_path e = Quiet-Delivers x (quiet (on_rsp σ' e))
either_way false x σ τ m on_rsp on_path e = of_result (Delivers x σ) refl e on_path

-- `deliverCapsule` hands the capsule to `sendData` once at most, and nothing else.
pub deliver_capsule-Delivers :
    (pit : PitEntry) (packet : Data) (x : ℕ) (content : List ℕ) (data_id rsg_id : ℕ)
    (fs : ForwardingStateForRsg) (σ : State) {σ' : State}
    → packet.body ≡ capsule x content
    → deliver_capsule pit packet content data_id rsg_id fs σ ≡ some σ'
    → Delivers x σ σ'
unfolding deliver_capsule
deliver_capsule-Delivers pit packet x content data_id rsg_id fs σ b e =
    either_way fs.is_down_path_in_rsp_state x σ _ _
      (λ υ on_rsp. deliver_on_rsp-Frame _ rsg_id fs σ _ on_rsp)
      (deliver_on_path-Delivers pit packet x content rsg_id fs σ _ b) e

to_app-Frame :
    (packet : Data) (rsg_id path_id : ℕ) (σ : State) (face : Option ℕ)
    → Frame σ (to_app packet rsg_id path_id σ face)
unfolding to_app
to_app-Frame packet rsg_id path_id σ none = Frame-refl σ
to_app-Frame packet rsg_id path_id σ (some face) =
    send_lltc_non_pit_data-Frame packet face rsg_id path_id σ

deliver_control-Frame :
    (packet : Data) (path_id rsg_id : ℕ) (fs : ForwardingStateForRsg) (σ : State)
    (fe : Option LltcFibEntry)
    → Frame σ (deliver_control packet path_id rsg_id fs σ fe)
unfolding deliver_control
deliver_control-Frame packet path_id rsg_id fs σ none =
    to_app-Frame packet rsg_id fs.primary_path_id σ σ.env.coll.app_face
deliver_control-Frame packet path_id rsg_id fs σ (some fe) =
    send_lltc_non_pit_data-Frame packet fe.face_next_hop rsg_id path_id σ

pub deliver_non_pit_message-Frame :
    (packet : Data) (direction rsg_id : ℕ) (fs : ForwardingStateForRsg) (σ : State)
    → Frame σ (deliver_non_pit_message packet direction rsg_id fs σ)
unfolding deliver_non_pit_message
deliver_non_pit_message-Frame packet direction rsg_id fs σ =
    deliver_control-Frame packet (control_path fs direction) rsg_id fs σ
      (lookup_forwarding_entry σ.env.coll rsg_id (control_path fs direction) direction)

send_on-Frame :
    (packet : Data) (rsg_id path_id : ℕ) (σ : State) (fe : Option LltcFibEntry)
    → Frame σ ((send_on packet rsg_id path_id σ fe).0)
unfolding send_on
send_on-Frame packet rsg_id path_id σ none = Frame-refl σ
send_on-Frame packet rsg_id path_id σ (some fe) =
    send_lltc_non_pit_data-Frame packet fe.face_next_hop rsg_id path_id σ

pub forward_in_non_pit_region-Frame :
    (packet : Data) (rsg_id path_id direction : ℕ) (σ : State)
    → Frame σ ((forward_in_non_pit_region_if_necessary packet rsg_id path_id direction σ).0)
unfolding forward_in_non_pit_region_if_necessary
forward_in_non_pit_region-Frame packet rsg_id path_id direction σ =
    send_on-Frame packet rsg_id path_id σ
      (lookup_forwarding_entry σ.env.coll rsg_id path_id direction)

send_on-ds :
    (packet : Data) (rsg_id path_id : ℕ) (σ : State) (fe : Option LltcFibEntry)
    → ((send_on packet rsg_id path_id σ fe).0).ds ≡ σ.ds
unfolding send_on send_lltc_non_pit_data call
send_on-ds packet rsg_id path_id σ none = refl
send_on-ds packet rsg_id path_id σ (some fe) = refl

pub forward_in_non_pit_region-ds :
    (packet : Data) (rsg_id path_id direction : ℕ) (σ : State)
    → ((forward_in_non_pit_region_if_necessary packet rsg_id path_id direction σ).0).ds ≡ σ.ds
unfolding forward_in_non_pit_region_if_necessary
forward_in_non_pit_region-ds packet rsg_id path_id direction σ =
    send_on-ds packet rsg_id path_id σ (lookup_forwarding_entry σ.env.coll rsg_id path_id direction)

deliver_on_path-ds :
    (pit : PitEntry) (packet : Data) (faces : List ℕ) (rsg_id : ℕ) (fs : ForwardingStateForRsg)
    (σ : State) (fe : Option LltcFibEntry)
    → faces ≡ pit.in_faces
    → (deliver_on_path pit packet rsg_id fs σ fe).ds ≡ σ.ds
unfolding deliver_on_path deliver_to_app send_lltc_data call
deliver_on_path-ds pit packet faces rsg_id fs σ (some fe) h = refl
deliver_on_path-ds pit packet [] rsg_id fs σ none h = simp (← h) refl
deliver_on_path-ds pit packet (face ∷ faces) rsg_id fs σ none h = simp (← h) refl

deliver_on_rsp-ds :
    (bypass : Data) (rsg_id : ℕ) (fs : ForwardingStateForRsg) (σ : State) (fe : Option LltcFibEntry)
    {σ' : State}
    → deliver_on_rsp bypass rsg_id fs σ fe ≡ some σ'
    → σ'.ds ≡ σ.ds
unfolding deliver_on_rsp send_lltc_non_pit_data call
deliver_on_rsp-ds bypass rsg_id fs σ none e = no_result refl e
deliver_on_rsp-ds bypass rsg_id fs σ (some fe) e = of_result (λ τ. τ.ds ≡ σ.ds) refl e refl

same_ds :
    (b : Bool) (σ τ : State) (m : Option State) {σ' : State}
    → ((υ : State) → m ≡ some υ → υ.ds ≡ σ.ds)
    → τ.ds ≡ σ.ds
    → (if b then m else some τ) ≡ some σ'
    → σ'.ds ≡ σ.ds
same_ds true σ τ m {σ'} f g e = f σ' e
same_ds false σ τ m f g e = of_result (λ υ. υ.ds ≡ σ.ds) refl e g

-- The capsule states are left alone.
pub deliver_capsule-ds :
    (pit : PitEntry) (packet : Data) (content : List ℕ) (data_id rsg_id : ℕ)
    (fs : ForwardingStateForRsg) (σ : State) {σ' : State}
    → deliver_capsule pit packet content data_id rsg_id fs σ ≡ some σ'
    → σ'.ds ≡ σ.ds
unfolding deliver_capsule
deliver_capsule-ds pit packet content data_id rsg_id fs σ e =
    same_ds fs.is_down_path_in_rsp_state σ _ _ (λ υ. deliver_on_rsp-ds _ rsg_id fs σ _)
      (deliver_on_path-ds pit packet pit.in_faces rsg_id fs σ _ refl) e
