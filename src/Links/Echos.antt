-- ===== src/Links/Echos.antt =====
-- The echos of a link test and their answers (lltc-strategy-forwarding-sublayer-path-control.cpp):
-- `onReceiveEcho`, `onReceiveBack`, `broadcastEchos` and `updateFaceStatsWithLinkTestStates`.
use drtp.Base.{
  ℕ, ◌+◌, ◌-◌, Bool, true, false, ◌&&◌, ◌||◌, Option, none, some, List, [], ◌∷◌, ◌++◌, ◌==◌,
  if◌then◌else◌, ◌>>=◌,
}
use drtp.Base.Maps.{find, assign, erase}
use drtp.Messages.{EchoUri, BackUri, construct_echo, construct_back}
use drtp.Links.{
  LltcFaceEntry, EchoMessageState, FaceStatusInternal, LinkMeasurementState, send_lltc, LinkNode,
  call, with_measurement,
}

-- `onReceiveEcho`.
unfoldable pub on_receive_echo : EchoUri → ℕ → LinkNode → LinkNode
unfolding call
on_receive_echo eru ingress σ =
    call
      (send_lltc (construct_back σ.lltc_prefix eru.echo_id σ.local_node_id eru.source_node_id)
        ingress)
      σ

-- `onReceiveBack`.
unfoldable pub on_receive_back : BackUri → LinkNode → LinkNode
unfolding with_measurement
on_receive_back ebu σ = elim (find ebu.echo_id σ.measurement.echo_msg_state_map) [
  | none ↦ σ
  | some ems ↦
      with_measurement
        (record (σ.measurement) {
          echo_msg_state_map =
              assign ebu.echo_id (record ems { rtt = σ.now - ems.requested_time; status = 0 })
                σ.measurement.echo_msg_state_map;
        })
        σ
]

unfoldable pub ids_or_none : Option (List ℕ) → List ℕ
ids_or_none none = []
ids_or_none (some ids) = ids

-- `EchoIDsInLinkTest[linkTestID]`.
unfoldable pub echo_ids_of : ℕ → LinkMeasurementState → List ℕ
unfolding ids_or_none
echo_ids_of test lm = ids_or_none (find test lm.echo_ids_in_link_test)

-- One echo: it is sent and registered.
unfoldable pub send_echo : ℕ → LltcFaceEntry → LinkNode → LinkNode
unfolding call
send_echo test fe σ =
    let id = σ.random σ.draws in
    let lm = σ.measurement in
    let state : EchoMessageState = record {
      requested_time = σ.now;
      rtt = 0;
      fe = fe.face_next_hop;
      status = 1;
    } in
    let lm' : LinkMeasurementState = record lm {
      echo_msg_state_map = assign id state lm.echo_msg_state_map;
      echo_ids_in_link_test = assign test (echo_ids_of test lm ++ id ∷ []) lm.echo_ids_in_link_test;
    } in
    call (send_lltc (construct_echo σ.lltc_prefix id σ.local_node_id) fe.face_next_hop)
      (record σ { measurement = lm'; draws = σ.draws + 1 })

unfoldable pub has_remote : Option ℕ → Bool
has_remote none = false
has_remote (some node) = true

-- Whether `broadcastEchos` sends an echo to a face.
unfoldable pub is_tested : Bool → ℕ → LltcFaceEntry → Bool
unfolding has_remote
is_tested is_full face fe =
    has_remote fe.remote_lltc_node_id && (is_full || fe.face_next_hop == face)

-- `broadcastEchos`, over the face entries.
unfoldable pub broadcast_echos : ℕ → Bool → ℕ → List LltcFaceEntry → LinkNode → LinkNode
broadcast_echos test is_full face [] σ = σ
broadcast_echos test is_full face (fe ∷ fes) σ =
    broadcast_echos test is_full face fes
      (if is_tested is_full face fe then send_echo test fe σ else σ)

-- One round of the first loop of `updateFaceStatsWithLinkTestStates`.
unfoldable pub note_echo :
    EchoMessageState → List (ℕ × FaceStatusInternal) → List (ℕ × FaceStatusInternal)
note_echo ems m = elim (find ems.fe m) [
  | none ↦
      assign ems.fe
        (if ems.status == 0
          then record { face_status = 0; n_backs = 1 }
          else record { face_status = 1; n_backs = 0 })
        m
  | some fsi ↦
      if ems.status == 0
      then assign ems.fe (record { face_status = 0; n_backs = fsi.n_backs + 1 }) m
      else m
]

-- That loop; `none` is an echo that is not registered, whose entry would be read uninitialised.
unfoldable pub note_echos :
    List ℕ
    → List (ℕ × EchoMessageState)
    → List (ℕ × FaceStatusInternal)
    → Option (List (ℕ × EchoMessageState) × List (ℕ × FaceStatusInternal))
note_echos [] em m = some (em, m)
note_echos (id ∷ ids) em m = find id em >>= λ ems. note_echos ids (erase id em) (note_echo ems m)

unfoldable pub set_status : ℕ → LltcFaceEntry → Option FaceStatusInternal → LltcFaceEntry
set_status now fe none = fe
set_status now fe (some fsi) = record fe { status = fsi.face_status; last_check_time = now }

-- The second loop.
unfoldable pub update_faces :
    ℕ → List (ℕ × FaceStatusInternal) → List LltcFaceEntry → List LltcFaceEntry
unfolding set_status has_remote
update_faces now m [] = []
update_faces now m (fe ∷ fes) =
    let rest = update_faces now m fes in
    if has_remote fe.remote_lltc_node_id
    then set_status now fe (find fe.face_next_hop m) ∷ rest
    else fe ∷ rest

-- `updateFaceStatsWithLinkTestStates`.
unfoldable pub update_face_stats_with_link_test_states : ℕ → LinkNode → Option LinkNode
update_face_stats_with_link_test_states test σ =
    note_echos (echo_ids_of test σ.measurement) σ.measurement.echo_msg_state_map [] >>= λ r.
    some (record σ {
      face_entries = update_faces σ.now (r.1) σ.face_entries;
      measurement = record (σ.measurement) {
        echo_msg_state_map = r.0;
        echo_ids_in_link_test = erase test σ.measurement.echo_ids_in_link_test;
      };
    })
