-- ===== src/Links/Advertisements.antt =====
-- The link state advertisements (lltc-strategy-forwarding-sublayer-path-control.cpp):
-- `onReceiveLsa` and `broadcastingLsaTask`.
use drtp.Base.{
  ℕ, ◌+◌, ◌%◌, ◌^◌, Bool, true, false, ◌||◌, Option, none, some, List, [], ◌∷◌, ◌==◌, if◌then◌else◌,
}
use drtp.Base.Seqs.{elem, insert}
use drtp.Messages.{Data, LsaUri, LinkState, construct_lsa}
use drtp.Links.{LltcFaceEntry, send, update_preferred_path, LinkNode, call, with_measurement}

-- `sendNonPitData` to every face.
unfoldable pub send_to_all : Data → List LltcFaceEntry → LinkNode → LinkNode
unfolding call
send_to_all packet [] σ = σ
send_to_all packet (fa ∷ fas) σ = send_to_all packet fas (call (send packet fa.face_next_hop) σ)

-- `onReceiveLsa`, of a packet with these link states.
unfoldable pub on_receive_lsa : Data → LsaUri → List LinkState → LinkNode → LinkNode
unfolding with_measurement call
on_receive_lsa packet flu ls_list σ =
    if elem flu.lsa_id σ.measurement.recent_lsa_ids
    then σ
    else call (update_preferred_path flu.source_node_id ls_list flu.is_active) (
        send_to_all packet σ.face_entries (
          with_measurement
            (record (σ.measurement) {
              recent_lsa_ids = insert flu.lsa_id σ.measurement.recent_lsa_ids;
            })
            σ))

-- The inner loop of `broadcastingLsaTask`: the first state of the neighbour in the last LSA differs,
-- or there is none.
unfoldable pub differs_from : List LinkState → ℕ → ℕ → Bool
differs_from [] node status = true
differs_from (ls ∷ prev) node status =
    if ls.neighbored_node_id == node
    then (if ls.status == status then false else true)
    else differs_from prev node status

unfoldable pub is_changed : Option (List LinkState) → ℕ → ℕ → Bool
is_changed none node status = status == 1
is_changed (some prev) node status = differs_from prev node status

-- The outer loop: the link states, and whether one has changed.
unfoldable pub lsa_loop :
    Option (List LinkState) → List LltcFaceEntry → Bool → List LinkState × Bool
lsa_loop prev [] diff = ([], diff)
lsa_loop prev (fa ∷ fas) diff = elim fa.remote_lltc_node_id [
  | none ↦ lsa_loop prev fas diff
  | some node ↦
      let (rest, later) = lsa_loop prev fas (diff || is_changed prev node fa.status) in
      (record { neighbored_node_id = node; status = fa.status } ∷ rest, later)
]

unfoldable pub send_lsa : Bool → List LinkState → LinkNode → LinkNode
send_lsa is_active ls_list σ =
    let lm = σ.measurement in
    let packet =
      construct_lsa σ.lltc_prefix (σ.random σ.draws) σ.local_node_id lm.lsa_update_seq_no ls_list
        is_active in
    send_to_all packet σ.face_entries
      (record (call (update_preferred_path σ.local_node_id ls_list is_active) σ) {
        draws = σ.draws + 1;
        measurement = record lm {
          prev_lsa = some ls_list;
          lsa_update_seq_no = (lm.lsa_update_seq_no + 1) % 2 ^ 32;
        };
      })

-- `broadcastingLsaTask`.
unfoldable pub broadcasting_lsa_task : Bool → LinkNode → LinkNode
unfolding send_lsa
broadcasting_lsa_task is_active σ =
    let (ls_list, diff) = lsa_loop σ.measurement.prev_lsa σ.face_entries false in
    if diff then send_lsa is_active ls_list σ else σ
