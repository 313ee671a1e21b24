-- ===== src/Tests/Network.antt =====
-- Links, subgraphs and packed numbers on small examples.
use drtp.Base.{ℕ, ◌^◌, ◌≤◌, ◌<◌, ◌≡◌, refl, ◌⊎◌, true, none, some, [], ◌∷◌, map, arith}
use drtp.Base.Seqs.{elem, Distinct}
use drtp.Base.Maps.{find, assign, erase}
use drtp.Messages.{Data, LsaUri, new_data, lsa}
use drtp.Subgraph.{
  RsgPathCompact, RsgStruct, rsg_get_link_id, rsg_update_link_status, status_of, rsps_of,
  update_nodes, update_rsps, update_rsp, rsg_search_vir_link, search_from, rsp_status,
  rsp_status_from,
}
use drtp.Subgraph.LinkId.{rsg_get_link_id_names, compute_data_retrans_id_names}
use drtp.Links.{update_preferred_path, LltcFaceEntry, LinkMeasurementState, LinkNode}
use drtp.Links.Echos.{
  broadcast_echos, echo_ids_of, note_echos, update_face_stats_with_link_test_states,
}
use drtp.Links.Advertisements.{on_receive_lsa}
use drtp.Links.Sending.{Sent, echos_of, broadcast_echos-Sent}
use drtp.Links.Outcome.{judged, link_test_result}
use drtp.Links.Flooding.{one_to_each, on_receive_lsa_floods_once}

abbrev capsule_id : ℕ
capsule_id = 5

abbrev path : ℕ
path = 7

compute_data_retrans_id_names_example : (capsule_id ≡ capsule_id) × (path ≡ path)
compute_data_retrans_id_names_example =
    compute_data_retrans_id_names capsule_id path capsule_id path (omega arith) (omega arith)
      (omega arith) (omega arith) refl

abbrev four : ℕ
four = 4

abbrev nine : ℕ
nine = 9

rsg_get_link_id_names_example :
    (rsg_get_link_id four nine ≡ rsg_get_link_id nine four)
    × (2 ^ 63 ≤ rsg_get_link_id four nine)
    × (rsg_get_link_id four nine < 18446744073709551615)
    × (rsg_get_link_id four nine ≡ rsg_get_link_id nine four
        → ((four ≡ nine) × (nine ≡ four)) ⊎ ((four ≡ four) × (nine ≡ nine)))
rsg_get_link_id_names_example =
    rsg_get_link_id_names four nine nine four (omega arith) (omega arith) (omega arith)
      (omega arith)

-- The primary path 1, 2, 3 with the sub-path 1, 4, 2 to node 2.
abbrev rsp : RsgPathCompact
rsp = record { node_ids = 1 ∷ 4 ∷ 2 ∷ []; path_id = 11 }

abbrev rsg : RsgStruct
rsg = record {
  link_status_map = [];
  rsg_compacted_rr = record {
    prim_path = record { node_ids = 1 ∷ 2 ∷ 3 ∷ []; path_id = 10 };
    hrsp = (2, rsp ∷ []) ∷ [];
  };
}

-- The sub-path fails with its link.
sub_path_failed : status_of 11 (rsg_update_link_status rsg 1 4 1).link_status_map ≡ 1
unfolding rsg_update_link_status status_of find assign rsg_get_link_id update_nodes update_rsps
    rsps_of update_rsp rsg_search_vir_link search_from rsp_status rsp_status_from
sub_path_failed = refl

abbrev face_of : ℕ → ℕ → LltcFaceEntry
face_of face node = record {
  face_next_hop = face;
  remote_lltc_node_id = some node;
  status = 0;
  last_check_time = 0;
}

-- Echo 50 to face 1 was answered, and echo 51 to face 2 was not.
abbrev measured : LinkMeasurementState
measured = record {
  next_link_test_id = 1;
  echo_ids_in_link_test = (0, 50 ∷ 51 ∷ []) ∷ [];
  echo_msg_state_map =
      (50, record { requested_time = 10; rtt = 5; fe = 1; status = 0 })
      ∷ (51, record { requested_time = 10; rtt = 0; fe = 2; status = 1 })
      ∷ [];
  lsa_update_seq_no = 0;
  prev_lsa = none;
  recent_lsa_ids = [];
}

abbrev link_node : LinkNode
link_node = record {
  local_node_id = 5;
  lltc_prefix = "lltc";
  times_for_check_path_connectivity = 3;
  face_entries = face_of 1 6 ∷ face_of 2 7 ∷ [];
  measurement = measured;
  now = 100;
  random = λ k. k;
  draws = 0;
  calls = [];
}

tested : (σ : LinkNode) × (update_face_stats_with_link_test_states 0 link_node ≡ some σ)
unfolding update_face_stats_with_link_test_states echo_ids_of note_echos find erase
tested = (_, refl)

apart : Distinct (echo_ids_of 0 measured)
unfolding echo_ids_of find elem
apart = (refl, (refl, tt))

link_test_result_example :
    (tested.0).face_entries
    ≡ map (judged 100 (echo_ids_of 0 measured) measured.echo_msg_state_map) link_node.face_entries
link_test_result_example = link_test_result 0 link_node apart (tested.1)

abbrev lsa_uri : LsaUri
lsa_uri = record { lsa_id = 88; source_node_id = 6; update_seq_no = 0; is_active = true }

abbrev lsa_packet : Data
lsa_packet = new_data "lltc" (lsa lsa_uri []) 1000

on_receive_lsa_floods_once_example :
    ((on_receive_lsa lsa_packet lsa_uri [] link_node).calls
      ≡ update_preferred_path lsa_uri.source_node_id [] lsa_uri.is_active
        ∷ one_to_each lsa_packet link_node.face_entries link_node.calls)
    × (on_receive_lsa lsa_packet lsa_uri [] (on_receive_lsa lsa_packet lsa_uri [] link_node)
        ≡ on_receive_lsa lsa_packet lsa_uri [] link_node)
on_receive_lsa_floods_once_example =
    on_receive_lsa_floods_once lsa_packet lsa_packet lsa_uri lsa_uri [] [] link_node
      (unfold elem in refl) refl

broadcast_echos-Sent_example :
    Sent 1
      (echos_of (λ k. k) 0 true 0 link_node.face_entries)
      link_node
      (broadcast_echos 1 true 0 link_node.face_entries link_node)
broadcast_echos-Sent_example = broadcast_echos-Sent 1 true 0 link_node.face_entries link_node
