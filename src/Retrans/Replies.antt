-- ===== src/Retrans/Replies.antt =====
-- Answers to requests, of lltc-strategy-service-sublayer-retrans-control.cpp (NFD/daemon/fw):
-- `onReceiveRequestS` and `onReceiveRequestM`. `face` is the ingress face.
pub mod Answers
pub mod Frames
pub mod Progress
use drtp.Base.{
  ℕ, ◌+◌, ◌-◌, ◌%◌, ◌^◌, Bool, true, false, Option, none, some, List, [], ◌∷◌, String, ◌>>=◌,
}
use drtp.DataIdQueue.{get_data_id_add_time}
use drtp.Messages.{
  Data, Body, RequestType, RequestSUri, RequestMUri, RetransType, capsule, construct_retran_s,
  construct_retran_m,
}
use drtp.State.{State, PitEntry}
use drtp.State.Ops.{send_lltc_non_pit_data}
use drtp.Cs.{lookup_in_cs}

-- `type.compare("Closest") != 0`.
unfoldable pub is_exact : RequestType → Bool
is_exact RequestType.exact = true
is_exact RequestType.closest = false

-- The content of a packet that was found under a capsule's name.
unfoldable pub capsule_content : Body → List ℕ
capsule_content (capsule id content) = content
capsule_content body = []

unfoldable pub answer_type : Bool → RetransType
answer_type true = RetransType.exact
answer_type false = RetransType.closest

-- The RetranS for what `lookupInCs` found.
unfoldable pub single_answer : String → ℕ → RequestSUri → State → ℕ × Option Data → Data
unfolding answer_type capsule_content is_exact
single_answer prefix node_id rru σ (id, none) =
    construct_retran_s prefix id node_id RetransType.miss rru.lost_data_id [] 0 0
single_answer prefix node_id rru σ (id, some found) =
    let drifting =
      (σ.env.now + 2 ^ 64 - get_data_id_add_time σ.ds.transmitted_data_ids id) % 2 ^ 64 in
    construct_retran_s prefix id node_id (answer_type (is_exact rru.type)) rru.lost_data_id
      (capsule_content found.body) found.freshness_period drifting

-- `onReceiveRequestS`.
unfoldable pub on_receive_request_s : RequestSUri → PitEntry → ℕ → ℕ → ℕ → State → Option State
on_receive_request_s rru pit face rsg_id path_id σ =
    lookup_in_cs σ.env.local_cs pit.name rru.lost_data_id (is_exact rru.type) >>= λ r. some (
      send_lltc_non_pit_data (single_answer pit.name σ.env.coll.local_node_id rru σ r) face rsg_id
        path_id σ)

pub multiple_answer : PitEntry → ℕ → ℕ → ℕ → RequestMUri → ℕ → State → ℕ × Option Data → State
unfolding capsule_content is_exact
multiple_answer pit face rsg_id path_id rrbu lost σ (id, none) = σ
multiple_answer pit face rsg_id path_id rrbu lost σ (id, some found) =
    send_lltc_non_pit_data
      (construct_retran_m pit.name rrbu.rbi σ.env.coll.local_node_id (is_exact rrbu.type) id lost
        (capsule_content found.body) found.freshness_period)
      face rsg_id path_id σ

-- `onReceiveRequestM`, over the IDs that `extractRequestM` reads.
unfoldable pub on_receive_request_m :
    RequestMUri → List ℕ → PitEntry → ℕ → ℕ → ℕ → State → Option State
unfolding multiple_answer
on_receive_request_m rrbu [] pit face rsg_id path_id σ = some σ
on_receive_request_m rrbu (lost ∷ ids) pit face rsg_id path_id σ =
    lookup_in_cs σ.env.local_cs pit.name lost (is_exact rrbu.type) >>= λ r.
    on_receive_request_m rrbu ids pit face rsg_id path_id
      (multiple_answer pit face rsg_id path_id rrbu lost σ r)
