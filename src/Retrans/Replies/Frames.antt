-- ===== src/Retrans/Replies/Frames.antt =====
-- What `onReceiveRequestS` and `onReceiveRequestM`
-- (lltc-strategy-service-sublayer-retrans-control.cpp) leave alone.
use drtp.Base.{>>=-eq-some, of_result, ℕ, ◌≡◌, refl, List, [], ◌∷◌, Option, none, some}
use drtp.Messages.{Data, RequestSUri, RequestMUri}
use drtp.State.{State, PitEntry}
use drtp.State.Ops.{send_lltc_non_pit_data}
use drtp.State.Frame.{Frame, Frame-refl, Frame-trans, send_lltc_non_pit_data-Frame}
use drtp.Cs.{lookup_in_cs}
use drtp.Retrans.Replies.{
  is_exact, multiple_answer, single_answer, on_receive_request_s, on_receive_request_m,
}

pub on_receive_request_s-Frame :
    (rru : RequestSUri) (pit : PitEntry) (face rsg_id path_id : ℕ) (σ : State) {σ' : State}
    → on_receive_request_s rru pit face rsg_id path_id σ ≡ some σ'
    → Frame σ σ'
unfolding on_receive_request_s
on_receive_request_s-Frame rru pit face rsg_id path_id σ e =
    let (r, found, sent) =
      >>=-eq-some (lookup_in_cs σ.env.local_cs pit.name rru.lost_data_id (is_exact rru.type))
        (λ r. some (
          send_lltc_non_pit_data (single_answer pit.name σ.env.coll.local_node_id rru σ r) face
            rsg_id path_id σ))
        e in
    of_result (Frame σ) refl sent (send_lltc_non_pit_data-Frame _ face rsg_id path_id σ)

pub multiple_answer-Frame :
    (pit : PitEntry) (face rsg_id path_id : ℕ) (rrbu : RequestMUri) (lost : ℕ) (σ : State) (id : ℕ)
    (found : Option Data)
    → Frame σ (multiple_answer pit face rsg_id path_id rrbu lost σ (id, found))
unfolding multiple_answer
multiple_answer-Frame pit face rsg_id path_id rrbu lost σ id none = Frame-refl σ
multiple_answer-Frame pit face rsg_id path_id rrbu lost σ id (some found) =
    send_lltc_non_pit_data-Frame _ face rsg_id path_id σ

pub on_receive_request_m-Frame :
    (rrbu : RequestMUri) (ids : List ℕ) (pit : PitEntry) (face rsg_id path_id : ℕ) (σ : State)
    {σ' : State}
    → on_receive_request_m rrbu ids pit face rsg_id path_id σ ≡ some σ'
    → Frame σ σ'
unfolding on_receive_request_m
on_receive_request_m-Frame rrbu [] pit face rsg_id path_id σ e =
    of_result (Frame σ) refl e (Frame-refl σ)
on_receive_request_m-Frame rrbu (lost ∷ ids) pit face rsg_id path_id σ e =
    let (r, found, rest) =
      >>=-eq-some (lookup_in_cs σ.env.local_cs pit.name lost (is_exact rrbu.type))
        (λ r.
          on_receive_request_m rrbu ids pit face rsg_id path_id
            (multiple_answer pit face rsg_id path_id rrbu lost σ r))
        e in
    Frame-trans (multiple_answer-Frame pit face rsg_id path_id rrbu lost σ (r.0) (r.1))
      (on_receive_request_m-Frame rrbu ids pit face rsg_id path_id _ rest)
