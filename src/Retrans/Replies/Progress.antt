-- ===== src/Retrans/Replies/Progress.antt =====
-- `onReceiveRequestS` and `onReceiveRequestM` (lltc-strategy-service-sublayer-retrans-control.cpp) return.
use drtp.Base.{
  ℕ, ◌≡◌, refl, ◌∙◌, Bool, true, inl, inr, List, [], ◌∷◌, Option, none, some, String, arith,
  Bool-cases, Option-cases,
}
use drtp.Messages.{Data, RequestSUri, RequestMUri}
use drtp.State.{State, PitEntry, Cs}
use drtp.State.Ops.{send_lltc_non_pit_data}
use drtp.State.Frame.{serves}
use drtp.Cs.{lookup_in_cs, find_capsule}
use drtp.Cs.Closest.{lookup_in_cs-closest}
use drtp.Retrans.Replies.{
  is_exact, multiple_answer, single_answer, on_receive_request_s, on_receive_request_m,
}
use drtp.Retrans.Replies.Answers.{lookup_stored, lookup_exact_missing}
use drtp.Retrans.Replies.Frames.{multiple_answer-Frame}

-- A store that serves what it holds never faults.
pub lookup_in_cs-Returns :
    (cs : Cs) (prefix : String) (id : ℕ) (exact : Bool)
    → serves cs ≡ true
    → (r : ℕ × Option Data) × (lookup_in_cs cs prefix id exact ≡ some r)
unfolding serves
lookup_in_cs-Returns cs prefix id exact s = elim (Option-cases (find_capsule cs prefix id)) [
  | inr (d, e) ↦ ((id, some d), lookup_stored cs prefix id exact d e)
  | inl e ↦ elim (Bool-cases exact) [
    | inl x ↦ ((0, none), rw x (lookup_exact_missing cs prefix id e))
    | inr x ↦ elim (lookup_in_cs-closest cs prefix id e (ground (arith, s)) (ground (arith, s))) [
      | inl (found, later) ↦ ((0, none), rw x found)
      | inr (y, d, found, served, above, least) ↦ ((y, some d), rw x found)
    ]
  ]
]

pub on_receive_request_s-Returns :
    (rru : RequestSUri) (pit : PitEntry) (face rsg_id path_id : ℕ) (σ : State)
    → serves σ.env.local_cs ≡ true
    → (σ' : State) × (on_receive_request_s rru pit face rsg_id path_id σ ≡ some σ')
unfolding on_receive_request_s
on_receive_request_s-Returns rru pit face rsg_id path_id σ s =
    let (r, e) =
      lookup_in_cs-Returns σ.env.local_cs pit.name rru.lost_data_id (is_exact rru.type) s in
    (
      send_lltc_non_pit_data (single_answer pit.name σ.env.coll.local_node_id rru σ r) face rsg_id
          path_id σ,
      rw e refl,
    )

pub on_receive_request_m-Returns :
    (rrbu : RequestMUri) (ids : List ℕ) (pit : PitEntry) (face rsg_id path_id : ℕ) (σ : State)
    → serves σ.env.local_cs ≡ true
    → (σ' : State) × (on_receive_request_m rrbu ids pit face rsg_id path_id σ ≡ some σ')
unfolding on_receive_request_m
on_receive_request_m-Returns rrbu [] pit face rsg_id path_id σ s = (σ, refl)
on_receive_request_m-Returns rrbu (lost ∷ ids) pit face rsg_id path_id σ s =
    let (r, e) = lookup_in_cs-Returns σ.env.local_cs pit.name lost (is_exact rrbu.type) s in
    let f = multiple_answer-Frame pit face rsg_id path_id rrbu lost σ (r.0) (r.1) in
    let (σ', rest) =
      on_receive_request_m-Returns rrbu ids pit face rsg_id path_id
        (multiple_answer pit face rsg_id path_id rrbu lost σ r) (f.serving ∙ s) in
    (σ', rw e rest)
