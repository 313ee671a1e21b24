-- ===== src/Retrans/Replies/Answers.antt =====
-- What `onReceiveRequestS` and `onReceiveRequestM`
-- (lltc-strategy-service-sublayer-retrans-control.cpp) answer.
use drtp.Base.{
  ◌≢◌, ℕ, ◌+◌, ◌-◌, ◌%◌, ◌^◌, ◌≤◌, ◌<◌, ◌≡◌, refl, ap, ◌∙◌, Bool, true, false, inl, inr, ◌⊎◌, [],
  Option, none, some, String, arith, Bool-cases, Option-cases, if◌then◌else◌,
}
use drtp.Messages.{
  Data, Body, RequestSUri, RetransType, RetranSUri, retran_s, retran_s_uri, construct_retran_s,
}
use drtp.DataIdQueue.{get_data_id_add_time}
use drtp.State.{State, PitEntry, Cs}
use drtp.State.Ops.{send_lltc_non_pit_data}
use drtp.Fs.{uint_max}
use drtp.State.Frame.{serves}
use drtp.Cs.{lookup_in_cs, find_capsule}
use drtp.Cs.Closest.{lookup_in_cs-closest}
use drtp.Retrans.Replies.{
  is_exact, answer_type, capsule_content, single_answer, on_receive_request_s,
}

module _ (cs : Cs) (prefix : String) (lost : ℕ) where
  -- The capsule itself.
  abbrev pub IsStored : Body → Type 0
  IsStored body =
      (d : Data) × (u : RetranSUri) × (find_capsule cs prefix lost ≡ some d)
      × (body ≡ retran_s u (capsule_content d.body))
      × (u.data_id ≡ lost)
      × (u.requested_data_id ≡ lost)

  -- The stored capsule with the least ID behind that of the missing one.
  abbrev pub IsNext : Body → Type 0
  IsNext body =
      (x : ℕ) × (d : Data) × (u : RetranSUri) × (find_capsule cs prefix lost ≡ none)
      × (find_capsule cs prefix x ≡ some d)
      × (lost < x)
      × ((y : ℕ) (e : Data) → lost < y → find_capsule cs prefix y ≡ some e → x ≤ y)
      × (body ≡ retran_s u (capsule_content d.body))
      × (u.data_id ≡ x)
      × (u.requested_data_id ≡ lost)

  -- No later capsule is stored under an ID that the search can find.
  abbrev pub NoneLater : Type 0
  NoneLater = (y : ℕ) (d : Data) → lost < y → y < uint_max → find_capsule cs prefix y ≢ some d

  -- A notice that names the ID 0, whichever capsule is missing.
  abbrev pub IsMiss : Body → Type 0
  IsMiss body =
      (u : RetranSUri) × (find_capsule cs prefix lost ≡ none)
      × (body ≡ retran_s u [])
      × (u.type ≡ RetransType.miss)
      × (u.data_id ≡ 0)
      × (u.requested_data_id ≡ 0)

-- The URI of an answer with content: the found ID, and the requested one if the type is Closest.
uri_cases :
    (b : Bool) (id node lost time : ℕ)
    → ((retran_s_uri id node (answer_type b) lost time).data_id ≡ id)
      × ((retran_s_uri id node (answer_type b) lost time).requested_data_id
          ≡ (if b then id else lost))
unfolding retran_s_uri answer_type
uri_cases true id node lost time = (refl, refl)
uri_cases false id node lost time = (refl, refl)

answered :
    (prefix : String) (rru : RequestSUri) (σ : State) (r : ℕ × Option Data) (id : ℕ) (d : Data)
    → r ≡ (id, some d)
    → (u : RetranSUri) × ((single_answer prefix σ.env.coll.local_node_id rru σ r).body
        ≡ retran_s u (capsule_content d.body))
      × (u.data_id ≡ id)
      × (u.requested_data_id ≡ (if is_exact rru.type then id else rru.lost_data_id))
unfolding single_answer construct_retran_s
answered prefix rru σ r id d e =
    let drifting =
      (σ.env.now + 2 ^ 64 - get_data_id_add_time σ.ds.transmitted_data_ids id) % 2 ^ 64 in
    let node = σ.env.coll.local_node_id in
    let u = uri_cases (is_exact rru.type) id node rru.lost_data_id drifting in
    (
      retran_s_uri id node (answer_type (is_exact rru.type)) rru.lost_data_id drifting,
      rw e refl,
      u.0,
      u.1,
    )

missed :
    (prefix : String) (rru : RequestSUri) (σ : State) (r : ℕ × Option Data)
    → r ≡ (0, none)
    → (u : RetranSUri) × ((single_answer prefix σ.env.coll.local_node_id rru σ r).body
        ≡ retran_s u [])
      × (u.type ≡ RetransType.miss)
      × (u.data_id ≡ 0)
      × (u.requested_data_id ≡ 0)
unfolding single_answer construct_retran_s retran_s_uri
missed prefix rru σ r e = (
  retran_s_uri 0 σ.env.coll.local_node_id RetransType.miss rru.lost_data_id 0,
  rw e refl,
  refl,
  refl,
  refl,
)

pub lookup_stored :
    (cs : Cs) (prefix : String) (id : ℕ) (exact : Bool) (d : Data)
    → find_capsule cs prefix id ≡ some d
    → lookup_in_cs cs prefix id exact ≡ some (id, some d)
unfolding lookup_in_cs
lookup_stored cs prefix id exact d e = ground arith

pub lookup_exact_missing :
    (cs : Cs) (prefix : String) (id : ℕ)
    → find_capsule cs prefix id ≡ none
    → lookup_in_cs cs prefix id true ≡ some (0, none)
unfolding lookup_in_cs
lookup_exact_missing cs prefix id e = ground arith

same_id : (b : Bool) (id : ℕ) → (if b then id else id) ≡ id
same_id true id = refl
same_id false id = refl

module _ (rru : RequestSUri) (pit : PitEntry) (face rsg_id path_id : ℕ) (σ : State) where
  abbrev IsAnswer : Body → Type 0
  IsAnswer body =
      IsStored σ.env.local_cs pit.name rru.lost_data_id body
      ⊎ ((is_exact rru.type ≡ false) × IsNext σ.env.local_cs pit.name rru.lost_data_id body)
      ⊎ (((is_exact rru.type ≡ true) ⊎ NoneLater σ.env.local_cs pit.name rru.lost_data_id)
          × IsMiss σ.env.local_cs pit.name rru.lost_data_id body)

  abbrev pub Answers : Option State → Type 0
  Answers result =
      (answer : Data) × (result ≡ some (send_lltc_non_pit_data answer face rsg_id path_id σ))
      × IsAnswer answer.body

  abbrev reply : ℕ × Option Data → Data
  reply r = single_answer pit.name σ.env.coll.local_node_id rru σ r

  sent :
      (r : ℕ × Option Data)
      → lookup_in_cs σ.env.local_cs pit.name rru.lost_data_id (is_exact rru.type) ≡ some r
      → IsAnswer (reply r).body
      → Answers (on_receive_request_s rru pit face rsg_id path_id σ)
  unfolding on_receive_request_s
  sent r e a = (reply r, rw e refl, a)

  -- If the content store serves what it holds: `onReceiveRequestS` sends one answer back, over the
  -- ingress face. It is the capsule itself if that is stored, whatever the type of the request; else,
  -- if the type is Closest and a later capsule is stored, the one with the least ID behind it, named
  -- together with the requested ID; else, so for the type Exact or with no later capsule below
  -- UINT_MAX, a Miss, which names the ID 0 in place of the one requested.
  pub answer_cases :
      σ.env.local_cs.should_serve ≡ true
      → 0 < σ.env.local_cs.limit
      → Answers (on_receive_request_s rru pit face rsg_id path_id σ)
  answer_cases serves limit =
      let cs = σ.env.local_cs in
      let prefix = pit.name in
      let id = rru.lost_data_id in
      elim (Option-cases (find_capsule cs prefix id)) [
        | inr (d, e) ↦
            let (u, b, p, q) = answered prefix rru σ (id, some d) id d refl in
            sent (id, some d) (lookup_stored cs prefix id (is_exact rru.type) d e)
              (inl (d, u, e, b, p, q ∙ same_id (is_exact rru.type) id))
        | inl e ↦
            let (u, b, t, p, q) = missed prefix rru σ (0, none) refl in
            elim (Bool-cases (is_exact rru.type)) [
              | inl exact ↦
                  sent (0, none) (rw exact (lookup_exact_missing cs prefix id e))
                    (inr (inr (inl exact, (u, e, b, t, p, q))))
              | inr closest ↦ elim (lookup_in_cs-closest cs prefix id e serves limit) [
                | inl (found, later) ↦
                    sent (0, none) (rw closest found) (inr (inr (inr later, (u, e, b, t, p, q))))
                | inr (x, d, found, served, above, least) ↦
                    let (w, c, r, s) = answered prefix rru σ (x, some d) x d refl in
                    sent (x, some d) (rw closest found)
                      (inr (
                        inl (
                          closest,
                          (
                            x,
                            d,
                            w,
                            e,
                            served,
                            above,
                            least,
                            c,
                            r,
                            s ∙ ap (λ b. if b then x else id) closest,
                          ),
                        )))
              ]
            ]
      ]
