-- ===== src/Links/Flooding.antt =====
-- How link states spread (lltc-strategy-forwarding-sublayer-path-control.cpp).
use drtp.Base.{◌≡◌, refl, ap, Bool, true, false, List, [], ◌∷◌, arith, if◌then◌else◌}
use drtp.Base.Seqs.{elem, insert, elem-insert}
use drtp.Messages.{Data, LsaUri, LinkState, construct_lsa}
use drtp.Links.{
  LltcFaceEntry, LinkCall, send, update_preferred_path, LinkNode, call, with_measurement,
}
use drtp.Links.Advertisements.{send_to_all, on_receive_lsa}

-- The packet to each of the faces, once and in their order; the newest call stands first.
unfoldable pub one_to_each : Data → List LltcFaceEntry → List LinkCall → List LinkCall
one_to_each packet [] calls = calls
one_to_each packet (fa ∷ fas) calls = one_to_each packet fas (send packet fa.face_next_hop ∷ calls)

send_to_all-same :
    (packet : Data) (fas : List LltcFaceEntry) (σ : LinkNode)
    → ((send_to_all packet fas σ).measurement ≡ σ.measurement)
      × ((send_to_all packet fas σ).face_entries ≡ σ.face_entries)
      × ((send_to_all packet fas σ).calls ≡ one_to_each packet fas σ.calls)
unfolding send_to_all call one_to_each
send_to_all-same packet [] σ = (refl, refl, refl)
send_to_all-same packet (fa ∷ fas) σ = let (m, f, n) = send_to_all-same packet fas _ in (m, f, n)

abbrev noted_lsa : LsaUri → LinkNode → LinkNode
noted_lsa flu σ =
    with_measurement
      (record (σ.measurement) { recent_lsa_ids = insert flu.lsa_id σ.measurement.recent_lsa_ids }) σ

known : (b : Bool) (τ υ : LinkNode) → b ≡ true → (if b then τ else υ) ≡ τ
known true τ υ h = refl
known false τ υ h = absurd (let f : ⊥ = cc in f)

fresh_lsa :
    (packet : Data) (flu : LsaUri) (ls_list : List LinkState) (σ : LinkNode)
    → elem flu.lsa_id σ.measurement.recent_lsa_ids ≡ false
    → ((on_receive_lsa packet flu ls_list σ).calls
        ≡ update_preferred_path flu.source_node_id ls_list flu.is_active
          ∷ one_to_each packet σ.face_entries σ.calls)
      × (elem flu.lsa_id (on_receive_lsa packet flu ls_list σ).measurement.recent_lsa_ids ≡ true)
unfolding on_receive_lsa
fresh_lsa packet flu ls_list σ e =
    let (m, f, n) = send_to_all-same packet σ.face_entries (noted_lsa flu σ) in
    rw e (
      unfold call in
          ap (λ cs. update_preferred_path flu.source_node_id ls_list flu.is_active ∷ cs)
            (unfold with_measurement in n),
      unfold call in
          (rw m (
            unfold with_measurement in
            ground (arith, elem-insert flu.lsa_id flu.lsa_id σ.measurement.recent_lsa_ids))),
    )

-- An LSA that is new is sent to every face once, also to the one it came from, and then its link
-- states are taken into account once, and nothing else is called; a second copy, whatever it brings and
-- from wherever, does nothing.
pub on_receive_lsa_floods_once :
    (packet packet' : Data) (flu flu' : LsaUri) (ls_list ls_list' : List LinkState) (σ : LinkNode)
    → elem flu.lsa_id σ.measurement.recent_lsa_ids ≡ false
    → flu'.lsa_id ≡ flu.lsa_id
    → ((on_receive_lsa packet flu ls_list σ).calls
        ≡ update_preferred_path flu.source_node_id ls_list flu.is_active
          ∷ one_to_each packet σ.face_entries σ.calls)
      × (on_receive_lsa packet' flu' ls_list' (on_receive_lsa packet flu ls_list σ)
          ≡ on_receive_lsa packet flu ls_list σ)
unfolding on_receive_lsa
on_receive_lsa_floods_once packet packet' flu flu' ls_list ls_list' σ fresh e =
    let (n, noted) = fresh_lsa packet flu ls_list σ fresh in
    (
      n,
      known (elem flu'.lsa_id (on_receive_lsa packet flu ls_list σ).measurement.recent_lsa_ids) _ _
          (rw e noted),
    )

-- The LSA to each face, after the link states were taken into account.
abbrev pub told_to_each : Bool → List LinkState → LinkNode → List LinkCall
told_to_each is_active ls_list σ =
    one_to_each
      (construct_lsa σ.lltc_prefix (σ.random σ.draws) σ.local_node_id
        σ.measurement.lsa_update_seq_no ls_list is_active)
      σ.face_entries (update_preferred_path σ.local_node_id ls_list is_active ∷ σ.calls)
