-- ===== src/Links/Sending.antt =====
-- Which echos a link test sends (lltc-strategy-forwarding-sublayer-path-control.cpp): `broadcastEchos`.
use drtp.Base.{
  ℕ, Option, none, some, ◌&&◌, ◌||◌, ◌==◌, ◌+◌, ◌≡◌, refl, ap, ◌∙◌, Bool, true, false, inl, inr,
  List, [], ◌∷◌, ◌++◌, arith, Bool-cases, if◌then◌else◌,
}
use drtp.Base.Maps.{find, assign, find-assign}
use drtp.Messages.{construct_echo}
use drtp.Links.{LltcFaceEntry, EchoMessageState, LinkCall, send_lltc, LinkNode, call}
use drtp.Links.Echos.{ids_or_none, echo_ids_of, send_echo, has_remote, is_tested, broadcast_echos}
use mathlib.Core.List.{append_assoc}

-- A face without a neighbour gets no echo; one with a neighbour gets one if the test is full or the
-- face is the given one.
unfoldable pub chosen {ℓ} : {A : Type ℓ} → Option ℕ → Bool → Bool → A → A → A
chosen none is_full is_face sent skipped = skipped
chosen (some node) true is_face sent skipped = sent
chosen (some node) false true sent skipped = sent
chosen (some node) false false sent skipped = skipped

-- The echos of a round in their order: the ID drawn for each face that gets one, and the face.
unfoldable pub echos_of : (ℕ → ℕ) → ℕ → Bool → ℕ → List LltcFaceEntry → List (ℕ × ℕ)
unfolding chosen
echos_of random k is_full face [] = []
echos_of random k is_full face (fe ∷ fes) =
    chosen fe.remote_lltc_node_id is_full (fe.face_next_hop == face)
      ((random k, fe.face_next_hop) ∷ echos_of random (k + 1) is_full face fes)
      (echos_of random k is_full face fes)

chosen_lem {ℓ} :
    {A : Type ℓ} (remote : Option ℕ) (is_full is_face : Bool) (sent skipped : A)
    → chosen remote is_full is_face sent skipped
      ≡ (if has_remote remote && (is_full || is_face) then sent else skipped)
unfolding chosen has_remote
chosen_lem none is_full is_face sent skipped = refl
chosen_lem (some node) true is_face sent skipped = refl
chosen_lem (some node) false true sent skipped = refl
chosen_lem (some node) false false sent skipped = refl

chosen_tested {ℓ} :
    {A : Type ℓ} (is_full : Bool) (face : ℕ) (fe : LltcFaceEntry) (sent skipped : A)
    → chosen fe.remote_lltc_node_id is_full (fe.face_next_hop == face) sent skipped
      ≡ (if is_tested is_full face fe then sent else skipped)
unfolding is_tested
chosen_tested is_full face fe sent skipped =
    chosen_lem fe.remote_lltc_node_id is_full (fe.face_next_hop == face) sent skipped

unfoldable pub ids_in : List (ℕ × ℕ) → List ℕ
ids_in [] = []
ids_in ((id, face) ∷ echos) = id ∷ ids_in echos

-- Their registrations, and their packets.
unfoldable pub registered :
    ℕ → List (ℕ × ℕ) → List (ℕ × EchoMessageState) → List (ℕ × EchoMessageState)
registered now [] em = em
registered now ((id, face) ∷ echos) em =
    registered now echos
      (assign id (record { requested_time = now; rtt = 0; fe = face; status = 1 }) em)

unfoldable pub packets_of : LinkNode → List (ℕ × ℕ) → List LinkCall → List LinkCall
packets_of σ [] calls = calls
packets_of σ ((id, face) ∷ echos) calls =
    packets_of σ echos (send_lltc (construct_echo σ.lltc_prefix id σ.local_node_id) face ∷ calls)

abbrev waiting : ℕ → ℕ → EchoMessageState
waiting now face = record { requested_time = now; rtt = 0; fe = face; status = 1 }

ids-assigned :
    (test : ℕ) (ids : List ℕ) (m : List (ℕ × List ℕ))
    → ids_or_none (find test (assign test ids m)) ≡ ids
unfolding ids_or_none
ids-assigned test ids m = ground (arith, find-assign test test ids m)

abbrev pub Sent : ℕ → List (ℕ × ℕ) → LinkNode → LinkNode → Type 0
Sent test echos σ τ =
    (echo_ids_of test τ.measurement ≡ echo_ids_of test σ.measurement ++ ids_in echos)
    × (τ.measurement.echo_msg_state_map ≡ registered σ.now echos σ.measurement.echo_msg_state_map)
    × (τ.calls ≡ packets_of σ echos σ.calls)

append_nil : (xs : List ℕ) → xs ≡ xs ++ []
append_nil [] = refl
append_nil (x ∷ xs) = let e = append_nil xs in ap (λ ys. x ∷ ys) e

packets_of-same :
    (σ τ : LinkNode) (echos : List (ℕ × ℕ)) (calls : List LinkCall)
    → τ.lltc_prefix ≡ σ.lltc_prefix
    → τ.local_node_id ≡ σ.local_node_id
    → packets_of τ echos calls ≡ packets_of σ echos calls
unfolding packets_of
packets_of-same σ τ [] calls p q = refl
packets_of-same σ τ ((id, face) ∷ echos) calls p q = rw (p, q) (packets_of-same σ τ echos _ p q)

sent_round :
    (test : ℕ) (is_full : Bool) (face : ℕ) (fe : LltcFaceEntry) (fes : List LltcFaceEntry)
    (σ : LinkNode)
    → is_tested is_full face fe ≡ true
    → (echos_of σ.random σ.draws is_full face (fe ∷ fes)
        ≡ (σ.random σ.draws, fe.face_next_hop) ∷ echos_of σ.random (σ.draws + 1) is_full face fes)
      × (broadcast_echos test is_full face (fe ∷ fes) σ
          ≡ broadcast_echos test is_full face fes (send_echo test fe σ))
unfolding echos_of broadcast_echos
sent_round test is_full face fe fes σ e =
    (chosen_tested is_full face fe _ _ ∙ (rw e refl), ground (arith, e))

skipped_round :
    (test : ℕ) (is_full : Bool) (face : ℕ) (fe : LltcFaceEntry) (fes : List LltcFaceEntry)
    (σ : LinkNode)
    → is_tested is_full face fe ≡ false
    → (echos_of σ.random σ.draws is_full face (fe ∷ fes)
        ≡ echos_of σ.random σ.draws is_full face fes)
      × (broadcast_echos test is_full face (fe ∷ fes) σ ≡ broadcast_echos test is_full face fes σ)
unfolding echos_of broadcast_echos
skipped_round test is_full face fe fes σ e =
    (chosen_tested is_full face fe _ _ ∙ (rw e refl), ground (arith, e))

-- One echo before those that follow.
one_more :
    (test : ℕ) (is_full : Bool) (face : ℕ) (fe : LltcFaceEntry) (fes : List LltcFaceEntry)
    (σ τ : LinkNode)
    → let σ' = send_echo test fe σ in
      Sent test (echos_of σ'.random σ'.draws is_full face fes) σ' τ
      → Sent test
          ((σ.random σ.draws, fe.face_next_hop) ∷ echos_of σ.random (σ.draws + 1) is_full face fes)
          σ
          τ
unfolding send_echo call ids_in registered packets_of echo_ids_of
one_more test is_full face fe fes σ τ (ids, map, sent) =
    let echos = echos_of σ.random (σ.draws + 1) is_full face fes in
    (
      ids
          ∙ (rw (ids-assigned test _ σ.measurement.echo_ids_in_link_test) (
              append_assoc (echo_ids_of test σ.measurement) (σ.random σ.draws ∷ [])
                (ids_in echos))),
      map,
      sent ∙ packets_of-same σ (send_echo test fe σ) echos _ refl refl,
    )

-- A link test sends one echo, with an ID drawn for it, to each face with a neighbour if it is a full
-- one, and otherwise to those of the given face; it registers each as waiting since now, and as an echo
-- of the test after those that the test already has.
pub broadcast_echos-Sent :
    (test : ℕ) (is_full : Bool) (face : ℕ) (fes : List LltcFaceEntry) (σ : LinkNode)
    → Sent test
        (echos_of σ.random σ.draws is_full face fes)
        σ
        (broadcast_echos test is_full face fes σ)
broadcast_echos-Sent test is_full face [] σ =
    unfold broadcast_echos echos_of ids_in registered packets_of in
    (append_nil (echo_ids_of test σ.measurement), refl, refl)
broadcast_echos-Sent test is_full face (fe ∷ fes) σ =
    let sent = broadcast_echos-Sent test is_full face fes (send_echo test fe σ) in
    let skipped = broadcast_echos-Sent test is_full face fes σ in
    elim (Bool-cases (is_tested is_full face fe)) [
      | inl e ↦
          let (echos, node) = sent_round test is_full face fe fes σ e in
          rw (echos, node)
            (one_more test is_full face fe fes σ
              (broadcast_echos test is_full face fes (send_echo test fe σ)) sent)
      | inr e ↦
          let (echos, node) = skipped_round test is_full face fe fes σ e in rw (echos, node) skipped
    ]
