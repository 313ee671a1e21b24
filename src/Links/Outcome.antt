-- ===== src/Links/Outcome.antt =====
-- What a link test finds (lltc-strategy-forwarding-sublayer-path-control.cpp): the status of a face
-- after `updateFaceStatsWithLinkTestStates`.
use drtp.Base.{
  ℕ, ◌≡◌, refl, ap, ◌∙◌, Bool, true, false, inl, inr, Option, none, some, List, [], ◌∷◌, map,
  Bool-cases, >>=-eq-some, of_result, if◌then◌else◌,
}
use drtp.Base.Seqs.{Distinct}
use drtp.Base.Maps.{find}
use drtp.Links.{LltcFaceEntry, EchoMessageState, FaceStatusInternal, LinkNode}
use drtp.Links.Echos.{
  note_echos, has_remote, set_status, update_faces, echo_ids_of,
  update_face_stats_with_link_test_states,
}
use drtp.Links.Notes.{or_failure, was_asked, has_answered, status_in, note_echos_lem}

-- What a test says of a face: 0 if one of its echos was answered, 1 if it had echos and none was,
-- and nothing if it had none.
pub verdict : ℕ → List ℕ → List (ℕ × EchoMessageState) → Option ℕ
unfolding was_asked has_answered
verdict face ids em =
    if has_answered face ids em then some 0 else if was_asked face ids em then some 1 else none

abbrev pub with_verdict : ℕ → LltcFaceEntry → Option ℕ → LltcFaceEntry
with_verdict now fe none = fe
with_verdict now fe (some status) = record fe { status = status; last_check_time = now }

pub judged : ℕ → List ℕ → List (ℕ × EchoMessageState) → LltcFaceEntry → LltcFaceEntry
unfolding verdict
judged now ids em fe =
    if has_remote fe.remote_lltc_node_id
    then with_verdict now fe (verdict fe.face_next_hop ids em)
    else fe

verdict_lem :
    (face : ℕ) (ids : List ℕ) (em : List (ℕ × EchoMessageState))
    {r : List (ℕ × EchoMessageState) × List (ℕ × FaceStatusInternal)}
    → Distinct ids
    → note_echos ids em [] ≡ some r
    → status_in (find face (r.1)) ≡ verdict face ids em
unfolding verdict find
verdict_lem face ids em {r} d e =
    note_echos_lem face ids em [] {r = r} d e
    ∙ nothing_before (has_answered face ids em) (was_asked face ids em)
  where
    nothing_before :
        (b a : Bool)
        → (if b then some 0 else or_failure a none)
          ≡ (if b then some 0 else if a then some 1 else none)
    nothing_before true a = refl
    nothing_before false true = refl
    nothing_before false false = refl

set_status-verdict :
    (now : ℕ) (fe : LltcFaceEntry) (o : Option FaceStatusInternal)
    → set_status now fe o ≡ with_verdict now fe (status_in o)
unfolding set_status
set_status-verdict now fe none = refl
set_status-verdict now fe (some fsi) = refl

update_faces_lem :
    (now : ℕ) (ids : List ℕ) (em : List (ℕ × EchoMessageState)) (m : List (ℕ × FaceStatusInternal))
    (fes : List LltcFaceEntry)
    → ((face : ℕ) → status_in (find face m) ≡ verdict face ids em)
    → update_faces now m fes ≡ map (judged now ids em) fes
unfolding update_faces judged
update_faces_lem now ids em m [] h = refl
update_faces_lem now ids em m (fe ∷ fes) h =
    let rest = update_faces_lem now ids em m fes h in
    let here = set_status-verdict now fe (find fe.face_next_hop m) in
    elim (Bool-cases (has_remote fe.remote_lltc_node_id)) [
      | inl e ↦ simp e (cons_cong (here ∙ ap (with_verdict now fe) (h fe.face_next_hop)) rest)
      | inr e ↦ simp e (cons_cong refl rest)
    ]
  where
    cons_cong :
        {x y : LltcFaceEntry} {xs ys : List LltcFaceEntry} → x ≡ y → xs ≡ ys → (x ∷ xs) ≡ (y ∷ ys)
    cons_cong p q = rw (p, q) refl

-- After a link test whose echos have IDs of their own, each face with a neighbour has the status that
-- its echos show, normal if one was answered, failed if it had echos and none was answered, and as
-- before if it had none; the faces without a neighbour are as before.
pub link_test_result :
    (test : ℕ) (σ : LinkNode) {σ' : LinkNode}
    → Distinct (echo_ids_of test σ.measurement)
    → update_face_stats_with_link_test_states test σ ≡ some σ'
    → σ'.face_entries
      ≡ map
          (judged σ.now (echo_ids_of test σ.measurement) σ.measurement.echo_msg_state_map)
          σ.face_entries
unfolding update_face_stats_with_link_test_states
link_test_result test σ {σ'} d e =
    let ids = echo_ids_of test σ.measurement in
    let em = σ.measurement.echo_msg_state_map in
    let (r, noted_, rest) = >>=-eq-some (note_echos ids em []) _ e in
    of_result (λ τ. τ.face_entries ≡ map (judged σ.now ids em) σ.face_entries) refl rest
      (update_faces_lem σ.now ids em (r.1) σ.face_entries
        (λ face. verdict_lem face ids em {r = r} d noted_))
