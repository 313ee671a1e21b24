-- ===== src/Links/Changes.antt =====
-- What the loop of `broadcastingLsaTask` (lltc-strategy-forwarding-sublayer-path-control.cpp) finds
-- changed.
use drtp.Base.{
  ℕ, ◌≡◌, refl, ap, ◌∙◌, Bool, true, false, ◌||◌, inl, inr, Option, none, some, List, [], ◌∷◌, ◌++◌,
  arith, ◌==◌, Option-cases,
}
use drtp.Base.Seqs.{elem, Distinct}
use drtp.Messages.{LinkState}
use drtp.Links.{LltcFaceEntry}
use drtp.Links.Advertisements.{differs_from, is_changed, lsa_loop}

-- The link states of the faces with a neighbour, and whether one has changed.
abbrev add_state : Option ℕ → ℕ → List LinkState → List LinkState
add_state none status rest = rest
add_state (some node) status rest = record { neighbored_node_id = node; status = status } ∷ rest

unfoldable pub states_of : List LltcFaceEntry → List LinkState
states_of [] = []
states_of (fa ∷ fas) = add_state fa.remote_lltc_node_id fa.status (states_of fas)

unfoldable pub any_changed : Option (List LinkState) → List LltcFaceEntry → Bool
any_changed prev [] = false
any_changed prev (fa ∷ fas) =
    let rest = any_changed prev fas in
    elim fa.remote_lltc_node_id [ none ↦ rest | some node ↦ is_changed prev node fa.status || rest ]

or_assoc : (a b c : Bool) → ((a || b) || c) ≡ (a || (b || c))
or_assoc true b c = refl
or_assoc false b c = refl

pub lsa_loop_lem :
    (prev : Option (List LinkState)) (fas : List LltcFaceEntry) (diff : Bool)
    → lsa_loop prev fas diff ≡ (states_of fas, diff || any_changed prev fas)
unfolding lsa_loop states_of any_changed
lsa_loop_lem prev [] true = refl
lsa_loop_lem prev [] false = refl
lsa_loop_lem prev (fa ∷ fas) diff = elim (Option-cases fa.remote_lltc_node_id) [
  | inl e ↦ simp (e, lsa_loop, states_of, any_changed) (lsa_loop_lem prev fas diff)
  | inr (node, e) ↦
      let here = is_changed prev node fa.status in
      simp (e, lsa_loop, states_of, any_changed)
        (rw (lsa_loop_lem prev fas (diff || here)) (
          ap
            (λ (b : Bool).
              (record { neighbored_node_id = node; status = fa.status } ∷ states_of fas, b))
            (or_assoc diff here (any_changed prev fas))))
]

-- The neighbours of the faces.
unfoldable pub neighbours : List LltcFaceEntry → List ℕ
neighbours [] = []
neighbours (fa ∷ fas) =
    let rest = neighbours fas in
    elim fa.remote_lltc_node_id [ none ↦ rest | some node ↦ node ∷ rest ]

unfoldable pub nodes_in : List LinkState → List ℕ
nodes_in [] = []
nodes_in (ls ∷ lss) = ls.neighbored_node_id ∷ nodes_in lss

-- The first state of a neighbour is found behind those of others.
found_behind :
    (pre : List LinkState) (node status : ℕ) (rest : List LinkState)
    → elem node (nodes_in pre) ≡ false
    → differs_from (pre ++ record { neighbored_node_id = node; status = status } ∷ rest) node status
      ≡ false
unfolding differs_from nodes_in elem
found_behind [] node status rest h = ground arith
found_behind (ls ∷ pre) node status rest h = ground (arith, found_behind pre node status rest)

elem-nodes_in :
    (k : ℕ) (pre : List LinkState) (ls : LinkState)
    → elem k (nodes_in (pre ++ ls ∷ [])) ≡ (elem k (nodes_in pre) || ls.neighbored_node_id == k)
unfolding nodes_in elem
elem-nodes_in k [] ls = ground arith
elem-nodes_in k (l ∷ pre) ls = ground (arith, elem-nodes_in k pre ls)

snoc_append :
    (pre rest : List LinkState) (ls : LinkState) → ((pre ++ ls ∷ []) ++ rest) ≡ (pre ++ ls ∷ rest)
snoc_append [] rest ls = refl
snoc_append (l ∷ pre) rest ls = ap (λ ys. l ∷ ys) (snoc_append pre rest ls)

-- The faces that are left do not share a neighbour with the states before them.
unfoldable pub Apart : List LinkState → List ℕ → Type 0
Apart pre nodes = (k : ℕ) → elem k nodes ≡ true → elem k (nodes_in pre) ≡ false

Apart-snoc :
    (pre : List LinkState) (node status : ℕ) (nodes : List ℕ)
    → elem node nodes ≡ false
    → Apart pre (node ∷ nodes)
    → Apart (pre ++ record { neighbored_node_id = node; status = status } ∷ []) nodes
unfolding Apart elem
Apart-snoc pre node status nodes fresh h k e =
    let ls : LinkState = record { neighbored_node_id = node; status = status } in
    ground (arith, elem-nodes_in k pre ls, h k, same, e, fresh)
  where
    same : node ≡ k → elem node nodes ≡ elem k nodes
    same f = ap (λ j. elem j nodes) f

pub unchanged :
    (pre : List LinkState) (fas : List LltcFaceEntry)
    → Distinct (neighbours fas)
    → Apart pre (neighbours fas)
    → any_changed (some (pre ++ states_of fas)) fas ≡ false
unfolding any_changed states_of neighbours is_changed
unchanged pre [] d h = refl
unchanged pre (fa ∷ fas) d h = elim (Option-cases fa.remote_lltc_node_id) [
  | inl e ↦
      let same : states_of (fa ∷ fas) ≡ states_of fas = simp e refl in
      simp e (
        ap (λ xs. any_changed (some (pre ++ xs)) fas) same
        ∙ unchanged pre fas (simp e at d) (simp e at h))
  | inr (node, e) ↦
      let d' : Distinct (node ∷ neighbours fas) = simp e at d in
      let h' : Apart pre (node ∷ neighbours fas) = simp e at h in
      let ls : LinkState = record { neighbored_node_id = node; status = fa.status } in
      let first =
        found_behind pre node fa.status (states_of fas)
          (unfold Apart elem in h' node (ground arith)) in
      let rest =
        unchanged (pre ++ ls ∷ []) fas d'.1
          (Apart-snoc pre node fa.status (neighbours fas) (d'.0) h') in
      let rest' = rw (snoc_append pre (states_of fas) ls) at rest in
      let same : states_of (fa ∷ fas) ≡ ls ∷ states_of fas = simp e refl in
      simp e (
        ap
          (λ xs.
            differs_from (pre ++ ls ∷ states_of fas) node fa.status
            || any_changed (some (pre ++ xs)) fas)
          same
        ∙ rw (first, rest') refl)
]
