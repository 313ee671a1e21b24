-- ===== src/Subgraph/Status/Steps.antt =====
-- One sub-path, and the sub-paths in order, under `rsgUpdateLinkStatus`
-- (model/lltc/lltc-resilient-routes-subgraph.cpp): what each step leaves alone.
use drtp.Base.{
  ℕ, ◌^◌, ◌≤◌, ◌<◌, ◌≡◌, refl, ap, ◌∙◌, ◌⊎◌, inl, inr, true, false, ◌&&◌, ◌||◌, List, [], ◌∷◌,
  arith, ◌==◌, map, Bool-cases, if◌then◌else◌,
}
use drtp.Base.Seqs.{All, elem}
use drtp.Base.Maps.{assign, find-assign}
use drtp.Subgraph.{
  RsgPathCompact, rsg_vir_link_id_null, rsg_get_link_id, is_link, search_from, rsg_search_vir_link,
  status_of, rsp_status_from, rsp_status, update_rsp, update_rsps,
}
use drtp.Subgraph.LinkId.{IsNodeId, rsg_get_link_id_names}

pub status_of-assign :
    (j k v : ℕ) (m : List (ℕ × ℕ))
    → status_of k (assign j v m) ≡ (if j == k then v else status_of k m)
unfolding status_of
status_of-assign j k v m = ground (arith, find-assign j k v m)

-- A sub-path of nodes with 31 bits, whose number has less than 63.
abbrev pub IsRsp : RsgPathCompact → Type 0
IsRsp rsp = All IsNodeId rsp.node_ids × (rsp.path_id < 2 ^ 63)

abbrev pub path_ids : List RsgPathCompact → List ℕ
path_ids = map (λ rsp. rsp.path_id)

-- Whether the link is on the path.
abbrev pub HasLink : List ℕ → ℕ → ℕ → Type 0
HasLink nodes a b = rsg_search_vir_link nodes a b ≡ rsg_get_link_id a b

search_from_cases :
    (a b prev : ℕ) (nodes : List ℕ)
    → IsNodeId a
    → IsNodeId b
    → (search_from a b prev nodes ≡ rsg_vir_link_id_null)
      ⊎ (search_from a b prev nodes ≡ rsg_get_link_id a b)
unfolding search_from is_link
search_from_cases a b prev [] p q = inl refl
search_from_cases a b prev (node ∷ nodes) p q =
    elim (Bool-cases ((prev == a && node == b) || (node == a && prev == b))) [
      | inl e ↦ inr (rw e (named (ends e)))
      | inr e ↦ rw e (search_from_cases a b node nodes p q)
    ]
  where
    ends :
        ((prev == a && node == b) || (node == a && prev == b)) ≡ true
        → ((prev ≡ a) × (node ≡ b)) ⊎ ((node ≡ a) × (prev ≡ b))
    ends e = ground arith

    named :
        ((prev ≡ a) × (node ≡ b)) ⊎ ((node ≡ a) × (prev ≡ b))
        → rsg_get_link_id prev node ≡ rsg_get_link_id a b
    named (inl (e, f)) = rw (e, f) refl
    named (inr (e, f)) = rw (e, f) ((rsg_get_link_id_names b a a b q p p q).0)

pub rsg_search_vir_link_cases :
    (a b : ℕ) (nodes : List ℕ)
    → IsNodeId a
    → IsNodeId b
    → (rsg_search_vir_link nodes a b ≡ rsg_vir_link_id_null) ⊎ HasLink nodes a b
unfolding rsg_search_vir_link
rsg_search_vir_link_cases a b [] p q = inl refl
rsg_search_vir_link_cases a b (node ∷ nodes) p q = search_from_cases a b node nodes p q

module _ (a b status : ℕ) (p : IsNodeId a) (q : IsNodeId b) where
  -- The link's status is set, and that of the sub-path computed anew.
  unfoldable pub set_rsp : RsgPathCompact → List (ℕ × ℕ) → List (ℕ × ℕ)
  set_rsp rsp m =
      assign rsp.path_id (rsp_status rsp.node_ids (assign (rsg_get_link_id a b) status m))
        (assign (rsg_get_link_id a b) status m)

  pub not_null : (rsg_get_link_id a b == rsg_vir_link_id_null) ≡ false
  not_null = let h = (rsg_get_link_id_names a b a b p q p q).2 in ground arith

  pub update_rsp_cases :
      (rsp : RsgPathCompact) (m : List (ℕ × ℕ))
      → ((rsg_search_vir_link rsp.node_ids a b ≡ rsg_vir_link_id_null)
          × (update_rsp a b status rsp m ≡ m))
        ⊎ (HasLink rsp.node_ids a b × (update_rsp a b status rsp m ≡ set_rsp rsp m))
  unfolding update_rsp set_rsp
  update_rsp_cases rsp m = elim (rsg_search_vir_link_cases a b rsp.node_ids p q) [
    | inl e ↦ inl (e, rw e refl)
    | inr e ↦ inr (e, rw (e, not_null) refl)
  ]

  -- The map agrees on links, whose keys are marked.
  Agrees : List (ℕ × ℕ) → List (ℕ × ℕ) → Type 0
  Agrees m m' = (k : ℕ) → 2 ^ 63 ≤ k → status_of k m' ≡ status_of k m

  pub set_rsp-link :
      (rsp : RsgPathCompact) (m : List (ℕ × ℕ)) (k : ℕ)
      → rsp.path_id < 2 ^ 63
      → 2 ^ 63 ≤ k
      → status_of k (set_rsp rsp m) ≡ (if rsg_get_link_id a b == k then status else status_of k m)
  unfolding set_rsp
  set_rsp-link rsp m k small marked = ground (
    arith,
    status_of-assign rsp.path_id k (rsp_status rsp.node_ids (assign (rsg_get_link_id a b) status m))
        (assign (rsg_get_link_id a b) status m),
    status_of-assign (rsg_get_link_id a b) k status m,
  )

  -- Links other than the one that is updated keep their status.
  pub update_rsps-other :
      (rsps : List RsgPathCompact) (m : List (ℕ × ℕ)) (k : ℕ)
      → All IsRsp rsps
      → 2 ^ 63 ≤ k
      → (rsg_get_link_id a b == k) ≡ false
      → status_of k (update_rsps a b status rsps m) ≡ status_of k m
  unfolding update_rsps
  update_rsps-other [] m k w marked other = refl
  update_rsps-other (rsp ∷ rsps) m k w marked other =
      update_rsps-other rsps (update_rsp a b status rsp m) k w.1 marked other
      ∙ elim (update_rsp_cases rsp m) [
        | inl (_, e) ↦ ap (status_of k) e
        | inr (_, e) ↦ ap (status_of k) e ∙ (set_rsp-link rsp m k (w.0).1 marked ∙ rw other refl)
      ]

  -- Once the link has its status, no link changes.
  pub update_rsps-settled :
      (rsps : List RsgPathCompact) (m : List (ℕ × ℕ)) (k : ℕ)
      → All IsRsp rsps
      → status_of (rsg_get_link_id a b) m ≡ status
      → 2 ^ 63 ≤ k
      → status_of k (update_rsps a b status rsps m) ≡ status_of k m
  unfolding update_rsps
  update_rsps-settled [] m k w set marked = refl
  update_rsps-settled (rsp ∷ rsps) m k w set marked =
      update_rsps-settled rsps (update_rsp a b status rsp m) k w.1
        (same (rsg_get_link_id a b) above ∙ set) marked
      ∙ same k marked
    where
      above : 2 ^ 63 ≤ rsg_get_link_id a b
      above = (rsg_get_link_id_names a b a b p q p q).1

      written :
          (j : ℕ) → (if rsg_get_link_id a b == j then status else status_of j m) ≡ status_of j m
      written j = ground (arith, set, ap {B = ℕ} (λ (z : ℕ). status_of z m))

      same : (j : ℕ) → 2 ^ 63 ≤ j → status_of j (update_rsp a b status rsp m) ≡ status_of j m
      same j h = elim (update_rsp_cases rsp m) [
        | inl (_, e) ↦ ap (status_of j) e
        | inr (_, e) ↦ ap (status_of j) e ∙ (set_rsp-link rsp m j (w.0).1 h ∙ written j)
      ]

  -- The number of a sub-path is written for that sub-path alone.
  pub update_rsps-path :
      (rsps : List RsgPathCompact) (m : List (ℕ × ℕ)) (k : ℕ)
      → elem k (path_ids rsps) ≡ false
      → k < 2 ^ 63
      → status_of k (update_rsps a b status rsps m) ≡ status_of k m
  unfolding update_rsps elem
  update_rsps-path [] m k fresh small = refl
  update_rsps-path (rsp ∷ rsps) m k fresh small =
      update_rsps-path rsps (update_rsp a b status rsp m) k (ground arith) small
      ∙ elim (update_rsp_cases rsp m) [
        | inl (_, e) ↦ ap (status_of k) e
        | inr (_, e) ↦ ap (status_of k) e ∙ kept
      ]
    where
      above : 2 ^ 63 ≤ rsg_get_link_id a b
      above = (rsg_get_link_id_names a b a b p q p q).1

      elsewhere : (rsp.path_id == k) ≡ false
      elsewhere = ground arith

      kept : status_of k (set_rsp rsp m) ≡ status_of k m
      kept =
          unfold set_rsp in
          ground (
            arith,
            above,
            elsewhere,
            status_of-assign rsp.path_id k
                (rsp_status rsp.node_ids (assign (rsg_get_link_id a b) status m))
                (assign (rsg_get_link_id a b) status m),
            status_of-assign (rsg_get_link_id a b) k status m,
          )

  rsp_status_from-same :
      (prev : ℕ) (nodes : List ℕ) (m m' : List (ℕ × ℕ))
      → IsNodeId prev
      → All IsNodeId nodes
      → ((k : ℕ) → 2 ^ 63 ≤ k → status_of k m' ≡ status_of k m)
      → rsp_status_from prev nodes m' ≡ rsp_status_from prev nodes m
  unfolding rsp_status_from
  rsp_status_from-same prev [] m m' u w h = refl
  rsp_status_from-same prev (node ∷ nodes) m m' u w h =
      let id = rsg_get_link_id prev node in
      let e = h id (rsg_get_link_id_names prev node prev node u (w.0) u (w.0)).1 in
      let rest = rsp_status_from-same node nodes m m' (w.0) w.1 h in rw (e, rest) refl

  pub rsp_status-same :
      (nodes : List ℕ) (m m' : List (ℕ × ℕ))
      → All IsNodeId nodes
      → ((k : ℕ) → 2 ^ 63 ≤ k → status_of k m' ≡ status_of k m)
      → rsp_status nodes m' ≡ rsp_status nodes m
  unfolding rsp_status
  rsp_status-same [] m m' w h = refl
  rsp_status-same (node ∷ nodes) m m' w h = rsp_status_from-same node nodes m m' (w.0) w.1 h
