-- ===== src/Generation/WellFormed.antt =====
-- The subgraph that `genLltcRrSubgraph` (model/lltc/lltc-resilient-routes-subgraph.cpp, ndnSIM/ns-3/src/ndnSIM)
-- builds.
use drtp.Base.{
  ℕ, zero, suc, ◌+◌, ◌<◌, ◌≡◌, refl, ap, ◌∙◌, true, some, List, [], ◌∷◌, ◌++◌, arith, ◌==◌,
  Bool-cases, inl, inr,
}
use drtp.Base.Seqs.{All, length, elem}
use drtp.Base.Maps.{assign, find-assign}
use drtp.Subgraph.{status_of, rsg_get_link_id}
use drtp.Subgraph.LinkId.{IsNodeId}
use drtp.Graph.{LltcGraph}
use drtp.Preferred.{Double, RsgVirLink, RsgNode, node_ids_of}
use drtp.Preferred.Arrays.{nth}
use drtp.Generation.{
  RedundantSubPath, ResilientRoutes, Logs, Draft, rsps_or_none, prim_link, rsp_link, prim_nodes,
  push_ingress, push_egress, mark_links, add_rsp, add_rsps, add_all, last_from,
}
use drtp.Generation.Links.{
  IsFine, prim_link-IsFine, rsp_link-IsFine, IsLinked, IsSubPath, HaveSubPaths,
}

-- No status is a failure.
abbrev pub AreNormal : List (ℕ × ℕ) → Type 0
AreNormal m = (k : ℕ) → status_of k m ≡ 0

assign-AreNormal : (k : ℕ) (m : List (ℕ × ℕ)) → AreNormal m → AreNormal (assign k 0 m)
unfolding status_of
assign-AreNormal k m n j = elim (Bool-cases (k == j)) [
  | inl e ↦ rw (find-assign k j 0 m, e) refl
  | inr e ↦ rw (find-assign k j 0 m, e) (n j)
]

module _ {W : Type 0} (fl : Double W) (lg : Logs W) where
  abbrev pub AreFine : List (RsgNode W) → Type 0
  AreFine nodes = All (λ (node : RsgNode W). All (IsFine fl lg) node.egress_vir_links) nodes

  -- Nodes with these IDs, whose links are fine.
  abbrev pub AreNodes : List ℕ → List (RsgNode W) → Type 0
  AreNodes ids nodes = (node_ids_of fl nodes ≡ ids) × AreFine nodes

  -- What is built so far: no link has failed.
  abbrev pub IsDraft : List ℕ → Draft W → Type 0
  IsDraft ids d = AreNodes ids d.nodes × AreNormal d.link_status_map

  All-snoc :
      (l : RsgVirLink W) (ls : List (RsgVirLink W))
      → All (IsFine fl lg) ls
      → IsFine fl lg l
      → All (IsFine fl lg) (ls ++ l ∷ [])
  All-snoc l [] a f = (f, tt)
  All-snoc l (k ∷ ls) (a, more) f = (a, All-snoc l ls more f)

  pub prim_nodes-IsDraft :
      (g : LltcGraph W) (path prev : ℕ) (ids : List ℕ) (m : List (ℕ × ℕ))
      → IsLinked fl lg g prev ids
      → AreNormal m
      → (d : Draft W) × (prim_nodes lg g path prev ids m ≡ some d) × IsDraft (prev ∷ ids) d
  unfolding prim_nodes node_ids_of
  prim_nodes-IsDraft g path prev [] m here n = (
    record {
      nodes = (record { node_id = prev; egress_vir_links = []; ingress_vir_links = [] }) ∷ [];
      links = [];
      link_status_map = m;
    },
    refl,
    ((refl, (tt, tt)), n),
  )
  prim_nodes-IsDraft g path prev (id ∷ ids) m (here, (link, found, top), rest) n =
      let l = prim_link lg path prev id link in
      let (d, made, ((named, fine), normal)) =
        prim_nodes-IsDraft g path id ids (assign l.link_id 0 m) rest
          (assign-AreNormal l.link_id m n) in
      let f = prim_link-IsFine fl lg path prev id link here (first_IsNodeId id ids rest) top in
      (
        record {
          nodes =
              (record { node_id = prev; egress_vir_links = l ∷ []; ingress_vir_links = [] })
              ∷ d.nodes;
          links = l ∷ d.links;
          link_status_map = d.link_status_map;
        },
        rw (found, made) refl,
        ((ap (λ z. prev ∷ z) named, ((f, tt), fine)), normal),
      )
    where
      first_IsNodeId : (a : ℕ) (bs : List ℕ) → IsLinked fl lg g a bs → IsNodeId a
      first_IsNodeId a [] h = h
      first_IsNodeId a (b ∷ bs) h = h.0

  push_ingress-AreNodes :
      (i : ℕ) (l : RsgVirLink W) (nodes : List (RsgNode W))
      → i < length (node_ids_of fl nodes)
      → AreFine nodes
      → (ns : List (RsgNode W)) × (push_ingress lg i l nodes ≡ some ns)
        × AreNodes (node_ids_of fl nodes) ns
  unfolding push_ingress node_ids_of
  push_ingress-AreNodes i l [] h a = absurd (omega (arith, h))
  push_ingress-AreNodes zero l (node ∷ nodes) h a = (
    record node { ingress_vir_links = node.ingress_vir_links ++ l ∷ [] } ∷ nodes,
    refl,
    (refl, a),
  )
  push_ingress-AreNodes (suc i) l (node ∷ nodes) h (f, a) =
      let (ns, e, (named, fine)) = push_ingress-AreNodes i l nodes (omega (arith, h)) a in
      (node ∷ ns, rw e refl, (ap (λ z. node.node_id ∷ z) named, (f, fine)))

  push_egress-AreNodes :
      (i j : ℕ) (l : RsgVirLink W) (nodes : List (RsgNode W)) (id : ℕ)
      → IsFine fl lg l
      → j < i
      → nth j (node_ids_of fl nodes) ≡ some id
      → AreFine nodes
      → (ns : List (RsgNode W)) × (push_egress lg i id l nodes ≡ some ns)
        × AreNodes (node_ids_of fl nodes) ns
  unfolding push_egress node_ids_of nth
  push_egress-AreNodes zero j l nodes id f h at a = absurd (omega (arith, h))
  push_egress-AreNodes (suc i) j l [] id f h at a = absurd (let g : ⊥ = cc in g)
  push_egress-AreNodes (suc i) zero l (node ∷ nodes) id f h at (n, a) =
      let same : node.node_id ≡ id = cc in
      let e : (node.node_id == id) ≡ true = ground (arith, same) in
      (
        record node { egress_vir_links = node.egress_vir_links ++ l ∷ [] } ∷ nodes,
        rw e refl,
        (refl, (All-snoc l node.egress_vir_links n f, a)),
      )
  push_egress-AreNodes (suc i) (suc j) l (node ∷ nodes) id f h at (n, a) =
      let (ns, made, (named, fine)) =
        push_egress-AreNodes i j l nodes id f (omega (arith, h)) at a in
      elim (Bool-cases (node.node_id == id)) [
        | inl e ↦ (
          record node { egress_vir_links = node.egress_vir_links ++ l ∷ [] } ∷ nodes,
          rw e refl,
          (refl, (All-snoc l node.egress_vir_links n f, a)),
        )
        | inr e ↦ (node ∷ ns, rw (e, made) refl, (ap (λ z. node.node_id ∷ z) named, (n, fine)))
      ]

  first_node :
      (k id : ℕ) (ids : List ℕ) → nth k ids ≡ some id → (first : ℕ) × (nth 0 ids ≡ some first)
  unfolding nth
  first_node k id [] e = absurd (let g : ⊥ = cc in g)
  first_node k id (x ∷ ids) e = (x, refl)

  mark_links-AreNormal :
      (first : ℕ) (ids : List ℕ) (m : List (ℕ × ℕ))
      → AreNormal m
      → AreNormal (mark_links lg first ids m)
  unfolding mark_links
  mark_links-AreNormal first [] m n = n
  mark_links-AreNormal first (id ∷ ids) m n =
      mark_links-AreNormal first ids (assign (rsg_get_link_id first id) 0 m)
        (assign-AreNormal (rsg_get_link_id first id) m n)

  add_rsp-IsDraft :
      (i : ℕ) (ids : List ℕ) (rsp : RedundantSubPath W) (d : Draft W)
      → i < length ids
      → IsSubPath fl lg ids i rsp
      → IsDraft ids d
      → (d' : Draft W) × (add_rsp lg i rsp d ≡ some d') × IsDraft ids d'
  unfolding add_rsp
  add_rsp-IsDraft i ids rsp d h ((ingress, at, (j, before, on_path)), (egress, to), small, top)
        ((named, fine), n) =
      let l = rsp_link lg rsp ingress egress in
      let f = rsp_link-IsFine fl lg rsp ingress egress small top in
      let (received, taken, (r_named, r_fine)) =
        push_ingress-AreNodes i l d.nodes (rw named h) fine in
      let (sent, given, (s_named, s_fine)) =
        push_egress-AreNodes i j l received ingress f before (rw (r_named ∙ named) on_path)
          r_fine in
      let (first, start) = first_node rsp.retrans_dst_node_idx ingress rsp.path.node_ids at in
      (
        record {
          nodes = sent;
          links = d.links ++ l ∷ [];
          link_status_map =
              assign rsp.path.path_id 0 (mark_links lg first rsp.path.node_ids d.link_status_map);
        },
        rw (at, to, taken, given, start) refl,
        (
          (s_named ∙ (r_named ∙ named), s_fine),
          assign-AreNormal rsp.path.path_id
              (mark_links lg first rsp.path.node_ids d.link_status_map)
              (mark_links-AreNormal first rsp.path.node_ids d.link_status_map n),
        ),
      )

  add_rsps-IsDraft :
      (i : ℕ) (ids : List ℕ) (rsps : List (RedundantSubPath W)) (d : Draft W)
      → i < length ids
      → All (IsSubPath fl lg ids i) rsps
      → IsDraft ids d
      → (d' : Draft W) × (add_rsps lg i rsps d ≡ some d') × IsDraft ids d'
  unfolding add_rsps
  add_rsps-IsDraft i ids [] d h subs a = (d, refl, a)
  add_rsps-IsDraft i ids (rsp ∷ rsps) d h (sub, subs) a =
      let (d', made, a') = add_rsp-IsDraft i ids rsp d h sub a in
      let (d'', rest, a'') = add_rsps-IsDraft i ids rsps d' h subs a' in
      (d'', rw (made, rest) refl, a'')

  pub add_all-IsDraft :
      (rr : ResilientRoutes W) (ids : List ℕ) (i : ℕ) (rest : List ℕ) (d : Draft W)
      → i + length rest ≡ length ids
      → HaveSubPaths fl lg rr ids i rest
      → IsDraft ids d
      → (d' : Draft W) × (add_all lg rr i rest d ≡ some d') × IsDraft ids d'
  unfolding add_all
  add_all-IsDraft rr ids i [] d h subs a = (d, refl, a)
  add_all-IsDraft rr ids i (id ∷ rest) d h (here, subs) a =
      let (d', made, a') =
        add_rsps-IsDraft i ids (rsps_or_none (rr.get_rsps_by_node_id id)) d (omega (arith, h)) here
          a in
      let (d'', more, a'') = add_all-IsDraft rr ids (suc i) rest d' (omega (arith, h)) subs a' in
      (d'', rw (made, more) refl, a'')

  pub elem-last_from : (id : ℕ) (ids : List ℕ) → elem (last_from lg id ids) (id ∷ ids) ≡ true
  unfolding elem last_from
  elem-last_from id [] = ground arith
  elem-last_from id (next ∷ ids) = ground (arith, elem-last_from next ids)
