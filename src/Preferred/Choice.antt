-- ===== src/Preferred/Choice.antt =====
-- The paths that `rsgComputePreferredPathID` (model/lltc/lltc-resilient-routes-subgraph.cpp) returns.
use drtp.Base.{
  ℕ, zero, suc, ◌+◌, ◌<◌, ◌≡◌, refl, sym, ap, ◌∙◌, ◌⊎◌, inl, inr, Bool, true, false, some, List, [],
  ◌∷◌, arith, ◌==◌, Bool-cases, if◌then◌else◌, ◌>>=◌,
}
use drtp.Base.Seqs.{All, length, elem}
use drtp.Fs.{uint_max}
use drtp.Subgraph.{status_of}
use drtp.Preferred.{
  Double, RsgVirLink, RsgNode, Rsg, RsgPrevNodeInfo, Search, info_of, rsg_get_sub_graph_node_by_id,
  vir_link_id_of, start,
}
use drtp.Preferred.Ratios.{IsDouble}
use drtp.Preferred.Invariant.{HasLive, IsFrom, IsChained, IsSearch}
use drtp.Subgraph.{rsg_vir_link_id_null}
use drtp.Preferred.{
  PreferredLink, components, walk_back, is_marked, path_of_link, rsg_compute_preferred_path_id,
}
use drtp.Preferred.Searching.{IsRsg, search-Goes}
use drtp.Preferred.Starting.{start-IsSearch}

abbrev pub Any {ℓ} : {A : Type ℓ} → (A → Type 0) → List A → Type 0
Any P [] = ⊥
Any P (x ∷ xs) = P x ⊎ Any P xs

module _ {W : Type 0} (fl : Double W) (rsg : Rsg W) where
  abbrev states : List (ℕ × ℕ)
  states = rsg.states.link_status_map

  -- A link of the node that has not failed as a link, and belongs to this path.
  abbrev pub IsUsable : ℕ → RsgVirLink W → Type 0
  IsUsable path l =
      ((status_of l.link_id rsg.states.link_status_map == 1) ≡ false)
      × (path ≡ (if l.is_on_prim_path then rsg.prim_path_id else l.path_id))

  abbrev pub LeadsAway : ℕ → ℕ → Type 0
  LeadsAway local path =
      (node : RsgNode W) × (rsg_get_sub_graph_node_by_id fl local rsg.nodes ≡ some node)
      × Any (IsUsable path) node.egress_vir_links

  abbrev pub LeadsTo : ℕ → ℕ → Type 0
  LeadsTo local path =
      (id : ℕ) × (node : RsgNode W) × (rsg_get_sub_graph_node_by_id fl id rsg.nodes ≡ some node)
      × Any (λ (l : RsgVirLink W). IsUsable path l × (l.node_egress ≡ local)) node.egress_vir_links

  -- The number by which a link is remembered shows whether it is on the primary path, and is not that
  -- of no link.
  abbrev pub IsNamed : RsgVirLink W → Type 0
  IsNamed l =
      (is_marked (vir_link_id_of fl l) ≡ l.is_on_prim_path)
      × ((vir_link_id_of fl l == rsg_vir_link_id_null) ≡ false)

  abbrev pub AreNamed : List (RsgNode W) → Type 0
  AreNamed nodes = All (λ (node : RsgNode W). All IsNamed node.egress_vir_links) nodes

  IsNamed-in :
      (id : ℕ) (nodes : List (RsgNode W)) (node : RsgNode W)
      → AreNamed nodes
      → rsg_get_sub_graph_node_by_id fl id nodes ≡ some node
      → All IsNamed node.egress_vir_links
  unfolding rsg_get_sub_graph_node_by_id
  IsNamed-in id [] node t e = absurd (let g : ⊥ = cc in g)
  IsNamed-in id (n ∷ nodes) node (t, ts) e = elim (Bool-cases (n.node_id == id)) [
    | inl f ↦ let e' : some n ≡ some node = rw f at e in let same : node ≡ n = cc in rw same t
    | inr f ↦ IsNamed-in id nodes node ts (rw f at e)
  ]

  -- The path of a remembered link.
  path_named :
      (l : RsgVirLink W)
      → IsNamed l
      → path_of_link rsg.prim_path_id (vir_link_id_of fl l)
        ≡ (if l.is_on_prim_path then rsg.prim_path_id else l.path_id)
  unfolding path_of_link
  path_named l (mark, other) = rw (other, mark) (unfold vir_link_id_of in ground arith)

  live-IsUsable :
      (local vid : ℕ) (ls : List (RsgVirLink W))
      → All IsNamed ls
      → HasLive fl states local vid ls
      → Any
          (λ (l : RsgVirLink W).
            IsUsable (path_of_link rsg.prim_path_id vid) l × (l.node_egress ≡ local))
          ls
  live-IsUsable local vid [] n h = elim h [ ]
  live-IsUsable local vid (l ∷ ls) (n, ns) (inl (live, to, e)) =
      inl ((live, ap (path_of_link rsg.prim_path_id) e ∙ path_named l n), to)
  live-IsUsable local vid (l ∷ ls) (n, ns) (inr h) = inr (live-IsUsable local vid ls ns h)

  forget_end :
      (path local : ℕ) (ls : List (RsgVirLink W))
      → Any (λ (l : RsgVirLink W). IsUsable path l × (l.node_egress ≡ local)) ls
      → Any (IsUsable path) ls
  forget_end path local [] h = elim h [ ]
  forget_end path local (l ∷ ls) (inl (p, q)) = inl p
  forget_end path local (l ∷ ls) (inr h) = inr (forget_end path local ls h)

  IsResult : ℕ → ℕ × ℕ → Type 0
  IsResult local r =
      ((r.0 ≡ rsg_vir_link_id_null)
        ⊎ ((node : RsgNode W) × (id : ℕ) × (rsg_get_sub_graph_node_by_id fl local rsg.nodes
              ≡ some node)
            × HasLive fl states id (r.0) node.egress_vir_links))
      × ((r.1 ≡ rsg_vir_link_id_null)
          ⊎ ((node : RsgNode W) × (id : ℕ) × (rsg_get_sub_graph_node_by_id fl id rsg.nodes
                ≡ some node)
              × HasLive fl states local (r.1) node.egress_vir_links))

  -- A node that was taken out, and what was taken out before.
  taken_before :
      (m : List (ℕ × RsgPrevNodeInfo)) (id : ℕ) (order : List ℕ)
      → IsChained fl rsg m order
      → elem id order ≡ true
      → (older : List ℕ) × (length older < length order)
        × IsFrom fl rsg older id (info_of m id)
        × IsChained fl rsg m older
  unfolding elem
  taken_before m id [] c e = absurd (let g : ⊥ = cc in g)
  taken_before m id (w ∷ older) (c, cs) e = elim (Bool-cases (w == id)) [
    | inl f ↦ let same : id ≡ w = ground arith in (older, omega arith, (rw same c), cs)
    | inr f ↦
        let (older', less, c', cs') = taken_before m id older cs (ground (arith, e, f)) in
        (older', omega (arith, less), c', cs')
  ]

  up_link :
      (m : List (ℕ × RsgPrevNodeInfo)) (local : ℕ) (order : List ℕ)
      → IsFrom fl rsg order local (info_of m local)
      → (b : Bool) → ((info_of m local).node_id == uint_max) ≡ b
      → let up = (if b then rsg_vir_link_id_null else (info_of m local).vir_link_id) in
        (up ≡ rsg_vir_link_id_null)
        ⊎ ((node : RsgNode W) × (id : ℕ) × (rsg_get_sub_graph_node_by_id fl id rsg.nodes
              ≡ some node)
            × HasLive fl states local up node.egress_vir_links)
  up_link m local order h true e = inl refl
  up_link m local order (inl f) false e = absurd (ground (arith, e, f))
  up_link m local order (inr (_, node, found, live)) false e =
      inr (node, (info_of m local).node_id, found, live)

  arrived :
      (m : List (ℕ × RsgPrevNodeInfo)) (id local : ℕ) (order : List ℕ)
      → id ≡ local
      → IsChained fl rsg m order
      → elem id order ≡ true
      → let up =
          (if (info_of m id).node_id == uint_max
            then rsg_vir_link_id_null
            else (info_of m id).vir_link_id) in
        (up ≡ rsg_vir_link_id_null)
        ⊎ ((node : RsgNode W) × (id' : ℕ) × (rsg_get_sub_graph_node_by_id fl id' rsg.nodes
              ≡ some node)
            × HasLive fl states local up node.egress_vir_links)
  arrived m id local order e c h =
      let (older, less, from, c') = taken_before m local order c (rw (sym e) h) in
      rw e (up_link m local older from ((info_of m local).node_id == uint_max) refl)

  walk_back-IsResult :
      (fuel local : ℕ) (m : List (ℕ × RsgPrevNodeInfo)) (prev : ℕ) (order : List ℕ)
      → (local == uint_max) ≡ false
      → IsFrom fl rsg order prev (info_of m prev)
      → IsChained fl rsg m order
      → length order < fuel
      → (r : ℕ × ℕ) × (walk_back fuel m local prev ≡ some r) × IsResult local r
  unfolding walk_back IsResult
  walk_back-IsResult zero local m prev order real from c h = absurd (omega (arith, h))
  walk_back-IsResult (suc fuel) local m prev order real (inl none_before) c h =
      let e : ((info_of m prev).node_id == local) ≡ false = ground (arith, none_before, real) in
      let f : ((info_of m prev).node_id == uint_max) ≡ true = ground (arith, none_before) in
      (
        (rsg_vir_link_id_null, rsg_vir_link_id_null),
        rw (e, walk_back, f) refl,
        (inl refl, inl refl),
      )
  walk_back-IsResult (suc fuel) local m prev order real (inr (before, node, found, live)) c h =
      let (older, less, from', c') = taken_before m (info_of m prev).node_id order c before in
      let (r, returned, good) =
        walk_back-IsResult fuel local m (info_of m prev).node_id older real from' c'
          (omega (arith, less, h)) in
      elim (Bool-cases ((info_of m prev).node_id == local)) [
        | inl e ↦
            let same : (info_of m prev).node_id ≡ local = ground (arith, e) in
            let found' : rsg_get_sub_graph_node_by_id fl local rsg.nodes ≡ some node =
              ap (λ id. rsg_get_sub_graph_node_by_id fl id rsg.nodes) (sym same) ∙ found in
            (
              _,
              rw (e, walk_back) refl,
              (
                inr (node, prev, found', live),
                arrived m (info_of m prev).node_id local order same c before,
              ),
            )
        | inr e ↦ elim (Bool-cases ((info_of m prev).node_id == uint_max)) [
          | inl f ↦ (
            (rsg_vir_link_id_null, rsg_vir_link_id_null),
            rw (e, walk_back, f) refl,
            (inl refl, inl refl),
          )
          | inr f ↦ (r, rw (e, walk_back, f) returned, good)
        ]
      ]

  components_of_path :
      (states : List (ℕ × ℕ)) (nodes : List ℕ)
      → 0 < length nodes
      → (comps : List (ℕ × ℕ)) × (components states nodes ≡ some comps)
  unfolding components
  components_of_path states [] h = absurd (omega (arith, h))
  components_of_path states (node ∷ nodes) h = (_, refl)

  down_end :
      (local : ℕ)
      → AreNamed rsg.nodes
      → (r : ℕ × ℕ) → IsResult local r
      → (path_of_link rsg.prim_path_id (r.0) ≡ uint_max)
        ⊎ LeadsAway local (path_of_link rsg.prim_path_id (r.0))
  unfolding IsResult
  down_end local names r (inl e, up) = inl (unfold path_of_link in rw e refl)
  down_end local names r (inr (node, id, found, live), up) = inr (
    node,
    found,
    forget_end (path_of_link rsg.prim_path_id (r.0)) id node.egress_vir_links (
        live-IsUsable id (r.0) node.egress_vir_links (IsNamed-in local rsg.nodes node names found)
          live),
  )

  up_end :
      (local : ℕ)
      → AreNamed rsg.nodes
      → (r : ℕ × ℕ) → IsResult local r
      → (path_of_link rsg.prim_path_id (r.1) ≡ uint_max)
        ⊎ LeadsTo local (path_of_link rsg.prim_path_id (r.1))
  unfolding IsResult
  up_end local names r (down, inl e) = inl (unfold path_of_link in rw e refl)
  up_end local names r (down, inr (node, id, found, live)) = inr (
    id,
    node,
    found,
    live-IsUsable local (r.1) node.egress_vir_links (IsNamed-in id rsg.nodes node names found) live,
  )

-- On a well-formed subgraph of at most 512 nodes, with a `double` with the laws of IsDouble and a local
-- node other than UINT_MAX, `rsgComputePreferredPathID` returns: the search, each update of the heap
-- and the walk back come to their end, with no null pointer on the way. The downstream path is none,
-- or one of a link from the local node that has not failed as a link; the upstream path is none, or one
-- of a link to the local node that has not.
pub rsg_compute_preferred_path_id-Returns :
    {W : Type 0} (fl : Double W) (rsg : Rsg W) (local : ℕ)
    → IsDouble fl
    → IsRsg fl rsg
    → AreNamed fl rsg rsg.nodes
    → (local == uint_max) ≡ false
    → (pl : PreferredLink) × (rsg_compute_preferred_path_id fl rsg local ≡ some pl)
      × ((pl.down_link_id ≡ uint_max) ⊎ LeadsAway fl rsg local pl.down_link_id)
      × ((pl.up_link_id ≡ uint_max) ⊎ LeadsTo fl rsg local pl.up_link_id)
unfolding rsg_compute_preferred_path_id
rsg_compute_preferred_path_id-Returns fl rsg local laws w names real =
    let (comps, components_) =
      components_of_path fl rsg rsg.states.link_status_map
        rsg.states.rsg_compacted_rr.prim_path.node_ids w.path in
    let (i, size) = start-IsSearch fl laws rsg w in
    let (s, order, searched, i', taken) =
      search-Goes fl laws rsg (length rsg.nodes) [] comps (start fl rsg) w i size
        (omega (arith, w.few)) in
    let (r, walked, good) = from_end s order i' taken (Bool-cases (elem rsg.dst_node_id order)) in
    (
      record {
        down_link_id = path_of_link rsg.prim_path_id (r.0);
        up_link_id = path_of_link rsg.prim_path_id (r.1);
      },
      rw (components_, ◌>>=◌, searched, walked) refl,
      down_end fl rsg local names r good,
      up_end fl rsg local names r good,
    )
  where
    from_end :
        (s : Search _) (order : List ℕ)
        → IsSearch fl rsg order s
        → length order ≡ length {A = ℕ} [] + length rsg.nodes
        → (elem rsg.dst_node_id order ≡ true) ⊎ (elem rsg.dst_node_id order ≡ false)
        → (r : ℕ × ℕ) × (walk_back (length rsg.nodes + 1) s.rr_node_info local rsg.dst_node_id
            ≡ some r)
          × IsResult fl rsg local r
    from_end s order i taken (inl e) =
        let (older, less, from, c) =
          taken_before fl rsg s.rr_node_info rsg.dst_node_id order i.chained e in
        walk_back-IsResult fl rsg (length rsg.nodes + 1) local s.rr_node_info rsg.dst_node_id older
          real from c (omega (arith, less, taken))
    from_end s order i taken (inr e) =
        walk_back-IsResult fl rsg (length rsg.nodes + 1) local s.rr_node_info rsg.dst_node_id order
          real (i.behind rsg.dst_node_id w.ends e) i.chained (omega (arith, taken))
