-- ===== src/Generation/Links.antt =====
-- The links that `genLltcRrSubgraph` (model/lltc/lltc-resilient-routes-subgraph.cpp, ndnSIM/ns-3/src/ndnSIM)
-- makes: how they are named, and the graph and the routes that it can read.
use Prim.Native.Nat.{bit_and}
use drtp.Base.{
  ℕ, suc, ◌+◌, ◌-◌, ◌^◌, ◌≤◌, ◌<◌, ◌≡◌, ap, ◌∙◌, true, false, some, List, [], ◌∷◌, arith, ◌==◌,
}
use drtp.Base.Bits.{bit_and-below, bit_and-above}
use drtp.Base.Seqs.{All, length, Distinct}
use drtp.Preferred.Ratios.{most_nodes, IsRatio}
use drtp.Graph.{LltcLink, LltcGraph, get_link_by_node_ids, get_link_succ_ratio}
use drtp.Subgraph.{rsg_get_link_id, rsg_vir_link_id_null, rsg_prim_path_link_id_mark}
use drtp.Subgraph.LinkId.{IsNodeId, rsg_get_link_id_names}
use drtp.Preferred.{Double, RsgVirLink, vir_link_id_of, is_marked}
use drtp.Preferred.Arrays.{nth}
use drtp.Generation.{RedundantSubPath, ResilientRoutes, Logs, rsps_or_none, prim_link, rsp_link}

marked : (id : ℕ) → 2 ^ 63 ≤ id → id < 2 ^ 64 → is_marked id ≡ true
unfolding is_marked
marked id h g =
    let parts : id ≡ id - 2 ^ 63 + 2 ^ 63 = omega (arith, h) in
    let mark = bit_and-above 63 (id - 2 ^ 63) (omega (arith, h, g)) in
    let same : bit_and rsg_prim_path_link_id_mark id ≡ rsg_prim_path_link_id_mark =
      ap (λ z. bit_and rsg_prim_path_link_id_mark z) parts ∙ mark in
    ground (arith, same)

not_marked : (id : ℕ) → id < 2 ^ 63 → is_marked id ≡ false
unfolding is_marked
not_marked id h = ground (arith, bit_and-below 63 id h)

module _ {W : Type 0} (fl : Double W) (lg : Logs W) where
  -- A ratio of at most one, and a number that shows whether the link is on the primary path.
  abbrev pub IsFine : RsgVirLink W → Type 0
  IsFine l =
      (IsRatio fl l.succ_ratio_in_log)
      × (is_marked (vir_link_id_of fl l) ≡ l.is_on_prim_path)
      × ((vir_link_id_of fl l == rsg_vir_link_id_null) ≡ false)

  pub prim_link-IsFine :
      (path prev id : ℕ) (link : LltcLink W)
      → IsNodeId prev
      → IsNodeId id
      → IsRatio fl (get_link_succ_ratio lg.minus_one link prev id true)
      → IsFine (prim_link lg path prev id link)
  unfolding prim_link vir_link_id_of
  prim_link-IsFine path prev id link p q top =
      let names = rsg_get_link_id_names prev id prev id p q p q in
      (
        top,
        marked (rsg_get_link_id prev id) (names.1) (omega (arith, names.2)),
        ground (arith, names.2),
      )

  pub rsp_link-IsFine :
      (rsp : RedundantSubPath W) (ingress egress : ℕ)
      → rsp.path.path_id < 2 ^ 32
      → IsRatio fl (lg.log rsp.one_way_data_delivery_loss_rate)
      → IsFine (rsp_link lg rsp ingress egress)
  unfolding rsp_link vir_link_id_of
  rsp_link-IsFine rsp ingress egress h top =
      (top, not_marked rsp.path.path_id (omega (arith, h)), ground (arith, h))

  -- The graph has a link, with a ratio of at most one, to each node of the path from the one before.
  abbrev pub IsLinked : LltcGraph W → ℕ → List ℕ → Type 0
  IsLinked g prev [] = IsNodeId prev
  IsLinked g prev (id ∷ ids) =
      IsNodeId prev
      × ((link : LltcLink W) × (get_link_by_node_ids g prev id ≡ some (some link))
          × (IsRatio fl (get_link_succ_ratio lg.minus_one link prev id true)))
      × IsLinked g id ids

  -- A sub-path to the node at place `i` of the primary path: it leaves from a node before, its two ends
  -- are at their places in its vector, and its loss rate is at most one.
  abbrev pub IsSubPath : List ℕ → ℕ → RedundantSubPath W → Type 0
  IsSubPath ids i rsp =
      ((ingress : ℕ) × (nth rsp.retrans_dst_node_idx rsp.path.node_ids ≡ some ingress)
        × ((j : ℕ) × (j < i) × (nth j ids ≡ some ingress)))
      × ((egress : ℕ) × (nth rsp.retrans_source_node_idx rsp.path.node_ids ≡ some egress))
      × (rsp.path.path_id < 2 ^ 32)
      × (IsRatio fl (lg.log rsp.one_way_data_delivery_loss_rate))

  abbrev pub HaveSubPaths : ResilientRoutes W → List ℕ → ℕ → List ℕ → Type 0
  HaveSubPaths rr ids i [] = Unit {0}
  HaveSubPaths rr ids i (id ∷ rest) =
      All (IsSubPath ids i) (rsps_or_none (rr.get_rsps_by_node_id id))
      × HaveSubPaths rr ids (suc i) rest

  -- Routes that belong to a graph: the primary path has nodes of its own.
  pub record AreRoutes (rr : ResilientRoutes W) (g : LltcGraph W) : Type 0 where
    pub source : ℕ
    pub ids : List ℕ
    pub path : rr.primary_path.node_ids ≡ source ∷ ids
    pub distinct : Distinct (source ∷ ids)
    pub few : length (source ∷ ids) ≤ most_nodes
    pub linked : IsLinked g source ids
    pub subs : HaveSubPaths rr (source ∷ ids) 1 ids
