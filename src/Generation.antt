-- ===== src/Generation.antt =====
-- `genLltcRrSubgraph` of model/lltc/lltc-resilient-routes-subgraph.cpp, with the routes that it reads
-- (lltc-resilient-routes-generation.hpp, ndnSIM/ns-3/src/ndnSIM): the subgraph of a primary path and of
-- the redundant sub-paths to its nodes. `none` as a result is a fault: an index outside a vector, or a
-- null pointer.
pub mod Links
pub mod Searchable
pub mod WellFormed
use drtp.Base.{
  ℕ, zero, suc, ◌+◌, ◌%◌, ◌^◌, true, false, Option, none, some, List, [], ◌∷◌, ◌++◌, ◌==◌,
  if◌then◌else◌, ◌>>=◌,
}
use drtp.Base.Int.{pos}
use drtp.Base.Maps.{find, assign}
use drtp.Graph.{
  LltcLink, LltcGraph, get_link_by_node_ids, get_link_delay_total, get_link_succ_ratio,
}
use drtp.Subgraph.{RsgPathCompact, rsg_get_link_id}
use drtp.Preferred.{RsgVirLink, RsgNode, Rsg}
use drtp.Preferred.Arrays.{nth}

-- `Path`.
pub record RoutePath : Type 0 where
  pub node_ids : List ℕ
  pub path_id : ℕ

-- The fields that the subgraph takes over.
pub record RedundantSubPath (W : Type 0) : Type 0 where
  pub path : RoutePath
  pub retrans_source_node_idx : ℕ
  pub retrans_dst_node_idx : ℕ
  pub link_down_delay : ℕ
  pub one_way_data_delivery_loss_rate : W

pub record ResilientRoutes (W : Type 0) : Type 0 where
  pub primary_path : RoutePath
  -- the member function, whose definition is not among the files of the repository
  pub get_rsps_by_node_id : ℕ → Option (List (RedundantSubPath W))

-- `log` and `-1.0`.
pub record Logs (W : Type 0) : Type 0 where
  pub log : W → W
  pub minus_one : W

-- The vectors and the map of the subgraph while it is built.
pub record Draft (W : Type 0) : Type 0 where
  pub nodes : List (RsgNode W)
  pub links : List (RsgVirLink W)
  pub link_status_map : List (ℕ × ℕ)

abbrev pub rsps_or_none : {A : Type 0} → Option (List A) → List A
rsps_or_none none = []
rsps_or_none (some rsps) = rsps

-- A null pointer is a fault as well.
abbrev pub or_fault : {A : Type 0} → Option (Option A) → Option A
or_fault none = none
or_fault (some o) = o

module _ {W : Type 0} (lg : Logs W) where
  unfoldable pub prim_link : ℕ → ℕ → ℕ → LltcLink W → RsgVirLink W
  prim_link path prev id link = record {
    is_on_prim_path = true;
    link_id = rsg_get_link_id prev id;
    path_id = path;
    node_ingress = prev;
    node_egress = id;
    succ_ratio_in_log = get_link_succ_ratio lg.minus_one link prev id true;
    delay = get_link_delay_total link prev id;
  }

  -- The loop over the primary path, from its node `prev`.
  unfoldable pub prim_nodes : LltcGraph W → ℕ → ℕ → List ℕ → List (ℕ × ℕ) → Option (Draft W)
  prim_nodes g path prev [] m = some (record {
    nodes = (record { node_id = prev; egress_vir_links = []; ingress_vir_links = [] }) ∷ [];
    links = [];
    link_status_map = m;
  })
  prim_nodes g path prev (id ∷ ids) m = or_fault (get_link_by_node_ids g prev id) >>= λ link.
      let l = prim_link path prev id link in
      prim_nodes g path id ids (assign l.link_id 0 m) >>= λ d. some (record {
        nodes =
            (record { node_id = prev; egress_vir_links = l ∷ []; ingress_vir_links = [] })
            ∷ d.nodes;
        links = l ∷ d.links;
        link_status_map = d.link_status_map;
      })

  unfoldable pub rsp_link : RedundantSubPath W → ℕ → ℕ → RsgVirLink W
  rsp_link rsp ingress egress = record {
    is_on_prim_path = false;
    link_id = 0;
    path_id = rsp.path.path_id;
    node_ingress = ingress;
    node_egress = egress;
    succ_ratio_in_log = lg.log rsp.one_way_data_delivery_loss_rate;
    delay = pos rsp.link_down_delay;
  }

  -- `rsg->nodes[i]->ingressVirLinks.push_back`.
  unfoldable pub push_ingress : ℕ → RsgVirLink W → List (RsgNode W) → Option (List (RsgNode W))
  push_ingress i l [] = none
  push_ingress zero l (node ∷ nodes) =
      some (record node { ingress_vir_links = node.ingress_vir_links ++ l ∷ [] } ∷ nodes)
  push_ingress (suc i) l (node ∷ nodes) = push_ingress i l nodes >>= λ ns. some (node ∷ ns)

  -- The node of an ID before node `i`, with the link pushed to its `egressVirLinks`.
  unfoldable pub push_egress : ℕ → ℕ → RsgVirLink W → List (RsgNode W) → Option (List (RsgNode W))
  push_egress zero id l nodes = none
  push_egress (suc i) id l [] = none
  push_egress (suc i) id l (node ∷ nodes) =
      if node.node_id == id
      then some (record node { egress_vir_links = node.egress_vir_links ++ l ∷ [] } ∷ nodes)
      else (push_egress i id l nodes >>= λ ns. some (node ∷ ns))

  -- `rspNodeID_prev` stays the first node.
  unfoldable pub mark_links : ℕ → List ℕ → List (ℕ × ℕ) → List (ℕ × ℕ)
  mark_links first [] m = m
  mark_links first (id ∷ ids) m = mark_links first ids (assign (rsg_get_link_id first id) 0 m)

  -- The body of the loop over the sub-paths to node `i`.
  unfoldable pub add_rsp : ℕ → RedundantSubPath W → Draft W → Option (Draft W)
  unfolding rsp_link
  add_rsp i rsp d = nth rsp.retrans_dst_node_idx rsp.path.node_ids >>= λ ingress.
      nth rsp.retrans_source_node_idx rsp.path.node_ids >>= λ egress.
      let l = rsp_link rsp ingress egress in
      push_ingress i l d.nodes >>= λ received. push_egress i ingress l received >>= λ sent.
      nth 0 rsp.path.node_ids >>= λ first. some (record {
        nodes = sent;
        links = d.links ++ l ∷ [];
        link_status_map =
            assign rsp.path.path_id 0 (mark_links first rsp.path.node_ids d.link_status_map);
      })

  unfoldable pub add_rsps : ℕ → List (RedundantSubPath W) → Draft W → Option (Draft W)
  unfolding add_rsp
  add_rsps i [] d = some d
  add_rsps i (rsp ∷ rsps) d = add_rsp i rsp d >>= λ d'. add_rsps i rsps d'

  -- The loop over the nodes of the primary path from node `i`.
  unfoldable pub add_all : ResilientRoutes W → ℕ → List ℕ → Draft W → Option (Draft W)
  unfolding add_rsps
  add_all rr i [] d = some d
  add_all rr i (id ∷ ids) d =
      add_rsps i (rsps_or_none (rr.get_rsps_by_node_id id)) d >>= λ d'. add_all rr (suc i) ids d'

  unfoldable pub compact : List (RedundantSubPath W) → List RsgPathCompact
  compact [] = []
  compact (rsp ∷ rsps) =
      record { node_ids = rsp.path.node_ids; path_id = rsp.path.path_id } ∷ compact rsps

  unfoldable pub compact_hrsp :
      ResilientRoutes W → List ℕ → List (ℕ × List RsgPathCompact) → List (ℕ × List RsgPathCompact)
  unfolding compact
  compact_hrsp rr [] m = m
  compact_hrsp rr (id ∷ ids) m = compact_hrsp rr ids (entered (rr.get_rsps_by_node_id id))
    where
      entered : Option (List (RedundantSubPath W)) → List (ℕ × List RsgPathCompact)
      entered none = m
      entered (some rsps) = assign id (rsps_or_none (find id m) ++ compact rsps) m

  -- `(*nodeIds)[nodeIds->size() - 1]`.
  unfoldable pub last_from : ℕ → List ℕ → ℕ
  last_from id [] = id
  last_from id (next ∷ ids) = last_from next ids

  unfoldable pub gen_from : LltcGraph W → ResilientRoutes W → ℕ → ℕ → List ℕ → Option (Rsg W)
  unfolding prim_nodes add_all compact_hrsp last_from
  gen_from g rr next source ids = prim_nodes g rr.primary_path.path_id source ids [] >>= λ d.
      add_all rr 1 ids d >>= λ d'. some (record {
        rsg_id = next;
        nodes = d'.nodes;
        links = d'.links;
        src_node_id = source;
        dst_node_id = last_from source ids;
        prim_path_id = rr.primary_path.path_id;
        states = record {
          link_status_map = d'.link_status_map;
          rsg_compacted_rr = record {
            prim_path = record {
              node_ids = rr.primary_path.node_ids;
              path_id = rr.primary_path.path_id;
            };
            hrsp = compact_hrsp rr rr.primary_path.node_ids [];
          };
        };
      })

  unfoldable pub gen_of : LltcGraph W → ResilientRoutes W → ℕ → List ℕ → Option (Rsg W)
  unfolding gen_from
  gen_of g rr next [] = none
  gen_of g rr next (source ∷ ids) = gen_from g rr next source ids

  -- `genLltcRrSubgraph`, with the value of `nextRsgId`, which it advances.
  unfoldable pub gen_lltc_rr_subgraph : ResilientRoutes W → LltcGraph W → ℕ → Option (Rsg W × ℕ)
  unfolding gen_of
  gen_lltc_rr_subgraph rr g next =
      gen_of g rr next rr.primary_path.node_ids >>= λ rsg. some (rsg, (next + 1) % 2 ^ 32)
