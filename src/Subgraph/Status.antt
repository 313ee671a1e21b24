-- ===== src/Subgraph/Status.antt =====
-- What `rsgUpdateLinkStatus` (model/lltc/lltc-resilient-routes-subgraph.cpp) leaves in
-- `linkStatusMap`.
pub mod Steps
pub mod Verdict
use drtp.Base.{ℕ, ◌<◌, ◌≡◌, ◌⊎◌, ◌&&◌, ◌||◌, List, [], ◌∷◌, ◌++◌, ◌==◌, if◌then◌else◌}
use drtp.Base.Maps.{assign}
use drtp.Subgraph.{
  RsgPathCompact, RsgStruct, rsg_vir_link_id_null, rsg_search_vir_link, status_of, rsps_of,
  after_first,
}
use drtp.Subgraph.Status.Verdict.{FailedLink, Tells}
use drtp.Subgraph.LinkId.{IsNodeId}

module _ (a b status : ℕ) (p : IsNodeId a) (q : IsNodeId b) where
  -- The sub-path does not have the link, or it has failed if and only if one of its links has.
  abbrev pub IsUpToDate : List (ℕ × ℕ) → RsgPathCompact → Type 0
  IsUpToDate m rsp =
      (rsg_search_vir_link rsp.node_ids a b ≡ rsg_vir_link_id_null)
      ⊎ Tells (FailedLink rsp.node_ids m) (status_of rsp.path_id m)

-- The sub-paths that an update visits, in order.
unfoldable pub visited : List (ℕ × List RsgPathCompact) → List ℕ → List RsgPathCompact
visited hrsp [] = []
visited hrsp (node ∷ nodes) = rsps_of node hrsp ++ visited hrsp nodes

abbrev pub rsps_visited : RsgStruct → List RsgPathCompact
rsps_visited rsg =
    visited rsg.rsg_compacted_rr.hrsp (after_first rsg.rsg_compacted_rr.prim_path.node_ids)

-- The map from which the sub-paths are updated.
unfoldable pub with_primary : RsgStruct → ℕ → ℕ → ℕ → List (ℕ × ℕ)
with_primary rsg a b status =
    if rsg_search_vir_link rsg.rsg_compacted_rr.prim_path.node_ids a b == rsg_vir_link_id_null
    then rsg.link_status_map
    else assign (rsg_search_vir_link rsg.rsg_compacted_rr.prim_path.node_ids a b) status
        rsg.link_status_map
