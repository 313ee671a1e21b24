-- ===== src/Subgraph.antt =====
-- model/lltc/lltc-resilient-routes-subgraph.cpp and .hpp (ndnSIM/ns-3/src/ndnSIM): the subgraph of
-- resilient routes that each node keeps, with the state of its links. A status is 0 (normal) or 1
-- (failure). An entry that `linkStatusMap[id]` adds for a missing key is normal, which is what a
-- missing key reads as here, so that it is not added.
pub mod LinkId
pub mod Status
use Prim.Native.Nat.{bit_or}
use drtp.Base.{
  ℕ, ◌*◌, ◌%◌, ◌^◌, Bool, ◌&&◌, ◌||◌, Option, none, some, List, [], ◌∷◌, ◌==◌, ltb, if◌then◌else◌,
}
use drtp.Base.Maps.{find, assign}

pub record RsgPathCompact : Type 0 where
  pub node_ids : List ℕ
  pub path_id : ℕ

pub record RsgCompactedRr : Type 0 where
  pub prim_path : RsgPathCompact
  -- the redundant sub-paths that end at a node of the primary path
  pub hrsp : List (ℕ × List RsgPathCompact)

-- The links of the subgraph's nodes, which only the choice of the preferred path reads, are not here.
pub record RsgStruct : Type 0 where
  pub link_status_map : List (ℕ × ℕ)
  pub rsg_compacted_rr : RsgCompactedRr

-- `RSG_VIR_LINK_ID_NULL`, `UINT64_MAX`.
abbrev pub rsg_vir_link_id_null : ℕ
rsg_vir_link_id_null = 18446744073709551615

-- `RSG_PRIM_PATH_LINK_ID_MARK`.
abbrev pub rsg_prim_path_link_id_mark : ℕ
rsg_prim_path_link_id_mark = 2 ^ 63

link_id : ℕ → ℕ → ℕ
link_id a b = bit_or (bit_or (a * 2 ^ 32 % 2 ^ 64) b) rsg_prim_path_link_id_mark

-- `rsgGetLinkID`: the smaller node comes first.
unfoldable pub rsg_get_link_id : ℕ → ℕ → ℕ
unfolding link_id
rsg_get_link_id a b = if ltb b a then link_id b a else link_id a b

-- Whether two neighbouring nodes of a path are the ends of a link, in either direction.
unfoldable pub is_link : ℕ → ℕ → ℕ → ℕ → Bool
is_link a b prev node = (prev == a && node == b) || (node == a && prev == b)

-- The loop of `rsgSearchVirLink` from a node that has one before it.
unfoldable pub search_from : ℕ → ℕ → ℕ → List ℕ → ℕ
unfolding is_link
search_from a b prev [] = rsg_vir_link_id_null
search_from a b prev (node ∷ nodes) =
    if is_link a b prev node then rsg_get_link_id prev node else search_from a b node nodes

-- `rsgSearchVirLink`, whose last parameter is not used.
unfoldable pub rsg_search_vir_link : List ℕ → ℕ → ℕ → ℕ
rsg_search_vir_link [] a b = rsg_vir_link_id_null
rsg_search_vir_link (node ∷ nodes) a b = search_from a b node nodes

or_normal : Option ℕ → ℕ
or_normal none = 0
or_normal (some status) = status

-- `linkStatusMap[id]`.
unfoldable pub status_of : ℕ → List (ℕ × ℕ) → ℕ
unfolding or_normal
status_of id m = or_normal (find id m)

-- The loop over the links of a redundant sub-path: it has failed if one of them has.
unfoldable pub rsp_status_from : ℕ → List ℕ → List (ℕ × ℕ) → ℕ
rsp_status_from prev [] m = 0
rsp_status_from prev (node ∷ nodes) m =
    let rest = rsp_status_from node nodes m in
    if status_of (rsg_get_link_id prev node) m == 1 then 1 else rest

unfoldable pub rsp_status : List ℕ → List (ℕ × ℕ) → ℕ
rsp_status [] m = 0
rsp_status (node ∷ nodes) m = rsp_status_from node nodes m

-- The body of the loop over the sub-paths of a node.
unfoldable pub update_rsp : ℕ → ℕ → ℕ → RsgPathCompact → List (ℕ × ℕ) → List (ℕ × ℕ)
update_rsp a b status rsp m =
    let id = rsg_search_vir_link rsp.node_ids a b in
    if id == rsg_vir_link_id_null
    then m
    else (let m' = assign id status m in assign rsp.path_id (rsp_status rsp.node_ids m') m')

unfoldable pub update_rsps : ℕ → ℕ → ℕ → List RsgPathCompact → List (ℕ × ℕ) → List (ℕ × ℕ)
update_rsps a b status [] m = m
update_rsps a b status (rsp ∷ rsps) m = update_rsps a b status rsps (update_rsp a b status rsp m)

unfoldable pub rsps_of : ℕ → List (ℕ × List RsgPathCompact) → List RsgPathCompact
rsps_of node hrsp = elim (find node hrsp) [ some rsps ↦ rsps | none ↦ [] ]

unfoldable pub update_nodes :
    ℕ → ℕ → ℕ → List (ℕ × List RsgPathCompact) → List ℕ → List (ℕ × ℕ) → List (ℕ × ℕ)
update_nodes a b status hrsp [] m = m
update_nodes a b status hrsp (node ∷ nodes) m =
    update_nodes a b status hrsp nodes (update_rsps a b status (rsps_of node hrsp) m)

-- The loop starts at the second node of the primary path.
abbrev pub after_first : List ℕ → List ℕ
after_first [] = []
after_first (node ∷ nodes) = nodes

-- `rsgUpdateLinkStatus`.
unfoldable pub rsg_update_link_status : RsgStruct → ℕ → ℕ → ℕ → RsgStruct
rsg_update_link_status rsg a b status =
    let prim = rsg.rsg_compacted_rr.prim_path.node_ids in
    let id = rsg_search_vir_link prim a b in
    let m =
      if id == rsg_vir_link_id_null
      then rsg.link_status_map
      else assign id status rsg.link_status_map in
    record rsg {
      link_status_map = update_nodes a b status rsg.rsg_compacted_rr.hrsp (after_first prim) m;
    }
