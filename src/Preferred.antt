-- ===== src/Preferred.antt =====
-- `rsgComputePreferredPathID` of model/lltc/lltc-resilient-routes-subgraph.cpp (ndnSIM/ns-3/src/ndnSIM):
-- the choice of the paths that a node uses, by a search of the subgraph from its source over the links
-- that have not failed, in which the Fibonacci heap gives the node with the greatest success ratio. A
-- `double` is a value of a type with the operations that the code uses. `none` as a result is a fault:
-- the dereference of a null pointer.
pub mod Arrays
pub mod Ratios
pub mod Invariant
pub mod Round
pub mod Searching
pub mod Starting
pub mod Choice
use Prim.Native.Nat.{bit_and}
use drtp.Base.{
  ℕ, zero, suc, ◌+◌, Bool, true, false, not, ◌&&◌, Option, none, some, List, [], ◌∷◌, ◌==◌, ltb,
  if◌then◌else◌, ◌>>=◌,
}
use drtp.Base.Int.{ℤ}
use drtp.Base.Seqs.{length, elem, remove}
use drtp.Base.Maps.{find, assign}
use drtp.Fs.{uint_max}
use drtp.FibonacciHeap.{FibonacciHeap, empty, insert, remove_max, increase_key}
use drtp.Subgraph.{
  RsgStruct, rsg_get_link_id, rsg_vir_link_id_null, rsg_prim_path_link_id_mark, status_of,
}

-- What the code does with a `double`. `key` is `(long) (x * PRECISION)`, offset by 2^63, and
-- `of_key` the quotient by `PRECISION`.
pub record Double (W : Type 0) : Type 0 where
  pub nought : W
  pub minus_infinity : W
  pub plus : W → W → W
  pub gt : W → W → Bool
  pub key : W → ℕ
  pub of_key : ℕ → W

pub record RsgVirLink (W : Type 0) : Type 0 where
  pub is_on_prim_path : Bool
  pub link_id : ℕ
  pub path_id : ℕ
  pub node_ingress : ℕ
  pub node_egress : ℕ
  pub succ_ratio_in_log : W
  pub delay : ℤ

pub record RsgNode (W : Type 0) : Type 0 where
  pub node_id : ℕ
  pub egress_vir_links : List (RsgVirLink W)
  pub ingress_vir_links : List (RsgVirLink W)

-- `rsg_struct`, of which `states` is the part that `rsgUpdateLinkStatus` uses.
pub record Rsg (W : Type 0) : Type 0 where
  pub rsg_id : ℕ
  pub nodes : List (RsgNode W)
  pub links : List (RsgVirLink W)
  pub src_node_id : ℕ
  pub dst_node_id : ℕ
  pub prim_path_id : ℕ
  pub states : RsgStruct

pub record RsgFiboNode (W : Type 0) : Type 0 where
  pub node_id : ℕ
  pub succ_ratio_in_log : W

pub record RsgPrevNodeInfo : Type 0 where
  pub node_id : ℕ
  pub vir_link_id : ℕ

pub record PreferredLink : Type 0 where
  pub down_link_id : ℕ
  pub up_link_id : ℕ

-- The loop that numbers the components of the primary path: a failed link starts a new one.
unfoldable pub components_from : List (ℕ × ℕ) → ℕ → ℕ → List ℕ → List (ℕ × ℕ) → List (ℕ × ℕ)
components_from states prev component [] m = m
components_from states prev component (node ∷ nodes) m =
    let component' =
      if status_of (rsg_get_link_id prev node) states == 1 then component + 1 else component in
    components_from states node component' nodes (assign node component' m)

-- `none` is the read of the first node of an empty path.
unfoldable pub components : List (ℕ × ℕ) → List ℕ → Option (List (ℕ × ℕ))
unfolding components_from
components states [] = none
components states (node ∷ nodes) = some (components_from states node 0 nodes (assign node 0 []))

abbrev pub or_zero : Option ℕ → ℕ
or_zero none = 0
or_zero (some k) = k

-- `nodesToComponentIDs[id]`.
abbrev pub component_of : List (ℕ × ℕ) → ℕ → ℕ
component_of m id = or_zero (find id m)

abbrev pub or_no_info : Option RsgPrevNodeInfo → RsgPrevNodeInfo
or_no_info none = record { node_id = 0; vir_link_id = 0 }
or_no_info (some info) = info

-- `rrNodeInfo[id]`.
abbrev pub info_of : List (ℕ × RsgPrevNodeInfo) → ℕ → RsgPrevNodeInfo
info_of m id = or_no_info (find id m)

-- The objects of the heap are the indices of `fibo_nodes`.
pub record Search (W : Type 0) : Type 0 where
  pub fh : FibonacciHeap
  pub fibo_nodes : List (RsgFiboNode W)
  pub rr_node_info : List (ℕ × RsgPrevNodeInfo)
  pub nodes_in_fh : List ℕ

module _ {W : Type 0} (fl : Double W) where
  unfoldable pub fibo_at : ℕ → List (RsgFiboNode W) → Option (RsgFiboNode W)
  fibo_at k [] = none
  fibo_at zero (f ∷ fs) = some f
  fibo_at (suc k) (f ∷ fs) = fibo_at k fs

  abbrev pub key_in : Option (RsgFiboNode W) → ℕ
  key_in none = 0
  key_in (some f) = fl.key f.succ_ratio_in_log

  -- `RsgFHKeyFunc::getKey`.
  unfoldable pub get_key : List (RsgFiboNode W) → ℕ → ℕ
  unfolding fibo_at
  get_key fs k = key_in (fibo_at k fs)

  unfoldable pub set_ratio : ℕ → W → List (RsgFiboNode W) → List (RsgFiboNode W)
  set_ratio k w [] = []
  set_ratio zero w (f ∷ fs) = record f { succ_ratio_in_log = w } ∷ fs
  set_ratio (suc k) w (f ∷ fs) = f ∷ set_ratio k w fs

  -- `rsgGetFiboRRNodeByID`.
  unfoldable pub rsg_get_fibo_rr_node_by_id : ℕ → List (RsgFiboNode W) → Option ℕ
  rsg_get_fibo_rr_node_by_id id [] = none
  rsg_get_fibo_rr_node_by_id id (f ∷ fs) =
      if f.node_id == id then some 0 else (rsg_get_fibo_rr_node_by_id id fs >>= λ k. some (suc k))

  -- `rsgGetSubGraphNodeByID`.
  unfoldable pub rsg_get_sub_graph_node_by_id : ℕ → List (RsgNode W) → Option (RsgNode W)
  rsg_get_sub_graph_node_by_id id [] = none
  rsg_get_sub_graph_node_by_id id (node ∷ nodes) =
      if node.node_id == id then some node else rsg_get_sub_graph_node_by_id id nodes

  -- The ID by which a link is remembered.
  unfoldable pub vir_link_id_of : RsgVirLink W → ℕ
  vir_link_id_of l = if l.is_on_prim_path then l.link_id else l.path_id

  -- `updateKey` of node `v`: `setKey` writes the rounded ratio back.
  unfoldable pub update_key : ℕ → W → RsgPrevNodeInfo → RsgFiboNode W → Search W → Option (Search W)
  unfolding set_ratio get_key
  update_key v alt info f s =
      let fibo' = set_ratio v (fl.of_key (fl.key alt)) s.fibo_nodes in
      increase_key (get_key fibo') v s.fh >>= λ fh'. some (record s {
        fh = fh';
        fibo_nodes = fibo';
        rr_node_info = assign f.node_id info s.rr_node_info;
      })

  -- What is left of the loop's body once the link is seen to lead to a node in the heap.
  unfoldable pub relax_to :
      List (ℕ × ℕ) → RsgFiboNode W → RsgVirLink W → ℕ → Search W → Option (Search W)
  unfolding update_key vir_link_id_of
  relax_to comps u l v s = fibo_at v s.fibo_nodes >>= λ f.
      (if (component_of comps f.node_id == component_of comps u.node_id) && not l.is_on_prim_path
        then some s
        else (let alt = fl.plus u.succ_ratio_in_log l.succ_ratio_in_log in
            if fl.gt alt f.succ_ratio_in_log
            then update_key v alt (record { node_id = u.node_id; vir_link_id = vir_link_id_of l }) f
                s
            else some s))

  -- The body of the loop over the links of a node.
  unfoldable pub relax :
      List (ℕ × ℕ) → List (ℕ × ℕ) → RsgFiboNode W → RsgVirLink W → Search W → Option (Search W)
  unfolding relax_to
  relax states comps u l s =
      if not (elem l.node_egress s.nodes_in_fh)
      then some s
      else (if status_of l.link_id states == 1
          then some s
          else (rsg_get_fibo_rr_node_by_id l.node_egress s.fibo_nodes >>= λ v.
              relax_to comps u l v s))

  unfoldable pub relax_all :
      List (ℕ × ℕ)
      → List (ℕ × ℕ)
      → RsgFiboNode W
      → List (RsgVirLink W)
      → Search W
      → Option (Search W)
  relax_all states comps u [] s = some s
  relax_all states comps u (l ∷ ls) s =
      relax states comps u l s >>= λ s'. relax_all states comps u ls s'

  -- The body of the search's loop.
  unfoldable pub visit : Rsg W → List (ℕ × ℕ) → Search W → Option (Search W)
  unfolding fibo_at rsg_get_sub_graph_node_by_id relax_all
  visit rsg comps s = remove_max (get_key s.fibo_nodes) s.fh >>= λ r.
      fibo_at (r.0) s.fibo_nodes >>= λ u.
      rsg_get_sub_graph_node_by_id u.node_id rsg.nodes >>= λ node.
      relax_all rsg.states.link_status_map comps u node.egress_vir_links
        (record s { fh = r.1; nodes_in_fh = remove u.node_id s.nodes_in_fh })

  -- The search's loop. The fuel is the number of nodes, of which each round removes one.
  unfoldable pub search : ℕ → Rsg W → List (ℕ × ℕ) → Search W → Option (Search W)
  unfolding visit
  search zero rsg comps s = if ltb 0 s.fh.number_of_nodes then none else some s
  search (suc fuel) rsg comps s = elim (ltb 0 s.fh.number_of_nodes) [
    | true ↦ visit rsg comps s >>= λ s'. search fuel rsg comps s'
    | false ↦ some s
  ]

  fibo_node : ℕ → RsgNode W → RsgFiboNode W
  fibo_node src node = record {
    node_id = node.node_id;
    succ_ratio_in_log = if node.node_id == src then fl.nought else fl.minus_infinity;
  }

  -- The loop over the nodes that starts the search: the entries of the array, the map and the set.
  unfoldable pub fibo_nodes_of : ℕ → List (RsgNode W) → List (RsgFiboNode W)
  unfolding fibo_node
  fibo_nodes_of src [] = []
  fibo_nodes_of src (node ∷ nodes) = fibo_node src node ∷ fibo_nodes_of src nodes

  unfoldable pub no_infos :
      List (RsgNode W) → List (ℕ × RsgPrevNodeInfo) → List (ℕ × RsgPrevNodeInfo)
  no_infos [] m = m
  no_infos (node ∷ nodes) m =
      no_infos nodes (assign node.node_id (record { node_id = uint_max; vir_link_id = 0 }) m)

  unfoldable pub node_ids_of : List (RsgNode W) → List ℕ
  node_ids_of [] = []
  node_ids_of (node ∷ nodes) = node.node_id ∷ node_ids_of nodes

  -- Its insertions, from the object with this index on.
  unfoldable pub insert_from : (ℕ → ℕ) → ℕ → List (RsgNode W) → FibonacciHeap → FibonacciHeap
  insert_from key i [] h = h
  insert_from key i (node ∷ nodes) h = insert_from key (suc i) nodes (insert key i h)

  unfoldable pub start : Rsg W → Search W
  unfolding fibo_nodes_of no_infos node_ids_of insert_from get_key
  start rsg =
      let fibo = fibo_nodes_of rsg.src_node_id rsg.nodes in
      record {
        fh = insert_from (get_key fibo) 0 rsg.nodes empty;
        fibo_nodes = fibo;
        rr_node_info = no_infos rsg.nodes [];
        nodes_in_fh = node_ids_of rsg.nodes;
      }

-- The links to and from the local node on the path that the search has found, `UINT64_MAX` where
-- there is none: the walk back from the destination. `none` is out of fuel.
unfoldable pub walk_back : ℕ → List (ℕ × RsgPrevNodeInfo) → ℕ → ℕ → Option (ℕ × ℕ)
walk_back zero m local prev = none
walk_back (suc fuel) m local prev =
    let info = info_of m prev in
    elim (info.node_id == local) [
      | true ↦ some (
        info.vir_link_id,
        (if (info_of m info.node_id).node_id == uint_max
            then rsg_vir_link_id_null
            else (info_of m info.node_id).vir_link_id),
      )
      | false ↦ elim (info.node_id == uint_max) [
        | true ↦ some (rsg_vir_link_id_null, rsg_vir_link_id_null)
        | false ↦ walk_back fuel m local info.node_id
      ]
    ]

unfoldable pub is_marked : ℕ → Bool
is_marked id = bit_and rsg_prim_path_link_id_mark id == rsg_prim_path_link_id_mark

-- The path of a link: the primary path's number for its links, and `UINT_MAX` for none.
unfoldable pub path_of_link : ℕ → ℕ → ℕ
unfolding is_marked
path_of_link prim id =
    if id == rsg_vir_link_id_null then uint_max else if is_marked id then prim else id

-- `rsgComputePreferredPathID`.
unfoldable pub rsg_compute_preferred_path_id :
    {W : Type 0} → Double W → Rsg W → ℕ → Option PreferredLink
unfolding components search start walk_back path_of_link
rsg_compute_preferred_path_id fl rsg local =
    components rsg.states.link_status_map rsg.states.rsg_compacted_rr.prim_path.node_ids
    >>= λ comps. search fl (length rsg.nodes) rsg comps (start fl rsg) >>= λ s.
        walk_back (length rsg.nodes + 1) s.rr_node_info local rsg.dst_node_id >>= λ r.
        some (record {
          down_link_id = path_of_link rsg.prim_path_id (r.0);
          up_link_id = path_of_link rsg.prim_path_id (r.1);
        })
