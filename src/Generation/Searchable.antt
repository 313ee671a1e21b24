-- ===== src/Generation/Searchable.antt =====
-- What `genLltcRrSubgraph` (model/lltc/lltc-resilient-routes-subgraph.cpp, ndnSIM/ns-3/src/ndnSIM) gives to
-- `rsgComputePreferredPathID`.
use drtp.Base.{
  ℕ, suc, ◌+◌, ◌%◌, ◌^◌, ◌≡◌, refl, sym, ap, ◌∙◌, ◌⊎◌, false, some, List, [], ◌∷◌, arith, ◌==◌,
}
use drtp.Base.Maps.{find}
use drtp.Subgraph.{status_of}
use drtp.Base.Seqs.{All, length}
use drtp.Fs.{uint_max}
use drtp.Graph.{LltcGraph}
use drtp.Preferred.{
  Double, RsgVirLink, RsgNode, Rsg, PreferredLink, node_ids_of, rsg_compute_preferred_path_id,
}
use drtp.Preferred.Ratios.{IsDouble, IsRatio}
use drtp.Preferred.Searching.{IsRsg}
use drtp.Preferred.Choice.{
  IsNamed, AreNamed, LeadsAway, LeadsTo, rsg_compute_preferred_path_id-Returns,
}
use drtp.Generation.{
  ResilientRoutes, Logs, gen_of, gen_from, last_from, compact_hrsp, gen_lltc_rr_subgraph,
}
use drtp.Generation.Links.{IsFine, AreRoutes}
use drtp.Generation.WellFormed.{
  AreNormal, AreFine, prim_nodes-IsDraft, add_all-IsDraft, elem-last_from,
}

module _ {W : Type 0} (fl : Double W) (lg : Logs W) where
  tops_of :
      (nodes : List (RsgNode W))
      → AreFine fl lg nodes
      → All
          (λ (node : RsgNode W).
            All (λ (l : RsgVirLink W). IsRatio fl l.succ_ratio_in_log) node.egress_vir_links)
          nodes
  tops_of [] a = tt
  tops_of (node ∷ nodes) (f, a) = (of_links node.egress_vir_links f, tops_of nodes a)
    where
      of_links :
          (ls : List (RsgVirLink W))
          → All (IsFine fl lg) ls
          → All (λ (l : RsgVirLink W). IsRatio fl l.succ_ratio_in_log) ls
      of_links [] f = tt
      of_links (l ∷ ls) (f, fs) = (f.0, of_links ls fs)

  AreFine-AreNamed :
      (rsg : Rsg W) (nodes : List (RsgNode W)) → AreFine fl lg nodes → AreNamed fl rsg nodes
  AreFine-AreNamed rsg [] a = tt
  AreFine-AreNamed rsg (node ∷ nodes) (f, a) =
      (of_links node.egress_vir_links f, AreFine-AreNamed rsg nodes a)
    where
      of_links : (ls : List (RsgVirLink W)) → All (IsFine fl lg) ls → All (IsNamed fl rsg) ls
      of_links [] f = tt
      of_links (l ∷ ls) (f, fs) = ((f.1, f.2), of_links ls fs)

  length-node_ids_of : (nodes : List (RsgNode W)) → length (node_ids_of fl nodes) ≡ length nodes
  unfolding node_ids_of
  length-node_ids_of [] = refl
  length-node_ids_of (node ∷ nodes) = ap suc (length-node_ids_of nodes)

  none_failed : AreNormal []
  unfolding status_of find
  none_failed k = refl

  gen_of-path :
      (rr : ResilientRoutes W) (g : LltcGraph W) (next source : ℕ) (ids nodes : List ℕ)
      → nodes ≡ source ∷ ids
      → gen_of lg g rr next nodes ≡ gen_from lg g rr next source ids
  unfolding gen_of
  gen_of-path rr g next source ids nodes e = rw e refl

  -- The subgraph of the routes is built, and is one on which the search of paths is defined.
  pub gen_lltc_rr_subgraph-IsRsg :
      (rr : ResilientRoutes W) (g : LltcGraph W) (next : ℕ)
      → AreRoutes fl lg rr g
      → (rsg : Rsg W) × (gen_lltc_rr_subgraph lg rr g next ≡ some (rsg, (next + 1) % 2 ^ 32))
        × (node_ids_of fl rsg.nodes ≡ rr.primary_path.node_ids)
        × AreNormal rsg.states.link_status_map
        × IsRsg fl rsg
        × AreNamed fl rsg rsg.nodes
  unfolding gen_lltc_rr_subgraph gen_from
  gen_lltc_rr_subgraph-IsRsg rr g next r =
      let (d, made, a) =
        prim_nodes-IsDraft fl lg g rr.primary_path.path_id r.source r.ids [] r.linked none_failed in
      let (d', more, ((named, fine), normal)) =
        add_all-IsDraft fl lg rr (r.source ∷ r.ids) 1 r.ids d (omega arith) r.subs a in
      let rsg : Rsg W = record {
        rsg_id = next;
        nodes = d'.nodes;
        links = d'.links;
        src_node_id = r.source;
        dst_node_id = last_from lg r.source r.ids;
        prim_path_id = rr.primary_path.path_id;
        states = record {
          link_status_map = d'.link_status_map;
          rsg_compacted_rr = record {
            prim_path = record {
              node_ids = rr.primary_path.node_ids;
              path_id = rr.primary_path.path_id;
            };
            hrsp = compact_hrsp lg rr rr.primary_path.node_ids [];
          };
        };
      } in
      (
        rsg,
        rw (gen_of-path rr g next r.source r.ids rr.primary_path.node_ids r.path, made, more) refl,
        named ∙ sym r.path,
        normal,
        record {
          distinct = rw named r.distinct;
          few = omega (arith, length-node_ids_of d'.nodes, ap {B = ℕ} length named, r.few);
          tops = tops_of d'.nodes fine;
          ends = rw named (elem-last_from fl lg r.source r.ids);
          path = rw r.path (omega arith);
        },
        AreFine-AreNamed rsg d'.nodes fine,
      )

  -- For routes that belong to a graph, with a primary path of at most 512 nodes, a `double` with the laws
  -- of IsDouble, and a local node other than UINT_MAX: genLltcRrSubgraph builds a subgraph with the nodes of the primary path and without a
  -- failed link, and rsgComputePreferredPathID returns on it, with a downstream path that is none or that
  -- of a link from the local node that has not failed as a link, and an upstream path that is none or
  -- that of a link to the local node that has not.
  pub gen_lltc_rr_subgraph-Returns :
      (rr : ResilientRoutes W) (g : LltcGraph W) (next local : ℕ)
      → AreRoutes fl lg rr g
      → IsDouble fl
      → (local == uint_max) ≡ false
      → (rsg : Rsg W) × (pl : PreferredLink) × (gen_lltc_rr_subgraph lg rr g next
          ≡ some (rsg, (next + 1) % 2 ^ 32))
        × (node_ids_of fl rsg.nodes ≡ rr.primary_path.node_ids)
        × AreNormal rsg.states.link_status_map
        × (rsg_compute_preferred_path_id fl rsg local ≡ some pl)
        × ((pl.down_link_id ≡ uint_max) ⊎ LeadsAway fl rsg local pl.down_link_id)
        × ((pl.up_link_id ≡ uint_max) ⊎ LeadsTo fl rsg local pl.up_link_id)
  gen_lltc_rr_subgraph-Returns rr g next local r laws real =
      let (rsg, made, nodes, normal, w, names) = gen_lltc_rr_subgraph-IsRsg rr g next r in
      let (pl, found, down, up) =
        rsg_compute_preferred_path_id-Returns fl rsg local laws w names real in
      (rsg, pl, made, nodes, normal, found, down, up)
