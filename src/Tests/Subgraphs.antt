-- ===== src/Tests/Subgraphs.antt =====
-- The subgraph of a primary path with one redundant sub-path.
use drtp.Base.{inr, ℕ, ◌+◌, ◌%◌, ◌^◌, ◌≡◌, refl, ◌⊎◌, some, List, [], ◌∷◌, arith}
use drtp.Base.Seqs.{elem}
use drtp.Base.Maps.{find}
use drtp.Fs.{uint_max}
use drtp.Graph.{LltcLink, LltcNode, LltcGraph, get_link_by_node_ids, get_link_succ_ratio}
use drtp.Preferred.{Rsg, PreferredLink, node_ids_of, rsg_compute_preferred_path_id}
use drtp.Preferred.Arrays.{nth}
use drtp.Preferred.Choice.{LeadsAway, LeadsTo}
use drtp.Generation.{RedundantSubPath, ResilientRoutes, Logs, gen_lltc_rr_subgraph}
use drtp.Generation.Links.{AreRoutes}
use drtp.Generation.WellFormed.{AreNormal}
use drtp.Generation.Searchable.{gen_lltc_rr_subgraph-Returns}
use drtp.Tests.Paths.{negatives, negatives-IsDouble}

-- Ratios as the opposites of their logarithms.
abbrev logs : Logs ℕ
logs = record { log = λ a. a; minus_one = 1 }

abbrev link_between : ℕ → ℕ → ℕ → LltcLink ℕ
link_between id a b = record {
  link_id = id;
  node_a = a;
  node_b = b;
  ab_delay_total = 20;
  ba_delay_total = 20;
  ab_delay_trans = 10;
  ba_delay_trans = 10;
  ab_delay_queue = 5;
  ba_delay_queue = 5;
  ab_delay_process = 5;
  ba_delay_process = 5;
  ab_relia = 0;
  ab_relia_in_log = 2;
  ba_relia = 0;
  ba_relia_in_log = 3;
}

abbrev direct : LltcLink ℕ
direct = link_between 0 1 0

abbrev first_half : LltcLink ℕ
first_half = link_between 1 0 2

abbrev second_half : LltcLink ℕ
second_half = link_between 2 2 1

abbrev node_with : ℕ → List (LltcLink ℕ) → LltcNode ℕ
node_with id links = record { node_id = id; e_links = links; i_links = links }

abbrev triangle : LltcGraph ℕ
triangle = record {
  nodes =
      node_with 0 (direct ∷ first_half ∷ [])
      ∷ node_with 1 (direct ∷ second_half ∷ [])
      ∷ node_with 2 (first_half ∷ second_half ∷ [])
      ∷ [];
  links = direct ∷ first_half ∷ second_half ∷ [];
}

abbrev around : RedundantSubPath ℕ
around = record {
  path = record { node_ids = 0 ∷ 2 ∷ 1 ∷ []; path_id = 11 };
  retrans_source_node_idx = 2;
  retrans_dst_node_idx = 0;
  link_down_delay = 40;
  one_way_data_delivery_loss_rate = 6;
}

abbrev routes : ResilientRoutes ℕ
routes = record {
  primary_path = record { node_ids = 0 ∷ 1 ∷ []; path_id = 10 };
  get_rsps_by_node_id = λ id. find id ((1, around ∷ []) ∷ []);
}

routes-AreRoutes : AreRoutes negatives logs routes triangle
unfolding elem find nth get_link_by_node_ids get_link_succ_ratio
routes-AreRoutes = record {
  source = 0;
  ids = 1 ∷ [];
  path = refl;
  distinct = (refl, (refl, tt));
  few = omega arith;
  linked = (omega arith, (direct, refl, (refl, inr (omega arith))), omega arith);
  subs = (
    (((0, refl, (0, omega arith, refl)), (1, refl), omega arith, (refl, inr (omega arith))), tt),
    tt,
  );
}

gen_lltc_rr_subgraph-Returns_example :
    (rsg : Rsg ℕ) × (pl : PreferredLink) × (gen_lltc_rr_subgraph logs routes triangle 7
      ≡ some (rsg, (7 + 1) % 2 ^ 32))
    × (node_ids_of negatives rsg.nodes ≡ routes.primary_path.node_ids)
    × AreNormal rsg.states.link_status_map
    × (rsg_compute_preferred_path_id negatives rsg 1 ≡ some pl)
    × ((pl.down_link_id ≡ uint_max) ⊎ LeadsAway negatives rsg 1 pl.down_link_id)
    × ((pl.up_link_id ≡ uint_max) ⊎ LeadsTo negatives rsg 1 pl.up_link_id)
gen_lltc_rr_subgraph-Returns_example =
    gen_lltc_rr_subgraph-Returns negatives logs routes triangle 7 1 routes-AreRoutes
      negatives-IsDouble refl
