-- ===== src/Tests/Paths.antt =====
-- The choice of paths on a small subgraph.
use drtp.Base.{
  suc, inr, inl, ℕ, ◌+◌, ◌-◌, ◌≡◌, refl, ◌⊎◌, Bool, true, false, some, List, [], ◌∷◌, arith, ltb,
}
use drtp.Base.Int.{pos}
use drtp.Base.Seqs.{elem, remove}
use drtp.Base.Maps.{find, assign}
use drtp.FibonacciHeap.{insert, remove_max, increase_key}
use drtp.Fs.{uint_max}
use drtp.Subgraph.{RsgStruct, rsg_get_link_id, status_of}
use drtp.Preferred.{
  Double, RsgVirLink, Rsg, PreferredLink, node_ids_of, is_marked, relax, rsg_get_fibo_rr_node_by_id,
  vir_link_id_of, rsg_compute_preferred_path_id,
}
use drtp.Preferred.Ratios.{IsRatio, IsDouble, IsLog}
use drtp.Preferred.Searching.{IsRsg}
use drtp.Messages.{LinkState}
use drtp.Links.Failover.{RsgEntry}
use drtp.Preferred.Choice.{AreNamed, LeadsAway, LeadsTo, rsg_compute_preferred_path_id-Returns}

-- The numbers that are not positive, as their opposites.
abbrev pub negatives : Double ℕ
negatives = record {
  nought = 0;
  minus_infinity = 9223372036854775808;
  plus = λ a b. a + b;
  gt = λ a b. ltb a b;
  key = λ a. 9223372036854775808 - a;
  of_key = λ k. 9223372036854775808 - k;
}

sum_in_range :
    (n a b : ℕ)
    → IsLog negatives n a
    → IsRatio negatives b
    → IsLog negatives (suc n) (negatives.of_key (negatives.key (negatives.plus a b)))
sum_in_range n a b (_, inl p) q = (ground arith, inl (omega (arith, p)))
sum_in_range n a b (_, inr p) (_, inl q) = (ground arith, inl (omega (arith, q)))
sum_in_range n a b (_, inr p) (_, inr q) = (ground arith, inr (omega (arith, p, q)))

pub negatives-IsDouble : IsDouble negatives
negatives-IsDouble = record {
  nought_log = (refl, inr (omega arith));
  infinity_log = (refl, inl refl);
  key_monotone = λ n a b c few p q r more. ground (arith, more);
  rounds = λ n a b c few p q r more. omega arith;
  written_back = λ n a b c few p q r more. sum_in_range n a b p q;
}

abbrev link_from : ℕ → ℕ → ℕ → RsgVirLink ℕ
link_from a b ratio = record {
  is_on_prim_path = true;
  link_id = rsg_get_link_id a b;
  path_id = 10;
  node_ingress = a;
  node_egress = b;
  succ_ratio_in_log = ratio;
  delay = pos 10;
}

-- The primary path 1, 2, 3 with number 10, and the sub-path from 1 to 2 with number 11.
abbrev sub_path : RsgVirLink ℕ
sub_path = record {
  is_on_prim_path = false;
  link_id = 0;
  path_id = 11;
  node_ingress = 1;
  node_egress = 2;
  succ_ratio_in_log = 5;
  delay = pos 30;
}

abbrev states : RsgStruct
states = record {
  link_status_map = (rsg_get_link_id 1 2, 1) ∷ [];
  rsg_compacted_rr = record {
    prim_path = record { node_ids = 1 ∷ 2 ∷ 3 ∷ []; path_id = 10 };
    hrsp = [];
  };
}

abbrev graph : Rsg ℕ
graph = record {
  rsg_id = 4;
  links = link_from 1 2 2 ∷ link_from 2 3 3 ∷ sub_path ∷ [];
  nodes =
      (record {
        node_id = 1;
        egress_vir_links = link_from 1 2 2 ∷ sub_path ∷ [];
        ingress_vir_links = [];
      })
      ∷ (record {
        node_id = 2;
        egress_vir_links = link_from 2 3 3 ∷ [];
        ingress_vir_links = sub_path ∷ [];
      })
      ∷ (record { node_id = 3; egress_vir_links = []; ingress_vir_links = [] })
      ∷ [];
  src_node_id = 1;
  dst_node_id = 3;
  prim_path_id = 10;
  states = states;
}

graph-IsRsg : IsRsg negatives graph
unfolding node_ids_of elem
graph-IsRsg = record {
  distinct = (refl, (refl, (refl, tt)));
  few = omega arith;
  tops = (
    ((refl, inr (omega arith)), ((refl, inr (omega arith)), tt)),
    (((refl, inr (omega arith)), tt), (tt, tt)),
  );
  ends = refl;
  path = omega arith;
}

graph-AreNamed : AreNamed negatives graph graph.nodes
unfolding is_marked vir_link_id_of rsg_get_link_id
graph-AreNamed = (((refl, refl), ((refl, refl), tt)), (((refl, refl), tt), (tt, tt)))

rsg_compute_preferred_path_id-Returns_example :
    (pl : PreferredLink) × (rsg_compute_preferred_path_id negatives graph 1 ≡ some pl)
    × ((pl.down_link_id ≡ uint_max) ⊎ LeadsAway negatives graph 1 pl.down_link_id)
    × ((pl.up_link_id ≡ uint_max) ⊎ LeadsTo negatives graph 1 pl.up_link_id)
rsg_compute_preferred_path_id-Returns_example =
    rsg_compute_preferred_path_id-Returns negatives graph 1 negatives-IsDouble graph-IsRsg
      graph-AreNamed refl

-- The link from 1 to 2 has failed, so that node 1 takes the sub-path.
around_the_failure :
    rsg_compute_preferred_path_id negatives graph 1
    ≡ some (record { down_link_id = 11; up_link_id = uint_max })
unfolding rsg_compute_preferred_path_id insert remove_max relax elem remove status_of find
    rsg_get_link_id rsg_get_fibo_rr_node_by_id assign increase_key
around_the_failure = refl

-- An LSA of node 1, whose link to node 2 has failed, before anything is known of it.
abbrev entry_of : Bool → RsgEntry ℕ
entry_of is_retrans_point = record {
  rsg_id = 4;
  fs = record {
    prefix_list = [];
    fib_entries =
        (record {
          path_id = 10;
          face_next_hop = 1;
          metric = 0;
          direction = 0;
          retrans_timeout = 100;
          is_retrans_point = is_retrans_point;
        })
        ∷ [];
    primary_path_id = 10;
    preferred_down_path_id = 10;
    preferred_up_path_id = 10;
    is_down_path_in_rsp_state = false;
    is_up_path_in_rsp_state = false;
    waiting_timeout_on_next_packet = 0;
    waiting_timeout_on_next_packet_for_lost_report = 0;
    waiting_timeout_on_retrans_report = [];
  };
  rsg = record graph { states = record states { link_status_map = [] } };
}

abbrev failed_link : List LinkState
failed_link = record { neighbored_node_id = 2; status = 1 } ∷ []

abbrev two_entries : List (RsgEntry ℕ)
two_entries = entry_of true ∷ entry_of false ∷ []
