-- ===== src/Graph.antt =====
-- model/lltc/lltc-graph.cpp and .hpp (ndnSIM/ns-3/src/ndnSIM): the graph of the network, as the
-- generation of subgraphs reads it. A link, which does not change once it is made, is kept as a value
-- with the IDs of its nodes. `none` is a fault: a node ID outside the array of nodes.
use drtp.Base.{
  ℕ, zero, suc, Bool, ◌&&◌, ◌||◌, Option, none, some, List, [], ◌∷◌, ◌==◌, if◌then◌else◌, ◌>>=◌,
}
use drtp.Base.Int.{ℤ, pos, negsuc}

-- The `ab` fields are those of the direction from `node_a` to `node_b`.
pub record LltcLink (W : Type 0) : Type 0 where
  pub link_id : ℕ
  pub node_a : ℕ
  pub node_b : ℕ
  pub ab_delay_total : ℕ
  pub ba_delay_total : ℕ
  pub ab_delay_trans : ℕ
  pub ba_delay_trans : ℕ
  pub ab_delay_queue : ℕ
  pub ba_delay_queue : ℕ
  pub ab_delay_process : ℕ
  pub ba_delay_process : ℕ
  pub ab_relia : W
  pub ab_relia_in_log : W
  pub ba_relia : W
  pub ba_relia_in_log : W

pub record LltcNode (W : Type 0) : Type 0 where
  pub node_id : ℕ
  pub e_links : List (LltcLink W)
  pub i_links : List (LltcLink W)

pub record LltcGraph (W : Type 0) : Type 0 where
  pub nodes : List (LltcNode W)
  pub links : List (LltcLink W)

module _ {W : Type 0} where
  -- `nodes[id]`.
  unfoldable pub node_at : ℕ → List (LltcNode W) → Option (LltcNode W)
  node_at id [] = none
  node_at zero (node ∷ nodes) = some node
  node_at (suc id) (node ∷ nodes) = node_at id nodes

  -- The first link that has a node at one of its ends.
  unfoldable pub link_to : ℕ → List (LltcLink W) → Option (LltcLink W)
  link_to b [] = none
  link_to b (e ∷ es) = if (e.node_b == b) || (e.node_a == b) then some e else link_to b es

  -- `getLinkByNodeIds`, with a null pointer as the inner `none`.
  unfoldable pub get_link_by_node_ids : LltcGraph W → ℕ → ℕ → Option (Option (LltcLink W))
  unfolding node_at link_to
  get_link_by_node_ids g a b = node_at a g.nodes >>= λ node. some (link_to b node.e_links)

  unfoldable pub goes : LltcLink W → ℕ → ℕ → Bool
  goes l a b = (l.node_a == a) && (l.node_b == b)

  -- What is read from a link in one direction, in the other, or from neither.
  unfoldable pub directed : {A : Type 0} → LltcLink W → ℕ → ℕ → A → A → A → A
  unfolding goes
  directed l a b ab ba neither = if goes l a b then ab else if goes l b a then ba else neither

  unfoldable pub get_link_delay_total : LltcLink W → ℕ → ℕ → ℤ
  unfolding directed
  get_link_delay_total l a b =
      directed l a b (pos l.ab_delay_total) (pos l.ba_delay_total) (negsuc 0)

  unfoldable pub get_link_delay_trans : LltcLink W → ℕ → ℕ → ℤ
  unfolding directed
  get_link_delay_trans l a b =
      directed l a b (pos l.ab_delay_trans) (pos l.ba_delay_trans) (negsuc 0)

  unfoldable pub get_link_delay_queue : LltcLink W → ℕ → ℕ → ℤ
  unfolding directed
  get_link_delay_queue l a b =
      directed l a b (pos l.ab_delay_queue) (pos l.ba_delay_queue) (negsuc 0)

  unfoldable pub get_link_delay_process : LltcLink W → ℕ → ℕ → ℤ
  unfolding directed
  get_link_delay_process l a b =
      directed l a b (pos l.ab_delay_process) (pos l.ba_delay_process) (negsuc 0)

  -- `getLinkSuccRatio`, with the value of `-1.0`.
  unfoldable pub get_link_succ_ratio : W → LltcLink W → ℕ → ℕ → Bool → W
  unfolding directed
  get_link_succ_ratio minus_one l a b in_log =
      directed l a b (if in_log then l.ab_relia_in_log else l.ab_relia)
        (if in_log then l.ba_relia_in_log else l.ba_relia) minus_one
