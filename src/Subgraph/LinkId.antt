-- ===== src/Subgraph/LinkId.antt =====
-- `rsgGetLinkID` (model/lltc/lltc-resilient-routes-subgraph.cpp) and `computeDataRetransID`
-- (NFD/daemon/fw/lltc-strategy-service-sublayer-retrans-control.cpp): numbers packed into one.
use drtp.Base.{ℕ, ◌+◌, ◌*◌, ◌%◌, ◌^◌, ◌≤◌, ◌<◌, ◌≡◌, ◌⊎◌, arith}
use drtp.Base.Bits.{bit_or-low, bit_or-high}
use drtp.Subgraph.{link_id, rsg_get_link_id}
use drtp.Retrans.Events.{compute_data_retrans_id}

-- Nodes that a link ID can hold beside its mark.
abbrev pub IsNodeId : ℕ → Type 0
IsNodeId a = a < 2 ^ 31

link_id_value : (a b : ℕ) → IsNodeId a → IsNodeId b → link_id a b ≡ a * 2 ^ 32 + b + 2 ^ 63
unfolding link_id
link_id_value a b p q =
    let shift : a * 2 ^ 32 % 2 ^ 64 ≡ a * 2 ^ 32 = omega arith in
    rw (shift, bit_or-low 32 a b (omega arith)) (bit_or-high 63 1 (a * 2 ^ 32 + b) (omega arith))

-- For nodes with IDs below 2^31: a link has one ID in both directions, the ID tells which link it is,
-- and it is no number of a path (which has 32 bits) and not the null ID. (From 2^31 on the mark bit
-- hides the highest bit of the node.)
pub rsg_get_link_id_names :
    (a b c d : ℕ)
    → IsNodeId a
    → IsNodeId b
    → IsNodeId c
    → IsNodeId d
    → (rsg_get_link_id a b ≡ rsg_get_link_id b a)
      × (2 ^ 63 ≤ rsg_get_link_id a b)
      × (rsg_get_link_id a b < 18446744073709551615)
      × (rsg_get_link_id a b ≡ rsg_get_link_id c d → ((a ≡ c) × (b ≡ d)) ⊎ ((a ≡ d) × (b ≡ c)))
unfolding rsg_get_link_id
rsg_get_link_id_names a b c d p q r s = (
  ground (arith, link_id_value a b p q, link_id_value b a q p),
  ground (arith, link_id_value a b p q, link_id_value b a q p),
  ground (arith, link_id_value a b p q, link_id_value b a q p),
  λ e. ground (
    arith,
    link_id_value a b p q,
    link_id_value b a q p,
    link_id_value c d r s,
    link_id_value d c s r,
  ),
)

-- The key of a request tells its capsule from its path: requests for different capsules, or on
-- different paths, never share an entry.
pub compute_data_retrans_id_names :
    (x p y q : ℕ)
    → x < 2 ^ 32
    → p < 2 ^ 32
    → y < 2 ^ 32
    → q < 2 ^ 32
    → compute_data_retrans_id x p ≡ compute_data_retrans_id y q
    → (x ≡ y) × (p ≡ q)
unfolding compute_data_retrans_id
compute_data_retrans_id_names x p y q hx hp hy hq e =
    let shift : (n : ℕ) → n < 2 ^ 32 → n * 2 ^ 32 % 2 ^ 64 ≡ n * 2 ^ 32 = λ n h. omega arith in
    let sx = shift x hx in
    let sy = shift y hy in
    let e' = rw (sx, sy, bit_or-low 32 x p hp, bit_or-low 32 y q hq) at e in
    (omega arith, omega arith)
