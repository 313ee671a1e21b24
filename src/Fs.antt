-- ===== src/Fs.antt =====
-- NFD/daemon/fw/lltc-fs.hpp, lltc-fs.cpp and the lookups of
-- lltc-strategy-forwarding-sublayer-packet-forwarding.cpp (ndnSIM/ns-3/src/ndnSIM): the forwarding
-- state of a node. A `Face` is its identifier.
pub mod Lookup
use drtp.Base.{
  ℕ, ◌%◌, ◌^◌, Bool, Option, none, some, List, [], ◌∷◌, String, ◌==◌, ◌&&◌, str_eq, if◌then◌else◌,
}
use drtp.Base.Maps.{find}

pub record LltcFibEntry : Type 0 where
  pub path_id : ℕ
  pub face_next_hop : ℕ
  pub metric : ℕ
  -- 0 stands for the downstream, and 1 for the upstream.
  pub direction : ℕ
  pub retrans_timeout : ℕ
  pub is_retrans_point : Bool

pub record ForwardingStateForRsg : Type 0 where
  pub prefix_list : List String
  pub fib_entries : List LltcFibEntry
  pub primary_path_id : ℕ
  pub preferred_down_path_id : ℕ
  pub preferred_up_path_id : ℕ
  pub is_down_path_in_rsp_state : Bool
  pub is_up_path_in_rsp_state : Bool
  pub waiting_timeout_on_next_packet : ℕ
  pub waiting_timeout_on_next_packet_for_lost_report : ℕ
  pub waiting_timeout_on_retrans_report : List (ℕ × ℕ)

-- `none` for `app_face` is the null pointer.
pub record ForwardingStateCollection : Type 0 where
  pub fss_map : List (ℕ × ForwardingStateForRsg)
  pub app_face : Option ℕ
  pub local_node_id : ℕ

-- `getForwardingState`: `none` is the null pointer.
unfoldable pub get_forwarding_state : ForwardingStateCollection → ℕ → Option ForwardingStateForRsg
get_forwarding_state coll rsg_id = find rsg_id coll.fss_map

unfoldable pub is_upstream_retrans_point : LltcFibEntry → Bool
is_upstream_retrans_point fe = (fe.direction == 1) && fe.is_retrans_point

unfoldable pub first_entry : ℕ → ℕ → List LltcFibEntry → Option LltcFibEntry
first_entry path_id direction [] = none
first_entry path_id direction (fe ∷ fes) =
    if (fe.path_id == path_id) && (fe.direction == direction)
    then some fe
    else first_entry path_id direction fes

entry_in : ℕ → ℕ → Option ForwardingStateForRsg → Option LltcFibEntry
unfolding first_entry
entry_in path_id direction none = none
entry_in path_id direction (some fs) = first_entry path_id direction fs.fib_entries

unfoldable pub lookup_forwarding_entry : ForwardingStateCollection → ℕ → ℕ → ℕ → Option LltcFibEntry
unfolding entry_in
lookup_forwarding_entry coll rsg_id path_id direction =
    entry_in path_id direction (find rsg_id coll.fss_map)

-- `UINT_MAX`.
abbrev pub uint_max : ℕ
uint_max = 4294967295

any_prefix : String → List String → Bool
any_prefix prefix [] = Bool.false
any_prefix prefix (p ∷ ps) = if str_eq p prefix then Bool.true else any_prefix prefix ps

rsg_of_prefix : String → List (ℕ × ForwardingStateForRsg) → ℕ
unfolding any_prefix
rsg_of_prefix prefix [] = uint_max
rsg_of_prefix prefix ((rsg_id, fs) ∷ rest) =
    if any_prefix prefix fs.prefix_list then rsg_id else rsg_of_prefix prefix rest

unfoldable pub lookup_rsg_id : ForwardingStateCollection → String → ℕ
unfolding rsg_of_prefix
lookup_rsg_id coll prefix = rsg_of_prefix prefix coll.fss_map

-- `extractRsgId`, of an interest or of a data packet, by its tag of 64 bits.
unfoldable pub extract_rsg_id : ForwardingStateCollection → Option ℕ → String → ℕ
unfolding lookup_rsg_id
extract_rsg_id coll (some tag) name = tag % 2 ^ 32
extract_rsg_id coll none name = lookup_rsg_id coll name
