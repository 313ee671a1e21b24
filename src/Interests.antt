-- ===== src/Interests.antt =====
-- `afterReceiveInterest` and `sendLltcInterest` (lltc-strategy-forwarding-sublayer-packet-forwarding.cpp),
-- and `createOrGetCapsuleForwardingStates` (lltc-strategy-service-sublayer-retrans-control.cpp,
-- ndnSIM/ns-3/src/ndnSIM/NFD/daemon/fw) over the capsule states of all prefixes.
pub mod Table
use drtp.Base.{ℕ, Bool, Option, none, some, List, [], ◌∷◌, String, str_eq, ◌==◌, if◌then◌else◌}
use drtp.Fs.{
  ForwardingStateForRsg, ForwardingStateCollection, LltcFibEntry, extract_rsg_id, uint_max,
  get_forwarding_state, lookup_forwarding_entry,
}
use drtp.State.{CapsuleForwardingStates, Config}
use drtp.Run.{new_capsule_forwarding_states}

pub record Interest : Type 0 where
  pub name : String
  pub rsg_id_tag : Option ℕ

pub data InterestCall : Type 0 where
  -- `Strategy::sendInterest`, to a face
  send_interest : Interest → ℕ → InterestCall
  -- `rejectPendingInterest`
  reject_pending_interest : InterestCall

-- `capsuleForwardingStates_map` and the calls of the forwarder, the last one first.
pub record Prefixes : Type 0 where
  pub states_map : List (String × CapsuleForwardingStates)
  pub calls : List InterestCall

unfoldable pub states_of :
    String → List (String × CapsuleForwardingStates) → Option CapsuleForwardingStates
states_of name [] = none
states_of name (entry ∷ m) = if str_eq (entry.0) name then some (entry.1) else states_of name m

create_unless :
    String
    → ℕ
    → List (String × CapsuleForwardingStates)
    → Option CapsuleForwardingStates
    → List (String × CapsuleForwardingStates)
create_unless name queue_size m none = (name, new_capsule_forwarding_states name queue_size) ∷ m
create_unless name queue_size m (some ds) = m

-- The table that `createOrGetCapsuleForwardingStates` leaves.
unfoldable pub create_or_get :
    String → ℕ → List (String × CapsuleForwardingStates) → List (String × CapsuleForwardingStates)
unfolding create_unless
create_or_get name queue_size m = create_unless name queue_size m (states_of name m)

unfoldable pub request : InterestCall → Prefixes → Prefixes
request c p = record p { calls = c ∷ p.calls }

-- `sendLltcInterest` sets the tag on the packet itself.
unfoldable pub send_lltc_interest : Interest → ℕ → ℕ → Prefixes → Prefixes
unfolding request
send_lltc_interest interest face rsg_id =
    request (send_interest (record interest { rsg_id_tag = some rsg_id }) face)

unfoldable pub send_to_hops : Interest → List ℕ → Prefixes → Prefixes
unfolding request
send_to_hops interest [] p = p
send_to_hops interest (face ∷ faces) p =
    send_to_hops interest faces (request (send_interest interest face) p)

-- The branch without an upstream entry, with the next hops of `lookupFib`.
unfoldable pub send_locally : Interest → List ℕ → Prefixes → Prefixes
unfolding send_to_hops request
send_locally interest [] p = request reject_pending_interest p
send_locally interest (face ∷ faces) p = send_to_hops interest (face ∷ faces) p

unfoldable pub to_upstream :
    Config → Interest → List ℕ → ℕ → Option LltcFibEntry → Prefixes → Prefixes
unfolding send_locally send_lltc_interest create_or_get
to_upstream config interest next_hops rsg_id none p = send_locally interest next_hops p
to_upstream config interest next_hops rsg_id (some fe) p =
    let sent = send_lltc_interest interest fe.face_next_hop rsg_id p in
    record sent {
      states_map =
          create_or_get interest.name config.queue_size_for_transmitted_data_ids sent.states_map;
    }

unfoldable pub in_subgraph :
    Config
    → ForwardingStateCollection
    → Interest
    → List ℕ
    → ℕ
    → Option ForwardingStateForRsg
    → Prefixes
    → Prefixes
unfolding to_upstream
in_subgraph config coll interest next_hops rsg_id none p = p
in_subgraph config coll interest next_hops rsg_id (some fs) p =
    to_upstream config interest next_hops rsg_id
      (lookup_forwarding_entry coll rsg_id fs.primary_path_id 1) p

-- `afterReceiveInterest`, with what `hasPendingOutRecords` says of the PIT entry.
unfoldable pub after_receive_interest :
    Config → ForwardingStateCollection → Interest → Bool → List ℕ → Prefixes → Prefixes
unfolding in_subgraph
after_receive_interest config coll interest pending next_hops p =
    if pending
    then p
    else (let rsg_id = extract_rsg_id coll interest.rsg_id_tag interest.name in
        if rsg_id == uint_max
        then p
        else in_subgraph config coll interest next_hops rsg_id (get_forwarding_state coll rsg_id) p)
