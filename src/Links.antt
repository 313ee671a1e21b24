-- ===== src/Links.antt =====
-- lltc-strategy-forwarding-sublayer-path-control.cpp (ndnSIM/ns-3/src/ndnSIM/NFD/daemon/fw): how a
-- node measures its links and tells the others. A face entry is identified by its face, of which
-- there is one entry. The counting of capsules (`doActiveLinkConnectivityCheck`) is not modelled, and
-- the choice of the preferred paths (`updatePreferredPathWithLSA`) is recorded as a call.
pub mod Echos
pub mod Advertisements
pub mod Rounds
pub mod Notes
pub mod Outcome
pub mod Changes
pub mod Flooding
pub mod Sending
pub mod Failover
use drtp.Base.{
  ℕ, ◌+◌, ◌-◌, ◌%◌, ◌^◌, Bool, ◌&&◌, ◌||◌, Option, List, ◌∷◌, ◌++◌, String, ◌==◌, if◌then◌else◌,
  ◌>>=◌,
}
use drtp.Messages.{Data, LinkState}

-- `remote_lltc_node_id` is `none` for -1. A status is 0 (normal) or 1 (failure).
pub record LltcFaceEntry : Type 0 where
  pub face_next_hop : ℕ
  pub remote_lltc_node_id : Option ℕ
  pub status : ℕ
  pub last_check_time : ℕ

-- The status is 1 while the node waits, and 0 once the answer has come; `fe` is the entry's face.
pub record EchoMessageState : Type 0 where
  pub requested_time : ℕ
  pub rtt : ℕ
  pub fe : ℕ
  pub status : ℕ

pub record FaceStatusInternal : Type 0 where
  pub face_status : ℕ
  pub n_backs : ℕ

pub record LinkMeasurementState : Type 0 where
  pub next_link_test_id : ℕ
  pub echo_ids_in_link_test : List (ℕ × List ℕ)
  pub echo_msg_state_map : List (ℕ × EchoMessageState)
  pub lsa_update_seq_no : ℕ
  pub prev_lsa : Option (List LinkState)
  pub recent_lsa_ids : List ℕ

pub data LinkCall : Type 0 where
  -- `sendLltcNonPitData` without a subgraph, and `sendNonPitData`
  send_lltc : Data → ℕ → LinkCall
  send : Data → ℕ → LinkCall
  -- `updatePreferredPathWithLSA`
  update_preferred_path : ℕ → List LinkState → Bool → LinkCall
  -- `Schedule` of `runLinkTestsAndDoUpdate` and of `checkLinkConnectivityInPeriodic`
  schedule_tests : ℕ → ℕ → Bool → ℕ → Bool → LinkCall
  schedule_periodic : LinkCall

-- `calls` has the newest first.
pub record LinkNode : Type 0 where
  pub local_node_id : ℕ
  pub lltc_prefix : String
  pub times_for_check_path_connectivity : ℕ
  pub face_entries : List LltcFaceEntry
  pub measurement : LinkMeasurementState
  pub now : ℕ
  pub random : ℕ → ℕ
  pub draws : ℕ
  pub calls : List LinkCall

unfoldable pub call : LinkCall → LinkNode → LinkNode
call c σ = record σ { calls = c ∷ σ.calls }

unfoldable pub with_measurement : LinkMeasurementState → LinkNode → LinkNode
with_measurement lm σ = record σ { measurement = lm }
