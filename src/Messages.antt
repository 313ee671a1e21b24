-- ===== src/Messages.antt =====
-- NFD/daemon/fw/lltc-common.hpp and lltc-messages-helper.cpp (ndnSIM/ns-3/src/ndnSIM): the messages
-- of the protocol. A `Data` packet is kept by what the parse functions read from it: the prefix of
-- its name, the operation with the fields of its `*Uri` structure, its content and its tags. The
-- text of the names and the bytes of the ID lists are in drtp.Names.
use drtp.Base.{ℕ, Bool, true, false, Option, none, List, String, if◌then◌else◌}

-- The last component of a RequestS or RequestM name.
pub data RequestType : Type 0 where
  exact closest : RequestType

-- DATA_RETRANS_IN_SINGLE_TYPE_*.
pub data RetransType : Type 0 where
  exact closest miss : RetransType

pub record RequestSUri : Type 0 where
  pub lost_data_id : ℕ
  pub source_node_id : ℕ
  pub type : RequestType

pub record RetranSUri : Type 0 where
  pub data_id : ℕ
  pub source_node_id : ℕ
  pub type : RetransType
  pub requested_data_id : ℕ
  pub drifting_delta : ℕ

pub record RetranMUri : Type 0 where
  pub bri : ℕ
  pub source_node_id : ℕ
  pub is_exact : Bool
  pub data_id : ℕ
  pub requested_data_id : ℕ

pub record RequestMUri : Type 0 where
  pub rbi : ℕ
  pub source_node_id : ℕ
  pub type : RequestType

pub record ReportUri : Type 0 where
  pub source_node_id : ℕ
  pub report_uid : ℕ

pub record CapsuleOnRspUri : Type 0 where
  pub data_id : ℕ
  pub is_retrans : Bool
  pub requested_data_id : ℕ

pub record ControlUri : Type 0 where
  pub source_node_id : ℕ
  pub dst_node_id : ℕ

pub record EchoUri : Type 0 where
  pub echo_id : ℕ
  pub source_node_id : ℕ

pub record BackUri : Type 0 where
  pub echo_id : ℕ
  pub source_node_id : ℕ
  pub dest_node_id : ℕ

pub record LinkState : Type 0 where
  pub neighbored_node_id : ℕ
  pub status : ℕ

pub record LsaUri : Type 0 where
  pub lsa_id : ℕ
  pub source_node_id : ℕ
  pub update_seq_no : ℕ
  pub is_active : Bool

-- The operation of a message (LLTC_MSG_OP_*), with its arguments and content.
pub data Body : Type 0 where
  capsule : ℕ → List ℕ → Body
  capsule_on_rsp : CapsuleOnRspUri → List ℕ → Body
  down_side_control : ControlUri → List ℕ → Body
  up_side_control : ControlUri → List ℕ → Body
  retran_s : RetranSUri → List ℕ → Body
  retran_m : RetranMUri → List ℕ → Body
  request_s : RequestSUri → Body
  request_m : RequestMUri → List ℕ → Body
  report : ReportUri → List ℕ → Body
  lsa : LsaUri → List LinkState → Body
  echo : EchoUri → Body
  back : BackUri → Body
  other : String → Body

pub record Data : Type 0 where
  pub prefix : String
  pub body : Body
  pub freshness_period : ℕ
  pub rsg_id_tag : Option ℕ
  pub path_id_tag : Option ℕ
  pub transient_tag : Option ℕ

-- A new packet has no tags.
abbrev pub new_data : String → Body → ℕ → Data
new_data prefix body freshness = record {
  prefix = prefix;
  body = body;
  freshness_period = freshness;
  rsg_id_tag = none;
  path_id_tag = none;
  transient_tag = none;
}

unfoldable pub construct_report : String → List ℕ → ℕ → ℕ → Data
construct_report prefix lost node_id uid =
    new_data prefix (report (record { source_node_id = node_id; report_uid = uid }) lost) 1000

-- `(findClosestDataIfCsMissed ? "Exact" : "Closest")`, as the source has it.
unfoldable pub request_type : Bool → RequestType
request_type true = RequestType.exact
request_type false = RequestType.closest

unfoldable pub construct_request_s : String → ℕ → ℕ → Bool → Data
construct_request_s prefix lost node_id find_closest =
    new_data prefix
      (request_s (record {
        lost_data_id = lost;
        source_node_id = node_id;
        type = request_type find_closest;
      }))
      1000

unfoldable pub construct_request_m : String → ℕ → List ℕ → ℕ → Bool → Data
construct_request_m prefix rib lost node_id find_closest =
    new_data prefix
      (request_m (record { rbi = rib; source_node_id = node_id; type = request_type find_closest })
        lost)
      1000

-- The name holds the ID of the found data; the parse function takes the requested ID from the text
-- behind `Closest-`, and from the ID of the data for the other types. A Miss has no content.
unfoldable pub retran_s_uri : ℕ → ℕ → RetransType → ℕ → ℕ → RetranSUri
retran_s_uri lost node_id RetransType.exact closest_id time = record {
  data_id = lost;
  source_node_id = node_id;
  type = RetransType.exact;
  requested_data_id = lost;
  drifting_delta = time;
}
retran_s_uri lost node_id RetransType.closest closest_id time = record {
  data_id = lost;
  source_node_id = node_id;
  type = RetransType.closest;
  requested_data_id = closest_id;
  drifting_delta = time;
}
retran_s_uri lost node_id RetransType.miss closest_id time = record {
  data_id = lost;
  source_node_id = node_id;
  type = RetransType.miss;
  requested_data_id = lost;
  drifting_delta = 0;
}

unfoldable pub construct_retran_s : String → ℕ → ℕ → RetransType → ℕ → List ℕ → ℕ → ℕ → Data
construct_retran_s prefix lost node_id type closest_id content freshness time =
    new_data prefix (retran_s (retran_s_uri lost node_id type closest_id time) content) freshness

unfoldable pub retran_m_uri : ℕ → ℕ → Bool → ℕ → ℕ → RetranMUri
retran_m_uri bri node_id is_exact data_id requested = record {
  bri = bri;
  source_node_id = node_id;
  is_exact = is_exact;
  data_id = data_id;
  requested_data_id = if is_exact then data_id else requested;
}

unfoldable pub construct_retran_m : String → ℕ → ℕ → Bool → ℕ → ℕ → List ℕ → ℕ → Data
unfolding retran_m_uri
construct_retran_m prefix bri node_id is_exact data_id requested content freshness =
    new_data prefix (retran_m (retran_m_uri bri node_id is_exact data_id requested) content)
      freshness

unfoldable pub construct_capsule : String → ℕ → List ℕ → ℕ → Data
construct_capsule prefix data_id content freshness =
    new_data prefix (capsule data_id content) freshness

unfoldable pub construct_capsule_on_rsp : String → ℕ → List ℕ → ℕ → Bool → ℕ → Data
construct_capsule_on_rsp prefix data_id content freshness is_retrans orig =
    new_data prefix
      (capsule_on_rsp
        (record {
          data_id = data_id;
          is_retrans = is_retrans;
          requested_data_id = if is_retrans then orig else data_id;
        })
        content)
      freshness

-- The messages of the link measurement are named under the prefix of the protocol.
unfoldable pub construct_echo : String → ℕ → ℕ → Data
construct_echo prefix id source =
    new_data prefix (echo (record { echo_id = id; source_node_id = source })) 1000

unfoldable pub construct_back : String → ℕ → ℕ → ℕ → Data
construct_back prefix id source dest =
    new_data prefix (back (record { echo_id = id; source_node_id = source; dest_node_id = dest }))
      1000

unfoldable pub construct_lsa : String → ℕ → ℕ → ℕ → List LinkState → Bool → Data
construct_lsa prefix id source seq_no ls_list is_active =
    new_data prefix
      (lsa
        (record {
          lsa_id = id;
          source_node_id = source;
          update_seq_no = seq_no;
          is_active = is_active;
        })
        ls_list)
      1000
