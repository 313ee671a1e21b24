-- ===== src/Names.antt =====
-- NFD/daemon/fw/lltc-messages-helper.cpp (ndnSIM/ns-3/src/ndnSIM): the names that the construct
-- functions give to messages and what the parse functions read from them. A `Name` is the list of the
-- texts of its components, which hold no `/`; that of the prefix has `n` components. `none` is an
-- exception of `stoll` or `stoull`, a component behind the end of the name, or a field that is left
-- uninitialised. IDs of nodes, `int` in some construct functions, are not negative.
pub mod Content
pub mod Fields
pub mod Requests
pub mod Retransmissions
pub mod RoundTrip
pub mod Texts
pub mod Wire
use drtp.Base.{
  ℕ, zero, suc, ◌+◌, ◌-◌, ◌%◌, ◌^◌, Bool, true, false, ◌&&◌, Option, none, some, List, [], ◌∷◌,
  ◌++◌, ◌==◌, if◌then◌else◌, ◌>>=◌,
}
use drtp.Base.Seqs.{length}
use drtp.Messages.{
  RequestType, RequestSUri, RequestMUri, ReportUri, CapsuleOnRspUri, ControlUri, EchoUri, BackUri,
  LsaUri,
}
use drtp.Names.Texts.{Text, codes, show, stoll, stoull, before, behind}

abbrev pub Name : Type 0
Name = List Text

-- `name.get(k)`.
unfoldable pub get : ℕ → Name → Option Text
get k [] = none
get zero (t ∷ ts) = some t
get (suc k) (t ∷ ts) = get k ts

unfoldable pub text_eq : Text → Text → Bool
text_eq [] [] = true
text_eq [] (d ∷ t) = false
text_eq (c ∷ s) [] = false
text_eq (c ∷ s) (d ∷ t) = (c == d) && text_eq s t

-- A component as a `uint32_t`.
unfoldable pub get_number : ℕ → Name → Option ℕ
unfolding get
get_number k name = get k name >>= λ t. stoll t >>= λ v. some (v % 2 ^ 32)

unfoldable pub get_id : ℕ → Name → Option ℕ
unfolding get
get_id k name = get k name >>= λ t. stoull t >>= λ v. some (v % 2 ^ 32)

-- A component as a `RetransInMultipleID`, which has 64 bits.
unfoldable pub get_batch_id : ℕ → Name → Option ℕ
unfolding get
get_batch_id k name = get k name >>= λ t. stoull t

unfoldable pub number : ℕ → Text
number k = show k []

unfoldable pub report_name : Name → ℕ → ℕ → Name
unfolding number
report_name prefix node_id uid = prefix ++ codes "Report" ∷ number node_id ∷ number uid ∷ []

unfoldable pub parse_report_uri : ℕ → Name → Option ReportUri
unfolding get_number
parse_report_uri n name = get_number (n + 1) name >>= λ source.
    get_number (n + 2) name >>= λ uid. some (record { source_node_id = source; report_uid = uid })

unfoldable pub request_text : Bool → Text
request_text find_closest = if find_closest then codes "Exact" else codes "Closest"

-- `type.compare("Closest") != 0` tells the two apart.
unfoldable pub request_type_of : Text → RequestType
unfolding text_eq
request_type_of t = if text_eq t (codes "Closest") then RequestType.closest else RequestType.exact

unfoldable pub request_s_name : Name → ℕ → ℕ → Bool → Name
unfolding number request_text
request_s_name prefix lost node_id find_closest =
    prefix ++ codes "RequestS" ∷ number lost ∷ number node_id ∷ request_text find_closest ∷ []

unfoldable pub parse_request_s_uri : ℕ → Name → Option RequestSUri
unfolding get_id get_number get request_type_of
parse_request_s_uri n name = get_id (n + 1) name >>= λ lost. get_number (n + 2) name >>= λ source.
    get (n + 3) name >>= λ type.
    some (record { lost_data_id = lost; source_node_id = source; type = request_type_of type })

unfoldable pub request_m_name : Name → ℕ → ℕ → Bool → Name
unfolding number request_text
request_m_name prefix rib node_id find_closest =
    prefix ++ codes "RequestM" ∷ number rib ∷ number node_id ∷ request_text find_closest ∷ []

unfoldable pub parse_request_m_uri : ℕ → Name → Option RequestMUri
unfolding get_batch_id get_number get request_type_of
parse_request_m_uri n name = get_batch_id (n + 1) name >>= λ rib.
    get_number (n + 2) name >>= λ source. get (n + 3) name >>= λ type.
    some (record { rbi = rib; source_node_id = source; type = request_type_of type })

-- Without a second `-` the text behind it is the whole text.
abbrev pub or_whole : Text → Option Text → Text
or_whole t none = t
or_whole t (some s) = s

unfoldable pub echo_name : Name → ℕ → ℕ → Name
unfolding number
echo_name prefix id source =
    prefix ++ codes "Echo" ∷ number id ∷ number source ∷ codes "Unused" ∷ []

unfoldable pub parse_echo_uri : ℕ → Name → Option EchoUri
unfolding get_number
parse_echo_uri n name = get_number (n + 1) name >>= λ id.
    get_number (n + 2) name >>= λ source. some (record { echo_id = id; source_node_id = source })

unfoldable pub back_name : Name → ℕ → ℕ → ℕ → Name
unfolding number
back_name prefix id source dest =
    prefix ++ codes "Back" ∷ number id ∷ number source ∷ number dest ∷ []

unfoldable pub parse_back_uri : ℕ → Name → Option BackUri
unfolding get_number
parse_back_uri n name = get_number (n + 1) name >>= λ id. get_number (n + 2) name >>= λ source.
    get_number (n + 3) name >>= λ dest.
    some (record { echo_id = id; source_node_id = source; dest_node_id = dest })

-- `constructDownSideControl` and `constructUpSideControl`, which differ by the operation.
unfoldable pub control_name : Name → Text → ℕ → ℕ → Name
unfolding number
control_name prefix op source dest =
    prefix ++ op ∷ number source ∷ number dest ∷ codes "Unused" ∷ []

unfoldable pub parse_control_uri : ℕ → Name → Option ControlUri
unfolding get_number
parse_control_uri n name = get_number (n + 1) name >>= λ source. get_number (n + 2) name >>= λ dest.
    some (record { source_node_id = source; dst_node_id = dest })

-- The type is that of the LSA, which `compare("active")` tells apart.
unfoldable pub lsa_text : Bool → Text
lsa_text is_active = if is_active then codes "active" else codes "period"

unfoldable pub lsa_name : Name → ℕ → ℕ → ℕ → Bool → Name
unfolding number lsa_text
lsa_name prefix id source seq_no is_active =
    prefix ++ codes "LSA" ∷ number id ∷ number source ∷ show seq_no (b'-' ∷ lsa_text is_active) ∷ []

unfoldable pub parse_lsa_uri : ℕ → Name → Option LsaUri
unfolding get_number get text_eq
parse_lsa_uri n name = get_number (n + 1) name >>= λ id. get_number (n + 2) name >>= λ source.
    get (n + 3) name >>= λ t. stoll (before b'-' t) >>= λ seq_no. some (record {
      lsa_id = id;
      source_node_id = source;
      update_seq_no = seq_no % 2 ^ 32;
      is_active = text_eq (or_whole t (behind b'-' t)) (codes "active");
    })

-- `constructCapsuleOnRSP`.
unfoldable pub capsule_on_rsp_name : Name → ℕ → Bool → ℕ → Name
unfolding number
capsule_on_rsp_name prefix data_id is_retrans orig =
    prefix
    ++ codes "CapsuleOnRSP"
      ∷ number data_id
      ∷ (if is_retrans
          then codes "Retrans" ∷ number orig ∷ []
          else codes "Normal" ∷ codes "Unused" ∷ [])

-- `parseCapsuleOnRSPUri`. The requested ID is read one component behind its own.
unfoldable pub parse_capsule_on_rsp_uri : ℕ → Name → Option CapsuleOnRspUri
unfolding get_id get_number get text_eq
parse_capsule_on_rsp_uri n name = get_id (n + 1) name >>= λ id.
    (if length name == n + 4
      then (get (n + 2) name >>= λ type.
          (if text_eq type (codes "Retrans")
            then (get_number (n + 4) name >>= λ requested.
                some (record { data_id = id; is_retrans = true; requested_data_id = requested }))
            else if text_eq type (codes "Normal")
            then some (record { data_id = id; is_retrans = false; requested_data_id = id })
            else none))
      else some (record { data_id = id; is_retrans = false; requested_data_id = id }))
