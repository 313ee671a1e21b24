-- ===== src/Names/Requests.antt =====
-- NFD/daemon/fw/lltc-messages-helper.cpp (ndnSIM/ns-3/src/ndnSIM): the names of requests and reports,
-- of the measurement of links, and of capsules on a redundant sub-path, read back.
use drtp.Base.{
  ℕ, ◌+◌, ◌%◌, ◌^◌, ◌<◌, ◌≡◌, refl, Bool, true, false, none, some, [], ◌∷◌, ◌++◌, arith, ◌==◌,
  if◌then◌else◌,
}
use drtp.Base.Seqs.{length, length-append}
use drtp.Messages.{request_type}
use drtp.Names.Texts.{
  Text, codes, show, before, behind, is_digit, stoll-show, before-digits, behind-digits,
}
use drtp.Names.{
  Name, get, number, text_eq, request_text, request_type_of, request_s_name, parse_request_s_uri,
  request_m_name, parse_request_m_uri, report_name, parse_report_uri, echo_name, parse_echo_uri,
  back_name, parse_back_uri, control_name, parse_control_uri, lsa_text, lsa_name, parse_lsa_uri,
  capsule_on_rsp_name, parse_capsule_on_rsp_uri,
}
use drtp.Names.Fields.{
  get-append, get_number-number, get_number-none, get_id-number, get_batch_id-number,
}

request_type_of-request_text : (b : Bool) → request_type_of (request_text b) ≡ request_type b
unfolding request_type_of request_text request_type text_eq
request_type_of-request_text true = refl
request_type_of-request_text false = refl

text_eq-lsa_text : (b : Bool) → text_eq (lsa_text b) (codes "active") ≡ b
unfolding text_eq lsa_text
text_eq-lsa_text true = refl
text_eq-lsa_text false = refl

-- A batch ID has 64 bits.
pub parse_request_m_uri-request_m_name :
    (prefix : Name) (rib node_id : ℕ) (find_closest : Bool)
    → rib < 2 ^ 64
    → node_id < 2 ^ 32
    → parse_request_m_uri (length prefix) (request_m_name prefix rib node_id find_closest)
      ≡ some (record { rbi = rib; source_node_id = node_id; type = request_type find_closest })
unfolding parse_request_m_uri request_m_name get
parse_request_m_uri-request_m_name prefix rib node_id find_closest h g =
    let rest = codes "RequestM" ∷ number rib ∷ number node_id ∷ request_text find_closest ∷ [] in
    rw
      (
        get_batch_id-number prefix rest 1 rib h refl,
        get_number-number prefix rest 2 node_id g refl,
        get-append prefix rest 3,
        request_type_of-request_text find_closest,
      )
      refl

module _ (prefix : Name) (id node_id : ℕ) (h : id < 2 ^ 32) (g : node_id < 2 ^ 32) where
  module _ (find_closest : Bool) where
    pub parse_request_s_uri-request_s_name :
        parse_request_s_uri (length prefix) (request_s_name prefix id node_id find_closest)
        ≡ some (record {
          lost_data_id = id;
          source_node_id = node_id;
          type = request_type find_closest;
        })
    unfolding parse_request_s_uri request_s_name get
    parse_request_s_uri-request_s_name =
        let rest = codes "RequestS" ∷ number id ∷ number node_id ∷ request_text find_closest ∷ [] in
        rw
          (
            get_id-number prefix rest 1 id h refl,
            get_number-number prefix rest 2 node_id g refl,
            get-append prefix rest 3,
            request_type_of-request_text find_closest,
          )
          refl

  pub parse_report_uri-report_name :
      parse_report_uri (length prefix) (report_name prefix node_id id)
      ≡ some (record { source_node_id = node_id; report_uid = id })
  unfolding parse_report_uri report_name get
  parse_report_uri-report_name =
      let rest = codes "Report" ∷ number node_id ∷ number id ∷ [] in
      rw (get_number-number prefix rest 1 node_id g refl, get_number-number prefix rest 2 id h refl)
        refl

  pub parse_echo_uri-echo_name :
      parse_echo_uri (length prefix) (echo_name prefix id node_id)
      ≡ some (record { echo_id = id; source_node_id = node_id })
  unfolding parse_echo_uri echo_name get
  parse_echo_uri-echo_name =
      let rest = codes "Echo" ∷ number id ∷ number node_id ∷ codes "Unused" ∷ [] in
      rw (get_number-number prefix rest 1 id h refl, get_number-number prefix rest 2 node_id g refl)
        refl

  pub parse_back_uri-back_name :
      (dest : ℕ)
      → dest < 2 ^ 32
      → parse_back_uri (length prefix) (back_name prefix id node_id dest)
        ≡ some (record { echo_id = id; source_node_id = node_id; dest_node_id = dest })
  unfolding parse_back_uri back_name get
  parse_back_uri-back_name dest d =
      let rest = codes "Back" ∷ number id ∷ number node_id ∷ number dest ∷ [] in
      rw
        (
          get_number-number prefix rest 1 id h refl,
          get_number-number prefix rest 2 node_id g refl,
          get_number-number prefix rest 3 dest d refl,
        )
        refl

  pub parse_lsa_uri-lsa_name :
      (seq_no : ℕ) (is_active : Bool)
      → seq_no < 2 ^ 32
      → parse_lsa_uri (length prefix) (lsa_name prefix id node_id seq_no is_active)
        ≡ some (record {
          lsa_id = id;
          source_node_id = node_id;
          update_seq_no = seq_no;
          is_active = is_active;
        })
  unfolding parse_lsa_uri lsa_name get before behind is_digit
  parse_lsa_uri-lsa_name seq_no is_active d =
      let t = show seq_no (b'-' ∷ lsa_text is_active) in
      let rest = codes "LSA" ∷ number id ∷ number node_id ∷ t ∷ [] in
      let wrap : seq_no % 2 ^ 32 ≡ seq_no = omega (arith, d) in
      rw
        (
          get_number-number prefix rest 1 id h refl,
          get_number-number prefix rest 2 node_id g refl,
          get-append prefix rest 3,
          before-digits b'-' 20 seq_no (b'-' ∷ lsa_text is_active) refl,
          stoll-show seq_no [] (omega (arith, d)) refl,
          behind-digits b'-' 20 seq_no (b'-' ∷ lsa_text is_active) refl,
          wrap,
          text_eq-lsa_text is_active,
        )
        refl

  -- The two control messages.
  pub parse_control_uri-control_name :
      (op : Text)
      → parse_control_uri (length prefix) (control_name prefix op id node_id)
        ≡ some (record { source_node_id = id; dst_node_id = node_id })
  unfolding parse_control_uri control_name get
  parse_control_uri-control_name op =
      let rest = op ∷ number id ∷ number node_id ∷ codes "Unused" ∷ [] in
      rw (get_number-number prefix rest 1 id h refl, get_number-number prefix rest 2 node_id g refl)
        refl

has_four :
    (prefix rest : Name) → length rest ≡ 4 → (length (prefix ++ rest) == length prefix + 4) ≡ true
has_four prefix rest e =
    let n : length (prefix ++ rest) ≡ length prefix + 4 =
      omega (arith, length-append prefix rest, e) in
    ground (arith, n)

-- For an ID below `2 ^ 32`: parseCapsuleOnRSPUri reads the ID back from the name that
-- constructCapsuleOnRSP gives to a capsule that was not retransmitted, with the same requested ID.
-- From the name of a retransmitted one it reads a component behind the end of the name.
pub parse_capsule_on_rsp_uri-capsule_on_rsp_name :
    (prefix : Name) (data_id : ℕ) (is_retrans : Bool) (orig : ℕ)
    → data_id < 2 ^ 32
    → parse_capsule_on_rsp_uri (length prefix) (capsule_on_rsp_name prefix data_id is_retrans orig)
      ≡ (if is_retrans
          then none
          else some (record { data_id = data_id; is_retrans = false; requested_data_id = data_id }))
unfolding parse_capsule_on_rsp_uri capsule_on_rsp_name get text_eq
parse_capsule_on_rsp_uri-capsule_on_rsp_name prefix data_id true orig h =
    let rest = codes "CapsuleOnRSP" ∷ number data_id ∷ codes "Retrans" ∷ number orig ∷ [] in
    rw
      (
        get_id-number prefix rest 1 data_id h refl,
        has_four prefix rest refl,
        get-append prefix rest 2,
        get_number-none prefix rest 4 refl,
      )
      refl
parse_capsule_on_rsp_uri-capsule_on_rsp_name prefix data_id false orig h =
    let rest = codes "CapsuleOnRSP" ∷ number data_id ∷ codes "Normal" ∷ codes "Unused" ∷ [] in
    rw
      (
        get_id-number prefix rest 1 data_id h refl,
        has_four prefix rest refl,
        get-append prefix rest 2,
      )
      refl
