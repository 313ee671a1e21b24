-- ===== src/Names/Wire.antt =====
-- NFD/daemon/fw/lltc-messages-helper.cpp (ndnSIM/ns-3/src/ndnSIM): messages with a list in their
-- content, as their name and their bytes, against the bodies of drtp.Messages.
use drtp.Base.{ℕ, ◌^◌, ◌<◌, ◌≡◌, refl, Bool, Option, some, List, String, ◌>>=◌}
use drtp.Base.Seqs.{length, All}
use drtp.Messages.{Data, Body, LinkState, construct_report, construct_request_m, construct_lsa}
use drtp.Names.{
  Name, report_name, parse_report_uri, request_m_name, parse_request_m_uri, lsa_name, parse_lsa_uri,
}
use drtp.Names.Content.{
  id_list_content, extract_ids, lsa_content, extract_lsa, Fits, extract_ids-id_list_content,
  extract_lsa-lsa_content,
}
use drtp.Names.Requests.{
  parse_report_uri-report_name, parse_request_m_uri-request_m_name, parse_lsa_uri-lsa_name,
}

-- What a receiver takes from a message: the parse function on its name, the extract function on its
-- content.
unfoldable pub read_report : ℕ → Name → List ℕ → Option Body
read_report n name content =
    parse_report_uri n name >>= λ uri. extract_ids content >>= λ ids. some (Body.report uri ids)

unfoldable pub read_request_m : ℕ → Name → List ℕ → Option Body
read_request_m n name content = parse_request_m_uri n name >>= λ uri.
    extract_ids content >>= λ ids. some (Body.request_m uri ids)

unfoldable pub read_lsa : ℕ → Name → List ℕ → Option Body
read_lsa n name content =
    parse_lsa_uri n name >>= λ uri. extract_lsa content >>= λ states. some (Body.lsa uri states)

-- For a name prefix, numbers below `2 ^ 32`, a batch ID below `2 ^ 64`, a list of fewer than `2 ^ 64` IDs below `2 ^ 32` and one of
-- fewer than `2 ^ 64` link states below `2 ^ 31`: the name and the content of a Report, of a RequestM
-- and of an LSA give back the body that their construct functions are modelled to build.
pub read_lem :
    (prefix : Name) (text : String) (id rib node_id seq_no : ℕ) (flag : Bool) (ids : List ℕ)
    (ls_list : List LinkState)
    → id < 2 ^ 32
    → rib < 2 ^ 64
    → node_id < 2 ^ 32
    → seq_no < 2 ^ 32
    → length ids < 2 ^ 64
    → All (λ i. i < 2 ^ 32) ids
    → length ls_list < 2 ^ 64
    → All Fits ls_list
    → (read_report (length prefix) (report_name prefix node_id id) (id_list_content ids)
        ≡ some (Data.body (construct_report text ids node_id id)))
      × (read_request_m
            (length prefix)
            (request_m_name prefix rib node_id flag)
            (id_list_content ids)
          ≡ some (Data.body (construct_request_m text rib ids node_id flag)))
      × (read_lsa (length prefix) (lsa_name prefix id node_id seq_no flag) (lsa_content ls_list)
          ≡ some (Data.body (construct_lsa text id node_id seq_no ls_list flag)))
unfolding read_report read_request_m read_lsa construct_report construct_request_m construct_lsa
read_lem prefix text id rib node_id seq_no flag ids ls_list h b g d n all m fits =
    let id_list = extract_ids-id_list_content ids n all in
    (
      rw (parse_report_uri-report_name prefix id node_id h g, id_list) refl,
      rw (parse_request_m_uri-request_m_name prefix rib node_id flag b g, id_list) refl,
      rw
          (
            parse_lsa_uri-lsa_name prefix id node_id h g seq_no flag d,
            extract_lsa-lsa_content ls_list m fits,
          )
          refl,
    )
