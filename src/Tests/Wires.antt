-- ===== src/Tests/Wires.antt =====
-- The names and the contents of a few messages, written and read.
use drtp.Base.{◌≡◌, refl, true, none, some, List, [], ◌∷◌, arith}
use drtp.Base.Seqs.{length}
use drtp.Messages.{
  Data, RetransType, LinkState, retran_s_uri, construct_report, construct_request_m, construct_lsa,
}
use drtp.Names.Texts.{codes, digits}
use drtp.Names.{
  Name, number, request_m_name, report_name, lsa_name, capsule_on_rsp_name,
  parse_capsule_on_rsp_uri,
}
use drtp.Names.Retransmissions.{retran_s_text, retran_s_name, parse_retran_s_uri}
use drtp.Names.Content.{bytes, ids_bytes, id_list_content, lsa_content}
use drtp.Names.RoundTrip.{parse_retran_s_uri-retran_s_name}
use drtp.Names.Requests.{parse_capsule_on_rsp_uri-capsule_on_rsp_name}
use drtp.Names.Wire.{read_report, read_request_m, read_lsa, read_lem}

abbrev prefix : Name
prefix = codes "lltc" ∷ codes "7" ∷ []

retran_s_text_run : retran_s_text RetransType.closest 41 1500 ≡ codes "Closest-41D1500"
unfolding retran_s_text number digits
retran_s_text_run = refl

id_list_content_run :
    id_list_content (258 ∷ []) ≡ 1 ∷ 0 ∷ 0 ∷ 0 ∷ 0 ∷ 0 ∷ 0 ∷ 0 ∷ 2 ∷ 1 ∷ 0 ∷ 0 ∷ []
unfolding id_list_content ids_bytes bytes
id_list_content_run = refl

parse_retran_s_uri-retran_s_name_example :
    parse_retran_s_uri (length prefix) (retran_s_name prefix 42 3 RetransType.closest 41 1500)
    ≡ some (retran_s_uri 42 3 RetransType.closest 41 1500)
parse_retran_s_uri-retran_s_name_example =
    parse_retran_s_uri-retran_s_name prefix 42 3 RetransType.closest 41 1500 (omega arith)
      (omega arith) (omega arith) (omega arith)

parse_capsule_on_rsp_uri-capsule_on_rsp_name_example :
    parse_capsule_on_rsp_uri (length prefix) (capsule_on_rsp_name prefix 42 true 41) ≡ none
parse_capsule_on_rsp_uri-capsule_on_rsp_name_example =
    parse_capsule_on_rsp_uri-capsule_on_rsp_name prefix 42 true 41 (omega arith)

abbrev failed : List LinkState
failed = record { neighbored_node_id = 4; status = 0 } ∷ []

read_lem_example :
    (read_report (length prefix) (report_name prefix 3 9) (id_list_content (42 ∷ 43 ∷ []))
      ≡ some (Data.body (construct_report "/lltc/7" (42 ∷ 43 ∷ []) 3 9)))
    × (read_request_m
          (length prefix)
          (request_m_name prefix 1099511627776 3 true)
          (id_list_content (42 ∷ 43 ∷ []))
        ≡ some (Data.body (construct_request_m "/lltc/7" 1099511627776 (42 ∷ 43 ∷ []) 3 true)))
    × (read_lsa (length prefix) (lsa_name prefix 9 3 5 true) (lsa_content failed)
        ≡ some (Data.body (construct_lsa "/lltc/7" 9 3 5 failed true)))
read_lem_example =
    read_lem prefix "/lltc/7" 9 1099511627776 3 5 true (42 ∷ 43 ∷ []) failed (omega arith)
      (omega arith) (omega arith) (omega arith) (omega arith) (omega arith, (omega arith, tt))
      (omega arith) ((omega arith, omega arith), tt)
