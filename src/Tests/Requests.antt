-- ===== src/Tests/Requests.antt =====
-- Requests, answers and reports on the node of the tests.
use drtp.Base.{◌≡◌, refl, true, false, [], ◌∷◌, arith}
use drtp.Base.Maps.{has_key}
use drtp.Messages.{Data, RequestType, RequestSUri, ReportUri, construct_report}
use drtp.State.{State, RequestCallingParam}
use drtp.State.Ops.{with_cs}
use drtp.Retrans.Timers.{wait_for_next_capsule, wait_for_next_capsule_delayed_task}
use drtp.Retrans.Timers.Requests.{reports, delayed_task_reports_nothing}
use drtp.Retrans.Timers.Unanswered.{AsksFor, unanswered-requests}
use drtp.Retrans.Timers.Arming.{Armed, wait_for_next_capsule_once}
use drtp.Retrans.Replies.{on_receive_request_s}
use drtp.Retrans.Replies.Answers.{Answers, answer_cases}
use drtp.Retrans.Report.{on_receive_report}
use drtp.Retrans.Report.Once.{on_receive_report_twice}
use drtp.Tests.{program, topic, pit, node, capsule_of, store, subgraph, upstream}

abbrev asked : RequestCallingParam
asked = record { rest_retrans_requests = 2; find_closest_data_if_cs_missed = false; rsg_id = 3 }

unanswered-requests_example : AsksFor 1 pit upstream true 3 2 asked node
unanswered-requests_example = unanswered-requests 1 pit upstream true 3 asked node (omega arith)

wait_for_next_capsule_once_example :
    (has_key 2 node.ds.wait_for_next_data_events ≡ false → Armed 2 pit 1 3 subgraph 0 node)
    × (has_key 2 node.ds.wait_for_next_data_events ≡ true
        → wait_for_next_capsule 2 pit 1 3 subgraph 0 node ≡ node)
    × (wait_for_next_capsule 2 pit 9 3 subgraph 5 (wait_for_next_capsule 2 pit 1 3 subgraph 0 node)
        ≡ wait_for_next_capsule 2 pit 1 3 subgraph 0 node)
wait_for_next_capsule_once_example =
    wait_for_next_capsule_once 2 pit 1 3 subgraph 0 node pit 9 3 subgraph 5

-- No subgraph has the number of the preferred path, 1.
delayed_task_reports_nothing_example :
    reports (wait_for_next_capsule_delayed_task 2 pit subgraph 3 true node) ≡ reports node
delayed_task_reports_nothing_example =
    delayed_task_reports_nothing 2 pit subgraph 3 true node (unfold program in refl)

abbrev stored : State
stored = with_cs (record store { table = capsule_of 6 ∷ capsule_of 4 ∷ [] }) node

-- The URI of a request for capsule 2.
abbrev closest_uri : RequestSUri
closest_uri = record { lost_data_id = 2; source_node_id = 9; type = RequestType.closest }

answer_cases_example :
    Answers closest_uri pit 4 3 1 stored (on_receive_request_s closest_uri pit 4 3 1 stored)
answer_cases_example =
    answer_cases closest_uri pit 4 3 1 stored (unfold program in refl)
      (unfold program in omega arith)

abbrev report_uri : ReportUri
report_uri = record { source_node_id = 9; report_uid = 77 }

abbrev lost_report : Data
lost_report = construct_report topic (1 ∷ 2 ∷ []) 9 77

on_receive_report_twice_example :
    on_receive_report lost_report report_uri
      (8 ∷ [])
      pit
      subgraph
      3
      (on_receive_report lost_report report_uri (1 ∷ 2 ∷ []) pit subgraph 3 node)
    ≡ on_receive_report lost_report report_uri (1 ∷ 2 ∷ []) pit subgraph 3 node
on_receive_report_twice_example =
    on_receive_report_twice lost_report lost_report report_uri report_uri (1 ∷ 2 ∷ []) (8 ∷ []) pit
      pit subgraph subgraph 3 3 node refl
