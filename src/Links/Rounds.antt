-- ===== src/Links/Rounds.antt =====
-- The rounds of a link test (lltc-strategy-forwarding-sublayer-path-control.cpp):
-- `runLinkTestsAndDoUpdate` and the periodic and the active check that start it.
use drtp.Base.{ℕ, zero, suc, ◌+◌, ◌%◌, ◌^◌, Bool, true, false, Option, some, ◌>>=◌}
use drtp.Base.Maps.{assign}
use drtp.Links.{schedule_tests, schedule_periodic, LinkNode, call, with_measurement}
use drtp.Links.Echos.{echo_ids_of, broadcast_echos, update_face_stats_with_link_test_states}
use drtp.Links.Advertisements.{broadcasting_lsa_task}

-- `runLinkTestsAndDoUpdate`.
unfoldable pub run_link_tests_and_do_update : ℕ → ℕ → Bool → ℕ → Bool → LinkNode → Option LinkNode
run_link_tests_and_do_update zero test is_full face is_active σ =
    update_face_stats_with_link_test_states test σ >>= λ σ'.
    some (broadcasting_lsa_task is_active σ')
run_link_tests_and_do_update (suc times) test is_full face is_active σ = some (
    call (schedule_tests times test is_full face is_active)
      (broadcast_echos test is_full face σ.face_entries σ))

-- `linkTestID = nextLinkTestID++; EchoIDsInLinkTest[linkTestID];`
open_test : LinkNode → LinkNode
open_test σ =
    let lm = σ.measurement in
    let test = lm.next_link_test_id in
    with_measurement
      (record lm {
        next_link_test_id = (test + 1) % 2 ^ 32;
        echo_ids_in_link_test = assign test (echo_ids_of test lm) lm.echo_ids_in_link_test;
      })
      σ

-- `checkLinkConnectivityInPeriodic`.
unfoldable pub check_link_connectivity_in_periodic : LinkNode → Option LinkNode
unfolding open_test
check_link_connectivity_in_periodic σ =
    run_link_tests_and_do_update σ.times_for_check_path_connectivity σ.measurement.next_link_test_id
      true 0 false (open_test σ)
    >>= λ σ'. some (call schedule_periodic σ')

-- `checkLinkConnectivityInActiveManner`.
unfoldable pub check_link_connectivity_in_active_manner : ℕ → LinkNode → Option LinkNode
unfolding open_test
check_link_connectivity_in_active_manner face σ =
    run_link_tests_and_do_update σ.times_for_check_path_connectivity σ.measurement.next_link_test_id
      false face true (open_test σ)
