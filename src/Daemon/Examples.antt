-- ===== src/Daemon/Examples.antt =====
-- Runs of the daemon in the small world, and the theorems at such runs.
use cloud_glider.Prelude.{[], ◌≡◌, refl, arith, ◌↔◌, ◌≢◌, some, none, true, false}
use cloud_glider.Python.Result.{Result, ok, err}
use cloud_glider.Daemon.Config.{audit_table_name, generation_number}
use cloud_glider.Daemon.Control.{
  differs, require, region_of, check_region, check_timing, check_lowercase, check_switches,
  validated_control, items, control_identity, identity_differs,
}
use cloud_glider.Daemon.Cycle.{
  set_poll, retire, propagate, as_owner, release, with_lease, take_lease, owner_round, owner_cycle,
  cycle,
}
use cloud_glider.Daemon.Handoff.{
  still_healthy, check_health, handoff_expected, handoff_successor, handoff_audit, transfer,
  conditional_handoff,
}
use cloud_glider.Daemon.Heartbeat.{
  freshness, read_int, heartbeat_time, int_item, fresh_at, eligible_heartbeat, first_accepted,
  next_accepted, elapsed_since, spaced_accepted, same_sequence, later_accepted, accept_after,
  accept,
}
use cloud_glider.Daemon.Identity.{
  own_parameters, verify_parameters, verify_self, is_current_owner, read_current, heartbeat_state,
  heartbeat, reconcile_claim, claim_current, ensure_bootstrap_ownership,
}
use cloud_glider.Daemon.Provision.{
  lease_seconds, enabled_control, read_control_and_hold, fresh_enabled_control, describe_stack,
  reuse_successor, create_checked, create_successor, continue_with, provision_successor, renew,
}
use cloud_glider.Daemon.Readiness.{
  known_instance, read_generation_state, judge, judge_found, observe_successor, check_stack,
  wait_round, after_step, wait_loop, or_out_of_fuel, wait_for_healthy_successor,
}
use cloud_glider.Daemon.Run.{attempt, pause, run_loop, stop_with_hold, run}
use cloud_glider.Daemon.Session.{start, call, observe, log, now_seconds, now_ms, sleep}
use cloud_glider.Daemon.Specification.{
  stable_token, select, renamed, identity, successor_parameters, stack_specification,
}
use cloud_glider.Prelude.Int.{◌+ℤ◌, ◌-ℤ◌, ◌*ℤ◌}
use cloud_glider.Python.Dict.{lookup, insert, update, keys, has_key, dict_eq}
use cloud_glider.Python.Exec.{
  pure, raise, lift, gets, modify, ◌>>=◌, finally, catch_transient, catch_safety,
}
use cloud_glider.Python.Text.{
  text_length, all_codes, matches_generation, matches_sha256, matches_account, matches_request_id,
  matches_node_path, lower, contains, ends_with, split_colon, decimal, format_06d, format_06d_int,
  take, join, int_of_text,
}
use cloud_glider.Python.Value.{value_eq, truth, to_int, as_number, get, item, as_text}
use cloud_glider.Prelude.Int.{pos}
use cloud_glider.Python.Value.{str}
use cloud_glider.Daemon.Readiness.{Wait, initial_waiting}
use cloud_glider.Daemon.Lineage.{successor-generation_number}
use cloud_glider.Daemon.Gateway.{Specification}
use cloud_glider.Daemon.Control.Approved.{IsApproved, validated_control-ok_iff}
use cloud_glider.Daemon.Readiness.Progress.{IsSteady, wait_loop-ends}
use cloud_glider.Daemon.Readiness.Proved.{IsReady, wait_for_healthy_successor-IsReady}
use cloud_glider.Daemon.Guard.{IsGuarded, owes_release}
use cloud_glider.Daemon.Guard.Runs.{run-IsGuarded}
use cloud_glider.Daemon.Exit.{IsExit, run-IsExit}
use cloud_glider.Daemon.Lab.{
  config, control, gateway, daemon, dawn, day, successor, misplaced, beat, own_stack, own_arn,
}

-- One cycle hands over to a successor that it created; the next finds that it owns nothing.
hands_over : (run daemon 20 1 (start dawn)).0 ≡ ok none
unfolding audit_table_name generation_number differs require region_of check_region check_timing
    check_lowercase check_switches validated_control items control_identity identity_differs
    set_poll retire propagate as_owner release with_lease take_lease owner_round owner_cycle cycle
    still_healthy check_health handoff_expected handoff_successor handoff_audit transfer
    conditional_handoff freshness read_int heartbeat_time int_item fresh_at eligible_heartbeat
    first_accepted next_accepted elapsed_since spaced_accepted same_sequence later_accepted
    accept_after accept own_parameters verify_parameters verify_self is_current_owner read_current
    heartbeat_state heartbeat reconcile_claim claim_current ensure_bootstrap_ownership lease_seconds
    enabled_control read_control_and_hold fresh_enabled_control describe_stack reuse_successor
    create_checked create_successor continue_with provision_successor renew known_instance
    read_generation_state judge judge_found observe_successor check_stack wait_round after_step
    wait_loop or_out_of_fuel wait_for_healthy_successor attempt pause run_loop stop_with_hold run
    start call observe log now_seconds now_ms sleep stable_token select renamed identity
    successor_parameters stack_specification ◌+ℤ◌ ◌-ℤ◌ ◌*ℤ◌ lookup insert update keys has_key
    dict_eq pure raise lift gets modify ◌>>=◌ finally catch_transient catch_safety text_length
    all_codes matches_generation matches_sha256 matches_account matches_request_id matches_node_path
    lower contains ends_with split_colon decimal format_06d format_06d_int take join int_of_text
    value_eq truth to_int as_number get item as_text
hands_over = refl

owner_after :
    (lookup "generation" (run daemon 20 1 (start dawn)).1.world.owner)
    ≡ some (cloud_glider.Python.Value.str "000001")
unfolding audit_table_name generation_number differs require region_of check_region check_timing
    check_lowercase check_switches validated_control items control_identity identity_differs
    set_poll retire propagate as_owner release with_lease take_lease owner_round owner_cycle cycle
    still_healthy check_health handoff_expected handoff_successor handoff_audit transfer
    conditional_handoff freshness read_int heartbeat_time int_item fresh_at eligible_heartbeat
    first_accepted next_accepted elapsed_since spaced_accepted same_sequence later_accepted
    accept_after accept own_parameters verify_parameters verify_self is_current_owner read_current
    heartbeat_state heartbeat reconcile_claim claim_current ensure_bootstrap_ownership lease_seconds
    enabled_control read_control_and_hold fresh_enabled_control describe_stack reuse_successor
    create_checked create_successor continue_with provision_successor renew known_instance
    read_generation_state judge judge_found observe_successor check_stack wait_round after_step
    wait_loop or_out_of_fuel wait_for_healthy_successor attempt pause run_loop stop_with_hold run
    start call observe log now_seconds now_ms sleep stable_token select renamed identity
    successor_parameters stack_specification ◌+ℤ◌ ◌-ℤ◌ ◌*ℤ◌ lookup insert update keys has_key
    dict_eq pure raise lift gets modify ◌>>=◌ finally catch_transient catch_safety text_length
    all_codes matches_generation matches_sha256 matches_account matches_request_id matches_node_path
    lower contains ends_with split_colon decimal format_06d format_06d_int take join int_of_text
    value_eq truth to_int as_number get item as_text
owner_after = refl

misplaced_stops : (run misplaced 20 1 (start dawn)).0 ≡ ok (some 2)
unfolding audit_table_name generation_number differs require region_of check_region check_timing
    check_lowercase check_switches validated_control items control_identity identity_differs
    set_poll retire propagate as_owner release with_lease take_lease owner_round owner_cycle cycle
    still_healthy check_health handoff_expected handoff_successor handoff_audit transfer
    conditional_handoff freshness read_int heartbeat_time int_item fresh_at eligible_heartbeat
    first_accepted next_accepted elapsed_since spaced_accepted same_sequence later_accepted
    accept_after accept own_parameters verify_parameters verify_self is_current_owner read_current
    heartbeat_state heartbeat reconcile_claim claim_current ensure_bootstrap_ownership lease_seconds
    enabled_control read_control_and_hold fresh_enabled_control describe_stack reuse_successor
    create_checked create_successor continue_with provision_successor renew known_instance
    read_generation_state judge judge_found observe_successor check_stack wait_round after_step
    wait_loop or_out_of_fuel wait_for_healthy_successor attempt pause run_loop stop_with_hold run
    start call observe log now_seconds now_ms sleep stable_token select renamed identity
    successor_parameters stack_specification ◌+ℤ◌ ◌-ℤ◌ ◌*ℤ◌ lookup insert update keys has_key
    dict_eq pure raise lift gets modify ◌>>=◌ finally catch_transient catch_safety text_length
    all_codes matches_generation matches_sha256 matches_account matches_request_id matches_node_path
    lower contains ends_with split_colon decimal format_06d format_06d_int take join int_of_text
    value_eq truth to_int as_number get item as_text
misplaced_stops = refl

successor_is_proved :
    (wait_for_healthy_successor daemon 20 (control true) successor "arn:successor" (start day)).0
    ≡ ok (beat successor 1006)
unfolding audit_table_name generation_number differs require region_of check_region check_timing
    check_lowercase check_switches validated_control items control_identity identity_differs
    set_poll retire propagate as_owner release with_lease take_lease owner_round owner_cycle cycle
    still_healthy check_health handoff_expected handoff_successor handoff_audit transfer
    conditional_handoff freshness read_int heartbeat_time int_item fresh_at eligible_heartbeat
    first_accepted next_accepted elapsed_since spaced_accepted same_sequence later_accepted
    accept_after accept own_parameters verify_parameters verify_self is_current_owner read_current
    heartbeat_state heartbeat reconcile_claim claim_current ensure_bootstrap_ownership lease_seconds
    enabled_control read_control_and_hold fresh_enabled_control describe_stack reuse_successor
    create_checked create_successor continue_with provision_successor renew known_instance
    read_generation_state judge judge_found observe_successor check_stack wait_round after_step
    wait_loop or_out_of_fuel wait_for_healthy_successor attempt pause run_loop stop_with_hold run
    start call observe log now_seconds now_ms sleep stable_token select renamed identity
    successor_parameters stack_specification ◌+ℤ◌ ◌-ℤ◌ ◌*ℤ◌ lookup insert update keys has_key
    dict_eq pure raise lift gets modify ◌>>=◌ finally catch_transient catch_safety text_length
    all_codes matches_generation matches_sha256 matches_account matches_request_id matches_node_path
    lower contains ends_with split_colon decimal format_06d format_06d_int take join int_of_text
    value_eq truth to_int as_number get item as_text
successor_is_proved = refl

gateway-IsSteady : IsSteady gateway
gateway-IsSteady = record {
  on_read = λ w. omega arith;
  on_renew = λ owner expires w. omega arith;
  on_describe = λ id w. omega arith;
  on_instance = λ id w. omega arith;
  on_state = λ generation w. omega arith;
  on_sleep = λ n w. omega arith;
}

abbrev ten_seconds : Wait
ten_seconds = record {
  control = control true;
  specification = successor;
  stack_id = "arn:successor";
  deadline = pos 1010000;
  required = pos 2;
}

poll_of_control : int_item (control true) "readiness_poll_seconds" ≡ ok (pos 2)
unfolding audit_table_name generation_number differs require region_of check_region check_timing
    check_lowercase check_switches validated_control items control_identity identity_differs
    set_poll retire propagate as_owner release with_lease take_lease owner_round owner_cycle cycle
    still_healthy check_health handoff_expected handoff_successor handoff_audit transfer
    conditional_handoff freshness read_int heartbeat_time int_item fresh_at eligible_heartbeat
    first_accepted next_accepted elapsed_since spaced_accepted same_sequence later_accepted
    accept_after accept own_parameters verify_parameters verify_self is_current_owner read_current
    heartbeat_state heartbeat reconcile_claim claim_current ensure_bootstrap_ownership lease_seconds
    enabled_control read_control_and_hold fresh_enabled_control describe_stack reuse_successor
    create_checked create_successor continue_with provision_successor renew known_instance
    read_generation_state judge judge_found observe_successor check_stack wait_round after_step
    wait_loop or_out_of_fuel wait_for_healthy_successor attempt pause run_loop stop_with_hold run
    start call observe log now_seconds now_ms sleep stable_token select renamed identity
    successor_parameters stack_specification ◌+ℤ◌ ◌-ℤ◌ ◌*ℤ◌ lookup insert update keys has_key
    dict_eq pure raise lift gets modify ◌>>=◌ finally catch_transient catch_safety text_length
    all_codes matches_generation matches_sha256 matches_account matches_request_id matches_node_path
    lower contains ends_with split_colon decimal format_06d format_06d_int take join int_of_text
    value_eq truth to_int as_number get item as_text
poll_of_control = refl

run-IsGuarded_example :
    IsGuarded daemon (run daemon 20 1 (start dawn)).1.trace
    × (owes_release (run daemon 20 1 (start dawn)).1.trace ≡ false)
run-IsGuarded_example = run-IsGuarded daemon 20 1 dawn

run-IsExit_example : IsExit misplaced (some 2) (run misplaced 20 1 (start dawn)).1.trace
run-IsExit_example = run-IsExit misplaced 20 1 (start dawn) (some 2) misplaced_stops

wait_for_healthy_successor-IsReady_example :
    IsReady
      (control true)
      successor
      "arn:successor"
      []
      (beat successor 1006)
      (wait_for_healthy_successor daemon 20
        (control true)
        successor
        "arn:successor"
        (start day)).1.trace
unfolding start
wait_for_healthy_successor-IsReady_example =
    wait_for_healthy_successor-IsReady daemon 20 (control true) successor "arn:successor"
      (start day) (beat successor 1006) successor_is_proved

wait_loop-ends_example : (wait_loop daemon 12 ten_seconds initial_waiting (start day)).0 ≢ ok none
unfolding start
wait_loop-ends_example =
    wait_loop-ends daemon gateway-IsSteady 11 ten_seconds initial_waiting 1 (start day)
      poll_of_control (omega arith)

validated_control-ok_iff_example :
    (validated_control config (control true) ≡ ok (control true))
    ↔ ((control true ≡ control true) × IsApproved config (control true))
validated_control-ok_iff_example = validated_control-ok_iff config (control true) (control true)

abbrev or_successor : Result Specification → Specification
or_successor (ok s) = s
or_successor (err e) = successor

-- What generation 0 asks for, as generation 1.
abbrev asked_for : Specification
asked_for =
    or_successor
      (stack_specification daemon (some own_stack) (control true) (pos 1) own_arn "handoff-hash")

asked_for_is :
    stack_specification daemon (some own_stack) (control true) (pos 1) own_arn "handoff-hash"
    ≡ ok asked_for
unfolding audit_table_name generation_number differs require region_of check_region check_timing
    check_lowercase check_switches validated_control items control_identity identity_differs
    set_poll retire propagate as_owner release with_lease take_lease owner_round owner_cycle cycle
    still_healthy check_health handoff_expected handoff_successor handoff_audit transfer
    conditional_handoff freshness read_int heartbeat_time int_item fresh_at eligible_heartbeat
    first_accepted next_accepted elapsed_since spaced_accepted same_sequence later_accepted
    accept_after accept own_parameters verify_parameters verify_self is_current_owner read_current
    heartbeat_state heartbeat reconcile_claim claim_current ensure_bootstrap_ownership lease_seconds
    enabled_control read_control_and_hold fresh_enabled_control describe_stack reuse_successor
    create_checked create_successor continue_with provision_successor renew known_instance
    read_generation_state judge judge_found observe_successor check_stack wait_round after_step
    wait_loop or_out_of_fuel wait_for_healthy_successor attempt pause run_loop stop_with_hold run
    start call observe log now_seconds now_ms sleep stable_token select renamed identity
    successor_parameters stack_specification ◌+ℤ◌ ◌-ℤ◌ ◌*ℤ◌ lookup insert update keys has_key
    dict_eq pure raise lift gets modify ◌>>=◌ finally catch_transient catch_safety text_length
    all_codes matches_generation matches_sha256 matches_account matches_request_id matches_node_path
    lower contains ends_with split_colon decimal format_06d format_06d_int take join int_of_text
    value_eq truth to_int as_number get item as_text
asked_for_is = refl

successor-generation_number_example :
    (matches_generation asked_for.generation ≡ true)
    × (generation_number (record config { generation = asked_for.generation }) ≡ ok (pos 1))
successor-generation_number_example =
    successor-generation_number daemon (some own_stack) (control true) 1 own_arn "handoff-hash"
      asked_for (record config { generation = asked_for.generation }) (omega arith) asked_for_is
      refl
