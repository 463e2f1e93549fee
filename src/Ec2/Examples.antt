-- ===== src/Ec2/Examples.antt =====
-- The control record of an EC2 chain that the daemon accepts, and the theorem at it.
use cloud_glider.Daemon.Specification.{select, stable_token}
use cloud_glider.Daemon.Provision.{lease_seconds}
use cloud_glider.Python.Exec.{◌>>=◌, lift, pure}
use cloud_glider.Ec2.Session.{now_ms, Session, call, now_seconds, observe}
use cloud_glider.Ec2.Specification.{
  control_fingerprint, control_identity, handoff_token, identity, identity_differs, specification,
  specification_tags,
}
use cloud_glider.Ec2.Ownership.{
  describe_instance, enabled_control, fresh_enabled_control, generation_number, is_current_owner,
  owner_entries, read_control_and_hold, read_current, renew, require_owner, unchanged_control,
  verify_launch_template, verify_own,
}
use cloud_glider.Ec2.Authority.{
  check_authority, check_predecessor, expected_proof, is_proof, predecessor_tags, proof_matches,
}
use cloud_glider.Ec2.Retirement.{
  complete, delete_alarm, retire, retire_authorized, retire_predecessor, settle, terminate,
}
use cloud_glider.Ec2.Proof.{
  is_young, continuation, expected_state, candidate_proof, time_of_proof, proved_at,
  handoff_expected, handoff_successor,
}
use cloud_glider.Ec2.Handoff.{
  wait_loop, young_proof, eligible_functional_readiness, verify_successor, read_generation_state,
  transfer, hand_off, hand_off_found, conditional_handoff,
}
use cloud_glider.Ec2.Guard.Handover.{conditional_handoff-IsGuarded}
use cloud_glider.Daemon.Heartbeat.{int_item}
use cloud_glider.Ec2.Progress.{IsSteady, wait_loop-settles}
use cloud_glider.Ec2.Lab.{gateway, successor, World, control, current, daemon, pinned, place}
use cloud_glider.Prelude.{none, ◌≢◌, arith, Bool, ◌≡◌, refl, false, [], String}
use cloud_glider.Prelude.Int.{pos, ◌*ℤ◌, ◌-ℤ◌, ◌+ℤ◌}
use cloud_glider.Python.Result.{Result, ok}
use cloud_glider.Python.Text.{
  join, take, decimal, format_06d, format_06d_int, text_length, all_codes, matches_sha256,
  int_of_text,
}
use cloud_glider.Python.Dict.{insert, update, lookup, has_key, dict_eq}
use cloud_glider.Python.Value.{as_number, get, value_eq, truth, to_int, item, as_text}
use cloud_glider.Daemon.Control.{items, differs, require, check_timing}
use cloud_glider.Family.Config.{audit_table_name}
use cloud_glider.Ec2.Provision.{provision_successor}
use cloud_glider.Ec2.Guard.{IsGuarded}
use cloud_glider.Ec2.Guard.Launch.{provision_successor-IsGuarded}
use cloud_glider.Ec2.Guard.Retire.{retire_predecessor-IsGuarded}
use cloud_glider.Ec2.Control.{
  is_number, is_filled, check_each, check_cleanup, check_ceiling, check_limit, check_digest,
  check_artifacts, expected_topic, validated_control,
}
use cloud_glider.Ec2.Control.Approved.{IsApproved, validated_control_sound}

control_is_accepted : validated_control pinned place control ≡ ok control
unfolding text_length all_codes matches_sha256 int_of_text lookup has_key dict_eq value_eq truth
    to_int item as_text differs require check_timing audit_table_name is_number is_filled check_each
    check_cleanup check_ceiling check_limit check_digest check_artifacts expected_topic
    validated_control
control_is_accepted = refl

validated_control_sound_example : (control ≡ control) × IsApproved pinned place control
validated_control_sound_example =
    validated_control_sound pinned place control control control_is_accepted

-- The predecessor still runs.
abbrev before : Session World
before = record { world = ("running", 1000000); trace = [] }

abbrev outcome : Result Bool × Session World → Result Bool × String
outcome (r, s) = (r, s.world.0)

-- It passes every check, and the predecessor is terminated; the next cycle will see it gone.
retirement_terminates :
    outcome (retire_predecessor daemon control current before) ≡ (ok false, "shutting-down")
unfolding text_length all_codes matches_sha256 int_of_text lookup has_key dict_eq value_eq truth
    to_int item as_text differs require check_timing audit_table_name get as_number pure lift ◌>>=◌
    format_06d_int format_06d decimal take join ◌+ℤ◌ ◌-ℤ◌ ◌*ℤ◌ lease_seconds stable_token select
    items update insert call observe now_seconds control_fingerprint control_identity
    identity_differs identity specification_tags specification handoff_token generation_number
    owner_entries is_current_owner read_current require_owner read_control_and_hold enabled_control
    fresh_enabled_control unchanged_control renew describe_instance verify_launch_template
    verify_own proof_matches is_proof expected_proof check_authority predecessor_tags
    check_predecessor terminate delete_alarm complete settle retire retire_authorized
    retire_predecessor is_number is_filled check_each check_cleanup check_ceiling check_limit
    check_digest check_artifacts expected_topic validated_control
retirement_terminates = refl

retire_predecessor-IsGuarded_example :
    IsGuarded daemon control current (retire_predecessor daemon control current before).1.trace
retire_predecessor-IsGuarded_example = retire_predecessor-IsGuarded daemon control current before tt

provision_successor-IsGuarded_example :
    IsGuarded daemon control current (provision_successor daemon control before).1.trace
provision_successor-IsGuarded_example =
    provision_successor-IsGuarded daemon control current before tt

-- The handover to the candidate passes every check.
handover_is_done : (conditional_handoff daemon control successor "i-2" before).0 ≡ ok tt
unfolding text_length all_codes matches_sha256 int_of_text lookup has_key dict_eq value_eq truth
    to_int item as_text differs require check_timing audit_table_name get as_number pure lift ◌>>=◌
    format_06d_int format_06d decimal take join ◌+ℤ◌ ◌-ℤ◌ ◌*ℤ◌ lease_seconds stable_token select
    items update insert call observe now_seconds control_fingerprint control_identity
    identity_differs identity generation_number read_control_and_hold enabled_control
    fresh_enabled_control unchanged_control renew describe_instance proof_matches is_number
    is_filled check_each check_cleanup check_ceiling check_limit check_digest check_artifacts
    expected_topic validated_control is_young continuation expected_state candidate_proof
    time_of_proof proved_at handoff_expected handoff_successor young_proof
    eligible_functional_readiness verify_successor read_generation_state transfer hand_off
    hand_off_found conditional_handoff now_ms
handover_is_done = refl

conditional_handoff-IsGuarded_example :
    IsGuarded daemon control current
      (conditional_handoff daemon control successor "i-2" before).1.trace
conditional_handoff-IsGuarded_example =
    conditional_handoff-IsGuarded daemon control current successor "i-2" before tt

gateway-IsSteady : IsSteady gateway
gateway-IsSteady = record {
  on_clock = λ w. omega arith;
  on_renew = λ owner expires w. omega arith;
  on_control = λ w. omega arith;
  on_describe = λ id w. omega arith;
  on_verify = λ instance spec w. omega arith;
  on_state = λ generation w. omega arith;
  on_sleep = λ n w. omega arith;
}

poll_of_control : int_item control "readiness_poll_seconds" ≡ ok (pos 2)
unfolding int_item item lookup to_int
poll_of_control = refl

wait_loop-settles_example :
    (wait_loop daemon 12 control successor "i-2" (pos 1010000) before).0 ≢ ok none
wait_loop-settles_example =
    wait_loop-settles daemon gateway-IsSteady 11 control successor "i-2" (pos 1010000) 1 before
      poll_of_control (omega arith)
