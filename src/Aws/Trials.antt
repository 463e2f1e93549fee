-- ===== src/Aws/Trials.antt =====
-- A daemon of daemon.py that hands over on the gateway of aws_sdk.py, in the small account.
use cloud_glider.Aws.Attribute.{
  str_of_int, av_plain, av_list, av_dict, av, unmarshal_scalar, unmarshal_list, unmarshal_dict,
  unmarshal, unmarshal_item, item_of,
}
use cloud_glider.Aws.Capacity.{count_instances, goes_on, count_live, any_offering, check_capacity}
use cloud_glider.Aws.Client.{
  gateway_config, outcome_of, allowing, requiring, emit, timed, call_allowing, call, get_record,
}
use cloud_glider.Aws.Current.{
  read_control_snapshot, read_control_and_hold, read_cycle_snapshot, read_current,
  read_generation_state, claim, claim_initial_current, heartbeat_put, write_heartbeat,
}
use cloud_glider.Aws.Description.{
  stack_of, described, stack_parameters, stack_tags, digest, template_url, create_stack_request,
}
use cloud_glider.Aws.Fence.{
  reason_code, codes_of, confirmed_condition, only_second_failed, lifecycle_check,
  lifecycle_permits, condition_failure, confirmed, cancelled, written, fenced_write,
}
use cloud_glider.Aws.Gateway.{aws_gateway}
use cloud_glider.Aws.Handoff.{
  own_fields, fields_equal, control_condition, place_of, owner_is, owner_becomes, audit_item,
  handoff_writes, handoff_transaction,
}
use cloud_glider.Aws.Hold.{moved, invoked, handoff, hold_invocation, invoke_hold}
use cloud_glider.Aws.Lab.{
  transact, account_with-Documented as account_with-Documented_lab, account-Documented,
}
use cloud_glider.Aws.Lease.{
  lease_update, acquire_lease, renewal, renew_lease, released, release_lease,
}
use cloud_glider.Aws.Provisioning.{
  marker, provisioning_transaction, begin_provisioning, record_submission, end_provisioning,
  marker_matches, settle, reconcile_submission,
}
use cloud_glider.Aws.Snapshot.{items_of, copy_gates, pending_stop, text_item, snapshot, divided}
use cloud_glider.Aws.Stacks.{
  describe_stack, stack_instance_id, verify_template_artifact, create_stack, delete_stack,
}
use cloud_glider.Aws.Store.{
  bool_eq, scalar_eq, scalars_eq, attribute_eq, is_equal, is_less_number, is_less, holds, key_of,
  same_place, apply, all_permit, apply_all,
}
use cloud_glider.Daemon.Config.{audit_table_name, validate, load, generation_number}
use cloud_glider.Daemon.Control.{
  differs, require, region_of, check_region, check_timing, check_lowercase, check_switches,
  validated_control, items, control_identity, identity_differs,
}
use cloud_glider.Daemon.Handoff.{
  still_healthy, check_health, handoff_expected, handoff_successor, handoff_audit, transfer,
}
use cloud_glider.Daemon.Heartbeat.{
  freshness, read_int, heartbeat_time, int_item, fresh_at, eligible_heartbeat, first_accepted,
  next_accepted, elapsed_since, spaced_accepted, same_sequence, later_accepted, accept_after,
  accept,
}
use cloud_glider.Daemon.Identity.{
  own_parameters, verify_parameters, verify_self, is_current_owner,
  read_current as read_current_identity, heartbeat_state, heartbeat, reconcile_claim, claim_current,
  ensure_bootstrap_ownership,
}
use cloud_glider.Daemon.Provision.{
  lease_seconds, enabled_control, read_control_and_hold as read_control_and_hold_provision,
  fresh_enabled_control, describe_stack as describe_stack_provision, reuse_successor,
  create_checked, create_successor, continue_with, provision_successor, renew,
}
use cloud_glider.Daemon.Readiness.{
  known_instance, read_generation_state as read_generation_state_readiness, judge, judge_found,
  observe_successor, check_stack, wait_round, after_step, wait_loop, or_out_of_fuel,
  wait_for_healthy_successor,
}
use cloud_glider.Daemon.Session.{
  init, start, call as call_session, observe, log, now_seconds, now_ms, sleep,
}
use cloud_glider.Daemon.Specification.{
  stable_token, select, renamed, identity, successor_parameters, stack_specification,
}
use cloud_glider.Prelude.Int.{◌+ℤ◌, ◌-ℤ◌, ◌*ℤ◌}
use cloud_glider.Python.Dict.{lookup, insert, update as update_dict, keys, has_key, dict_eq}
use cloud_glider.Python.Exec.{
  pure, raise, lift, gets, modify, ◌>>=◌, finally, catch_transient, catch_safety,
}
use cloud_glider.Python.Sorted.{text_leb, insert_item, sorted_items}
use cloud_glider.Python.Text.{
  text_length, all_codes, matches_generation, matches_sha256, matches_account, matches_request_id,
  matches_node_path, lower, contains, ends_with, split_colon, decimal, format_06d, format_06d_int,
  take, join, int_of_text,
}
use cloud_glider.Python.Value.{value_eq, truth, to_int, as_number, get, item, as_text}
use cloud_glider.Prelude.{
  String, true, false, Option, none, some, List, [], ◌∷◌, ◌==◌, ◌≡◌, ◌≢◌, refl, if◌then◌else◌,
  arith, eq_iff,
}
use cloud_glider.Prelude.Int.{pos}
use cloud_glider.Python.Result.{ok}
use cloud_glider.Python.Value.{Value, plain, text, Record, str, flag}
use cloud_glider.Daemon.Gateway.{Specification}
use cloud_glider.Daemon.Session.{Session}
use cloud_glider.Daemon.Handoff.{conditional_handoff}
use cloud_glider.Daemon.Lab
use cloud_glider.Daemon.Lab.{config, own_arn, beat}
use cloud_glider.Aws.Attribute.{Item, ddb_item}
use cloud_glider.Aws.Store.{Documented}
use cloud_glider.Aws.Services.{StackDescription, Services, Library}
use cloud_glider.Aws.Client.{Client, AwsSdkGateway}
use cloud_glider.Aws.Gateway.{Surroundings}
use cloud_glider.Aws.Gateway.Handover.{daemon, HandedOver, conditional_handoff-HandedOver}
use cloud_glider.Aws.Lab.{account_with, account_with-Documented}
use cloud_glider.Aws.Lease.Others.{Peer}
use cloud_glider.Aws.Store.{Store}

abbrev gateway : AwsSdkGateway
gateway = record {
  config = record {
    environment = "sandbox";
    request_id = "7";
    state_table_name = "cloud-glider-sandbox";
    generation_table_name = "cloud-glider-sandbox-generations";
    audit_table_name = "cloud-glider-sandbox-audit";
    emergency_hold_function_name = "hold";
  };
  instance_id = "i-0";
  region = "us-west-2";
  account_id = "123456789012";
}

abbrev successor : Specification
successor = record Lab.successor {
  parameters =
      ("Generation", str "000001")
      ∷ ("PredecessorStackId", str own_arn)
      ∷ ("HandoffToken", str "handoff-hash")
      ∷ [];
}

abbrev text_of : Value → Option String
text_of (plain (text s)) = some s
text_of v = none

abbrev parameter_texts : Record → List (String × Option String)
parameter_texts [] = []
parameter_texts ((k, v) ∷ r) = (k, text_of v) ∷ parameter_texts r

abbrev stacks : List StackDescription
stacks =
    record {
      stack_id = some "arn:successor";
      stack_status = some "CREATE_COMPLETE";
      role_arn = some "role";
      parameters = parameter_texts successor.parameters;
      tags = [];
    }
    ∷ []

abbrev services : Services Store
services = account_with stacks (some "i-1")

abbrev dynamo_documented : Documented services
dynamo_documented = account_with-Documented stacks (some "i-1")

abbrev library : Library
library = record { sha256_hex = λ s. s; quote = λ safe s. s }

abbrev surroundings : Surroundings Store
surroundings = record {
  clock = λ s. (1000000, s);
  sleep = λ n s. s;
  utc_now = λ s. ("2026-10-03T00:00:00.000Z", s);
  uuid4 = λ s. ("uuid", s);
}

-- The control record without the lifecycle's gates, which stand in the lifecycle record.
abbrev control_item : Record
control_item =
    ("PK", str "CONTROL")
    ∷ ("stop_requested", flag false)
    ∷ ("cleanup_requested", flag false)
    ∷ own_fields (Lab.control true)

abbrev lifecycle : Record
lifecycle =
    ("PK", str "BOOTSTRAP")
    ∷ ("schema_version", str "2")
    ∷ ("request_id", str "7")
    ∷ ("propagation_enabled", flag true)
    ∷ ("cleanup_requested", flag false)
    ∷ ("cleanup_status", str "IDLE")
    ∷ []

abbrev current : Record
current =
    ("PK", str "CURRENT")
    ∷ ("request_id", str "7")
    ∷ ("generation", str "000000")
    ∷ ("stack_id", str own_arn)
    ∷ ("instance_id", str "i-0")
    ∷ ("status", str "CURRENT")
    ∷ []

abbrev lease : Record
lease = ("PK", str "LOCK") ∷ ("lease_owner", str "000000:i-0:l") ∷ []

abbrev row : String → String → Record → Item → Item
row pk k r rest = if pk == k then ddb_item r else rest

tables : Store
unfolding ddb_item
tables table key =
    if table == "cloud-glider-sandbox"
    then row key.pk "BOOTSTRAP" lifecycle (
        row key.pk "CONTROL" control_item
          (row key.pk "CURRENT" current (row key.pk "LOCK" lease [])))
    else row key.pk "GEN#000001" (beat successor 1000) []

abbrev session : Session (Client Store)
session = record {
  world = record { world = tables; timings = [] };
  trace = [];
  heartbeat_sequence = 0;
  own_stack = none;
  poll_seconds = pos 5;
}

different : (t u : String) → (t == u) ≡ false → t ≢ u
different t u h e = ground (arith, eq_iff t u)

gateway-Peer : Peer "cloud-glider-sandbox" gateway
gateway-Peer = record { same = refl; generations = different _ _ refl; audit = different _ _ refl }

-- The whole handover returns.
handed_over :
    (conditional_handoff
      (daemon dynamo_documented library surroundings 5 gateway gateway-Peer config "c"
        "000000:i-0:l" successor "arn:successor")
      (Lab.control true)
      successor
      "arn:successor"
      session).0
    ≡ ok tt
unfolding str_of_int av_plain av_list av_dict av unmarshal_scalar unmarshal_list unmarshal_dict
    unmarshal unmarshal_item item_of count_instances goes_on count_live any_offering check_capacity
    gateway_config outcome_of allowing requiring emit timed call_allowing call get_record
    read_control_snapshot read_control_and_hold read_cycle_snapshot read_current
    read_generation_state claim claim_initial_current heartbeat_put write_heartbeat stack_of
    described stack_parameters stack_tags digest template_url create_stack_request reason_code
    codes_of confirmed_condition only_second_failed lifecycle_check lifecycle_permits
    condition_failure confirmed cancelled written fenced_write aws_gateway own_fields fields_equal
    control_condition place_of owner_is owner_becomes audit_item handoff_writes handoff_transaction
    moved invoked handoff hold_invocation invoke_hold transact account_with-Documented_lab
    account-Documented lease_update acquire_lease renewal renew_lease released release_lease marker
    provisioning_transaction begin_provisioning record_submission end_provisioning marker_matches
    settle reconcile_submission items_of copy_gates pending_stop text_item snapshot divided
    describe_stack stack_instance_id verify_template_artifact create_stack delete_stack bool_eq
    scalar_eq scalars_eq attribute_eq is_equal is_less_number is_less holds key_of same_place apply
    all_permit apply_all audit_table_name validate load generation_number differs require region_of
    check_region check_timing check_lowercase check_switches validated_control items
    control_identity identity_differs still_healthy check_health handoff_expected handoff_successor
    handoff_audit transfer freshness read_int heartbeat_time int_item fresh_at eligible_heartbeat
    first_accepted next_accepted elapsed_since spaced_accepted same_sequence later_accepted
    accept_after accept own_parameters verify_parameters verify_self is_current_owner
    read_current_identity heartbeat_state heartbeat reconcile_claim claim_current
    ensure_bootstrap_ownership lease_seconds enabled_control read_control_and_hold_provision
    fresh_enabled_control describe_stack_provision reuse_successor create_checked create_successor
    continue_with provision_successor renew known_instance read_generation_state_readiness judge
    judge_found observe_successor check_stack wait_round after_step wait_loop or_out_of_fuel
    wait_for_healthy_successor init start call_session observe log now_seconds now_ms sleep
    stable_token select renamed identity successor_parameters stack_specification ◌+ℤ◌ ◌-ℤ◌ ◌*ℤ◌
    lookup insert update_dict keys has_key dict_eq pure raise lift gets modify ◌>>=◌ finally
    catch_transient catch_safety text_leb insert_item sorted_items text_length all_codes
    matches_generation matches_sha256 matches_account matches_request_id matches_node_path lower
    contains ends_with split_colon decimal format_06d format_06d_int take join int_of_text value_eq
    truth to_int as_number get item as_text conditional_handoff tables ddb_item
handed_over = refl

conditional_handoff-HandedOver_example :
    HandedOver dynamo_documented library surroundings 5 gateway gateway-Peer config "c"
      "000000:i-0:l" successor "arn:successor"
      (dynamo_documented.stored
        (conditional_handoff
          (daemon dynamo_documented library surroundings 5 gateway gateway-Peer config "c"
            "000000:i-0:l" successor "arn:successor")
          (Lab.control true)
          successor
          "arn:successor"
          session).1.world.world)
conditional_handoff-HandedOver_example =
    conditional_handoff-HandedOver dynamo_documented library surroundings 5 gateway gateway-Peer
      config "c" "000000:i-0:l" successor "arn:successor" (Lab.control true) session handed_over
