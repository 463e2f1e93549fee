-- ===== src/Aws/Examples.antt =====
-- Runs of aws_sdk.py in a small account, and the theorems at them.
use cloud_glider.Aws.Dynamo.{Key}
use cloud_glider.Python.Text.{int_of_text, decimal, all_codes}
use cloud_glider.Aws.Handoff.Moves.{handoff-once, handoff-Moved, Moved}
use cloud_glider.Python.Dict.{keys, dict_eq, has_key, insert, lookup}
use cloud_glider.Aws.Fence.{
  reason_code, only_second_failed, lifecycle_permits, condition_failure, cancelled, confirmed,
  codes_of, confirmed_condition, written, lifecycle_check, fenced_write,
}
use cloud_glider.Aws.Attribute.{
  unmarshal_scalar, unmarshal_list, unmarshal_item, unmarshal_dict, unmarshal, av_list, av_dict,
  item_of,
}
use cloud_glider.Aws.Attribute.Reads.{item_of-ddb_item}
use cloud_glider.Aws.Snapshot.{snapshot, is_present}
use cloud_glider.Aws.Snapshot.Merged.{Current, overlaid, snapshot-ok}
use cloud_glider.Aws.Fence.{fenced_write, text_attribute}
use cloud_glider.Aws.Fence.Conflict.{Conflict, fenced_write-Conflict}
use cloud_glider.Aws.Lease.{renewal}
use cloud_glider.Aws.Stacks.{create_stack}
use cloud_glider.Aws.Stacks.Single.{
  MayProvision, create_stack-MayProvision, Stopped, create_stack-Stopped,
}
use cloud_glider.Aws.Capacity.{goes_on, count_live, count_instances}
use cloud_glider.Aws.Capacity.Listed.{Lists, last, count_live-total}
use cloud_glider.Daemon.Gateway.{Specification}
use cloud_glider.Python.Result.{err, safety}
use cloud_glider.Prelude.{
  not, ◌&&◌, none, some, ◌+◌, eq_iff, arith, String, true, false, [], ◌∷◌, ◌==◌, ◌≡◌, ◌≢◌, refl,
  if◌then◌else◌,
}
use cloud_glider.Prelude.Int.{pos}
use cloud_glider.Python.Dict.{update as dict_update}
use cloud_glider.Python.Exec.{raise, lift, ◌>>=◌, pure}
use cloud_glider.Python.Result.{ok}
use cloud_glider.Python.Value.{value_eq, get, get, value_eq, item, as_text, Record, str, flag, int}
use cloud_glider.Daemon.Gateway.{Expected}
use cloud_glider.Aws.Attribute.{str_of_int, av_plain, av, Item, ddb_item}
use cloud_glider.Aws.Services.{Library}
use cloud_glider.Aws.Client.{
  requiring, get_record, call, outcome_of, allowing, emit, timed, call_allowing, Client,
  AwsSdkGateway,
}
use cloud_glider.Aws.Lab.{transact, account, account-Documented}
use cloud_glider.Aws.Lease.{lease_update, acquire_lease}
use cloud_glider.Aws.Lease.Others.{Peer}
use cloud_glider.Aws.Lease.Exclusive.{
  Meanwhile, nothing_yet, beating, acquiring, acquire_lease-exclusive,
}
use cloud_glider.Aws.Hold.{handoff}
use cloud_glider.Aws.Current.{write_heartbeat}
use cloud_glider.Aws.Snapshot.{text_item}
use cloud_glider.Aws.Handoff.{place_of}
use cloud_glider.Aws.Handoff.Moves.{Moved, handoff-Moved, handoff-once}
use cloud_glider.Aws.Store.{
  scalars_eq, key_of, is_less_number, is_less, bool_eq, scalar_eq, attribute_eq, is_equal, holds,
  same_place, apply, apply_all, all_permit, Store,
}

abbrev gateway : AwsSdkGateway
gateway = record {
  config = record {
    environment = "dev";
    request_id = "7";
    state_table_name = "state";
    generation_table_name = "generations";
    audit_table_name = "audit";
    emergency_hold_function_name = "hold";
  };
  instance_id = "i-0";
  region = "us-west-2";
  account_id = "123456789012";
}

abbrev lifecycle : Record
lifecycle =
    ("PK", str "BOOTSTRAP")
    ∷ ("SK", str "REQUEST")
    ∷ ("schema_version", str "2")
    ∷ ("request_id", str "7")
    ∷ ("propagation_enabled", flag true)
    ∷ ("cleanup_requested", flag false)
    ∷ ("cleanup_status", str "IDLE")
    ∷ []

abbrev control : Record
control =
    ("PK", str "CONTROL")
    ∷ ("SK", str "GLOBAL")
    ∷ ("stop_requested", flag false)
    ∷ ("cleanup_requested", flag false)
    ∷ ("max_generation", int (pos 9))
    ∷ []

abbrev current : Record
current =
    ("PK", str "CURRENT")
    ∷ ("SK", str "GLOBAL")
    ∷ ("request_id", str "7")
    ∷ ("generation", str "000001")
    ∷ ("stack_id", str "arn:one")
    ∷ ("instance_id", str "i-1")
    ∷ ("status", str "CURRENT")
    ∷ []

abbrev next_state : Record
next_state =
    ("PK", str "GEN#000002")
    ∷ ("SK", str "STATE")
    ∷ ("stack_id", str "arn:two")
    ∷ ("instance_id", str "i-2")
    ∷ ("handoff_token", str "t")
    ∷ []

abbrev row : Key → String → Record → Item → Item
row key pk r rest =
    if key.pk == pk && not (key.sk == "RESOURCE#arn:created") then ddb_item r else rest

-- An environment that propagates, with the owner's lease not taken yet.
ready : Store
ready table key =
    if table == "state"
    then row key "BOOTSTRAP" lifecycle (row key "CONTROL" control (row key "CURRENT" current []))
    else row key "GEN#000002" next_state []

abbrev start : Client Store
start = record { world = ready; timings = [] }

abbrev library : Library
library = record { sha256_hex = λ s. s; quote = λ safe s. s }

different : (t u : String) → (t == u) ≡ false → t ≢ u
different t u h e = ground (arith, eq_iff t u)

gateway-Peer : Peer "state" gateway
gateway-Peer = record { same = refl; generations = different _ _ refl; audit = different _ _ refl }

taken : (acquire_lease account gateway "one" "000001" (pos 100) (pos 400) start).0 ≡ ok true
unfolding acquire_lease lease_update fenced_write call_allowing timed emit allowing outcome_of
    transact all_permit apply_all apply same_place holds is_equal attribute_eq scalar_eq bool_eq
    is_less lifecycle_check written ready ddb_item av av_plain str_of_int lookup dict_update insert
    ◌>>=◌ pure
taken = refl

abbrev owner_took : Client Store
owner_took = (acquire_lease account gateway "one" "000001" (pos 100) (pos 400) start).1

abbrev beat : Record
beat = ("generation", str "000003") ∷ ("stack_id", str "arn:3") ∷ ("instance_id", str "i-3") ∷ []

-- A heartbeat, and an attempt of another owner.
meanwhile :
    Meanwhile account-Documented library gateway "one"
      (pos 400)
      owner_took
      (acquire_lease account gateway "two" "000001"
        (pos 200)
        (pos 500)
        (write_heartbeat account gateway beat owner_took).1).1
meanwhile =
    acquiring (beating nothing_yet gateway gateway-Peer beat) gateway gateway-Peer "two"
      (different _ _ refl) "000001" (pos 200) (pos 500) (omega arith)

acquire_lease-exclusive_example :
    (acquire_lease account gateway "two" "000001"
      (pos 300)
      (pos 600)
      (acquire_lease account gateway "two" "000001"
        (pos 200)
        (pos 500)
        (write_heartbeat account gateway beat owner_took).1).1).0
    ≢ ok true
acquire_lease-exclusive_example =
    acquire_lease-exclusive account-Documented library gateway "one" (pos 400) "000001" (pos 100)
      start taken meanwhile gateway gateway-Peer "two" (different _ _ refl) "000001" (pos 300)
      (pos 600) (omega arith)

abbrev expected : Expected
expected = record {
  identity =
      ("generation", str "000001") ∷ ("stack_id", str "arn:one") ∷ ("instance_id", str "i-1") ∷ [];
  lease_owner = "one";
  control_identity = ("max_generation", int (pos 9)) ∷ ("request_id", str "7") ∷ [];
}

abbrev successor : Record
successor =
    ("request_id", str "7")
    ∷ ("generation", str "000002")
    ∷ ("stack_id", str "arn:two")
    ∷ ("instance_id", str "i-2")
    ∷ ("status", str "CURRENT")
    ∷ ("handoff_token", str "t")
    ∷ ("updated_at", str "now")
    ∷ []

abbrev audit : Record
audit = ("event_id", str "e") ∷ []

handed_over : (handoff account gateway expected successor audit owner_took).0 ≡ ok true
unfolding acquire_lease handoff ◌>>=◌ lift item as_text transact fenced_write ready lease_update
    pure
handed_over = refl

handoff-Moved_example :
    Moved account-Documented gateway expected successor
      (account-Documented.stored owner_took.world)
      (account-Documented.stored
        (handoff account gateway expected successor audit owner_took).1.world)
handoff-Moved_example =
    handoff-Moved account-Documented gateway expected successor audit owner_took gateway-Peer
      handed_over

handoff-once_example :
    (handoff account gateway expected successor audit
      (handoff account gateway expected successor audit owner_took).1).0
    ≢ ok true
unfolding place_of text_item item as_text lookup
handoff-once_example =
    handoff-once account-Documented gateway gateway expected expected successor audit successor
      audit owner_took gateway-Peer gateway-Peer refl refl refl (different _ _ refl) handed_over

item_of-ddb_item_example : item_of (some (ddb_item lifecycle)) ≡ ok lifecycle
item_of-ddb_item_example = item_of-ddb_item lifecycle

-- A chain that an operator asked to stop.
abbrev stopping : Record
stopping = ("stop_requested", flag true) ∷ ("max_generation", int (pos 9)) ∷ []

abbrev stopped : Record
stopped =
    ("stop_requested", flag true)
    ∷ ("max_generation", int (pos 9))
    ∷ ("request_id", str "7")
    ∷ ("propagation_enabled", flag false)
    ∷ ("cleanup_requested", flag false)
    ∷ ("cleanup_status", str "IDLE")
    ∷ []

stopped_snapshot : snapshot "7" stopping [] lifecycle ≡ ok (stopped, false)
unfolding snapshot has_key value_eq get item insert
stopped_snapshot = refl

snapshot-ok_example :
    Current "7" stopping lifecycle
    × ((k : String) → lookup k stopped ≡ overlaid stopping lifecycle k)
    × (false ≡ is_present [])
snapshot-ok_example = snapshot-ok "7" stopping [] lifecycle stopped_snapshot

stranger :
    (fenced_write account gateway
      (renewal account gateway "two" (pos 500))
      (some "LEASE_OWNERSHIP_LOST")
      false
      owner_took).0
    ≡ err (safety "LEASE_OWNERSHIP_LOST")
unfolding fenced_write ◌>>=◌ call_allowing transact lifecycle_check acquire_lease ready ddb_item
    lease_update pure renewal dict_update confirmed_condition codes_of confirmed lift item_of raise
    av av_dict av_list av_plain str_of_int unmarshal unmarshal_dict unmarshal_item unmarshal_list
    unmarshal_scalar allowing call emit get_record requiring timed cancelled condition_failure
    lifecycle_permits only_second_failed reason_code written all_permit apply apply_all attribute_eq
    bool_eq holds is_equal is_less is_less_number key_of same_place scalar_eq scalars_eq dict_eq
    insert keys lookup all_codes decimal int_of_text get value_eq
stranger = refl

fenced_write-Conflict_example :
    Conflict account-Documented gateway
      (renewal account gateway "two" (pos 500))
      (some "LEASE_OWNERSHIP_LOST")
      "LEASE_OWNERSHIP_LOST"
      owner_took
      (fenced_write account gateway
        (renewal account gateway "two" (pos 500))
        (some "LEASE_OWNERSHIP_LOST")
        false
        owner_took).1
fenced_write-Conflict_example =
    fenced_write-Conflict account-Documented gateway (renewal account gateway "two" (pos 500))
      (some "LEASE_OWNERSHIP_LOST") false "LEASE_OWNERSHIP_LOST" owner_took stranger

abbrev specification : Specification
specification = record {
  stack_name = "gen-000002";
  generation = "000002";
  template =
      ("template_bucket", str "bucket")
      ∷ ("template_key", str "generation.yaml")
      ∷ ("template_version_id", str "v1")
      ∷ [];
  parameters = ("Owner", str "team") ∷ [];
  role_arn = "role";
  client_token = "token";
  tags = [];
}

created : (create_stack account library gateway specification start).0 ≡ ok "arn:created"
unfolding create_stack ◌>>=◌ transact ready key_of pure lift text_item item as_text
created = refl

create_stack-MayProvision_example :
    MayProvision account-Documented library gateway specification
      (account-Documented.stored start.world)
create_stack-MayProvision_example =
    create_stack-MayProvision account-Documented library gateway specification start created

-- A submission that got no answer left its marker.
marked : Store
marked table key =
    if key.pk == "LOCK"
    then ddb_item (("PK", str "LOCK") ∷ ("SK", str "PROVISIONING") ∷ [])
    else ready table key

abbrev after_crash : Client Store
after_crash = record { world = marked; timings = [] }

create_stack-Stopped_example :
    Stopped account-Documented library gateway specification after_crash
      (create_stack account library gateway specification after_crash).1
      (create_stack account library gateway specification after_crash).0
unfolding marked ddb_item av lookup account-Documented
create_stack-Stopped_example =
    create_stack-Stopped account-Documented library gateway specification after_crash
      (text_attribute "LOCK") refl

-- No instances, on one page.
listed : Lists account gateway none ready 0 1
unfolding count_instances goes_on
listed = last (record { reservations = []; next_token = none }) ready refl refl

count_live-total_example : (count_live account gateway 5 none 2 start).0 ≡ ok (2 + 0)
count_live-total_example = count_live-total account gateway 5 2 start listed (omega arith)
