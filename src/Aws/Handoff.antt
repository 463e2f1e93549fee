-- ===== src/Aws/Handoff.antt =====
-- aws_sdk.py, `handoff`: one transaction that moves CURRENT from the owner to its successor.
pub mod Transaction
pub mod Moves
use cloud_glider.Prelude.{String, Bool, true, ◌||◌, none, List, [], ◌∷◌, ◌==◌, if◌then◌else◌}
use cloud_glider.Python.Result.{Result, ok, ◌>>=◌}
use cloud_glider.Python.Dict.{update}
use cloud_glider.Python.Sorted.{sorted_items}
use cloud_glider.Python.Value.{Record, str}
use cloud_glider.Daemon.Gateway.{Expected}
use cloud_glider.Aws.Attribute.{Item, ddb_item}
use cloud_glider.Aws.Dynamo
use cloud_glider.Aws.Dynamo.{
  Condition, attribute_not_exists, equals, both, Write, condition_check, put,
}
use cloud_glider.Aws.Client.{AwsSdkGateway}
use cloud_glider.Aws.Services.{Services}
use cloud_glider.Aws.Fence.{text_attribute, lifecycle_check}
use cloud_glider.Aws.Lease.{lease_key}
use cloud_glider.Aws.Snapshot.{text_item, current_key, generation_pk}
use cloud_glider.Aws.Provisioning.{control_key, hold_key, no_stop}

abbrev is_gate : String → Bool
is_gate k =
    k == "request_id"
    || k == "propagation_enabled"
    || k == "cleanup_requested"
    || k == "cleanup_status"

-- `control_identity` without the lifecycle's gates.
unfoldable pub own_fields : Record → Record
own_fields [] = []
own_fields ((k, v) ∷ r) = if is_gate k then own_fields r else (k, v) ∷ own_fields r

-- Each field has its value, and the rest.
unfoldable pub fields_equal : Item → Condition → Condition
fields_equal [] rest = rest
fields_equal ((k, a) ∷ i) rest = both (equals k a) (fields_equal i rest)

-- `control_condition`.
unfoldable pub control_condition : Record → Condition
unfolding own_fields sorted_items ddb_item fields_equal
control_condition control_identity =
    fields_equal (ddb_item (sorted_items (own_fields control_identity))) no_stop

-- What CURRENT must be, and what it becomes.
pub record Place : Type 0 where
  pub generation : String
  pub stack_id : String
  pub instance_id : String

unfoldable pub place_of : Record → Result Place
unfolding text_item
place_of r = do
  generation ← text_item r "generation"
  stack_id ← text_item r "stack_id"
  instance_id ← text_item r "instance_id"
  ok (record { generation = generation; stack_id = stack_id; instance_id = instance_id })

module _ {W : Type 0} (services : Services W) (self : AwsSdkGateway) where
  open self use {config}

  unfoldable pub owner_is : Place → Condition
  owner_is owner =
      both
        (both
          (both
            (both (equals "request_id" (text_attribute config.request_id))
              (equals "generation" (text_attribute owner.generation)))
            (equals "stack_id" (text_attribute owner.stack_id)))
          (equals "instance_id" (text_attribute owner.instance_id)))
        (equals "status" (text_attribute "CURRENT"))

  unfoldable pub owner_becomes : Place → (token updated : String) → Item
  owner_becomes next token updated =
      ("request_id", text_attribute config.request_id)
      ∷ ("generation", text_attribute next.generation)
      ∷ ("stack_id", text_attribute next.stack_id)
      ∷ ("instance_id", text_attribute next.instance_id)
      ∷ ("status", text_attribute "CURRENT")
      ∷ ("handoff_token", text_attribute token)
      ∷ ("updated_at", text_attribute updated)
      ∷ []

  unfoldable pub audit_item : Record → Item
  unfolding ddb_item update
  audit_item audit = ddb_item (
      update
        (("PK", str "AUDIT#PROPAGATION")
          ∷ ("SK", str "LATEST_HANDOFF")
          ∷ ("schema_version", str "1.0")
          ∷ ("category", str "PROPAGATION")
          ∷ ("request_id", str config.request_id)
          ∷ ("action", str "CONDITIONAL_HANDOFF")
          ∷ ("resource_type", str "CURRENT_RECORD")
          ∷ ("resource_id", str "CURRENT/GLOBAL")
          ∷ ("result", str "APPLIED")
          ∷ ("environment", str config.environment)
          ∷ [])
        audit)

  abbrev pub successor_is : Place → String → Condition
  successor_is next token =
      both
        (both (equals "stack_id" (text_attribute next.stack_id))
          (equals "instance_id" (text_attribute next.instance_id)))
        (equals "handoff_token" (text_attribute token))

  abbrev pub owner_swap : (owner next : Place) → (token updated : String) → Write
  owner_swap owner next token updated =
      Dynamo.update config.state_table_name current_key (owner_becomes next token updated)
        (owner_is owner)

  abbrev pub successor_update : Record → Place → (token : String) → Write
  successor_update successor next token =
      Dynamo.update config.generation_table_name
        (record { pk = generation_pk next.generation; sk = "STATE" }) (ddb_item successor)
        (successor_is next token)

  -- The entries of `transaction`, once the texts in them are known.
  unfoldable pub handoff_writes :
      Expected → Record → Record → (owner next : Place) → (token updated : String) → List Write
  unfolding lifecycle_check control_condition owner_is owner_becomes audit_item ddb_item
  handoff_writes expected successor audit owner next token updated =
      lifecycle_check services self true
      ∷ condition_check config.state_table_name control_key
          (control_condition expected.control_identity)
      ∷ condition_check config.state_table_name hold_key
          (both (attribute_not_exists "PK") (attribute_not_exists "SK"))
      ∷ condition_check config.state_table_name lease_key
          (equals "lease_owner" (text_attribute expected.lease_owner))
      ∷ owner_swap owner next token updated
      ∷ successor_update successor next token
      ∷ put config.audit_table_name (audit_item audit) none
      ∷ []

  -- `transaction`; a `KeyError` where an entry is missing.
  unfoldable pub handoff_transaction : Expected → (successor audit : Record) → Result (List Write)
  unfolding place_of text_item handoff_writes
  handoff_transaction expected successor audit = do
    owner ← place_of expected.identity
    next ← place_of successor
    token ← text_item successor "handoff_token"
    updated ← text_item successor "updated_at"
    ok (handoff_writes expected successor audit owner next token updated)
