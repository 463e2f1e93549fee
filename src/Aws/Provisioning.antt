-- ===== src/Aws/Provisioning.antt =====
-- aws_sdk.py: `_begin_provisioning`, `reconcile_submission`, `_record_submission`, `_end_provisioning`.
use Prim.Native.String.{◌++◌ as concat}
use cloud_glider.Prelude.{
  String, Bool, true, false, not, ◌&&◌, ◌||◌, Option, none, some, List, [], ◌∷◌, ◌==◌,
}
use cloud_glider.Python.Result.{transient, uncaught, or_raise}
use cloud_glider.Python.Exec.{Exec, pure, lift, raise_if, ◌>>=◌, ◌>>◌}
use cloud_glider.Python.Value.{Record, value_eq, get, str}
use cloud_glider.Daemon.Gateway.{Stack, Specification}
use cloud_glider.Aws.Attribute.{Item, ddb_item}
use cloud_glider.Aws.Dynamo.{
  Key, Condition, attribute_not_exists, equals, both, one, Write, condition_check, put,
}
use cloud_glider.Aws.Services.{Services}
use cloud_glider.Aws.Client.{Client, AwsSdkGateway, call, get_record}
use cloud_glider.Aws.Fence.{text_attribute, bool_attribute, lifecycle_check}
use cloud_glider.Aws.Snapshot.{generation_pk}

abbrev pub control_key : Key
control_key = record { pk = "CONTROL"; sk = "GLOBAL" }

abbrev pub hold_key : Key
hold_key = record { pk = "HOLD"; sk = "ACTIVE" }

abbrev pub marker_key : Key
marker_key = record { pk = "LOCK"; sk = "PROVISIONING" }

abbrev pub no_stop : Condition
no_stop =
    both (equals "stop_requested" (bool_attribute false))
      (equals "cleanup_requested" (bool_attribute false))

abbrev text_is : Option String → String → Bool
text_is none t = false
text_is (some a) t = a == t

abbrev tags_or_empty : Option Record → Record
tags_or_empty none = []
tags_or_empty (some tags) = tags

module _ {W : Type 0} (services : Services W) (self : AwsSdkGateway) where
  open self use {config}

  unfoldable pub marker : Specification → Item
  unfolding ddb_item
  marker specification = ddb_item (
      ("PK", str "LOCK")
      ∷ ("SK", str "PROVISIONING")
      ∷ ("request_id", str config.request_id)
      ∷ ("token", str specification.client_token)
      ∷ ("stack_name", str specification.stack_name)
      ∷ [])

  unfoldable pub provisioning_transaction : Specification → List Write
  unfolding marker lifecycle_check
  provisioning_transaction specification =
      lifecycle_check services self true
      ∷ condition_check config.state_table_name control_key no_stop
      ∷ condition_check config.state_table_name hold_key (attribute_not_exists "PK")
      ∷ put config.state_table_name (marker specification) (some (attribute_not_exists "PK"))
      ∷ []

  -- `_begin_provisioning`.
  unfoldable pub begin_provisioning : Specification → Exec (Client W) String
  unfolding call provisioning_transaction
  begin_provisioning specification = do
    call "dynamodb" "transact_write_items"
        (services.transact_write_items (provisioning_transaction specification))
    pure specification.client_token

  -- `_record_submission`.
  unfoldable pub record_submission : Specification → String → Exec (Client W) (Unit {0})
  unfolding call ddb_item
  record_submission specification stack_id = call "dynamodb" "put_item" (
      services.put_item config.generation_table_name
        (ddb_item (
          ("PK", str (generation_pk specification.generation))
          ∷ ("SK", str (concat "RESOURCE#" stack_id))
          ∷ ("request_id", str config.request_id)
          ∷ ("stack_id", str stack_id)
          ∷ []))
        (one (attribute_not_exists "PK") (equals "request_id" (text_attribute config.request_id))))

  -- `_end_provisioning`.
  unfoldable pub end_provisioning : String → Exec (Client W) (Unit {0})
  unfolding call
  end_provisioning token = call "dynamodb" "delete_item" (
      services.delete_item config.state_table_name marker_key (
        both (equals "request_id" (text_attribute config.request_id))
          (equals "token" (text_attribute token))))

  -- The marker and the stack are those of the specification.
  unfoldable pub marker_matches : Record → Specification → Stack → Bool
  marker_matches found specification stack =
      value_eq (get "request_id" found) (str config.request_id)
      && value_eq (get "token" found) (str specification.client_token)
      && value_eq (get "stack_name" found) (str specification.stack_name)
      && text_is stack.role_arn specification.role_arn
      && value_eq (get "bootstrap-request-id" (tags_or_empty stack.tags)) (str config.request_id)
      && (text_is stack.stack_status "CREATE_IN_PROGRESS"
          || text_is stack.stack_status "CREATE_COMPLETE")

  unfoldable pub settle : Record → Specification → Stack → Exec (Client W) (Unit {0})
  unfolding marker_matches record_submission end_provisioning
  settle [] specification stack = pure tt
  settle (entry ∷ entries) specification stack = do
    raise_if (not (marker_matches (entry ∷ entries) specification stack))
        (transient "ambiguous provisioning marker requires operator inspection")
    stack_id ← lift (or_raise stack.stack_id uncaught)
    record_submission specification stack_id
    end_provisioning specification.client_token

  unfoldable pub reconcile_submission : Specification → Stack → Exec (Client W) (Unit {0})
  unfolding get_record settle
  reconcile_submission specification stack = do
    found ← get_record services self "LOCK" "PROVISIONING"
    settle found specification stack
