-- ===== src/Aws/Current.antt =====
-- aws_sdk.py: the read of the control snapshot, the CURRENT record and the heartbeats.
use cloud_glider.Prelude.{String, Bool, true, false, not, Option, none, some, List, [], ◌∷◌, eqb}
use cloud_glider.Prelude.Lists.{length}
use cloud_glider.Python.Result.{transient}
use cloud_glider.Python.Exec.{Exec, lift, pure, raise_if, ◌>>=◌, ◌>>◌}
use cloud_glider.Python.Dict.{has_key, insert}
use cloud_glider.Python.Dict
use cloud_glider.Python.Value.{Record, str}
use cloud_glider.Aws.Attribute.{ddb_item}
use cloud_glider.Aws.Dynamo.{
  Key, Condition, attribute_not_exists, equals, differs, both, one, Write, put, update, Get,
}
use cloud_glider.Aws.Services.{Services}
use cloud_glider.Aws.Client.{Client, AwsSdkGateway, call, get_record}
use cloud_glider.Aws.Fence.{text_attribute, fenced_write}
use cloud_glider.Aws.Snapshot.{keys_of, current_key, items_of, divided, text_item, generation_pk}

module _ {W : Type 0} (services : Services W) (self : AwsSdkGateway) where
  open self use {config}

  gets_of : List Key → List Get
  gets_of [] = []
  gets_of (k ∷ ks) = record { table = config.state_table_name; key = k } ∷ gets_of ks

  -- `_read_control_snapshot`.
  unfoldable pub read_control_snapshot : Bool → Exec (Client W) (Record × Bool × Record)
  unfolding call items_of divided gets_of
  read_control_snapshot include_current = do
    responses ←
        call "dynamodb" "transact_get_items"
          (services.transact_get_items (gets_of (keys_of include_current)))
    raise_if (not (eqb (length responses) (length (keys_of include_current))))
        (transient "control transaction was incomplete")
    records ← lift (items_of responses)
    lift (divided config.request_id include_current records)

  unfoldable pub read_control_and_hold : Exec (Client W) (Record × Bool)
  unfolding read_control_snapshot
  read_control_and_hold = do read ← read_control_snapshot false; pure (read.0, read.1)

  unfoldable pub read_cycle_snapshot : Exec (Client W) (Record × Bool × Record)
  unfolding read_control_snapshot
  read_cycle_snapshot = read_control_snapshot true

  unfoldable pub read_current : Exec (Client W) Record
  unfolding get_record
  read_current = get_record services self "CURRENT" "GLOBAL"

  abbrev or_none : Record → Option Record
  or_none [] = none
  or_none (entry ∷ entries) = some (entry ∷ entries)

  unfoldable pub read_generation_state : String → Exec (Client W) (Option Record)
  unfolding get_record
  read_generation_state generation = do
    found ← get_record services self (generation_pk generation) "STATE"
    pure (or_none found)

  unfoldable pub claim : Record → Write
  unfolding ddb_item
  claim identity =
      update config.state_table_name current_key (ddb_item identity)
        (equals "status" (text_attribute "UNINITIALIZED"))

  unfoldable pub claim_initial_current : Record → Exec (Client W) Bool
  unfolding fenced_write claim
  claim_initial_current identity = fenced_write services self (claim identity) none true

  abbrev pub same_generation : (stack instance_id : String) → Condition
  same_generation stack instance_id = one (attribute_not_exists "PK") (
      both
        (both (equals "stack_id" (text_attribute stack))
          (equals "instance_id" (text_attribute instance_id)))
        (differs "status" (text_attribute "ERROR")))

  unfoldable pub heartbeat_put : Record → (generation stack instance_id : String) → Write
  unfolding ddb_item
  heartbeat_put state generation stack instance_id =
      put config.generation_table_name
        (ddb_item
          (Dict.update (("PK", str (generation_pk generation)) ∷ ("SK", str "STATE") ∷ []) state))
        (some (same_generation stack instance_id))

  -- The three entries of the state are texts, as the daemon writes them.
  unfoldable pub write_heartbeat : Record → Exec (Client W) (Unit {0})
  unfolding fenced_write heartbeat_put
  write_heartbeat state = do
    generation ← lift (text_item state "generation")
    stack ← lift (text_item state "stack_id")
    instance_id ← lift (text_item state "instance_id")
    fenced_write services self (heartbeat_put state generation stack instance_id)
        (some "GENERATION_IDENTITY_CONFLICT") false
    pure tt
