-- ===== src/Aws/Fence.antt =====
-- aws_sdk.py: `_lifecycle_check` and `_fenced_write`, a write that the lifecycle record must permit.
pub mod Told
pub mod Conflict
use cloud_glider.Prelude.{
  String, Bool, true, false, not, ◌&&◌, ◌||◌, Option, none, some, List, [], ◌∷◌, ◌==◌, eqb,
  if◌then◌else◌,
}
use cloud_glider.Prelude.Lists.{length, all, any}
use cloud_glider.Python.Result.{Failure, transient, safety}
use cloud_glider.Python.Exec.{Exec, pure, raise, ◌>>=◌}
use cloud_glider.Python.Value.{Record, value_eq, get, str, is_false}
use cloud_glider.Aws.Attribute.{Attribute, scalar, string, boolean}
use cloud_glider.Aws.Dynamo.{Key, Condition, equals, one_of, both, Write, condition_check}
use cloud_glider.Aws.Services.{Services}
use cloud_glider.Aws.Client.{
  Client, AwsSdkGateway, Reply, replied, refused, call_allowing, get_record,
}

-- `{"S": s}` and `{"BOOL": t}`.
abbrev pub text_attribute : String → Attribute
text_attribute t = scalar (string t)

abbrev pub bool_attribute : Bool → Attribute
bool_attribute t = scalar (boolean t)

-- `reason.get("Code") or "None"`.
unfoldable pub reason_code : Option String → String
reason_code none = "None"
reason_code (some c) = if c == "" then "None" else c

unfoldable pub codes_of : List (Option String) → List String
unfolding reason_code
codes_of [] = []
codes_of (r ∷ rs) = reason_code r ∷ codes_of rs

abbrev is_plain_code : String → Bool
is_plain_code c = c == "None" || c == "ConditionalCheckFailed"

abbrev is_failed_condition : String → Bool
is_failed_condition c = c == "ConditionalCheckFailed"

-- `confirmed_condition`.
unfoldable pub confirmed_condition : List String → Bool
confirmed_condition codes =
    eqb (length codes) 2 && all is_plain_code codes && any is_failed_condition codes

-- `codes == ("None", "ConditionalCheckFailed")`.
unfoldable pub only_second_failed : List String → Bool
only_second_failed (a ∷ b ∷ []) = a == "None" && b == "ConditionalCheckFailed"
only_second_failed _ = false

module _ {W : Type 0} (services : Services W) (self : AwsSdkGateway) where
  open self use {config}

  abbrev lifecycle_key : Key
  lifecycle_key = record { pk = "BOOTSTRAP"; sk = "REQUEST" }

  abbrev pub may_act : Condition
  may_act =
      both
        (both (equals "request_id" (text_attribute config.request_id))
          (equals "cleanup_requested" (bool_attribute false)))
        (one_of "cleanup_status" (text_attribute "IDLE" ∷ text_attribute "COMPLETE" ∷ []))

  -- `_lifecycle_check`.
  unfoldable pub lifecycle_check : Bool → Write
  lifecycle_check provisioning = condition_check config.state_table_name lifecycle_key (
      if provisioning
      then both may_act (equals "propagation_enabled" (bool_attribute true))
      else may_act)

  -- The lifecycle record still permits the daemon to act.
  unfoldable pub lifecycle_permits : Record → Bool
  lifecycle_permits lifecycle =
      value_eq (get "request_id" lifecycle) (str config.request_id)
      && is_false (get "cleanup_requested" lifecycle)
      && (value_eq (get "cleanup_status" lifecycle) (str "IDLE")
          || value_eq (get "cleanup_status" lifecycle) (str "COMPLETE"))

  abbrev has_code : Option String → Bool
  has_code none = false
  has_code (some c) = not (c == "")

  abbrev code_or_empty : Option String → String
  code_or_empty none = ""
  code_or_empty (some c) = c

  -- Only a second condition that failed alone, under a lifecycle that still permits, is a conflict.
  unfoldable pub condition_failure : Option String → List String → Record → Failure
  unfolding only_second_failed lifecycle_permits
  condition_failure conflict_code codes lifecycle =
      if only_second_failed codes && has_code conflict_code && lifecycle_permits lifecycle
      then safety (code_or_empty conflict_code)
      else transient "lifecycle or state condition changed"

  -- A transaction that was cancelled because a condition failed.
  unfoldable pub confirmed : Option String → List String → Exec (Client W) Bool
  unfolding get_record condition_failure
  confirmed conflict_code codes = do
    lifecycle ← get_record services self "BOOTSTRAP" "REQUEST"
    raise (condition_failure conflict_code codes lifecycle)

  unfoldable pub cancelled : Option String → Bool → List String → Exec (Client W) Bool
  cancelled conflict_code return_conflict codes =
      if not (confirmed_condition codes)
      then raise (transient "transaction cancelled; retry after rereading state")
      else if return_conflict
      then pure false
      else confirmed conflict_code codes

  unfoldable pub written : Option String → Bool → Reply (Unit {0}) → Exec (Client W) Bool
  unfolding cancelled
  written conflict_code return_conflict (replied u) = pure true
  written conflict_code return_conflict (refused code message reasons) =
      if code == "TransactionCanceledException"
      then cancelled conflict_code return_conflict (codes_of reasons)
      else raise (transient message)

  -- `_fenced_write`.
  unfoldable pub fenced_write : Write → Option String → Bool → Exec (Client W) Bool
  unfolding written
  fenced_write operation conflict_code return_conflict = do
    result ←
        call_allowing "dynamodb" "transact_write_items"
          (services.transact_write_items (lifecycle_check false ∷ operation ∷ []))
    written conflict_code return_conflict result
