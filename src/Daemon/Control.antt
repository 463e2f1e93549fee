-- ===== src/Daemon/Control.antt =====
-- daemon.py, `Daemon._validated_control`: what a control record must say before the daemon acts on
-- it, and `_control_identity`, the part of it that must not change while it acts.
pub mod Approved
use cloud_glider.Prelude.{
  ℕ, zero, suc, String, Bool, true, false, not, ◌&&◌, ◌||◌, Option, none, some, List, [], ◌∷◌, ◌==◌,
  if◌then◌else◌, map,
}
use cloud_glider.Prelude.Int.{ℤ, pos, ltb_ℤ}
use cloud_glider.Prelude.Lists.{all, any, get_elem?}
use cloud_glider.Python.Text.{lower, split_colon, text_length}
use cloud_glider.Python.Result.{
  Failure, safety, transient, uncaught, Result, ok, err, ◌>>=◌, ◌>>◌, raise_if, or_raise,
}
use cloud_glider.Python.Dict.{Dict, lookup, has_key}
use cloud_glider.Python.Value.{
  Plain, text, Value, plain, list, Record, value_eq, truth, to_int, item, get, is_bool, as_text,
  str, int,
}
use cloud_glider.Daemon.Config.{DaemonConfig, audit_table_name}

-- `REQUIRED_CONTROL_FIELDS`, in sorted order.
abbrev pub required_control_fields : List String
required_control_fields =
    "approved_architecture" ∷ "approved_instance_types" ∷ "approved_region" ∷ "audit_table_name"
    ∷ "cleanup_requested" ∷ "cleanup_status" ∷ "concurrency_model" ∷ "daemon_artifact_bucket"
    ∷ "daemon_artifact_key" ∷ "daemon_artifact_sha256" ∷ "daemon_artifact_version_id"
    ∷ "desired_bootstrap_version" ∷ "desired_template_version" ∷ "environment"
    ∷ "generation_table_name" ∷ "heartbeat_interval_seconds" ∷ "max_generation"
    ∷ "max_live_generations" ∷ "propagation_enabled" ∷ "readiness_poll_seconds"
    ∷ "readiness_required_heartbeats" ∷ "readiness_timeout_seconds" ∷ "request_id"
    ∷ "template_build_id" ∷ "template_s3_bucket" ∷ "template_s3_key" ∷ "template_s3_version_id"
    ∷ "template_sha256" ∷ []

abbrev pub timing_fields : List String
timing_fields =
    "readiness_poll_seconds" ∷ "readiness_required_heartbeats" ∷ "heartbeat_interval_seconds"
    ∷ "readiness_timeout_seconds" ∷ []

-- `control[k] != v`.
unfoldable pub differs : Record → String → Value → Result Bool
differs control k v = do x ← item control k; ok (not (value_eq x v))

-- `if control[k] != v: raise failure`.
unfoldable pub require : Record → String → Value → Failure → Result (Unit {0})
require control k v e = do wrong ← differs control k v; raise_if wrong e

-- `self.config.stack_id.split(":")[3]`.
unfoldable pub region_of : String → Result String
region_of stack_id = or_raise (get_elem? (split_colon (text_length stack_id) stack_id) 3) uncaught

unfoldable pub check_region : DaemonConfig → Record → Result (Unit {0})
check_region c control = do
  require control "approved_region" (str "us-west-2") (safety "REGION_POLICY_MISMATCH")
  region ← region_of c.stack_id
  raise_if (not (region == "us-west-2")) (safety "REGION_POLICY_MISMATCH")

-- The loop over the timing fields.
unfoldable pub check_timing : Record → List String → Result (Unit {0})
check_timing control [] = ok tt
check_timing control (field ∷ fields) =
    let rest = check_timing control fields in
    do
      v ← item control field
      n ← to_int v
      raise_if (ltb_ℤ n (pos 1)) (safety "CONTROL_TIMING_INVALID")
      rest

-- `control[k].lower() != control[k]`.
unfoldable pub check_lowercase : Record → String → Failure → Result (Unit {0})
check_lowercase control k e = do v ← item control k; s ← as_text v; raise_if (not (lower s == s)) e

unfoldable pub check_switches : Record → Result (Unit {0})
check_switches control = do
  enabled ← item control "propagation_enabled"
  cleanup ← item control "cleanup_requested"
  status ← item control "cleanup_status"
  raise_if (not (is_bool enabled) || not (is_bool cleanup)) (safety "CONTROL_SCHEMA_INVALID")
  raise_if (truth cleanup || not (value_eq status (str "IDLE") || value_eq status (str "COMPLETE")))
      (transient "cleanup fences daemon activity")

-- `_validated_control`.
unfoldable pub validated_control : DaemonConfig → Record → Result Record
validated_control c control = do
  raise_if (not (all (has_key control) required_control_fields)) (safety "CONTROL_SCHEMA_INVALID")
  require control "audit_table_name" (str (audit_table_name c)) (safety "AUDIT_TABLE_MISMATCH")
  require control "generation_table_name" (str c.generation_table_name)
      (safety "GENERATION_TABLE_MISMATCH")
  require control "request_id" (str c.request_id)
      (transient "stale chain identity; daemon is fenced")
  check_switches control
  require control "max_live_generations" (int (pos 3)) (safety "LIVE_GENERATION_LIMIT_INVALID")
  require control "concurrency_model" (str "PREFLIGHT_THEN_RETIRE")
      (safety "CONCURRENCY_MODEL_INVALID")
  check_region c control
  require control "approved_architecture" (str "arm64") (safety "ARCHITECTURE_POLICY_MISMATCH")
  require control "approved_instance_types" (list (text "t4g.micro" ∷ []))
      (safety "INSTANCE_TYPE_POLICY_MISMATCH")
  require control "environment" (str c.environment) (safety "ENVIRONMENT_POLICY_MISMATCH")
  limit ← item control "max_generation"
  most ← to_int limit
  raise_if (ltb_ℤ most (pos 0)) (safety "MAX_GENERATION_INVALID")
  check_timing control timing_fields
  check_lowercase control "template_sha256" (safety "TEMPLATE_IDENTITY_INVALID")
  check_lowercase control "daemon_artifact_sha256" (safety "DAEMON_IDENTITY_INVALID")
  ok control

-- The values of the required fields, in order; a `KeyError` where one is missing.
unfoldable pub items : Record → List String → Result (List Value)
items control [] = ok []
items control (k ∷ ks) =
    let rest = items control ks in do v ← item control k; vs ← rest; ok (v ∷ vs)

-- `_control_identity`.
unfoldable pub control_identity : Record → Result (List Value)
control_identity control = items control required_control_fields

-- Two tuples are equal.
abbrev pub values_eq : List Value → List Value → Bool
unfolding value_eq
values_eq [] [] = true
values_eq (a ∷ xs) (b ∷ ys) = value_eq a b && values_eq xs ys
values_eq _ _ = false

-- `self._control_identity(a) != self._control_identity(b)`.
unfoldable pub identity_differs : Record → Record → Result Bool
identity_differs a b = do x ← control_identity a; y ← control_identity b; ok (not (values_eq x y))
