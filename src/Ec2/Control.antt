-- ===== src/Ec2/Control.antt =====
-- ec2_daemon.py: `Ec2Daemon._validated_control` and `_artifact_identity`.
pub mod Approved
use Prim.Native.String.{◌++◌ as concat}
use cloud_glider.Prelude.{
  String, Bool, true, false, not, ◌&&◌, ◌||◌, List, [], ◌∷◌, ◌==◌, if◌then◌else◌,
}
use cloud_glider.Prelude.Int.{ℤ, pos, ltb_ℤ}
use cloud_glider.Prelude.Lists.{all}
use cloud_glider.Python.Text.{matches_sha256}
use cloud_glider.Python.Result.{Failure, safety, transient, Result, ok, err, raise_if, ◌>>=◌, ◌>>◌}
use cloud_glider.Python.Dict.{has_key}
use cloud_glider.Python.Value.{
  Plain, num, text, Value, plain, list, Record, value_eq, truth, to_int, item, is_bool, as_text,
  str, int,
}
use cloud_glider.Daemon.Control.{require, timing_fields, check_timing}
use cloud_glider.Family.Config.{Ec2DaemonConfig, audit_table_name}

-- The required fields that hold texts.
abbrev pub text_fields : List String
text_fields =
    "generation_table_name" ∷ "audit_table_name" ∷ "request_id" ∷ "cleanup_status"
    ∷ "propagation_backend" ∷ "desired_template_version" ∷ "desired_bootstrap_version"
    ∷ "template_s3_bucket" ∷ "template_s3_key" ∷ "template_s3_version_id" ∷ "template_sha256"
    ∷ "template_build_id" ∷ "daemon_artifact_bucket" ∷ "daemon_artifact_key"
    ∷ "daemon_artifact_version_id" ∷ "daemon_artifact_sha256" ∷ "concurrency_model"
    ∷ "approved_region" ∷ "approved_account_id" ∷ "approved_architecture" ∷ "environment"
    ∷ "launch_template_id" ∷ "launch_template_version" ∷ "launch_template_sha256" ∷ []

abbrev pub number_fields : List String
number_fields =
    "max_generation" ∷ "max_live_generations" ∷ "readiness_poll_seconds"
    ∷ "readiness_required_heartbeats" ∷ "heartbeat_interval_seconds" ∷ "readiness_timeout_seconds"
    ∷ []

abbrev pub other_fields : List String
other_fields = "propagation_enabled" ∷ "cleanup_requested" ∷ "approved_instance_types" ∷ []

abbrev pub has_all : Record → List String → Bool
unfolding has_key
has_all control names = all (has_key control) names

-- `type(v) is int`.
unfoldable pub is_number : Value → Bool
is_number (plain (num n)) = true
is_number _ = false

-- `isinstance(v, str) and v`.
unfoldable pub is_filled : Value → Bool
is_filled (plain (text s)) = not (s == "")
is_filled _ = false

abbrev pub schema : Failure
schema = safety "CONTROL_SCHEMA_INVALID"

unfoldable pub check_each : (Value → Bool) → Record → List String → Result (Unit {0})
check_each test control [] = ok tt
check_each test control (field ∷ fields) =
    let rest = check_each test control fields in
    do v ← item control field; raise_if (not (test v)) schema; rest

unfoldable pub check_cleanup : Record → Result (Unit {0})
check_cleanup control = do
  requested ← item control "cleanup_requested"
  raise_if (not (is_bool requested)) (safety "LIFECYCLE_SCHEMA_INVALID")
  status ← item control "cleanup_status"
  raise_if
      (truth requested || not (value_eq status (str "IDLE") || value_eq status (str "COMPLETE")))
      (transient "cleanup fences daemon activity")

-- `max_live_generations` is 2 or 3.
unfoldable pub check_ceiling : Record → Result (Unit {0})
check_ceiling control = do
  ceiling ← item control "max_live_generations"
  raise_if (not (value_eq ceiling (int (pos 2)) || value_eq ceiling (int (pos 3))))
      (safety "CONCURRENCY_MODEL_INVALID")
  require control "concurrency_model" (str "EC2_DRY_RUN_THEN_RETIRE")
      (safety "CONCURRENCY_MODEL_INVALID")

unfoldable pub check_limit : Record → Result (Unit {0})
check_limit control = do
  v ← item control "max_generation"
  limit ← to_int v
  raise_if (ltb_ℤ limit (pos 0) || ltb_ℤ (pos 999999) limit) (safety "MAX_GENERATION_INVALID")

unfoldable pub check_digest : Record → String → Result (Unit {0})
check_digest control field = do
  v ← item control field
  digest ← as_text v
  raise_if (not (matches_sha256 digest)) (safety "TEMPLATE_IDENTITY_INVALID")

-- `_artifact_identity`.
abbrev pub artifact_identity : Ec2DaemonConfig → List (String × String)
artifact_identity c =
    ("desired_template_version", c.template_version)
    ∷ ("desired_bootstrap_version", c.bootstrap_version)
    ∷ ("template_s3_bucket", c.template_bucket)
    ∷ ("template_s3_key", c.template_key)
    ∷ ("template_s3_version_id", c.template_s3_version_id)
    ∷ ("template_sha256", c.template_sha256)
    ∷ ("template_build_id", c.template_build_id)
    ∷ ("daemon_artifact_bucket", c.daemon_artifact_bucket)
    ∷ ("daemon_artifact_key", c.daemon_artifact_key)
    ∷ ("daemon_artifact_version_id", c.daemon_artifact_version_id)
    ∷ ("daemon_artifact_sha256", c.daemon_artifact_sha256)
    ∷ []

unfoldable pub check_artifacts : Record → List (String × String) → Result (Unit {0})
check_artifacts control [] = ok tt
check_artifacts control ((k, v) ∷ pins) =
    let rest = check_artifacts control pins in
    do require control k (str v) (safety "ARTIFACT_IDENTITY_MISMATCH"); rest

-- What the checks take from the gateway.
pub record Place : Type 0 where
  pub account_id : String
  pub region : String

unfoldable pub expected_topic : Ec2DaemonConfig → Place → String
expected_topic c p =
    concat "arn:aws:sns:us-west-2:"
      (concat p.account_id (concat ":cloud-glider-" (concat c.environment "-operational-alerts")))

-- `_validated_control`. The two tests of types stand in one `any` in the source; either raises the same.
unfoldable pub validated_control : Ec2DaemonConfig → Place → Record → Result Record
validated_control c p control = do
  raise_if
      (not (
        has_all control text_fields
        && has_all control number_fields
        && has_all control other_fields))
      schema
  require control "audit_table_name" (str (audit_table_name c)) (safety "AUDIT_TABLE_MISMATCH")
  require control "generation_table_name" (str c.generation_table_name)
      (safety "GENERATION_TABLE_MISMATCH")
  require control "request_id" (str c.request_id)
      (transient "stale chain identity; daemon is fenced")
  check_cleanup control
  require control "propagation_backend" (str "ec2") (safety "BACKEND_MISMATCH")
  check_each is_number control number_fields
  check_each is_filled control text_fields
  raise_if (not (c.operational_alerts_topic_arn == expected_topic c p))
      (safety "ALERT_TOPIC_IDENTITY_MISMATCH")
  check_each is_bool control ("propagation_enabled" ∷ [])
  check_ceiling control
  require control "approved_region" (str "us-west-2") (safety "REGION_POLICY_MISMATCH")
  raise_if (not (p.region == "us-west-2")) (safety "REGION_POLICY_MISMATCH")
  require control "approved_account_id" (str p.account_id) (safety "ACCOUNT_POLICY_MISMATCH")
  require control "approved_architecture" (str "arm64") (safety "COMPUTE_POLICY_MISMATCH")
  require control "approved_instance_types" (list (text "t4g.micro" ∷ []))
      (safety "COMPUTE_POLICY_MISMATCH")
  require control "environment" (str c.environment) (safety "ENVIRONMENT_POLICY_MISMATCH")
  check_limit control
  check_timing control timing_fields
  check_digest control "template_sha256"
  check_digest control "daemon_artifact_sha256"
  check_digest control "launch_template_sha256"
  require control "launch_template_id" (str c.launch_template_id)
      (safety "LAUNCH_TEMPLATE_IDENTITY_MISMATCH")
  require control "launch_template_version" (str c.launch_template_version)
      (safety "LAUNCH_TEMPLATE_IDENTITY_MISMATCH")
  check_artifacts control (artifact_identity c)
  ok control
