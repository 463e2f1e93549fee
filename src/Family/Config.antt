-- ===== src/Family/Config.antt =====
-- ec2_daemon.py, `Ec2DaemonConfig`: its fields, and the audit table that they name.
use Prim.Native.String.{◌++◌ as concat}
use cloud_glider.Prelude.{String, Option}
use cloud_glider.Python.Value.{Value, Record}

-- `inherited_configuration`, where it is a dict with the keys `settings` and `sha256`.
pub record Envelope : Type 0 where
  pub settings : Record
  pub sha256 : Value

pub record Ec2DaemonConfig : Type 0 where
  pub environment : String
  pub request_id : String
  pub generation_table_name : String
  pub owner : String
  pub generation : String
  pub instance_id : String
  pub predecessor_instance_id : String
  pub handoff_token : String
  pub launch_template_id : String
  pub launch_template_version : String
  pub state_table_name : String
  pub bootstrap_version : String
  pub template_version : String
  pub template_bucket : String
  pub template_key : String
  pub template_s3_version_id : String
  pub template_sha256 : String
  pub template_build_id : String
  pub daemon_artifact_bucket : String
  pub daemon_artifact_key : String
  pub daemon_artifact_version_id : String
  pub daemon_artifact_sha256 : String
  pub emergency_hold_function_name : String
  pub propagation_audit_log_group : String
  pub daemon_operations_log_group : String
  pub operational_alerts_topic_arn : String
  pub daemon_delivery_mode : String
  pub inherited_configuration : Option Envelope
  pub node_path : String

unfoldable pub audit_table_name : Ec2DaemonConfig → String
audit_table_name c = concat "cloud-glider-" (concat c.environment "-audit")
