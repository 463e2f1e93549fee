-- ===== src/Daemon/Lab.antt =====
-- A small world that answers the daemon's gateway: one control record, an owner, a successor stack that
-- starts to beat once it is created, and a clock that moves when the daemon sleeps.
use cloud_glider.Prelude.{
  ℕ, ◌+◌, ◌*◌, ◌/◌, ◌==◌, String, Bool, true, false, Option, none, some, [], ◌∷◌, if◌then◌else◌,
}
use cloud_glider.Prelude.Int.{pos, pos_part}
use cloud_glider.Python.Result.{ok, err, transient}
use cloud_glider.Python.Value.{list, text, Record, str, int, flag}
use cloud_glider.Daemon.Config.{DaemonConfig}
use cloud_glider.Daemon.Gateway.{Stack, Specification, Gateway}
use cloud_glider.Daemon.Session.{Daemon}

pub record World : Type 0 where
  pub ms : ℕ
  pub enabled : Bool
  pub hold : Bool
  pub created : Option Specification
  pub owner : Record

abbrev digest : String
digest = "00112233445566778899aabbccddeeff00112233445566778899aabbccddeeff"

abbrev pub own_arn : String
own_arn = "arn:aws:cloudformation:us-west-2:123456789012:stack/g0/1"

abbrev pub config : DaemonConfig
config = record {
  environment = "sandbox";
  request_id = "7";
  generation = "000000";
  stack_id = own_arn;
  predecessor_stack_id = "NONE";
  handoff_token = "seed";
  state_table_name = "cloud-glider-sandbox";
  generation_table_name = "cloud-glider-sandbox-generations";
  bootstrap_version = "b1";
  template_version = "t1";
  template_bucket = "bucket";
  template_key = "generation.yaml";
  template_s3_version_id = "v1";
  template_sha256 = digest;
  template_build_id = "build";
  daemon_artifact_bucket = "bucket";
  daemon_artifact_key = "daemon.tgz";
  daemon_artifact_version_id = "v2";
  daemon_artifact_sha256 = digest;
  emergency_hold_function_name = "hold";
  propagation_audit_log_group = "audit";
  daemon_operations_log_group = "operations";
}

abbrev pub control : Bool → Record
control enabled =
    ("propagation_enabled", flag enabled)
    ∷ ("generation_table_name", str "cloud-glider-sandbox-generations")
    ∷ ("audit_table_name", str "cloud-glider-sandbox-audit")
    ∷ ("request_id", str "7")
    ∷ ("cleanup_requested", flag false)
    ∷ ("cleanup_status", str "IDLE")
    ∷ ("desired_template_version", str "t1")
    ∷ ("desired_bootstrap_version", str "b1")
    ∷ ("template_s3_bucket", str "bucket")
    ∷ ("template_s3_key", str "generation.yaml")
    ∷ ("template_s3_version_id", str "v1")
    ∷ ("template_sha256", str digest)
    ∷ ("template_build_id", str "build")
    ∷ ("daemon_artifact_bucket", str "bucket")
    ∷ ("daemon_artifact_key", str "daemon.tgz")
    ∷ ("daemon_artifact_version_id", str "v2")
    ∷ ("daemon_artifact_sha256", str digest)
    ∷ ("max_generation", int (pos 2))
    ∷ ("max_live_generations", int (pos 3))
    ∷ ("concurrency_model", str "PREFLIGHT_THEN_RETIRE")
    ∷ ("approved_region", str "us-west-2")
    ∷ ("approved_architecture", str "arm64")
    ∷ ("approved_instance_types", list (text "t4g.micro" ∷ []))
    ∷ ("environment", str "sandbox")
    ∷ ("readiness_poll_seconds", int (pos 2))
    ∷ ("readiness_required_heartbeats", int (pos 2))
    ∷ ("heartbeat_interval_seconds", int (pos 5))
    ∷ ("readiness_timeout_seconds", int (pos 600))
    ∷ []

abbrev own_parameters : Record
own_parameters =
    ("Environment", str "sandbox")
    ∷ ("Owner", str "team")
    ∷ ("Generation", str "000000")
    ∷ ("RequestId", str "7")
    ∷ ("GenerationTableName", str "cloud-glider-sandbox-generations")
    ∷ ("PredecessorStackId", str "NONE")
    ∷ ("HandoffToken", str "seed")
    ∷ ("ApprovedImageId", str "ami-1")
    ∷ ("InstanceType", str "t4g.micro")
    ∷ ("ImageArchitecture", str "arm64")
    ∷ ("SubnetId", str "subnet-1")
    ∷ ("SecurityGroupId", str "sg-1")
    ∷ ("DaemonInstanceProfileName", str "profile")
    ∷ ("StateTableName", str "cloud-glider-sandbox")
    ∷ ("DaemonArtifactBucket", str "bucket")
    ∷ ("DaemonArtifactKey", str "daemon.tgz")
    ∷ ("DaemonArtifactVersionId", str "v2")
    ∷ ("DaemonArtifactSha256", str digest)
    ∷ ("BootstrapVersion", str "b1")
    ∷ ("TemplateVersion", str "t1")
    ∷ ("TemplateBucket", str "bucket")
    ∷ ("TemplateKey", str "generation.yaml")
    ∷ ("TemplateS3VersionId", str "v1")
    ∷ ("TemplateSha256", str digest)
    ∷ ("TemplateBuildId", str "build")
    ∷ ("PropagationAuditLogGroupName", str "audit")
    ∷ ("DaemonOperationsLogGroupName", str "operations")
    ∷ ("EmergencyHoldFunctionName", str "hold")
    ∷ ("OperationalAlertsTopicArn", str "topic")
    ∷ ("RootDeviceName", str "/dev/sda1")
    ∷ ("RootVolumeGiB", str "8")
    ∷ ("DaemonDeliveryMode", str "baked")
    ∷ []

abbrev pub own_stack : Stack
own_stack = record {
  stack_id = some own_arn;
  stack_status = some "CREATE_COMPLETE";
  parameters = some own_parameters;
  role_arn = some "role";
  tags = none;
}

abbrev successor_stack : Specification → Stack
successor_stack specification = record {
  stack_id = some "arn:successor";
  stack_status = some "CREATE_COMPLETE";
  parameters = some specification.parameters;
  role_arn = some "role";
  tags = none;
}

-- The successor beats once a second.
abbrev pub beat : Specification → ℕ → Record
beat specification seconds =
    ("request_id", str "7")
    ∷ ("generation", str specification.generation)
    ∷ ("stack_id", str "arn:successor")
    ∷ ("instance_id", str "i-1")
    ∷ ("predecessor_stack_id", str own_arn)
    ∷ ("handoff_token", str "handoff-hash")
    ∷ ("template_version", str "t1")
    ∷ ("template_s3_version_id", str "v1")
    ∷ ("template_sha256", str digest)
    ∷ ("template_build_id", str "build")
    ∷ ("bootstrap_version", str "b1")
    ∷ ("daemon_artifact_version_id", str "v2")
    ∷ ("daemon_artifact_sha256", str digest)
    ∷ ("status", str "CANDIDATE")
    ∷ ("workload_healthy", flag true)
    ∷ ("observed_propagation_enabled", flag true)
    ∷ ("observed_hold_active", flag false)
    ∷ ("heartbeat_sequence", int (pos seconds))
    ∷ ("heartbeat_at_epoch", int (pos seconds))
    ∷ []

abbrev found_stack : String → Option Specification → Option Stack
found_stack id none = if id == own_arn then some own_stack else none
found_stack id (some specification) =
    if id == own_arn then some own_stack else some (successor_stack specification)

abbrev found_state : ℕ → Option Specification → Option Record
found_state seconds none = none
found_state seconds (some specification) = some (beat specification seconds)

abbrev pub gateway : Gateway World
gateway = record {
  instance_id = "i-0";
  read_control_and_hold = λ w. (ok (control w.enabled, w.hold), w);
  read_current = λ w. (ok w.owner, w);
  claim_initial_current = λ claim w. (ok true, record w { owner = claim });
  write_heartbeat = λ state w. (ok tt, w);
  acquire_lease = λ owner generation now expires w. (ok true, w);
  renew_lease = λ owner expires w. (ok tt, w);
  release_lease = λ owner w. (err (transient "throttled"), w);
  describe_stack = λ id w. (ok (found_stack id w.created), w);
  stack_instance_id = λ id w. (ok (if id == own_arn then "i-0" else "i-1"), w);
  verify_template_artifact = λ record' w. (ok tt, w);
  create_stack = λ specification w. (ok "arn:successor", record w { created = some specification });
  reconcile_submission = λ specification stack w. (ok tt, w);
  read_generation_state = λ generation w. (ok (found_state (w.ms / 1000) w.created), w);
  check_capacity = λ limit w. (ok tt, w);
  handoff = λ expected successor audit w. (ok true, record w { owner = successor });
  delete_stack = λ id role token w. (ok tt, w);
  invoke_hold = λ generation code correlation w. (ok tt, w);
  clock = λ w. (w.ms, w);
  sleep = λ seconds w. record w { ms = w.ms + pos_part seconds * 1000 };
  utc_now = λ w. ("2026-10-03T00:00:00.000Z", w);
  uuid4 = λ w. ("uuid", w);
  sha256_hex = λ s. "hash";
}

abbrev pub daemon : Daemon World
daemon = record {
  config = config;
  gateway = gateway;
  correlation_id = "c";
  lease_owner = "000000:i-0:l";
}

-- Nobody is CURRENT yet, and propagation is enabled.
abbrev pub dawn : World
dawn = record {
  ms = 1000000;
  enabled = true;
  hold = false;
  created = none;
  owner = ("status", str "UNINITIALIZED") ∷ [];
}

-- The successor that the daemon of generation 0 asks for, and the world once it exists.
abbrev pub successor : Specification
successor = record {
  stack_name = "cloud-glider-sandbox-gen-000001";
  generation = "000001";
  template =
      ("template_bucket", str "bucket")
      ∷ ("template_key", str "generation.yaml")
      ∷ ("template_version_id", str "v1")
      ∷ [];
  parameters =
      ("Generation", str "000001")
      ∷ ("PredecessorStackId", str own_arn)
      ∷ ("HandoffToken", str "handoff-hash")
      ∷ own_parameters;
  role_arn = "role";
  client_token = "cg-create-hash";
  tags = [];
}

abbrev pub day : World
day = record dawn { created = some successor }

-- A daemon whose own stack was made from another template version.
abbrev pub misplaced : Daemon World
misplaced = record daemon { config = record config { template_version = "t0" } }
