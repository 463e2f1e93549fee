-- ===== src/Ec2/Lab.antt =====
-- A small world that answers the EC2 daemon: a chain whose first generation is to be retired and
-- whose next one is ready.
use cloud_glider.Prelude.{
  ◌+◌, ◌*◌, ℕ, ◌==◌, String, true, false, none, some, [], ◌∷◌, if◌then◌else◌,
}
use cloud_glider.Prelude.Int.{pos, pos_part}
use cloud_glider.Python.Result.{ok}
use cloud_glider.Python.Value.{num, text, dict, Record, list, str, int, flag}
use cloud_glider.Family.Config.{Ec2DaemonConfig}
use cloud_glider.Family.Lab.{config}
use cloud_glider.Ec2.Control.{Place}
use cloud_glider.Ec2.Session.{Specification, Instance, Gateway, Ec2Daemon}

abbrev digest : String
digest = "00112233445566778899aabbccddeeff00112233445566778899aabbccddeeff"

abbrev pub pinned : Ec2DaemonConfig
pinned = record config {
  template_sha256 = digest;
  daemon_artifact_sha256 = digest;
  operational_alerts_topic_arn =
      "arn:aws:sns:us-west-2:123456789012:cloud-glider-sandbox-operational-alerts";
}

abbrev pub place : Place
place = record { account_id = "123456789012"; region = "us-west-2" }

abbrev pub control : Record
control =
    ("propagation_enabled", flag true)
    ∷ ("generation_table_name", str "cloud-glider-sandbox-generations")
    ∷ ("audit_table_name", str "cloud-glider-sandbox-audit")
    ∷ ("request_id", str "7")
    ∷ ("cleanup_requested", flag false)
    ∷ ("cleanup_status", str "IDLE")
    ∷ ("propagation_backend", str "ec2")
    ∷ ("desired_template_version", str "t1")
    ∷ ("desired_bootstrap_version", str "b1")
    ∷ ("template_s3_bucket", str "bucket")
    ∷ ("template_s3_key", str "generation.yaml")
    ∷ ("template_s3_version_id", str "v1")
    ∷ ("template_sha256", str digest)
    ∷ ("template_build_id", str "build")
    ∷ ("daemon_artifact_bucket", str "bucket")
    ∷ ("daemon_artifact_key", str "daemon.tgz")
    ∷ ("daemon_artifact_version_id", str "v2")
    ∷ ("daemon_artifact_sha256", str digest)
    ∷ ("max_generation", int (pos 4))
    ∷ ("max_live_generations", int (pos 3))
    ∷ ("concurrency_model", str "EC2_DRY_RUN_THEN_RETIRE")
    ∷ ("approved_region", str "us-west-2")
    ∷ ("approved_account_id", str "123456789012")
    ∷ ("approved_architecture", str "arm64")
    ∷ ("approved_instance_types", list (text "t4g.micro" ∷ []))
    ∷ ("environment", str "sandbox")
    ∷ ("readiness_poll_seconds", int (pos 2))
    ∷ ("readiness_required_heartbeats", int (pos 2))
    ∷ ("heartbeat_interval_seconds", int (pos 5))
    ∷ ("readiness_timeout_seconds", int (pos 600))
    ∷ ("launch_template_id", str "lt-0")
    ∷ ("launch_template_version", str "1")
    ∷ ("launch_template_sha256", str digest)
    ∷ []

-- CURRENT after the handoff to this instance.
abbrev pub current : Record
current =
    ("status", str "CURRENT")
    ∷ ("request_id", str "7")
    ∷ ("generation", str "000001")
    ∷ ("instance_id", str "i-1")
    ∷ ("launch_template_id", str "lt-0")
    ∷ ("launch_template_version", str "1")
    ∷ ("predecessor_instance_id", str "i-0")
    ∷ ("handoff_token", str "handoff-r0")
    ∷ ("retirement_authorized", flag true)
    ∷ ("handoff_control_sha256", str digest)
    ∷ ("continuation_generation", str "000002")
    ∷ ("continuation_status", str "DRY_RUN_PASSED")
    ∷ (
      "functional_readiness",
      dict (
          ("schema_version", text "1")
          ∷ ("producer_instance_id", text "i-1")
          ∷ ("handoff_token", text "handoff-r0")
          ∷ ("control_sha256", text digest)
          ∷ ("proved_at_epoch", num (pos 1000))
          ∷ ("continuation_generation", text "000002")
          ∷ ("continuation_status", text "DRY_RUN_PASSED")
          ∷ []),
    )
    ∷ []

-- What the daemon specified for its successor.
abbrev pub successor : Specification
successor = record {
  request_id = "7";
  generation = "000002";
  launch_template_id = str "lt-0";
  launch_template_version = str "1";
  client_token = "cg-create-2";
  tags = ("predecessor-instance-id", str "i-1") ∷ ("handoff-token", str "handoff-2") ∷ [];
}

-- The state of the candidate, which proved its readiness at second 1000.
abbrev candidate : Record
candidate =
    ("request_id", str "7")
    ∷ ("generation", str "000002")
    ∷ ("instance_id", str "i-2")
    ∷ ("launch_template_id", str "lt-0")
    ∷ ("launch_template_version", str "1")
    ∷ ("template_version", str "t1")
    ∷ ("template_s3_version_id", str "v1")
    ∷ ("template_sha256", str digest)
    ∷ ("template_build_id", str "build")
    ∷ ("bootstrap_version", str "b1")
    ∷ ("daemon_artifact_version_id", str "v2")
    ∷ ("daemon_artifact_sha256", str digest)
    ∷ ("predecessor_instance_id", str "i-1")
    ∷ ("handoff_token", str "handoff-2")
    ∷ ("status", str "CANDIDATE")
    ∷ ("daemon_live", flag true)
    ∷ ("observed_propagation_enabled", flag true)
    ∷ ("observed_hold_active", flag false)
    ∷ (
      "functional_readiness",
      dict (
          ("schema_version", text "1")
          ∷ ("producer_instance_id", text "i-2")
          ∷ ("handoff_token", text "handoff-2")
          ∷ ("control_sha256", text digest)
          ∷ ("proved_at_epoch", num (pos 1000))
          ∷ ("continuation_generation", text "000003")
          ∷ ("continuation_status", text "DRY_RUN_PASSED")
          ∷ []),
    )
    ∷ []

abbrev approved_template : Record
approved_template = ("LaunchTemplateId", str "lt-0") ∷ ("Version", str "1") ∷ []

abbrev own_instance : Instance
own_instance = record {
  instance_id = some "i-1";
  state_name = some "running";
  tags = none;
  launch_template = some approved_template;
}

-- The predecessor, in that state.
abbrev first_instance : String → Instance
first_instance state = record {
  instance_id = some "i-0";
  state_name = some state;
  tags = some (
      ("project", str "cloud-glider")
      ∷ ("bootstrap-request-id", str "7")
      ∷ ("propagation-backend", str "ec2")
      ∷ ("environment", str "sandbox")
      ∷ ("purpose", str "generation-compute")
      ∷ ("generation", str "000000")
      ∷ []);
  launch_template = some approved_template;
}

-- The state that the predecessor is in, and the time.
abbrev pub World : Type 0
World = String × ℕ

abbrev pub gateway : Gateway World
gateway = record {
  instance_id = "i-1";
  place = place;
  read_control_and_hold = λ w. (ok (control, false), w);
  read_current = λ w. (ok current, w);
  claim_initial_current = λ claim w. (ok false, w);
  renew_lease = λ owner until w. (ok tt, w);
  verify_launch_template = λ c w. (ok tt, w);
  describe_instance =
      λ id w. (ok (some (if id == "i-1" then own_instance else first_instance w.0)), w);
  verify_instance = λ instance spec w. (ok tt, w);
  find_successor = λ spec w. (ok none, w);
  reconcile_ec2_submission = λ spec instance w. (ok tt, w);
  ensure_status_alarm = λ generation id w. (ok tt, w);
  delete_status_alarm = λ generation id w. (ok tt, w);
  check_capacity = λ limit w. (ok tt, w);
  claim_submission = λ spec w. (ok tt, w);
  run_instance = λ spec w. (ok "i-2", w);
  dry_run_instance = λ spec w. (ok tt, w);
  terminate_instance = λ id w. (ok tt, ("shutting-down", w.1));
  mark_retirement_completed = λ c w. (ok tt, w);
  read_generation_state = λ generation w. (ok (some candidate), w);
  handoff = λ expected successor audit w. (ok true, w);
  clock = λ w. (w.1, w);
  sleep = λ seconds w. (w.0, w.1 + pos_part seconds * 1000);
  uuid4 = λ w. ("u", w);
  utc_now = λ w. ("2026-01-01T00:00:00.000Z", w);
  sha256_hex = λ s. digest;
}

abbrev pub daemon : Ec2Daemon World
daemon = record {
  config = pinned;
  gateway = gateway;
  correlation_id = "c";
  lease_owner = "000001:i-1:u";
}
