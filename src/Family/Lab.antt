-- ===== src/Family/Lab.antt =====
-- A small world that answers the family daemon: a node that owns its place, whose two children start,
-- are accepted and continue at once.
use cloud_glider.Prelude.{ℕ, ◌+◌, Bool, true, false, some, List, [], ◌∷◌}
use cloud_glider.Prelude.Int.{pos, pos_part}
use cloud_glider.Python.Result.{ok}
use cloud_glider.Python.Value.{Record, str, int, flag}
use cloud_glider.Family.Config.{Ec2DaemonConfig}
use cloud_glider.Family.Monitor.{MonitorSettings}
use cloud_glider.Family.Session.{FamilyGateway, FamilyDaemon}

abbrev pub settings : Record
settings =
    ("schema_version", str "3")
    ∷ ("request_id", str "7")
    ∷ ("binary_fanout_enabled", flag true)
    ∷ ("max_generation", int (pos 4))
    ∷ ("audit_table_name", str "cloud-glider-sandbox-audit")
    ∷ ("readiness_poll_seconds", int (pos 2))
    ∷ ("readiness_timeout_seconds", int (pos 600))
    ∷ ("heartbeat_interval_seconds", int (pos 5))
    ∷ ("control_poll_seconds", int (pos 5))
    ∷ ("control_max_age_seconds", int (pos 30))
    ∷ ("initial_propagation_enabled", flag true)
    ∷ ("retry_backoff_max_seconds", int (pos 60))
    ∷ ("launch_template_id", str "lt-0")
    ∷ ("launch_template_version", str "1")
    ∷ ("launch_template_sha256", str "sha")
    ∷ ("daemon_artifact_sha256", str "sha")
    ∷ ("approved_account_id", str "123456789012")
    ∷ ("approved_region", str "us-west-2")
    ∷ ("environment", str "sandbox")
    ∷ []

abbrev pub config : Ec2DaemonConfig
config = record {
  environment = "sandbox";
  request_id = "7";
  generation_table_name = "cloud-glider-sandbox-generations";
  owner = "team";
  generation = "000001";
  instance_id = "i-1";
  predecessor_instance_id = "i-0";
  handoff_token = "handoff-r0";
  launch_template_id = "lt-0";
  launch_template_version = "1";
  state_table_name = "cloud-glider-sandbox";
  bootstrap_version = "b1";
  template_version = "t1";
  template_bucket = "bucket";
  template_key = "generation.yaml";
  template_s3_version_id = "v1";
  template_sha256 = "sha";
  template_build_id = "build";
  daemon_artifact_bucket = "bucket";
  daemon_artifact_key = "daemon.tgz";
  daemon_artifact_version_id = "v2";
  daemon_artifact_sha256 = "sha";
  emergency_hold_function_name = "hold";
  propagation_audit_log_group = "audit";
  daemon_operations_log_group = "operations";
  operational_alerts_topic_arn = "topic";
  daemon_delivery_mode = "baked";
  inherited_configuration = some (record { settings = settings; sha256 = str "digest" });
  node_path = "r0";
}

-- The time, and how often the monitor still lets the daemon go on.
pub record World : Type 0 where
  pub ms : ℕ
  pub lets_go : List Bool

abbrev said : List Bool → Bool
said [] = true
said (word ∷ words) = word

abbrev unsaid : List Bool → List Bool
unsaid [] = []
unsaid (word ∷ words) = words

abbrev pub gateway : FamilyGateway World
gateway = record {
  stop_node = λ path w. (ok tt, w);
  read_node = λ path w. (ok (("status", str "RUNNING") ∷ ("owner", str "i-1") ∷ []), w);
  retire_self = λ w. (ok tt, w);
  publish_readiness = λ now has w. (ok tt, w);
  mark_leaf = λ w. (ok tt, w);
  single_launch_ready = λ w. (ok true, w);
  launch_child = λ child w. (ok "i-2", w);
  publish_propagation = λ paths instances now w. (ok tt, w);
  accept_child = λ child instance now w. (ok true, w);
  parent_terminated = λ w. (ok true, w);
  authorize_retirement = λ paths now w. (ok true, w);
  monitor_tick = λ w. (said w.lets_go, record w { lets_go = unsaid w.lets_go });
  stop_file_exists = λ w. (false, w);
  write_stop_file = λ w. (ok tt, w);
  read_stop_file = λ w. ("digest", w);
  stop_monitor = λ w. record w { lets_go = [] };
  verify_family_self = λ w. (ok tt, w);
  initialize_node = λ w. (ok tt, w);
  invoke_hold = λ generation code correlation w. (ok tt, w);
  uniform = λ least most w. (most, w);
  sleep = λ ms w. record w { ms = w.ms + pos_part ms };
  clock = λ w. (w.ms, record w { ms = w.ms + 1 });
  digest = λ r. "digest";
  config_digest = λ c. "identity";
}

abbrev pub daemon : FamilyDaemon World
daemon = record {
  config = config;
  gateway = gateway;
  settings = settings;
  children = "r00" ∷ "r01" ∷ [];
  configuration_identity = "identity";
  correlation_id = "c";
}

-- The monitor never says stop, or says so after three words.
abbrev pub calm : World
calm = record {
  ms = 1000000;
  lets_go = false ∷ false ∷ false ∷ false ∷ false ∷ false ∷ false ∷ false ∷ false ∷ [];
}

abbrev pub halting : World
halting = record { ms = 1000000; lets_go = false ∷ false ∷ false ∷ [] }

abbrev pub monitor_settings : MonitorSettings
monitor_settings = record {
  initial_propagation_enabled = true;
  control_max_age_seconds = 30;
  control_poll_seconds = 5;
}
