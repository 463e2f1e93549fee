-- ===== src/Daemon/Identity.antt =====
-- daemon.py: `verify_self`, `is_current_owner`, `heartbeat` and `ensure_bootstrap_ownership`.
use cloud_glider.Prelude.{
  ℕ, ◌+◌, String, Bool, true, false, not, ◌&&◌, Option, none, some, List, [], ◌∷◌, ◌==◌,
  if◌then◌else◌,
}
use cloud_glider.Prelude.Int.{ℤ, pos}
use cloud_glider.Prelude.Lists.{all, any}
use cloud_glider.Python.Result.{safety, Result, ok, err}
use cloud_glider.Python.Exec.{Exec, pure, lift, gets, modify, raise_if, ◌>>=◌, ◌>>◌}
use cloud_glider.Python.Dict.{update, keys, has_key}
use cloud_glider.Python.Value.{Record, value_eq, truth, item, get, str, int, flag}
use cloud_glider.Daemon.Gateway.{Stack}
use cloud_glider.Daemon.Session.{
  current_read, initial_claimed, heartbeat_written, stack_described, instance_looked_up, Session,
  Daemon, call, observe, now_seconds,
}
use cloud_glider.Daemon.Specification.{identity, generation_parameter_names}

-- Two optional texts are equal; `None` equals no text.
abbrev pub is_text : Option String → String → Bool
is_text none s = false
is_text (some t) s = t == s

abbrev pub or_empty : Option Record → Record
or_empty none = []
or_empty (some p) = p

-- `set(parameters) == GENERATION_PARAMETER_NAMES`.
abbrev pub same_names : Record → List String → Bool
unfolding keys has_key
same_names parameters names =
    all (has_key parameters) names && all (λ k. any (λ n. n == k) names) (keys parameters)

-- Each expected entry is there with an equal value: `d.get(k) == v`.
abbrev pub entries_match : Record → Record → Bool
entries_match [] found = true
entries_match ((k, v) ∷ expected) found = value_eq (get k found) v && entries_match expected found

module _ {W : Type 0} (d : Daemon W) where
  open d use {config, gateway}

  -- `expected` in `verify_self`.
  unfoldable pub own_parameters : Record
  own_parameters =
      ("RequestId", str config.request_id)
      ∷ ("GenerationTableName", str config.generation_table_name)
      ∷ ("Environment", str config.environment)
      ∷ ("Generation", str config.generation)
      ∷ ("PredecessorStackId", str config.predecessor_stack_id)
      ∷ ("HandoffToken", str config.handoff_token)
      ∷ ("BootstrapVersion", str config.bootstrap_version)
      ∷ ("TemplateVersion", str config.template_version)
      ∷ ("TemplateBucket", str config.template_bucket)
      ∷ ("TemplateKey", str config.template_key)
      ∷ ("TemplateS3VersionId", str config.template_s3_version_id)
      ∷ ("TemplateSha256", str config.template_sha256)
      ∷ ("TemplateBuildId", str config.template_build_id)
      ∷ ("DaemonArtifactBucket", str config.daemon_artifact_bucket)
      ∷ ("DaemonArtifactKey", str config.daemon_artifact_key)
      ∷ ("DaemonArtifactVersionId", str config.daemon_artifact_version_id)
      ∷ ("DaemonArtifactSha256", str config.daemon_artifact_sha256)
      ∷ []

  -- What `verify_self` checks of the stack that it found.
  unfoldable pub verify_parameters : Option Stack → Result Stack
  verify_parameters none = err (safety "SELF_STACK_IDENTITY_MISMATCH")
  verify_parameters (some stack) =
      if not (is_text stack.stack_id config.stack_id)
      then err (safety "SELF_STACK_IDENTITY_MISMATCH")
      else if not (same_names (or_empty stack.parameters) generation_parameter_names)
      then err (safety "SELF_PARAMETER_SET_MISMATCH")
      else if not (entries_match own_parameters (or_empty stack.parameters))
      then err (safety "SELF_TEMPLATE_IDENTITY_MISMATCH")
      else ok stack

  -- `verify_self`.
  unfoldable pub verify_self : Exec (Session W) (Unit {0})
  verify_self = do
    found ← call (stack_described config.stack_id) (gateway.describe_stack config.stack_id)
    stack ← lift (verify_parameters found)
    instance_id ←
        call (instance_looked_up config.stack_id) (gateway.stack_instance_id config.stack_id)
    raise_if (not (instance_id == gateway.instance_id)) (safety "SELF_INSTANCE_IDENTITY_MISMATCH")
    modify (λ s. record s { own_stack = some stack }) tt

  -- `is_current_owner`, of a record that was read.
  unfoldable pub is_current_owner : Record → Bool
  is_current_owner current =
      value_eq (get "status" current) (str "CURRENT")
      && value_eq (get "request_id" current) (str config.request_id)
      && value_eq (get "generation" current) (str config.generation)
      && value_eq (get "stack_id" current) (str config.stack_id)
      && value_eq (get "instance_id" current) (str gateway.instance_id)

  unfoldable pub read_current : Exec (Session W) Record
  read_current = call current_read gateway.read_current

  -- The record that `heartbeat` writes.
  unfoldable pub heartbeat_state : Bool → Bool → Bool → ℕ → ℤ → String → Record
  heartbeat_state is_current enabled hold sequence epoch updated = update (identity d) (
      ("status", str (if is_current then "CURRENT" else "CANDIDATE"))
      ∷ ("predecessor_stack_id", str config.predecessor_stack_id)
      ∷ ("handoff_token", str config.handoff_token)
      ∷ ("workload_healthy", flag true)
      ∷ ("observed_propagation_enabled", flag enabled)
      ∷ ("observed_hold_active", flag hold)
      ∷ ("heartbeat_sequence", int (pos sequence))
      ∷ ("heartbeat_at_epoch", int epoch)
      ∷ ("updated_at", str updated)
      ∷ [])

  -- `heartbeat`.
  unfoldable pub heartbeat : Record → Bool → Record → Exec (Session W) (Unit {0})
  heartbeat control hold current = do
    modify (λ s. record s { heartbeat_sequence = s.heartbeat_sequence + 1 }) tt
    enabled ← lift (item control "propagation_enabled")
    sequence ← gets (λ s. s.heartbeat_sequence)
    epoch ← now_seconds d
    updated ← observe gateway.utc_now
    let state =
        heartbeat_state (is_current_owner current) (truth enabled) hold sequence epoch updated
    call (heartbeat_written state) (gateway.write_heartbeat state)

  -- The owner that a lost claim leaves in place is accepted if it is this daemon.
  abbrev pub owner_matches : Record → Bool
  owner_matches current =
      value_eq (get "request_id" current) (str config.request_id)
      && value_eq (get "generation" current) (str config.generation)
      && value_eq (get "stack_id" current) (str config.stack_id)
      && value_eq (get "instance_id" current) (str gateway.instance_id)

  unfoldable pub reconcile_claim : Bool → Exec (Session W) (Unit {0})
  reconcile_claim true = pure tt
  reconcile_claim false = do
    current ← read_current
    raise_if (not (owner_matches current)) (safety "BOOTSTRAP_OWNERSHIP_CONFLICT")

  unfoldable pub claim_current : Exec (Session W) (Unit {0})
  claim_current = do
    updated ← observe gateway.utc_now
    let claim = update (identity d) (("status", str "CURRENT") ∷ ("updated_at", str updated) ∷ [])
    claimed ← call (initial_claimed claim) (gateway.claim_initial_current claim)
    reconcile_claim claimed

  -- `ensure_bootstrap_ownership`.
  unfoldable pub ensure_bootstrap_ownership : Exec (Session W) (Unit {0})
  ensure_bootstrap_ownership = do
    current ← read_current
    if value_eq (get "status" current) (str "UNINITIALIZED") then claim_current else pure tt
