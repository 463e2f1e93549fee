-- ===== src/Ec2/Specification.antt =====
-- ec2_daemon.py: `control_fingerprint`, `_control_identity`, `_identity` and `_specification`.
use Prim.Native.String.{◌++◌ as concat}
use cloud_glider.Prelude.{String, Bool, not, List, [], ◌∷◌}
use cloud_glider.Prelude.Int.{ℤ}
use cloud_glider.Python.Text.{format_06d_int}
use cloud_glider.Python.Result.{Result, ok, ◌>>=◌}
use cloud_glider.Python.Json.{dumps}
use cloud_glider.Python.Value.{Value, Record, item, as_text, str}
use cloud_glider.Daemon.Control.{items, values_eq}
use cloud_glider.Daemon.Specification.{stable_token, select}
use cloud_glider.Ec2.Session.{Specification, Ec2Daemon}

-- `sorted(REQUIRED_CONTROL_FIELDS)`.
abbrev pub required_control_fields : List String
required_control_fields =
    "approved_account_id" ∷ "approved_architecture" ∷ "approved_instance_types" ∷ "approved_region"
    ∷ "audit_table_name" ∷ "cleanup_requested" ∷ "cleanup_status" ∷ "concurrency_model"
    ∷ "daemon_artifact_bucket" ∷ "daemon_artifact_key" ∷ "daemon_artifact_sha256"
    ∷ "daemon_artifact_version_id" ∷ "desired_bootstrap_version" ∷ "desired_template_version"
    ∷ "environment" ∷ "generation_table_name" ∷ "heartbeat_interval_seconds" ∷ "launch_template_id"
    ∷ "launch_template_sha256" ∷ "launch_template_version" ∷ "max_generation"
    ∷ "max_live_generations" ∷ "propagation_backend" ∷ "propagation_enabled"
    ∷ "readiness_poll_seconds" ∷ "readiness_required_heartbeats" ∷ "readiness_timeout_seconds"
    ∷ "request_id" ∷ "template_build_id" ∷ "template_s3_bucket" ∷ "template_s3_key"
    ∷ "template_s3_version_id" ∷ "template_sha256" ∷ []

-- `control_fingerprint`, over the SHA-256 that it is given.
unfoldable pub control_fingerprint : (String → String) → Record → Result String
unfolding select dumps
control_fingerprint sha256_hex control = do
  snapshot ← select required_control_fields control
  ok (sha256_hex (dumps snapshot))

-- `_control_identity`.
unfoldable pub control_identity : Record → Result (List Value)
unfolding items
control_identity control = items control required_control_fields

-- `self._control_identity(a) != self._control_identity(b)`.
unfoldable pub identity_differs : Record → Record → Result Bool
identity_differs a b = do x ← control_identity a; y ← control_identity b; ok (not (values_eq x y))

module _ {W : Type 0} (d : Ec2Daemon W) where
  open d use {config, gateway}

  -- `_identity`.
  unfoldable pub identity : Record
  identity =
      ("request_id", str config.request_id)
      ∷ ("generation", str config.generation)
      ∷ ("instance_id", str gateway.instance_id)
      ∷ ("launch_template_id", str config.launch_template_id)
      ∷ ("launch_template_version", str config.launch_template_version)
      ∷ ("template_version", str config.template_version)
      ∷ ("template_s3_version_id", str config.template_s3_version_id)
      ∷ ("template_sha256", str config.template_sha256)
      ∷ ("template_build_id", str config.template_build_id)
      ∷ ("bootstrap_version", str config.bootstrap_version)
      ∷ ("daemon_artifact_version_id", str config.daemon_artifact_version_id)
      ∷ ("daemon_artifact_sha256", str config.daemon_artifact_sha256)
      ∷ []

  -- The tags of `_specification`.
  unfoldable pub specification_tags : String → String → String → Value → Record
  specification_tags generation predecessor token digest =
      ("project", str "cloud-glider")
      ∷ ("bootstrap-request-id", str config.request_id)
      ∷ ("propagation-backend", str "ec2")
      ∷ ("environment", str config.environment)
      ∷ ("purpose", str "generation-compute")
      ∷ ("owner", str config.owner)
      ∷ ("generation", str generation)
      ∷ ("predecessor-instance-id", str predecessor)
      ∷ ("handoff-token", str token)
      ∷ ("template-sha256", digest)
      ∷ (
        "Name",
        str (concat "cloud-glider-" (concat config.environment (concat "-gen-" generation))),
      )
      ∷ []

  -- `_specification`. The token joins the template's identifier and version, which must be texts.
  unfoldable pub specification : Record → ℤ → String → String → Result Specification
  specification control number predecessor token = do
    template_id ← item control "launch_template_id"
    version ← item control "launch_template_version"
    id_text ← as_text template_id
    version_text ← as_text version
    digest ← item control "template_sha256"
    let generation = format_06d_int number
    ok (record {
      request_id = config.request_id;
      generation = generation;
      launch_template_id = template_id;
      launch_template_version = version;
      client_token =
          stable_token gateway.sha256_hex "cg-create"
            (config.request_id ∷ predecessor ∷ generation ∷ id_text ∷ version_text ∷ []);
      tags = specification_tags generation predecessor token digest;
    })

  -- `stable_token("handoff", …, control["launch_template_version"])`.
  unfoldable pub handoff_token : Record → String → String → Result String
  handoff_token control holder generation = do
    version ← item control "launch_template_version"
    version_text ← as_text version
    ok (stable_token gateway.sha256_hex "handoff" (holder ∷ generation ∷ version_text ∷ []))
