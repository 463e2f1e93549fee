-- ===== src/Daemon/Specification.antt =====
-- daemon.py: `stable_token`, `_identity`, `_successor_parameters` and `_stack_specification`, which
-- compute and may raise, but ask nothing of the gateway.
use cloud_glider.Prelude.{String, Option, List, [], ◌∷◌}
use Prim.Native.String.{◌++◌ as concat}
use cloud_glider.Prelude.Int.{ℤ}
use cloud_glider.Python.Text.{lower, take, join, format_06d_int}
use cloud_glider.Python.Result.{uncaught, Result, ok, ◌>>=◌, or_raise}
use cloud_glider.Python.Dict.{update}
use cloud_glider.Python.Value.{Record, item, as_text, str}
use cloud_glider.Daemon.Gateway.{Stack, Specification}
use cloud_glider.Daemon.Session.{Daemon}

-- `GENERATION_PARAMETER_NAMES`.
abbrev pub generation_parameter_names : List String
generation_parameter_names =
    "Environment" ∷ "Owner" ∷ "Generation" ∷ "RequestId" ∷ "GenerationTableName"
    ∷ "PredecessorStackId" ∷ "HandoffToken" ∷ "ApprovedImageId" ∷ "InstanceType"
    ∷ "ImageArchitecture" ∷ "SubnetId" ∷ "SecurityGroupId" ∷ "DaemonInstanceProfileName"
    ∷ "StateTableName" ∷ "DaemonArtifactBucket" ∷ "DaemonArtifactKey" ∷ "DaemonArtifactVersionId"
    ∷ "DaemonArtifactSha256" ∷ "BootstrapVersion" ∷ "TemplateVersion" ∷ "TemplateBucket"
    ∷ "TemplateKey" ∷ "TemplateS3VersionId" ∷ "TemplateSha256" ∷ "TemplateBuildId"
    ∷ "PropagationAuditLogGroupName" ∷ "DaemonOperationsLogGroupName" ∷ "EmergencyHoldFunctionName"
    ∷ "OperationalAlertsTopicArn" ∷ "RootDeviceName" ∷ "RootVolumeGiB" ∷ "DaemonDeliveryMode" ∷ []

-- `stable_token`, over the SHA-256 that it is given.
unfoldable pub stable_token : (String → String) → String → List String → String
stable_token sha256_hex prefix parts =
    concat prefix (concat "-" (take 32 (sha256_hex (join "\0" parts))))

-- The entries of the named keys; a `KeyError` where one is missing.
unfoldable pub select : List String → Record → Result Record
select [] source = ok []
select (k ∷ ks) source =
    let rest = select ks source in do v ← item source k; chosen ← rest; ok ((k, v) ∷ chosen)

-- What a successor's parameters take from the control record, and under which name.
abbrev pub control_parameters : List (String × String)
control_parameters =
    ("BootstrapVersion", "desired_bootstrap_version")
    ∷ ("TemplateVersion", "desired_template_version")
    ∷ ("TemplateBucket", "template_s3_bucket")
    ∷ ("TemplateKey", "template_s3_key")
    ∷ ("TemplateS3VersionId", "template_s3_version_id")
    ∷ ("TemplateSha256", "template_sha256")
    ∷ ("TemplateBuildId", "template_build_id")
    ∷ ("DaemonArtifactBucket", "daemon_artifact_bucket")
    ∷ ("DaemonArtifactKey", "daemon_artifact_key")
    ∷ ("DaemonArtifactVersionId", "daemon_artifact_version_id")
    ∷ ("DaemonArtifactSha256", "daemon_artifact_sha256")
    ∷ []

unfoldable pub renamed : List (String × String) → Record → Result Record
renamed [] source = ok []
renamed ((new, old) ∷ names) source =
    let rest = renamed names source in do v ← item source old; chosen ← rest; ok ((new, v) ∷ chosen)

module _ {W : Type 0} (d : Daemon W) where
  open d use {config, gateway}

  -- `_identity`.
  unfoldable pub identity : Record
  identity =
      ("request_id", str config.request_id)
      ∷ ("generation", str config.generation)
      ∷ ("stack_id", str config.stack_id)
      ∷ ("instance_id", str gateway.instance_id)
      ∷ ("template_version", str config.template_version)
      ∷ ("template_s3_version_id", str config.template_s3_version_id)
      ∷ ("template_sha256", str (lower config.template_sha256))
      ∷ ("template_build_id", str config.template_build_id)
      ∷ ("bootstrap_version", str config.bootstrap_version)
      ∷ ("daemon_artifact_version_id", str config.daemon_artifact_version_id)
      ∷ ("daemon_artifact_sha256", str (lower config.daemon_artifact_sha256))
      ∷ []

  -- `_successor_parameters`; the `assert` raises without an own stack.
  unfoldable pub successor_parameters : Option Stack → Record → ℤ → String → String → Result Record
  successor_parameters own control generation predecessor token = do
    stack ← or_raise own uncaught
    old ← or_raise stack.parameters uncaught
    parameters ← select generation_parameter_names old
    desired ← renamed control_parameters control
    ok (
        update parameters (
          ("Generation", str (format_06d_int generation))
          ∷ ("PredecessorStackId", str predecessor)
          ∷ ("HandoffToken", str token)
          ∷ desired))

  -- `_stack_specification`.
  unfoldable pub stack_specification :
      Option Stack → Record → ℤ → String → String → Result Specification
  stack_specification own control generation predecessor token = do
    stack ← or_raise own uncaught
    let number = format_06d_int generation
    template ←
        renamed
          (("template_bucket", "template_s3_bucket")
            ∷ ("template_key", "template_s3_key")
            ∷ ("template_version_id", "template_s3_version_id")
            ∷ [])
          control
    parameters ← successor_parameters own control generation predecessor token
    role_arn ← or_raise stack.role_arn uncaught
    digest ← item control "template_sha256"
    sha256 ← as_text digest
    ok (record {
      stack_name = concat "cloud-glider-" (concat config.environment (concat "-gen-" number));
      generation = number;
      template = template;
      parameters = parameters;
      role_arn = role_arn;
      client_token =
          stable_token gateway.sha256_hex "cg-create" (config.stack_id ∷ number ∷ sha256 ∷ []);
      tags =
          ("project", str "cloud-glider")
          ∷ ("environment", str config.environment)
          ∷ ("generation", str number)
          ∷ ("purpose", str "generation-stack")
          ∷ ("bootstrap-request-id", str config.request_id)
          ∷ [];
    })
