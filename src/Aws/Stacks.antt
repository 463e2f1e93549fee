-- ===== src/Aws/Stacks.antt =====
-- aws_sdk.py: the CloudFormation stacks and the template object.
pub mod Single
use cloud_glider.Prelude.{String, Option, ◌==◌}
use cloud_glider.Python.Result.{transient, safety}
use cloud_glider.Python.Exec.{Exec, pure, lift, raise_if, ◌>>=◌, ◌>>◌}
use cloud_glider.Python.Value.{Record, str}
use cloud_glider.Daemon.Gateway.{Stack, Specification}
use cloud_glider.Aws.Services.{Services, Library}
use cloud_glider.Aws.Client.{Client, AwsSdkGateway, call, call_allowing}
use cloud_glider.Aws.Snapshot.{text_item}
use cloud_glider.Aws.Provisioning.{begin_provisioning, record_submission, end_provisioning}
use cloud_glider.Daemon.Control.{differs}
use cloud_glider.Aws.Description.{or_empty, described, digest, template_url, create_stack_request}

module _ {W : Type 0} (services : Services W) (library : Library) (self : AwsSdkGateway) where
  open self use {region}

  unfoldable pub describe_stack : String → Exec (Client W) (Option Stack)
  unfolding call_allowing described
  describe_stack name = do
    result ← call_allowing "cloudformation" "describe_stacks" (services.describe_stacks name)
    lift (described result)

  unfoldable pub stack_instance_id : String → Exec (Client W) String
  unfolding call
  stack_instance_id stack_id = do
    instance_id ←
        call "cloudformation" "describe_stack_resource"
          (services.describe_stack_resource stack_id "GenerationInstance")
    raise_if (or_empty instance_id == "")
        (transient "generation instance resource is not yet available")
    pure (or_empty instance_id)

  unfoldable pub verify_template_artifact : Record → Exec (Client W) (Unit {0})
  unfolding call digest
  verify_template_artifact control = do
    bucket ← lift (text_item control "template_s3_bucket")
    key ← lift (text_item control "template_s3_key")
    version ← lift (text_item control "template_s3_version_id")
    body ← call "s3" "get_object" (services.get_object bucket key version)
    found ← lift (digest library body)
    wrong ← lift (differs control "template_sha256" (str found))
    raise_if wrong (safety "TEMPLATE_DIGEST_MISMATCH")

  unfoldable pub create_stack : Specification → Exec (Client W) String
  unfolding begin_provisioning template_url call create_stack_request record_submission
      end_provisioning
  create_stack specification = do
    token ← begin_provisioning services self specification
    url ← lift (template_url library region specification)
    stack_id ←
        call "cloudformation" "create_stack"
          (services.create_stack (create_stack_request specification url))
    record_submission services self specification stack_id
    end_provisioning services self token
    pure stack_id

  unfoldable pub delete_stack : (stack_id role_arn token : String) → Exec (Client W) (Unit {0})
  unfolding call
  delete_stack stack_id role_arn token =
      call "cloudformation" "delete_stack" (services.delete_stack stack_id role_arn token)
