-- ===== src/Aws/Gateway.antt =====
-- aws_sdk.py: `AwsSdkGateway` as the `Gateway` of daemon.py, on the services and what else the daemon is
-- given.
pub mod Handover
use cloud_glider.Prelude.{ℕ, String, none, false}
use cloud_glider.Prelude.Int.{ℤ}
use cloud_glider.Daemon.Gateway.{Gateway}
use cloud_glider.Aws.Services.{Services, Library}
use cloud_glider.Aws.Client.{Client, AwsSdkGateway}
use cloud_glider.Aws.Current.{
  read_control_and_hold, read_current, read_generation_state, claim_initial_current,
  write_heartbeat,
}
use cloud_glider.Aws.Lease.{acquire_lease, renew_lease, release_lease}
use cloud_glider.Aws.Stacks.{
  describe_stack, stack_instance_id, verify_template_artifact, create_stack, delete_stack,
}
use cloud_glider.Aws.Provisioning.{reconcile_submission}
use cloud_glider.Aws.Capacity.{check_capacity}
use cloud_glider.Aws.Hold.{handoff, invoke_hold}

-- The clock, the sleep, the date and the identifiers that `Daemon` takes.
pub record Surroundings (W : Type 0) : Type 0 where
  pub clock : W → ℕ × W
  pub sleep : ℤ → W → W
  pub utc_now : W → String × W
  pub uuid4 : W → String × W

abbrev within : {W A : Type 0} → (W → A × W) → Client W → A × Client W
within f c = let (a, w) = f c.world in (a, record c { world = w })

-- The fuel bounds the pages that `check_capacity` reads.
unfoldable pub aws_gateway :
    {W : Type 0}
    → Services W
    → Library
    → Surroundings W
    → (fuel : ℕ) → AwsSdkGateway
    → Gateway (Client W)
aws_gateway services library surroundings fuel self = record {
  instance_id = self.instance_id;
  read_control_and_hold = read_control_and_hold services self;
  read_current = read_current services self;
  claim_initial_current = claim_initial_current services self;
  write_heartbeat = write_heartbeat services self;
  acquire_lease = acquire_lease services self;
  renew_lease = renew_lease services self;
  release_lease = release_lease services self;
  describe_stack = describe_stack services library self;
  stack_instance_id = stack_instance_id services library self;
  verify_template_artifact = verify_template_artifact services library self;
  create_stack = create_stack services library self;
  reconcile_submission = reconcile_submission services self;
  read_generation_state = read_generation_state services self;
  check_capacity = check_capacity services self fuel;
  handoff = handoff services self;
  delete_stack = delete_stack services library self;
  invoke_hold = λ generation error_code correlation_id.
      invoke_hold services self generation error_code correlation_id none false;
  clock = within surroundings.clock;
  sleep = λ n c. record c { world = surroundings.sleep n c.world };
  utc_now = within surroundings.utc_now;
  uuid4 = within surroundings.uuid4;
  sha256_hex = library.sha256_hex;
}
