-- ===== src/Ec2/Provision.antt =====
-- ec2_daemon.py: `provision_successor` and `continuation_preflight`.
use cloud_glider.Prelude.{String, Option, none, some, if◌then◌else◌}
use cloud_glider.Prelude.Int.{ℤ, pos, ◌+ℤ◌, ltb_ℤ}
use cloud_glider.Python.Text.{format_06d_int, int_of_text}
use cloud_glider.Python.Exec.{Exec, pure, lift, ◌>>=◌, ◌>>◌}
use cloud_glider.Python.Value.{Record, or_value_error}
use cloud_glider.Daemon.Heartbeat.{int_item}
use cloud_glider.Daemon.Provision.{or_key_error}
use cloud_glider.Ec2.Session.{
  Instance, Specification, Ec2Daemon, Session, call, instance_verified, successor_looked_up,
  submission_reconciled, alarm_ensured, capacity_checked, submission_claimed, instance_run,
  instance_dry_run,
}
use cloud_glider.Ec2.Specification.{specification, handoff_token}
use cloud_glider.Ec2.Ownership.{
  generation_number, require_owner, unchanged_control, renew, verify_launch_template,
}

module _ {W : Type 0} (d : Ec2Daemon W) where
  open d use {config, gateway}

  unfoldable pub ensure_alarm : Specification → String → Exec (Session W) (Unit {0})
  ensure_alarm spec id =
      call (alarm_ensured spec.generation id) (gateway.ensure_status_alarm spec.generation id)

  -- A successor that is already there.
  unfoldable pub reuse_successor :
      Specification → Instance → Exec (Session W) (Specification × String)
  reuse_successor spec existing = do
    call (instance_verified existing spec) (gateway.verify_instance existing spec)
    call (submission_reconciled spec existing) (gateway.reconcile_ec2_submission spec existing)
    id ← lift (or_key_error existing.instance_id)
    ensure_alarm spec id
    pure (spec, id)

  -- `int(control["max_live_generations"])`, and the check of the capacity.
  unfoldable pub check_capacity : Record → Exec (Session W) (Unit {0})
  check_capacity control = do
    limit ← lift (int_item control "max_live_generations")
    call (capacity_checked limit) (gateway.check_capacity limit)

  -- From the claim of the submission to the launch.
  unfoldable pub submit : Record → Specification → Exec (Session W) (Specification × String)
  submit control spec = do
    require_owner d "CURRENT changed before creation"
    call (submission_claimed spec) (gateway.claim_submission spec)
    unchanged_control d control "approved identity changed before submission; inspect intent"
    id ← call (instance_run spec) (gateway.run_instance spec)
    ensure_alarm spec id
    pure (spec, id)

  unfoldable pub launch : Record → Specification → Exec (Session W) (Specification × String)
  launch control spec = do
    check_capacity control
    unchanged_control d control "approved identity changed before creation"
    renew d control
    submit control spec

  unfoldable pub continue_with :
      Record → Specification → Option Instance → Exec (Session W) (Specification × String)
  continue_with control spec none = launch control spec
  continue_with control spec (some existing) = reuse_successor spec existing

  -- `provision_successor`.
  unfoldable pub provision_successor : Record → Exec (Session W) (Specification × String)
  provision_successor control = do
    number ← lift (generation_number d)
    let n = number +ℤ pos 1
    token ← lift (handoff_token d control gateway.instance_id (format_06d_int n))
    spec ← lift (specification d control n gateway.instance_id token)
    verify_launch_template d control
    existing ← call (successor_looked_up spec) (gateway.find_successor spec)
    continue_with control spec existing

  -- The dry run of the launch of generation `n`.
  unfoldable pub preflight : Record → ℤ → String → Exec (Session W) (Unit {0})
  preflight control n successor_id = do
    verify_launch_template d control
    check_capacity control
    renew d control
    fresh ← unchanged_control d control "control changed during continuation"
    token ← lift (handoff_token d control successor_id (format_06d_int n))
    spec ← lift (specification d fresh n successor_id token)
    call (instance_dry_run spec) (gateway.dry_run_instance spec)

  -- `continuation_preflight`.
  unfoldable pub continuation_preflight :
      Record → Specification → String → Exec (Session W) (Unit {0})
  continuation_preflight control spec successor_id = do
    number ← lift (or_value_error (int_of_text spec.generation))
    limit ← lift (int_item control "max_generation")
    let n = number +ℤ pos 1
    if ltb_ℤ limit n then pure tt else preflight control n successor_id
