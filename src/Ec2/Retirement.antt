-- ===== src/Ec2/Retirement.antt =====
-- ec2_daemon.py: `retire_predecessor`.
use cloud_glider.Prelude.{String, Bool, true, false, not, ◌||◌, ◌==◌, if◌then◌else◌}
use cloud_glider.Prelude.Int.{ℤ, pos, ◌-ℤ◌, ltb_ℤ}
use cloud_glider.Python.Text.{format_06d_int}
use cloud_glider.Python.Exec.{Exec, pure, lift, ◌>>=◌, ◌>>◌}
use cloud_glider.Python.Value.{Record, get, is_true}
use cloud_glider.Ec2.Session.{
  Ec2Daemon, Session, call, instance_terminated, alarm_deleted, retirement_marked,
}
use cloud_glider.Ec2.Authority.{check_authority, check_predecessor, running_or_ambiguous}
use cloud_glider.Ec2.Ownership.{
  generation_number, require_owner, unchanged_control, renew, describe_instance,
  verify_launch_template, verify_own,
}

module _ {W : Type 0} (d : Ec2Daemon W) where
  open d use {config, gateway}

  -- The termination, behind its last checks.
  unfoldable pub terminate : Record → Exec (Session W) Bool
  terminate control = do
    require_owner d "retirement ownership changed"
    unchanged_control d control "retirement control or CURRENT changed"
    call (instance_terminated config.predecessor_instance_id)
        (gateway.terminate_instance config.predecessor_instance_id)
    pure false

  unfoldable pub delete_alarm : ℤ → Exec (Session W) (Unit {0})
  delete_alarm number =
      let generation = format_06d_int (number -ℤ pos 1) in
      if ltb_ℤ (pos 1) number
      then call (alarm_deleted generation config.predecessor_instance_id)
          (gateway.delete_status_alarm generation config.predecessor_instance_id)
      else pure tt

  -- The predecessor is gone.
  unfoldable pub complete : Record → ℤ → Exec (Session W) Bool
  complete current number = do
    delete_alarm number
    call (retirement_marked current) (gateway.mark_retirement_completed current)
    pure true

  -- What follows on the predecessor's state.
  unfoldable pub settle : Record → Record → ℤ → String → Exec (Session W) Bool
  settle control current number state =
      if not (state == "shutting-down" || state == "terminated")
      then terminate control
      else if not (state == "terminated")
      then pure false
      else complete current number

  -- The lookups, from the check of the launch template on.
  unfoldable pub retire : Record → Record → Exec (Session W) Bool
  retire control current = do
    verify_launch_template d control
    found ← describe_instance d gateway.instance_id
    own ← lift (running_or_ambiguous found)
    verify_own d control own
    renew d control
    number ← lift (generation_number d)
    predecessor ← describe_instance d config.predecessor_instance_id
    state ← lift (check_predecessor d number predecessor)
    settle control current number state

  unfoldable pub retire_authorized : Record → Record → Exec (Session W) Bool
  retire_authorized control current = do
    lift (check_authority d control current)
    if is_true (get "retirement_completed" current) then pure true else retire control current

  -- `retire_predecessor`.
  unfoldable pub retire_predecessor : Record → Record → Exec (Session W) Bool
  retire_predecessor control current =
      if config.predecessor_instance_id == "NONE"
      then pure true
      else retire_authorized control current
