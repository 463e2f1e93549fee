-- ===== src/Daemon/Provision.antt =====
-- daemon.py: `_fresh_enabled_control`, `provision_successor` and `_renew`.
use cloud_glider.Prelude.{
  String, Bool, false, not, ◌||◌, Option, none, some, [], ◌∷◌, if◌then◌else◌,
}
use cloud_glider.Prelude.Int.{ℤ, pos, ◌+ℤ◌, ◌*ℤ◌, max_ℤ}
use cloud_glider.Python.Text.{format_06d_int}
use cloud_glider.Python.Result.{safety, transient, uncaught, Result, ok, err}
use cloud_glider.Python.Exec.{Exec, pure, lift, gets, raise_if, ◌>>=◌, ◌>>◌}
use cloud_glider.Python.Dict.{dict_eq}
use cloud_glider.Python.Value.{Value, Record, value_eq, truth, to_int, item, as_text}
use cloud_glider.Daemon.Config.{generation_number}
use cloud_glider.Daemon.Control.{validated_control, identity_differs}
use cloud_glider.Daemon.Gateway.{Stack, Specification}
use cloud_glider.Daemon.Session.{
  control_read, lease_renewed, stack_described, template_verified, stack_created,
  submission_reconciled, capacity_checked, Session, Daemon, call, now_seconds,
}
use cloud_glider.Daemon.Specification.{stable_token, stack_specification}

-- `existing.get("Parameters") == parameters`.
abbrev pub parameters_are : Record → Option Record → Bool
unfolding dict_eq
parameters_are wanted none = false
parameters_are wanted (some found) = dict_eq value_eq found wanted

abbrev pub or_key_error : {A : Type 0} → Option A → Result A
or_key_error none = err uncaught
or_key_error (some a) = ok a

abbrev pub at_least_60 : Result ℤ → Result ℤ
unfolding ◌*ℤ◌
at_least_60 (ok n) = ok (max_ℤ (pos 60) (n *ℤ pos 4))
at_least_60 (err e) = err e

abbrev pub four_times : Result Value → Result ℤ
unfolding to_int ◌*ℤ◌
four_times (ok v) = at_least_60 (to_int v)
four_times (err e) = err e

-- `max(60, int(control["readiness_poll_seconds"]) * 4)`.
unfoldable pub lease_seconds : Record → Result ℤ
lease_seconds control = four_times (item control "readiness_poll_seconds")

-- Whether a stop is in force: the second half of `_fresh_enabled_control`.
abbrev pub unless_stopped : Bool → Record → Result Value → Result Record
unless_stopped hold valid (err e) = err e
unless_stopped hold valid (ok switch) =
    if not (truth switch) || hold
    then err (transient "operator stop state prevents provisioning")
    else ok valid

abbrev pub if_enabled : Bool → Result Record → Result Record
if_enabled hold (err e) = err e
if_enabled hold (ok valid) = unless_stopped hold valid (item valid "propagation_enabled")

module _ {W : Type 0} (d : Daemon W) where
  open d use {config, gateway, lease_owner}

  -- The tests that `_fresh_enabled_control` makes of what it read.
  unfoldable pub enabled_control : Record × Bool → Result Record
  enabled_control (control, hold) = if_enabled hold (validated_control config control)

  unfoldable pub read_control_and_hold : Exec (Session W) (Record × Bool)
  read_control_and_hold = call control_read gateway.read_control_and_hold

  -- `_fresh_enabled_control`.
  unfoldable pub fresh_enabled_control : Exec (Session W) Record
  fresh_enabled_control = do reading ← read_control_and_hold; lift (enabled_control reading)

  unfoldable pub describe_stack : String → Exec (Session W) (Option Stack)
  describe_stack id = call (stack_described id) (gateway.describe_stack id)

  -- A successor stack that is already there is reconciled if it has the wanted parameters.
  unfoldable pub reuse_successor : Specification → Stack → Exec (Session W) String
  reuse_successor specification existing = do
    raise_if (not (parameters_are specification.parameters existing.parameters))
        (safety "SUCCESSOR_RECONCILIATION_MISMATCH")
    call (submission_reconciled specification existing)
        (gateway.reconcile_submission specification existing)
    lift (or_key_error existing.stack_id)

  -- The last read of the control record, and the creation that it permits.
  unfoldable pub create_checked : Record → ℤ → String → Exec (Session W) (Specification × String)
  create_checked control generation token = do
    fresh ← fresh_enabled_control
    changed ← lift (identity_differs fresh control)
    raise_if changed (transient "approved identity changed before successor creation")
    own ← gets (λ s. s.own_stack)
    specification ← lift (stack_specification d own fresh generation config.stack_id token)
    stack_id ← call (stack_created specification) (gateway.create_stack specification)
    pure (specification, stack_id)

  unfoldable pub create_successor : Record → ℤ → String → Exec (Session W) (Specification × String)
  create_successor control generation token = do
    call (template_verified control) (gateway.verify_template_artifact control)
    ceiling ← lift (item control "max_live_generations")
    limit ← lift (to_int ceiling)
    call (capacity_checked limit) (gateway.check_capacity limit)
    create_checked control generation token

  unfoldable pub continue_with :
      Record → ℤ → String → Specification → Option Stack → Exec (Session W) (Specification × String)
  continue_with control generation token specification none =
      create_successor control generation token
  continue_with control generation token specification (some existing) = do
    stack_id ← reuse_successor specification existing
    pure (specification, stack_id)

  -- `provision_successor`.
  unfoldable pub provision_successor : Record → Exec (Session W) (Specification × String)
  provision_successor control = do
    number ← lift (generation_number config)
    let generation = number +ℤ pos 1
    digest ← lift (item control "template_sha256")
    sha256 ← lift (as_text digest)
    let token =
        stable_token gateway.sha256_hex "handoff"
          (config.stack_id ∷ format_06d_int generation ∷ sha256 ∷ [])
    own ← gets (λ s. s.own_stack)
    specification ← lift (stack_specification d own control generation config.stack_id token)
    existing ← describe_stack specification.stack_name
    continue_with control generation token specification existing

  -- `_renew`.
  unfoldable pub renew : Record → Exec (Session W) (Unit {0})
  renew control = do
    duration ← lift (lease_seconds control)
    now ← now_seconds d
    call (lease_renewed lease_owner) (gateway.renew_lease lease_owner (now +ℤ duration))
