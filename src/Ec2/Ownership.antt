-- ===== src/Ec2/Ownership.antt =====
-- ec2_daemon.py: `verify_self`, `is_current_owner`, `ensure_bootstrap_ownership`,
-- `_fresh_enabled_control` with the comparison that follows its calls, and `_renew`.
use cloud_glider.Prelude.{String, Bool, not, ◌||◌, ◌==◌, Option, none, some, [], ◌∷◌, if◌then◌else◌}
use cloud_glider.Prelude.Int.{ℤ, pos, eqb_ℤ, ◌+ℤ◌}
use cloud_glider.Python.Text.{int_of_text}
use cloud_glider.Python.Result.{safety, transient, Result, ok, err}
use cloud_glider.Python.Exec.{Exec, pure, lift, raise_if, ◌>>=◌, ◌>>◌}
use cloud_glider.Python.Dict.{update}
use cloud_glider.Python.Value.{Value, Record, value_eq, truth, item, get, or_value_error, str}
use cloud_glider.Daemon.Identity.{entries_match}
use cloud_glider.Daemon.Provision.{lease_seconds}
use cloud_glider.Ec2.Config.{validate}
use cloud_glider.Ec2.Control.{validated_control}
use cloud_glider.Ec2.Session.{
  Instance, Ec2Daemon, Session, call, observe, now_seconds, control_read, current_read,
  initial_claimed, lease_renewed, template_verified, instance_described, instance_verified,
}
use cloud_glider.Ec2.Specification.{identity, identity_differs, specification}

-- Whether a stop is in force: the second half of `_fresh_enabled_control`.
abbrev pub unless_stopped : Bool → Record → Result Value → Result Record
unless_stopped hold valid (err e) = err e
unless_stopped hold valid (ok switch) =
    if not (truth switch) || hold
    then err (transient "operator stop state prevents lifecycle mutation")
    else ok valid

abbrev pub if_enabled : Bool → Result Record → Result Record
if_enabled hold (err e) = err e
if_enabled hold (ok valid) = unless_stopped hold valid (item valid "propagation_enabled")

module _ {W : Type 0} (d : Ec2Daemon W) where
  open d use {config, gateway, lease_owner}

  -- `generation_number`.
  unfoldable pub generation_number : Result ℤ
  generation_number = or_value_error (int_of_text config.generation)

  -- What `is_current_owner` asks of CURRENT.
  unfoldable pub owner_entries : Record
  owner_entries =
      ("status", str "CURRENT")
      ∷ ("request_id", str config.request_id)
      ∷ ("generation", str config.generation)
      ∷ ("instance_id", str gateway.instance_id)
      ∷ ("launch_template_id", str config.launch_template_id)
      ∷ ("launch_template_version", str config.launch_template_version)
      ∷ []

  -- `is_current_owner`, of a record that was read.
  unfoldable pub is_current_owner : Record → Bool
  unfolding owner_entries
  is_current_owner current = entries_match owner_entries current

  unfoldable pub read_current : Exec (Session W) Record
  read_current = call current_read gateway.read_current

  -- `if not self.is_current_owner(): raise TransientFailure(…)`.
  unfoldable pub require_owner : String → Exec (Session W) (Unit {0})
  require_owner message = do
    current ← read_current
    raise_if (not (is_current_owner current)) (transient message)

  unfoldable pub read_control_and_hold : Exec (Session W) (Record × Bool)
  read_control_and_hold = call control_read gateway.read_control_and_hold

  -- The tests that `_fresh_enabled_control` makes of what it read.
  unfoldable pub enabled_control : Record × Bool → Result Record
  enabled_control (control, hold) = if_enabled hold (validated_control config gateway.place control)

  -- `_fresh_enabled_control`.
  unfoldable pub fresh_enabled_control : Exec (Session W) Record
  fresh_enabled_control = do reading ← read_control_and_hold; lift (enabled_control reading)

  -- `_fresh_enabled_control`, and a deferral where the control record is not the one acted on.
  unfoldable pub unchanged_control : Record → String → Exec (Session W) Record
  unchanged_control control message = do
    fresh ← fresh_enabled_control
    changed ← lift (identity_differs fresh control)
    raise_if changed (transient message)
    pure fresh

  -- `_renew`.
  unfoldable pub renew : Record → Exec (Session W) (Unit {0})
  renew control = do
    duration ← lift (lease_seconds control)
    now ← now_seconds d
    call (lease_renewed lease_owner) (gateway.renew_lease lease_owner (now +ℤ duration))

  unfoldable pub describe_instance : String → Exec (Session W) (Option Instance)
  describe_instance id = call (instance_described id) (gateway.describe_instance id)

  unfoldable pub verify_launch_template : Record → Exec (Session W) (Unit {0})
  verify_launch_template control =
      call (template_verified control) (gateway.verify_launch_template control)

  -- `verify_instance` of this daemon's own instance.
  unfoldable pub verify_own : Record → Instance → Exec (Session W) (Unit {0})
  verify_own control own = do
    number ← lift generation_number
    wanted ←
        lift (specification d control number config.predecessor_instance_id config.handoff_token)
    call (instance_verified own wanted) (gateway.verify_instance own wanted)

  abbrev pub or_missing : String → Option Instance → Result Instance
  or_missing message none = err (transient message)
  or_missing message (some found) = ok found

  -- `verify_self`.
  unfoldable pub verify_self : Exec (Session W) (Unit {0})
  verify_self = do
    lift (validate config)
    raise_if (not (gateway.instance_id == config.instance_id))
        (safety "SELF_INSTANCE_IDENTITY_MISMATCH")
    reading ← read_control_and_hold
    control ← lift (validated_control config gateway.place reading.0)
    verify_launch_template control
    found ← describe_instance gateway.instance_id
    own ← lift (or_missing "own instance is missing" found)
    verify_own control own

  -- The claim of CURRENT by the first generation.
  unfoldable pub claim : Exec (Session W) (Unit {0})
  claim = do
    number ← lift generation_number
    raise_if (not (eqb_ℤ number (pos 0)) || not (config.predecessor_instance_id == "NONE"))
        (safety "BOOTSTRAP_OWNERSHIP_CONFLICT")
    updated ← observe gateway.utc_now
    let claimed_record =
        update (identity d) (("status", str "CURRENT") ∷ ("updated_at", str updated) ∷ [])
    claimed ← call (initial_claimed claimed_record) (gateway.claim_initial_current claimed_record)
    if claimed then pure tt else (do
      current ← read_current
      raise_if (not (is_current_owner current)) (safety "BOOTSTRAP_OWNERSHIP_CONFLICT"))

  -- `ensure_bootstrap_ownership`.
  unfoldable pub ensure_bootstrap_ownership : Exec (Session W) (Unit {0})
  ensure_bootstrap_ownership = do
    current ← read_current
    if value_eq (get "status" current) (str "UNINITIALIZED") then claim else pure tt
