-- ===== src/Daemon/Handoff.antt =====
-- daemon.py, `conditional_handoff`: the transfer of ownership to a successor that is still healthy.
use cloud_glider.Prelude.{String, Bool, true, false, not, ◌&&◌, Option, none, some, [], ◌∷◌}
use cloud_glider.Prelude.Int.{ℤ, pos}
use cloud_glider.Python.Result.{safety, transient, Result, ok, err}
use cloud_glider.Python.Exec.{Exec, lift, raise_if, ◌>>=◌, ◌>>◌}
use cloud_glider.Python.Value.{Value, Record, item, str}
use cloud_glider.Daemon.Control.{identity_differs, required_control_fields}
use cloud_glider.Daemon.Gateway.{Stack, Specification, Expected}
use cloud_glider.Daemon.Session.{
  instance_looked_up, handed_off, Session, Daemon, call, observe, now_seconds,
}
use cloud_glider.Daemon.Specification.{select, identity}
use cloud_glider.Daemon.Identity.{is_text}
use cloud_glider.Daemon.Provision.{fresh_enabled_control, describe_stack, parameters_are}
use cloud_glider.Daemon.Heartbeat.{eligible_heartbeat}
use cloud_glider.Daemon.Readiness.{read_generation_state}

-- The successor is still the stack that was asked for.
abbrev pub is_the_successor : Specification → String → Option Stack → Bool
is_the_successor specification stack_id none = false
is_the_successor specification stack_id (some stack) =
    is_text stack.stack_id stack_id
    && is_text stack.stack_status "CREATE_COMPLETE"
    && parameters_are specification.parameters stack.parameters
    && is_text stack.role_arn specification.role_arn

abbrev pub unhealthy : String
unhealthy = "successor health changed before handoff; predecessor preserved"

abbrev pub healthy_if : Result Bool → Record → Result Record
healthy_if (err e) state = err e
healthy_if (ok true) state = ok state
healthy_if (ok false) state = err (transient unhealthy)

-- `not state` or not eligible, of what was read.
unfoldable pub still_healthy :
    Record → Specification → String → String → ℤ → Option Record → Result Record
still_healthy fresh specification stack_id instance_id now none = err (transient unhealthy)
still_healthy fresh specification stack_id instance_id now (some []) = err (transient unhealthy)
still_healthy fresh specification stack_id instance_id now (some (entry ∷ state)) =
    healthy_if (eligible_heartbeat (entry ∷ state) fresh specification stack_id instance_id now)
      (entry ∷ state)

module _ {W : Type 0} (d : Daemon W) where
  open d use {config, gateway, lease_owner, correlation_id}

  -- `int(self.clock())` is read only where there is a state to judge.
  unfoldable pub check_health :
      Record → Specification → String → String → Option Record → Exec (Session W) Record
  check_health fresh specification stack_id instance_id none =
      lift (still_healthy fresh specification stack_id instance_id (pos 0) none)
  check_health fresh specification stack_id instance_id (some []) =
      lift (still_healthy fresh specification stack_id instance_id (pos 0) (some []))
  check_health fresh specification stack_id instance_id (some (entry ∷ state)) = do
    now ← now_seconds d
    lift (still_healthy fresh specification stack_id instance_id now (some (entry ∷ state)))

  abbrev pub expected_of : Result Record → Result Expected
  expected_of (err e) = err e
  expected_of (ok control) =
      ok (record { identity = identity d; lease_owner = lease_owner; control_identity = control })

  -- `expected`.
  unfoldable pub handoff_expected : Record → Result Expected
  handoff_expected fresh = expected_of (select required_control_fields fresh)

  -- The record that becomes CURRENT.
  unfoldable pub handoff_successor : Specification → String → Value → Value → String → Record
  handoff_successor specification stack_id instance token updated =
      ("request_id", str config.request_id)
      ∷ ("generation", str specification.generation)
      ∷ ("stack_id", str stack_id)
      ∷ ("instance_id", instance)
      ∷ ("status", str "CURRENT")
      ∷ ("handoff_token", token)
      ∷ ("updated_at", str updated)
      ∷ []

  unfoldable pub handoff_audit : Specification → String → String → Record
  handoff_audit specification event_id occurred =
      ("event_id", str event_id)
      ∷ ("occurred_at", str occurred)
      ∷ ("correlation_id", str correlation_id)
      ∷ ("from_generation", str config.generation)
      ∷ ("to_generation", str specification.generation)
      ∷ []

  -- The transfer itself, once the successor's state was read.
  unfoldable pub transfer : Record → Specification → String → Record → Exec (Session W) (Unit {0})
  transfer fresh specification stack_id state = do
    expected ← lift (handoff_expected fresh)
    instance ← lift (item state "instance_id")
    token ← lift (item specification.parameters "HandoffToken")
    updated ← observe gateway.utc_now
    event_id ← observe gateway.uuid4
    occurred ← observe gateway.utc_now
    let successor = handoff_successor specification stack_id instance token updated
    let audit = handoff_audit specification event_id occurred
    done ← call (handed_off expected successor) (gateway.handoff expected successor audit)
    raise_if (not done) (safety "HANDOFF_CONDITION_FAILED")

  -- `conditional_handoff`.
  unfoldable pub conditional_handoff : Record → Specification → String → Exec (Session W) (Unit {0})
  conditional_handoff control specification stack_id = do
    fresh ← fresh_enabled_control d
    changed ← lift (identity_differs fresh control)
    raise_if changed (transient "control changed before handoff")
    stack ← describe_stack d stack_id
    raise_if (not (is_the_successor specification stack_id stack))
        (safety "SUCCESSOR_RECONCILIATION_MISMATCH")
    instance_id ← call (instance_looked_up stack_id) (gateway.stack_instance_id stack_id)
    found ← read_generation_state d specification.generation
    state ← check_health fresh specification stack_id instance_id found
    transfer fresh specification stack_id state
