-- ===== src/Ec2/Handoff.antt =====
-- ec2_daemon.py: `_eligible_functional_readiness`, `wait_for_ready_successor`, on fuel, and
-- `conditional_handoff`.
use cloud_glider.Prelude.{
  ℕ, zero, suc, String, Bool, false, not, ◌||◌, ◌==◌, Option, none, some, [], ◌∷◌, if◌then◌else◌,
}
use cloud_glider.Prelude.Int.{ℤ, pos, ◌+ℤ◌, ◌*ℤ◌, leb_ℤ}
use cloud_glider.Python.Result.{transient, out_of_fuel}
use cloud_glider.Python.Exec.{Exec, pure, raise, lift, raise_if, ◌>>=◌, ◌>>◌}
use cloud_glider.Python.Value.{Record, str}
use cloud_glider.Daemon.Heartbeat.{int_item}
use cloud_glider.Daemon.Provision.{or_key_error}
use cloud_glider.Ec2.Session.{
  Instance, Specification, Ec2Daemon, Session, call, observe, now_ms, now_seconds, sleep,
  instance_verified, state_read, handed_off,
}
use cloud_glider.Ec2.Ownership.{or_missing, unchanged_control, renew, describe_instance}
use cloud_glider.Ec2.Proof.{is_young, proved_at, handoff_expected, handoff_successor}

module _ {W : Type 0} (d : Ec2Daemon W) where
  open d use {config, gateway, correlation_id}

  -- The clock is read only for a proof that holds what it must.
  unfoldable pub young_proof : Option ℤ → Exec (Session W) Bool
  young_proof none = pure false
  young_proof (some timestamp) = do now ← now_ms d; pure (is_young timestamp now)

  -- `_eligible_functional_readiness`.
  unfoldable pub eligible_functional_readiness :
      Record → Record → Specification → String → Exec (Session W) Bool
  eligible_functional_readiness state control spec id = do
    timestamp ← lift (proved_at d state control spec id)
    young_proof timestamp

  unfoldable pub verify_successor : Instance → Specification → Exec (Session W) (Unit {0})
  verify_successor instance spec =
      call (instance_verified instance spec) (gateway.verify_instance instance spec)

  unfoldable pub read_generation_state : String → Exec (Session W) (Option Record)
  read_generation_state generation =
      call (state_read generation) (gateway.read_generation_state generation)

  abbrev is_gone : String → Bool
  is_gone state =
      state == "stopping" || state == "stopped" || state == "shutting-down" || state == "terminated"

  -- An empty record is no state.
  unfoldable pub judge :
      Record → Specification → String → Option Record → Exec (Session W) (Option Record)
  judge control spec id none = pure none
  judge control spec id (some []) = pure none
  judge control spec id (some (entry ∷ state)) = do
    ready ← eligible_functional_readiness (entry ∷ state) control spec id
    pure (if ready then some (entry ∷ state) else none)

  -- The body of the loop up to its `sleep`.
  unfoldable pub wait_round : Record → Specification → String → Exec (Session W) (Option Record)
  wait_round control spec id = do
    renew d control
    unchanged_control d control "control changed during readiness"
    found ← describe_instance d id
    instance ← lift (or_missing d "successor unavailable; predecessor preserved" found)
    name ← lift (or_key_error instance.state_name)
    raise_if (is_gone name) (transient "successor unavailable; predecessor preserved")
    verify_successor instance spec
    state ← read_generation_state spec.generation
    if name == "running" then judge control spec id state else pure none

  unfoldable pub after_round :
      Record → Exec (Session W) (Option Record) → Option Record → Exec (Session W) (Option Record)
  after_round control again (some state) = pure (some state)
  after_round control again none = do
    poll ← lift (int_item control "readiness_poll_seconds")
    sleep d poll
    again

  -- `while self.clock() <= deadline`.
  unfoldable pub wait_loop :
      ℕ → Record → Specification → String → ℤ → Exec (Session W) (Option Record)
  wait_loop zero control spec id deadline = pure none
  wait_loop (suc fuel) control spec id deadline = do
    now ← now_ms d
    if leb_ℤ now deadline
        then (do
          state ← wait_round control spec id
          after_round control (wait_loop fuel control spec id deadline) state)
        else raise (transient "successor readiness timed out; predecessor preserved")

  unfoldable pub or_out_of_fuel : Option Record → Exec (Session W) Record
  or_out_of_fuel none = raise out_of_fuel
  or_out_of_fuel (some state) = pure state

  -- `wait_for_ready_successor`.
  unfoldable pub wait_for_ready_successor :
      ℕ → Record → Specification → String → Exec (Session W) Record
  wait_for_ready_successor fuel control spec id = do
    begun ← now_ms d
    timeout ← lift (int_item control "readiness_timeout_seconds")
    found ← wait_loop fuel control spec id (begun +ℤ timeout *ℤ pos 1000)
    or_out_of_fuel found

  -- The writes of `conditional_handoff`.
  unfoldable pub transfer : Record → Specification → String → Record → Exec (Session W) (Unit {0})
  transfer fresh spec id state = do
    now ← now_seconds d
    expected ← lift (handoff_expected d fresh state now)
    updated ← observe gateway.utc_now
    successor ← lift (handoff_successor d fresh spec id state updated)
    event ← observe gateway.uuid4
    occurred ← observe gateway.utc_now
    done ← call (handed_off expected successor) (
        gateway.handoff expected successor (
          ("event_id", str event)
          ∷ ("occurred_at", str occurred)
          ∷ ("correlation_id", str correlation_id)
          ∷ ("from_generation", str config.generation)
          ∷ ("to_generation", str spec.generation)
          ∷ []))
    raise_if (not done) (transient "handoff conditions changed; predecessor preserved")

  -- The last read of the control record, and the last check of the readiness.
  unfoldable pub hand_off : Record → Specification → String → Record → Exec (Session W) (Unit {0})
  hand_off control spec id state = do
    fresh ← unchanged_control d control "control changed before handoff"
    ready ← eligible_functional_readiness state fresh spec id
    raise_if (not ready) (transient "functional readiness expired during final control check")
    transfer fresh spec id state

  -- An empty record is no state.
  unfoldable pub hand_off_found :
      Record → Specification → String → Option Record → Exec (Session W) (Unit {0})
  hand_off_found control spec id none =
      raise (transient "successor readiness expired before handoff")
  hand_off_found control spec id (some []) =
      raise (transient "successor readiness expired before handoff")
  hand_off_found control spec id (some (entry ∷ state)) = do
    ready ← eligible_functional_readiness (entry ∷ state) control spec id
    raise_if (not ready) (transient "successor readiness expired before handoff")
    hand_off control spec id (entry ∷ state)

  -- `conditional_handoff`. The state that it is passed is read again.
  unfoldable pub conditional_handoff : Record → Specification → String → Exec (Session W) (Unit {0})
  conditional_handoff control spec id = do
    renew d control
    found ← describe_instance d id
    instance ← lift (or_missing d "successor unavailable before handoff" found)
    name ← lift (or_key_error instance.state_name)
    raise_if (not (name == "running")) (transient "successor unavailable before handoff")
    verify_successor instance spec
    state ← read_generation_state spec.generation
    hand_off_found control spec id state
