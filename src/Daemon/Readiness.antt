-- ===== src/Daemon/Readiness.antt =====
-- daemon.py, `wait_for_healthy_successor`: the polling loop, on fuel. `none` says that the fuel ran out.
pub mod Progress
pub mod Accepted
pub mod Rounds
pub mod Proved
use Prim.Native.String.{◌++◌ as concat}
use cloud_glider.Prelude.{
  ℕ, zero, suc, String, ◌||◌, Option, none, some, [], ◌∷◌, ◌==◌, if◌then◌else◌,
}
use cloud_glider.Prelude.Int.{ℤ, pos, ◌+ℤ◌, ◌*ℤ◌, leb_ℤ}
use cloud_glider.Python.Text.{contains, ends_with}
use cloud_glider.Python.Result.{transient, out_of_fuel}
use cloud_glider.Python.Exec.{Exec, pure, raise, lift, ◌>>=◌, ◌>>◌}
use cloud_glider.Python.Value.{Record}
use cloud_glider.Daemon.Gateway.{Stack, Specification}
use cloud_glider.Daemon.Session.{
  instance_looked_up, state_read, Session, Daemon, call, now_seconds, now_ms, sleep,
}
use cloud_glider.Daemon.Provision.{describe_stack, renew}
use cloud_glider.Daemon.Heartbeat.{
  eligible_heartbeat, int_item, Waiting, Step, ready, waiting, accept,
}

-- What the loop was called with, and what it computed before its first round.
pub record Wait : Type 0 where
  pub control : Record
  pub specification : Specification
  pub stack_id : String
  pub deadline : ℤ
  pub required : ℤ

-- `stack.get("StackStatus", "")`.
abbrev pub or_blank : Option String → String
or_blank none = ""
or_blank (some s) = s

abbrev pub initial_waiting : Waiting
initial_waiting = record { expected_instance = none; prior = none; accepted = pos 0 }

module _ {W : Type 0} (d : Daemon W) where
  open d use {gateway}

  -- `expected_instance or self.gateway.stack_instance_id(stack_id)`; an empty text is looked up again.
  unfoldable pub known_instance : String → Option String → Exec (Session W) String
  known_instance stack_id none =
      call (instance_looked_up stack_id) (gateway.stack_instance_id stack_id)
  known_instance stack_id (some id) =
      if id == ""
      then call (instance_looked_up stack_id) (gateway.stack_instance_id stack_id)
      else pure id

  unfoldable pub read_generation_state : String → Exec (Session W) (Option Record)
  read_generation_state generation =
      call (state_read generation) (gateway.read_generation_state generation)

  unfoldable pub judge : Wait → Waiting → String → Record → Exec (Session W) Step
  judge p w id state = do
    now ← now_seconds d
    good ← lift (eligible_heartbeat state p.control p.specification p.stack_id id now)
    if good then lift (accept p.control p.required w state) else pure (waiting w)

  -- An empty record is no state.
  unfoldable pub judge_found : Wait → Waiting → String → Option Record → Exec (Session W) Step
  judge_found p w id none = pure (waiting w)
  judge_found p w id (some []) = pure (waiting w)
  judge_found p w id (some (entry ∷ state)) = judge p w id (entry ∷ state)

  -- The round of a complete stack.
  unfoldable pub observe_successor : Wait → Waiting → Exec (Session W) Step
  observe_successor p w = do
    id ← known_instance p.stack_id w.expected_instance
    state ← read_generation_state p.specification.generation
    judge_found p (record w { expected_instance = some id }) id state

  -- What the stack's status allows.
  unfoldable pub check_stack : Wait → Waiting → Option Stack → Exec (Session W) Step
  check_stack p w none = raise (transient "successor stack disappeared")
  check_stack p w (some stack) =
      let status = or_blank stack.stack_status in
      if ends_with "FAILED" status || contains "ROLLBACK" status
      then raise (transient (concat "successor stack failed with " status))
      else if status == "CREATE_COMPLETE"
      then observe_successor p w
      else pure (waiting w)

  -- The body of the loop up to its `sleep`.
  unfoldable pub wait_round : Wait → Waiting → Exec (Session W) Step
  wait_round p w = do renew d p.control; stack ← describe_stack d p.stack_id; check_stack p w stack

  unfoldable pub after_step :
      Record
      → (Waiting → Exec (Session W) (Option Record))
      → Step
      → Exec (Session W) (Option Record)
  after_step control again (ready state) = pure (some state)
  after_step control again (waiting w) = do
    poll ← lift (int_item control "readiness_poll_seconds")
    sleep d poll
    again w

  -- `while self.clock() <= deadline`.
  unfoldable pub wait_loop : ℕ → Wait → Waiting → Exec (Session W) (Option Record)
  wait_loop zero p w = pure none
  wait_loop (suc fuel) p w = do
    now ← now_ms d
    if leb_ℤ now p.deadline
        then (do step ← wait_round p w; after_step p.control (wait_loop fuel p) step)
        else raise (transient "successor readiness timed out; predecessor preserved")

  unfoldable pub or_out_of_fuel : Option Record → Exec (Session W) Record
  or_out_of_fuel none = raise out_of_fuel
  or_out_of_fuel (some state) = pure state

  -- `wait_for_healthy_successor`.
  unfoldable pub wait_for_healthy_successor :
      ℕ → Record → Specification → String → Exec (Session W) Record
  wait_for_healthy_successor fuel control specification stack_id = do
    begun ← now_ms d
    timeout ← lift (int_item control "readiness_timeout_seconds")
    required ← lift (int_item control "readiness_required_heartbeats")
    let p : Wait = record {
      control = control;
      specification = specification;
      stack_id = stack_id;
      deadline = begun +ℤ timeout *ℤ pos 1000;
      required = required;
    }
    found ← wait_loop fuel p initial_waiting
    or_out_of_fuel found
