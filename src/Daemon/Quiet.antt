-- ===== src/Daemon/Quiet.antt =====
-- The methods of daemon.py that only read, write heartbeats and renew the lease: they neither create,
-- hand over nor delete anything, and leave the lease with its holder.
use cloud_glider.Prelude.{ℕ, zero, suc, String, Bool, Option, none, some, [], ◌∷◌}
use cloud_glider.Python.Exec.{Exec}
use cloud_glider.Python.Value.{Record}
use cloud_glider.Daemon.Gateway.{Stack, Specification}
use cloud_glider.Daemon.Session.{
  Event, initial_claimed, lease_acquired, lease_released, stack_created, handed_off, stack_deleted,
  hold_invoked, Session, Daemon,
}
use cloud_glider.Daemon.Identity.{read_current, verify_self, heartbeat}
use cloud_glider.Daemon.Provision.{
  fresh_enabled_control, read_control_and_hold, describe_stack, renew,
}
use cloud_glider.Daemon.Heartbeat.{Waiting, Step, ready, waiting}
use cloud_glider.Daemon.Readiness.{read_generation_state, wait_for_healthy_successor}
use cloud_glider.Daemon.Trace.{Extends, extends_rules}
use cloud_glider.Daemon.Provision.{reuse_successor}
use cloud_glider.Daemon.Readiness.{
  Wait, known_instance, judge, judge_found, observe_successor, check_stack, wait_round, after_step,
  wait_loop, or_out_of_fuel,
}

-- An event that changes no stack, no ownership and no lease's holder.
abbrev pub IsQuiet : Event → Type 0
IsQuiet (initial_claimed claim result) = ⊥
IsQuiet (lease_acquired owner result) = ⊥
IsQuiet (lease_released owner result) = ⊥
IsQuiet (stack_created specification result) = ⊥
IsQuiet (handed_off expected successor result) = ⊥
IsQuiet (stack_deleted id result) = ⊥
IsQuiet (hold_invoked generation code result) = ⊥
IsQuiet _ = Unit

module _ {W : Type 0} (d : Daemon W) where
  pub verify_self-IsQuiet : Extends IsQuiet (verify_self d)
  unfolding verify_self
  verify_self-IsQuiet = search (extends_rules, tt) depth 12

  pub read_current-IsQuiet : Extends IsQuiet (read_current d)
  unfolding read_current
  read_current-IsQuiet = search (extends_rules, tt)

  pub heartbeat-IsQuiet :
      (control : Record) (hold : Bool) (current : Record)
      → Extends IsQuiet (heartbeat d control hold current)
  unfolding heartbeat
  heartbeat-IsQuiet control hold current = search (extends_rules) depth 12

  pub fresh_enabled_control-IsQuiet : Extends IsQuiet (fresh_enabled_control d)
  unfolding fresh_enabled_control read_control_and_hold
  fresh_enabled_control-IsQuiet = search (extends_rules, tt)

  pub renew-IsQuiet : (control : Record) → Extends IsQuiet (renew d control)
  unfolding renew
  renew-IsQuiet control = search (extends_rules, tt)

  pub describe_stack-IsQuiet : (id : String) → Extends IsQuiet (describe_stack d id)
  unfolding describe_stack
  describe_stack-IsQuiet id = search (extends_rules, tt)

  pub reuse_successor-IsQuiet :
      (specification : Specification) (stack : Stack)
      → Extends IsQuiet (reuse_successor d specification stack)
  unfolding reuse_successor
  reuse_successor-IsQuiet specification stack = search extends_rules

  pub read_generation_state-IsQuiet :
      (generation : String) → Extends IsQuiet (read_generation_state d generation)
  unfolding read_generation_state
  read_generation_state-IsQuiet generation = search (extends_rules, tt)

  known_instance-IsQuiet :
      (id : String) (known : Option String) → Extends IsQuiet (known_instance d id known)
  unfolding known_instance
  known_instance-IsQuiet id none = search (extends_rules, tt)
  known_instance-IsQuiet id (some known) = search (extends_rules, tt)

  judge-IsQuiet :
      (p : Wait) (w : Waiting) (id : String) (state : Record)
      → Extends IsQuiet (judge d p w id state)
  unfolding judge
  judge-IsQuiet p w id state = search extends_rules depth 8

  judge_found-IsQuiet :
      (p : Wait) (w : Waiting) (id : String) (state : Option Record)
      → Extends IsQuiet (judge_found d p w id state)
  unfolding judge_found
  judge_found-IsQuiet p w id none = search extends_rules
  judge_found-IsQuiet p w id (some []) = search extends_rules
  judge_found-IsQuiet p w id (some (entry ∷ state)) = judge-IsQuiet p w id (entry ∷ state)

  observe_successor-IsQuiet : (p : Wait) (w : Waiting) → Extends IsQuiet (observe_successor d p w)
  unfolding observe_successor
  observe_successor-IsQuiet p w =
      search
        (extends_rules, known_instance-IsQuiet, read_generation_state-IsQuiet, judge_found-IsQuiet)

  check_stack-IsQuiet :
      (p : Wait) (w : Waiting) (stack : Option Stack) → Extends IsQuiet (check_stack d p w stack)
  unfolding check_stack
  check_stack-IsQuiet p w none = search extends_rules
  check_stack-IsQuiet p w (some stack) = search (extends_rules, observe_successor-IsQuiet)

  wait_round-IsQuiet : (p : Wait) (w : Waiting) → Extends IsQuiet (wait_round d p w)
  unfolding wait_round
  wait_round-IsQuiet p w =
      search (extends_rules, renew-IsQuiet, describe_stack-IsQuiet, check_stack-IsQuiet)

  after_step-IsQuiet :
      (control : Record) (again : Waiting → Exec (Session W) (Option Record)) (step : Step)
      → ((w : Waiting) → Extends IsQuiet (again w))
      → Extends IsQuiet (after_step d control again step)
  unfolding after_step
  after_step-IsQuiet control again (ready state) h = search extends_rules
  after_step-IsQuiet control again (waiting w) h = search (extends_rules, tt) depth 7

  wait_loop-IsQuiet : (fuel : ℕ) (p : Wait) (w : Waiting) → Extends IsQuiet (wait_loop d fuel p w)
  unfolding wait_loop
  wait_loop-IsQuiet zero p w = search extends_rules
  wait_loop-IsQuiet (suc fuel) p w =
      let again = wait_loop-IsQuiet fuel p in
      search (extends_rules, wait_round-IsQuiet, after_step-IsQuiet) depth 8

  or_out_of_fuel-IsQuiet : (found : Option Record) → Extends IsQuiet (or_out_of_fuel d found)
  unfolding or_out_of_fuel
  or_out_of_fuel-IsQuiet none = search extends_rules
  or_out_of_fuel-IsQuiet (some state) = search extends_rules

  pub wait_for_healthy_successor-IsQuiet :
      (fuel : ℕ) (control : Record) (specification : Specification) (id : String)
      → Extends IsQuiet (wait_for_healthy_successor d fuel control specification id)
  unfolding wait_for_healthy_successor
  wait_for_healthy_successor-IsQuiet fuel control specification id =
      search (extends_rules, wait_loop-IsQuiet, or_out_of_fuel-IsQuiet) depth 8
