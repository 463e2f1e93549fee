-- ===== src/Daemon/Guard.antt =====
-- The order in which daemon.py may act: what must stand before a creation, a handoff and a deletion in
-- the trace of gateway calls, and whose lease it is to release.
pub mod Create
pub mod Transfer
pub mod Rounds
pub mod Runs
use cloud_glider.Prelude.{
  ◌/◌, ℕ, zero, suc, ◌+◌, ◌≡◌, refl, ◌∙◌, String, Bool, true, false, not, ◌&&◌, ◌||◌, Option, none,
  some, List, [], ◌∷◌, ◌==◌, if◌then◌else◌, map,
}
use cloud_glider.Prelude.Int.{ℤ, pos, ◌+ℤ◌, ◌-ℤ◌, ◌*ℤ◌, max_ℤ, ltb_ℤ, leb_ℤ}
use cloud_glider.Prelude.Lists.{all, any}
use cloud_glider.Python.Text.{lower, contains, ends_with, format_06d_int}
use cloud_glider.Python.Result.{Failure, safety, transient, uncaught, out_of_fuel, Result, ok, err}
use cloud_glider.Python.Exec.{
  Exec, pure, raise, lift, gets, modify, raise_if, ◌>>=◌, ◌>>◌, finally, catch_transient,
  catch_safety,
}
use cloud_glider.Python.Dict.{Dict, lookup, update, insert, keys, has_key}
use cloud_glider.Python.Value.{
  Plain, Value, plain, bool, Record, value_eq, truth, to_int, as_number, item, get, as_text, str,
  int, flag,
}
use cloud_glider.Daemon.Config.{DaemonConfig, generation_number}
use cloud_glider.Daemon.Control.{validated_control, identity_differs, required_control_fields}
use cloud_glider.Daemon.Gateway.{Stack, Specification, Expected, Gateway}
use cloud_glider.Daemon.Session.{
  clock_read, Event, control_read, current_read, initial_claimed, heartbeat_written, lease_acquired,
  lease_renewed, lease_released, stack_described, instance_looked_up, template_verified,
  stack_created, submission_reconciled, state_read, capacity_checked, handed_off, stack_deleted,
  hold_invoked, slept, logged, Session, Daemon, call, observe, log, now_seconds, now_ms, sleep,
}
use cloud_glider.Daemon.Specification.{
  stable_token, select, identity, stack_specification, generation_parameter_names,
}
use cloud_glider.Daemon.Identity.{
  is_text, or_empty, is_current_owner, read_current, entries_match, verify_self, heartbeat,
  ensure_bootstrap_ownership,
}
use cloud_glider.Daemon.Provision.{
  fresh_enabled_control, read_control_and_hold, describe_stack, provision_successor, renew,
  or_key_error, parameters_are, lease_seconds,
}
use cloud_glider.Daemon.Heartbeat.{
  eligible_heartbeat, int_item, Waiting, Step, ready, waiting, accept,
}
use cloud_glider.Daemon.Readiness.{read_generation_state, wait_for_healthy_successor}
use cloud_glider.Daemon.Handoff.{conditional_handoff}
use cloud_glider.Daemon.Cycle.{
  Outcome, candidate, max_generation_reached, stopped_by_operator, lease_not_acquired,
  ownership_changed, handoff_complete, cycle,
}
use cloud_glider.Python.Hoare.{Ends, Triple}
use cloud_glider.Daemon.Provision.{enabled_control}
use cloud_glider.Daemon.Handoff.{is_the_successor, handoff_expected, handoff_successor}
use cloud_glider.Daemon.Trace.{Extension, same, more, Extends}
use cloud_glider.Daemon.Quiet.{IsQuiet}

-- Whether the lease was acquired and its release not called for since; a release that fails was called for,
-- and leaves the lease to its expiry.
abbrev pub owes_release : List Event → Bool
owes_release [] = false
owes_release (lease_acquired owner (ok true) ∷ past) = true
owes_release (lease_released owner result ∷ past) = false
owes_release (event ∷ past) = owes_release past

pub anyway : {S A : Type 0} (P : S → Type 0) (r : Result A) (s : S) → P s → Ends (λ a. P) P r s
anyway P (ok a) s p = p
anyway P (err e) s p = p

module _ {W : Type 0} (d : Daemon W) where
  open d use {config}

  -- The last call read this control record, and it permits propagation: it passes
  -- `_validated_control`, propagation is enabled and there is no hold.
  pub record JustPermitted (control : Record) (past : List Event) : Type 0 where
    pub older : List Event
    pub read : past ≡ control_read (ok (control, false)) ∷ older
    pub valid : validated_control config control ≡ ok control
    pub enabled : truth (get "propagation_enabled" control) ≡ true

  -- A creation follows directly on a permitting read, and asks for what that record says.
  pub record MayCreate (specification : Specification) (past : List Event) : Type 0 where
    pub control : Record
    pub permission : JustPermitted control past
    pub own : Option Stack
    pub generation : ℤ
    pub token : String
    pub computed :
        stack_specification d own control generation config.stack_id token ≡ ok specification

  -- Since a permitting read only the successor was looked at: its stack is the one asked for, and its
  -- state record is an eligible heartbeat at the reading of the clock that follows. The handoff is
  -- conditional on that control record, and names that stack, the instance of that state and the token
  -- asked for.
  pub record MayHandOff (expected : Expected) (successor : Record) (past : List Event)
      : Type 0 where
    pub control : Record
    pub specification : Specification
    pub stack_id : String
    pub stack : Option Stack
    pub instance_id : String
    pub state : Record
    pub ms : ℕ
    pub permitted : List Event
    pub read :
        past
        ≡ clock_read ms
          ∷ state_read specification.generation (ok (some state))
          ∷ instance_looked_up stack_id (ok instance_id)
          ∷ stack_described stack_id (ok stack)
          ∷ permitted
    pub permission : JustPermitted control permitted
    pub the_successor : is_the_successor specification stack_id stack ≡ true
    pub healthy :
        eligible_heartbeat state control specification stack_id instance_id (pos (ms / 1000))
        ≡ ok true
    pub condition : handoff_expected d control ≡ ok expected
    pub instance : Value
    pub token : Value
    pub updated : String
    pub instance_is : item state "instance_id" ≡ ok instance
    pub token_is : item specification.parameters "HandoffToken" ≡ ok token
    pub names : successor ≡ handoff_successor d specification stack_id instance token updated

  -- The last call was a handoff that succeeded.
  pub record JustHandedOff (past : List Event) : Type 0 where
    pub expected : Expected
    pub successor : Record
    pub older : List Event
    pub done : past ≡ handed_off expected successor (ok true) ∷ older

  -- What must stand before an event.
  abbrev pub Allowed : Event → List Event → Type 0
  Allowed (stack_created specification result) past =
      (owes_release past ≡ true) × MayCreate specification past
  Allowed (handed_off expected successor result) past =
      (owes_release past ≡ true) × MayHandOff expected successor past
  Allowed (stack_deleted id result) past =
      (owes_release past ≡ true) × (id ≡ config.stack_id) × JustHandedOff past
  Allowed event past = Unit

  -- Every event of a trace was allowed when it happened.
  abbrev pub IsGuarded : List Event → Type 0
  IsGuarded [] = Unit
  IsGuarded (event ∷ past) = Allowed event past × IsGuarded past

  quiet-Allowed : (event : Event) (past : List Event) → IsQuiet event → Allowed event past
  quiet-Allowed (initial_claimed claim result) past h = tt
  quiet-Allowed (stack_created specification result) past h = absurd h
  quiet-Allowed (handed_off expected successor result) past h = absurd h
  quiet-Allowed (stack_deleted id result) past h = absurd h
  quiet-Allowed event past h = tt

  quiet-owes_release :
      (event : Event) (past : List Event)
      → IsQuiet event
      → owes_release (event ∷ past) ≡ owes_release past
  quiet-owes_release (lease_acquired owner result) past h = absurd h
  quiet-owes_release (lease_released owner result) past h = absurd h
  quiet-owes_release event past h = refl

  -- Quiet events keep a guarded trace guarded, and the lease where it is.
  pub Extension-IsGuarded :
      {old new : List Event} → Extension IsQuiet old new → IsGuarded old → IsGuarded new
  Extension-IsGuarded same g = g
  Extension-IsGuarded (more {e = event} {new = past} h rest) g =
      (quiet-Allowed event past h, Extension-IsGuarded rest g)

  pub Extension-owes_release :
      {old new : List Event} → Extension IsQuiet old new → owes_release new ≡ owes_release old
  Extension-owes_release same = refl
  Extension-owes_release (more {e = event} {new = past} h rest) =
      quiet-owes_release event past h ∙ Extension-owes_release rest

  -- A guarded trace, with a release of the lease owed or not.
  abbrev pub HasLease : Bool → Session W → Type 0
  HasLease held s = IsGuarded s.trace × (owes_release s.trace ≡ held)

  abbrev pub IsWorking : Session W → Type 0
  IsWorking = HasLease true

  pub Extends-HasLease :
      {A : Type 0} (held : Bool) (m : Exec (Session W) A)
      → Extends IsQuiet m
      → Triple (HasLease held) m (λ a. HasLease held) (HasLease held)
  Extends-HasLease held m h = record {
    at = λ s w.
        anyway (HasLease held) (m s).0 (m s).1
          (Extension-IsGuarded (h.at s) w.0, Extension-owes_release (h.at s) ∙ w.1);
  }
