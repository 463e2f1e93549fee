-- ===== src/Family/Run.antt =====
-- family_daemon.py, `FamilyDaemon.run`: the main loop, for as many cycles as it is given. `none` says that
-- it is still polling after them. The monitor's thread, and the log, are left out.
pub mod Backoff
pub mod Exit
use Prim.Native.String.{◌++◌ as concat}
use cloud_glider.Prelude.{
  ℕ, zero, suc, ◌^◌, String, Bool, true, false, not, ◌&&◌, Option, none, some, ◌∷◌, if◌then◌else◌,
  leb,
}
use cloud_glider.Prelude.Int.{ℤ, pos, ◌*ℤ◌, leb_ℤ, ltb_ℤ}
use cloud_glider.Python.Result.{
  safety, uncaught, Result, ok, err, or_raise, raise_if, ◌>>=◌ as and_then,
}
use cloud_glider.Python.Exec.{Exec, pure, lift, modify, ◌>>=◌, ◌>>◌, catch_transient, catch_safety}
use cloud_glider.Python.Value.{Value, Record, value_eq, truth, item, get, int, str}
use cloud_glider.Family.Config.{Ec2DaemonConfig}
use cloud_glider.Family.Inherited.{validate, child_paths, whole_item}
use cloud_glider.Family.Session.{
  Event, slept, self_verified, node_initialized, violated, hold_invoked, Session, FamilyGateway,
  FamilyDaemon, call, observe,
}
use cloud_glider.Family.Cycle.{Outcome, stopped, retiring, stop_children, cycle}

-- `min(failures, 10)` in the exponent, `min` with the bound of the settings outside.
abbrev pub least : ℕ → ℕ → ℕ
least a b = if leb a b then a else b

abbrev pub least_ℤ : ℤ → ℤ → ℤ
least_ℤ a b = if leb_ℤ a b then a else b

-- The longest that the daemon waits after so many failures, in seconds.
unfoldable pub longest_delay : ℤ → ℤ → ℕ → ℤ
longest_delay backoff poll failures = least_ℤ backoff (poll *ℤ pos (2 ^ least failures 10))

-- `self.settings.get("max_live_generations") != 3` counts only in a deep tree with single successors.
unfoldable pub check_capacity : Record → ℤ → Bool → Result (Unit {0})
check_capacity settings limit fanout =
    raise_if
      (not fanout
        && leb_ℤ (pos 2) limit
        && not (value_eq (get "max_live_generations" settings) (int (pos 3))))
      (safety "LIVE_CONTINUATION_CAPACITY_INVALID")

-- `FamilyDaemon.__init__`, on the identifier that it draws.
unfoldable pub family_daemon :
    {W : Type 0} → Ec2DaemonConfig → FamilyGateway W → String → Result (FamilyDaemon W)
family_daemon c g correlation = and_then (validate g.digest c) λ settings.
    and_then (item settings "binary_fanout_enabled") λ fanout.
      and_then (whole_item settings "max_generation") λ limit.
        and_then (check_capacity settings limit (truth fanout)) λ u. ok (record {
          config = c;
          gateway = g;
          settings = settings;
          children = child_paths c.node_path limit (truth fanout);
          configuration_identity = g.config_digest c;
          correlation_id = correlation;
        })

module _ {W : Type 0} (d : FamilyDaemon W) where
  open d use {config, gateway, settings, correlation_id}

  -- `self.sleep`, in milliseconds.
  unfoldable pub sleep : ℤ → Exec (Session W) (Unit {0})
  sleep ms =
      modify (λ s. record s { world = gateway.sleep ms s.world; trace = slept ms ∷ s.trace }) tt

  -- `self.monitor.stopped = True`, where a violation is handled.
  unfoldable pub violate : String → Exec (Session W) (Unit {0})
  violate code =
      modify
        (λ s. record s { world = gateway.stop_monitor s.world; trace = violated code ∷ s.trace }) tt

  -- A stop of an earlier process is taken up.
  unfoldable pub resume_stop : Exec (Session W) (Unit {0})
  resume_stop = do
    exists ← observe gateway.stop_file_exists
    if exists
        then (do
          persisted ← observe gateway.read_stop_file
          envelope ← lift (or_raise config.inherited_configuration uncaught)
          lift (
              raise_if (not (value_eq (str persisted) envelope.sha256))
                (safety "LOCAL_STOP_CONFLICT"))
          modify (λ s. record s { world = gateway.stop_monitor s.world }) tt)
        else pure tt

  unfoldable pub back_off : ℤ → ℕ → Exec (Session W) (Unit {0})
  back_off poll failures = do
    backoff ← lift (whole_item settings "retry_backoff_max_seconds")
    delay ←
        observe
          (gateway.uniform (poll *ℤ pos 1000) (longest_delay backoff poll failures *ℤ pos 1000))
    sleep delay

  -- A cycle, or `none` where it was deferred.
  unfoldable pub attempt : Exec (Session W) (Option Outcome)
  attempt = catch_transient (do outcome ← cycle d; pure (some outcome)) (λ message. pure none)

  abbrev pub is_last : Outcome → Bool
  is_last stopped = true
  is_last retiring = true
  is_last outcome = false

  -- What follows a cycle; `again` is the loop, on the number of failures in a row.
  unfoldable pub after_attempt :
      (ℕ → Exec (Session W) (Option ℕ)) → ℤ → ℕ → Option Outcome → Exec (Session W) (Option ℕ)
  after_attempt again poll failures none = do back_off poll (suc failures); again (suc failures)
  after_attempt again poll failures (some outcome) =
      if is_last outcome then pure (some 0) else (do sleep (poll *ℤ pos 1000); again 0)

  unfoldable pub run_loop : ℕ → ℕ → Exec (Session W) (Option ℕ)
  run_loop zero failures = pure none
  run_loop (suc cycles) failures = do
    poll ← lift (whole_item settings "readiness_poll_seconds")
    outcome ← attempt
    after_attempt (run_loop cycles) poll failures outcome

  -- `except SafetyViolation`.
  unfoldable pub hold : String → Exec (Session W) (Option ℕ)
  hold code = do
    violate code
    catch_transient (stop_children d) (λ message. pure tt)
    call (hold_invoked config.generation code)
        (gateway.invoke_hold config.generation code correlation_id)
    pure (some 2)

  -- `run`.
  unfoldable pub run : ℕ → Exec (Session W) (Option ℕ)
  run cycles =
      catch_safety
        (do
          resume_stop
          call self_verified gateway.verify_family_self
          call node_initialized gateway.initialize_node
          run_loop cycles 0)
        hold
