-- ===== src/Daemon/Run.antt =====
-- daemon.py, `run`: the daemon's main loop, for as many cycles as it is given. `none` says that it is
-- still polling after them; `some` is the exit status.
use cloud_glider.Prelude.{
  ℕ, zero, suc, String, Bool, true, false, not, Option, none, some, eqb, if◌then◌else◌,
}
use cloud_glider.Python.Exec.{Exec, pure, gets, ◌>>=◌, ◌>>◌, catch_transient, catch_safety}
use cloud_glider.Daemon.Session.{hold_invoked, Session, Daemon, call, log, sleep}
use cloud_glider.Daemon.Identity.{verify_self, ensure_bootstrap_ownership}
use cloud_glider.Daemon.Cycle.{
  Outcome, candidate, max_generation_reached, stopped_by_operator, lease_not_acquired,
  ownership_changed, handoff_complete, cycle,
}

abbrev pub outcome_number : Outcome → ℕ
outcome_number candidate = 0
outcome_number max_generation_reached = 1
outcome_number stopped_by_operator = 2
outcome_number lease_not_acquired = 3
outcome_number ownership_changed = 4
outcome_number handoff_complete = 5

-- `result != previous_result`.
abbrev pub is_new : Outcome → Option Outcome → Bool
is_new result none = true
is_new result (some previous) = not (eqb (outcome_number result) (outcome_number previous))

-- `result == "MAX_GENERATION_REACHED"`.
abbrev pub is_limit : Option Outcome → Bool
is_limit none = false
is_limit (some result) = eqb (outcome_number result) 1

module _ {W : Type 0} (d : Daemon W) where
  open d use {config, gateway, correlation_id}

  -- The block of the inner `try`: the result of a cycle, or `none` where it was deferred.
  unfoldable pub attempt : ℕ → Option Outcome → Exec (Session W) (Option Outcome)
  attempt fuel previous =
      catch_transient
        (do
          result ← cycle d fuel
          if is_new result previous then log "cycle_complete" else pure tt
          pure (some result))
        (λ message. do log "cycle_deferred"; pure none)

  unfoldable pub pause : Exec (Session W) (Unit {0})
  pause = do seconds ← gets (λ s. s.poll_seconds); sleep d seconds

  -- `while True`: only the generation limit ends it.
  unfoldable pub run_loop : ℕ → ℕ → Option Outcome → Exec (Session W) (Option ℕ)
  run_loop fuel zero previous = pure none
  run_loop fuel (suc cycles) previous = do
    result ← attempt fuel previous
    if is_limit result then pure (some 0) else (do pause; run_loop fuel cycles result)

  -- `except SafetyViolation`.
  unfoldable pub stop_with_hold : String → Exec (Session W) (Option ℕ)
  stop_with_hold code = do
    log "terminal_safety_violation"
    call (hold_invoked config.generation code)
        (gateway.invoke_hold config.generation code correlation_id)
    pure (some 2)

  -- `run`.
  unfoldable pub run : ℕ → ℕ → Exec (Session W) (Option ℕ)
  run fuel cycles =
      catch_safety (do verify_self d; ensure_bootstrap_ownership d; run_loop fuel cycles none)
        stop_with_hold
