-- ===== src/Daemon/Guard/Runs.antt =====
-- The whole run of a daemon: from its start, every creation, handoff and deletion stands where it may.
use cloud_glider.Prelude.{ℕ, zero, suc, ◌≡◌, refl, String, Bool, true, false, Option, none, some}
use cloud_glider.Python.Value.{value_eq, get, str}
use cloud_glider.Daemon.Session.{Daemon, log}
use cloud_glider.Daemon.Identity.{ensure_bootstrap_ownership}
use cloud_glider.Daemon.Cycle.{Outcome}
use cloud_glider.Python.Hoare.{
  Triple, Triple-pure, Triple-if, Triple-raise_if, Triple-bind, Triple-catch_transient,
  Triple-catch_safety, either,
}
use cloud_glider.Daemon.Trace.{
  same, more, Extends, Extends-pure, Extends-gets, Extends-observe, Extends-if, Extends-sleep,
}
use cloud_glider.Daemon.Quiet.{IsQuiet, read_current-IsQuiet}
use cloud_glider.Daemon.Guard.{owes_release, IsGuarded, HasLease, Extends-HasLease, anyway}
use cloud_glider.Daemon.Calls.{Triple-call}
use cloud_glider.Daemon.Guard.Create.{after_quiet}
use cloud_glider.Daemon.Session.{start}
use cloud_glider.Daemon.Identity.{claim_current, reconcile_claim}
use cloud_glider.Daemon.Guard.Rounds.{cycle-HasLease}
use cloud_glider.Daemon.Quiet.{verify_self-IsQuiet}
use cloud_glider.Daemon.Run.{is_new, is_limit, attempt, pause, run_loop, stop_with_hold, run}

module _ {W : Type 0} (d : Daemon W) where
  open d use {config, gateway}

  -- Allowed everywhere, and no one's lease: an event that is quiet, a claim or a hold.
  log-IsQuiet : (name : String) → Extends IsQuiet (log {W = W} name)
  unfolding log
  log-IsQuiet name = record { at = λ s. more tt same }

  claim_current-HasLease :
      Triple (HasLease d false) (claim_current d) (λ u. HasLease d false) (HasLease d false)
  unfolding claim_current reconcile_claim
  claim_current-HasLease = after_quiet d _ _ (Extends-observe _) λ updated.
      Triple-bind (λ claimed. HasLease d false) _ _
        (Triple-call _ _ λ s p r w. anyway (HasLease d false) r _ ((tt, p.0), p.1)) reconcile
    where
      reconcile :
          (claimed : Bool)
          → Triple
              (HasLease d false)
              (reconcile_claim d claimed)
              (λ u. HasLease d false)
              (HasLease d false)
      reconcile true = Triple-pure _ (λ s p. p)
      reconcile false =
          after_quiet d _ _ (read_current-IsQuiet d)
            λ current. Triple-raise_if _ _ (λ e s p. p) (λ s p. p)

  ensure_bootstrap_ownership-HasLease :
      Triple
        (HasLease d false)
        (ensure_bootstrap_ownership d)
        (λ u. HasLease d false)
        (HasLease d false)
  unfolding ensure_bootstrap_ownership
  ensure_bootstrap_ownership-HasLease = after_quiet d _ _ (read_current-IsQuiet d) λ current.
      Triple-if (value_eq (get "status" current) (str "UNINITIALIZED")) _ _
        (λ e. claim_current-HasLease) (λ e. Triple-pure tt (λ s p. p))

  attempt-HasLease :
      (fuel : ℕ) (previous : Option Outcome)
      → Triple
          (HasLease d false)
          (attempt d fuel previous)
          (λ r. HasLease d false)
          (HasLease d false)
  unfolding attempt
  attempt-HasLease fuel previous =
      Triple-catch_transient _ _
        (Triple-bind (λ result. HasLease d false) _ _ (cycle-HasLease d fuel)
          λ result.
            after_quiet d _ _
              (Extends-if (is_new result previous) _ _ (log-IsQuiet _) (Extends-pure tt))
              λ u. Triple-pure _ (λ s p. p))
        λ message. after_quiet d _ _ (log-IsQuiet _) λ u. Triple-pure _ (λ s p. p)

  run_loop-HasLease :
      (fuel cycles : ℕ) (previous : Option Outcome)
      → Triple
          (HasLease d false)
          (run_loop d fuel cycles previous)
          (λ r. HasLease d false)
          (HasLease d false)
  unfolding run_loop pause
  run_loop-HasLease fuel zero previous = Triple-pure _ (λ s p. p)
  run_loop-HasLease fuel (suc cycles) previous =
      Triple-bind (λ r. HasLease d false) _ _ (attempt-HasLease fuel previous)
        λ result.
          Triple-if (is_limit result) _ _ (λ e. Triple-pure (some 0) (λ s p. p))
            λ e.
              Triple-bind (λ u. HasLease d false) _ _
                (after_quiet d _ _ (Extends-gets _)
                  λ seconds. Extends-HasLease d false _ (Extends-sleep d seconds tt))
                λ u. run_loop-HasLease fuel cycles result

  stop_with_hold-HasLease :
      (code : String)
      → Triple (HasLease d false) (stop_with_hold d code) (λ r. HasLease d false) (HasLease d false)
  unfolding stop_with_hold
  stop_with_hold-HasLease code = after_quiet d _ _ (log-IsQuiet _) λ u.
      Triple-bind (λ v. HasLease d false) _ _
        (Triple-call _ _ λ s p r w. anyway (HasLease d false) r _ ((tt, p.0), p.1))
        λ v. Triple-pure _ (λ s p. p)

  -- In the trace of a run from its start, whatever the gateway answers, for any number of cycles and
  -- however it ends: a stack is created only between the acquisition of the lease and the call for its
  -- release, and directly after a control read that permits propagation, and as that record says; ownership
  -- is handed over only between these two, to a stack that was just seen complete, unchanged and, at the
  -- reading of the clock that follows, healthy under such a read, with the instance of the state that was
  -- read; the own stack, and no other, is deleted only between these two and directly after a successful
  -- handoff. When the run ends, the release of each lease that it acquired was called for, whether or not
  -- it succeeded.
  pub run-IsGuarded :
      (fuel cycles : ℕ) (w : W)
      → IsGuarded d (run d fuel cycles (start w)).1.trace
        × (owes_release (run d fuel cycles (start w)).1.trace ≡ false)
  unfolding run start
  run-IsGuarded fuel cycles w =
      let (r, s') = run d fuel cycles (start w) in
      either (HasLease d false) r s' (whole.at (start w) (tt, refl))
    where
      whole :
          Triple (HasLease d false) (run d fuel cycles) (λ r. HasLease d false) (HasLease d false)
      whole =
          Triple-catch_safety _ _
            (after_quiet d _ _ (verify_self-IsQuiet d) λ u.
              Triple-bind (λ v. HasLease d false) _ _ ensure_bootstrap_ownership-HasLease
                λ v. run_loop-HasLease fuel cycles none)
            stop_with_hold-HasLease
