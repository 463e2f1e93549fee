-- ===== src/Daemon/Guard/Rounds.antt =====
-- A whole cycle acts only as it may, and gives back the lease that it acquired.
use cloud_glider.Prelude.{ℕ, refl, String, Bool, true, false, not, ◌||◌, ◌∷◌}
use cloud_glider.Prelude.Int.{leb_ℤ}
use cloud_glider.Python.Result.{Result, ok, err}
use cloud_glider.Python.Value.{Record, truth}
use cloud_glider.Daemon.Session.{lease_acquired, Session, Daemon, log}
use cloud_glider.Daemon.Identity.{is_current_owner}
use cloud_glider.Daemon.Provision.{read_control_and_hold}
use cloud_glider.Daemon.Cycle.{
  candidate, max_generation_reached, stopped_by_operator, ownership_changed, cycle,
}
use cloud_glider.Python.Hoare.{
  Ends, Triple, Triple-pure, Triple-lift, Triple-gets, Triple-if, Triple-bind, Triple-finally,
  Triple-catch_transient,
}
use cloud_glider.Daemon.Cycle.{
  retire, propagate, as_owner, release, with_lease, take_lease, owner_round, owner_cycle, set_poll,
}
use cloud_glider.Daemon.Trace.{
  Extends-lift, Extends-gets, Extends-call, Extends-modify, Extends-now_seconds,
}
use cloud_glider.Daemon.Quiet.{
  read_current-IsQuiet, heartbeat-IsQuiet, wait_for_healthy_successor-IsQuiet,
}
use cloud_glider.Daemon.Guard.{JustHandedOff, IsWorking, HasLease, anyway}
use cloud_glider.Daemon.Calls.{Triple-call}
use cloud_glider.Daemon.Guard.Create.{after_quiet, provision_successor-IsWorking}
use cloud_glider.Daemon.Guard.Transfer.{conditional_handoff-HasHandedOff}

module _ {W : Type 0} (d : Daemon W) where
  open d use {config, gateway, lease_owner}

  retire-IsWorking :
      (id : String)
      → Triple
          (λ s. IsWorking d s × JustHandedOff d s.trace)
          (retire d id)
          (λ u. IsWorking d)
          (IsWorking d)
  unfolding retire
  retire-IsWorking id =
      Triple-bind (λ a s. IsWorking d s × JustHandedOff d s.trace) _ _ (Triple-gets _ (λ s p. p))
        λ own.
          Triple-bind (λ a s. IsWorking d s × JustHandedOff d s.trace) _ _
            (Triple-lift _ (λ a e s p. p) (λ s p. p.0))
            λ stack.
              Triple-bind (λ a s. IsWorking d s × JustHandedOff d s.trace) _ _
                (Triple-lift _ (λ a e s p. p) (λ s p. p.0))
                λ role_arn.
                  Triple-call _ _
                    λ s p r w. anyway (IsWorking d) r _ (((p.0.1, refl, p.1), p.0.0), p.0.1)

  propagate-IsWorking :
      (fuel : ℕ) (control : Record)
      → Triple (IsWorking d) (propagate d fuel control) (λ a. IsWorking d) (IsWorking d)
  unfolding propagate
  propagate-IsWorking fuel control =
      Triple-bind (λ made. IsWorking d) _ _ (provision_successor-IsWorking d control)
        λ made.
          after_quiet d _ _ (wait_for_healthy_successor-IsQuiet d fuel control made.0 made.1)
            λ state.
              Triple-bind (λ u s. IsWorking d s × JustHandedOff d s.trace) _ _
                (conditional_handoff-HasHandedOff d control made.0 made.1)
                λ u.
                  Triple-bind (λ u. IsWorking d) _ _ (retire-IsWorking made.1)
                    λ v. Triple-pure _ (λ s p. p)

  as_owner-IsWorking :
      (fuel : ℕ) (control : Record)
      → Triple (IsWorking d) (as_owner d fuel control) (λ a. IsWorking d) (IsWorking d)
  unfolding as_owner
  as_owner-IsWorking fuel control = after_quiet d _ _ (read_current-IsQuiet d) λ current.
      Triple-if (is_current_owner d current) _ _ (λ e. propagate-IsWorking fuel control)
        (λ e. Triple-pure ownership_changed (λ s p. p))

  -- A release ends the holding of the lease, also where it fails.
  release-HasLease : Triple (IsWorking d) (release d) (λ u. HasLease d false) (HasLease d false)
  unfolding release log
  release-HasLease =
      Triple-catch_transient _ _
        (Triple-call _ _ λ s p r w. anyway (HasLease d false) r _ ((tt, p.0), refl))
        λ message. record { at = λ s p. ((tt, p.0), p.1) }

  with_lease-HasLease :
      (fuel : ℕ) (control : Record) (acquired : Bool)
      → Triple
          (HasLease d acquired)
          (with_lease d fuel control acquired)
          (λ a. HasLease d false)
          (HasLease d false)
  unfolding with_lease
  with_lease-HasLease fuel control true =
      Triple-finally _ _ (as_owner-IsWorking fuel control) release-HasLease
  with_lease-HasLease fuel control false = Triple-pure _ (λ s p. p)

  take_lease-HasLease :
      (fuel : ℕ) (control : Record)
      → Triple
          (HasLease d false)
          (take_lease d fuel control)
          (λ a. HasLease d false)
          (HasLease d false)
  unfolding take_lease
  take_lease-HasLease fuel control = after_quiet d _ _ (Extends-lift _) λ duration.
      after_quiet d _ _ (Extends-now_seconds d (λ ms. tt)) λ now.
        Triple-bind (HasLease d) _ _ (Triple-call _ _ acquire)
          λ acquired. with_lease-HasLease fuel control acquired
    where
      acquire :
          (s : Session W)
          → HasLease d false s
          → (r : Result Bool) (w : W)
          → Ends
              (HasLease d)
              (HasLease d false)
              r
              (record s { world = w; trace = lease_acquired lease_owner r ∷ s.trace })
      acquire s p (ok true) w = ((tt, p.0), refl)
      acquire s p (ok false) w = ((tt, p.0), p.1)
      acquire s p (err e) w = ((tt, p.0), p.1)

  owner_cycle-HasLease :
      (fuel : ℕ) (control : Record) (hold : Bool)
      → Triple
          (HasLease d false)
          (owner_cycle d fuel control hold)
          (λ a. HasLease d false)
          (HasLease d false)
  unfolding owner_cycle owner_round set_poll
  owner_cycle-HasLease fuel control hold = after_quiet d _ _ (Extends-lift _) λ number.
      after_quiet d _ _ (Extends-lift _) λ limit.
        Triple-if (leb_ℤ limit number) _ _ (λ e. Triple-pure max_generation_reached (λ s p. p))
          λ e. after_quiet d _ _ (Extends-lift _) λ switch.
            Triple-if (hold || not (truth switch)) _ _
              (λ stop. after_quiet d _ _ (Extends-gets _) λ poll.
                after_quiet d _ _ (Extends-modify _ _ (λ s. refl))
                  λ u. Triple-pure stopped_by_operator (λ s p. p))
              (λ go. take_lease-HasLease fuel control)

  pub cycle-HasLease :
      (fuel : ℕ)
      → Triple (HasLease d false) (cycle d fuel) (λ a. HasLease d false) (HasLease d false)
  unfolding cycle set_poll read_control_and_hold
  cycle-HasLease fuel = after_quiet d _ _ (Extends-modify _ _ (λ s. refl)) λ u.
      after_quiet d _ _ (Extends-call _ _ (λ r. tt)) λ reading.
        after_quiet d _ _ (Extends-lift _) λ control. after_quiet d _ _ (Extends-lift _) λ interval.
          after_quiet d _ _ (Extends-modify _ _ (λ s. refl)) λ v.
            after_quiet d _ _ (read_current-IsQuiet d) λ current.
              after_quiet d _ _ (heartbeat-IsQuiet d control reading.1 current) λ x.
                Triple-if (is_current_owner d current) _ _
                  (λ owner. owner_cycle-HasLease fuel control reading.1)
                  (λ other. Triple-pure candidate (λ s p. p))
