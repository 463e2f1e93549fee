-- ===== src/Ec2/Guard/Launch.antt =====
-- `provision_successor` launches an instance only where it may.
use cloud_glider.Prelude.{refl, String, Option, none, some, ◌∷◌}
use cloud_glider.Python.Result.{Result, ok, err}
use cloud_glider.Python.Value.{Record}
use cloud_glider.Python.Hoare.{Ends, Triple-bind}
use cloud_glider.Ec2.Session.{
  Instance, Specification, Ec2Daemon, Session, submission_claimed, instance_run,
}
use cloud_glider.Ec2.Ownership.{
  renew, verify_launch_template, fresh_enabled_control, read_control_and_hold, unchanged_control,
}
use cloud_glider.Ec2.Provision.{
  ensure_alarm, reuse_successor, check_capacity, submit, launch, continue_with, provision_successor,
}
use cloud_glider.Ec2.Guard.{
  Keeps-IsGuarded, Event, IsGuarded, List, PermittedBy, JustOwned, JustClaimed, Anything, Guarded,
  Keeps, Triple-call, keeps_rules,
}
use cloud_glider.Ec2.Guard.Reads.{unchanged_control-PermittedBy, require_owner-JustOwned}

module _ {W : Type 0} (d : Ec2Daemon W) (control current : Record) where
  ensure_alarm-Keeps :
      (spec : Specification) (id : String) → Keeps d control current (ensure_alarm d spec id)
  unfolding ensure_alarm
  ensure_alarm-Keeps spec id = search (keeps_rules, tt)

  pub renew-Keeps : (acted : Record) → Keeps d control current (renew d acted)
  unfolding renew
  renew-Keeps acted = search (keeps_rules, tt)

  pub verify_launch_template-Keeps :
      (acted : Record) → Keeps d control current (verify_launch_template d acted)
  unfolding verify_launch_template
  verify_launch_template-Keeps acted = search (keeps_rules, tt)

  unchanged_control-Keeps :
      (acted : Record) (message : String)
      → Keeps d control current (unchanged_control d acted message)
  unfolding unchanged_control fresh_enabled_control read_control_and_hold
  unchanged_control-Keeps acted message = search (keeps_rules, tt) depth 8

  check_capacity-Keeps : (acted : Record) → Keeps d control current (check_capacity d acted)
  unfolding check_capacity
  check_capacity-Keeps acted = search (keeps_rules, tt)

  reuse_successor-Keeps :
      (spec : Specification) (existing : Instance)
      → Keeps d control current (reuse_successor d spec existing)
  unfolding reuse_successor
  reuse_successor-Keeps spec existing = search (keeps_rules, ensure_alarm-Keeps, tt) depth 8

  abbrev Owned : List Event → Type 0
  Owned = JustOwned d control current Anything

  abbrev Claimed : Specification → List Event → Type 0
  Claimed spec = JustClaimed d control current spec Owned

  abbrev MayLaunch : Specification → Record → Session W → Type 0
  MayLaunch spec fresh =
      Guarded d control current (PermittedBy d control current fresh (Claimed spec))

  submission_claimed-Claimed :
      (spec : Specification) (s : Session W)
      → Guarded d control current Owned s
      → (r : Result (Unit {0})) (w : W)
      → Ends
          (λ u. Guarded d control current (Claimed spec))
          (Guarded d control current Anything)
          r
          (record { world = w; trace = submission_claimed spec r ∷ s.trace })
  submission_claimed-Claimed spec s p (ok tt) w =
      ((tt, p.0), record { older = s.trace; read = refl; before = p.1 })
  submission_claimed-Claimed spec s p (err e) w = ((tt, p.0), tt)

  instance_run-Guarded :
      (spec : Specification) (fresh : Record) (s : Session W)
      → MayLaunch spec fresh s
      → (r : Result String) (w : W)
      → Ends
          (λ id. Guarded d control current Anything)
          (Guarded d control current Anything)
          r
          (record { world = w; trace = instance_run spec r ∷ s.trace })
  instance_run-Guarded spec fresh s p (ok id) w = (((fresh, p.1), p.0), tt)
  instance_run-Guarded spec fresh s p (err e) w = (((fresh, p.1), p.0), tt)

  submit-Keeps : (spec : Specification) → Keeps d control current (submit d control spec)
  unfolding submit
  submit-Keeps spec =
      Triple-bind (λ u. Guarded d control current Owned) _ _
        (require_owner-JustOwned d control current Anything _)
        λ u.
          Triple-bind (λ v. Guarded d control current (Claimed spec)) _ _
            (Triple-call d control current _ _ (submission_claimed-Claimed spec))
            λ v.
              Triple-bind (λ fresh. MayLaunch spec fresh) _ _
                (unchanged_control-PermittedBy d control current (Claimed spec) _)
                λ fresh.
                  Triple-bind (λ id. Guarded d control current Anything) _ _
                    (Triple-call d control current _ _ (instance_run-Guarded spec fresh))
                    λ id. search (keeps_rules, ensure_alarm-Keeps)

  launch-Keeps : (spec : Specification) → Keeps d control current (launch d control spec)
  unfolding launch
  launch-Keeps spec =
      search (keeps_rules, check_capacity-Keeps, unchanged_control-Keeps, renew-Keeps, submit-Keeps)
        depth 8

  continue_with-Keeps :
      (spec : Specification) (existing : Option Instance)
      → Keeps d control current (continue_with d control spec existing)
  unfolding continue_with
  continue_with-Keeps spec none = launch-Keeps spec
  continue_with-Keeps spec (some existing) = reuse_successor-Keeps spec existing

  -- `provision_successor`, whether it returns or raises and whatever the gateway answers, launches only
  -- directly behind a read of a control record that is approved, permits propagation and has the identity
  -- of the one acted on, which follows directly on the claim of that launch's submission, which follows
  -- directly on a read of CURRENT that names this instance.
  pub provision_successor-IsGuarded :
      (s : Session W)
      → IsGuarded d control current s.trace
      → IsGuarded d control current (provision_successor d control s).1.trace
  unfolding provision_successor
  provision_successor-IsGuarded =
      Keeps-IsGuarded d control current (provision_successor d control)
        (search (keeps_rules, verify_launch_template-Keeps, continue_with-Keeps) depth 10)
