-- ===== src/Ec2/Guard/Retire.antt =====
-- `retire_predecessor` terminates the predecessor only where it may.
use cloud_glider.Prelude.{arith, ◌≡◌, refl, String, true, false, not, Option, List, ◌∷◌, ◌==◌, ◌||◌}
use cloud_glider.Prelude.Int.{ℤ}
use cloud_glider.Python.Result.{Result, ok, err}
use cloud_glider.Python.Exec.{Exec, ◌>>=◌}
use cloud_glider.Python.Value.{Record, get, is_true}
use cloud_glider.Python.Hoare.{Ends, Triple, Triple-pre, Triple-bind, Triple-lift, Triple-if}
use cloud_glider.Ec2.Session.{
  Event, Instance, Ec2Daemon, Session, instance_described, instance_terminated,
}
use cloud_glider.Ec2.Ownership.{describe_instance, verify_own}
use cloud_glider.Ec2.Authority.Authorized.{IsAuthorized, check_authority-IsAuthorized}
use cloud_glider.Ec2.Authority.Predecessor.{IsPredecessor, check_predecessor-IsPredecessor}
use cloud_glider.Ec2.Guard.Steps.{lift_then}
use cloud_glider.Ec2.Ownership.{generation_number}
use cloud_glider.Ec2.Guard.{Keeps-bind, Keeps-lift}
use cloud_glider.Ec2.Authority.{check_authority, check_predecessor}
use cloud_glider.Ec2.Retirement.{
  terminate, delete_alarm, complete, settle, retire, retire_authorized, retire_predecessor,
}
use cloud_glider.Ec2.Guard.{
  lift, IsGuarded, PermittedBy, JustOwned, JustIdentified, Anything, Guarded, Keeps, Triple-call,
  Keeps-IsGuarded, Keeps-pure, keeps_rules,
}
use cloud_glider.Ec2.Guard.Reads.{unchanged_control-PermittedBy, require_owner-JustOwned}
use cloud_glider.Ec2.Guard.Launch.{renew-Keeps, verify_launch_template-Keeps}

module _ {W : Type 0} (d : Ec2Daemon W) (control current : Record) where
  open d use {config}

  -- A method that keeps a trace guarded from where `R` holds.
  abbrev KeepsFrom : {A : Type 0} → (List Event → Type 0) → Exec (Session W) A → Type 0
  KeepsFrom R m =
      Triple (Guarded d control current R) m (λ a. Guarded d control current Anything)
        (Guarded d control current Anything)

  describe_instance-Keeps : (id : String) → Keeps d control current (describe_instance d id)
  unfolding describe_instance
  describe_instance-Keeps id = search (keeps_rules, tt)

  verify_own-Keeps : (own : Instance) → Keeps d control current (verify_own d control own)
  unfolding verify_own
  verify_own-Keeps own = search (keeps_rules, tt) depth 8

  delete_alarm-Keeps : (number : ℤ) → Keeps d control current (delete_alarm d number)
  unfolding delete_alarm
  delete_alarm-Keeps number = search (keeps_rules, tt)

  complete-Keeps : (number : ℤ) → Keeps d control current (complete d current number)
  unfolding complete
  complete-Keeps number = search (keeps_rules, delete_alarm-Keeps)

  abbrev Identified : List Event → Type 0
  Identified = JustIdentified d control current

  -- What the lookup of the predecessor leaves, whatever its state is.
  abbrev Looked : String → List Event → Type 0
  Looked state past =
      (number : ℤ) × (found : Option Instance) × (older : List Event) × (past
        ≡ instance_described config.predecessor_instance_id (ok found) ∷ older)
      × (generation_number d ≡ ok number)
      × IsPredecessor d number found state

  alive-Identified :
      (state : String)
      → not (state == "shutting-down" || state == "terminated") ≡ true
      → (past : List Event) → Looked state past
      → Identified past
  alive-Identified state e past (number, found, older, read, number_is, identified) = record {
    number = number;
    found = found;
    state = state;
    older = older;
    read = read;
    number_is = number_is;
    identified = identified;
    alive = ground (arith, e);
  }

  abbrev MayTerminate : Record → List Event → Type 0
  MayTerminate fresh = PermittedBy d control current fresh (JustOwned d control current Identified)

  abbrev Described : Option Instance → Session W → Type 0
  Described found s =
      Guarded d control current Anything s
      × ((older : List Event) × (s.trace
            ≡ instance_described config.predecessor_instance_id (ok found) ∷ older))

  module _ (authority : IsAuthorized d control current) where
    instance_terminated-Guarded :
        (fresh : Record) (s : Session W)
        → Guarded d control current (MayTerminate fresh) s
        → (r : Result (Unit {0})) (w : W)
        → Ends
            (λ u. Guarded d control current Anything)
            (Guarded d control current Anything)
            r
            (record {
              world = w;
              trace = instance_terminated config.predecessor_instance_id r ∷ s.trace;
            })
    instance_terminated-Guarded fresh s p (ok u) w = (((refl, authority, (fresh, p.1)), p.0), tt)
    instance_terminated-Guarded fresh s p (err e) w = (((refl, authority, (fresh, p.1)), p.0), tt)

    terminate-KeepsFrom : KeepsFrom Identified (terminate d control)
    unfolding terminate
    terminate-KeepsFrom =
        Triple-bind (λ u. Guarded d control current (JustOwned d control current Identified)) _ _
          (require_owner-JustOwned d control current Identified _)
          λ u.
            Triple-bind (λ fresh. Guarded d control current (MayTerminate fresh)) _ _
              (unchanged_control-PermittedBy d control current
                (JustOwned d control current Identified) _)
              λ fresh.
                Triple-bind (λ v. Guarded d control current Anything) _ _
                  (Triple-call d control current _ _ (instance_terminated-Guarded fresh))
                  λ v. Keeps-pure d control current false

    settle-KeepsFrom :
        (number : ℤ) (state : String)
        → KeepsFrom (Looked state) (settle d control current number state)
    unfolding settle
    settle-KeepsFrom number state =
        Triple-if (not (state == "shutting-down" || state == "terminated")) _ _
          (λ e.
            Triple-pre {P = Guarded d control current Identified}
              (λ s p. (p.0, alive-Identified state e s.trace p.1)) terminate-KeepsFrom)
          λ e.
            Triple-pre {P = Guarded d control current Anything} (λ s p. (p.0, tt))
              (search (keeps_rules, complete-Keeps))

    -- The lookup of the predecessor.
    retire_found-Keeps :
        (number : ℤ)
        → generation_number d ≡ ok number
        → Keeps d control current (
            describe_instance d config.predecessor_instance_id >>= λ found.
            lift (check_predecessor d number found) >>= settle d control current number)
    unfolding describe_instance
    retire_found-Keeps number number_is =
        Triple-bind Described _ _ (Triple-call d control current _ _ described) λ found.
          Triple-bind (λ state. Guarded d control current (Looked state)) _ _
            (Triple-lift _
              (λ state e s p. (
                p.0.0,
                (
                  number,
                  found,
                  p.1.0,
                  p.1.1,
                  number_is,
                  check_predecessor-IsPredecessor d number found state e,
                ),
              ))
              (λ s p. p.0))
            λ state. settle-KeepsFrom number state
      where
        described :
            (s : Session W)
            → Guarded d control current Anything s
            → (r : Result (Option Instance)) (w : W)
            → Ends Described (Guarded d control current Anything) r (record {
              world = w;
              trace = instance_described config.predecessor_instance_id r ∷ s.trace;
            })
        described s p (ok found) w = (((tt, p.0), tt), (s.trace, refl))
        described s p (err e) w = ((tt, p.0), tt)

    retire-Keeps : Keeps d control current (retire d control current)
    unfolding retire
    retire-Keeps =
        Keeps-bind d control current _ _ (verify_launch_template-Keeps d control current control)
          λ u. Keeps-bind d control current _ _ (describe_instance-Keeps _) λ found.
            Keeps-bind d control current _ _ (Keeps-lift d control current _) λ own.
              Keeps-bind d control current _ _ (verify_own-Keeps own) λ v.
                Keeps-bind d control current _ _ (renew-Keeps d control current control) λ x.
                  lift_then d control current Anything (generation_number d) _ retire_found-Keeps

  retire_authorized-Keeps : Keeps d control current (retire_authorized d control current)
  unfolding retire_authorized
  retire_authorized-Keeps =
      Triple-bind
        (λ u s. Guarded d control current Anything s × (check_authority d control current ≡ ok tt))
        _ _ (Triple-lift _ (λ u e s p. (p, e)) (λ s p. p))
        λ u. record {
          at = λ s p.
              (Triple-if (is_true (get "retirement_completed" current)) _ _
                  (λ e. Keeps-pure d control current true)
                  (λ e. retire-Keeps (check_authority-IsAuthorized d control current p.1))).at
                s p.0;
        }

  -- `retire_predecessor`, whether it returns or raises and whatever the gateway answers, terminates no
  -- instance but the configured predecessor, and only where CURRENT as it was passed authorizes the
  -- retirement: it names the predecessor and the handoff, its switch is `True`, it carries the fingerprint of
  -- the control record acted on and the right continuation, and a proof that this instance made for both.
  -- The termination follows directly on a read of a control record that is approved, permits propagation
  -- and has the identity of the one acted on, that directly on a read of CURRENT that names this instance,
  -- and that directly on a lookup of the predecessor that found an instance of the generation before the own
  -- one with the chain's tags and launch template that is not yet shutting down.
  pub retire_predecessor-IsGuarded :
      (s : Session W)
      → IsGuarded d control current s.trace
      → IsGuarded d control current (retire_predecessor d control current s).1.trace
  unfolding retire_predecessor
  retire_predecessor-IsGuarded =
      Keeps-IsGuarded d control current (retire_predecessor d control current)
        (search (keeps_rules, retire_authorized-Keeps))
