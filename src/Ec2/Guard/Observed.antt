-- ===== src/Ec2/Guard/Observed.antt =====
-- What `conditional_handoff` knows of the successor's instance after its lookup and its verification.
use cloud_glider.Prelude.{ap, ◌≡◌, refl, arith, String, Option, none, some, List, ◌∷◌}
use cloud_glider.Python.Result.{Result, ok, err}
use cloud_glider.Python.Value.{Record}
use cloud_glider.Python.Hoare.{Ends, Triple}
use cloud_glider.Daemon.Provision.{or_key_error}
use cloud_glider.Ec2.Session.{
  Event, Instance, Specification, Ec2Daemon, Session, instance_described, instance_verified,
}
use cloud_glider.Ec2.Ownership.{or_missing}
use cloud_glider.Ec2.Handoff.{verify_successor}
use cloud_glider.Ec2.Guard.{Anything, Guarded, Triple-call}

module _ {W : Type 0} (d : Ec2Daemon W) (control current : Record) where
  abbrev Base : Session W → Type 0
  Base = Guarded d control current Anything

  -- The successor was looked up, runs and was verified.
  pub record JustVerified (spec : Specification) (id : String) (past : List Event) : Type 0 where
    pub instance : Instance
    pub older : List Event
    pub runs : instance.state_name ≡ some "running"
    pub read :
        past
        ≡ instance_verified instance spec (ok tt)
          ∷ instance_described id (ok (some instance))
          ∷ older

  -- The lookup of the successor, and its state's name.
  abbrev pub Described : String → Option Instance → List Event → Type 0
  Described id found past = (older : List Event) × (past ≡ instance_described id (ok found) ∷ older)

  pub instance_described-Described :
      (id : String) (s : Session W)
      → Base s
      → (r : Result (Option Instance)) (w : W)
      → Ends
          (λ found. Guarded d control current (Described id found))
          Base
          r
          (record { world = w; trace = instance_described id r ∷ s.trace })
  instance_described-Described id s p (ok found) w = ((tt, p.0), (s.trace, refl))
  instance_described-Described id s p (err e) w = ((tt, p.0), tt)

  pub verify_successor-JustVerified :
      (spec : Specification) (id : String) (instance : Instance)
      → instance.state_name ≡ some "running"
      → Triple
          (Guarded d control current (Described id (some instance)))
          (verify_successor d instance spec)
          (λ u. Guarded d control current (JustVerified spec id))
          Base
  unfolding verify_successor
  verify_successor-JustVerified spec id instance runs = Triple-call d control current _ _ verified
    where
      verified :
          (s : Session W)
          → Guarded d control current (Described id (some instance)) s
          → (r : Result (Unit {0})) (w : W)
          → Ends
              (λ u. Guarded d control current (JustVerified spec id))
              Base
              r
              (record { world = w; trace = instance_verified instance spec r ∷ s.trace })
      verified s p (ok tt) w = (
        (tt, p.0),
        record {
          instance = instance;
          older = p.1.0;
          runs = runs;
          read = ap (λ past. instance_verified instance spec (ok tt) ∷ past) p.1.1;
        },
      )
      verified s p (err e) w = ((tt, p.0), tt)

  pub found_is :
      (message : String) (found : Option Instance) (instance : Instance)
      → or_missing d message found ≡ ok instance
      → found ≡ some instance
  found_is message none instance e = cc
  found_is message (some other) instance e = ground arith

  pub name_is : (o : Option String) (name : String) → or_key_error o ≡ ok name → o ≡ some name
  name_is none name e = cc
  name_is (some other) name e = ground arith
