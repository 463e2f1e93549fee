-- ===== src/Ec2/Guard/Handover.antt =====
-- `conditional_handoff` hands over only to a successor that it may hand over to.
use cloud_glider.Python.Exec.{Exec, raise_if, ◌>>=◌, ◌>>◌}
use cloud_glider.Prelude.{
  refl, ap, ◌≡◌, subst, arith, eq_iff, String, true, false, not, Option, none, some, List, [], ◌∷◌,
  ◌==◌,
}
use cloud_glider.Prelude.Int.{ℤ}
use cloud_glider.Python.Result.{Failure, transient, Result, ok, err}
use cloud_glider.Python.Value.{Record}
use cloud_glider.Python.Hoare.{Ends, Triple, Triple-pure, Triple-raise_if, Triple-bind}
use cloud_glider.Daemon.Provision.{or_key_error}
use cloud_glider.Ec2.Session.{
  Event, Instance, Specification, Ec2Daemon, Session, now_ms, now_seconds, state_read,
}
use cloud_glider.Ec2.Ownership.{or_missing, describe_instance}
use cloud_glider.Ec2.Proof.{is_young, proved_at, handoff_expected, handoff_successor}
use cloud_glider.Ec2.Handoff.{
  young_proof, eligible_functional_readiness, verify_successor, read_generation_state, transfer,
  hand_off, hand_off_found, conditional_handoff,
}
use cloud_glider.Ec2.Guard.{
  clock_read, pos, Bool, IsEligible, JustTimed, Checked, ℕ, Triple-pre, Exec, Failure, IsGuarded,
  PermittedBy, JustObserved, Anything, Guarded, Keeps, Triple-call, Keeps-IsGuarded, Keeps-bind,
}
use cloud_glider.Ec2.Guard.Steps.{lift_then, raise_if_then, observe_then, raise-Base}
use cloud_glider.Ec2.Guard.Reads.{unchanged_control-PermittedBy}
use cloud_glider.Ec2.Guard.Launch.{renew-Keeps}
use cloud_glider.Ec2.Guard.Observed.{
  JustVerified, Described, instance_described-Described, verify_successor-JustVerified, found_is,
  name_is,
}

module _ {W : Type 0} (d : Ec2Daemon W) (control current : Record) where
  abbrev Base : Session W → Type 0
  Base = Guarded d control current Anything

  -- The post-condition of a check of the readiness.
  abbrev IsJudged :
      (List Event → Type 0) → Record → Record → Specification → String → Bool → Session W → Type 0
  IsJudged R state fresh spec id ready s =
      Base s × (ready ≡ true → IsEligible d control current R state fresh spec id s.trace)

  -- A proof that is found young was read at that reading of the clock.
  judged :
      (R : List Event → Type 0) (state fresh : Record) (spec : Specification) (id : String)
      (found : Option ℤ)
      → proved_at d state fresh spec id ≡ ok found
      → Triple
          (Guarded d control current R)
          (young_proof d found)
          (IsJudged R state fresh spec id)
          Base
  unfolding young_proof now_ms is_young
  judged R state fresh spec id none q = Triple-pure false (λ s p. ((p.0, tt), λ h. cc))
  judged R state fresh spec id (some timestamp) q =
      Triple-bind
        (λ now s.
          Base s
          × (ms : ℕ) × (older : List Event) × (now ≡ pos ms)
          × (s.trace ≡ clock_read ms ∷ older)
          × R older)
        _ _
        (record {
          at = λ s p. (((tt, p.0), tt), (d.gateway.clock s.world).0, s.trace, refl, refl, p.1);
        })
        λ now. Triple-pure _ λ s p. (
          p.0,
          λ young. record {
            timestamp = timestamp;
            ms = p.1;
            older = p.2;
            read = p.4;
            proved = q;
            young = (ground arith, ground arith);
            before = p.5;
          },
        )

  -- What follows on a check of the readiness may rely on it.
  eligible_then :
      (R : List Event → Type 0) (state fresh : Record) (spec : Specification) (id : String)
      (e : Failure) (m : Exec (Session W) (Unit {0}))
      → Triple
          (Guarded d control current (IsEligible d control current R state fresh spec id))
          m
          (λ u. Base)
          Base
      → Triple
          (Guarded d control current R)
          (eligible_functional_readiness d state fresh spec id >>= λ ready.
            raise_if (not ready) e >> m)
          (λ u. Base)
          Base
  unfolding eligible_functional_readiness
  eligible_then R state fresh spec id e m h =
      Triple-bind (IsJudged R state fresh spec id) _ _
        (lift_then d control current R (proved_at d state fresh spec id) _
          (judged R state fresh spec id))
        λ ready.
          Triple-bind
            (λ u. Guarded d control current (IsEligible d control current R state fresh spec id)) _
            _ (Triple-raise_if (not ready) e (λ f s p. (p.0.0, p.1 (ground arith))) (λ s p. p.0))
            λ u. h

  -- The reading of the clock for the lease.
  now_seconds-JustTimed :
      (R : List Event → Type 0)
      → Triple
          (Guarded d control current R)
          (now_seconds d)
          (λ now. Guarded d control current (JustTimed d control current R now))
          Base
  unfolding now_seconds
  now_seconds-JustTimed R = record {
    at = λ s p. (
      (tt, p.0),
      record {
        ms = (d.gateway.clock s.world).0;
        older = s.trace;
        read = refl;
        now_is = refl;
        before = p.1;
      },
    );
  }

  abbrev Dated : Record → Specification → String → Record → ℤ → List Event → Type 0
  Dated fresh spec id state now =
      JustTimed d control current (Checked d control current fresh spec id state) now

  anyway : {A : Type 0} (r : Result A) (s : Session W) → Base s → Ends (λ a. Base) Base r s
  anyway (ok a) s p = p
  anyway (err e) s p = p

  transfer-Base :
      (fresh : Record) (spec : Specification) (id : String) (state : Record)
      → Triple
          (Guarded d control current (Checked d control current fresh spec id state))
          (transfer d fresh spec id state)
          (λ u. Base)
          Base
  unfolding transfer
  transfer-Base fresh spec id state =
      Triple-bind (λ now. Guarded d control current (Dated fresh spec id state now)) _ _
        (now_seconds-JustTimed (Checked d control current fresh spec id state))
        λ now.
          let R = Dated fresh spec id state now in
          lift_then d control current R (handoff_expected d fresh state now) _ λ expected condition.
            observe_then d control current R _ _ λ updated.
              lift_then d control current R (handoff_successor d fresh spec id state updated) _
                λ successor names. observe_then d control current R _ _ λ event.
                  observe_then d control current R _ _ λ occurred.
                    Triple-bind (λ done. Base) _ _
                      (Triple-call d control current _ _ λ s p r w. anyway r _ (
                        (
                          record {
                            spec = spec;
                            id = id;
                            state = state;
                            fresh = fresh;
                            lease_now = now;
                            updated = updated;
                            checked = p.1;
                            condition = condition;
                            names = names;
                          },
                          p.0,
                        ),
                        tt,
                      ))
                      λ done. Triple-raise_if _ _ (λ e s p. p) (λ s p. p)

  hand_off-Base :
      (spec : Specification) (id : String) (state : Record)
      → Triple
          (Guarded d control current (
            IsEligible d control current
              (JustObserved d control current spec id state)
              state
              control
              spec
              id))
          (hand_off d control spec id state)
          (λ u. Base)
          Base
  unfolding hand_off
  hand_off-Base spec id state =
      Triple-bind (λ fresh. Guarded d control current (PermittedBy d control current fresh R)) _ _
        (unchanged_control-PermittedBy d control current R _)
        λ fresh.
          eligible_then (PermittedBy d control current fresh R) state fresh spec id _ _
            (transfer-Base fresh spec id state)
    where
      R : List Event → Type 0
      R =
          IsEligible d control current (JustObserved d control current spec id state) state control
            spec id

  -- Its state was read.
  abbrev HasState : Specification → String → Option Record → Session W → Type 0
  HasState spec id none s = Base s
  HasState spec id (some state) s =
      Guarded d control current (JustObserved d control current spec id state) s

  hand_off_found-Base :
      (spec : Specification) (id : String) (found : Option Record)
      → Triple (HasState spec id found) (hand_off_found d control spec id found) (λ u. Base) Base
  unfolding hand_off_found
  hand_off_found-Base spec id none = raise-Base d control current Anything _
  hand_off_found-Base spec id (some []) =
      raise-Base d control current (JustObserved d control current spec id []) _
  hand_off_found-Base spec id (some (entry ∷ state)) =
      eligible_then (JustObserved d control current spec id (entry ∷ state)) (entry ∷ state) control
        spec id _ _ (hand_off-Base spec id (entry ∷ state))

  state_read-HasState :
      (spec : Specification) (id : String) (s : Session W)
      → Guarded d control current (JustVerified d control current spec id) s
      → (r : Result (Option Record)) (w : W)
      → Ends
          (HasState spec id)
          Base
          r
          (record { world = w; trace = state_read spec.generation r ∷ s.trace })
  state_read-HasState spec id s p (ok none) w = ((tt, p.0), tt)
  state_read-HasState spec id s p (ok (some state)) w = (
    (tt, p.0),
    record {
      instance = p.1.instance;
      older = p.1.older;
      runs = p.1.runs;
      read = ap (λ past. state_read spec.generation (ok (some state)) ∷ past) p.1.read;
    },
  )
  state_read-HasState spec id s p (err e) w = ((tt, p.0), tt)

  -- The checks of the instance that was found, and what follows on them.
  observed-Base :
      (spec : Specification) (id : String) (instance : Instance) (name : String)
      → instance.state_name ≡ some name
      → Triple
          (Guarded d control current (Described d control current id (some instance)))
          (raise_if (not (name == "running")) (transient "successor unavailable before handoff")
            >> (verify_successor d instance spec
                >> (read_generation_state d spec.generation >>= hand_off_found d control spec id)))
          (λ u. Base)
          Base
  unfolding read_generation_state
  observed-Base spec id instance name known =
      raise_if_then d control current (Described d control current id (some instance)) _ _ _ λ f.
        Triple-bind (λ u. Guarded d control current (JustVerified d control current spec id)) _ _
          (verify_successor-JustVerified d control current spec id instance
            (ground (arith, eq_iff name "running")))
          λ u.
            Triple-bind (HasState spec id) _ _
              (Triple-call d control current _ _ (state_read-HasState spec id))
              (hand_off_found-Base spec id)

  conditional_handoff-Keeps :
      (spec : Specification) (id : String)
      → Keeps d control current (conditional_handoff d control spec id)
  unfolding conditional_handoff describe_instance
  conditional_handoff-Keeps spec id =
      Keeps-bind d control current _ _ (renew-Keeps d control current control) λ u.
        Triple-bind (λ found. Guarded d control current (Described d control current id found)) _ _
          (Triple-call d control current _ _ (instance_described-Described d control current id))
          λ found.
            lift_then d control current (Described d control current id found)
              (or_missing d _ found) _
              λ instance is_found.
                lift_then d control current (Described d control current id found)
                  (or_key_error instance.state_name) _
                  λ name known.
                    Triple-pre
                      {P = Guarded d control current
                        (Described d control current id (some instance))}
                      (λ s p. (
                        p.0,
                        subst (λ x. Described d control current id x s.trace)
                            (found_is d control current _ found instance is_found) p.1,
                      ))
                      (observed-Base spec id instance name
                        (name_is d control current instance.state_name name known))

  -- `conditional_handoff`, whether it returns or raises and whatever the gateway answers, hands over only
  -- directly behind these calls, in this order: a lookup of the successor that found it running, its
  -- verification, a read of its state, a reading of the clock at which that state holds a proof for the
  -- control record acted on that is at most 15 seconds old, a read of a control record that is approved,
  -- permits propagation and has the identity of the one acted on, a reading of the clock at which the state
  -- holds a proof for that record that is at most 15 seconds old, and the reading of the clock that the
  -- handoff is dated with. The handoff is conditional on that control record and that state, and CURRENT is to
  -- name that successor.
  pub conditional_handoff-IsGuarded :
      (spec : Specification) (id : String) (s : Session W)
      → IsGuarded d control current s.trace
      → IsGuarded d control current (conditional_handoff d control spec id s).1.trace
  conditional_handoff-IsGuarded spec id =
      Keeps-IsGuarded d control current (conditional_handoff d control spec id)
        (conditional_handoff-Keeps spec id)
