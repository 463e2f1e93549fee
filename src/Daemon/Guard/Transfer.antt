-- ===== src/Daemon/Guard/Transfer.antt =====
-- `conditional_handoff` hands over only to a successor that it may hand over to, and the own stack is
-- deleted only after a handoff.
use cloud_glider.Prelude.{
  ◌/◌, ◌∙◌, ◌≡◌, refl, ap, subst, not-false, String, Bool, true, false, not, Option, none, some,
  List, [], ◌∷◌,
}
use cloud_glider.Prelude.Int.{ℤ}
use cloud_glider.Python.Result.{Result, ok, err, ok_inj}
use cloud_glider.Python.Value.{Record}
use cloud_glider.Daemon.Gateway.{Stack, Specification, Expected}
use cloud_glider.Daemon.Session.{
  clock_read, clock_read, Event, stack_described, instance_looked_up, state_read, handed_off,
  Session, Daemon,
}
use cloud_glider.Daemon.Provision.{describe_stack}
use cloud_glider.Daemon.Heartbeat.{eligible_heartbeat}
use cloud_glider.Daemon.Readiness.{read_generation_state}
use cloud_glider.Daemon.Handoff.{conditional_handoff}
use cloud_glider.Python.Hoare.{Ends, Triple, Triple-lift, Triple-raise_if, Triple-bind}
use cloud_glider.Daemon.Handoff.{
  is_the_successor, still_healthy, healthy_if, check_health, transfer,
}
use cloud_glider.Daemon.Guard.{
  pos, lift, ℕ, Exec, JustPermitted, MayHandOff, JustHandedOff, IsWorking,
}
use cloud_glider.Python.Exec.{Exec, lift, ◌>>=◌}
use cloud_glider.Daemon.Calls.{Triple-call, Triple-observe, Triple-now_seconds}
use cloud_glider.Daemon.Guard.Create.{IsPermitted, fresh_enabled_control-IsPermitted}

module _ {W : Type 0} (d : Daemon W) where
  open d use {config, gateway}

  -- What follows on a value may rely on where it came from.
  lift_then :
      {A B : Type 0} (P : Session W → Type 0) {Q : B → Session W → Type 0} (r : Result A)
      {f : A → Exec (Session W) B}
      → ((s : Session W) → P s → IsWorking d s)
      → ((a : A) → r ≡ ok a → Triple P (f a) Q (IsWorking d))
      → Triple P (lift r >>= f) Q (IsWorking d)
  lift_then P r hp h =
      Triple-bind (λ a s. P s × (r ≡ ok a)) _ _ (Triple-lift r (λ a e s p. (p, e)) hp)
        λ a. record { at = λ s p. (h a p.1).at s p.0 }

  -- What `conditional_handoff` knows after each of its reads.
  record SawStack (control : Record) (specification : Specification) (id : String)
      (stack : Option Stack) (past : List Event) : Type 0 where
    permitted : List Event
    permission : JustPermitted d control permitted
    read : past ≡ stack_described id (ok stack) ∷ permitted

  record SawState (control : Record) (specification : Specification) (id : String)
      (instance_id : String) (found : Option Record) (past : List Event) : Type 0 where
    stack : Option Stack
    the_successor : is_the_successor specification id stack ≡ true
    permitted : List Event
    permission : JustPermitted d control permitted
    read :
        past
        ≡ state_read specification.generation (ok found)
          ∷ instance_looked_up id (ok instance_id)
          ∷ stack_described id (ok stack)
          ∷ permitted

  -- The state is eligible at the reading of the clock that follows on its read.
  record SawHealthy (control : Record) (specification : Specification) (id : String)
      (instance_id : String) (state : Record) (past : List Event) : Type 0 where
    ms : ℕ
    older : List Event
    saw : SawState control specification id instance_id (some state) older
    read : past ≡ clock_read ms ∷ older
    healthy :
        eligible_heartbeat state control specification id instance_id (pos (ms / 1000)) ≡ ok true

  abbrev HasSeen : Record → Specification → String → Option Stack → Session W → Type 0
  HasSeen fresh specification id stack s =
      IsWorking d s × SawStack fresh specification id stack s.trace

  abbrev HasRead : Record → Specification → String → String → Option Record → Session W → Type 0
  HasRead fresh specification id instance_id found s =
      IsWorking d s × SawState fresh specification id instance_id found s.trace

  abbrev HasProof : Record → Specification → String → String → Record → Session W → Type 0
  HasProof fresh specification id instance_id state s =
      IsWorking d s × SawHealthy fresh specification id instance_id state s.trace

  abbrev pub HasHandedOff : Unit {0} → Session W → Type 0
  HasHandedOff u s = IsWorking d s × JustHandedOff d s.trace

  check_health-HasProof :
      (fresh : Record) (specification : Specification) (id instance_id : String)
      (found : Option Record)
      → Triple
          (HasRead fresh specification id instance_id found)
          (check_health d fresh specification id instance_id found)
          (HasProof fresh specification id instance_id)
          (IsWorking d)
  unfolding check_health still_healthy
  check_health-HasProof fresh specification id instance_id none =
      Triple-lift _ (λ a e s p. cc) (λ s p. p.0)
  check_health-HasProof fresh specification id instance_id (some []) =
      Triple-lift _ (λ a e s p. cc) (λ s p. p.0)
  check_health-HasProof fresh specification id instance_id (some (entry ∷ state)) =
      Triple-bind Timed _ _
        (Triple-now_seconds d (λ s p ms w. (((tt, p.0.0), p.0.1), (ms, s.trace, p.1, refl, refl))))
        λ now. Triple-lift _ (λ a e s p. proved now a s p (healthy_if-ok _ _ a e)) (λ s p. p.0)
    where
      healthy_if-ok :
          (r : Result Bool) (state a : Record)
          → healthy_if r state ≡ ok a
          → (r ≡ ok true) × (state ≡ a)
      healthy_if-ok (ok true) state a e = (refl, ok_inj e)
      healthy_if-ok (ok false) state a e = cc
      healthy_if-ok (err f) state a e = cc

      Timed : ℤ → Session W → Type 0
      Timed now s =
          IsWorking d s
          × ((ms : ℕ) × (older : List Event) × SawState fresh specification id instance_id
                (some (entry ∷ state)) older
              × (s.trace ≡ clock_read ms ∷ older)
              × (now ≡ pos (ms / 1000)))

      proved :
          (now : ℤ) (a : Record) (s : Session W)
          → Timed now s
          → (eligible_heartbeat (entry ∷ state) fresh specification id instance_id now ≡ ok true)
            × (entry ∷ state ≡ a)
          → HasProof fresh specification id instance_id a s
      proved now a s p (healthy, same_state) =
          subst (λ x. HasProof fresh specification id instance_id x s) same_state
            (
              p.0,
              record {
                ms = p.1.0;
                older = p.1.1;
                saw = p.1.2;
                read = p.1.3;
                healthy =
                    subst
                      (λ n.
                        eligible_heartbeat (entry ∷ state) fresh specification id instance_id n
                        ≡ ok true)
                      p.1.4 healthy;
              },
            )

  transfer-HasHandedOff :
      (fresh : Record) (specification : Specification) (id instance_id : String) (state : Record)
      → Triple
          (HasProof fresh specification id instance_id state)
          (transfer d fresh specification id state)
          HasHandedOff
          (IsWorking d)
  unfolding transfer
  transfer-HasHandedOff fresh specification id instance_id state =
      lift_then Proof _ (λ s p. p.0)
        λ expected condition.
          lift_then Proof _ (λ s p. p.0)
            λ instance instance_is.
              lift_then Proof _ (λ s p. p.0)
                λ token token_is.
                  Triple-bind (λ updated. Proof) _ _ (Triple-observe _ (λ s p a w. p))
                    λ updated.
                      Triple-bind (λ event_id. Proof) _ _ (Triple-observe _ (λ s p a w. p))
                        λ event_id.
                          Triple-bind (λ occurred. Proof) _ _ (Triple-observe _ (λ s p a w. p))
                            λ occurred.
                              Triple-bind
                                (λ done s. IsWorking d s × (done ≡ true → JustHandedOff d s.trace))
                                _ _
                                (Triple-call _ _ λ s p r w.
                                  handed expected _ s p
                                    (record {
                                      control = fresh;
                                      specification = specification;
                                      stack_id = id;
                                      stack = p.1.saw.stack;
                                      instance_id = instance_id;
                                      state = state;
                                      ms = p.1.ms;
                                      permitted = p.1.saw.permitted;
                                      read =
                                          p.1.read
                                          ∙ ap (λ past. clock_read p.1.ms ∷ past) p.1.saw.read;
                                      permission = p.1.saw.permission;
                                      the_successor = p.1.saw.the_successor;
                                      healthy = p.1.healthy;
                                      condition = condition;
                                      instance = instance;
                                      token = token;
                                      updated = updated;
                                      instance_is = instance_is;
                                      token_is = token_is;
                                      names = refl;
                                    })
                                    r w)
                                λ done.
                                  Triple-raise_if (not done) _
                                    (λ e s p. (p.0, p.1 (not-false done e))) (λ s p. p.0)
    where
      Proof : Session W → Type 0
      Proof = HasProof fresh specification id instance_id state

      handed :
          (expected : Expected) (successor : Record) (s : Session W)
          → Proof s
          → MayHandOff d expected successor s.trace
          → (r : Result Bool) (w : W)
          → Ends
              (λ done s. IsWorking d s × (done ≡ true → JustHandedOff d s.trace))
              (IsWorking d)
              r
              (record s { world = w; trace = handed_off expected successor r ∷ s.trace })
      handed expected successor s p may (ok true) w = (
        (((p.0.1, may), p.0.0), p.0.1),
        λ e. record { expected = expected; successor = _; older = s.trace; done = refl },
      )
      handed expected successor s p may (ok false) w = ((((p.0.1, may), p.0.0), p.0.1), λ e. cc)
      handed expected successor s p may (err e) w = (((p.0.1, may), p.0.0), p.0.1)

  pub conditional_handoff-HasHandedOff :
      (control : Record) (specification : Specification) (id : String)
      → Triple
          (IsWorking d)
          (conditional_handoff d control specification id)
          HasHandedOff
          (IsWorking d)
  unfolding conditional_handoff describe_stack read_generation_state
  conditional_handoff-HasHandedOff control specification id =
      Triple-bind (IsPermitted d) _ _ (fresh_enabled_control-IsPermitted d) λ fresh.
        Triple-bind (λ changed. IsPermitted d fresh) _ _ (Triple-lift _ (λ a e s p. p) (λ s p. p.0))
          λ changed.
            Triple-bind (λ u. IsPermitted d fresh) _ _
              (Triple-raise_if changed _ (λ e s p. p) (λ s p. p.0))
              λ u.
                Triple-bind (HasSeen fresh specification id) _ _ (Triple-call _ _ (seen fresh))
                  λ stack.
                    Triple-bind
                      (λ v s.
                        HasSeen fresh specification id stack s
                        × (is_the_successor specification id stack ≡ true))
                      _ _ (Triple-raise_if _ _ (λ e s p. (p, not-false _ e)) (λ s p. p.0))
                      λ v.
                        Triple-bind
                          (λ instance_id s.
                            (IsWorking d s) × LookedUp fresh stack instance_id s.trace)
                          _ _ (Triple-call _ _ (looked_up fresh stack))
                          λ instance_id.
                            Triple-bind (HasRead fresh specification id instance_id) _ _
                              (Triple-call _ _ (found fresh stack instance_id))
                              λ state.
                                Triple-bind (HasProof fresh specification id instance_id) _ _
                                  (check_health-HasProof fresh specification id instance_id state)
                                  λ healthy.
                                    transfer-HasHandedOff fresh specification id instance_id healthy
    where
      LookedUp : Record → Option Stack → String → List Event → Type 0
      LookedUp fresh stack instance_id past =
          (is_the_successor specification id stack ≡ true)
          × ((permitted : List Event) × JustPermitted d fresh permitted
              × (past
                  ≡ instance_looked_up id (ok instance_id)
                    ∷ stack_described id (ok stack)
                    ∷ permitted))

      seen :
          (fresh : Record) (s : Session W)
          → IsPermitted d fresh s
          → (r : Result (Option Stack)) (w : W)
          → Ends
              (HasSeen fresh specification id)
              (IsWorking d)
              r
              (record s { world = w; trace = stack_described id r ∷ s.trace })
      seen fresh s p (ok stack) w =
          (((tt, p.0.0), p.0.1), record { permitted = s.trace; permission = p.1; read = refl })
      seen fresh s p (err e) w = ((tt, p.0.0), p.0.1)

      looked_up :
          (fresh : Record) (stack : Option Stack) (s : Session W)
          → HasSeen fresh specification id stack s
            × (is_the_successor specification id stack ≡ true)
          → (r : Result String) (w : W)
          → Ends
              (λ instance_id s. (IsWorking d s) × LookedUp fresh stack instance_id s.trace)
              (IsWorking d)
              r
              (record s { world = w; trace = instance_looked_up id r ∷ s.trace })
      looked_up fresh stack s p (ok i) w = (
        ((tt, p.0.0.0), p.0.0.1),
        (
          p.1,
          (
            p.0.1.permitted,
            p.0.1.permission,
            ap (λ past. instance_looked_up id (ok i) ∷ past) p.0.1.read,
          ),
        ),
      )
      looked_up fresh stack s p (err e) w = ((tt, p.0.0.0), p.0.0.1)

      found :
          (fresh : Record) (stack : Option Stack) (instance_id : String) (s : Session W)
          → (IsWorking d s) × LookedUp fresh stack instance_id s.trace
          → (r : Result (Option Record)) (w : W)
          → Ends
              (HasRead fresh specification id instance_id)
              (IsWorking d)
              r
              (record s { world = w; trace = state_read specification.generation r ∷ s.trace })
      found fresh stack instance_id s p (ok state) w = (
        ((tt, p.0.0), p.0.1),
        record {
          stack = stack;
          the_successor = p.1.0;
          permitted = p.1.1.0;
          permission = p.1.1.1;
          read = ap (λ past. state_read specification.generation (ok state) ∷ past) p.1.1.2;
        },
      )
      found fresh stack instance_id s p (err e) w = ((tt, p.0.0), p.0.1)
