-- ===== src/Daemon/Readiness/Rounds.antt =====
-- The rounds of `wait_for_healthy_successor` of daemon.py keep the row of the states that were accepted.
use Prim.Native.String.{◌++◌ as concat}
use cloud_glider.Prelude.{
  ◌||◌, if◌then◌else◌, true, ◌/◌, ◌==◌, ℕ, zero, suc, ◌≡◌, refl, sym, ◌∙◌, ap, subst, String,
  Option, none, some, List, [], ◌∷◌,
}
use cloud_glider.Prelude.Int.{leb_ℤ, ℤ, pos}
use cloud_glider.Python.Result.{transient, Result, ok, err}
use cloud_glider.Python.Text.{contains, ends_with}
use cloud_glider.Python.Exec.{raise, pure, Exec, ◌>>=◌}
use cloud_glider.Python.Value.{Record}
use cloud_glider.Daemon.Gateway.{Stack}
use cloud_glider.Daemon.Session.{Event, instance_looked_up, state_read, clock_read, Session, Daemon}
use cloud_glider.Daemon.Heartbeat.{eligible_heartbeat, Waiting, Step, ready, waiting, accept}
use cloud_glider.Python.Hoare.{
  Ends, Triple, Triple-pure, Triple-raise, Triple-lift, Triple-if, Triple-bind,
}
use cloud_glider.Daemon.Calls.{Triple-call, Triple-now_seconds}
use cloud_glider.Daemon.Trace.{Extension, same, more, Extends, Extends-now_ms, Extends-sleep}
use cloud_glider.Daemon.Quiet.{IsQuiet, renew-IsQuiet, describe_stack-IsQuiet}
use cloud_glider.Daemon.Readiness.{
  or_blank, Wait, known_instance, judge, judge_found, observe_successor, check_stack, wait_round,
  after_step, wait_loop, or_out_of_fuel, read_generation_state,
}
use cloud_glider.Daemon.Readiness.Accepted.{
  Since, Known, IsCounted, StepIsCounted, Proved, accept-IsCounted, IsCounted-grows,
}

Since-quiet : {old new : List Event} → Extension IsQuiet old new → Since old new
Since-quiet same = same
Since-quiet (more h rest) = more tt (Since-quiet rest)

either_end :
    {W A : Type 0} (I : Session W → Type 0) (r : Result A) (s : Session W)
    → I s
    → Ends (λ a. I) (λ u. Unit {0}) r s
either_end I (ok a) s h = h
either_end I (err e) s h = tt

module _ {W : Type 0} (d : Daemon W) (start : List Event) where
  -- A method that adds quiet events keeps what no new event takes away.
  pub grows :
      {A : Type 0} (I : List Event → Type 0) (m : Exec (Session W) A)
      → ((old new : List Event) → Since old new → I old → I new)
      → Extends IsQuiet m
      → Triple (λ s. I s.trace) m (λ a s. I s.trace) (λ s. Unit)
  grows I m g h = record {
    at = λ s i. either_end (λ s'. I s'.trace) (m s).0 (m s).1 (g _ _ (Since-quiet (h.at s)) i);
  }

  module _ (p : Wait) where
    abbrev Fine : Step → Session W → Type 0
    Fine step s = StepIsCounted start p.control p.specification p.stack_id p.required step s.trace

    abbrev Well : Waiting → List Event → Type 0
    Well = IsCounted start p.control p.specification p.stack_id p.required

    abbrev pub Good : Option Record → Session W → Type 0
    Good none s = Unit
    Good (some state) s = Proved start p.control p.specification p.stack_id p.required state s.trace

    -- A method that adds quiet events keeps the row.
    carried :
        {A : Type 0} (w : Waiting) (m : Exec (Session W) A)
        → Extends IsQuiet m
        → Triple (λ s. Well w s.trace) m (λ a s. Well w s.trace) (λ s. Unit)
    carried w m h =
        grows (Well w) m
          (λ old new g c.
            IsCounted-grows start p.control p.specification p.stack_id p.required g w c)
          h

    -- The state was read last, and before it the row stood.
    abbrev JustRead : Waiting → Option Record → Session W → Type 0
    JustRead w found s =
        (older : List Event) × (s.trace ≡ state_read p.specification.generation (ok found) ∷ older)
        × Well w older

    -- The clock was read last, and the state before it.
    abbrev JustTimed : Waiting → Record → ℤ → Session W → Type 0
    JustTimed w state now s =
        (ms : ℕ) × (older : List Event) × (now ≡ pos (ms / 1000))
        × (s.trace
            ≡ clock_read ms ∷ state_read p.specification.generation (ok (some state)) ∷ older)
        × Well w older

    -- With the instance looked up.
    abbrev with_instance : Waiting → String → Waiting
    with_instance w id = record w { expected_instance = some id }

    seen_step :
        (w : Waiting) (id : String) (state : Record) (now : ℤ) (s : Session W) (step : Step)
        → JustTimed (with_instance w id) state now s
        → eligible_heartbeat state p.control p.specification p.stack_id id now ≡ ok true
        → accept p.control p.required (with_instance w id) state ≡ ok step
        → Fine step s
    seen_step w id state now s step (ms, older, now_is, read, c) e h =
        accept-IsCounted start p.control p.specification p.stack_id p.required {old = older}
          {past = s.trace} (subst (Since older) (sym read) (more tt (more tt same)))
          (with_instance w id) state step c
          (λ since after. record {
            instance_id = id;
            ms = ms;
            older = older;
            read = read;
            after = after;
            looked_up = c.known;
            eligible =
                subst
                  (λ n.
                    eligible_heartbeat state p.control p.specification p.stack_id id n ≡ ok true)
                  now_is e;
          })
          h

    timed_Well :
        (w : Waiting) (state : Record) (now : ℤ) (s : Session W)
        → JustTimed w state now s
        → Well w s.trace
    timed_Well w state now s (ms, older, now_is, read, c) =
        IsCounted-grows start p.control p.specification p.stack_id p.required
          (subst (Since older) (sym read) (more tt (more tt same))) w c

    judge-Fine :
        (w : Waiting) (id : String) (state : Record)
        → Triple
            (JustRead (with_instance w id) (some state))
            (judge d p (with_instance w id) id state)
            Fine
            (λ s. Unit)
    unfolding judge
    judge-Fine w id state =
        Triple-bind (JustTimed (with_instance w id) state) _ _
          (Triple-now_seconds d λ s (older, read, c) ms w'.
            (ms, older, refl, ap (λ past. clock_read ms ∷ past) read, c))
          λ now.
            Triple-bind
              (λ good s.
                JustTimed (with_instance w id) state now s
                × (eligible_heartbeat state p.control p.specification p.stack_id id now ≡ ok good))
              _ _ (Triple-lift _ (λ good e s q. (q, e)) (λ s q. tt))
              λ good.
                Triple-if good _ _
                  (λ t.
                    Triple-lift _
                      (λ step e s q. seen_step w id state now s step q.0 (q.1 ∙ ap ok t) e)
                      (λ s q. tt))
                  (λ f. Triple-pure _ (λ s q. timed_Well (with_instance w id) state now s q.0))

    read_Well :
        (w : Waiting) (found : Option Record) (s : Session W) → JustRead w found s → Well w s.trace
    read_Well w found s (older, read, c) =
        IsCounted-grows start p.control p.specification p.stack_id p.required
          (subst (Since older) (sym read) (more tt same)) w c

    judge_found-Fine :
        (w : Waiting) (id : String) (found : Option Record)
        → Triple
            (JustRead (with_instance w id) found)
            (judge_found d p (with_instance w id) id found)
            Fine
            (λ s. Unit)
    unfolding judge_found
    judge_found-Fine w id none = Triple-pure _ (λ s q. read_Well (with_instance w id) none s q)
    judge_found-Fine w id (some []) =
        Triple-pure _ (λ s q. read_Well (with_instance w id) (some []) s q)
    judge_found-Fine w id (some (entry ∷ state)) = judge-Fine w id (entry ∷ state)

    looked_up :
        (w : Waiting) (s : Session W) (r : Result String) (w' : W)
        → Well w s.trace
        → Ends
            (λ id s'. Well (with_instance w id) s'.trace)
            (λ u. Unit {0})
            r
            (record s { world = w'; trace = instance_looked_up p.stack_id r ∷ s.trace })
    looked_up w s (err e) w' c = tt
    looked_up w s (ok id) w' c =
        let c' =
          IsCounted-grows start p.control p.specification p.stack_id p.required {old = s.trace}
            {new = instance_looked_up p.stack_id (ok id) ∷ s.trace} (more tt same) w c in
        record {
          begun = c'.begun;
          known = record { older = s.trace; after = c.begun; before = same };
          counted = c'.counted;
        }

    known_instance-Well :
        (w : Waiting) (o : Option String)
        → w.expected_instance ≡ o
        → Triple
            (λ s. Well w s.trace)
            (known_instance d p.stack_id o)
            (λ id s. Well (with_instance w id) s.trace)
            (λ s. Unit)
    unfolding known_instance
    known_instance-Well w none e = Triple-call _ _ λ s c r w'. looked_up w s r w' c
    known_instance-Well w (some id) e =
        Triple-if (id == "") _ _ (λ t. Triple-call _ _ λ s c r w'. looked_up w s r w' c)
          (λ f. Triple-pure id λ s c. record {
            begun = c.begun;
            known =
                subst (λ o. Known start p.control p.specification p.stack_id p.required o s.trace) e
                  c.known;
            counted = c.counted;
          })

    read_end :
        (w : Waiting) (s : Session W) (r : Result (Option Record)) (w' : W)
        → Well w s.trace
        → Ends
            (JustRead w)
            (λ u. Unit {0})
            r
            (record s { world = w'; trace = state_read p.specification.generation r ∷ s.trace })
    read_end w s (ok found) w' c = (s.trace, refl, c)
    read_end w s (err e) w' c = tt

    observe_successor-Fine :
        (w : Waiting) → Triple (λ s. Well w s.trace) (observe_successor d p w) Fine (λ s. Unit)
    unfolding observe_successor read_generation_state
    observe_successor-Fine w =
        Triple-bind (λ id s. Well (with_instance w id) s.trace) _ _
          (known_instance-Well w w.expected_instance refl)
          λ id.
            Triple-bind (JustRead (with_instance w id)) _ _
              (Triple-call _ _ λ s c r w'. read_end (with_instance w id) s r w' c)
              λ found. judge_found-Fine w id found

    check_stack-Fine :
        (w : Waiting) (stack : Option Stack)
        → Triple (λ s. Well w s.trace) (check_stack d p w stack) Fine (λ s. Unit)
    unfolding check_stack
    check_stack-Fine w none = Triple-raise _ (λ s q. tt)
    check_stack-Fine w (some stack) =
        let status = or_blank stack.stack_status in
        Triple-if (ends_with "FAILED" status || contains "ROLLBACK" status)
          (raise (transient (concat "successor stack failed with " status)))
          (if status == "CREATE_COMPLETE" then observe_successor d p w else pure (waiting w))
          (λ t. Triple-raise _ (λ s q. tt))
          (λ f.
            Triple-if (status == "CREATE_COMPLETE") (observe_successor d p w) (pure (waiting w))
              (λ t. observe_successor-Fine w) (λ f'. Triple-pure _ (λ s c. c)))

    wait_round-Fine :
        (w : Waiting) → Triple (λ s. Well w s.trace) (wait_round d p w) Fine (λ s. Unit)
    unfolding wait_round
    wait_round-Fine w =
        Triple-bind (λ u s. Well w s.trace) _ _ (carried w _ (renew-IsQuiet d p.control))
          λ u.
            Triple-bind (λ stack s. Well w s.trace) _ _
              (carried w _ (describe_stack-IsQuiet d p.stack_id)) λ stack. check_stack-Fine w stack

    after_step-Good :
        (again : Waiting → Exec (Session W) (Option Record)) (step : Step)
        → ((w : Waiting) → Triple (λ s. Well w s.trace) (again w) Good (λ s. Unit))
        → Triple (Fine step) (after_step d p.control again step) Good (λ s. Unit)
    unfolding after_step
    after_step-Good again (ready state) h = Triple-pure _ (λ s q. q)
    after_step-Good again (waiting w) h =
        Triple-bind (λ poll s. Well w s.trace) _ _ (Triple-lift _ (λ a e s q. q) (λ s q. tt))
          λ poll.
            Triple-bind (λ u s. Well w s.trace) _ _ (carried w _ (Extends-sleep d poll tt)) λ u. h w

    pub wait_loop-Good :
        (fuel : ℕ) (w : Waiting)
        → Triple (λ s. Well w s.trace) (wait_loop d fuel p w) Good (λ s. Unit)
    unfolding wait_loop
    wait_loop-Good zero w = Triple-pure _ (λ s q. tt)
    wait_loop-Good (suc fuel) w =
        Triple-bind (λ now s. Well w s.trace) _ _ (carried w _ (Extends-now_ms d (λ ms. tt)))
          λ now.
            Triple-if (leb_ℤ now p.deadline)
              (wait_round d p w >>= after_step d p.control (wait_loop d fuel p))
              (raise (transient "successor readiness timed out; predecessor preserved"))
              (λ t.
                Triple-bind Fine _ _ (wait_round-Fine w)
                  λ step. after_step-Good (wait_loop d fuel p) step (wait_loop-Good fuel))
              (λ f. Triple-raise _ (λ s q. tt))

    pub or_out_of_fuel-Good :
        (found : Option Record)
        → Triple (Good found) (or_out_of_fuel d found) (λ state. Good (some state)) (λ s. Unit)
    unfolding or_out_of_fuel
    or_out_of_fuel-Good none = Triple-raise _ (λ s q. tt)
    or_out_of_fuel-Good (some state) = Triple-pure _ (λ s q. q)
