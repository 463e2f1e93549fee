-- ===== src/Daemon/Readiness/Progress.antt =====
-- The waiting loop of daemon.py ends: each round that does not return sleeps for a second or more, so
-- the deadline passes.
use cloud_glider.Prelude.{
  ℕ, zero, suc, ◌+◌, ◌≡◌, ◌∙◌, sym, subst, arith, ◌≢◌, ◌≤◌, ◌*◌, String, Bool, true, false, Option,
  none, some, [], ◌∷◌, if◌then◌else◌,
}
use cloud_glider.Prelude.Int.{ℤ, pos, leb_ℤ, ◌≤ℤ◌, ◌<ℤ◌}
use cloud_glider.Python.Result.{Failure, Result, ok, err, ok_inj}
use cloud_glider.Python.Exec.{Exec, pure, raise, lift, ◌>>=◌}
use cloud_glider.Python.Value.{Record}
use cloud_glider.Daemon.Gateway.{Stack, Gateway}
use cloud_glider.Daemon.Session.{now_ms, Event, Session, Daemon, call, now_seconds, sleep}
use cloud_glider.Daemon.Provision.{describe_stack, renew}
use cloud_glider.Daemon.Heartbeat.{int_item, Waiting, Step, ready, waiting}
use cloud_glider.Python.Hoare.{
  Ends, Triple, Triple-pure, Triple-raise, Triple-lift, Triple-if, Triple-bind, Triple-pre,
  Triple-mono,
}
use cloud_glider.Daemon.Readiness.{
  Wait, known_instance, judge, judge_found, observe_successor, check_stack, wait_round, after_step,
  wait_loop, read_generation_state,
}

-- The clock never goes back under the calls that the loop makes, and a sleep takes as long as it says.
pub record IsSteady {W : Type 0} (g : Gateway W) : Type 0 where
  pub on_read : (w : W) → (g.clock w).0 ≤ (g.clock (g.clock w).1).0
  pub on_renew :
      (owner : String) (expires : ℤ) (w : W)
      → (g.clock w).0 ≤ (g.clock (g.renew_lease owner expires w).1).0
  pub on_describe : (id : String) (w : W) → (g.clock w).0 ≤ (g.clock (g.describe_stack id w).1).0
  pub on_instance : (id : String) (w : W) → (g.clock w).0 ≤ (g.clock (g.stack_instance_id id w).1).0
  pub on_state :
      (generation : String) (w : W)
      → (g.clock w).0 ≤ (g.clock (g.read_generation_state generation w).1).0
  pub on_sleep : (n : ℕ) (w : W) → (g.clock w).0 + n * 1000 ≤ (g.clock (g.sleep (pos n) w)).0

module _ {W : Type 0} (d : Daemon W) (steady : IsSteady d.gateway) where
  open d use {gateway}

  abbrev time : Session W → ℕ
  time s = (gateway.clock s.world).0

  abbrev Since : ℕ → Session W → Type 0
  Since t s = t ≤ time s

  -- A step that takes no time back.
  abbrev Forward : {A : Type 0} → ℕ → Exec (Session W) A → Type 0
  Forward t m = Triple (Since t) m (λ a. Since t) (Since t)

  call-Forward :
      {A : Type 0} (t : ℕ) (event : Result A → Event) (op : Exec W A)
      → ((w : W) → (gateway.clock w).0 ≤ (gateway.clock (op w).1).0)
      → Forward t (call event op)
  unfolding call
  call-Forward t event op h = record {
    at = λ s p. anyway (op s.world).0 _ (omega (arith, h s.world));
  }
    where
      anyway :
          {A : Type 0} (r : Result A) (s : Session W)
          → Since t s
          → Ends (λ a. Since t) (Since t) r s
      anyway (ok a) s p = p
      anyway (err e) s p = p

  now_seconds-Forward : (t : ℕ) → Forward t (now_seconds d)
  unfolding now_seconds
  now_seconds-Forward t = record { at = λ s p. omega (arith, steady.on_read s.world) }

  bind-Forward :
      {A B : Type 0} (t : ℕ) (m : Exec (Session W) A) (f : A → Exec (Session W) B)
      → Forward t m
      → ((a : A) → Forward t (f a))
      → Forward t (m >>= f)
  bind-Forward t m f hm hf = Triple-bind (λ a. Since t) m f hm hf

  lift-Forward : {A : Type 0} (t : ℕ) (r : Result A) → Forward t (lift r)
  lift-Forward t r = Triple-lift r (λ a e s p. p) (λ s p. p)

  pure-Forward : {A : Type 0} (t : ℕ) (a : A) → Forward t (pure a)
  pure-Forward t a = Triple-pure a (λ s p. p)

  raise-Forward : {A : Type 0} (t : ℕ) (e : Failure) → Forward t (raise {A = A} e)
  raise-Forward t e = Triple-raise e (λ s p. p)

  if-Forward :
      {A : Type 0} (t : ℕ) (b : Bool) (m n : Exec (Session W) A)
      → Forward t m
      → Forward t n
      → Forward t (if b then m else n)
  if-Forward t true m n hm hn = hm
  if-Forward t false m n hm hn = hn

  ruleset forward_rules = (
    call-Forward, now_seconds-Forward, bind-Forward, lift-Forward, pure-Forward, raise-Forward,
    if-Forward,
  )

  known_instance-Forward :
      (t : ℕ) (id : String) (known : Option String) → Forward t (known_instance d id known)
  unfolding known_instance
  known_instance-Forward t id none = call-Forward t _ _ (steady.on_instance id)
  known_instance-Forward t id (some known) =
      if-Forward t _ _ _ (call-Forward t _ _ (steady.on_instance id)) (pure-Forward t known)

  judge-Forward :
      (t : ℕ) (p : Wait) (w : Waiting) (id : String) (state : Record)
      → Forward t (judge d p w id state)
  unfolding judge
  judge-Forward t p w id state = bind-Forward t _ _ (now_seconds-Forward t) λ now.
      bind-Forward t _ _ (lift-Forward t _)
        λ good. if-Forward t good _ _ (lift-Forward t _) (pure-Forward t _)

  judge_found-Forward :
      (t : ℕ) (p : Wait) (w : Waiting) (id : String) (state : Option Record)
      → Forward t (judge_found d p w id state)
  unfolding judge_found
  judge_found-Forward t p w id none = pure-Forward t _
  judge_found-Forward t p w id (some []) = pure-Forward t _
  judge_found-Forward t p w id (some (entry ∷ state)) = judge-Forward t p w id (entry ∷ state)

  check_stack-Forward :
      (t : ℕ) (p : Wait) (w : Waiting) (stack : Option Stack) → Forward t (check_stack d p w stack)
  unfolding check_stack observe_successor read_generation_state
  check_stack-Forward t p w none = raise-Forward t _
  check_stack-Forward t p w (some stack) = if-Forward t _ _ _ (raise-Forward t _) (
      if-Forward t _ _ _
        (bind-Forward t _ _ (known_instance-Forward t _ _) λ id.
          bind-Forward t _ _ (call-Forward t _ _ (steady.on_state _))
            λ state. judge_found-Forward t p _ id state)
        (pure-Forward t _))

  wait_round-Forward : (t : ℕ) (p : Wait) (w : Waiting) → Forward t (wait_round d p w)
  unfolding wait_round renew describe_stack
  wait_round-Forward t p w =
      bind-Forward t _ _
        (bind-Forward t _ _ (lift-Forward t _) λ duration.
          bind-Forward t _ _ (now_seconds-Forward t)
            λ now. call-Forward t _ _ (steady.on_renew _ _))
        λ u.
          bind-Forward t _ _ (call-Forward t _ _ (steady.on_describe _))
            λ stack. check_stack-Forward t p w stack

  abbrev pub Found : Option Record → Session W → Type 0
  Found none s = ⊥
  Found (some state) s = Unit

  after_step-Found :
      (t n : ℕ) (control : Record) (again : Waiting → Exec (Session W) (Option Record))
      (step : Step)
      → int_item control "readiness_poll_seconds" ≡ ok (pos (suc n))
      → ((w : Waiting) → Triple (Since (t + 1000)) (again w) Found (λ s. Unit))
      → Triple (Since t) (after_step d control again step) Found (λ s. Unit)
  unfolding after_step sleep
  after_step-Found t n control again (ready state) poll h = Triple-pure _ (λ s p. tt)
  after_step-Found t n control again (waiting w) poll h =
      Triple-bind (λ seconds s. Since t s × (seconds ≡ pos (suc n))) _ _
        (Triple-lift _ (λ a e s p. (p, ok_inj (sym e ∙ poll))) (λ s p. tt))
        λ seconds. Triple-bind (λ u. Since (t + 1000)) _ _ (slept_long seconds) λ u. h w
    where
      slept_long :
          (seconds : ℤ)
          → Triple
              (λ s. Since t s × (seconds ≡ pos (suc n)))
              (sleep d seconds)
              (λ u. Since (t + 1000))
              (λ s. Unit)
      slept_long seconds = record {
        at = λ s p. rw p.1 (omega (arith, steady.on_sleep (suc n) s.world));
      }

  now_ms-Since :
      (t : ℕ) → Triple (Since t) (now_ms d) (λ now s. (pos t ≤ℤ now) × Since t s) (λ s. Unit)
  unfolding now_ms
  now_ms-Since t = record { at = λ s p. (omega arith, omega (arith, steady.on_read s.world)) }

  -- A round that starts late enough is the last one.
  wait_loop-Found :
      (f t : ℕ) (p : Wait) (w : Waiting) (n : ℕ)
      → int_item p.control "readiness_poll_seconds" ≡ ok (pos (suc n))
      → p.deadline <ℤ pos (t + f * 1000)
      → Triple (Since t) (wait_loop d (suc f) p w) Found (λ s. Unit)
  unfolding wait_loop
  wait_loop-Found zero t p w n poll late =
      Triple-bind _ _ _ (now_ms-Since t)
        λ now. record { at = λ s q. rw (past now q.0) (unfold raise in tt) }
    where
      past : (now : ℤ) → pos t ≤ℤ now → leb_ℤ now p.deadline ≡ false
      past now h = ground arith
  wait_loop-Found (suc f) t p w n poll late = Triple-bind _ _ _ (now_ms-Since t) λ now.
      Triple-if (leb_ℤ now p.deadline) _ _
        (λ e.
          Triple-bind (λ step. Since t) _ _ (round_on now w)
            λ step.
              after_step-Found t n p.control (wait_loop d (suc f) p) step poll
                λ v. wait_loop-Found f (t + 1000) p v n poll (omega arith))
        (λ e. Triple-raise _ (λ s q. tt))
    where
      round_on :
          (now : ℤ) (v : Waiting)
          → Triple
              (λ s. (pos t ≤ℤ now) × Since t s)
              (wait_round d p v)
              (λ step. Since t)
              (λ s. Unit)
      round_on now v =
          Triple-pre (λ s q. q.1)
            (Triple-mono (wait_round-Forward t p v) (λ step s q. q) (λ s q. tt))

  -- If the poll interval is a second or more, and the fuel has a round for each second from now to past
  -- the deadline and one more, the waiting loop never runs out of fuel: it returns the state of a
  -- successor or raises.
  pub wait_loop-ends :
      (f : ℕ) (p : Wait) (w : Waiting) (n : ℕ) (s : Session W)
      → int_item p.control "readiness_poll_seconds" ≡ ok (pos (suc n))
      → p.deadline <ℤ pos (time s + f * 1000)
      → (wait_loop d (suc f) p w s).0 ≢ ok none
  wait_loop-ends f p w n s poll late e =
      let (r, s') = wait_loop d (suc f) p w s in
      none_left r s' e ((wait_loop-Found f (time s) p w n poll late).at s (omega arith))
    where
      none_left :
          (r : Result (Option Record)) (s' : Session W)
          → r ≡ ok none
          → ¬ Ends Found (λ s. Unit) r s'
      none_left r s' e' h = subst (λ v. Ends Found (λ s. Unit) v s') e' h
