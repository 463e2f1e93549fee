-- ===== src/Ec2/Progress.antt =====
-- The waiting loop of ec2_daemon.py ends: each round that does not return sleeps for a second or more, so
-- the deadline passes.
use cloud_glider.Python.Exec.{Exec, pure, raise, lift, ◌>>=◌}
use cloud_glider.Ec2.Session.{
  Instance, Specification, Gateway, Event, Session, Ec2Daemon, call, now_seconds, now_ms, sleep,
}
use cloud_glider.Ec2.Ownership.{
  renew, read_control_and_hold, fresh_enabled_control, unchanged_control, describe_instance,
}
use cloud_glider.Ec2.Handoff.{
  young_proof, eligible_functional_readiness, verify_successor, read_generation_state, judge,
  wait_round, after_round, wait_loop,
}
use cloud_glider.Python.Hoare.{
  Ends, Triple, Triple-pure, Triple-raise, Triple-lift, Triple-if, Triple-bind, Triple-pre,
  Triple-mono,
}
use cloud_glider.Prelude.{
  ℕ, zero, suc, ◌+◌, ◌≡◌, ◌∙◌, sym, subst, arith, ◌≢◌, ◌≤◌, ◌*◌, String, Bool, true, false, Option,
  none, some, [], ◌∷◌, if◌then◌else◌,
}
use cloud_glider.Prelude.Int.{ℤ, pos, leb_ℤ, ◌≤ℤ◌, ◌<ℤ◌}
use cloud_glider.Python.Result.{Failure, Result, ok, err, ok_inj}
use cloud_glider.Python.Value.{Record}
use cloud_glider.Daemon.Heartbeat.{int_item}

-- The clock never goes back under the calls that the loop makes, and a sleep takes as long as it says.
pub record IsSteady {W : Type 0} (g : Gateway W) : Type 0 where
  pub on_clock : (w : W) → (g.clock w).0 ≤ (g.clock (g.clock w).1).0
  pub on_renew :
      (owner : String) (expires : ℤ) (w : W)
      → (g.clock w).0 ≤ (g.clock (g.renew_lease owner expires w).1).0
  pub on_control : (w : W) → (g.clock w).0 ≤ (g.clock (g.read_control_and_hold w).1).0
  pub on_describe : (id : String) (w : W) → (g.clock w).0 ≤ (g.clock (g.describe_instance id w).1).0
  pub on_verify :
      (instance : Instance) (spec : Specification) (w : W)
      → (g.clock w).0 ≤ (g.clock (g.verify_instance instance spec w).1).0
  pub on_state :
      (generation : String) (w : W)
      → (g.clock w).0 ≤ (g.clock (g.read_generation_state generation w).1).0
  pub on_sleep : (n : ℕ) (w : W) → (g.clock w).0 + n * 1000 ≤ (g.clock (g.sleep (pos n) w)).0

module _ {W : Type 0} (d : Ec2Daemon W) (steady : IsSteady d.gateway) where
  open d use {gateway}

  abbrev time : Session W → ℕ
  time s = (gateway.clock s.world).0

  abbrev Since : ℕ → Session W → Type 0
  Since t s = t ≤ time s

  -- A step that takes no time back.
  abbrev Forward : {A : Type 0} → ℕ → Exec (Session W) A → Type 0
  Forward t m = Triple (Since t) m (λ a. Since t) (Since t)

  call-Forward :
      {A : Type 0} (t : ℕ) (event : Result A → Event) (op : Exec W A)
      → ((w : W) → (gateway.clock w).0 ≤ (gateway.clock (op w).1).0)
      → Forward t (call event op)
  unfolding call
  call-Forward t event op h = record {
    at = λ s p. anyway (op s.world).0 _ (omega (arith, h s.world));
  }
    where
      anyway :
          {A : Type 0} (r : Result A) (s : Session W)
          → Since t s
          → Ends (λ a. Since t) (Since t) r s
      anyway (ok a) s p = p
      anyway (err e) s p = p

  now_seconds-Forward : (t : ℕ) → Forward t (now_seconds d)
  unfolding now_seconds
  now_seconds-Forward t = record { at = λ s p. omega (arith, steady.on_clock s.world) }

  bind-Forward :
      {A B : Type 0} (t : ℕ) (m : Exec (Session W) A) (f : A → Exec (Session W) B)
      → Forward t m
      → ((a : A) → Forward t (f a))
      → Forward t (m >>= f)
  bind-Forward t m f hm hf = Triple-bind (λ a. Since t) m f hm hf

  lift-Forward : {A : Type 0} (t : ℕ) (r : Result A) → Forward t (lift r)
  lift-Forward t r = Triple-lift r (λ a e s p. p) (λ s p. p)

  pure-Forward : {A : Type 0} (t : ℕ) (a : A) → Forward t (pure a)
  pure-Forward t a = Triple-pure a (λ s p. p)

  raise-Forward : {A : Type 0} (t : ℕ) (e : Failure) → Forward t (raise {A = A} e)
  raise-Forward t e = Triple-raise e (λ s p. p)

  if-Forward :
      {A : Type 0} (t : ℕ) (b : Bool) (m n : Exec (Session W) A)
      → Forward t m
      → Forward t n
      → Forward t (if b then m else n)
  if-Forward t true m n hm hn = hm
  if-Forward t false m n hm hn = hn

  unchanged_control-Forward :
      (t : ℕ) (control : Record) (message : String)
      → Forward t (unchanged_control d control message)
  unfolding unchanged_control fresh_enabled_control read_control_and_hold
  unchanged_control-Forward t control message =
      bind-Forward t _ _
        (bind-Forward t _ _ (call-Forward t _ _ steady.on_control) λ reading. lift-Forward t _)
        λ fresh. bind-Forward t _ _ (lift-Forward t _) λ changed.
          bind-Forward t _ _ (if-Forward t _ _ _ (raise-Forward t _) (pure-Forward t tt))
            λ u. pure-Forward t fresh

  renew-Forward : (t : ℕ) (control : Record) → Forward t (renew d control)
  unfolding renew
  renew-Forward t control = bind-Forward t _ _ (lift-Forward t _) λ duration.
      bind-Forward t _ _ (now_seconds-Forward t) λ now. call-Forward t _ _ (steady.on_renew _ _)

  young_proof-Forward : (t : ℕ) (timestamp : Option ℤ) → Forward t (young_proof d timestamp)
  unfolding young_proof now_ms
  young_proof-Forward t none = pure-Forward t false
  young_proof-Forward t (some timestamp) =
      bind-Forward t _ _ (record { at = λ s p. omega (arith, steady.on_clock s.world) })
        λ now. pure-Forward t _

  judge-Forward :
      (t : ℕ) (control : Record) (spec : Specification) (id : String) (found : Option Record)
      → Forward t (judge d control spec id found)
  unfolding judge eligible_functional_readiness
  judge-Forward t control spec id none = pure-Forward t none
  judge-Forward t control spec id (some []) = pure-Forward t none
  judge-Forward t control spec id (some (entry ∷ state)) =
      bind-Forward t _ _
        (bind-Forward t _ _ (lift-Forward t _) λ timestamp. young_proof-Forward t timestamp)
        λ ready. pure-Forward t _

  wait_round-Forward :
      (t : ℕ) (control : Record) (spec : Specification) (id : String)
      → Forward t (wait_round d control spec id)
  unfolding wait_round describe_instance verify_successor read_generation_state
  wait_round-Forward t control spec id = bind-Forward t _ _ (renew-Forward t control) λ u.
      bind-Forward t _ _ (unchanged_control-Forward t control _) λ fresh.
        bind-Forward t _ _ (call-Forward t _ _ (steady.on_describe id)) λ found.
          bind-Forward t _ _ (lift-Forward t _) λ instance.
            bind-Forward t _ _ (lift-Forward t _) λ name.
              bind-Forward t _ _ (if-Forward t _ _ _ (raise-Forward t _) (pure-Forward t tt)) λ v.
                bind-Forward t _ _ (call-Forward t _ _ (steady.on_verify instance spec)) λ x.
                  bind-Forward t _ _ (call-Forward t _ _ (steady.on_state _)) λ state.
                    if-Forward t _ _ _ (judge-Forward t control spec id state) (pure-Forward t none)

  abbrev pub Found : Option Record → Session W → Type 0
  Found none s = ⊥
  Found (some state) s = Unit

  after_round-Found :
      (t n : ℕ) (control : Record) (again : Exec (Session W) (Option Record))
      (found : Option Record)
      → int_item control "readiness_poll_seconds" ≡ ok (pos (suc n))
      → Triple (Since (t + 1000)) again Found (λ s. Unit)
      → Triple (Since t) (after_round d control again found) Found (λ s. Unit)
  unfolding after_round sleep
  after_round-Found t n control again (some state) poll h = Triple-pure _ (λ s p. tt)
  after_round-Found t n control again none poll h =
      Triple-bind (λ seconds s. Since t s × (seconds ≡ pos (suc n))) _ _
        (Triple-lift _ (λ a e s p. (p, ok_inj (sym e ∙ poll))) (λ s p. tt))
        λ seconds. Triple-bind (λ u. Since (t + 1000)) _ _ (slept_long seconds) λ u. h
    where
      slept_long :
          (seconds : ℤ)
          → Triple
              (λ s. Since t s × (seconds ≡ pos (suc n)))
              (sleep d seconds)
              (λ u. Since (t + 1000))
              (λ s. Unit)
      slept_long seconds = record {
        at = λ s p. rw p.1 (omega (arith, steady.on_sleep (suc n) s.world));
      }

  now_ms-Since :
      (t : ℕ) → Triple (Since t) (now_ms d) (λ now s. (pos t ≤ℤ now) × Since t s) (λ s. Unit)
  unfolding now_ms
  now_ms-Since t = record { at = λ s p. (omega arith, omega (arith, steady.on_clock s.world)) }

  -- A round that starts late enough is the last one.
  wait_loop-Found :
      (f t : ℕ) (control : Record) (spec : Specification) (id : String) (deadline : ℤ) (n : ℕ)
      → int_item control "readiness_poll_seconds" ≡ ok (pos (suc n))
      → deadline <ℤ pos (t + f * 1000)
      → Triple (Since t) (wait_loop d (suc f) control spec id deadline) Found (λ s. Unit)
  unfolding wait_loop
  wait_loop-Found zero t control spec id deadline n poll late =
      Triple-bind _ _ _ (now_ms-Since t)
        λ now. record { at = λ s q. rw (past now q.0) (unfold raise in tt) }
    where
      past : (now : ℤ) → pos t ≤ℤ now → leb_ℤ now deadline ≡ false
      past now h = ground arith
  wait_loop-Found (suc f) t control spec id deadline n poll late =
      Triple-bind _ _ _ (now_ms-Since t) λ now.
        Triple-if (leb_ℤ now deadline) _ _
          (λ e.
            Triple-bind (λ found. Since t) _ _ (round_on now)
              λ found.
                after_round-Found t n control (wait_loop d (suc f) control spec id deadline) found
                  poll (wait_loop-Found f (t + 1000) control spec id deadline n poll (omega arith)))
          (λ e. Triple-raise _ (λ s q. tt))
    where
      round_on :
          (now : ℤ)
          → Triple
              (λ s. (pos t ≤ℤ now) × Since t s)
              (wait_round d control spec id)
              (λ found. Since t)
              (λ s. Unit)
      round_on now =
          Triple-pre (λ s q. q.1)
            (Triple-mono (wait_round-Forward t control spec id) (λ found s q. q) (λ s q. tt))

  -- If the poll interval is a second or more, and the fuel has a round for each second from now to past
  -- the deadline and one more, the waiting loop of the EC2 daemon never runs out of fuel: it returns the
  -- state of a successor or raises.
  pub wait_loop-settles :
      (f : ℕ) (control : Record) (spec : Specification) (id : String) (deadline : ℤ) (n : ℕ)
      (s : Session W)
      → int_item control "readiness_poll_seconds" ≡ ok (pos (suc n))
      → deadline <ℤ pos (time s + f * 1000)
      → (wait_loop d (suc f) control spec id deadline s).0 ≢ ok none
  wait_loop-settles f control spec id deadline n s poll late e =
      let (r, s') = wait_loop d (suc f) control spec id deadline s in
      none_left r s' e
        ((wait_loop-Found f (time s) control spec id deadline n poll late).at s (omega arith))
    where
      none_left :
          (r : Result (Option Record)) (s' : Session W)
          → r ≡ ok none
          → ¬ Ends Found (λ s. Unit) r s'
      none_left r s' e' h = subst (λ v. Ends Found (λ s. Unit) v s') e' h
