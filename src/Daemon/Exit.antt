-- ===== src/Daemon/Exit.antt =====
-- How a run of daemon.py ends: with which exit status, and after what.
pub mod Reads
use cloud_glider.Prelude.{
  [], ◌∙◌, ℕ, zero, suc, ◌≡◌, refl, String, Bool, true, false, Option, none, some, List, ◌∷◌,
}
use cloud_glider.Prelude.Int.{ℤ, leb_ℤ}
use cloud_glider.Python.Result.{Result, ok, err}
use cloud_glider.Python.Value.{Record}
use cloud_glider.Daemon.Config.{generation_number}
use cloud_glider.Daemon.Control.{validated_control}
use cloud_glider.Python.Exec.{Exec, lift, ◌>>=◌}
use cloud_glider.Daemon.Trace.{Extension, same, more, Extends, extends_rules}
use cloud_glider.Daemon.Provision.{read_control_and_hold}
use cloud_glider.Daemon.Identity.{is_current_owner, read_current, heartbeat}
use cloud_glider.Daemon.Session.{
  control_read, current_read, Event, hold_invoked, logged, Session, Daemon, log,
}
use cloud_glider.Daemon.Heartbeat.{int_item}
use cloud_glider.Daemon.Cycle.{set_poll, Outcome, max_generation_reached, cycle}
use cloud_glider.Prelude.{arith, subst}
use cloud_glider.Prelude.Int.{◌≤ℤ◌}
use cloud_glider.Daemon.Calls.{Triple-call}
use cloud_glider.Daemon.Gives.{
  Any, Gives, whatever, bind-Gives, if-Gives, pure-Gives, finally-Gives,
}
use cloud_glider.Python.Hoare.{
  Ends, Triple, Triple-pre, Triple-lift, Triple-modify, Triple-pure, Triple-if, Triple-bind,
  Triple-mono, Triple-catch_transient, Triple-catch_safety,
}
use cloud_glider.Daemon.Cycle.{
  propagate, as_owner, with_lease, take_lease, owner_round, owner_cycle,
}
use cloud_glider.Daemon.Run.{is_new, is_limit, attempt, run_loop, stop_with_hold, run}
use cloud_glider.Daemon.Exit.Reads.{
  last_control, last_current, IsMute, mute-last_control, mute-last_current, Extension-last_control,
  Extension-last_current, kept, lifted,
}

module _ {W : Type 0} (d : Daemon W) where
  open d use {config, gateway}

  -- The last read of CURRENT found that the daemon owns the chain, and the control record that was last read
  -- is valid and sets a limit that this generation has reached.
  pub record IsAtLimit (trace : List Event) : Type 0 where
    pub raw : Record
    pub hold : Bool
    pub owner : Record
    pub control : Record
    pub number : ℤ
    pub limit : ℤ
    pub control_was : last_control trace ≡ some (raw, hold)
    pub current_was : last_current trace ≡ some owner
    pub owns : is_current_owner d owner ≡ true
    pub valid : validated_control config raw ≡ ok control
    pub number_is : generation_number config ≡ ok number
    pub limit_is : int_item control "max_generation" ≡ ok limit
    pub reached : limit ≤ℤ number

  -- How a run ended, given its trace, newest event first.
  pub data IsExit : Option ℕ → List Event → Type 0 where
    polling : (trace : List Event) → IsExit none trace
    at_limit : (trace : List Event) → IsAtLimit trace → IsExit (some 0) trace
    held :
        (code : String) (past : List Event)
        → IsExit (some 2) (
            hold_invoked config.generation code (ok tt) ∷ logged "terminal_safety_violation" ∷ past)

  abbrev Limited : Outcome → Session W → Type 0
  Limited max_generation_reached s = IsAtLimit s.trace
  Limited outcome s = Unit

  -- An outcome that is not the limit.
  abbrev IsOther : Outcome → Type 0
  IsOther max_generation_reached = ⊥
  IsOther outcome = Unit

  other-Limited : (outcome : Outcome) (s : Session W) → IsOther outcome → Limited outcome s
  other-Limited max_generation_reached s h = absurd h
  other-Limited outcome s h = tt

  propagate-IsOther : (fuel : ℕ) (control : Record) → Gives (propagate d fuel control) IsOther
  unfolding propagate
  propagate-IsOther fuel control =
      bind-Gives (λ n. Unit) _ _ (whatever _)
        λ made u.
          bind-Gives (λ n. Unit) _ _ (whatever _)
            λ state u.
              bind-Gives (λ n. Unit) _ _ (whatever _)
                λ t u. bind-Gives (λ n. Unit) _ _ (whatever _) λ t' u. pure-Gives _ tt

  as_owner-IsOther : (fuel : ℕ) (control : Record) → Gives (as_owner d fuel control) IsOther
  unfolding as_owner
  as_owner-IsOther fuel control =
      bind-Gives (λ n. Unit) _ _ (whatever _)
        λ current u. if-Gives _ _ _ (propagate-IsOther fuel control) (pure-Gives _ tt)

  with_lease-IsOther :
      (fuel : ℕ) (control : Record) (acquired : Bool)
      → Gives (with_lease d fuel control acquired) IsOther
  unfolding with_lease
  with_lease-IsOther fuel control true = finally-Gives IsOther _ _ (as_owner-IsOther fuel control)
  with_lease-IsOther fuel control false = pure-Gives _ tt

  owner_round-IsOther :
      (fuel : ℕ) (control : Record) (hold : Bool) → Gives (owner_round d fuel control hold) IsOther
  unfolding owner_round take_lease
  owner_round-IsOther fuel control hold =
      bind-Gives (λ n. Unit) _ _ (whatever _)
        λ switch u.
          if-Gives _ _ _
            (bind-Gives (λ n. Unit) _ _ (whatever _)
              λ poll u. bind-Gives (λ n. Unit) _ _ (whatever _) λ v u. pure-Gives _ tt)
            (bind-Gives (λ n. Unit) _ _ (whatever _)
              λ duration u.
                bind-Gives (λ n. Unit) _ _ (whatever _)
                  λ now u.
                    bind-Gives (λ n. Unit) _ _ (whatever _)
                      λ acquired u. with_lease-IsOther fuel control acquired)

  -- What the reads of a cycle returned.
  record HasRead (raw : Record) (hold : Bool) (owner : Record) (s : Session W) : Type 0 where
    control_was : last_control s.trace ≡ some (raw, hold)
    current_was : last_current s.trace ≡ some owner

  owner_cycle-Limited :
      (fuel : ℕ) (raw control owner : Record) (hold : Bool)
      → validated_control config raw ≡ ok control
      → is_current_owner d owner ≡ true
      → Triple (HasRead raw hold owner) (owner_cycle d fuel control hold) Limited Any
  unfolding owner_cycle
  owner_cycle-Limited fuel raw control owner hold valid owns =
      lifted (generation_number config) λ number number_is.
        lifted (int_item control "max_generation") λ limit limit_is.
          Triple-if (leb_ℤ limit number) _ _
            (λ e. Triple-pure _ (λ s p. record {
              raw = raw;
              hold = hold;
              owner = owner;
              control = control;
              number = number;
              limit = limit;
              control_was = p.control_was;
              current_was = p.current_was;
              owns = owns;
              valid = valid;
              number_is = number_is;
              limit_is = limit_is;
              reached = ground arith;
            }))
            (λ e.
              Triple-pre (λ s p. tt)
                (Triple-mono (owner_round-IsOther fuel control hold) other-Limited (λ s p. tt)))

  heartbeat-IsMute :
      (control : Record) (hold : Bool) (current : Record)
      → Extends IsMute (heartbeat d control hold current)
  unfolding heartbeat
  heartbeat-IsMute control hold current = search (extends_rules) depth 12

  heartbeat-HasRead :
      (raw control current : Record) (hold seen : Bool)
      → Triple
          (HasRead raw hold current)
          (heartbeat d control seen current)
          (λ u. HasRead raw hold current)
          Any
  heartbeat-HasRead raw control current hold seen = record {
    at = λ s p.
        kept (HasRead raw hold current) (heartbeat d control seen current s).0
          (heartbeat d control seen current s).1
          (record {
            control_was =
                Extension-last_control ((heartbeat-IsMute control seen current).at s)
                ∙ p.control_was;
            current_was =
                Extension-last_current ((heartbeat-IsMute control seen current).at s)
                ∙ p.current_was;
          });
  }

  -- The last read of the control record returned this.
  abbrev HasControl : Record × Bool → Session W → Type 0
  HasControl reading s = last_control s.trace ≡ some reading

  abbrev control_end :
      (s : Session W) (r : Result (Record × Bool)) (w : W)
      → Ends HasControl (Any {W = W}) r (record s { world = w; trace = control_read r ∷ s.trace })
  control_end s (ok reading) w = refl
  control_end s (err e) w = tt

  abbrev current_end :
      (raw : Record) (hold : Bool) (s : Session W)
      → HasControl (raw, hold) s
      → (r : Result Record) (w : W)
      → Ends
          (HasRead raw hold)
          (Any {W = W})
          r
          (record s { world = w; trace = current_read r ∷ s.trace })
  current_end raw hold s p (ok current) w = record { control_was = p; current_was = refl }
  current_end raw hold s p (err e) w = tt

  cycle-Limited : (fuel : ℕ) → Triple Any (cycle d fuel) Limited Any
  unfolding cycle read_control_and_hold read_current set_poll
  cycle-Limited fuel =
      Triple-bind (λ u. Any) _ _ (whatever _)
        λ u. Triple-bind HasControl _ _ (Triple-call _ _ (λ s p r w. control_end s r w)) λ reading.
          lifted (validated_control config reading.0) λ control valid.
            lifted (int_item control "heartbeat_interval_seconds") λ interval e.
              Triple-bind (λ v. HasControl reading) _ _ (Triple-modify _ _ (λ s p. p))
                λ v.
                  Triple-bind (HasRead reading.0 reading.1) _ _
                    (Triple-call _ _ (λ s p r w. current_end reading.0 reading.1 s p r w))
                    λ current.
                      Triple-bind (λ v. HasRead reading.0 reading.1 current) _ _
                        (heartbeat-HasRead reading.0 control current reading.1 reading.1)
                        λ v.
                          Triple-if (is_current_owner d current) _ _
                            (owner_cycle-Limited fuel reading.0 control current reading.1 valid)
                            (λ f. Triple-pure _ (λ s p. tt))

  abbrev Tried : Option Outcome → Session W → Type 0
  Tried none s = Unit
  Tried (some outcome) s = Limited outcome s

  muted : (e : Event) (past : List Event) → IsMute e → IsAtLimit past → IsAtLimit (e ∷ past)
  muted e past h l = record {
    raw = l.raw;
    hold = l.hold;
    owner = l.owner;
    control = l.control;
    number = l.number;
    limit = l.limit;
    control_was = mute-last_control e past h ∙ l.control_was;
    current_was = mute-last_current e past h ∙ l.current_was;
    owns = l.owns;
    valid = l.valid;
    number_is = l.number_is;
    limit_is = l.limit_is;
    reached = l.reached;
  }

  log-Limited :
      (name : String) (outcome : Outcome)
      → Triple (Limited outcome) (log name) (λ u. Limited outcome) Any
  unfolding log
  log-Limited name max_generation_reached = record { at = λ s l. muted (logged name) s.trace tt l }
  log-Limited name outcome = record { at = λ s l. other_kept outcome s l }
    where
      other_kept :
          (o : Outcome) (s : Session W)
          → Limited o s
          → Limited o (record s { trace = logged name ∷ s.trace })
      other_kept max_generation_reached s l = muted (logged name) s.trace tt l
      other_kept outcome s l = tt

  attempt-Tried :
      (fuel : ℕ) (previous : Option Outcome) → Triple Any (attempt d fuel previous) Tried Any
  unfolding attempt
  attempt-Tried fuel previous =
      Triple-catch_transient _ _
        (Triple-bind Limited _ _ (cycle-Limited fuel) λ outcome.
          Triple-bind (λ v. Limited outcome) _ _
            (Triple-if (is_new outcome previous) _ _ (λ e. log-Limited _ outcome)
              (λ e. Triple-pure tt (λ s p. p)))
            λ v. Triple-pure _ (λ s p. p))
        λ message. Triple-bind (λ v. Any) _ _ (whatever _) λ v. Triple-pure none (λ s p. tt)

  is_limit-IsAtLimit :
      (result : Option Outcome) (s : Session W)
      → is_limit result ≡ true
      → Tried result s
      → IsAtLimit s.trace
  is_limit-IsAtLimit none s e h = cc
  is_limit-IsAtLimit (some max_generation_reached) s e h = h
  is_limit-IsAtLimit (some outcome) s e h = absurd (ground arith)

  -- What the loop may return.
  abbrev Looped : Option ℕ → Session W → Type 0
  Looped none s = Unit
  Looped (some zero) s = IsAtLimit s.trace
  Looped (some (suc n)) s = ⊥

  run_loop-Looped :
      (fuel cycles : ℕ) (previous : Option Outcome)
      → Triple Any (run_loop d fuel cycles previous) Looped Any
  unfolding run_loop
  run_loop-Looped fuel zero previous = Triple-pure _ (λ s p. tt)
  run_loop-Looped fuel (suc cycles) previous =
      Triple-bind Tried _ _ (attempt-Tried fuel previous) λ result.
        Triple-if (is_limit result) _ _
          (λ e. Triple-pure (some 0) (λ s h. is_limit-IsAtLimit result s e h))
          (λ e.
            Triple-pre (λ s p. tt)
              (Triple-bind (λ v. Any) _ _ (whatever _) λ v. run_loop-Looped fuel cycles result))

  Looped-IsExit : (r : Option ℕ) (s : Session W) → Looped r s → IsExit r s.trace
  Looped-IsExit none s h = polling s.trace
  Looped-IsExit (some zero) s h = at_limit s.trace h
  Looped-IsExit (some (suc n)) s h = absurd h

  log-Logged :
      (name : String)
      → Triple Any
          (log {W = W} name)
          (λ u s. (past : List Event) × (s.trace ≡ logged name ∷ past))
          Any
  unfolding log
  log-Logged name = record { at = λ s p. (s.trace, refl) }

  stop_with_hold-IsExit :
      (code : String) → Triple Any (stop_with_hold d code) (λ r s. IsExit r s.trace) Any
  unfolding stop_with_hold
  stop_with_hold-IsExit code = Triple-bind _ _ _ (log-Logged _) λ u.
      Triple-bind (λ v s. IsExit (some 2) s.trace) _ _
        (Triple-call _ _ λ s p r w. on_reply r s w p.0 p.1) λ v. Triple-pure _ (λ s p. p)
    where
      on_reply :
          (r : Result (Unit {0})) (s : Session W) (w : W) (past : List Event)
          → s.trace ≡ logged "terminal_safety_violation" ∷ past
          → Ends
              (λ v s'. IsExit (some 2) s'.trace)
              (Any {W = W})
              r
              (record s { world = w; trace = hold_invoked config.generation code r ∷ s.trace })
      on_reply (ok tt) s w past e = rw e (held code past)
      on_reply (err f) s w past e = tt

  run-Exits : (fuel cycles : ℕ) → Triple Any (run d fuel cycles) (λ r s. IsExit r s.trace) Any
  unfolding run
  run-Exits fuel cycles =
      Triple-catch_safety _ _
        (Triple-mono
          (Triple-bind (λ n. Any) _ _ (whatever _)
            λ v. Triple-bind (λ n. Any) _ _ (whatever _) λ v'. run_loop-Looped fuel cycles none)
          Looped-IsExit (λ s q. tt))
        stop_with_hold-IsExit

  -- A run that returns has either used up its cycles and would still be polling, or it returns 0, the last read
  -- of CURRENT in its trace found the daemon to own the chain, and the control record that its trace shows as
  -- last read is valid and sets a generation limit that the daemon's own generation has reached, or it returns 2 and its last two steps were to log the violation and to invoke the hold function with
  -- its own generation, which succeeded.
  pub run-IsExit :
      (fuel cycles : ℕ) (s : Session W) (r : Option ℕ)
      → (run d fuel cycles s).0 ≡ ok r
      → IsExit r (run d fuel cycles s).1.trace
  run-IsExit fuel cycles s r e =
      let (result, s') = run d fuel cycles s in
      subst (λ v. Ends (λ r' s''. IsExit r' s''.trace) Any v s') e ((run-Exits fuel cycles).at s tt)
