-- ===== src/Family/Run/Exit.antt =====
-- How a run of the family daemon goes and ends.
use cloud_glider.Prelude.{String, true, ◌≡◌, refl, Option, none, some, List, ◌∷◌}
use cloud_glider.Python.Result.{ok}
use cloud_glider.Python.Exec.{Exec}
use cloud_glider.Python.Hoare.{Ends}
use cloud_glider.Family.Session.{Event, Session, FamilyDaemon}
use cloud_glider.Family.Cycle.{Outcome}
use cloud_glider.Family.Cycle.{candidate, leaf, waiting_for_child}
use cloud_glider.Prelude.Int.{ℤ}
use cloud_glider.Family.Cycle.Guard.{IsSound, event-IsSound}
use cloud_glider.Family.Cycle.Guard.Rules.{
  Step, Free, Ended, call-Step, bind-Step, pure-Step, if-Step, branch-Step, modify-Step, check-Step,
}
use cloud_glider.Prelude.{ℕ, zero, suc}
use cloud_glider.Python.Exec.{modify, catch_transient}
use cloud_glider.Python.Hoare.{
  Ends, Triple, Triple-mono, Triple-catch_transient, Triple-catch_safety, Triple-pre,
}
use cloud_glider.Family.Cycle.Guard.Rules.{HasStopped, Stopping, observe-Step, stop_children-Step}
use cloud_glider.Family.Cycle.Guard.Whole.{cycle-Step}
use cloud_glider.Family.Session.{start, slept, violated, retired, hold_invoked}
use cloud_glider.Family.Cycle.{
  stopped, retiring, candidate, leaf, waiting_for_parent, waiting_for_child,
  waiting_for_parent_retirement, waiting_for_continuation, stop_children,
}
use cloud_glider.Family.Run.{
  sleep, violate, resume_stop, back_off, attempt, is_last, after_attempt, run_loop, hold, run,
}

module _ {W : Type 0} (d : FamilyDaemon W) where
  open d use {config, gateway}

  -- How a run ended, given its trace, newest event first.
  pub data IsEnd : Option ℕ → List Event → Type 0 where
    polling : (trace : List Event) → IsEnd none trace
    after_stop : (trace : List Event) → HasStopped d trace → IsEnd (some 0) trace
    after_retirement : (older : List Event) → IsEnd (some 0) (retired (ok tt) ∷ older)
    after_hold :
        (code : String) (older : List Event)
        → IsEnd (some 2) (hold_invoked config.generation code (ok tt) ∷ older)

  sleep-Step : {R : List Event → Type 0} (ms : ℤ) → Step d R (sleep d ms) (λ u. Free d)
  unfolding sleep modify
  sleep-Step ms = record {
    triple = record { at = λ s p. (tt, event-IsSound d (slept ms) s _ refl refl tt p.1) };
  }

  violate-Step :
      {R : List Event → Type 0} (code : String) → Step d R (violate d code) (λ u. Stopping d)
  unfolding violate modify
  violate-Step code = record {
    triple = record { at = λ s p. (refl, event-IsSound d (violated code) s _ refl refl tt p.1) };
  }

  resume_stop-Step : Step d (Free d) (resume_stop d) (λ u. Free d)
  unfolding resume_stop
  resume_stop-Step =
      bind-Step d (λ a. Free d) _ _ (observe-Step d _)
        λ exists.
          branch-Step d exists _ _
            (bind-Step d (λ a. Free d) _ _ (observe-Step d _)
              λ persisted.
                bind-Step d (λ a. Free d) _ _ (check-Step d _)
                  λ envelope.
                    bind-Step d (λ a. Free d) _ _ (check-Step d _)
                      λ u. modify-Step d _ (λ s. refl) (λ s. refl))
            (pure-Step d tt (λ past r. tt))

  back_off-Step :
      {R : List Event → Type 0} (poll : ℤ) (failures : ℕ)
      → Step d R (back_off d poll failures) (λ u. Free d)
  unfolding back_off
  back_off-Step {R} poll failures =
      bind-Step d (λ a. R) _ _ (check-Step d _)
        λ backoff. bind-Step d (λ a. R) _ _ (observe-Step d _) λ delay. sleep-Step delay

  catch-Step :
      {A : Type 0} {R : List Event → Type 0} {Q : A → List Event → Type 0} (m : Exec (Session W) A)
      (h : String → Exec (Session W) A)
      → Step d R m Q
      → ((message : String) → Step d (Free d) (h message) Q)
      → Step d R (catch_transient m h) Q
  catch-Step m h hm hh = record {
    triple =
        Triple-catch_transient m h hm.triple
          λ message. Triple-pre (λ s g. (tt, g)) (hh message).triple;
  }

  abbrev Tried : Option Outcome → List Event → Type 0
  Tried none past = Unit
  Tried (some outcome) past = Ended d outcome past

  attempt-Step : Step d (Free d) (attempt d) Tried
  unfolding attempt
  attempt-Step =
      catch-Step _ _
        (bind-Step d (Ended d) _ _ (cycle-Step d) λ outcome. pure-Step d _ (λ past p. p))
        (λ message. pure-Step d _ (λ past r. tt))

  last-IsEnd :
      (outcome : Outcome)
      → is_last d outcome ≡ true
      → (past : List Event) → Ended d outcome past
      → IsEnd (some 0) past
  last-IsEnd stopped e past h = after_stop past h
  last-IsEnd retiring e past h = rw h.1 (after_retirement h.0)
  last-IsEnd candidate e past h = cc
  last-IsEnd leaf e past h = cc
  last-IsEnd waiting_for_parent e past h = cc
  last-IsEnd waiting_for_child e past h = cc
  last-IsEnd waiting_for_parent_retirement e past h = cc
  last-IsEnd waiting_for_continuation e past h = cc

  after_attempt-Step :
      (again : ℕ → Exec (Session W) (Option ℕ)) (poll : ℤ) (failures : ℕ) (outcome : Option Outcome)
      → ((n : ℕ) → Step d (Free d) (again n) IsEnd)
      → Step d (Tried outcome) (after_attempt d again poll failures outcome) IsEnd
  unfolding after_attempt
  after_attempt-Step again poll failures none h =
      bind-Step d (λ u. Free d) _ _ (back_off-Step poll (suc failures)) λ u. h (suc failures)
  after_attempt-Step again poll failures (some outcome) h =
      if-Step d (is_last d outcome) _ _ (λ e. pure-Step d _ (last-IsEnd outcome e))
        (λ e. bind-Step d (λ u. Free d) _ _ (sleep-Step _) λ u. h 0)

  run_loop-Step : (cycles failures : ℕ) → Step d (Free d) (run_loop d cycles failures) IsEnd
  unfolding run_loop
  run_loop-Step zero failures = pure-Step d _ (λ past r. polling past)
  run_loop-Step (suc cycles) failures =
      bind-Step d (λ a. Free d) _ _ (check-Step d _)
        λ poll. bind-Step d Tried _ _ attempt-Step λ outcome.
          after_attempt-Step (run_loop d cycles) poll failures outcome (run_loop-Step cycles)

  hold-Step : (code : String) → Step d (Free d) (hold d code) IsEnd
  unfolding hold
  hold-Step code =
      bind-Step d (λ u. Stopping d) _ _ (violate-Step code)
        λ u.
          bind-Step d (λ u. Free d) _ _
            (catch-Step _ _ (weaken_post (stop_children-Step d))
              (λ message. pure-Step d tt (λ past r. tt)))
            λ u.
              bind-Step d (λ u. IsEnd (some 2)) _ _
                (call-Step d _ _ _ (λ past r p. refl) (λ past a p. after_hold code past))
                λ u. pure-Step d _ (λ past p. p)
    where
      weaken_post :
          Step d (Stopping d) (stop_children d) (λ u. HasStopped d)
          → Step d (Stopping d) (stop_children d) (λ u. Free d)
      weaken_post t = record { triple = Triple-mono t.triple (λ a s p. (tt, p.1)) (λ s p. p) }

  run-Triple :
      (cycles : ℕ)
      → Triple
          (λ s. Free d s.trace × IsSound d s)
          (run d cycles)
          (λ r s. IsEnd r s.trace × IsSound d s)
          (IsSound d)
  unfolding run
  run-Triple cycles =
      Triple-catch_safety _ _
        (bind-Step d (λ u. Free d) _ _ resume_stop-Step
          λ u.
            bind-Step d (λ u. Free d) _ _ (call-Step d _ _ _ (λ past r p. tt) (λ past a p. tt))
              λ u.
                bind-Step d (λ u. Free d) _ _ (call-Step d _ _ _ (λ past r p. tt) (λ past a p. tt))
                  λ u. run_loop-Step cycles 0).triple
        λ code. Triple-pre (λ s g. (tt, g)) (hold-Step code).triple

  -- A run leaves a guarded trace in which each path that it keeps as cancelled was stopped, whatever the gateway
  -- and the monitor answer, for any number of cycles and however it ends. If it returns, it has used up its
  -- cycles and would poll on; or it returns 0, and either the own node and each child were stopped with success
  -- and nothing but the stop came after the monitor's word or a violation, or its own retirement was the
  -- last that it did; or it returns 2 and the last that it did was to invoke the hold function, which succeeded.
  pub run-IsEnd :
      (cycles : ℕ) (w : W)
      → Ends
          (λ r s. IsEnd r s.trace × IsSound d s)
          (IsSound d)
          (run d cycles (start w)).0
          (run d cycles (start w)).1
  unfolding start
  run-IsEnd cycles w =
      (run-Triple cycles).at (start w) (tt, record { guarded = tt; cancelled = λ path k. cc })
