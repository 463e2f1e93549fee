-- ===== src/Daemon/Readiness/Proved.antt =====
-- What `wait_for_healthy_successor` of daemon.py returns.
use cloud_glider.Prelude.{ℕ, ◌≡◌, subst, String, List}
use cloud_glider.Prelude.Int.{ℤ, pos, ◌+ℤ◌, ◌*ℤ◌}
use cloud_glider.Python.Result.{ok}
use cloud_glider.Python.Exec.{◌>>=◌}
use cloud_glider.Python.Value.{Record}
use cloud_glider.Daemon.Gateway.{Specification}
use cloud_glider.Daemon.Session.{Event, Session, Daemon}
use cloud_glider.Daemon.Heartbeat.{int_item}
use cloud_glider.Python.Hoare.{Ends, Triple, Triple-lift, Triple-bind, Triple-mono, Triple-pre}
use cloud_glider.Daemon.Trace.{same, Extension-trans, Extends-now_ms}
use cloud_glider.Daemon.Readiness.{
  Wait, wait_loop, or_out_of_fuel, initial_waiting, wait_for_healthy_successor,
}
use cloud_glider.Daemon.Readiness.Accepted.{Since, IsProved}
use cloud_glider.Daemon.Readiness.Rounds.{grows, Good, wait_loop-Good, or_out_of_fuel-Good}

-- A returned state, with what the control record requires; the traces are those before and after.
pub record IsReady (control : Record) (specification : Specification) (stack_id : String)
    (start : List Event) (state : Record) (past : List Event) : Type 0 where
  pub required : ℤ
  pub required_is : int_item control "readiness_required_heartbeats" ≡ ok required
  pub proved : IsProved start control specification stack_id required state past

module _ {W : Type 0} (d : Daemon W) (start : List Event) where
  wait-Ready :
      (fuel : ℕ) (control : Record) (specification : Specification) (stack_id : String)
      → Triple
          (λ s. Since start s.trace)
          (wait_for_healthy_successor d fuel control specification stack_id)
          (λ state s. IsReady control specification stack_id start state s.trace)
          (λ s. Unit)
  unfolding wait_for_healthy_successor
  wait-Ready fuel control specification stack_id =
      Triple-bind (λ begun s. Since start s.trace) _ _
        (grows d start (Since start) _ (λ old new g i. Extension-trans i g)
          (Extends-now_ms d (λ ms. tt)))
        λ begun.
          Triple-bind (λ timeout s. Since start s.trace) _ _
            (Triple-lift _ (λ a e s q. q) (λ s q. tt))
            λ timeout.
              Triple-bind
                (λ required s.
                  Since start s.trace
                  × (int_item control "readiness_required_heartbeats" ≡ ok required))
                _ _ (Triple-lift _ (λ a e s q. (q, e)) (λ s q. tt))
                λ required. record { at = λ s q. (looped begun timeout required q.1).at s q.0 }
    where
      waited : ℤ → ℤ → ℤ → Wait
      waited begun timeout required = record {
        control = control;
        specification = specification;
        stack_id = stack_id;
        deadline = begun +ℤ timeout *ℤ pos 1000;
        required = required;
      }

      looped :
          (begun timeout required : ℤ)
          → int_item control "readiness_required_heartbeats" ≡ ok required
          → Triple
              (λ s. Since start s.trace)
              (wait_loop d fuel (waited begun timeout required) initial_waiting
                >>= or_out_of_fuel d)
              (λ state s. IsReady control specification stack_id start state s.trace)
              (λ s. Unit)
      looped begun timeout required e =
          Triple-bind (Good d start (waited begun timeout required)) _ _
            (Triple-pre (λ s i. record { begun = i; known = tt; counted = tt })
              (wait_loop-Good d start (waited begun timeout required) fuel initial_waiting))
            λ found.
              Triple-mono (or_out_of_fuel-Good d start (waited begun timeout required) found)
                (λ state s proved. record { required = required; required_is = e; proved = proved })
                (λ s q. tt)

module _ {W : Type 0} (d : Daemon W) where
  -- When `wait_for_healthy_successor` returns a state, it was the last of a row of states of the successor that
  -- it read, one after another since it was called, as many as the control record requires or more. Directly
  -- behind each of these reads the clock was read, and then the state was eligible for an instance of the
  -- stack that was looked up since the call; and each but the first has another sequence number than the one
  -- before it and was written a heartbeat interval or more after it.
  pub wait_for_healthy_successor-IsReady :
      (fuel : ℕ) (control : Record) (specification : Specification) (stack_id : String)
      (s : Session W) (state : Record)
      → (wait_for_healthy_successor d fuel control specification stack_id s).0 ≡ ok state
      → IsReady control specification stack_id s.trace state
          (wait_for_healthy_successor d fuel control specification stack_id s).1.trace
  wait_for_healthy_successor-IsReady fuel control specification stack_id s state e =
      let (r, s') = wait_for_healthy_successor d fuel control specification stack_id s in
      subst
        (λ v.
          Ends (λ a s''. IsReady control specification stack_id s.trace a s''.trace)
            (λ s''. Unit {0}) v s')
        e ((wait-Ready d s.trace fuel control specification stack_id).at s same)
