-- ===== src/Daemon/Calls.antt =====
-- Rules for statements about the daemon's calls of its gateway.
use cloud_glider.Prelude.{◌/◌, ℕ, ◌∷◌}
use cloud_glider.Prelude.Int.{pos, ℤ}
use cloud_glider.Python.Result.{Result}
use cloud_glider.Python.Exec.{Exec}
use cloud_glider.Python.Hoare.{Ends, Triple}
use cloud_glider.Daemon.Session.{clock_read, Event, Session, Daemon, call, observe, now_seconds}

module _ {W A : Type 0} {P : Session W → Type 0} {Q : A → Session W → Type 0}
    {E : Session W → Type 0} where
  pub Triple-call :
      (event : Result A → Event) (op : Exec W A)
      → ((s : Session W)
          → P s
          → (r : Result A) (w : W) → Ends Q E r (record s { world = w; trace = event r ∷ s.trace }))
      → Triple P (call event op) Q E
  unfolding call
  Triple-call event op h = record { at = λ s p. h s p (op s.world).0 (op s.world).1 }

  pub Triple-observe :
      (f : W → A × W)
      → ((s : Session W) → P s → (a : A) (w : W) → Q a (record s { world = w }))
      → Triple P (observe f) Q E
  unfolding observe
  Triple-observe f h = record { at = λ s p. h s p (f s.world).0 (f s.world).1 }

module _ {W : Type 0} {P : Session W → Type 0} {Q : ℤ → Session W → Type 0} {E : Session W → Type 0}
    (d : Daemon W) where
  pub Triple-now_seconds :
      ((s : Session W)
        → P s
        → (ms : ℕ) (w : W)
        → Q (pos (ms / 1000)) (record s { world = w; trace = clock_read ms ∷ s.trace }))
      → Triple P (now_seconds d) Q E
  unfolding now_seconds
  Triple-now_seconds h = record {
    at = λ s p. h s p (d.gateway.clock s.world).0 (d.gateway.clock s.world).1;
  }
