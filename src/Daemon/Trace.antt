-- ===== src/Daemon/Trace.antt =====
-- How the methods of daemon.py extend the trace of gateway calls, and the rule for each way to build
-- a method.
use cloud_glider.Prelude.{ℕ, Bool, true, false, ◌≡◌, List, ◌∷◌, if◌then◌else◌}
use cloud_glider.Prelude.Int.{ℤ}
use cloud_glider.Python.Result.{Failure, Result, ok, err}
use cloud_glider.Python.Exec.{Exec, pure, raise, lift, gets, modify, continue, ◌>>=◌}
use cloud_glider.Daemon.Session.{
  clock_read, Event, slept, Session, Daemon, call, observe, now_seconds, now_ms, sleep,
}

-- The second trace has new events in front, each of which passes `H`.
pub data Extension (H : Event → Type 0) (old : List Event) : List Event → Type 0 where
  same : Extension H old old
  more : {e : Event} {new : List Event} → H e → Extension H old new → Extension H old (e ∷ new)

pub Extension-trans :
    {H : Event → Type 0} {a b c : List Event} → Extension H a b → Extension H b c → Extension H a c
Extension-trans p same = p
Extension-trans p (more h q) = more h (Extension-trans p q)

-- `m` adds only events that pass `H`, whether it returns or raises.
pub record Extends {W A : Type 0} (H : Event → Type 0) (m : Exec (Session W) A) : Type 0 where
  pub at : (s : Session W) → Extension H s.trace (m s).1.trace

module _ {W A : Type 0} {H : Event → Type 0} where
  pub Extends-pure : (a : A) → Extends H (pure {S = Session W} a)
  unfolding pure
  Extends-pure a = record { at = λ s. same }

  pub Extends-raise : (e : Failure) → Extends H (raise {S = Session W} {A = A} e)
  unfolding raise
  Extends-raise e = record { at = λ s. same }

  pub Extends-lift : (r : Result A) → Extends H (lift {S = Session W} r)
  unfolding lift
  Extends-lift r = record { at = λ s. same }

  pub Extends-gets : (f : Session W → A) → Extends H (gets f)
  unfolding gets
  Extends-gets f = record { at = λ s. same }

  pub Extends-modify :
      (f : Session W → Session W) (a : A)
      → ((s : Session W) → (f s).trace ≡ s.trace)
      → Extends H (modify f a)
  unfolding modify
  Extends-modify f a h = record { at = λ s. rw (h s) same }

  pub Extends-call :
      (event : Result A → Event) (op : Exec W A)
      → ((r : Result A) → H (event r))
      → Extends H (call event op)
  unfolding call
  Extends-call event op h = record { at = λ s. more (h (op s.world).0) same }

  pub Extends-observe : (f : W → A × W) → Extends H (observe f)
  unfolding observe
  Extends-observe f = record { at = λ s. same }

  pub Extends-if :
      (b : Bool) (m n : Exec (Session W) A)
      → Extends H m
      → Extends H n
      → Extends H (if b then m else n)
  Extends-if true m n hm hn = hm
  Extends-if false m n hm hn = hn

module _ {W A B : Type 0} {H : Event → Type 0} where
  continue-Extension :
      (r : Result A) (f : A → Exec (Session W) B) (s : Session W)
      → ((a : A) → Extends H (f a))
      → Extension H s.trace (continue r f s).1.trace
  continue-Extension (ok a) f s h = (h a).at s
  continue-Extension (err e) f s h = same

  pub Extends-bind :
      (m : Exec (Session W) A) (f : A → Exec (Session W) B)
      → Extends H m
      → ((a : A) → Extends H (f a))
      → Extends H (m >>= f)
  unfolding ◌>>=◌
  Extends-bind m f hm hf = record {
    at = λ s. let (r, s') = m s in Extension-trans (hm.at s) (continue-Extension r f s' hf);
  }

module _ {W : Type 0} {H : Event → Type 0} (d : Daemon W) where
  pub Extends-now_seconds : ((ms : ℕ) → H (clock_read ms)) → Extends H (now_seconds d)
  unfolding now_seconds
  Extends-now_seconds h = record { at = λ s. more (h _) same }

  pub Extends-now_ms : ((ms : ℕ) → H (clock_read ms)) → Extends H (now_ms d)
  unfolding now_ms
  Extends-now_ms h = record { at = λ s. more (h _) same }

  pub Extends-sleep : (n : ℤ) → H (slept n) → Extends H (sleep d n)
  unfolding sleep
  Extends-sleep n h = record { at = λ s. more h same }

pub ruleset extends_rules = (
  Extends-pure, Extends-raise, Extends-lift, Extends-gets, Extends-modify, Extends-call,
  Extends-observe, Extends-if, Extends-bind, Extends-now_seconds, Extends-now_ms, Extends-sleep,
)
