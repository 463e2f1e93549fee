-- ===== src/Ec2/Guard/Steps.antt =====
-- How a method that keeps the trace guarded goes on with what a call gave it.
use cloud_glider.Python.Exec.{Exec, lift, raise, raise_if, ◌>>=◌, ◌>>◌}
use cloud_glider.Prelude.{◌≡◌, Bool, false, List}
use cloud_glider.Python.Result.{Failure, Result, ok}
use cloud_glider.Python.Value.{Record}
use cloud_glider.Python.Hoare.{Triple, Triple-raise, Triple-lift, Triple-raise_if, Triple-bind}
use cloud_glider.Ec2.Session.{Event, Ec2Daemon, Session, observe}
use cloud_glider.Ec2.Guard.{lift, raise, Exec, Failure, Anything, Guarded}

module _ {W : Type 0} (d : Ec2Daemon W) (control current : Record) where
  abbrev pub Base : Session W → Type 0
  Base = Guarded d control current Anything

  module _ (R : List Event → Type 0) {B : Type 0} {Q : B → Session W → Type 0} where
    -- A fact that a state carries.
    pub Triple-fact :
        {X : Type 0} {m : Exec (Session W) B}
        → (X → Triple (Guarded d control current R) m Q Base)
        → Triple (λ s. Guarded d control current R s × X) m Q Base
    Triple-fact h = record { at = λ s p. (h p.1).at s p.0 }

    pub lift_then :
        {A : Type 0} (r : Result A) (f : A → Exec (Session W) B)
        → ((a : A) → r ≡ ok a → Triple (Guarded d control current R) (f a) Q Base)
        → Triple (Guarded d control current R) (lift r >>= f) Q Base
    lift_then r f h =
        Triple-bind (λ a s. Guarded d control current R s × (r ≡ ok a)) _ _
          (Triple-lift r (λ a e s p. (p, e)) (λ s p. (p.0, tt))) λ a. Triple-fact (h a)

    pub raise_if_then :
        (b : Bool) (e : Failure) (m : Exec (Session W) B)
        → (b ≡ false → Triple (Guarded d control current R) m Q Base)
        → Triple (Guarded d control current R) (raise_if b e >> m) Q Base
    raise_if_then b e m h =
        Triple-bind (λ u s. Guarded d control current R s × (b ≡ false)) _ _
          (Triple-raise_if b e (λ f s p. (p, f)) (λ s p. (p.0, tt))) λ u. Triple-fact h

    pub observe_then :
        {A : Type 0} (o : W → A × W) (f : A → Exec (Session W) B)
        → ((a : A) → Triple (Guarded d control current R) (f a) Q Base)
        → Triple (Guarded d control current R) (observe o >>= f) Q Base
    unfolding observe
    observe_then o f h =
        Triple-bind (λ a. Guarded d control current R) _ _ (record { at = λ s p. p }) h

  pub raise-Base :
      {B : Type 0} (R : List Event → Type 0) (e : Failure)
      → Triple (Guarded d control current R) (raise {A = B} e) (λ b. Base) Base
  raise-Base R e = Triple-raise e (λ s p. (p.0, tt))
