-- ===== src/Daemon/Gives.antt =====
-- What a method of the daemon may return, from any state and whatever the gateway answers.
use cloud_glider.Prelude.{◌≡◌, Bool, true, false, if◌then◌else◌}
use cloud_glider.Python.Result.{Failure, Result, ok, err}
use cloud_glider.Python.Exec.{Exec, pure, raise, lift, ◌>>=◌, finally}
use cloud_glider.Daemon.Session.{Session}
use cloud_glider.Python.Hoare.{Ends, Triple, Triple-pure, Triple-raise, Triple-lift, Triple-bind}
use cloud_glider.Python.Exec.{after}

module _ {W : Type 0} where
  abbrev pub Any : Session W → Type 0
  Any s = Unit

  abbrev pub Gives : {A : Type 0} → Exec (Session W) A → (A → Type 0) → Type 0
  Gives m Q = Triple Any m (λ a s. Q a) Any

  pub whatever : {A : Type 0} (m : Exec (Session W) A) → Gives m (λ a. Unit)
  whatever m = record { at = λ s p. any_end (m s).0 (m s).1 }
    where
      any_end : {A : Type 0} (r : Result A) (s : Session W) → Ends {A = A} (λ a s'. Unit) Any r s
      any_end (ok a) s = tt
      any_end (err e) s = tt

  pub bind-Gives :
      {A B : Type 0} (Q : A → Type 0) {R : B → Type 0} (m : Exec (Session W) A)
      (f : A → Exec (Session W) B)
      → Gives m Q
      → ((a : A) → Q a → Gives (f a) R)
      → Gives (m >>= f) R
  bind-Gives Q m f hm hf =
      Triple-bind (λ a s. Q a) m f hm λ a. record { at = λ s q. (hf a q).at s tt }

  pub lift-Gives : {A : Type 0} (r : Result A) → Gives (lift r) (λ a. r ≡ ok a)
  lift-Gives r = Triple-lift r (λ a e s p. e) (λ s p. tt)

  pub if-Gives :
      {A : Type 0} {Q : A → Type 0} (b : Bool) (m n : Exec (Session W) A)
      → Gives m Q
      → Gives n Q
      → Gives (if b then m else n) Q
  if-Gives true m n hm hn = hm
  if-Gives false m n hm hn = hn

  pub raise-Gives : {A : Type 0} {Q : A → Type 0} (e : Failure) → Gives (raise {A = A} e) Q
  raise-Gives e = Triple-raise e (λ s q. tt)

  pub pure-Gives : {A : Type 0} {Q : A → Type 0} (a : A) → Q a → Gives (pure a) Q
  pure-Gives a q = Triple-pure a (λ s p. q)

  -- `finally` returns what its block returns.
  pub finally-Gives :
      {A : Type 0} (Q : A → Type 0) (m : Exec (Session W) A) (last : Exec (Session W) (Unit {0}))
      → Gives m Q
      → Gives (finally m last) Q
  unfolding finally
  finally-Gives Q m last h = record {
    at = λ s p. let (r, s') = m s in kept Q r (last s') s' (h.at s p);
  }
    where
      kept :
          {A : Type 0} (Q : A → Type 0) (r : Result A) (l : Result (Unit {0}) × Session W)
          (s' : Session W)
          → Ends (λ a s. Q a) Any r s'
          → Ends (λ a s. Q a) Any (after r l).0 (after r l).1
      kept Q (ok a) (ok u, s) s' h = h
      kept Q (ok a) (err e, s) s' h = tt
      kept Q (err f) (ok u, s) s' h = tt
      kept Q (err f) (err e, s) s' h = tt
