-- ===== src/Python/Hoare.antt =====
-- Statements about a method that may raise: from a state where `P` holds it ends where `Q` holds of
-- the returned value and the state, or raises where `E` holds of the state.
use cloud_glider.Prelude.{subst, String, Bool, true, false, ◌≡◌, refl, if◌then◌else◌}
use cloud_glider.Python.Result.{Failure, safety, transient, uncaught, out_of_fuel, Result, ok, err}
use cloud_glider.Python.Exec.{
  Exec, pure, raise, lift, gets, modify, raise_if, continue, ◌>>=◌, finally, after, catch_transient,
  handle_transient, catch_safety, handle_safety,
}

abbrev pub Ends : {S A : Type 0} → (A → S → Type 0) → (S → Type 0) → Result A → S → Type 0
Ends Q E (ok a) s = Q a s
Ends Q E (err e) s = E s

pub record Triple {S A : Type 0} (P : S → Type 0) (m : Exec S A) (Q : A → S → Type 0)
    (E : S → Type 0) : Type 0 where
  pub at : (s : S) → P s → Ends Q E (m s).0 (m s).1

module _ {S A : Type 0} {P : S → Type 0} {Q : A → S → Type 0} {E : S → Type 0} where
  pub Triple-pure : (a : A) → ((s : S) → P s → Q a s) → Triple P (pure a) Q E
  unfolding pure
  Triple-pure a h = record { at = h }

  pub Triple-raise : (e : Failure) → ((s : S) → P s → E s) → Triple P (raise {A = A} e) Q E
  unfolding raise
  Triple-raise e h = record { at = h }

  pub Triple-lift :
      (r : Result A)
      → ((a : A) → r ≡ ok a → (s : S) → P s → Q a s)
      → ((s : S) → P s → E s)
      → Triple P (lift r) Q E
  unfolding lift
  Triple-lift (ok a) h k = record { at = h a refl }
  Triple-lift (err e) h k = record { at = k }

  pub Triple-gets : (f : S → A) → ((s : S) → P s → Q (f s) s) → Triple P (gets f) Q E
  unfolding gets
  Triple-gets f h = record { at = h }

  pub Triple-modify : (f : S → S) (a : A) → ((s : S) → P s → Q a (f s)) → Triple P (modify f a) Q E
  unfolding modify
  Triple-modify f a h = record { at = h }

  pub Triple-if :
      (b : Bool) (m n : Exec S A)
      → (b ≡ true → Triple P m Q E)
      → (b ≡ false → Triple P n Q E)
      → Triple P (if b then m else n) Q E
  Triple-if true m n hm hn = hm refl
  Triple-if false m n hm hn = hn refl

module _ {S : Type 0} {P : S → Type 0} {Q : Unit {0} → S → Type 0} {E : S → Type 0} where
  pub Triple-raise_if :
      (b : Bool) (e : Failure)
      → (b ≡ false → (s : S) → P s → Q tt s)
      → ((s : S) → P s → E s)
      → Triple P (raise_if b e) Q E
  Triple-raise_if true e h k = Triple-raise e k
  Triple-raise_if false e h k = Triple-pure tt (h refl)

continue-Ends :
    {S A B : Type 0} (Q : A → S → Type 0) (R : B → S → Type 0) (E : S → Type 0) (r : Result A)
    (f : A → Exec S B) (s : S)
    → ((a : A) → Triple (Q a) (f a) R E)
    → Ends Q E r s
    → Ends R E (continue r f s).0 (continue r f s).1
continue-Ends Q R E (ok a) f s hf q = (hf a).at s q
continue-Ends Q R E (err e) f s hf q = q

pub Triple-bind :
    {S A B : Type 0} {P : S → Type 0} (Q : A → S → Type 0) {R : B → S → Type 0} {E : S → Type 0}
    (m : Exec S A) (f : A → Exec S B)
    → Triple P m Q E
    → ((a : A) → Triple (Q a) (f a) R E)
    → Triple P (m >>= f) R E
unfolding ◌>>=◌
Triple-bind Q {R} {E} m f hm hf = record {
  at = λ s p. let (r, s') = m s in continue-Ends Q R E r f s' hf (hm.at s p);
}

-- A call that returned was one that ends as `Q` says.
pub Ends-ok :
    {S A : Type 0} (Q : A → S → Type 0) (E : S → Type 0) (r : Result A) (s : S) (a : A)
    → r ≡ ok a
    → Ends Q E r s
    → Q a s
Ends-ok Q E r s a e h = subst (λ x. Ends Q E x s) e h

pub Ends-mono :
    {S A : Type 0} (Q R : A → S → Type 0) (E F : S → Type 0) (r : Result A) (s : S)
    → ((a : A) → Q a s → R a s)
    → (E s → F s)
    → Ends Q E r s
    → Ends R F r s
Ends-mono Q R E F (ok a) s h k q = h a q
Ends-mono Q R E F (err e) s h k q = k q

pub Triple-mono :
    {S A : Type 0} {P : S → Type 0} {Q R : A → S → Type 0} {E F : S → Type 0} {m : Exec S A}
    → Triple P m Q E
    → ((a : A) (s : S) → Q a s → R a s)
    → ((s : S) → E s → F s)
    → Triple P m R F
Triple-mono {Q} {R} {E} {F} {m} t h k = record {
  at = λ s p. let (r, s') = m s in Ends-mono Q R E F r s' (λ a. h a s') (k s') (t.at s p);
}

pub Triple-pre :
    {S A : Type 0} {P P' : S → Type 0} {Q : A → S → Type 0} {E : S → Type 0} {m : Exec S A}
    → ((s : S) → P' s → P s)
    → Triple P m Q E
    → Triple P' m Q E
Triple-pre h t = record { at = λ s p. t.at s (h s p) }

after-Ends :
    {S A : Type 0} (Q R : S → Type 0) (r : Result A) (l : Result (Unit {0}) × S)
    → Ends (λ u. R) R l.0 l.1
    → Ends (λ a. R) R (after r l).0 (after r l).1
after-Ends Q R (ok a) (ok u, s) h = h
after-Ends Q R (ok a) (err e, s) h = h
after-Ends Q R (err f) (ok u, s) h = h
after-Ends Q R (err f) (err e, s) h = h

pub either : {S A : Type 0} (Q : S → Type 0) (r : Result A) (s : S) → Ends (λ a. Q) Q r s → Q s
either Q (ok a) s q = q
either Q (err e) s q = q

-- A `finally` whose last block runs from whatever its block left.
pub Triple-finally :
    {S A : Type 0} {P Q R : S → Type 0} (m : Exec S A) (last : Exec S (Unit {0}))
    → Triple P m (λ a. Q) Q
    → Triple Q last (λ u. R) R
    → Triple P (finally m last) (λ a. R) R
unfolding finally
Triple-finally {Q} {R} m last hm hl = record {
  at =
      λ s p. let (r, s') = m s in after-Ends Q R r (last s') (hl.at s' (either Q r s' (hm.at s p)));
}

handle-Ends :
    {S A : Type 0} (Q : A → S → Type 0) (E : S → Type 0) (r : Result A) (h : String → Exec S A)
    (s : S)
    → ((message : String) → Triple E (h message) Q E)
    → Ends Q E r s
    → Ends Q E (handle_transient h r s).0 (handle_transient h r s).1
unfolding pure raise
handle-Ends Q E (ok a) h s k q = q
handle-Ends Q E (err (transient message)) h s k q = (k message).at s q
handle-Ends Q E (err (safety code)) h s k q = q
handle-Ends Q E (err uncaught) h s k q = q
handle-Ends Q E (err out_of_fuel) h s k q = q

pub Triple-catch_transient :
    {S A : Type 0} {P : S → Type 0} {Q : A → S → Type 0} {E : S → Type 0} (m : Exec S A)
    (h : String → Exec S A)
    → Triple P m Q E
    → ((message : String) → Triple E (h message) Q E)
    → Triple P (catch_transient m h) Q E
unfolding catch_transient
Triple-catch_transient {Q} {E} m h hm k = record {
  at = λ s p. let (r, s') = m s in handle-Ends Q E r h s' k (hm.at s p);
}

safety-Ends :
    {S A : Type 0} (Q : A → S → Type 0) (E : S → Type 0) (r : Result A) (h : String → Exec S A)
    (s : S)
    → ((code : String) → Triple E (h code) Q E)
    → Ends Q E r s
    → Ends Q E (handle_safety h r s).0 (handle_safety h r s).1
unfolding pure raise
safety-Ends Q E (ok a) h s k q = q
safety-Ends Q E (err (safety code)) h s k q = (k code).at s q
safety-Ends Q E (err (transient message)) h s k q = q
safety-Ends Q E (err uncaught) h s k q = q
safety-Ends Q E (err out_of_fuel) h s k q = q

pub Triple-catch_safety :
    {S A : Type 0} {P : S → Type 0} {Q : A → S → Type 0} {E : S → Type 0} (m : Exec S A)
    (h : String → Exec S A)
    → Triple P m Q E
    → ((code : String) → Triple E (h code) Q E)
    → Triple P (catch_safety m h) Q E
unfolding catch_safety
Triple-catch_safety {Q} {E} m h hm k = record {
  at = λ s p. let (r, s') = m s in safety-Ends Q E r h s' k (hm.at s p);
}
