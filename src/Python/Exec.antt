-- ===== src/Python/Exec.antt =====
-- Methods that mutate an object and may raise. What was done before a raise stays done, so the state
-- comes back beside the failure too.
use cloud_glider.Prelude.{String, Bool, if◌then◌else◌}
use cloud_glider.Python.Result.{Failure, safety, transient, uncaught, out_of_fuel, Result, ok, err}

-- What a method does to its object's state.
abbrev pub Exec {ℓ} : (State Value : Type ℓ) → Type ℓ
Exec State Value = State → Result Value × State

module _ {ℓ} {S A : Type ℓ} where
  unfoldable pub pure : A → Exec S A
  pure a s = (ok a, s)

  unfoldable pub raise : Failure → Exec S A
  raise e s = (err e, s)

  -- A computation that may raise and changes nothing.
  unfoldable pub lift : Result A → Exec S A
  lift r s = (r, s)

  unfoldable pub gets : (S → A) → Exec S A
  gets field self = (ok (field self), self)

  unfoldable pub modify : (S → S) → A → Exec S A
  modify f a s = (ok a, f s)

-- The next statement runs on the state that the last one left, unless that raised.
module _ {ℓ} {S A B : Type ℓ} where
  abbrev pub continue : Result A → (A → Exec S B) → Exec S B
  continue (err failure) next self = (err failure, self)
  continue (ok value) next self = next value self

  infixl 10 ◌>>◌ ◌>>=◌
  unfoldable pub ◌>>=◌ : Exec S A → (A → Exec S B) → Exec S B
  ◌>>=◌ first next self = let (outcome, left) = first self in continue outcome next left

  abbrev pub ◌>>◌ : Exec S A → Exec S B → Exec S B
  first >> second = first >>= λ done. second

-- `if test: raise failure`.
abbrev pub raise_if : {S : Type 0} → Bool → Failure → Exec S (Unit {0})
raise_if test e = if test then raise e else pure tt

-- What `finally` makes of the outcome of its block: a raise of its own replaces it.
abbrev pub after : {S A : Type 0} → Result A → Result (Unit {0}) × S → Result A × S
after r (ok u, s) = (r, s)
after r (err e, s) = (err e, s)

-- `try: m finally: last`.
unfoldable pub finally : {S A : Type 0} → Exec S A → Exec S (Unit {0}) → Exec S A
finally m last s = let (r, s') = m s in after r (last s')

abbrev pub handle_transient : {S A : Type 0} → (String → Exec S A) → Result A → Exec S A
handle_transient h (ok a) = pure a
handle_transient h (err (transient message)) = h message
handle_transient h (err (safety code)) = raise (safety code)
handle_transient h (err uncaught) = raise uncaught
handle_transient h (err out_of_fuel) = raise out_of_fuel

-- `try: m except TransientFailure as exc: h`.
unfoldable pub catch_transient : {S A : Type 0} → Exec S A → (String → Exec S A) → Exec S A
catch_transient m h s = let (r, s') = m s in handle_transient h r s'

abbrev pub handle_safety : {S A : Type 0} → (String → Exec S A) → Result A → Exec S A
handle_safety h (ok a) = pure a
handle_safety h (err (safety code)) = h code
handle_safety h (err (transient message)) = raise (transient message)
handle_safety h (err uncaught) = raise uncaught
handle_safety h (err out_of_fuel) = raise out_of_fuel

-- `try: m except SafetyViolation as exc: h`.
unfoldable pub catch_safety : {S A : Type 0} → Exec S A → (String → Exec S A) → Exec S A
catch_safety m h s = let (r, s') = m s in handle_safety h r s'
