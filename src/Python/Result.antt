-- ===== src/Python/Result.antt =====
-- Exceptions as values (daemon/cloud_glider/daemon.py: `SafetyViolation`, `TransientFailure`), for
-- code that raises and changes nothing. `uncaught` is every other exception: a `KeyError`,
-- `TypeError`, `ValueError`, `IndexError` or `AssertionError`, which no handler of the daemon catches.
-- `out_of_fuel` is the model's own: a bounded loop stopped before the program's loop would.
use cloud_glider.Prelude.{String, Bool, true, false, Option, none, some, ◌≡◌, refl}

-- A `SafetyViolation` is known by its code, a `TransientFailure` by its message.
pub data Failure : Type 0 where
  safety : String → Failure
  transient : String → Failure
  uncaught out_of_fuel : Failure

pub data Result {ℓ} (A : Type ℓ) : Type ℓ where
  ok : A → Result A
  err : Failure → Result A

-- A failure ends the chain at the step that raised it.
infixl 5 ◌>>◌ ◌>>=◌
abbrev pub ◌>>=◌ {ℓ κ} : {V : Type ℓ} {R : Type κ} → Result V → (V → Result R) → Result R
err failure >>= next = err failure
ok value >>= next = next value

abbrev pub ◌>>◌ {ℓ} : {R : Type ℓ} → Result (Unit {0}) → Result R → Result R
check >> next = check >>= λ done. next

-- `if test: raise failure`.
abbrev pub raise_if : Bool → Failure → Result (Unit {0})
raise_if true e = err e
raise_if false e = ok tt

-- `None` where an exception is raised for a missing value.
abbrev pub or_raise {ℓ} : {A : Type ℓ} → Option A → Failure → Result A
or_raise none e = err e
or_raise (some a) e = ok a

-- A successful chain went through each of its steps.
pub bind_ok {ℓ κ} :
    {V : Type ℓ} {R : Type κ} {r : R} (step : Result V) (next : V → Result R)
    → (step >>= next) ≡ ok r
    → (v : V) × (step ≡ ok v) × (next v ≡ ok r)
bind_ok (err failure) next h = cc
bind_ok (ok v) next h = (v, refl, h)

pub raise_if_ok : (t : Bool) (e : Failure) {u : Unit {0}} → raise_if t e ≡ ok u → t ≡ false
raise_if_ok true e h = cc
raise_if_ok false e h = refl

pub then_ok {ℓ} :
    {B : Type ℓ} (m : Result (Unit {0})) (k : Result B) {b : B}
    → (m >> k) ≡ ok b
    → (m ≡ ok tt) × (k ≡ ok b)
then_ok (ok tt) k h = (refl, h)
then_ok (err e) k h = cc

pub ok_inj {ℓ} : {A : Type ℓ} {a b : A} → ok a ≡ ok b → a ≡ b
ok_inj h = cc

-- A chain succeeds where each of its steps does.
pub bind_eq {ℓ κ} :
    {V : Type ℓ} {R : Type κ} {v : V} {r : Result R} (step : Result V) (next : V → Result R)
    → step ≡ ok v
    → next v ≡ r
    → (step >>= next) ≡ r
bind_eq step next e h = rw e h

pub then_eq {ℓ} :
    {B : Type ℓ} (m : Result (Unit {0})) (k : Result B) {r : Result B}
    → m ≡ ok tt
    → k ≡ r
    → (m >> k) ≡ r
then_eq m k e h = rw e h

pub raise_if-false : (t : Bool) (e : Failure) → t ≡ false → raise_if t e ≡ ok tt
raise_if-false t e h = rw h
