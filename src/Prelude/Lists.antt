-- ===== src/Prelude/Lists.antt =====
-- Lists over the native numbers: length, tests on every element, and predicates by recursion.
use Prim.Native.Nat.{ℕ, zero, suc}
use mathlib.Core.Path.{◌≡◌, subst}
use mathlib.Core.Bool.{Bool, true, false, ◌&&◌, ◌||◌}
use mathlib.Core.Option.{Option, none, some}
use mathlib.Core.List.{List, [], ◌∷◌, ◌++◌}
use native.Mathlib.Omega.{arith}

module _ {ℓ} {A : Type ℓ} where
  abbrev pub length : List A → ℕ
  length [] = 0
  length (x ∷ xs) = suc (length xs)

  abbrev pub get_elem? : List A → ℕ → Option A
  get_elem? [] i = none
  get_elem? (x ∷ xs) zero = some x
  get_elem? (x ∷ xs) (suc i) = get_elem? xs i

  abbrev pub all : (A → Bool) → List A → Bool
  all p [] = true
  all p (x ∷ xs) = p x && all p xs

  abbrev pub any : (A → Bool) → List A → Bool
  any p [] = false
  any p (x ∷ xs) = p x || any p xs

-- The predicate holds of each element.
abbrev pub All {ℓ κ} : {A : Type ℓ} (Q : A → Type κ) → List A → Type κ
All Q (a ∷ rest) = Q a × All Q rest
All Q [] = Unit

pub All-append {ℓ κ} :
    {A : Type ℓ} (Q : A → Type κ) (front back : List A)
    → All Q front
    → All Q back
    → All Q (front ++ back)
All-append Q (a ∷ rest) back (h, hs) hb = (h, All-append Q rest back hs hb)
All-append Q [] back h hb = hb

pub all_sound {ℓ} :
    {A : Type ℓ} (p : A → Bool) (xs : List A) → all p xs ≡ true → All (λ x. p x ≡ true) xs
all_sound p [] h = tt
all_sound p (x ∷ xs) h = (ground arith, all_sound p xs (ground arith))

some_inj {ℓ} : {A : Type ℓ} {a b : A} → some a ≡ some b → a ≡ b
some_inj h = cc

pub All-get_elem? {ℓ κ} :
    {A : Type ℓ} (P : A → Type κ) (xs : List A) (i : ℕ) (x : A)
    → All P xs
    → get_elem? xs i ≡ some x
    → P x
All-get_elem? P [] i x h e = cc
All-get_elem? P (y ∷ ys) zero x h e = subst P (some_inj e) h.0
All-get_elem? P (y ∷ ys) (suc i) x h e = All-get_elem? P ys i x h.1 e
