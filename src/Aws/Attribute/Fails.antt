-- ===== src/Aws/Attribute/Fails.antt =====
-- Reading an item of aws_sdk.py fails with an error that nobody catches, if it fails.
use cloud_glider.Prelude.{Option, none, some, List, [], ◌∷◌, ◌≡◌, refl}
use cloud_glider.Prelude.Int.{ℤ}
use cloud_glider.Python.Result.{uncaught, Result, ok, err, ◌>>=◌}
use cloud_glider.Python.Dict.{Dict}
use cloud_glider.Python.Value.{or_value_error, num}
use cloud_glider.Python.Text.{int_of_text}
use cloud_glider.Aws.Attribute.{
  Scalar, string, number, boolean, nothing, Attribute, scalar, sequence, mapping, other, Item,
  unmarshal_scalar, unmarshal_list, unmarshal_dict, unmarshal, unmarshal_item, item_of,
}

-- A failure, where there is one, is `uncaught`.
abbrev pub Uncaught : {A : Type 0} → Result A → Type 0
Uncaught (ok a) = Unit
Uncaught (err e) = e ≡ uncaught

bind-Uncaught :
    {A B : Type 0} (r : Result A) (f : A → Result B)
    → Uncaught r
    → ((a : A) → Uncaught (f a))
    → Uncaught (r >>= f)
bind-Uncaught (ok a) f h k = k a
bind-Uncaught (err e) f h k = h

number-Uncaught : (n : Option ℤ) → Uncaught (or_value_error n >>= λ k. ok (num k))
number-Uncaught none = refl
number-Uncaught (some n) = tt

unmarshal_scalar-Uncaught : (s : Scalar) → Uncaught (unmarshal_scalar s)
unfolding unmarshal_scalar
unmarshal_scalar-Uncaught (string s) = tt
unmarshal_scalar-Uncaught (number s) = number-Uncaught (int_of_text s)
unmarshal_scalar-Uncaught (boolean t) = tt
unmarshal_scalar-Uncaught nothing = tt

unmarshal_list-Uncaught : (ss : List Scalar) → Uncaught (unmarshal_list ss)
unfolding unmarshal_list
unmarshal_list-Uncaught [] = tt
unmarshal_list-Uncaught (s ∷ ss) =
    bind-Uncaught (unmarshal_scalar s) _ (unmarshal_scalar-Uncaught s)
      (λ v. bind-Uncaught (unmarshal_list ss) _ (unmarshal_list-Uncaught ss) (λ vs. tt))

unmarshal_dict-Uncaught : (d : Dict Scalar) → Uncaught (unmarshal_dict d)
unfolding unmarshal_dict
unmarshal_dict-Uncaught [] = tt
unmarshal_dict-Uncaught ((k, s) ∷ d) =
    bind-Uncaught (unmarshal_scalar s) _ (unmarshal_scalar-Uncaught s)
      (λ v. bind-Uncaught (unmarshal_dict d) _ (unmarshal_dict-Uncaught d) (λ r. tt))

unmarshal-Uncaught : (a : Attribute) → Uncaught (unmarshal a)
unfolding unmarshal
unmarshal-Uncaught (scalar s) =
    bind-Uncaught (unmarshal_scalar s) _ (unmarshal_scalar-Uncaught s) (λ v. tt)
unmarshal-Uncaught (sequence ss) =
    bind-Uncaught (unmarshal_list ss) _ (unmarshal_list-Uncaught ss) (λ v. tt)
unmarshal-Uncaught (mapping d) =
    bind-Uncaught (unmarshal_dict d) _ (unmarshal_dict-Uncaught d) (λ v. tt)
unmarshal-Uncaught other = refl

unmarshal_item-Uncaught : (i : Item) → Uncaught (unmarshal_item i)
unfolding unmarshal_item
unmarshal_item-Uncaught [] = tt
unmarshal_item-Uncaught ((k, a) ∷ i) =
    bind-Uncaught (unmarshal a) _ (unmarshal-Uncaught a)
      (λ v. bind-Uncaught (unmarshal_item i) _ (unmarshal_item-Uncaught i) (λ r. tt))

pub item_of-Uncaught : (i : Option Item) → Uncaught (item_of i)
unfolding item_of
item_of-Uncaught none = tt
item_of-Uncaught (some i) = unmarshal_item-Uncaught i
