-- ===== src/Python/Value.antt =====
-- The dynamic values of the DynamoDB records, with Python's `==`, truth test and `int`. A list or a
-- dict holds plain values, as in the records that the daemon reads; there are no fractions in them.
use cloud_glider.Prelude.{
  String, Bool, true, false, not, ◌&&◌, Option, none, some, List, [], ◌∷◌, ◌==◌,
}
use cloud_glider.Prelude.Int.{ℤ, pos, eqb_ℤ}
use cloud_glider.Python.Text.{int_of_text}
use cloud_glider.Python.Result.{uncaught, Result, ok, err}
use cloud_glider.Python.Dict.{Dict, lookup, dict_eq}

pub data Plain : Type 0 where
  null : Plain
  bool : Bool → Plain
  num : ℤ → Plain
  text : String → Plain

pub data Value : Type 0 where
  plain : Plain → Value
  list : List Plain → Value
  dict : Dict Plain → Value

abbrev pub Record : Type 0
Record = Dict Value

-- `True` and `False` are the integers 1 and 0 under `==` and `int`.
abbrev number : Plain → Option ℤ
number null = none
number (bool true) = some (pos 1)
number (bool false) = some (pos 0)
number (num n) = some n
number (text s) = none

abbrev number_eq : Option ℤ → Option ℤ → Bool
number_eq (some a) (some b) = eqb_ℤ a b
number_eq _ _ = false

abbrev pub plain_eq : Plain → Plain → Bool
plain_eq null null = true
plain_eq (text s) (text t) = s == t
plain_eq a b = number_eq (number a) (number b)

abbrev pub plains_eq : List Plain → List Plain → Bool
plains_eq [] [] = true
plains_eq (a ∷ xs) (b ∷ ys) = plain_eq a b && plains_eq xs ys
plains_eq _ _ = false

-- `a == b`.
unfoldable pub value_eq : Value → Value → Bool
unfolding dict_eq
value_eq (plain a) (plain b) = plain_eq a b
value_eq (list a) (list b) = plains_eq a b
value_eq (dict a) (dict b) = dict_eq plain_eq a b
value_eq _ _ = false

abbrev plain_truth : Plain → Bool
plain_truth null = false
plain_truth (bool b) = b
plain_truth (num n) = not (eqb_ℤ n (pos 0))
plain_truth (text s) = not (s == "")

-- `bool(v)`.
unfoldable pub truth : Value → Bool
truth (plain a) = plain_truth a
truth (list []) = false
truth (list _) = true
truth (dict []) = false
truth (dict _) = true

abbrev pub or_value_error : Option ℤ → Result ℤ
or_value_error none = err uncaught
or_value_error (some n) = ok n

-- `int(v)`.
unfoldable pub to_int : Value → Result ℤ
unfolding int_of_text
to_int (plain (bool true)) = ok (pos 1)
to_int (plain (bool false)) = ok (pos 0)
to_int (plain (num n)) = ok n
to_int (plain (text s)) = or_value_error (int_of_text s)
to_int _ = err uncaught

-- A number, where the code computes with a value as it is; a `TypeError` otherwise.
unfoldable pub as_number : Value → Result ℤ
as_number (plain a) = or_value_error (number a)
as_number _ = err uncaught

abbrev or_none : Option Value → Value
or_none none = plain null
or_none (some v) = v

-- `d.get(k)`.
unfoldable pub get : String → Record → Value
unfolding lookup
get k d = or_none (lookup k d)

abbrev or_key_error {ℓ} : {A : Type ℓ} → Option A → Result A
or_key_error none = err uncaught
or_key_error (some v) = ok v

-- `d[k]`.
unfoldable pub item {ℓ} : {V : Type ℓ} → Dict V → String → Result V
unfolding lookup
item d k = or_key_error (lookup k d)

-- `v is False` and `v is True`.
abbrev pub is_false : Value → Bool
is_false (plain (bool false)) = true
is_false _ = false

abbrev pub is_true : Value → Bool
is_true (plain (bool true)) = true
is_true _ = false

-- `type(v) is bool`.
abbrev pub is_bool : Value → Bool
is_bool (plain (bool b)) = true
is_bool (plain null) = false
is_bool (plain (num n)) = false
is_bool (plain (text s)) = false
is_bool (list v) = false
is_bool (dict v) = false

-- `v.lower()` of a text, and an `AttributeError` of anything else.
unfoldable pub as_text : Value → Result String
as_text (plain (text s)) = ok s
as_text _ = err uncaught

abbrev pub str : String → Value
str s = plain (text s)

abbrev pub int : ℤ → Value
int n = plain (num n)

abbrev pub flag : Bool → Value
flag b = plain (bool b)
