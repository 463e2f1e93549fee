-- ===== src/Aws/Attribute/Reads.antt =====
-- What `_ddb_item` writes is what `_item` reads (aws_sdk.py).
use cloud_glider.Prelude.{some, List, [], ◌∷◌, ◌≡◌, refl}
use cloud_glider.Prelude.Int.{ℤ, pos, negsuc}
use cloud_glider.Python.Text.{int_of_text}
use cloud_glider.Python.Text.Decimal.{int_of_text-decimal, int_of_text-minus}
use cloud_glider.Python.Result.{ok}
use cloud_glider.Python.Dict.{Dict}
use cloud_glider.Python.Value.{Plain, null, bool, num, text, Value, plain, list, dict, Record}
use cloud_glider.Aws.Attribute.{
  str_of_int, av_plain, av_list, av_dict, av, ddb_item, unmarshal_scalar, unmarshal_list,
  unmarshal_dict, unmarshal, unmarshal_item, item_of,
}

pub int_of_text-str_of_int : (n : ℤ) → int_of_text (str_of_int n) ≡ some n
unfolding str_of_int
int_of_text-str_of_int (pos n) = int_of_text-decimal n
int_of_text-str_of_int (negsuc n) = int_of_text-minus n

unmarshal_scalar-av : (v : Plain) → unmarshal_scalar (av_plain v) ≡ ok v
unfolding av_plain unmarshal_scalar
unmarshal_scalar-av null = refl
unmarshal_scalar-av (bool t) = refl
unmarshal_scalar-av (num n) = rw (int_of_text-str_of_int n)
unmarshal_scalar-av (text s) = refl

unmarshal_list-av : (vs : List Plain) → unmarshal_list (av_list vs) ≡ ok vs
unfolding av_list unmarshal_list
unmarshal_list-av [] = refl
unmarshal_list-av (v ∷ vs) = rw (unmarshal_scalar-av v) (rw (unmarshal_list-av vs))

unmarshal_dict-av : (d : Dict Plain) → unmarshal_dict (av_dict d) ≡ ok d
unfolding av_dict unmarshal_dict
unmarshal_dict-av [] = refl
unmarshal_dict-av ((k, v) ∷ d) = rw (unmarshal_scalar-av v) (rw (unmarshal_dict-av d))

pub unmarshal-av : (v : Value) → unmarshal (av v) ≡ ok v
unfolding av unmarshal
unmarshal-av (plain v) = rw (unmarshal_scalar-av v)
unmarshal-av (list vs) = rw (unmarshal_list-av vs)
unmarshal-av (dict d) = rw (unmarshal_dict-av d)

unmarshal_item-ddb_item : (r : Record) → unmarshal_item (ddb_item r) ≡ ok r
unfolding ddb_item unmarshal_item
unmarshal_item-ddb_item [] = refl
unmarshal_item-ddb_item ((k, v) ∷ r) = rw (unmarshal-av v) (rw (unmarshal_item-ddb_item r))

-- A record that is written to a table reads back as it was.
pub item_of-ddb_item : (r : Record) → item_of (some (ddb_item r)) ≡ ok r
unfolding item_of
item_of-ddb_item r = unmarshal_item-ddb_item r
