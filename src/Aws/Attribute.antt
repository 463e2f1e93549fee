-- ===== src/Aws/Attribute.antt =====
-- aws_sdk.py: `_av`, `_ddb_item`, `_unmarshal` and `_item`, between Python's values and the attributes
-- of a DynamoDB item. As in the values of a record, a list or a map holds scalars. `other` stands for an
-- attribute of any other kind. A number with a fraction is no value of the model: reading it fails.
pub mod Reads
pub mod Fails
use cloud_glider.Prelude.{
  String, Bool, true, false, Option, none, some, List, [], ◌∷◌, ◌==◌, ◌&&◌, suc, if◌then◌else◌,
}
use cloud_glider.Prelude.Int.{ℤ, pos, negsuc}
use cloud_glider.Python.Text.{decimal, int_of_text}
use cloud_glider.Python.Result.{uncaught, Result, ok, err, ◌>>=◌}
use cloud_glider.Python.Dict.{Dict, lookup}
use cloud_glider.Python.Value.{
  Plain, null, bool, num, text, Value, plain, list, dict, Record, or_value_error,
}

-- The kinds `S`, `N`, `BOOL` and `NULL`, and then `L` and `M`; a number is carried as text.
pub data Scalar : Type 0 where
  string : String → Scalar
  number : String → Scalar
  boolean : Bool → Scalar
  nothing : Scalar

pub data Attribute : Type 0 where
  scalar : Scalar → Attribute
  sequence : List Scalar → Attribute
  mapping : Dict Scalar → Attribute
  other : Attribute

abbrev pub Item : Type 0
Item = Dict Attribute

-- `str(n)` of an integer.
unfoldable pub str_of_int : ℤ → String
unfolding decimal
str_of_int (pos n) = decimal n
str_of_int (negsuc n) = String.◌∷◌ "-" (decimal (suc n))

unfoldable pub av_plain : Plain → Scalar
unfolding str_of_int
av_plain null = nothing
av_plain (bool t) = boolean t
av_plain (num n) = number (str_of_int n)
av_plain (text s) = string s

unfoldable pub av_list : List Plain → List Scalar
unfolding av_plain
av_list [] = []
av_list (v ∷ vs) = av_plain v ∷ av_list vs

unfoldable pub av_dict : Dict Plain → Dict Scalar
unfolding av_plain
av_dict [] = []
av_dict ((k, v) ∷ d) = (k, av_plain v) ∷ av_dict d

-- `_av`.
unfoldable pub av : Value → Attribute
unfolding av_plain av_list av_dict
av (plain v) = scalar (av_plain v)
av (list vs) = sequence (av_list vs)
av (dict d) = mapping (av_dict d)

-- `_ddb_item`.
unfoldable pub ddb_item : Record → Item
unfolding av
ddb_item [] = []
ddb_item ((k, v) ∷ r) = (k, av v) ∷ ddb_item r

unfoldable pub unmarshal_scalar : Scalar → Result Plain
unfolding int_of_text
unmarshal_scalar (string s) = ok (text s)
unmarshal_scalar (number s) = do n ← or_value_error (int_of_text s); ok (num n)
unmarshal_scalar (boolean t) = ok (bool t)
unmarshal_scalar nothing = ok null

unfoldable pub unmarshal_list : List Scalar → Result (List Plain)
unfolding unmarshal_scalar
unmarshal_list [] = ok []
unmarshal_list (s ∷ ss) =
    let rest = unmarshal_list ss in do v ← unmarshal_scalar s; vs ← rest; ok (v ∷ vs)

unfoldable pub unmarshal_dict : Dict Scalar → Result (Dict Plain)
unfolding unmarshal_scalar
unmarshal_dict [] = ok []
unmarshal_dict ((k, s) ∷ d) =
    let rest = unmarshal_dict d in do v ← unmarshal_scalar s; r ← rest; ok ((k, v) ∷ r)

-- `_unmarshal`.
unfoldable pub unmarshal : Attribute → Result Value
unfolding unmarshal_scalar unmarshal_list unmarshal_dict
unmarshal (scalar s) = do v ← unmarshal_scalar s; ok (plain v)
unmarshal (sequence ss) = do vs ← unmarshal_list ss; ok (list vs)
unmarshal (mapping d) = do r ← unmarshal_dict d; ok (dict r)
unmarshal other = err uncaught

unfoldable pub unmarshal_item : Item → Result Record
unfolding unmarshal
unmarshal_item [] = ok []
unmarshal_item ((k, a) ∷ i) =
    let rest = unmarshal_item i in do v ← unmarshal a; r ← rest; ok ((k, v) ∷ r)

-- `_item`, where no item reads as an empty dict.
unfoldable pub item_of : Option Item → Result Record
unfolding unmarshal_item
item_of none = ok []
item_of (some i) = unmarshal_item i
