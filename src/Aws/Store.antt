-- ===== src/Aws/Store.antt =====
-- What DynamoDB documents of the requests in aws_sdk.py, as far as the theorems need it: when a condition
-- holds of an item, what a write leaves, and that a transaction is all or nothing. The service itself
-- stays a parameter; `Documented` is what is assumed of it.
pub mod Places
pub mod Rules
use cloud_glider.Prelude.{
  String, Bool, true, false, not, ◌&&◌, ◌||◌, Option, none, some, List, [], ◌∷◌, ◌==◌, ◌≡◌, ◌⊎◌,
  if◌then◌else◌,
}
use cloud_glider.Prelude.Int.{ℤ, ltb_ℤ}
use cloud_glider.Prelude.Lists.{any}
use cloud_glider.Python.Text.{int_of_text}
use cloud_glider.Python.Dict
use cloud_glider.Python.Dict.{Dict, lookup}
use cloud_glider.Aws.Attribute.{
  Scalar, string, number, boolean, nothing, Attribute, scalar, sequence, mapping, other, Item,
}
use cloud_glider.Aws.Dynamo.{
  Key, Condition, attribute_not_exists, equals, differs, less, one_of, both, one, Write,
  condition_check, put, update, delete, Get,
}
use cloud_glider.Aws.Services.{
  Answer, answered, client_error, transport_error, unexpected, interrupted, CreateStack, Services,
}

-- The item of a key in a table, empty where there is none.
abbrev pub Store : Type 0
Store = String → Key → Item

unfoldable pub bool_eq : Bool → Bool → Bool
bool_eq true c = c
bool_eq false c = not c

unfoldable pub scalar_eq : Scalar → Scalar → Bool
unfolding bool_eq
scalar_eq (string s) (string t) = s == t
scalar_eq (number s) (number t) = s == t
scalar_eq (boolean s) (boolean t) = bool_eq s t
scalar_eq nothing nothing = true
scalar_eq _ _ = false

unfoldable pub scalars_eq : List Scalar → List Scalar → Bool
unfolding scalar_eq
scalars_eq [] [] = true
scalars_eq (x ∷ xs) (y ∷ ys) = scalar_eq x y && scalars_eq xs ys
scalars_eq _ _ = false

unfoldable pub attribute_eq : Attribute → Attribute → Bool
unfolding scalar_eq scalars_eq
attribute_eq (scalar s) (scalar t) = scalar_eq s t
attribute_eq (sequence xs) (sequence ys) = scalars_eq xs ys
attribute_eq (mapping d) (mapping e) = Dict.dict_eq scalar_eq d e
attribute_eq _ _ = false

unfoldable pub is_equal : Option Attribute → Attribute → Bool
unfolding attribute_eq
is_equal none v = false
is_equal (some a) v = attribute_eq a v

unfoldable pub is_less_number : Option ℤ → Option ℤ → Bool
is_less_number (some a) (some b) = ltb_ℤ a b
is_less_number _ _ = false

unfoldable pub is_less : Option Attribute → Attribute → Bool
unfolding is_less_number int_of_text
is_less (some (scalar (number s))) (scalar (number t)) =
    is_less_number (int_of_text s) (int_of_text t)
is_less _ _ = false

-- The condition holds of the item.
unfoldable pub holds : Item → Condition → Bool
unfolding lookup is_equal is_less
holds i (attribute_not_exists n) = not (Dict.is_some (lookup n i))
holds i (equals n v) = is_equal (lookup n i) v
holds i (differs n v) = not (is_equal (lookup n i) v)
holds i (less n v) = is_less (lookup n i) v
holds i (one_of n vs) = any (is_equal (lookup n i)) vs
holds i (both p q) = holds i p && holds i q
holds i (one p q) = holds i p || holds i q

abbrev text_or_empty : Option Attribute → String
text_or_empty (some (scalar (string s))) = s
text_or_empty (some (scalar (number s))) = ""
text_or_empty (some (scalar (boolean t))) = ""
text_or_empty (some (scalar nothing)) = ""
text_or_empty (some (sequence xs)) = ""
text_or_empty (some (mapping d)) = ""
text_or_empty (some other) = ""
text_or_empty none = ""

-- The key that an item carries.
unfoldable pub key_of : Item → Key
unfolding lookup
key_of i = record { pk = text_or_empty (lookup "PK" i); sk = text_or_empty (lookup "SK" i) }

abbrev pub key_entries : Key → Item
key_entries k = ("PK", scalar (string k.pk)) ∷ ("SK", scalar (string k.sk)) ∷ []

abbrev pub table_of : Write → String
table_of (condition_check table key condition) = table
table_of (put table item condition) = table
table_of (update table key assignments condition) = table
table_of (delete table key condition) = table

abbrev pub target_of : Write → Key
target_of (condition_check table key condition) = key
target_of (put table item condition) = key_of item
target_of (update table key assignments condition) = key
target_of (delete table key condition) = key

abbrev holds_option : Item → Option Condition → Bool
holds_option i none = true
holds_option i (some p) = holds i p

abbrev pub permits : Write → Item → Bool
permits (condition_check table key condition) i = holds i condition
permits (put table item condition) i = holds_option i condition
permits (update table key assignments condition) i = holds i condition
permits (delete table key condition) i = holds i condition

-- What the write makes of the item; an update of no item makes one.
abbrev pub result_of : Write → Item → Item
result_of (condition_check table key condition) i = i
result_of (put table item condition) i = item
result_of (update table key assignments condition) i =
    Dict.update (Dict.update i (key_entries key)) assignments
result_of (delete table key condition) i = []

unfoldable pub same_place : (t u : String) → (k j : Key) → Bool
same_place t u k j = t == u && (k.pk == j.pk && k.sk == j.sk)

unfoldable pub apply : Write → Store → Store
unfolding same_place
apply op s table key =
    if same_place (table_of op) table (target_of op) key
    then result_of op (s table key)
    else s table key

-- Every condition is read before the writes. No two entries have one target.
unfoldable pub all_permit : List Write → Store → Bool
unfolding holds
all_permit [] s = true
all_permit (op ∷ ops) s = permits op (s (table_of op) (target_of op)) && all_permit ops s

unfoldable pub apply_all : List Write → Store → Store
unfolding apply
apply_all [] s = s
apply_all (op ∷ ops) s = apply_all ops (apply op s)

abbrev pub Done : List Write → (before after : Store) → Type 0
Done ops before after = (all_permit ops before ≡ true) × (after ≡ apply_all ops before)

-- An answer means that the transaction was done, a `ClientError` that it was not; after any other end
-- either may be so.
abbrev pub Transacted : {A : Type 0} → List Write → (before after : Store) → Answer A → Type 0
Transacted ops before after (answered a) = Done ops before after
Transacted ops before after (client_error e) = after ≡ before
Transacted ops before after (transport_error kind message) =
    (after ≡ before) ⊎ Done ops before after
Transacted ops before after unexpected = (after ≡ before) ⊎ Done ops before after
Transacted ops before after (interrupted kind) = (after ≡ before) ⊎ Done ops before after

abbrev pub item_or_empty : Option Item → Item
item_or_empty none = []
item_or_empty (some i) = i

abbrev pub Reads : Get → Store → Answer (Option Item) → Type 0
Reads g s (answered i) = item_or_empty i ≡ s g.table g.key
Reads g s (client_error e) = Unit
Reads g s (transport_error kind message) = Unit
Reads g s unexpected = Unit
Reads g s (interrupted kind) = Unit

-- CloudFormation's work is in no table.
pub record Documented {W : Type 0} (services : Services W) : Type 0 where
  pub stored : W → Store
  pub transaction :
      (ops : List Write) (w : W)
      → Transacted ops
          (stored w)
          (stored (services.transact_write_items ops w).1)
          (services.transact_write_items ops w).0
  pub deletion :
      (table : String) (key : Key) (p : Condition) (w : W)
      → Transacted
          (delete table key p ∷ [])
          (stored w)
          (stored (services.delete_item table key p w).1)
          (services.delete_item table key p w).0
  pub insertion :
      (table : String) (i : Item) (p : Condition) (w : W)
      → Transacted
          (put table i (some p) ∷ [])
          (stored w)
          (stored (services.put_item table i p w).1)
          (services.put_item table i p w).0
  pub reading :
      (g : Get) (w : W)
      → Reads g (stored w) (services.get_item g w).0 × (stored (services.get_item g w).1 ≡ stored w)
  pub creation : (r : CreateStack) (w : W) → stored (services.create_stack r w).1 ≡ stored w
