-- ===== src/Aws/Snapshot.antt =====
-- aws_sdk.py, `_read_control_snapshot`: what the gateway makes of the records that it read together.
pub mod Merged
use Prim.Native.String.{◌++◌ as concat}
use cloud_glider.Prelude.{
  String, Bool, true, false, not, ◌||◌, Option, List, [], ◌∷◌, if◌then◌else◌, ◌++◌,
}
use cloud_glider.Python.Result.{uncaught, transient, safety, Result, ok, err, raise_if, ◌>>=◌, ◌>>◌}
use cloud_glider.Python.Dict.{has_key, insert}
use cloud_glider.Python.Value.{Value, Record, value_eq, get, item, as_text, str, flag, is_true}
use cloud_glider.Aws.Attribute.{Item, item_of}
use cloud_glider.Aws.Dynamo.{Key}

abbrev control_keys : List Key
control_keys =
    record { pk = "CONTROL"; sk = "GLOBAL" }
    ∷ record { pk = "HOLD"; sk = "ACTIVE" }
    ∷ record { pk = "BOOTSTRAP"; sk = "REQUEST" }
    ∷ []

abbrev pub current_key : Key
current_key = record { pk = "CURRENT"; sk = "GLOBAL" }

abbrev pub keys_of : Bool → List Key
keys_of include_current =
    if include_current then control_keys ++ (current_key ∷ []) else control_keys

-- `bool(record)`.
abbrev pub is_present : Record → Bool
is_present [] = false
is_present (entry ∷ entries) = true

unfoldable pub items_of : List (Option Item) → Result (List Record)
items_of [] = ok []
items_of (i ∷ is) = let rest = items_of is in do r ← item_of i; rs ← rest; ok (r ∷ rs)

abbrev pub gates : List String
gates = "request_id" ∷ "propagation_enabled" ∷ "cleanup_requested" ∷ "cleanup_status" ∷ []

-- The loop that copies the lifecycle's gates into the control record.
unfoldable pub copy_gates : Record → List String → Record → Result Record
copy_gates lifecycle [] control = ok control
copy_gates lifecycle (field ∷ fields) control =
    let rest = λ (v : Value). copy_gates lifecycle fields (insert field v control) in
    do
      raise_if (not (has_key lifecycle field)) (safety "LIFECYCLE_SCHEMA_INVALID")
      v ← item lifecycle field
      rest v

unfoldable pub pending_stop : Record → Bool
pending_stop control =
    is_true (get "stop_requested" control) || is_true (get "cleanup_requested" control)

unfoldable pub text_item : Record → String → Result String
text_item r k = do v ← item r k; as_text v

-- What `_read_control_snapshot` makes of the records; the code reads on only with all of them there.
unfoldable pub snapshot : String → (control hold lifecycle : Record) → Result (Record × Bool)
unfolding pending_stop copy_gates
snapshot request_id control hold lifecycle = do
  raise_if
      (has_key control "propagation_enabled"
        || not (value_eq (get "schema_version" lifecycle) (str "2")))
      (safety "LIFECYCLE_MIGRATION_REQUIRED")
  raise_if (not (value_eq (get "request_id" lifecycle) (str request_id)))
      (transient "stale chain identity")
  merged ← copy_gates lifecycle gates control
  ok (
    if pending_stop control then insert "propagation_enabled" (flag false) merged else merged,
    is_present hold,
  )

abbrev head_or_empty : List Record → Record
head_or_empty [] = []
head_or_empty (r ∷ rs) = r

unfoldable pub divided : String → Bool → List Record → Result (Record × Bool × Record)
unfolding snapshot
divided request_id include_current (control ∷ hold ∷ lifecycle ∷ rest) = do
  read ← snapshot request_id control hold lifecycle
  ok (read.0, read.1, if include_current then head_or_empty rest else [])
divided request_id include_current _ = err uncaught

-- `GEN#` and the generation.
abbrev pub generation_pk : String → String
generation_pk generation = concat "GEN#" generation
