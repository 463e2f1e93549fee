-- ===== src/Aws/Snapshot/Merged.antt =====
-- What the snapshot of aws_sdk.py says: the control record under the lifecycle's gates.
use cloud_glider.Prelude.{
  String, Bool, true, false, not, ◌&&◌, ◌||◌, Option, some, List, [], ◌∷◌, ◌==◌, ◌≡◌, ◌∙◌, ap, sym,
  eq_iff, arith, if◌then◌else◌, not-false,
}
use cloud_glider.Prelude.Lists.{any}
use cloud_glider.Python.Result.{ok, raise_if, raise_if_ok, then_ok, bind_ok, ok_inj}
use cloud_glider.Python.Dict.{lookup, insert, has_key, lookup-insert}
use cloud_glider.Python.Value.{Value, Record, value_eq, get, item, str, flag}
use cloud_glider.Aws.Snapshot.{
  is_true, transient, safety, gates, copy_gates, pending_stop, is_present, snapshot,
}

abbrev pub is_one_of : String → List String → Bool
is_one_of k names = any (λ n. n == k) names

item-lookup : (r : Record) (k : String) {v : Value} → item r k ≡ ok v → lookup k r ≡ some v
unfolding item
item-lookup r k h = ground arith

step-lookup :
    (k field : String) (fields : List String) (v : Value) (lifecycle control : Record)
    → lookup field lifecycle ≡ some v
    → (if is_one_of k fields then lookup k lifecycle else lookup k (insert field v control))
      ≡ (if is_one_of k (field ∷ fields) then lookup k lifecycle else lookup k control)
step-lookup k field fields v lifecycle control h =
    ground (arith, lookup-insert field k v control, eq_iff field k)

pub copy_gates-lookup :
    (fields : List String) (lifecycle control : Record) (k : String) {merged : Record}
    → copy_gates lifecycle fields control ≡ ok merged
    → lookup k merged ≡ (if is_one_of k fields then lookup k lifecycle else lookup k control)
unfolding copy_gates
copy_gates-lookup [] lifecycle control k h = ap (lookup k) (sym (ok_inj h))
copy_gates-lookup (field ∷ fields) lifecycle control k h =
    let (present, h1) = then_ok (raise_if (not (has_key lifecycle field)) _) _ h in
    let (v, found, h2) = bind_ok (item lifecycle field) _ h1 in
    copy_gates-lookup fields lifecycle (insert field v control) k h2
    ∙ step-lookup k field fields v lifecycle control (item-lookup lifecycle field found)

-- The records that a snapshot was taken from.
pub record Current (request_id : String) (control lifecycle : Record) : Type 0 where
  pub migrated : has_key control "propagation_enabled" ≡ false
  pub schema : value_eq (get "schema_version" lifecycle) (str "2") ≡ true
  pub chain : value_eq (get "request_id" lifecycle) (str request_id) ≡ true

-- What a key of the snapshot holds: a stop or a cleanup that the control record asks for switches
-- propagation off, four keys are the lifecycle's, and the rest is the control record's.
abbrev pub overlaid : (control lifecycle : Record) → String → Option Value
overlaid control lifecycle k =
    if (is_true (get "stop_requested" control) || is_true (get "cleanup_requested" control))
      && k == "propagation_enabled"
    then some (flag false)
    else if k == "request_id"
        || k == "propagation_enabled"
        || k == "cleanup_requested"
        || k == "cleanup_status"
    then lookup k lifecycle
    else lookup k control

eq_sym : (a b : String) → (a == b) ≡ (b == a)
eq_sym a b = ground (arith, eq_iff a b, eq_iff b a)

is_gate :
    (k : String)
    → is_one_of k gates ≡ (
        k == "request_id"
        || k == "propagation_enabled"
        || k == "cleanup_requested"
        || k == "cleanup_status")
is_gate k = ground (
  arith,
  eq_sym "request_id" k,
  eq_sym "propagation_enabled" k,
  eq_sym "cleanup_requested" k,
  eq_sym "cleanup_status" k,
)

stopped-lookup :
    (control lifecycle merged : Record) (k : String)
    → lookup k merged ≡ (if is_one_of k gates then lookup k lifecycle else lookup k control)
    → lookup k
        (if pending_stop control then insert "propagation_enabled" (flag false) merged else merged)
      ≡ overlaid control lifecycle k
unfolding pending_stop
stopped-lookup control lifecycle merged k h = ground (
  arith,
  h,
  is_gate k,
  eq_sym "propagation_enabled" k,
  lookup-insert "propagation_enabled" k (flag false) merged,
)

-- A snapshot that is taken comes of a control record without a switch of its own and of a lifecycle record of
-- schema 2 and of the given chain. `propagation_enabled` is off where the control record asks for a stop or a
-- cleanup; else that key and `request_id`, `cleanup_requested` and `cleanup_status` are the lifecycle's, and
-- every other key is the control record's. The hold is active exactly if its record is not empty.
pub snapshot-ok :
    (request_id : String) (control hold lifecycle : Record) {taken : Record × Bool}
    → snapshot request_id control hold lifecycle ≡ ok taken
    → Current request_id control lifecycle
      × ((k : String) → lookup k taken.0 ≡ overlaid control lifecycle k)
      × (taken.1 ≡ is_present hold)
unfolding snapshot
snapshot-ok request_id control hold lifecycle {taken} h =
    let legacy =
      has_key control "propagation_enabled"
      || not (value_eq (get "schema_version" lifecycle) (str "2")) in
    let other = not (value_eq (get "request_id" lifecycle) (str request_id)) in
    let (old, h1) = then_ok (raise_if legacy (safety "LIFECYCLE_MIGRATION_REQUIRED")) _ h in
    let (stale, h2) = then_ok (raise_if other (transient "stale chain identity")) _ h1 in
    let (merged, copied, h3) = bind_ok (copy_gates lifecycle gates control) _ h2 in
    let kept : legacy ≡ false = raise_if_ok legacy (safety "LIFECYCLE_MIGRATION_REQUIRED") old in
    let result : Record × Bool = (
      if pending_stop control then insert "propagation_enabled" (flag false) merged else merged,
      is_present hold,
    ) in
    let e : result ≡ taken = ok_inj h3 in
    (
      record {
        migrated = ground (arith, kept);
        schema = ground (arith, kept);
        chain = not-false _ (raise_if_ok other (transient "stale chain identity") stale);
      },
      λ k.
          ap (λ t. lookup k t.0) (sym e)
          ∙ stopped-lookup control lifecycle merged k
              (copy_gates-lookup gates lifecycle control k copied),
      ap (λ t. t.1) (sym e),
    )
