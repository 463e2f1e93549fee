-- ===== src/Aws/Fence/Conflict.antt =====
-- When a fenced write of aws_sdk.py is a safety violation.
use cloud_glider.Aws.Attribute.Fails.{item_of-Uncaught, Uncaught}
use cloud_glider.Aws.Dynamo.{Write, Get}
use cloud_glider.Aws.Attribute.{Item, unmarshal_item, item_of}
use cloud_glider.Aws.Store.{Reads, item_or_empty, Store, Documented}
use cloud_glider.Aws.Services.{ClientError, unexpected}
use cloud_glider.Python.Exec.{◌>>=◌, raise, continue, lift}
use cloud_glider.Aws.Client.{get_record, call, timed, emit}
use cloud_glider.Aws.Fence.{codes_of, false, lifecycle_check, Bool, confirmed}
use cloud_glider.Python.Hoare.{either, Triple-bind, Triple-raise}
use cloud_glider.Aws.Store.Rules.{In, get_record-keeps}
use cloud_glider.Python.Exec.{Exec, pure}
use cloud_glider.Aws.Fence.{fenced_write, written, cancelled, confirmed_condition}
use cloud_glider.Aws.Client.{allowing, call_allowing, code_of}
use cloud_glider.Aws.Store.{Transacted}
use cloud_glider.Prelude.{
  if◌then◌else◌, not, ◌∙◌, ◌==◌, ◌∷◌, [], refl, Bool, subst, ◌≢◌, String, true, Option, some, none,
  List, ◌≡◌, arith,
}
use cloud_glider.Python.Result.{Failure, safety, Result, ok, err}
use cloud_glider.Python.Value.{Record}
use cloud_glider.Aws.Services.{
  interrupted, transport_error, client_error, answered, Answer, Services,
}
use cloud_glider.Aws.Client.{Client, requiring, AwsSdkGateway}
use cloud_glider.Aws.Fence.{lifecycle_permits, condition_failure, only_second_failed}

err_inj : {A : Type 0} {e f : Failure} → ◌≡◌ {A = Result A} (err e) (err f) → e ≡ f
err_inj h = cc

ok_is_no_safety : {A : Type 0} {a : A} {code : String} → ok a ≢ err (safety code)
ok_is_no_safety h = cc

-- The conflict code stands only for a lifecycle that permits.
condition_failure-safety :
    {W : Type 0} (services : Services W) (self : AwsSdkGateway) (conflict_code : Option String)
    (codes : List String) (lifecycle : Record) {code : String}
    → condition_failure services self conflict_code codes lifecycle ≡ safety code
    → (conflict_code ≡ some code)
      × (only_second_failed codes ≡ true)
      × (lifecycle_permits services self lifecycle ≡ true)
unfolding condition_failure
condition_failure-safety services self none codes lifecycle h = ground arith
condition_failure-safety services self (some c) codes lifecycle h = ground arith

if_case :
    {S A : Type 0} (P : Result A × S → Type 0) (t : Bool) (m n : Exec S A) (d : S)
    → P (m d)
    → P (n d)
    → P ((if t then m else n) d)
if_case P true m n d p q = p
if_case P false m n d p q = q

module _ {W : Type 0} {services : Services W} (dynamo : Documented services)
    (self : AwsSdkGateway) where
  open dynamo use {stored}

  -- A read record is the item that the tables hold.
  abbrev Got : (place : Get) → Result Record → Store → Type 0
  Got place (ok r) s = unmarshal_item (s place.table place.key) ≡ ok r
  Got place (err e) s = (code : String) → e ≢ safety code

  unmarshal_item-Got :
      (place : Get) (i : Item) (r : Result Record) (s : Store)
      → i ≡ s place.table place.key
      → unmarshal_item i ≡ r
      → Uncaught r
      → Got place r s
  unmarshal_item-Got place i (ok r) s e h u = subst (λ x. unmarshal_item x ≡ ok r) e h
  unmarshal_item-Got place i (err f) s e h u = λ code x. cc

  item_of-Got :
      (place : Get) (i : Option Item) (s : Store)
      → item_or_empty i ≡ s place.table place.key
      → Got place (item_of i) s
  unfolding item_of unmarshal_item
  item_of-Got place none s e = subst (λ x. unmarshal_item x ≡ ok []) e refl
  item_of-Got place (some i) s e =
      unmarshal_item-Got place i (unmarshal_item i) s e refl (item_of-Uncaught (some i))

  requiring-Got :
      (place : Get) (a : Answer (Option Item)) (s : Store) (c : Client W)
      → Reads place s a
      → Got place
          (continue (requiring "dynamodb" "get_item" a) (λ found. lift (item_of found)) c).0
          s
  unfolding requiring lift
  requiring-Got place (answered i) s c h = item_of-Got place i s h
  requiring-Got place (client_error e) s c h = λ code x. cc
  requiring-Got place (transport_error kind message) s c h = λ code x. cc
  requiring-Got place unexpected s c h = λ code x. cc
  requiring-Got place (interrupted kind) s c h = λ code x. cc

  abbrev lifecycle_place : Get
  lifecycle_place = record {
    table = self.config.state_table_name;
    key = record { pk = "BOOTSTRAP"; sk = "REQUEST" };
  }

  -- The lifecycle record in the tables permits.
  abbrev pub Permitted : Store → Type 0
  Permitted s =
      (r : Record) × (unmarshal_item (s lifecycle_place.table lifecycle_place.key) ≡ ok r)
      × (lifecycle_permits services self r ≡ true)

  get_record-Got :
      (c : Client W)
      → Got lifecycle_place (get_record services self "BOOTSTRAP" "REQUEST" c).0 (stored c.world)
  unfolding get_record call timed ◌>>=◌ emit
  get_record-Got c =
      let (a, w) = services.get_item lifecycle_place c.world in
      requiring-Got lifecycle_place a (stored c.world) _ (dynamo.reading lifecycle_place c.world).0

  module _ (conflict_code : Option String) (codes : List String) (code : String) where
    abbrev Found : Store → Type 0
    Found s = (conflict_code ≡ some code) × (only_second_failed codes ≡ true) × Permitted s

    raise-Found :
        (o : Result Record) (d : Client W) (s : Store)
        → Got lifecycle_place o s
        → (continue {B = Bool} o
            (λ l. raise (condition_failure services self conflict_code codes l))
            d).0
          ≡ err (safety code)
        → Found s
    unfolding raise
    raise-Found (ok r) d s got h =
        let (known, second, permits) =
          condition_failure-safety services self conflict_code codes r (err_inj h) in
        (known, second, (r, got, permits))
    raise-Found (err e) d s got h = absurd (got code (err_inj h))

    confirmed-Found :
        (c : Client W)
        → (confirmed services self conflict_code codes c).0 ≡ err (safety code)
        → Found (stored c.world)
    unfolding confirmed ◌>>=◌
    confirmed-Found c h =
        let (o, d) = get_record services self "BOOTSTRAP" "REQUEST" c in
        raise-Found o d (stored c.world) (get_record-Got c) h

    -- From here the end of a call tells a conflict, if it is a safety violation.
    abbrev Tells : Client W → Result Bool × Client W → Type 0
    Tells d m =
        m.0 ≡ err (safety code) → Found (stored d.world) × (stored m.1.world ≡ stored d.world)

    confirmed-Tells : (d : Client W) → Tells d (confirmed services self conflict_code codes d)
    unfolding confirmed
    confirmed-Tells d h = (
      confirmed-Found d h,
      either (In dynamo (λ t. t ≡ stored d.world)) _ _ (
          (Triple-bind (λ r. In dynamo (λ t. t ≡ stored d.world)) _ _
              (get_record-keeps dynamo self _ _ (λ t. t ≡ stored d.world))
              (λ l. Triple-raise _ (λ c p. p))).at
            d refl),
    )

    cancelled-Tells :
        (return_conflict : Bool) (d : Client W)
        → Tells d (cancelled services self conflict_code return_conflict codes d)
    unfolding cancelled raise pure
    cancelled-Tells return_conflict d =
        if_case (Tells d) (not (confirmed_condition codes)) _ _ d (λ h. cc)
          (if_case (Tells d) return_conflict _ _ d (λ h. cc) (confirmed-Tells d))

  -- What a conflict tells: the write was refused by its own condition alone, the tables are as they were,
  -- and their lifecycle record lets this chain act.
  pub record Conflict (operation : Write) (conflict_code : Option String) (code : String)
      (c d : Client W) : Type 0 where
    pub known : conflict_code ≡ some code
    pub error : ClientError
    pub refused :
        (services.transact_write_items
          (lifecycle_check services self false ∷ operation ∷ [])
          c.world).0
        ≡ client_error error
    pub second : only_second_failed (codes_of error.cancellation_reasons) ≡ true
    pub unchanged : stored d.world ≡ stored c.world
    pub permitted : Permitted (stored c.world)

  by_answer :
      (operation : Write) (conflict_code : Option String) (return_conflict : Bool) (code : String)
      (c d : Client W) (a : Answer (Unit {0}))
      → (services.transact_write_items
          (lifecycle_check services self false ∷ operation ∷ [])
          c.world).0
        ≡ a
      → Transacted
          (lifecycle_check services self false ∷ operation ∷ [])
          (stored c.world)
          (stored d.world)
          a
      → (continue
          (allowing "dynamodb" "transact_write_items" a)
          (written services self conflict_code return_conflict)
          d).0
        ≡ err (safety code)
      → Conflict operation conflict_code code c
          (continue
            (allowing "dynamodb" "transact_write_items" a)
            (written services self conflict_code return_conflict)
            d).1
  unfolding allowing written pure raise
  by_answer operation conflict_code return_conflict code c d (answered u) e t h = absurd (cc)
  by_answer operation conflict_code return_conflict code c d (transport_error kind message) e t h =
      absurd (cc)
  by_answer operation conflict_code return_conflict code c d unexpected e t h = absurd (cc)
  by_answer operation conflict_code return_conflict code c d (interrupted kind) e t h = absurd (cc)
  by_answer operation conflict_code return_conflict code c d (client_error f) e t h0 =
      if_case (λ m. m.0 ≡ err (safety code) → Conflict operation conflict_code code c m.1)
        (code_of f.code == "TransactionCanceledException") _ _ d
        (λ h.
          let ((known, second, permitted), same) =
            cancelled-Tells conflict_code (codes_of f.cancellation_reasons) code return_conflict d
              h in
          record {
            known = known;
            error = f;
            refused = e;
            second = second;
            unchanged = same ∙ t;
            permitted = subst Permitted t permitted;
          })
        (λ h. absurd (cc)) h0

  -- A fenced write that raises a safety violation was refused by its own condition alone, changed
  -- nothing, and met a lifecycle record that permits; the violation has the caller's code.
  pub fenced_write-Conflict :
      (operation : Write) (conflict_code : Option String) (return_conflict : Bool) (code : String)
      (c : Client W)
      → (fenced_write services self operation conflict_code return_conflict c).0 ≡ err (safety code)
      → Conflict operation conflict_code code c
          (fenced_write services self operation conflict_code return_conflict c).1
  unfolding fenced_write call_allowing timed emit ◌>>=◌
  fenced_write-Conflict operation conflict_code return_conflict code c h =
      let ops = lifecycle_check services self false ∷ operation ∷ [] in
      let (a, w) = services.transact_write_items ops c.world in
      by_answer operation conflict_code return_conflict code c _ a refl
        (dynamo.transaction ops c.world) h
