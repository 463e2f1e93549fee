-- ===== src/Aws/Stacks/Single.antt =====
-- When `create_stack` of aws_sdk.py submits a stack: never beside another submission.
use cloud_glider.Prelude.{
  inr, eq_iff, ap, inl, ◌||◌, Bool, ◌⊎◌, [], some, sym, ◌∙◌, ◌∷◌, String, true, false, none, ◌≡◌,
  ◌≢◌, refl, arith,
}
use cloud_glider.Python.Result.{Failure, Result, ok, err}
use cloud_glider.Python.Exec.{◌>>=◌, Exec, pure, continue}
use cloud_glider.Python.Dict.{lookup}
use cloud_glider.Python.Hoare.{Ends, Ends-ok, Triple, Triple-bind, Triple-mono, Triple-pure}
use cloud_glider.Daemon.Gateway.{Specification}
use cloud_glider.Aws.Attribute.{
  nothing, other, mapping, sequence, number, boolean, string, scalar, Attribute, Item,
}
use cloud_glider.Aws.Dynamo.{equals, both, one_of, Condition, attribute_not_exists}
use cloud_glider.Aws.Services.{
  Answer, answered, client_error, transport_error, interrupted, unexpected, Services, Library,
}
use cloud_glider.Aws.Client.{
  timed, call, ApiTiming, Client, AwsSdkGateway, requiring, emit, timing, outcome_of,
}
use cloud_glider.Aws.Fence.{bool_attribute, text_attribute, lifecycle_check}
use cloud_glider.Aws.Provisioning.{
  hold_key, marker_key, marker, provisioning_transaction, begin_provisioning,
}
use cloud_glider.Aws.Stacks.{Option, create_stack}
use cloud_glider.Aws.Store.{
  bool_eq, scalar_eq, attribute_eq, is_equal, Transacted, Store, all_permit, holds, key_of,
  Documented,
}
use cloud_glider.Aws.Store.Places.{all_permit-cons}
use cloud_glider.Aws.Store.Rules.{In, call-Done}

some_is_not_none : {A : Type 0} {a : A} → some a ≢ none
some_is_not_none h = cc

fact_end :
    {S A : Type 0} (F : Type 0) (r : Result A) (s : S) → F → Ends (λ a s. F) (λ s. Unit {0}) r s
fact_end F (ok a) s f = f
fact_end F (err e) s f = tt

-- What every call does, for a fact that no state changes.
pub Triple-fact :
    {S A : Type 0} {P : S → Type 0} (F : Type 0) (m : Exec S A)
    → ((s : S) → P s → F)
    → Triple P m (λ a s. F) (λ s. Unit {0})
Triple-fact F m h = record { at = λ s p. fact_end F (m s).0 (m s).1 (h s p) }

-- An item that equals a text or a Boolean there has it.
equals_text :
    (i : Item) (n t : String)
    → holds i (equals n (text_attribute t)) ≡ true
    → lookup n i ≡ some (text_attribute t)
unfolding holds is_equal attribute_eq scalar_eq bool_eq
equals_text i n t h = text_is_equal (lookup n i) h
  where
    text_is_equal :
        (o : Option Attribute) → is_equal o (text_attribute t) ≡ true → o ≡ some (text_attribute t)
    text_is_equal none e = cc
    text_is_equal (some (scalar (string s))) e =
        ap (λ u. some (scalar (string u))) (ground (arith, eq_iff s t))
    text_is_equal (some (scalar (number s))) e = cc
    text_is_equal (some (scalar (boolean b))) e = cc
    text_is_equal (some (scalar nothing)) e = cc
    text_is_equal (some (sequence xs)) e = cc
    text_is_equal (some (mapping m)) e = cc
    text_is_equal (some other) e = cc

equals_bool :
    (i : Item) (n : String) (b : Bool)
    → holds i (equals n (bool_attribute b)) ≡ true
    → lookup n i ≡ some (bool_attribute b)
unfolding holds is_equal attribute_eq scalar_eq bool_eq
equals_bool i n b h = bool_is_equal (lookup n i) b h
  where
    bool_is_equal :
        (o : Option Attribute) (b : Bool)
        → is_equal o (bool_attribute b) ≡ true
        → o ≡ some (bool_attribute b)
    bool_is_equal none b e = cc
    bool_is_equal (some (scalar (boolean true))) true e = refl
    bool_is_equal (some (scalar (boolean true))) false e = cc
    bool_is_equal (some (scalar (boolean false))) true e = cc
    bool_is_equal (some (scalar (boolean false))) false e = refl
    bool_is_equal (some (scalar (string s))) b e = cc
    bool_is_equal (some (scalar (number s))) b e = cc
    bool_is_equal (some (scalar nothing)) b e = cc
    bool_is_equal (some (sequence xs)) b e = cc
    bool_is_equal (some (mapping m)) b e = cc
    bool_is_equal (some other) b e = cc

of_both :
    (i : Item) (p q : Condition)
    → holds i (both p q) ≡ true
    → (holds i p ≡ true) × (holds i q ≡ true)
unfolding holds
of_both i p q h = (ground arith, ground arith)

no_key : (i : Item) → holds i (attribute_not_exists "PK") ≡ true → lookup "PK" i ≡ none
unfolding holds
no_key i h = ground arith

module _ {W : Type 0} {services : Services W} (dynamo : Documented services) (library : Library)
    (self : AwsSdkGateway) (specification : Specification) where
  open dynamo use {stored}

  abbrev table : String
  table = self.config.state_table_name

  abbrev lifecycle_item : Store → Item
  lifecycle_item s = s table (record { pk = "BOOTSTRAP"; sk = "REQUEST" })

  abbrev control_item : Store → Item
  control_item s = s table (record { pk = "CONTROL"; sk = "GLOBAL" })

  -- What the tables say where a stack may be created: the lifecycle record is the request's, has
  -- propagation enabled, and no cleanup is asked for or under way; the control record asks for no stop and
  -- no cleanup; there is no hold and no other submission.
  pub record MayProvision (s : Store) : Type 0 where
    pub same_chain :
        lookup "request_id" (lifecycle_item s) ≡ some (scalar (string self.config.request_id))
    pub enabled : lookup "propagation_enabled" (lifecycle_item s) ≡ some (scalar (boolean true))
    pub unclean : lookup "cleanup_requested" (lifecycle_item s) ≡ some (scalar (boolean false))
    pub settled :
        (lookup "cleanup_status" (lifecycle_item s) ≡ some (scalar (string "IDLE")))
        ⊎ (lookup "cleanup_status" (lifecycle_item s) ≡ some (scalar (string "COMPLETE")))
    pub unstopped : lookup "stop_requested" (control_item s) ≡ some (scalar (boolean false))
    pub no_cleanup : lookup "cleanup_requested" (control_item s) ≡ some (scalar (boolean false))
    pub not_held : lookup "PK" (s table (record { pk = "HOLD"; sk = "ACTIVE" })) ≡ none
    pub unmarked : lookup "PK" (s table (record { pk = "LOCK"; sk = "PROVISIONING" })) ≡ none

  idle_or_complete :
      (i : Item)
      → holds i (one_of "cleanup_status" (text_attribute "IDLE" ∷ text_attribute "COMPLETE" ∷ []))
        ≡ true
      → (lookup "cleanup_status" i ≡ some (scalar (string "IDLE")))
        ⊎ (lookup "cleanup_status" i ≡ some (scalar (string "COMPLETE")))
  unfolding holds
  idle_or_complete i h = choose _ _ h refl refl
    where
      choose :
          (p q : Bool)
          → (p || (q || false)) ≡ true
          → (p ≡ is_equal (lookup "cleanup_status" i) (text_attribute "IDLE"))
          → (q ≡ is_equal (lookup "cleanup_status" i) (text_attribute "COMPLETE"))
          → (lookup "cleanup_status" i ≡ some (scalar (string "IDLE")))
            ⊎ (lookup "cleanup_status" i ≡ some (scalar (string "COMPLETE")))
      choose true q e f g = inl (equals_text i "cleanup_status" "IDLE" (sym f))
      choose false true e f g = inr (equals_text i "cleanup_status" "COMPLETE" (sym g))
      choose false false e f g = cc

  permitted-MayProvision :
      (s : Store)
      → all_permit (provisioning_transaction services self specification) s ≡ true
      → MayProvision s
  unfolding provisioning_transaction marker key_of lifecycle_check
  permitted-MayProvision s h =
      let (lifecycle, r1) = all_permit-cons _ _ s h in
      let (control, r2) = all_permit-cons _ _ s r1 in
      let (hold, r3) = all_permit-cons _ _ s r2 in
      let (mark, r4) = all_permit-cons _ _ s r3 in
      let (may, switch) = of_both (lifecycle_item s) _ _ lifecycle in
      let (request, status) = of_both (lifecycle_item s) _ _ may in
      let (chain, cleanup) = of_both (lifecycle_item s) _ _ request in
      let (stop, tidy) = of_both (control_item s) _ _ control in
      record {
        same_chain = equals_text (lifecycle_item s) _ _ chain;
        enabled = equals_bool (lifecycle_item s) _ _ switch;
        unclean = equals_bool (lifecycle_item s) _ _ cleanup;
        settled = idle_or_complete (lifecycle_item s) status;
        unstopped = equals_bool (control_item s) _ _ stop;
        no_cleanup = equals_bool (control_item s) _ _ tidy;
        not_held = no_key (s table hold_key) hold;
        unmarked = no_key (s table marker_key) mark;
      }

  begun :
      (s : Store)
      → Triple
          (In dynamo (λ t. t ≡ s))
          (begin_provisioning services self specification)
          (λ token c. MayProvision s)
          (λ c. Unit {0})
  unfolding begin_provisioning
  begun s =
      Triple-bind (λ u c. MayProvision s) _ _
        (Triple-mono (call-Done dynamo _ _ _ _ s (dynamo.transaction _))
          (λ u c d. permitted-MayProvision s d.0) (λ c h. tt))
        (λ u. Triple-pure _ (λ c h. h))

  created :
      (s : Store)
      → Triple
          (In dynamo (λ t. t ≡ s))
          (create_stack services library self specification)
          (λ stack_id c. MayProvision s)
          (λ c. Unit {0})
  unfolding create_stack
  created s =
      Triple-bind (λ token c. MayProvision s) _ _ (begun s)
        (λ token. Triple-fact (MayProvision s) _ (λ c h. h))

  -- When `create_stack` returns a stack, the tables that it found held a lifecycle record of the request's
  -- chain with `propagation_enabled` true, `cleanup_requested` false and `cleanup_status` IDLE or COMPLETE, a
  -- control record with `stop_requested` and `cleanup_requested` false, no hold and no marker of a submission.
  pub create_stack-MayProvision :
      (c : Client W) {stack_id : String}
      → (create_stack services library self specification c).0 ≡ ok stack_id
      → MayProvision (stored c.world)
  create_stack-MayProvision c {stack_id} e =
      let (r, d) = create_stack services library self specification c in
      Ends-ok (λ a s. MayProvision (stored c.world)) (λ c. Unit {0}) r d stack_id e
        ((created (stored c.world)).at c refl)

  -- A creation that stops at its transaction.
  pub record Stopped (c d : Client W) (r : Result String) : Type 0 where
    pub failure : Failure
    pub raised : r ≡ err failure
    pub event : ApiTiming
    pub emitted : d.timings ≡ event ∷ c.timings
    pub transaction : event.operation ≡ "transact_write_items"

  -- The creation, from the answer to its transaction on.
  abbrev ended :
      Client W
      → W
      → Answer (Unit {0})
      → (String → Exec (Client W) String)
      → Result String × Client W
  ended c w a next =
      let first =
        continue (requiring "dynamodb" "transact_write_items" a)
          (λ u. pure specification.client_token)
          (emit (timing "dynamodb" "transact_write_items" false a) (record c { world = w })) in
      continue first.0 next first.1

  ended-Stopped :
      (c : Client W) (w : W) (a : Answer (Unit {0})) (next : String → Exec (Client W) String)
      → ((u : Unit {0}) → a ≢ answered u)
      → Stopped c (ended c w a next).1 (ended c w a next).0
  unfolding requiring emit outcome_of
  ended-Stopped c w (answered u) next h = absurd (h u refl)
  ended-Stopped c w (client_error e) next h = record {
    failure = _;
    raised = refl;
    event = _;
    emitted = refl;
    transaction = refl;
  }
  ended-Stopped c w (transport_error kind message) next h = record {
    failure = _;
    raised = refl;
    event = _;
    emitted = refl;
    transaction = refl;
  }
  ended-Stopped c w unexpected next h = record {
    failure = _;
    raised = refl;
    event = _;
    emitted = refl;
    transaction = refl;
  }
  ended-Stopped c w (interrupted kind) next h = record {
    failure = _;
    raised = refl;
    event = _;
    emitted = refl;
    transaction = refl;
  }

  not_answered :
      (s t : Store) (a : Answer (Unit {0})) (mark : Attribute)
      → lookup "PK" (s table marker_key) ≡ some mark
      → Transacted (provisioning_transaction services self specification) s t a
      → (u : Unit {0}) → a ≢ answered u
  not_answered s t (answered v) mark h d u e =
      absurd (some_is_not_none (sym h ∙ (permitted-MayProvision s d.0).unmarked))
  not_answered s t (client_error f) mark h d u e = cc
  not_answered s t (transport_error kind message) mark h d u e = cc
  not_answered s t unexpected mark h d u e = cc
  not_answered s t (interrupted kind) mark h d u e = cc

  -- While another submission stands, a creation raises after one event, its transaction's: it asks nothing
  -- of CloudFormation.
  pub create_stack-Stopped :
      (c : Client W) (mark : Attribute)
      → lookup "PK" (stored c.world table marker_key) ≡ some mark
      → Stopped c
          (create_stack services library self specification c).1
          (create_stack services library self specification c).0
  unfolding create_stack begin_provisioning call timed ◌>>=◌
  create_stack-Stopped c mark h =
      let ops = provisioning_transaction services self specification in
      let (a, w) = services.transact_write_items ops c.world in
      ended-Stopped c w a _
        (not_answered (stored c.world) (stored w) a mark h (dynamo.transaction ops c.world))
