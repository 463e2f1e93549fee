-- ===== src/Aws/Handoff/Moves.antt =====
-- `handoff` of aws_sdk.py as a compare-and-swap of CURRENT.
use cloud_glider.Aws.Store.Places.{apply_all-Spares, apply-target, Spares-table, all_permit-cons}
use cloud_glider.Aws.Handoff.Transaction.{handoff_transaction-Parts}
use cloud_glider.Aws.Store.Rules.{call_allowing-Told, Told, In}
use cloud_glider.Python.Hoare.{
  Triple-lift, Triple-mono, Triple-bind, Triple-raise, Triple-if, Triple-pure, Triple, Ends-ok,
}
use cloud_glider.Aws.Lease.Others.{Peer}
use cloud_glider.Aws.Hold.{handoff, moved}
use cloud_glider.Python.Exec.{◌>>=◌}
use cloud_glider.Prelude.{
  eq_iff, ◌≢◌, ◌∙◌, refl, false, ◌==◌, sym, subst, arith, String, true, none, some, List, [], ◌∷◌,
  ◌≡◌,
}
use cloud_glider.Python.Result.{ok_inj, ok}
use cloud_glider.Python.Dict.{lookup, lookup-insert, update}
use cloud_glider.Python.Value.{Record}
use cloud_glider.Daemon.Gateway.{Expected}
use cloud_glider.Aws.Attribute.{Item}
use cloud_glider.Aws.Dynamo.{put, condition_check, attribute_not_exists, both, Write, equals}
use cloud_glider.Aws.Services.{Services}
use cloud_glider.Aws.Client.{refused, call_allowing, replied, Reply, Client, AwsSdkGateway}
use cloud_glider.Aws.Fence.{text_attribute, lifecycle_check}
use cloud_glider.Aws.Handoff.{
  audit_item, successor_update, owner_swap, handoff_transaction, Bool, Place, place_of, owner_is,
  owner_becomes, control_condition, handoff_writes,
}
use cloud_glider.Aws.Lease.{lease_key}
use cloud_glider.Aws.Provisioning.{control_key, hold_key}
use cloud_glider.Aws.Snapshot.{current_key}
use cloud_glider.Aws.Store.{
  scalar_eq, attribute_eq, is_equal, apply, Done, apply_all, Store, holds, permits, Documented,
}

-- CURRENT names this place.
pub record Names (place : Place) (i : Item) : Type 0 where
  pub generation : lookup "generation" i ≡ some (text_attribute place.generation)
  pub stack_id : lookup "stack_id" i ≡ some (text_attribute place.stack_id)
  pub instance_id : lookup "instance_id" i ≡ some (text_attribute place.instance_id)
  pub status : lookup "status" i ≡ some (text_attribute "CURRENT")

absent :
    (i : Item)
    → holds i (both (attribute_not_exists "PK") (attribute_not_exists "SK")) ≡ true
    → lookup "PK" i ≡ none
unfolding holds
absent i h = ground arith

module _ {W : Type 0} {services : Services W} (dynamo : Documented services)
    (self : AwsSdkGateway) where
  open dynamo use {stored}

  -- What the tables said before the handoff, each in its own item, and what they say after it.
  pub record Moved (expected : Expected) (successor : Record) (before after : Store) : Type 0 where
    pub owner : Place
    pub next : Place
    pub owner_read : place_of expected.identity ≡ ok owner
    pub next_read : place_of successor ≡ ok next
    pub permitted :
        permits
          (lifecycle_check services self true)
          (before self.config.state_table_name (record { pk = "BOOTSTRAP"; sk = "REQUEST" }))
        ≡ true
    pub approved :
        holds
          (before self.config.state_table_name control_key)
          (control_condition expected.control_identity)
        ≡ true
    pub not_held : lookup "PK" (before self.config.state_table_name hold_key) ≡ none
    pub leased :
        holds
          (before self.config.state_table_name lease_key)
          (equals "lease_owner" (text_attribute expected.lease_owner))
        ≡ true
    pub owned :
        holds (before self.config.state_table_name current_key) (owner_is services self owner)
        ≡ true
    pub now : Names next (after self.config.state_table_name current_key)

  module _ (expected : Expected) (successor audit : Record) (owner next : Place)
      (token updated : String) where
    abbrev writes : List Write
    writes = handoff_writes services self expected successor audit owner next token updated

    becomes-Names :
        (i : Item)
        → Names next (
            update
              (update i (("PK", text_attribute "CURRENT") ∷ ("SK", text_attribute "GLOBAL") ∷ []))
              (owner_becomes services self next token updated))
    unfolding update owner_becomes
    becomes-Names i = record {
      generation = simp lookup-insert;
      stack_id = simp lookup-insert;
      instance_id = simp lookup-insert;
      status = simp lookup-insert;
    }

    -- The store as the first four entries leave it.
    abbrev checks : Store → Store
    checks s =
        apply
          (condition_check self.config.state_table_name lease_key
            (equals "lease_owner" (text_attribute expected.lease_owner)))
          (apply
            (condition_check self.config.state_table_name hold_key
              (both (attribute_not_exists "PK") (attribute_not_exists "SK")))
            (apply
              (condition_check self.config.state_table_name control_key
                (control_condition expected.control_identity))
              (apply (lifecycle_check services self true) s)))

    -- The fifth write is the only one to CURRENT.
    written-Names :
        (s : Store)
        → Peer self.config.state_table_name self
        → Names next (apply_all writes s self.config.state_table_name current_key)
    unfolding handoff_writes apply_all
    written-Names s p =
        let table = self.config.state_table_name in
        let swap = owner_swap services self owner next token updated in
        let checked = checks s in
        let state = successor_update services self successor next token in
        let record_of_it = put self.config.audit_table_name (audit_item services self audit) none in
        subst (Names next)
          (sym (
            apply_all-Spares (state ∷ record_of_it ∷ []) (apply swap checked) table current_key (
              Spares-table table current_key state p.generations,
              (Spares-table table current_key record_of_it p.audit, tt),
            )
            ∙ apply-target swap checked))
          (becomes-Names (checked table current_key))

    Done-Moved :
        (s t : Store)
        → Peer self.config.state_table_name self
        → place_of expected.identity ≡ ok owner
        → place_of successor ≡ ok next
        → Done writes s t
        → Moved expected successor s t
    unfolding handoff_writes
    Done-Moved s t p ho hn (permitted, after) =
        let (lifecycle, r1) = all_permit-cons _ _ s permitted in
        let (control, r2) = all_permit-cons _ _ s r1 in
        let (hold, r3) = all_permit-cons _ _ s r2 in
        let (lease, r4) = all_permit-cons _ _ s r3 in
        let (current, r5) = all_permit-cons _ _ s r4 in
        record {
          owner = owner;
          next = next;
          owner_read = ho;
          next_read = hn;
          permitted = lifecycle;
          approved = control;
          not_held = absent (s self.config.state_table_name hold_key) hold;
          leased = lease;
          owned = current;
          now =
              subst (λ u. Names next (u self.config.state_table_name current_key)) (sym after)
                (written-Names s p);
        }

  moved-Done :
      (ops : List Write) (s : Store) (r : Reply (Unit {0}))
      → Triple
          (λ c. Told ops s r (stored c.world))
          (moved r)
          (λ b c. b ≡ true → Done ops s (stored c.world))
          (λ c. Unit)
  unfolding moved
  moved-Done ops s (replied u) = Triple-pure true (λ c d e. d)
  moved-Done ops s (refused code message reasons) =
      Triple-if (code == "TransactionCanceledException") _ _ (λ e. Triple-pure false (λ c d f. cc))
        (λ e. Triple-raise _ (λ c d. tt))

  -- The transaction that a handoff which returns `True` did.
  abbrev Did : Expected → (successor audit : Record) → Store → Bool → Store → Type 0
  Did expected successor audit s b t =
      b ≡ true
      → (ops : List Write) × (handoff_transaction services self expected successor audit ≡ ok ops)
        × Done ops s t

  handoff-Did :
      (expected : Expected) (successor audit : Record) (s : Store)
      → Triple
          (In dynamo (λ t. t ≡ s))
          (handoff services self expected successor audit)
          (λ b c. Did expected successor audit s b (stored c.world))
          (λ c. Unit)
  unfolding handoff
  handoff-Did expected successor audit s =
      Triple-bind
        (λ ops c.
          (stored c.world ≡ s)
          × (handoff_transaction services self expected successor audit ≡ ok ops))
        _ _ (Triple-lift _ (λ ops e c p. (p, e)) (λ c p. tt))
        (λ ops. record { at = λ c (p, e). (did ops e).at c p })
    where
      did :
          (ops : List Write)
          → handoff_transaction services self expected successor audit ≡ ok ops
          → Triple
              (In dynamo (λ t. t ≡ s))
              (call_allowing "dynamodb" "transact_write_items" (services.transact_write_items ops)
                >>= moved)
              (λ b c. Did expected successor audit s b (stored c.world))
              (λ c. Unit)
      did ops e =
          Triple-bind (λ r c. Told ops s r (stored c.world)) _ _
            (Triple-mono (call_allowing-Told dynamo _ _ ops _ s (dynamo.transaction ops))
              (λ r c h. h) (λ c h. tt))
            (λ r. Triple-mono (moved-Done ops s r) (λ b c h t. (ops, e, h t)) (λ c h. tt))

  -- A handoff that returns `True` found the tables as it expects them, and CURRENT names the successor.
  pub handoff-Moved :
      (expected : Expected) (successor audit : Record) (c : Client W)
      → Peer self.config.state_table_name self
      → (handoff services self expected successor audit c).0 ≡ ok true
      → Moved expected successor
          (stored c.world)
          (stored (handoff services self expected successor audit c).1.world)
  handoff-Moved expected successor audit c p e =
      let (r, d) = handoff services self expected successor audit c in
      let s = stored c.world in
      let (ops, h, done) =
        Ends-ok _ _ r d true e ((handoff-Did expected successor audit s).at c refl) refl in
      let parts = handoff_transaction-Parts services self expected successor audit h in
      Done-Moved expected successor audit parts.owner parts.next parts.token parts.updated s
        (stored d.world) p parts.owner_read parts.next_read
        (subst (λ w. Done w s (stored d.world)) (sym parts.writes) done)

-- CURRENT names one stack, so an owner with another one does not hold it.
Names-owner_is :
    {W : Type 0} (services : Services W) (g : AwsSdkGateway) (next owner : Place) (i : Item)
    → Names next i
    → next.stack_id ≢ owner.stack_id
    → holds i (owner_is services g owner) ≡ false
unfolding holds owner_is is_equal attribute_eq scalar_eq
Names-owner_is services g next owner i h n =
    ground (arith, h.stack_id, eq_iff next.stack_id owner.stack_id)

own_peer : {table : String} (g : AwsSdkGateway) → Peer table g → Peer g.config.state_table_name g
own_peer g q = record {
  same = refl;
  generations = λ e. q.generations (e ∙ q.same);
  audit = λ e. q.audit (e ∙ q.same);
}

-- Where a handoff from an owner to a successor with another stack than the owner's returned `True`, a further
-- handoff from that owner, by any daemon of the environment in the very state that the first left, does not
-- return `True`.
pub handoff-once :
    {W : Type 0} {services : Services W} (dynamo : Documented services) (self g : AwsSdkGateway)
    (expected expected' : Expected) (successor audit successor' audit' : Record) (c : Client W)
    {owner next : Place}
    → Peer self.config.state_table_name self
    → Peer self.config.state_table_name g
    → place_of expected.identity ≡ ok owner
    → place_of expected'.identity ≡ ok owner
    → place_of successor ≡ ok next
    → next.stack_id ≢ owner.stack_id
    → (handoff services self expected successor audit c).0 ≡ ok true
    → (handoff services g expected' successor' audit'
        (handoff services self expected successor audit c).1).0
      ≢ ok true
handoff-once {services} dynamo self g expected expected' successor audit successor' audit' c {owner}
      {next} p q first second to n one two =
    let d = (handoff services self expected successor audit c).1 in
    let m1 = handoff-Moved dynamo self expected successor audit c p one in
    let m2 = handoff-Moved dynamo g expected' successor' audit' d (own_peer g q) two in
    let t = dynamo.stored d.world in
    let named : Names next (t self.config.state_table_name current_key) =
      subst (λ x. Names x (t self.config.state_table_name current_key))
        (ok_inj (sym m1.next_read ∙ to)) m1.now in
    let owned : holds (t self.config.state_table_name current_key) (owner_is services g owner)
        ≡ true =
      subst (λ x. holds (t self.config.state_table_name current_key) (owner_is services g x) ≡ true)
        (ok_inj (sym m2.owner_read ∙ second))
        (subst (λ x. holds (t x current_key) (owner_is services g m2.owner) ≡ true) q.same
          m2.owned) in
    cc (
      Names-owner_is services g next owner (t self.config.state_table_name current_key) named n,
      owned,
    )
