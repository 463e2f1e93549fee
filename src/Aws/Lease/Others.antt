-- ===== src/Aws/Lease/Others.antt =====
-- What the other operations of aws_sdk.py do to a lease that is held: nothing.
use cloud_glider.Prelude.{
  subst, ap, String, Bool, true, false, Option, none, some, List, [], ◌∷◌, ◌==◌, ◌≡◌, ◌≢◌, refl,
  arith,
}
use cloud_glider.Prelude.Int.{ℤ, ◌≤ℤ◌}
use cloud_glider.Python.Value.{Record}
use cloud_glider.Python.Exec.{◌>>=◌, ◌>>◌, pure}
use cloud_glider.Python.Result.{ok}
use cloud_glider.Python.Hoare.{
  Triple, Triple-bind, Triple-lift, Triple-pure, Triple-raise, Triple-if, Triple-raise_if,
}
use cloud_glider.Daemon.Gateway.{Expected}
use cloud_glider.Aws.Dynamo.{Write, delete, equals}
use cloud_glider.Aws.Services.{Services}
use cloud_glider.Aws.Client.{call_allowing, Client, AwsSdkGateway, Reply, replied, refused}
use cloud_glider.Aws.Fence.{fenced_write, text_attribute, lifecycle_check}
use cloud_glider.Aws.Fence.Told.{fenced, fenced_write-Keeps}
use cloud_glider.Aws.Lease.{
  lease_key, lease_update, acquire_lease, renewal, renew_lease, release_lease, released,
}
use cloud_glider.Aws.Lease.Held.{Leased, Leased-lease_is_free, Leased-other}
use cloud_glider.Aws.Current.{claim, claim_initial_current, heartbeat_put, write_heartbeat}
use cloud_glider.Aws.Handoff.Transaction.{handoff_transaction-Parts}
use cloud_glider.Aws.Handoff.{Place, handoff_transaction, handoff_writes}
use cloud_glider.Aws.Hold.{handoff, moved}
use cloud_glider.Aws.Store.{table_of, target_of, Store, holds, permits, all_permit, Documented}
use cloud_glider.Aws.Store.Places.{
  Keeps, Keeps-Spares, Spares, Spares-check, Spares-table, Spares-key,
}
use cloud_glider.Aws.Store.Rules.{In, call_allowing-Keeps}

-- A daemon of the same environment: the same tables, of which the others are not the state table.
pub record Peer (table : String) (g : AwsSdkGateway) : Type 0 where
  pub same : g.config.state_table_name ≡ table
  pub generations : g.config.generation_table_name ≢ table
  pub audit : g.config.audit_table_name ≢ table

module _ {W : Type 0} {services : Services W} (dynamo : Documented services) (table owner : String)
    (expires : ℤ) where
  -- The owner holds the lease in these tables.
  abbrev pub IsHeld : Store → Type 0
  IsHeld s = Leased owner expires (s table lease_key)

  abbrev pub HeldIn : Client W → Type 0
  HeldIn = In dynamo IsHeld

  module _ (g : AwsSdkGateway) (p : Peer table g) where
    pub check-Spares :
        (provisioning : Bool) → Spares table lease_key (lifecycle_check services g provisioning)
    unfolding lifecycle_check
    check-Spares provisioning = Spares-check table _ lease_key _ _

    -- A fenced write that spares the lease keeps it.
    spared_write-HeldIn :
        (op : Write) (code : Option String) (return_conflict : Bool)
        → Spares table lease_key op
        → Triple HeldIn (fenced_write services g op code return_conflict) (λ b. HeldIn) HeldIn
    spared_write-HeldIn op code return_conflict h =
        fenced_write-Keeps dynamo g op code return_conflict IsHeld
          (Keeps-Spares table lease_key (Leased owner expires) _ (check-Spares false, (h, tt)))

    -- So does one whose condition does not hold.
    refused_write-HeldIn :
        (op : Write) (code : Option String) (return_conflict : Bool)
        → ((s : Store) → IsHeld s → all_permit (fenced dynamo g op code) s ≡ false)
        → Triple HeldIn (fenced_write services g op code return_conflict) (λ b. HeldIn) HeldIn
    refused_write-HeldIn op code return_conflict h =
        fenced_write-Keeps dynamo g op code return_conflict IsHeld (λ s i e. cc (h s i))

    -- A write to the lease that only its owner may make.
    blocked :
        (op : Write) (code : Option String) (s : Store)
        → permits op (s (table_of op) (target_of op)) ≡ false
        → all_permit (fenced dynamo g op code) s ≡ false
    unfolding all_permit
    blocked op code s h = ground arith

    module _ (peer : String) (n : peer ≢ owner) where
      pub acquire_lease-HeldIn :
          (generation : String) (now until : ℤ)
          → now ≤ℤ expires
          → Triple HeldIn (acquire_lease services g peer generation now until) (λ b. HeldIn) HeldIn
      unfolding acquire_lease lease_update
      acquire_lease-HeldIn generation now until le = refused_write-HeldIn _ none true (λ s i.
          blocked _ none s
            (rw p.same (Leased-lease_is_free services g peer now (s table lease_key) i n le)))

      renewal-blocked :
          (until : ℤ) (s : Store)
          → IsHeld s
          → permits (renewal services g peer until) (s g.config.state_table_name lease_key) ≡ false
      unfolding renewal holds
      renewal-blocked until s i =
          rw p.same (ground (arith, Leased-other peer (s table lease_key) i n))

      pub renew_lease-HeldIn :
          (until : ℤ) → Triple HeldIn (renew_lease services g peer until) (λ u. HeldIn) HeldIn
      unfolding renew_lease renewal
      renew_lease-HeldIn until =
          Triple-bind (λ b. HeldIn) _ _
            (refused_write-HeldIn _ (some "LEASE_OWNERSHIP_LOST") false
              (λ s i. blocked _ (some "LEASE_OWNERSHIP_LOST") s (renewal-blocked until s i)))
            (λ b. Triple-pure tt (λ c h. h))

      released-HeldIn :
          (r : Reply (Unit {0})) → Triple HeldIn (released services g r) (λ u. HeldIn) HeldIn
      unfolding released
      released-HeldIn (replied u) = Triple-pure tt (λ c h. h)
      released-HeldIn (refused code message reasons) = Triple-raise_if _ _ (λ e c h. h) (λ c h. h)

      release-Keeps : Keeps IsHeld (
          delete g.config.state_table_name lease_key (equals "lease_owner" (text_attribute peer))
          ∷ [])
      unfolding all_permit
      release-Keeps s i e = ground (
        arith,
        ap (λ t. holds (s t lease_key) (equals "lease_owner" (text_attribute peer))) p.same,
        Leased-other peer (s table lease_key) i n,
      )

      pub release_lease-HeldIn : Triple HeldIn (release_lease services g peer) (λ u. HeldIn) HeldIn
      unfolding release_lease
      release_lease-HeldIn =
          Triple-bind (λ r. HeldIn) _ _
            (call_allowing-Keeps dynamo _ _ _ _ IsHeld (λ w. dynamo.deletion _ _ _ w) release-Keeps)
            released-HeldIn

    written-HeldIn :
        (state : Record) (generation stack instance_id : String)
        → Triple HeldIn
            (do
              fenced_write services g
                  (heartbeat_put services g state generation stack instance_id)
                  (some "GENERATION_IDENTITY_CONFLICT")
                  false
              pure tt)
            (λ u. HeldIn)
            HeldIn
    unfolding heartbeat_put
    written-HeldIn state generation stack instance_id =
        Triple-bind (λ b. HeldIn) _ _
          (spared_write-HeldIn _ (some "GENERATION_IDENTITY_CONFLICT") false
            (Spares-table table lease_key _ p.generations))
          (λ b. Triple-pure tt (λ c h. h))

    pub write_heartbeat-HeldIn :
        (state : Record) → Triple HeldIn (write_heartbeat services g state) (λ u. HeldIn) HeldIn
    unfolding write_heartbeat
    write_heartbeat-HeldIn state =
        Triple-bind (λ r. HeldIn) _ _ (Triple-lift _ (λ r e c h. h) (λ c h. h))
          (λ generation.
            Triple-bind (λ r. HeldIn) _ _ (Triple-lift _ (λ r e c h. h) (λ c h. h))
              (λ stack.
                Triple-bind (λ r. HeldIn) _ _ (Triple-lift _ (λ r e c h. h) (λ c h. h))
                  (λ instance_id. written-HeldIn state generation stack instance_id)))

    pub claim_initial_current-HeldIn :
        (identity : Record)
        → Triple HeldIn (claim_initial_current services g identity) (λ b. HeldIn) HeldIn
    unfolding claim_initial_current claim
    claim_initial_current-HeldIn identity =
        spared_write-HeldIn _ none true (Spares-key table lease_key _ refl)

    handoff_writes-Keeps :
        (expected : Expected) (successor audit : Record) (owner next : Place)
        (token updated : String)
        → Keeps IsHeld (handoff_writes services g expected successor audit owner next token updated)
    unfolding handoff_writes
    handoff_writes-Keeps expected successor audit owner' next token updated =
        Keeps-Spares table lease_key (Leased owner expires) _ (
          check-Spares true,
          (
            Spares-check table _ lease_key _ _,
            (
              Spares-check table _ lease_key _ _,
              (
                Spares-check table _ lease_key _ _,
                (
                  Spares-key table lease_key _ refl,
                  (
                    Spares-table table lease_key _ p.generations,
                    (Spares-table table lease_key _ p.audit, tt),
                  ),
                ),
              ),
            ),
          ),
        )

    moved-HeldIn : (r : Reply (Unit {0})) → Triple HeldIn (moved r) (λ b. HeldIn) HeldIn
    unfolding moved
    moved-HeldIn (replied u) = Triple-pure true (λ c h. h)
    moved-HeldIn (refused code message reasons) =
        Triple-if (code == "TransactionCanceledException") _ _ (λ e. Triple-pure false (λ c h. h))
          (λ e. Triple-raise _ (λ c h. h))

    transaction-Keeps :
        (expected : Expected) (successor audit : Record) (ops : List Write)
        → handoff_transaction services g expected successor audit ≡ ok ops
        → Keeps IsHeld ops
    transaction-Keeps expected successor audit ops e =
        let parts = handoff_transaction-Parts services g expected successor audit e in
        subst (Keeps IsHeld) parts.writes (
          handoff_writes-Keeps expected successor audit parts.owner parts.next parts.token
            parts.updated)

    handed_over-HeldIn :
        (ops : List Write)
        → Keeps IsHeld ops
        → Triple HeldIn
            (do
              result ←
                  call_allowing "dynamodb" "transact_write_items"
                    (services.transact_write_items ops)
              moved result)
            (λ b. HeldIn)
            HeldIn
    handed_over-HeldIn ops k =
        Triple-bind (λ r. HeldIn) _ _
          (call_allowing-Keeps dynamo _ _ ops _ IsHeld (dynamo.transaction ops) k) moved-HeldIn

    pub handoff-HeldIn :
        (expected : Expected) (successor audit : Record)
        → Triple HeldIn (handoff services g expected successor audit) (λ b. HeldIn) HeldIn
    unfolding handoff
    handoff-HeldIn expected successor audit =
        Triple-bind
          (λ ops c. HeldIn c × (handoff_transaction services g expected successor audit ≡ ok ops)) _
          _ (Triple-lift _ (λ ops e c h. (h, e)) (λ c h. h))
          (λ ops. record {
            at = λ c (h, e).
                (handed_over-HeldIn ops (transaction-Keeps expected successor audit ops e)).at c h;
          })
