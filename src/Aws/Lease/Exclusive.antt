-- ===== src/Aws/Lease/Exclusive.antt =====
-- The lease of aws_sdk.py as a lock: one daemon holds it at a time.
use cloud_glider.Aws.Provisioning.{
  reconcile_submission, end_provisioning, record_submission, begin_provisioning,
}
use cloud_glider.Prelude.{arith, String, true, false, none, ◌≡◌, ◌≢◌, refl, sym, subst}
use cloud_glider.Prelude.Int.{ℤ, ◌≤ℤ◌}
use cloud_glider.Python.Result.{Result, ok}
use cloud_glider.Python.Value.{Record}
use cloud_glider.Aws.Store.Places.{apply-target}
use cloud_glider.Python.Hoare.{Ends-ok, Triple, either}
use cloud_glider.Daemon.Gateway.{Stack, Specification, Expected}
use cloud_glider.Aws.Services.{Services, Library}
use cloud_glider.Aws.Client.{Client, AwsSdkGateway}
use cloud_glider.Aws.Fence.{lifecycle_check}
use cloud_glider.Aws.Fence.Told.{fenced, fenced_write-Fenced}
use cloud_glider.Aws.Lease.{lease_key, lease_update, acquire_lease, renew_lease, release_lease}
use cloud_glider.Aws.Lease.Held.{Leased, lease_update-Leased, Leased-lease_is_free}
use cloud_glider.Aws.Lease.Others.{
  Peer, HeldIn, acquire_lease-HeldIn, renew_lease-HeldIn, release_lease-HeldIn,
  write_heartbeat-HeldIn, claim_initial_current-HeldIn, handoff-HeldIn,
}
use cloud_glider.Aws.Lease.Creates.{
  reconcile_submission-Kept, end_provisioning-Kept, record_submission-Kept, begin_provisioning-Kept,
  create_stack-Kept,
}
use cloud_glider.Aws.Current.{write_heartbeat, claim_initial_current}
use cloud_glider.Aws.Stacks.{create_stack}
use cloud_glider.Aws.Hold.{handoff}
use cloud_glider.Aws.Store.{Store, Done, all_permit, apply_all, apply, Documented}

module _ {W : Type 0} {services : Services W} (dynamo : Documented services) (library : Library)
    (self : AwsSdkGateway) (owner : String) (expires : ℤ) where
  open dynamo use {stored}

  abbrev table : String
  table = self.config.state_table_name

  -- What daemons of the environment may do while the owner's lease runs, in any order and with any end:
  -- each operation of the gateway that writes the tables is one step, the lease's own as another owner;
  -- the three writes of `create_stack` are steps of their own too.
  pub data Meanwhile (c : Client W) : Client W → Type 0 where
    nothing_yet : Meanwhile c c
    acquiring :
        {d : Client W}
        → Meanwhile c d
        → (g : AwsSdkGateway) → Peer table g
        → (peer : String) → peer ≢ owner
        → (generation : String) (now until : ℤ) → now ≤ℤ expires
        → Meanwhile c (acquire_lease services g peer generation now until d).1
    renewing :
        {d : Client W}
        → Meanwhile c d
        → (g : AwsSdkGateway) → Peer table g
        → (peer : String) → peer ≢ owner
        → (until : ℤ) → Meanwhile c (renew_lease services g peer until d).1
    releasing :
        {d : Client W}
        → Meanwhile c d
        → (g : AwsSdkGateway) → Peer table g
        → (peer : String) → peer ≢ owner
        → Meanwhile c (release_lease services g peer d).1
    beating :
        {d : Client W}
        → Meanwhile c d
        → (g : AwsSdkGateway) → Peer table g
        → (state : Record) → Meanwhile c (write_heartbeat services g state d).1
    claiming :
        {d : Client W}
        → Meanwhile c d
        → (g : AwsSdkGateway) → Peer table g
        → (identity : Record) → Meanwhile c (claim_initial_current services g identity d).1
    handing_over :
        {d : Client W}
        → Meanwhile c d
        → (g : AwsSdkGateway) → Peer table g
        → (expected : Expected) (successor audit : Record)
        → Meanwhile c (handoff services g expected successor audit d).1
    creating :
        {d : Client W}
        → Meanwhile c d
        → (g : AwsSdkGateway) → Peer table g
        → (specification : Specification)
        → Meanwhile c (create_stack services library g specification d).1
    beginning :
        {d : Client W}
        → Meanwhile c d
        → (g : AwsSdkGateway) → Peer table g
        → (specification : Specification)
        → Meanwhile c (begin_provisioning services g specification d).1
    recording :
        {d : Client W}
        → Meanwhile c d
        → (g : AwsSdkGateway) → Peer table g
        → (specification : Specification) (stack_id : String)
        → Meanwhile c (record_submission services g specification stack_id d).1
    ending :
        {d : Client W}
        → Meanwhile c d
        → (g : AwsSdkGateway) → Peer table g
        → (token : String) → Meanwhile c (end_provisioning services g token d).1
    reconciling :
        {d : Client W}
        → Meanwhile c d
        → (g : AwsSdkGateway) → Peer table g
        → (specification : Specification) (stack : Stack)
        → Meanwhile c (reconcile_submission services g specification stack d).1

  abbrev Held : Client W → Type 0
  Held = HeldIn dynamo table owner expires

  kept :
      {A : Type 0} (m : Client W → Result A × Client W) (d : Client W)
      → Triple Held m (λ a. Held) Held
      → Held d
      → Held (m d).1
  kept m d t h = either Held (m d).0 (m d).1 (t.at d h)

  Meanwhile-Held : {c d : Client W} → Meanwhile c d → Held c → Held d
  Meanwhile-Held nothing_yet h = h
  Meanwhile-Held (acquiring {d} s g p peer n generation now until le) h =
      kept _ d (acquire_lease-HeldIn dynamo table owner expires g p peer n generation now until le)
        (Meanwhile-Held s h)
  Meanwhile-Held (renewing {d} s g p peer n until) h =
      kept _ d (renew_lease-HeldIn dynamo table owner expires g p peer n until) (Meanwhile-Held s h)
  Meanwhile-Held (releasing {d} s g p peer n) h =
      kept _ d (release_lease-HeldIn dynamo table owner expires g p peer n) (Meanwhile-Held s h)
  Meanwhile-Held (beating {d} s g p state) h =
      kept _ d (write_heartbeat-HeldIn dynamo table owner expires g p state) (Meanwhile-Held s h)
  Meanwhile-Held (claiming {d} s g p identity) h =
      kept _ d (claim_initial_current-HeldIn dynamo table owner expires g p identity)
        (Meanwhile-Held s h)
  Meanwhile-Held (handing_over {d} s g p expected successor audit) h =
      kept _ d (handoff-HeldIn dynamo table owner expires g p expected successor audit)
        (Meanwhile-Held s h)
  Meanwhile-Held (creating {d} s g p specification) h =
      kept _ d (create_stack-Kept dynamo table owner expires library g p specification)
        (Meanwhile-Held s h)
  Meanwhile-Held (beginning {d} s g p specification) h =
      kept _ d (begin_provisioning-Kept dynamo table owner expires library g p specification)
        (Meanwhile-Held s h)
  Meanwhile-Held (recording {d} s g p specification stack_id) h =
      kept _ d
        (record_submission-Kept dynamo table owner expires library g p specification stack_id)
        (Meanwhile-Held s h)
  Meanwhile-Held (ending {d} s g p token) h =
      kept _ d (end_provisioning-Kept dynamo table owner expires library g p token)
        (Meanwhile-Held s h)
  Meanwhile-Held (reconciling {d} s g p specification stack) h =
      kept _ d
        (reconcile_submission-Kept dynamo table owner expires library g p specification stack)
        (Meanwhile-Held s h)

  taken :
      (generation : String) (now : ℤ) (s t : Store)
      → Done (fenced dynamo self (lease_update services self owner generation now expires) none) s t
      → Leased owner expires (t table lease_key)
  unfolding apply_all lease_update
  taken generation now s t d =
      let op = lease_update services self owner generation now expires in
      let checked = apply (lifecycle_check services self false) s in
      subst (λ u. Leased owner expires (u table lease_key)) (sym d.1)
        (subst (Leased owner expires) (sym (apply-target op checked)) (
          lease_update-Leased services self owner generation now expires (checked table lease_key)))

  acquire_lease-Held :
      (generation : String) (now : ℤ) (c : Client W)
      → (acquire_lease services self owner generation now expires c).0 ≡ ok true
      → Held (acquire_lease services self owner generation now expires c).1
  unfolding acquire_lease
  acquire_lease-Held generation now c e =
      let (r, d) = acquire_lease services self owner generation now expires c in
      let s = stored c.world in
      let t =
        fenced_write-Fenced dynamo self (lease_update services self owner generation now expires)
          none true s in
      taken generation now s (stored d.world) (Ends-ok _ _ r d true e (t.at c refl))

  acquire_lease-refused :
      (g : AwsSdkGateway)
      → Peer table g
      → (peer : String) → peer ≢ owner
      → (generation : String) (now until : ℤ) (d : Client W) → now ≤ℤ expires
      → Held d
      → (acquire_lease services g peer generation now until d).0 ≢ ok true
  unfolding acquire_lease lease_update all_permit
  acquire_lease-refused g p peer n generation now until d le h e =
      let (r, f) = acquire_lease services g peer generation now until d in
      let s = stored d.world in
      let t =
        fenced_write-Fenced dynamo g (lease_update services g peer generation now until) none true
          s in
      let done = Ends-ok _ _ r f true e (t.at d refl) in
      let free = Leased-lease_is_free services g peer now (s table lease_key) h n le in
      ground (arith, done.0, free, p.same)

  -- Once an owner took the lease, and after any sequence of the gateway's writing operations by daemons of the
  -- environment with the same tables, in which only another owner acquires (no later than the expiry), renews
  -- or releases a lease, no other owner takes the lease before it expires. Each operation is one step, save
  -- that the three writes of `create_stack` may also come apart.
  pub acquire_lease-exclusive :
      (generation : String) (now : ℤ) (c : Client W) {d : Client W}
      → (acquire_lease services self owner generation now expires c).0 ≡ ok true
      → Meanwhile (acquire_lease services self owner generation now expires c).1 d
      → (g : AwsSdkGateway) → Peer table g
      → (peer : String) → peer ≢ owner
      → (generation' : String) (later until : ℤ) → later ≤ℤ expires
      → (acquire_lease services g peer generation' later until d).0 ≢ ok true
  acquire_lease-exclusive generation now c {d} taken_by_owner meanwhile g p peer n generation' later
        until le =
      acquire_lease-refused g p peer n generation' later until d le
        (Meanwhile-Held meanwhile (acquire_lease-Held generation now c taken_by_owner))
