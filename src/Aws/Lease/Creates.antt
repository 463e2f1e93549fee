-- ===== src/Aws/Lease/Creates.antt =====
-- `create_stack` of aws_sdk.py, its parts, and `reconcile_submission` leave a lease that is held.
use cloud_glider.Python.Value.{Record}
use cloud_glider.Prelude.{[], ◌∷◌, String, true, refl}
use cloud_glider.Prelude.Int.{ℤ}
use cloud_glider.Python.Exec.{Exec}
use cloud_glider.Python.Hoare.{Triple-raise_if, Triple, Triple-bind, Triple-lift, Triple-pure}
use cloud_glider.Daemon.Gateway.{Stack, Specification}
use cloud_glider.Aws.Services.{Services, Library}
use cloud_glider.Aws.Client.{Client, AwsSdkGateway}
use cloud_glider.Aws.Lease.{◌∷◌, lease_key}
use cloud_glider.Aws.Lease.Held.{Leased}
use cloud_glider.Aws.Lease.Others.{Peer, IsHeld, HeldIn, check-Spares}
use cloud_glider.Aws.Provisioning.{
  reconcile_submission, settle, marker, provisioning_transaction, begin_provisioning,
  record_submission, end_provisioning,
}
use cloud_glider.Aws.Stacks.{create_stack}
use cloud_glider.Aws.Store.{Documented, key_of}
use cloud_glider.Aws.Store.Places.{Keeps, Keeps-Spares, Spares-check, Spares-table, Spares-key}
use cloud_glider.Aws.Store.Rules.{get_record-keeps, call-Keeps, call-keeps}

module _ {W : Type 0} {services : Services W} (dynamo : Documented services) (table owner : String)
    (expires : ℤ) (library : Library) (g : AwsSdkGateway) (p : Peer table g) where
  abbrev Kept : {A : Type 0} → Exec (Client W) A → Type 0
  Kept m =
      Triple (HeldIn dynamo table owner expires) m (λ a. HeldIn dynamo table owner expires)
        (HeldIn dynamo table owner expires)

  provisioning-Keeps :
      (specification : Specification)
      → Keeps
          (IsHeld dynamo table owner expires)
          (provisioning_transaction services g specification)
  unfolding provisioning_transaction marker key_of
  provisioning-Keeps specification = Keeps-Spares table lease_key (Leased owner expires) _ (
    check-Spares dynamo table owner expires g p true,
    (
      Spares-check table _ lease_key _ _,
      (Spares-check table _ lease_key _ _, (Spares-key table lease_key _ refl, tt)),
    ),
  )

  pub begin_provisioning-Kept :
      (specification : Specification) → Kept (begin_provisioning services g specification)
  unfolding begin_provisioning
  begin_provisioning-Kept specification =
      Triple-bind (λ u. HeldIn dynamo table owner expires) _ _
        (call-Keeps dynamo _ _ _ _ _ (dynamo.transaction _) (provisioning-Keeps specification))
        (λ u. Triple-pure _ (λ c h. h))

  pub record_submission-Kept :
      (specification : Specification) (stack_id : String)
      → Kept (record_submission services g specification stack_id)
  unfolding record_submission
  record_submission-Kept specification stack_id =
      call-Keeps dynamo _ _ _ _ _ (dynamo.insertion _ _ _) (
        Keeps-Spares table lease_key (Leased owner expires) _
          (Spares-table table lease_key _ p.generations, tt))

  pub end_provisioning-Kept : (token : String) → Kept (end_provisioning services g token)
  unfolding end_provisioning
  end_provisioning-Kept token = call-Keeps dynamo _ _ _ _ _ (dynamo.deletion _ _ _) (
      Keeps-Spares table lease_key (Leased owner expires) _ (Spares-key table lease_key _ refl, tt))

  settle-Kept :
      (found : Record) (specification : Specification) (stack : Stack)
      → Kept (settle services g found specification stack)
  unfolding settle
  settle-Kept [] specification stack = Triple-pure tt (λ c h. h)
  settle-Kept (entry ∷ entries) specification stack =
      Triple-bind (λ u. HeldIn dynamo table owner expires) _ _
        (Triple-raise_if _ _ (λ e c h. h) (λ c h. h))
        (λ u.
          Triple-bind (λ a. HeldIn dynamo table owner expires) _ _
            (Triple-lift _ (λ r e c h. h) (λ c h. h))
            (λ stack_id.
              Triple-bind (λ v. HeldIn dynamo table owner expires) _ _
                (record_submission-Kept specification stack_id)
                (λ v. end_provisioning-Kept specification.client_token)))

  pub reconcile_submission-Kept :
      (specification : Specification) (stack : Stack)
      → Kept (reconcile_submission services g specification stack)
  unfolding reconcile_submission
  reconcile_submission-Kept specification stack =
      Triple-bind (λ found. HeldIn dynamo table owner expires) _ _
        (get_record-keeps dynamo g "LOCK" "PROVISIONING" (IsHeld dynamo table owner expires))
        (λ found. settle-Kept found specification stack)

  pub create_stack-Kept :
      (specification : Specification) → Kept (create_stack services library g specification)
  unfolding create_stack
  create_stack-Kept specification =
      Triple-bind (λ a. HeldIn dynamo table owner expires) _ _
        (begin_provisioning-Kept specification)
        (λ token.
          Triple-bind (λ a. HeldIn dynamo table owner expires) _ _
            (Triple-lift _ (λ r e c h. h) (λ c h. h))
            (λ url.
              Triple-bind (λ a. HeldIn dynamo table owner expires) _ _
                (call-keeps dynamo _ _ _ (IsHeld dynamo table owner expires) (dynamo.creation _))
                (λ stack_id.
                  Triple-bind (λ a. HeldIn dynamo table owner expires) _ _
                    (record_submission-Kept specification stack_id)
                    (λ u.
                      Triple-bind (λ a. HeldIn dynamo table owner expires) _ _
                        (end_provisioning-Kept token) (λ v. Triple-pure _ (λ c h. h))))))
