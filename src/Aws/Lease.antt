-- ===== src/Aws/Lease.antt =====
-- aws_sdk.py: `acquire_lease`, `renew_lease`, `release_lease`.
pub mod Held
pub mod Others
pub mod Creates
pub mod Exclusive
use cloud_glider.Prelude.{false, true, String, Bool, not, none, some, [], ◌∷◌, ◌==◌}
use cloud_glider.Prelude.Int.{ℤ}
use cloud_glider.Python.Result.{transient}
use cloud_glider.Python.Exec.{Exec, pure, raise_if, ◌>>=◌, ◌>>◌}
use cloud_glider.Aws.Attribute.{Attribute, Item, scalar, number, str_of_int}
use cloud_glider.Aws.Dynamo.{
  Key, Condition, attribute_not_exists, equals, less, both, one, Write, update,
}
use cloud_glider.Aws.Services.{Services}
use cloud_glider.Aws.Client.{Client, AwsSdkGateway, Reply, replied, refused, call_allowing}
use cloud_glider.Aws.Fence.{text_attribute, fenced_write}

-- `{"N": str(n)}`.
abbrev pub number_attribute : ℤ → Attribute
number_attribute n = scalar (number (str_of_int n))

abbrev pub lease_key : Key
lease_key = record { pk = "LOCK"; sk = "PROPAGATION" }

module _ {W : Type 0} (services : Services W) (self : AwsSdkGateway) where
  open self use {config}

  abbrev pub lease_is_free : String → ℤ → Condition
  lease_is_free owner now =
      one (one (attribute_not_exists "PK") (less "expires_at" (number_attribute now)))
        (equals "lease_owner" (text_attribute owner))

  abbrev pub lease_assignments : (owner generation : String) → ℤ → Item
  lease_assignments owner generation expires =
      ("lease_owner", text_attribute owner)
      ∷ ("generation", text_attribute generation)
      ∷ ("expires_at", number_attribute expires)
      ∷ ("request_id", text_attribute config.request_id)
      ∷ []

  unfoldable pub lease_update : (owner generation : String) → (now expires : ℤ) → Write
  lease_update owner generation now expires =
      update config.state_table_name lease_key (lease_assignments owner generation expires)
        (lease_is_free owner now)

  unfoldable pub acquire_lease :
      (owner generation : String) → (now expires : ℤ) → Exec (Client W) Bool
  acquire_lease owner generation now expires =
      fenced_write services self (lease_update owner generation now expires) none true

  unfoldable pub renewal : String → ℤ → Write
  renewal owner expires =
      update config.state_table_name lease_key (("expires_at", number_attribute expires) ∷ []) (
        both (equals "lease_owner" (text_attribute owner))
          (equals "request_id" (text_attribute config.request_id)))

  unfoldable pub renew_lease : String → ℤ → Exec (Client W) (Unit {0})
  renew_lease owner expires = do
    fenced_write services self (renewal owner expires) (some "LEASE_OWNERSHIP_LOST") false
    pure tt

  unfoldable pub released : Reply (Unit {0}) → Exec (Client W) (Unit {0})
  released (replied u) = pure tt
  released (refused code message reasons) =
      raise_if (not (code == "ConditionalCheckFailedException")) (transient message)

  unfoldable pub release_lease : String → Exec (Client W) (Unit {0})
  unfolding released
  release_lease owner = do
    result ← call_allowing "dynamodb" "delete_item" (
        services.delete_item config.state_table_name lease_key
          (equals "lease_owner" (text_attribute owner)))
    released result
