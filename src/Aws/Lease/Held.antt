-- ===== src/Aws/Lease/Held.antt =====
-- The lease item of aws_sdk.py while an owner holds it, and who can change it.
use cloud_glider.Prelude.{String, false, some, ◌≡◌, ◌≢◌, eq_iff, arith}
use cloud_glider.Prelude.Int.{ℤ, ◌≤ℤ◌}
use cloud_glider.Python.Dict.{lookup, lookup-insert}
use cloud_glider.Python.Dict
use cloud_glider.Aws.Attribute.{Item}
use cloud_glider.Aws.Attribute.Reads.{int_of_text-str_of_int}
use cloud_glider.Aws.Dynamo.{equals}
use cloud_glider.Aws.Services.{Services}
use cloud_glider.Aws.Client.{AwsSdkGateway}
use cloud_glider.Aws.Fence.{text_attribute}
use cloud_glider.Aws.Lease.{number_attribute, lease_is_free, lease_update}
use cloud_glider.Aws.Store.{
  holds, is_equal, is_less, is_less_number, attribute_eq, scalar_eq, result_of,
}

-- The item says that the owner holds the lease up to a time.
pub record Leased (owner : String) (expires : ℤ) (i : Item) : Type 0 where
  pub exists : lookup "PK" i ≡ some (text_attribute "LOCK")
  pub owned : lookup "lease_owner" i ≡ some (text_attribute owner)
  pub bounded : lookup "expires_at" i ≡ some (number_attribute expires)

module _ {W : Type 0} (services : Services W) (self : AwsSdkGateway) where
  -- A lease that was taken is held.
  pub lease_update-Leased :
      (owner generation : String) (now expires : ℤ) (i : Item)
      → Leased owner expires (result_of (lease_update services self owner generation now expires) i)
  unfolding lease_update Dict.update
  lease_update-Leased owner generation now expires i = record {
    exists = simp lookup-insert;
    owned = simp lookup-insert;
    bounded = simp lookup-insert;
  }

-- Another text is not the owner.
other_owner :
    (owner peer : String) (i : Item)
    → lookup "lease_owner" i ≡ some (text_attribute owner)
    → peer ≢ owner
    → is_equal (lookup "lease_owner" i) (text_attribute peer) ≡ false
unfolding is_equal attribute_eq scalar_eq
other_owner owner peer i h n = rw h (ground (arith, eq_iff owner peer))

not_expired :
    (expires now : ℤ) (i : Item)
    → lookup "expires_at" i ≡ some (number_attribute expires)
    → now ≤ℤ expires
    → is_less (lookup "expires_at" i) (number_attribute now) ≡ false
unfolding is_less is_less_number
not_expired expires now i h le =
    rw h (rw (int_of_text-str_of_int expires) (rw (int_of_text-str_of_int now) (ground arith)))

-- While the lease runs, nobody else takes it, renews it or gives it back.
pub Leased-lease_is_free :
    {W : Type 0} (services : Services W) (g : AwsSdkGateway) {owner : String} {expires : ℤ}
    (peer : String) (now : ℤ) (i : Item)
    → Leased owner expires i
    → peer ≢ owner
    → now ≤ℤ expires
    → holds i (lease_is_free services g peer now) ≡ false
unfolding holds
Leased-lease_is_free services g {owner} {expires} peer now i h n le =
    rw h.exists (rw (not_expired expires now i h.bounded le) (other_owner owner peer i h.owned n))

pub Leased-other :
    {owner : String} {expires : ℤ} (peer : String) (i : Item)
    → Leased owner expires i
    → peer ≢ owner
    → holds i (equals "lease_owner" (text_attribute peer)) ≡ false
unfolding holds
Leased-other {owner} {expires} peer i h n = other_owner owner peer i h.owned n
