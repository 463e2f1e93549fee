-- ===== src/Aws/Capacity.antt =====
-- aws_sdk.py: `_pages` and `check_capacity`.
pub mod Listed
use Prim.Native.String.{◌++◌ as concat}
use cloud_glider.Python.Text.{decimal}
use cloud_glider.Aws.Attribute.{str_of_int}
use cloud_glider.Prelude.{
  ℕ, zero, suc, ◌+◌, ◌*◌, String, Bool, true, false, not, Option, none, some, List, [], ◌∷◌, ◌==◌,
  if◌then◌else◌,
}
use cloud_glider.Prelude.Int.{ℤ, pos, leb_ℤ, ltb_ℤ}
use cloud_glider.Prelude.Lists.{length}
use cloud_glider.Python.Result.{transient, out_of_fuel}
use cloud_glider.Python.Exec.{Exec, pure, raise, raise_if, ◌>>=◌, ◌>>◌}
use cloud_glider.Python.Dict.{Dict}
use cloud_glider.Aws.Services.{Services}
use cloud_glider.Aws.Client.{Client, AwsSdkGateway, call}

unfoldable pub count_instances : List (List String) → ℕ
count_instances [] = 0
count_instances (instances ∷ reservations) = length instances + count_instances reservations

-- `if not token: return`: no token, or an empty one.
unfoldable pub goes_on : Option String → Bool
goes_on none = false
goes_on (some token) = not (token == "")

abbrev quota_value : Option ℤ → ℤ
quota_value none = pos 0
quota_value (some q) = q

abbrev pub ceiling_message : ℕ → ℤ → String
unfolding decimal str_of_int
ceiling_message live most =
    concat "live generation ceiling reached ("
      (concat (decimal live) (concat "/" (concat (str_of_int most) ")")))

module _ {W : Type 0} (services : Services W) (self : AwsSdkGateway) where
  open self use {config}

  abbrev pub live_filters : Dict (List String)
  live_filters =
      ("tag:project", "cloud-glider" ∷ [])
      ∷ ("tag:environment", config.environment ∷ [])
      ∷ ("instance-state-name", "pending" ∷ "running" ∷ "stopping" ∷ "stopped" ∷ [])
      ∷ []

  abbrev offering_filters : Dict (List String)
  offering_filters = ("LocationType", "region" ∷ []) ∷ ("instance-type", "t4g.micro" ∷ []) ∷ []

  -- The sum over the pages of instances. The fuel bounds the pages.
  unfoldable pub count_live : ℕ → Option String → ℕ → Exec (Client W) ℕ
  unfolding call count_instances goes_on
  count_live zero token live = raise out_of_fuel
  count_live (suc fuel) token live = do
    page ← call "ec2" "describe_instances" (services.describe_instances live_filters token)
    let total = live + count_instances page.reservations
    if goes_on page.next_token then count_live fuel page.next_token total else pure total

  abbrev is_empty : List String → Bool
  is_empty [] = true
  is_empty (x ∷ xs) = false

  -- `any` reads no page after the first with an offering.
  unfoldable pub any_offering : ℕ → Option String → Exec (Client W) Bool
  unfolding call goes_on
  any_offering zero token = raise out_of_fuel
  any_offering (suc fuel) token = do
    page ←
        call "ec2" "describe_instance_type_offerings"
          (services.describe_instance_type_offerings offering_filters token)
    if not (is_empty page.offerings)
        then pure true
        else if goes_on page.next_token
        then any_offering fuel page.next_token
        else pure false

  unfoldable pub check_capacity : ℕ → ℤ → Exec (Client W) (Unit {0})
  unfolding count_live any_offering call
  check_capacity fuel max_live_generations = do
    live ← count_live fuel none 0
    raise_if (leb_ℤ max_live_generations (pos live))
        (transient (ceiling_message live max_live_generations))
    offered ← any_offering fuel none
    raise_if (not offered) (transient "t4g.micro is not offered in this region")
    quota ←
        call "service-quotas" "get_service_quota" (services.get_service_quota "ec2" "L-1216C47A")
    raise_if (ltb_ℤ (quota_value quota) (pos ((live + 1) * 2000)))
        (transient "standard-instance vCPU quota has insufficient headroom")
