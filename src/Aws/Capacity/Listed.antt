-- ===== src/Aws/Capacity/Listed.antt =====
-- The count of live instances in aws_sdk.py, where the service lists them on finitely many pages.
use cloud_glider.Prelude.{ℕ, zero, suc, ◌+◌, ◌≤◌, String, true, false, Option, ◌≡◌, arith, ◌∙◌, ap}
use cloud_glider.Python.Result.{ok}
use cloud_glider.Python.Exec.{◌>>=◌, pure}
use cloud_glider.Aws.Services.{answered, InstancePage, Services}
use cloud_glider.Aws.Client.{Client, AwsSdkGateway, call, timed, requiring, emit}
use cloud_glider.Aws.Capacity.{count_instances, goes_on, live_filters, count_live}

module _ {W : Type 0} (services : Services W) (self : AwsSdkGateway) where
  -- From a token and a world, the service lists this many instances on this many pages.
  pub data Lists : (token : Option String) → W → (total pages : ℕ) → Type 0 where
    last :
        {token : Option String} {w : W} (page : InstancePage) (w' : W)
        → services.describe_instances (live_filters services self) token w ≡ (answered page, w')
        → goes_on page.next_token ≡ false
        → Lists token w (count_instances page.reservations) 1
    more :
        {token : Option String} {w : W} {total pages : ℕ} (page : InstancePage) (w' : W)
        → services.describe_instances (live_filters services self) token w ≡ (answered page, w')
        → goes_on page.next_token ≡ true
        → Lists page.next_token w' total pages
        → Lists token w (count_instances page.reservations + total) (suc pages)

  -- With fuel for each page, the count ends and is the number of instances.
  pub count_live-total :
      {token : Option String} {total pages : ℕ} (fuel live : ℕ) (c : Client W)
      → Lists token c.world total pages
      → pages ≤ fuel
      → (count_live services self fuel token live c).0 ≡ ok (live + total)
  unfolding count_live call timed requiring emit ◌>>=◌ pure
  count_live-total zero live c (last page w' e n) le = absurd (omega arith)
  count_live-total zero live c (more page w' e n rest) le = absurd (omega arith)
  count_live-total (suc fuel) live c (last page w' e n) le = rw e (rw n)
  count_live-total {token} (suc fuel) live c (more {total} page w' e n rest) le = rw e (
      rw n (
        count_live-total {token = page.next_token} fuel (live + count_instances page.reservations) _
          rest (omega arith)
        ∙ ap ok (omega arith)))
