-- ===== src/Family/Run/Backoff.antt =====
-- How long `FamilyDaemon.run` waits after failures.
use cloud_glider.Prelude.{ℕ, zero, suc, ◌*◌, ◌^◌, ◌≤◌, arith}
use cloud_glider.Prelude.Int.{ℤ, pos, negsuc, ◌*ℤ◌, ◌≤ℤ◌}
use cloud_glider.Prelude.{String, ◌≡◌}
use cloud_glider.Python.Result.{ok}
use cloud_glider.Family.Config.{Ec2DaemonConfig}
use cloud_glider.Family.Session.{FamilyGateway, FamilyDaemon}
use cloud_glider.Family.Inherited.{validate, whole_item}
use cloud_glider.Family.Inherited.Valid.{validate-settings, settings-IsTimed}
use cloud_glider.Family.Run.{family_daemon, least, longest_delay}

power_pos : (k : ℕ) → 1 ≤ 2 ^ k
power_pos zero = omega arith
power_pos (suc k) = omega (arith, power_pos k)

product : (p m : ℕ) → 1 ≤ m → p ≤ p * m
product p zero h = absurd (omega arith)
product p (suc m) h = omega arith

grows : (p k : ℕ) → p ≤ p * 2 ^ k
grows p k = product p (2 ^ k) (power_pos k)

-- If polling takes less time than the longest backoff, as the settings must, the longest delay after any
-- number of failures lies between the two.
pub longest_delay-within :
    (backoff poll : ℤ) (failures : ℕ)
    → pos 1 ≤ℤ poll
    → poll ≤ℤ backoff
    → (poll ≤ℤ longest_delay backoff poll failures)
      × (longest_delay backoff poll failures ≤ℤ backoff)
unfolding longest_delay ◌*ℤ◌
longest_delay-within backoff (pos p) failures h k =
    (ground (arith, grows p (least failures 10)), ground arith)
longest_delay-within backoff (negsuc p) failures h k = absurd (ground arith)

made-settings :
    {W : Type 0} (c : Ec2DaemonConfig) (g : FamilyGateway W) (correlation : String)
    (d : FamilyDaemon W)
    → family_daemon c g correlation ≡ ok d
    → validate g.digest c ≡ ok d.settings
unfolding family_daemon
made-settings c g correlation d h = ground arith

-- For a daemon that `__init__` makes, the longest delay after any number of failures lies between the poll
-- interval and the maximal backoff of its settings.
pub family_daemon-IsPatient :
    {W : Type 0} (c : Ec2DaemonConfig) (g : FamilyGateway W) (correlation : String)
    (d : FamilyDaemon W) (poll backoff : ℤ) (failures : ℕ)
    → family_daemon c g correlation ≡ ok d
    → whole_item d.settings "readiness_poll_seconds" ≡ ok poll
    → whole_item d.settings "retry_backoff_max_seconds" ≡ ok backoff
    → (poll ≤ℤ longest_delay backoff poll failures)
      × (longest_delay backoff poll failures ≤ℤ backoff)
family_daemon-IsPatient c g correlation d poll backoff failures made p b =
    let valid = validate-settings g.digest c (made-settings c g correlation d made) in
    let (least_poll, fits) = settings-IsTimed c d.settings valid p b in
    longest_delay-within backoff poll failures least_poll fits
