-- ===== src/Family/Monitor.antt =====
-- family_daemon.py, `ControlMonitor`: one outstanding read of the remote stop, and the age of the last
-- good one. The clock counts milliseconds. Every caller holds the lock for a whole `_tick`, so whatever
-- the threads do is a sequence of ticks.
pub mod Evidence
use cloud_glider.Prelude.{
  ℕ, ◌+◌, ◌*◌, String, Bool, true, false, not, ◌&&◌, ◌||◌, Option, none, some, List, [], ◌∷◌, leb,
  if◌then◌else◌,
}
use cloud_glider.Python.Result.{Result, ok, err}

-- The settings that the monitor reads.
pub record MonitorSettings : Type 0 where
  pub initial_propagation_enabled : Bool
  pub control_max_age_seconds : ℕ
  pub control_poll_seconds : ℕ

pub record ControlMonitor : Type 0 where
  pub stopped : Bool
  pub observed_at : ℕ
  pub submitted_at : Option ℕ
  pub next_poll : ℕ
  pub pending : Bool
  pub reason : Option String

-- `__init__`, at the given time.
unfoldable pub monitor : MonitorSettings → ℕ → ControlMonitor
monitor settings now = record {
  stopped = not settings.initial_propagation_enabled;
  observed_at = now;
  submitted_at = none;
  next_poll = 0;
  pending = false;
  reason = none;
}

-- `if self.reason is None: self.reason = text`.
abbrev pub or_reason : Option String → String → Option String
or_reason none s = some s
or_reason (some r) s = some r

abbrev pub or_observed : Option ℕ → ℕ → ℕ
or_observed none observed = observed
or_observed (some at) observed = at

-- What the answered read says; one that failed says nothing.
unfoldable pub receive : Result Bool → ControlMonitor → ControlMonitor
receive (err e) m = record m { pending = false }
receive (ok remote_stop) m = record m {
  stopped = m.stopped || remote_stop;
  reason = if remote_stop then or_reason m.reason "remote stop/hold/cycle fence" else m.reason;
  observed_at = or_observed m.submitted_at m.observed_at;
  pending = false;
}

-- The first block of `_tick`: `none` where the outstanding read is not done.
unfoldable pub take_reply : Option (Result Bool) → ControlMonitor → ControlMonitor
take_reply none m = m
take_reply (some reply) m = if m.pending then receive reply m else m

-- The second block: an old observation stops.
unfoldable pub expire : MonitorSettings → ℕ → ControlMonitor → ControlMonitor
expire settings now m =
    if leb (m.observed_at + settings.control_max_age_seconds * 1000) now
    then record m { stopped = true; reason = or_reason m.reason "control freshness expired" }
    else m

-- The third block: the next read.
unfoldable pub submit : MonitorSettings → ℕ → ControlMonitor → ControlMonitor
submit settings now m =
    if not m.pending && leb m.next_poll now
    then record m {
      submitted_at = some now;
      pending = true;
      next_poll = now + settings.control_poll_seconds * 1000;
    }
    else m

-- What a tick finds: the time, and the answer of the outstanding read if it is there.
pub record Tick : Type 0 where
  pub now : ℕ
  pub reply : Option (Result Bool)

-- `_tick`; it returns the field `stopped`.
unfoldable pub tick : MonitorSettings → Tick → ControlMonitor → ControlMonitor
tick settings t m = submit settings t.now (expire settings t.now (take_reply t.reply m))

-- A monitor that was made at the given time, after ticks; the newest stands first.
unfoldable pub ticked : MonitorSettings → ℕ → List Tick → ControlMonitor
ticked settings begun [] = monitor settings begun
ticked settings begun (t ∷ past) = tick settings t (ticked settings begun past)
