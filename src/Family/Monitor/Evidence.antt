-- ===== src/Family/Monitor/Evidence.antt =====
-- What a monitor that has not stopped has to show, and that a stop is never taken back.
use cloud_glider.Prelude.{
  ℕ, ◌+◌, ◌*◌, ◌<◌, ◌≡◌, refl, ◌∙◌, arith, Bool, true, false, Option, none, some, List, [], ◌∷◌,
  ◌++◌, ◌⊎◌, inl, inr,
}
use cloud_glider.Python.Result.{Result, ok, err}
use cloud_glider.Family.Monitor.{
  MonitorSettings, ControlMonitor, monitor, receive, take_reply, expire, submit, Tick, tick, ticked,
}

-- A tick keeps a stop.
tick-stopped :
    (settings : MonitorSettings) (t : Tick) (m : ControlMonitor)
    → m.stopped ≡ true
    → (tick settings t m).stopped ≡ true
unfolding tick submit expire take_reply receive
tick-stopped settings t m h = ground arith

-- Once a monitor has stopped, it stays stopped whatever ticks follow.
pub ticked-stopped :
    (settings : MonitorSettings) (begun : ℕ) (later past : List Tick)
    → (ticked settings begun past).stopped ≡ true
    → (ticked settings begun (later ++ past)).stopped ≡ true
unfolding ticked
ticked-stopped settings begun [] past h = h
ticked-stopped settings begun (t ∷ later) past h =
    tick-stopped settings t (ticked settings begun (later ++ past))
      (ticked-stopped settings begun later past h)

-- The time is that of a tick.
pub data IsTime : ℕ → List Tick → Type 0 where
  newest : (t : Tick) (past : List Tick) → IsTime t.now (t ∷ past)
  older : (at : ℕ) (t : Tick) (past : List Tick) → IsTime at past → IsTime at (t ∷ past)

module _ (settings : MonitorSettings) (begun : ℕ) where
  -- Leave to go on, from the given time: the monitor was made then, or a read that was submitted at a
  -- tick of that time was answered, later, with no stop.
  pub data Leave : ℕ → List Tick → Type 0 where
    at_start : Leave begun []
    answered :
        (at : ℕ) (t : Tick) (past : List Tick)
        → (ticked settings begun past).pending ≡ true
        → (ticked settings begun past).submitted_at ≡ some at
        → IsTime at past
        → t.reply ≡ some (ok false)
        → Leave at (t ∷ past)
    earlier : (at : ℕ) (t : Tick) (past : List Tick) → Leave at past → Leave at (t ∷ past)

  -- The outstanding read was submitted at a tick.
  abbrev HasSubmitted : List Tick → Type 0
  HasSubmitted past =
      (ticked settings begun past).pending ≡ true
      → (at : ℕ) × ((ticked settings begun past).submitted_at ≡ some at) × IsTime at past

  abbrev HasLeave : List Tick → Type 0
  HasLeave past =
      (ticked settings begun past).stopped ≡ false
      → Leave (ticked settings begun past).observed_at past

  tick-observed_at :
      (t : Tick) (m : ControlMonitor)
      → (tick settings t m).observed_at ≡ (take_reply t.reply m).observed_at
  unfolding tick expire submit
  tick-observed_at t m = ground arith

  tick-not_stopped :
      (t : Tick) (m : ControlMonitor)
      → (tick settings t m).stopped ≡ false
      → (take_reply t.reply m).stopped ≡ false
  unfolding tick expire submit
  tick-not_stopped t m h = ground arith

  tick-fresh :
      (t : Tick) (m : ControlMonitor)
      → (tick settings t m).stopped ≡ false
      → t.now < (tick settings t m).observed_at + settings.control_max_age_seconds * 1000
  unfolding tick expire submit
  tick-fresh t m h = ground arith

  -- A read that is outstanding after a tick was submitted then, or was outstanding before.
  tick-pending :
      (t : Tick) (m : ControlMonitor)
      → (tick settings t m).pending ≡ true
      → ((tick settings t m).submitted_at ≡ some t.now)
        ⊎ ((m.pending ≡ true) × ((tick settings t m).submitted_at ≡ m.submitted_at))
  unfolding tick expire submit take_reply receive
  tick-pending t m h = ground arith

  HasSubmitted-tick : (t : Tick) (past : List Tick) → HasSubmitted past → HasSubmitted (t ∷ past)
  unfolding ticked
  HasSubmitted-tick t past h p = elim (tick-pending t (ticked settings begun past) p) [
    | inl e ↦ (t.now, e, newest t past)
    | inr e ↦ (let (at, e', is_time) = h e.0 in (at, e.1 ∙ e', older at t past is_time))
  ]

  ticked-HasSubmitted : (past : List Tick) → HasSubmitted past
  unfolding ticked monitor
  ticked-HasSubmitted [] p = cc
  ticked-HasSubmitted (t ∷ past) p = HasSubmitted-tick t past (ticked-HasSubmitted past) p

  -- An answer gives leave from its submission.
  reply-Leave :
      (t : Tick) (past : List Tick) (reply : Option (Result Bool)) (pending : Bool)
      → t.reply ≡ reply
      → (ticked settings begun past).pending ≡ pending
      → HasLeave past
      → (take_reply reply (ticked settings begun past)).stopped ≡ false
      → Leave (take_reply reply (ticked settings begun past)).observed_at (t ∷ past)
  unfolding take_reply receive
  reply-Leave t past none pending e p h s = earlier _ t past (h s)
  reply-Leave t past (some reply) false e p h s = rw p (earlier _ t past (h (ground arith)))
  reply-Leave t past (some (err f)) true e p h s = rw p (earlier _ t past (h (ground arith)))
  reply-Leave t past (some (ok true)) true e p h s = absurd (ground arith)
  reply-Leave t past (some (ok false)) true e p h s =
      let (at, e', is_time) = ticked-HasSubmitted past p in
      rw (p, e') (answered at t past p e' is_time e)

  ticked-HasLeave : (past : List Tick) → HasLeave past
  unfolding ticked monitor
  ticked-HasLeave [] s = at_start
  ticked-HasLeave (t ∷ past) s = rw (tick-observed_at t (ticked settings begun past)) (
      reply-Leave t past t.reply _ refl refl (ticked-HasLeave past)
        (tick-not_stopped t (ticked settings begun past) s))

  -- A monitor that has not stopped at its last tick has leave to go on, which is less old then than the
  -- maximal age: it dates from its making, or from the submission of a read that was answered with no
  -- stop. Without such an answer the monitor stops once the age is reached, and a read that fails or
  -- hangs does not put it off.
  pub ticked-Leave :
      (t : Tick) (past : List Tick)
      → (ticked settings begun (t ∷ past)).stopped ≡ false
      → (at : ℕ) × Leave at (t ∷ past) × (t.now < at + settings.control_max_age_seconds * 1000)
  unfolding ticked
  ticked-Leave t past s = (
    (ticked settings begun (t ∷ past)).observed_at,
    ticked-HasLeave (t ∷ past) s,
    tick-fresh t (ticked settings begun past) s,
  )
