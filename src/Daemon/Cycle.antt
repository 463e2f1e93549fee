-- ===== src/Daemon/Cycle.antt =====
-- daemon.py, `cycle`: one round of the daemon. The fuel is that of the wait for the successor.
use cloud_glider.Prelude.{ℕ, String, Bool, true, false, not, ◌||◌, [], ◌∷◌, if◌then◌else◌}
use cloud_glider.Prelude.Int.{ℤ, pos, ◌+ℤ◌, max_ℤ, leb_ℤ}
use cloud_glider.Python.Exec.{Exec, pure, lift, gets, modify, ◌>>=◌, ◌>>◌, finally, catch_transient}
use cloud_glider.Python.Value.{Record, truth, item}
use cloud_glider.Daemon.Config.{generation_number}
use cloud_glider.Daemon.Control.{validated_control}
use cloud_glider.Daemon.Session.{
  lease_acquired, lease_released, stack_deleted, Session, Daemon, call, log, now_seconds,
}
use cloud_glider.Daemon.Specification.{stable_token}
use cloud_glider.Daemon.Identity.{is_current_owner, read_current, heartbeat}
use cloud_glider.Daemon.Provision.{
  read_control_and_hold, provision_successor, or_key_error, lease_seconds,
}
use cloud_glider.Daemon.Heartbeat.{int_item}
use cloud_glider.Daemon.Readiness.{wait_for_healthy_successor}
use cloud_glider.Daemon.Handoff.{conditional_handoff}

-- What `cycle` returns.
pub data Outcome : Type 0 where
  candidate max_generation_reached stopped_by_operator lease_not_acquired : Outcome
  ownership_changed handoff_complete : Outcome

module _ {W : Type 0} (d : Daemon W) where
  open d use {config, gateway, lease_owner}

  unfoldable pub set_poll : ℤ → Exec (Session W) (Unit {0})
  set_poll seconds = modify (λ s. record s { poll_seconds = seconds }) tt

  -- The deletion of the own stack, after the handoff.
  unfoldable pub retire : String → Exec (Session W) (Unit {0})
  retire stack_id = do
    own ← gets (λ s. s.own_stack)
    stack ← lift (or_key_error own)
    let token = stable_token gateway.sha256_hex "cg-retire" (config.stack_id ∷ stack_id ∷ [])
    role_arn ← lift (or_key_error stack.role_arn)
    call (stack_deleted config.stack_id) (gateway.delete_stack config.stack_id role_arn token)

  -- The block of the `try`, behind its check of the ownership.
  unfoldable pub propagate : ℕ → Record → Exec (Session W) Outcome
  propagate fuel control = do
    made ← provision_successor d control
    wait_for_healthy_successor d fuel control made.0 made.1
    conditional_handoff d control made.0 made.1
    retire made.1
    pure handoff_complete

  unfoldable pub as_owner : ℕ → Record → Exec (Session W) Outcome
  as_owner fuel control = do
    current ← read_current d
    if is_current_owner d current then propagate fuel control else pure ownership_changed

  -- The `finally`: a release that fails for a while is left to the lease's expiry.
  unfoldable pub release : Exec (Session W) (Unit {0})
  release =
      catch_transient (call (lease_released lease_owner) (gateway.release_lease lease_owner))
        (λ message. log "lease_release_deferred")

  unfoldable pub with_lease : ℕ → Record → Bool → Exec (Session W) Outcome
  with_lease fuel control true = finally (as_owner fuel control) release
  with_lease fuel control false = pure lease_not_acquired

  unfoldable pub take_lease : ℕ → Record → Exec (Session W) Outcome
  take_lease fuel control = do
    duration ← lift (lease_seconds control)
    now ← now_seconds d
    acquired ←
        call (lease_acquired lease_owner)
          (gateway.acquire_lease lease_owner config.generation now (now +ℤ duration))
    with_lease fuel control acquired

  -- What a current owner does that has not reached the limit.
  unfoldable pub owner_round : ℕ → Record → Bool → Exec (Session W) Outcome
  owner_round fuel control hold = do
    switch ← lift (item control "propagation_enabled")
    if hold || not (truth switch)
        then (do
          poll ← gets (λ s. s.poll_seconds)
          set_poll (max_ℤ (pos 60) poll)
          pure stopped_by_operator)
        else take_lease fuel control

  unfoldable pub owner_cycle : ℕ → Record → Bool → Exec (Session W) Outcome
  owner_cycle fuel control hold = do
    number ← lift (generation_number config)
    limit ← lift (int_item control "max_generation")
    if leb_ℤ limit number then pure max_generation_reached else owner_round fuel control hold

  -- `cycle`.
  unfoldable pub cycle : ℕ → Exec (Session W) Outcome
  cycle fuel = do
    set_poll (pos 5)
    reading ← read_control_and_hold d
    control ← lift (validated_control config reading.0)
    interval ← lift (int_item control "heartbeat_interval_seconds")
    set_poll interval
    current ← read_current d
    heartbeat d control reading.1 current
    if is_current_owner d current then owner_cycle fuel control reading.1 else pure candidate
