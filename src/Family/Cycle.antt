-- ===== src/Family/Cycle.antt =====
-- family_daemon.py: `FamilyDaemon.spec`, `stop_children` and `cycle`. A launch that the thread pool runs
-- is taken to run where it is submitted, one of the orders that the pool allows; its failure is raised
-- where its result is asked for.
pub mod Guard
use Prim.Native.String.{◌++◌ as concat}
use cloud_glider.Prelude.{
  ℕ, String, Bool, true, false, not, ◌&&◌, ◌||◌, Option, none, some, List, [], ◌∷◌, ◌++◌, ◌==◌,
  if◌then◌else◌,
}
use cloud_glider.Prelude.Int.{ℤ, pos, ◌+ℤ◌, ◌*ℤ◌, leb_ℤ, ltb_ℤ}
use cloud_glider.Prelude.Lists.{any}
use cloud_glider.Python.Result.{safety, uncaught, or_raise, Result, ok, err}
use cloud_glider.Python.Exec.{Exec, pure, lift, gets, modify, raise_if, ◌>>=◌, ◌>>◌}
use cloud_glider.Python.Value.{Value, Record, value_eq, truth, item, get, str}
use cloud_glider.Family.Inherited.{NodeSpecification, specification, validate, whole_item}
use cloud_glider.Family.Session.{
  stop_file_written, node_stopped, node_read, retired, readiness_published, leaf_marked,
  parent_ready, child_launched, propagation_published, child_accepted, parent_gone,
  retirement_authorized, Session, FamilyDaemon, call, observe, monitor_tick, now_ms,
}

-- What `cycle` returns.
pub data Outcome : Type 0 where
  stopped retiring candidate leaf waiting_for_parent waiting_for_child : Outcome
  waiting_for_parent_retirement waiting_for_continuation : Outcome

module _ {W : Type 0} (d : FamilyDaemon W) where
  open d use {config, gateway, settings, children, configuration_identity}

  -- `spec`.
  unfoldable pub spec : String → Result NodeSpecification
  spec path = specification gateway.digest config path config.instance_id (concat "handoff-" path)

  unfoldable pub stop_path : String → Exec (Session W) (Unit {0})
  stop_path path = do
    cancelled ← gets (λ s. any (λ p. p == path) s.cancelled_paths)
    if cancelled then pure tt else (do
      call (node_stopped path) (gateway.stop_node path)
      modify (λ s. record s { cancelled_paths = path ∷ s.cancelled_paths }) tt)

  -- The loop over the own path and the children's.
  unfoldable pub stop_paths : List String → Exec (Session W) (Unit {0})
  stop_paths [] = pure tt
  stop_paths (path ∷ paths) = do stop_path path; stop_paths paths

  -- `stop_children`.
  unfoldable pub stop_children : Exec (Session W) (Unit {0})
  stop_children = do
    exists ← observe gateway.stop_file_exists
    if exists then pure tt else call stop_file_written gateway.write_stop_file
    stop_paths (config.node_path ∷ children)

  -- `if self.monitor.tick(): self.stop_children(); return "STOPPED"`, and what follows it.
  unfoldable pub unless_halted : Exec (Session W) Outcome → Exec (Session W) Outcome
  unless_halted rest = do
    halted ← monitor_tick d
    if halted then (do stop_children; pure stopped) else rest

  -- Whether the wait has lasted for the timeout: `>=` or, where strict, `>`.
  unfoldable pub timed_out : Bool → Exec (Session W) Bool
  timed_out strict = do
    now ← now_ms d
    started ← gets (λ s. s.wait_started)
    begun ← lift (or_raise started uncaught)
    timeout ← lift (whole_item settings "readiness_timeout_seconds")
    let end = begun +ℤ timeout *ℤ pos 1000
    pure (if strict then ltb_ℤ end now else leb_ℤ end now)

  -- The end of the cycle: the authorization, and the retirement that it permits.
  unfoldable pub retire_if_authorized : Exec (Session W) Outcome
  retire_if_authorized = do
    now ← now_ms d
    authorized ← call retirement_authorized (gateway.authorize_retirement children now)
    if authorized then (do call retired gateway.retire_self; pure retiring) else (do
      late ← timed_out false
      raise_if late (safety "CONTINUATION_LAUNCH_TIMEOUT")
      pure waiting_for_continuation)

  unfoldable pub finish : Exec (Session W) Outcome
  finish = do
    gone ← call parent_gone gateway.parent_terminated
    if gone then unless_halted retire_if_authorized else pure waiting_for_parent_retirement

  unfoldable pub accept_child :
      String → String → Exec (Session W) Outcome → Exec (Session W) Outcome
  accept_child path instance rest = do
    child ← lift (spec path)
    now ← now_ms d
    accepted ← call (child_accepted child instance) (gateway.accept_child child instance now)
    if accepted then rest else (do
      late ← timed_out true
      raise_if late (safety "CHILD_READINESS_TIMEOUT")
      pure waiting_for_child)

  -- `for path, instance in zip(self.children, instances)`.
  unfoldable pub accept_all : List String → List String → Exec (Session W) Outcome
  accept_all (path ∷ paths) (instance ∷ instances) =
      unless_halted (accept_child path instance (accept_all paths instances))
  accept_all [] instances = finish
  accept_all (path ∷ paths) [] = finish

  unfoldable pub publish : List String → Exec (Session W) Outcome
  publish instances = do
    now ← now_ms d
    call propagation_published (gateway.publish_propagation children instances now)
    modify (λ s. record s { propagation_recorded = true }) tt
    accept_all children instances

  unfoldable pub after_launches : List String → Exec (Session W) Outcome
  after_launches instances = do
    done ← gets (λ s. s.propagation_recorded)
    if done then accept_all children instances else unless_halted (publish instances)

  -- `[future.result() for future in futures]`.
  unfoldable pub results : List (Result String) → Result (List String)
  results [] = ok []
  results (err e ∷ futures) = err e
  results (ok i ∷ futures) = first_then i (results futures)
    where
      first_then : String → Result (List String) → Result (List String)
      first_then i (ok is) = ok (i ∷ is)
      first_then i (err e) = err e

  -- A submitted call, whose outcome is kept.
  unfoldable pub future : {A : Type 0} → Exec (Session W) A → Exec (Session W) (Result A)
  future m s = let (r, s') = m s in (ok r, s')

  unfoldable pub launch_all : List String → List (Result String) → Exec (Session W) Outcome
  launch_all [] futures = do instances ← lift (results futures); after_launches instances
  launch_all (path ∷ paths) futures = unless_halted (do
    child ← lift (spec path)
    outcome ← future (call (child_launched child) (gateway.launch_child child))
    launch_all paths (futures ++ (outcome ∷ [])))

  unfoldable pub begin_unless : Option ℤ → Exec (Session W) (Unit {0})
  begin_unless (some begun) = pure tt
  begin_unless none = do now ← now_ms d; modify (λ s. record s { wait_started = some now }) tt

  unfoldable pub begin_wait : Exec (Session W) (Unit {0})
  begin_wait = do started ← gets (λ s. s.wait_started); begin_unless started

  unfoldable pub late_launch : Bool → Exec (Session W) Bool
  late_launch true = pure false
  late_launch false = timed_out false

  unfoldable pub launch : Exec (Session W) Outcome
  launch = do
    begin_wait
    done ← gets (λ s. s.propagation_recorded)
    late ← late_launch done
    raise_if late (safety "CONTINUATION_LAUNCH_TIMEOUT")
    launch_all children []

  unfoldable pub launch_when_ready : Exec (Session W) Outcome
  launch_when_ready = do
    fanout ← lift (item settings "binary_fanout_enabled")
    if truth fanout then launch else (do
      ready ← call parent_ready gateway.single_launch_ready
      if ready then launch else pure waiting_for_parent)

  unfoldable pub be_leaf : Record → Exec (Session W) Outcome
  be_leaf node = do
    if value_eq (get "status" node) (str "LEAF")
        then pure tt
        else call leaf_marked gateway.mark_leaf
    pure leaf

  abbrev has_children : List String → Bool
  has_children [] = false
  has_children (path ∷ paths) = true

  unfoldable pub as_owner : Record → Exec (Session W) Outcome
  as_owner node =
      if not (value_eq (get "owner" node) (str config.instance_id))
      then pure candidate
      else if has_children children
      then launch_when_ready
      else be_leaf node

  unfoldable pub publish_ready : Record → Exec (Session W) Outcome
  publish_ready node = do
    now ← now_ms d
    call readiness_published (gateway.publish_readiness now (has_children children))
    published ← now_ms d
    modify (λ s. record s { last_ready = published }) tt
    as_owner node

  -- The configuration is still the one that the daemon was made with.
  unfoldable pub check_configuration : Exec (Session W) (Unit {0})
  check_configuration = do
    valid ← lift (validate gateway.digest config)
    raise_if (not (gateway.config_digest config == configuration_identity))
        (safety "CONTINUATION_CONFIG_CHANGED")

  unfoldable pub with_node : Record → Exec (Session W) Outcome
  with_node node = do
    check_configuration
    now ← now_ms d
    last ← gets (λ s. s.last_ready)
    if leb_ℤ (last +ℤ pos 5000) now then unless_halted (publish_ready node) else as_owner node

  unfoldable pub read_and_go_on : Exec (Session W) Outcome
  read_and_go_on = do
    node ← call node_read (gateway.read_node config.node_path)
    if value_eq (get "status" node) (str "RETIRING")
        then (do call retired gateway.retire_self; pure retiring)
        else with_node node

  -- `cycle`.
  unfoldable pub cycle : Exec (Session W) Outcome
  cycle = unless_halted read_and_go_on
