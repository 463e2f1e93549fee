-- ===== src/Family/Session.antt =====
-- family_daemon.py, `FamilyDaemon.__init__`: the object's attributes, what it asks of the family gateway
-- (family_sdk.py), of its monitor and of the file of a local stop, and a trace of it, newest first. The
-- clock, `random.uniform` and `sleep` count milliseconds.
use cloud_glider.Prelude.{ℕ, String, Bool, false, Option, none, List, [], ◌∷◌}
use cloud_glider.Prelude.Int.{ℤ, pos}
use cloud_glider.Python.Result.{Result, ok}
use cloud_glider.Python.Exec.{Exec}
use cloud_glider.Python.Value.{Record}
use cloud_glider.Family.Config.{Ec2DaemonConfig}
use cloud_glider.Family.Inherited.{NodeSpecification}

pub record FamilyGateway (W : Type 0) : Type 0 where
  pub stop_node : String → Exec W (Unit {0})
  pub read_node : String → Exec W Record
  pub retire_self : Exec W (Unit {0})
  pub publish_readiness : ℤ → Bool → Exec W (Unit {0})
  pub mark_leaf : Exec W (Unit {0})
  pub single_launch_ready : Exec W Bool
  pub launch_child : NodeSpecification → Exec W String
  pub publish_propagation : List String → List String → ℤ → Exec W (Unit {0})
  pub accept_child : NodeSpecification → String → ℤ → Exec W Bool
  pub parent_terminated : Exec W Bool
  pub authorize_retirement : List String → ℤ → Exec W Bool
  pub monitor_tick : W → Bool × W
  pub stop_file_exists : W → Bool × W
  pub write_stop_file : Exec W (Unit {0})
  pub read_stop_file : W → String × W
  pub stop_monitor : W → W
  pub verify_family_self : Exec W (Unit {0})
  pub initialize_node : Exec W (Unit {0})
  pub invoke_hold : String → String → String → Exec W (Unit {0})
  pub uniform : ℤ → ℤ → W → ℤ × W
  pub sleep : ℤ → W → W
  pub clock : W → ℕ × W
  pub digest : Record → String
  pub config_digest : Ec2DaemonConfig → String

pub data Event : Type 0 where
  ticked : Bool → Event
  stop_file_written : Result (Unit {0}) → Event
  node_stopped : String → Result (Unit {0}) → Event
  node_read : Result Record → Event
  retired : Result (Unit {0}) → Event
  readiness_published : Result (Unit {0}) → Event
  leaf_marked : Result (Unit {0}) → Event
  parent_ready : Result Bool → Event
  child_launched : NodeSpecification → Result String → Event
  propagation_published : Result (Unit {0}) → Event
  child_accepted : NodeSpecification → String → Result Bool → Event
  parent_gone : Result Bool → Event
  retirement_authorized : Result Bool → Event
  self_verified : Result (Unit {0}) → Event
  node_initialized : Result (Unit {0}) → Event
  slept : ℤ → Event
  violated : String → Event
  hold_invoked : String → String → Result (Unit {0}) → Event

pub record Session (W : Type 0) : Type 0 where
  pub world : W
  pub trace : List Event
  pub last_ready : ℤ
  pub propagation_recorded : Bool
  pub wait_started : Option ℤ
  pub cancelled_paths : List String

-- The attributes that nothing changes after `__init__`; `stop_file` is set before the first cycle.
pub record FamilyDaemon (W : Type 0) : Type 0 where
  pub config : Ec2DaemonConfig
  pub gateway : FamilyGateway W
  pub settings : Record
  pub children : List String
  pub configuration_identity : String
  pub correlation_id : String

unfoldable pub start : {W : Type 0} → W → Session W
start w = record {
  world = w;
  trace = [];
  last_ready = pos 0;
  propagation_recorded = false;
  wait_started = none;
  cancelled_paths = [];
}

module _ {W : Type 0} where
  abbrev recorded :
      {A : Type 0} → (Result A → Event) → Session W → Result A × W → Result A × Session W
  recorded event s (r, w) = (r, record s { world = w; trace = event r ∷ s.trace })

  -- A call of the gateway.
  unfoldable pub call : {A : Type 0} → (Result A → Event) → Exec W A → Exec (Session W) A
  call event op s = recorded event s (op s.world)

  abbrev observed : {A : Type 0} → Session W → A × W → Result A × Session W
  observed s (a, w) = (ok a, record s { world = w })

  unfoldable pub observe : {A : Type 0} → (W → A × W) → Exec (Session W) A
  observe f s = observed s (f s.world)

  abbrev ticking : Session W → Bool × W → Result Bool × Session W
  ticking s (b, w) = (ok b, record s { world = w; trace = ticked b ∷ s.trace })

module _ {W : Type 0} (d : FamilyDaemon W) where
  open d use {gateway}

  -- `self.monitor.tick()`.
  unfoldable pub monitor_tick : Exec (Session W) Bool
  monitor_tick s = ticking s (gateway.monitor_tick s.world)

  -- `self.clock()`.
  unfoldable pub now_ms : Exec (Session W) ℤ
  unfolding observe
  now_ms = observe (λ w. let (ms, w') = gateway.clock w in (pos ms, w'))
