-- ===== src/Daemon/Session.antt =====
-- daemon.py, `Daemon.__init__`: the object's attributes, and a trace of what it has asked the gateway,
-- newest first. Each call of the gateway is one event, with its arguments and its outcome, and so is each
-- reading of the clock, in milliseconds.
use cloud_glider.Prelude.{ℕ, ◌/◌, String, Bool, Option, none, List, [], ◌∷◌}
use Prim.Native.String.{◌++◌ as concat}
use cloud_glider.Prelude.Int.{ℤ, pos}
use cloud_glider.Python.Result.{Result, ok}
use cloud_glider.Python.Exec.{Exec}
use cloud_glider.Python.Value.{Record}
use cloud_glider.Daemon.Config.{DaemonConfig}
use cloud_glider.Daemon.Gateway.{Stack, Specification, Expected, Gateway}

pub data Event : Type 0 where
  control_read : Result (Record × Bool) → Event
  current_read : Result Record → Event
  initial_claimed : Record → Result Bool → Event
  heartbeat_written : Record → Result (Unit {0}) → Event
  lease_acquired : String → Result Bool → Event
  lease_renewed : String → Result (Unit {0}) → Event
  lease_released : String → Result (Unit {0}) → Event
  stack_described : String → Result (Option Stack) → Event
  instance_looked_up : String → Result String → Event
  template_verified : Record → Result (Unit {0}) → Event
  stack_created : Specification → Result String → Event
  submission_reconciled : Specification → Stack → Result (Unit {0}) → Event
  state_read : String → Result (Option Record) → Event
  capacity_checked : ℤ → Result (Unit {0}) → Event
  handed_off : Expected → Record → Result Bool → Event
  stack_deleted : String → Result (Unit {0}) → Event
  hold_invoked : String → String → Result (Unit {0}) → Event
  slept : ℤ → Event
  logged : String → Event
  clock_read : ℕ → Event

pub record Session (W : Type 0) : Type 0 where
  pub world : W
  pub trace : List Event
  pub heartbeat_sequence : ℕ
  pub own_stack : Option Stack
  pub poll_seconds : ℤ

-- The attributes that `__init__` sets and nothing changes.
pub record Daemon (W : Type 0) : Type 0 where
  pub config : DaemonConfig
  pub gateway : Gateway W
  pub correlation_id : String
  pub lease_owner : String

-- `Daemon.__init__`, on the two identifiers that it draws.
unfoldable pub init : {W : Type 0} → DaemonConfig → Gateway W → String → String → Daemon W
init c g correlation lease = record {
  config = c;
  gateway = g;
  correlation_id = correlation;
  lease_owner = concat c.generation (concat ":" (concat g.instance_id (concat ":" lease)));
}

unfoldable pub start : {W : Type 0} → W → Session W
start w = record {
  world = w;
  trace = [];
  heartbeat_sequence = 0;
  own_stack = none;
  poll_seconds = pos 5;
}

module _ {W : Type 0} where
  abbrev recorded :
      {A : Type 0} → (Result A → Event) → Session W → Result A × W → Result A × Session W
  recorded event s (r, w) = (r, record s { world = w; trace = event r ∷ s.trace })

  -- A call of the gateway.
  unfoldable pub call : {A : Type 0} → (Result A → Event) → Exec W A → Exec (Session W) A
  call event op s = recorded event s (op s.world)

  abbrev observed : {A : Type 0} → Session W → A × W → Result A × Session W
  observed s (a, w) = (ok a, record s { world = w })

  -- A reading of the date or of a random identifier leaves no event.
  unfoldable pub observe : {A : Type 0} → (W → A × W) → Exec (Session W) A
  observe f s = observed s (f s.world)

  abbrev clocked : (ℕ → ℤ) → Session W → ℕ × W → Result ℤ × Session W
  clocked f s (ms, w) = (ok (f ms), record s { world = w; trace = clock_read ms ∷ s.trace })

  -- `self.log`: the event's name is what is recorded of the line.
  unfoldable pub log : String → Exec (Session W) (Unit {0})
  log name s = (ok tt, record s { trace = logged name ∷ s.trace })

module _ {W : Type 0} (d : Daemon W) where
  open d use {gateway}

  -- `int(self.clock())`.
  unfoldable pub now_seconds : Exec (Session W) ℤ
  now_seconds s = clocked (λ ms. pos (ms / 1000)) s (gateway.clock s.world)

  -- `self.clock()`, in milliseconds.
  unfoldable pub now_ms : Exec (Session W) ℤ
  now_ms s = clocked (λ ms. pos ms) s (gateway.clock s.world)

  unfoldable pub sleep : ℤ → Exec (Session W) (Unit {0})
  sleep seconds s =
      (ok tt, record s { world = gateway.sleep seconds s.world; trace = slept seconds ∷ s.trace })
