-- ===== src/Ec2/Session.antt =====
-- ec2_daemon.py: what `Ec2Daemon` asks of its gateway, as operations on a world `W` of which nothing
-- else is assumed, and the trace of those calls, newest first. Beside it stand the injected
-- clock, which counts milliseconds, and sleep, `uuid4`, `utc_now` and SHA-256.
use cloud_glider.Prelude.{ℕ, ◌/◌, String, Bool, Option, List, ◌∷◌}
use Prim.Native.String.{◌++◌ as concat}
use cloud_glider.Prelude.Int.{ℤ, pos}
use cloud_glider.Python.Result.{Result, ok}
use cloud_glider.Python.Exec.{Exec}
use cloud_glider.Python.Value.{Value, Record}
use cloud_glider.Family.Config.{Ec2DaemonConfig}
use cloud_glider.Ec2.Control.{Place}

-- An instance as `describe_instance` returns it; each key may be missing.
pub record Instance : Type 0 where
  pub instance_id : Option String
  pub state_name : Option String
  pub tags : Option Record
  pub launch_template : Option Record

-- The condition of a handoff.
pub record Expected : Type 0 where
  pub identity : Record
  pub lease_owner : String
  pub lease_now : ℤ
  pub control_identity : Record
  pub candidate : Record

-- The dict that `_specification` builds.
pub record Specification : Type 0 where
  pub request_id : String
  pub generation : String
  pub launch_template_id : Value
  pub launch_template_version : Value
  pub client_token : String
  pub tags : Record

pub record Gateway (W : Type 0) : Type 0 where
  pub instance_id : String
  pub place : Place
  pub read_control_and_hold : Exec W (Record × Bool)
  pub read_current : Exec W Record
  pub claim_initial_current : Record → Exec W Bool
  pub renew_lease : String → ℤ → Exec W (Unit {0})
  pub verify_launch_template : Record → Exec W (Unit {0})
  pub describe_instance : String → Exec W (Option Instance)
  pub verify_instance : Instance → Specification → Exec W (Unit {0})
  pub find_successor : Specification → Exec W (Option Instance)
  pub reconcile_ec2_submission : Specification → Instance → Exec W (Unit {0})
  pub ensure_status_alarm : String → String → Exec W (Unit {0})
  pub delete_status_alarm : String → String → Exec W (Unit {0})
  pub check_capacity : ℤ → Exec W (Unit {0})
  pub claim_submission : Specification → Exec W (Unit {0})
  pub run_instance : Specification → Exec W String
  pub dry_run_instance : Specification → Exec W (Unit {0})
  pub terminate_instance : String → Exec W (Unit {0})
  pub mark_retirement_completed : Record → Exec W (Unit {0})
  pub read_generation_state : String → Exec W (Option Record)
  pub handoff : Expected → Record → Record → Exec W Bool
  pub clock : W → ℕ × W
  pub sleep : ℤ → W → W
  pub utc_now : W → String × W
  pub uuid4 : W → String × W
  pub sha256_hex : String → String

-- Each call of the gateway is one event, with its arguments and its outcome, and so is each reading of
-- the clock.
pub data Event : Type 0 where
  control_read : Result (Record × Bool) → Event
  current_read : Result Record → Event
  initial_claimed : Record → Result Bool → Event
  lease_renewed : String → Result (Unit {0}) → Event
  template_verified : Record → Result (Unit {0}) → Event
  instance_described : String → Result (Option Instance) → Event
  instance_verified : Instance → Specification → Result (Unit {0}) → Event
  successor_looked_up : Specification → Result (Option Instance) → Event
  submission_reconciled : Specification → Instance → Result (Unit {0}) → Event
  alarm_ensured : String → String → Result (Unit {0}) → Event
  alarm_deleted : String → String → Result (Unit {0}) → Event
  capacity_checked : ℤ → Result (Unit {0}) → Event
  submission_claimed : Specification → Result (Unit {0}) → Event
  instance_run : Specification → Result String → Event
  instance_dry_run : Specification → Result (Unit {0}) → Event
  instance_terminated : String → Result (Unit {0}) → Event
  retirement_marked : Record → Result (Unit {0}) → Event
  state_read : String → Result (Option Record) → Event
  handed_off : Expected → Record → Result Bool → Event
  slept : ℤ → Event
  clock_read : ℕ → Event

pub record Session (W : Type 0) : Type 0 where
  pub world : W
  pub trace : List Event

-- The attributes that `__init__` sets and nothing changes.
pub record Ec2Daemon (W : Type 0) : Type 0 where
  pub config : Ec2DaemonConfig
  pub gateway : Gateway W
  pub correlation_id : String
  pub lease_owner : String

-- `Ec2Daemon.__init__`, on the two identifiers that it draws.
unfoldable pub init : {W : Type 0} → Ec2DaemonConfig → Gateway W → String → String → Ec2Daemon W
init c g correlation lease = record {
  config = c;
  gateway = g;
  correlation_id = correlation;
  lease_owner = concat c.generation (concat ":" (concat g.instance_id (concat ":" lease)));
}

module _ {W : Type 0} where
  abbrev recorded :
      {A : Type 0} → (Result A → Event) → Session W → Result A × W → Result A × Session W
  recorded event s (r, w) = (r, record { world = w; trace = event r ∷ s.trace })

  unfoldable pub call : {A : Type 0} → (Result A → Event) → Exec W A → Exec (Session W) A
  call event op s = recorded event s (op s.world)

  abbrev observed : {A : Type 0} → Session W → A × W → Result A × Session W
  observed s (a, w) = (ok a, record s { world = w })

  -- A reading of the date or of a random identifier leaves no event.
  unfoldable pub observe : {A : Type 0} → (W → A × W) → Exec (Session W) A
  observe f s = observed s (f s.world)

abbrev clocked : {W : Type 0} → (ℕ → ℤ) → Session W → ℕ × W → Result ℤ × Session W
clocked f s (ms, w) = (ok (f ms), record { world = w; trace = clock_read ms ∷ s.trace })

-- `int(self.clock())`.
unfoldable pub now_seconds : {W : Type 0} → Ec2Daemon W → Exec (Session W) ℤ
now_seconds d s = clocked (λ ms. pos (ms / 1000)) s (d.gateway.clock s.world)

-- `self.clock()`, in milliseconds.
unfoldable pub now_ms : {W : Type 0} → Ec2Daemon W → Exec (Session W) ℤ
now_ms d s = clocked (λ ms. pos ms) s (d.gateway.clock s.world)

unfoldable pub sleep : {W : Type 0} → Ec2Daemon W → ℤ → Exec (Session W) (Unit {0})
sleep d seconds s =
    (ok tt, record { world = d.gateway.sleep seconds s.world; trace = slept seconds ∷ s.trace })
