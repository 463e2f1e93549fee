-- ===== src/Daemon/Gateway.antt =====
-- daemon.py, `Gateway`: what the state machine asks of AWS, as operations on a world `W` of which
-- nothing else is assumed. The injected clock, sleep and logger, `uuid4`, `utc_now` and SHA-256 stand
-- beside them. The clock counts milliseconds, so that `int(self.clock())` is a division.
use cloud_glider.Prelude.{ℕ, String, Bool, Option}
use cloud_glider.Prelude.Int.{ℤ}
use cloud_glider.Python.Exec.{Exec}
use cloud_glider.Python.Value.{Record}

-- A stack as `describe_stack` returns it; each key may be missing.
pub record Stack : Type 0 where
  pub stack_id : Option String
  pub stack_status : Option String
  pub parameters : Option Record
  pub role_arn : Option String
  pub tags : Option Record

-- The dict that `_stack_specification` builds.
pub record Specification : Type 0 where
  pub stack_name : String
  pub generation : String
  pub template : Record
  pub parameters : Record
  pub role_arn : String
  pub client_token : String
  pub tags : Record

-- The condition of a handoff: the owner's identity, its lease and the control record it acts on.
pub record Expected : Type 0 where
  pub identity : Record
  pub lease_owner : String
  pub control_identity : Record

pub record Gateway (W : Type 0) : Type 0 where
  pub instance_id : String
  pub read_control_and_hold : Exec W (Record × Bool)
  pub read_current : Exec W Record
  pub claim_initial_current : Record → Exec W Bool
  pub write_heartbeat : Record → Exec W (Unit {0})
  pub acquire_lease : String → String → ℤ → ℤ → Exec W Bool
  pub renew_lease : String → ℤ → Exec W (Unit {0})
  pub release_lease : String → Exec W (Unit {0})
  pub describe_stack : String → Exec W (Option Stack)
  pub stack_instance_id : String → Exec W String
  pub verify_template_artifact : Record → Exec W (Unit {0})
  pub create_stack : Specification → Exec W String
  pub reconcile_submission : Specification → Stack → Exec W (Unit {0})
  pub read_generation_state : String → Exec W (Option Record)
  pub check_capacity : ℤ → Exec W (Unit {0})
  pub handoff : Expected → Record → Record → Exec W Bool
  pub delete_stack : String → String → String → Exec W (Unit {0})
  pub invoke_hold : String → String → String → Exec W (Unit {0})
  pub clock : W → ℕ × W
  pub sleep : ℤ → W → W
  pub utc_now : W → String × W
  pub uuid4 : W → String × W
  pub sha256_hex : String → String
