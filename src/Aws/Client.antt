-- ===== src/Aws/Client.antt =====
-- aws_sdk.py, `AwsSdkGateway`: its attributes, `_call`, `_pages`, `_get`. Each call emits one timing event.
use Prim.Native.String.{◌++◌ as concat}
use text.Mathlib.Text.{starts_with}
use cloud_glider.Prelude.{String, Bool, false, Option, none, some, List, ◌∷◌, if◌then◌else◌}
use cloud_glider.Python.Result.{transient, uncaught, Result, ok, err}
use cloud_glider.Python.Exec.{Exec, lift, ◌>>=◌}
use cloud_glider.Python.Value.{Record}
use cloud_glider.Daemon.Config.{DaemonConfig, audit_table_name}
use cloud_glider.Aws.Attribute.{item_of}
use cloud_glider.Aws.Services.{
  Answer, answered, client_error, transport_error, unexpected, interrupted, Request, Services,
}

-- The event `api_timing`, without its duration and the identity of the gateway.
pub record ApiTiming : Type 0 where
  pub service : String
  pub operation : String
  pub outcome : String
  pub error_code : Option String
  pub dry_run : Bool

pub record Client (W : Type 0) : Type 0 where
  pub world : W
  pub timings : List ApiTiming

-- What the gateway reads of its `config`, which is a configuration of either daemon.
pub record GatewayConfig : Type 0 where
  pub environment : String
  pub request_id : String
  pub state_table_name : String
  pub generation_table_name : String
  pub audit_table_name : String
  pub emergency_hold_function_name : String

unfoldable pub gateway_config : DaemonConfig → GatewayConfig
unfolding audit_table_name
gateway_config c = record {
  environment = c.environment;
  request_id = c.request_id;
  state_table_name = c.state_table_name;
  generation_table_name = c.generation_table_name;
  audit_table_name = audit_table_name c;
  emergency_hold_function_name = c.emergency_hold_function_name;
}

pub record AwsSdkGateway : Type 0 where
  pub config : GatewayConfig
  pub instance_id : String
  pub region : String
  pub account_id : String

abbrev pub code_of : Option String → String
code_of none = "Unknown"
code_of (some c) = c

-- `outcome` and `error_code`.
unfoldable pub outcome_of : {A : Type 0} → Answer A → String × Option String
outcome_of (answered a) = ("PASSED", none)
outcome_of (client_error e) = ("AWS_ERROR", some (code_of e.code))
outcome_of (transport_error kind message) = ("TRANSPORT_ERROR", some kind)
outcome_of unexpected = ("FAILED", some "UnexpectedError")
outcome_of (interrupted kind) = ("INTERRUPTED", some kind)

abbrev failure_message : (service operation message : String) → String
failure_message service operation message =
    concat "AWS " (concat service (concat "." (concat operation (concat " failed: " message))))

-- The result of a call: the response, or, with `allow_failure`, the error as a dict.
pub data Reply (A : Type 0) : Type 0 where
  replied : A → Reply A
  refused : (code message : String) (reasons : List (Option String)) → Reply A

unfoldable pub allowing : {A : Type 0} (service operation : String) → Answer A → Result (Reply A)
allowing service operation (answered a) = ok (replied a)
allowing service operation (client_error e) =
    ok (refused (code_of e.code) e.message e.cancellation_reasons)
allowing service operation (transport_error kind message) =
    err (transient (failure_message service operation message))
allowing service operation unexpected = err uncaught
allowing service operation (interrupted kind) = err uncaught

unfoldable pub requiring : {A : Type 0} (service operation : String) → Answer A → Result A
requiring service operation (answered a) = ok a
requiring service operation (client_error e) =
    err (transient (failure_message service operation e.message))
requiring service operation (transport_error kind message) =
    err (transient (failure_message service operation message))
requiring service operation unexpected = err uncaught
requiring service operation (interrupted kind) = err uncaught

unfoldable pub emit : {W : Type 0} → ApiTiming → Client W → Client W
emit t c = record c { timings = t ∷ c.timings }

abbrev pub timing : {A : Type 0} (service operation : String) → Bool → Answer A → ApiTiming
unfolding outcome_of
timing service operation dry_run answer = record {
  service = service;
  operation = operation;
  outcome = (outcome_of answer).0;
  error_code = (outcome_of answer).1;
  dry_run = dry_run;
}

-- `_call`, up to what becomes of the answer.
unfoldable pub timed :
    {W A B : Type 0} (service operation : String) (dry_run : Bool)
    → (Answer A → Result B)
    → Request W A
    → Exec (Client W) B
unfolding emit
timed service operation dry_run finish request c =
    let (answer, w) = request c.world in
    (finish answer, emit (timing service operation dry_run answer) (record c { world = w }))

-- `_call` with `allow_failure=True`.
unfoldable pub call_allowing :
    {W A : Type 0} (service operation : String) → Request W A → Exec (Client W) (Reply A)
unfolding timed allowing
call_allowing service operation request =
    timed service operation false (allowing service operation) request

-- `_call`.
unfoldable pub call : {W A : Type 0} (service operation : String) → Request W A → Exec (Client W) A
unfolding timed requiring
call service operation request = timed service operation false (requiring service operation) request

module _ {W : Type 0} (services : Services W) (self : AwsSdkGateway) where
  open self use {config}

  abbrev pub table_of : String → String
  table_of pk =
      if starts_with pk "GEN#" then config.generation_table_name else config.state_table_name

  -- `_get`.
  unfoldable pub get_record : (pk sk : String) → Exec (Client W) Record
  unfolding call
  get_record pk sk = do
    found ←
        call "dynamodb" "get_item"
          (services.get_item (record { table = table_of pk; key = record { pk = pk; sk = sk } }))
    lift (item_of found)
