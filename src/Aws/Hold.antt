-- ===== src/Aws/Hold.antt =====
-- aws_sdk.py: `handoff` and `invoke_hold`, the calls.
use cloud_glider.Prelude.{
  ℕ, String, Bool, true, false, not, ◌||◌, Option, none, some, [], ◌∷◌, ◌==◌, eqb, if◌then◌else◌,
  ◌++◌,
}
use cloud_glider.Python.Result.{transient}
use cloud_glider.Python.Exec.{Exec, pure, lift, raise, raise_if, ◌>>=◌, ◌>>◌}
use cloud_glider.Python.Dict.{Dict}
use cloud_glider.Python.Value.{Record}
use cloud_glider.Daemon.Gateway.{Expected}
use cloud_glider.Aws.Services.{Body, chunks, broken, Invocation, InvocationReply, Services}
use cloud_glider.Aws.Client.{Client, AwsSdkGateway, Reply, replied, refused, call_allowing}
use cloud_glider.Aws.Handoff.{handoff_transaction}

abbrev node_entry : Option String → Dict String
node_entry none = []
node_entry (some path) = ("node_path", path) ∷ []

abbrev is_broken : Option Body → Bool
is_broken none = false
is_broken (some (chunks parts)) = false
is_broken (some (broken message)) = true

abbrev is_error : Option String → Bool
is_error none = false
is_error (some e) = not (e == "")

abbrev status_is : Option ℕ → ℕ → Bool
status_is none n = false
status_is (some m) n = eqb m n

-- A cancelled transaction moved nothing.
unfoldable pub moved : {W : Type 0} → Reply (Unit {0}) → Exec (Client W) Bool
moved (replied u) = pure true
moved (refused code message reasons) =
    if code == "TransactionCanceledException" then pure false else raise (transient message)

unfoldable pub invoked : {W : Type 0} → Bool → Reply InvocationReply → Exec (Client W) (Unit {0})
invoked asynchronous (refused code message reasons) =
    raise (transient "failed to create emergency hold")
invoked asynchronous (replied r) = do
  raise_if (is_broken r.payload) (transient "emergency hold response incomplete")
  raise_if
      (is_error r.function_error
        || not (status_is r.status_code (if asynchronous then 202 else 200)))
      (transient "failed to create emergency hold")

module _ {W : Type 0} (services : Services W) (self : AwsSdkGateway) where
  open self use {config}

  unfoldable pub handoff : Expected → (successor audit : Record) → Exec (Client W) Bool
  unfolding handoff_transaction call_allowing moved
  handoff expected successor audit = do
    transaction ← lift (handoff_transaction services self expected successor audit)
    result ←
        call_allowing "dynamodb" "transact_write_items" (services.transact_write_items transaction)
    moved result

  unfoldable pub hold_invocation :
      (generation error_code correlation_id : String) → Option String → Bool → Invocation
  hold_invocation generation error_code correlation_id node_path asynchronous = record {
    function_name = config.emergency_hold_function_name;
    payload =
        (("generation", generation)
          ∷ ("error_code", error_code)
          ∷ ("correlation_id", correlation_id)
          ∷ ("request_id", config.request_id)
          ∷ [])
        ++ node_entry node_path;
    invocation_type = if asynchronous then "Event" else "RequestResponse";
  }

  unfoldable pub invoke_hold :
      (generation error_code correlation_id : String)
      → Option String
      → Bool
      → Exec (Client W) (Unit {0})
  unfolding hold_invocation call_allowing invoked
  invoke_hold generation error_code correlation_id node_path asynchronous = do
    result ← call_allowing "lambda" "invoke" (
        services.invoke
          (hold_invocation generation error_code correlation_id node_path asynchronous))
    invoked asynchronous result
