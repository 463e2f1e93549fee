-- ===== src/Daemon/Heartbeat.antt =====
-- daemon.py, `_eligible_heartbeat` and the counting of accepted heartbeats in
-- `wait_for_healthy_successor`: whether a candidate's state record shows a live successor.
use cloud_glider.Prelude.{
  String, Bool, true, false, ◌&&◌, Option, none, some, List, [], ◌∷◌, if◌then◌else◌,
}
use cloud_glider.Prelude.Int.{ℤ, pos, ◌+ℤ◌, ◌-ℤ◌, ◌*ℤ◌, max_ℤ, leb_ℤ}
use cloud_glider.Python.Result.{Result, ok, err, ◌>>=◌}
use cloud_glider.Python.Value.{Value, Record, value_eq, to_int, as_number, item, str, flag}
use cloud_glider.Daemon.Gateway.{Specification}
use cloud_glider.Daemon.Identity.{entries_match}
use cloud_glider.Daemon.Specification.{renamed}

-- The expected entries that `_eligible_heartbeat` takes from the control record and the parameters.
abbrev pub expected_from_control : List (String × String)
expected_from_control =
    ("request_id", "request_id")
    ∷ ("template_version", "desired_template_version")
    ∷ ("template_s3_version_id", "template_s3_version_id")
    ∷ ("template_sha256", "template_sha256")
    ∷ ("template_build_id", "template_build_id")
    ∷ ("bootstrap_version", "desired_bootstrap_version")
    ∷ ("daemon_artifact_version_id", "daemon_artifact_version_id")
    ∷ ("daemon_artifact_sha256", "daemon_artifact_sha256")
    ∷ []

abbrev pub expected_from_parameters : List (String × String)
expected_from_parameters =
    ("predecessor_stack_id", "PredecessorStackId") ∷ ("handoff_token", "HandoffToken") ∷ []

-- The entries that do not come from a record.
abbrev pub expected_fixed : Specification → String → String → Record
expected_fixed specification stack_id instance_id =
    ("generation", str specification.generation)
    ∷ ("stack_id", str stack_id)
    ∷ ("instance_id", str instance_id)
    ∷ ("status", str "CANDIDATE")
    ∷ ("workload_healthy", flag true)
    ∷ ("observed_propagation_enabled", flag true)
    ∷ ("observed_hold_active", flag false)
    ∷ []

-- The freshness window, from the two integers that it is computed with.
unfoldable pub freshness : ℤ → ℤ → ℤ
freshness interval poll = max_ℤ (interval *ℤ pos 3) (poll *ℤ pos 3)

-- `0 <= now - heartbeat_at <= freshness`.
abbrev pub is_fresh : ℤ → ℤ → ℤ → Bool
is_fresh now heartbeat_at window =
    leb_ℤ (pos 0) (now -ℤ heartbeat_at) && leb_ℤ (now -ℤ heartbeat_at) window

abbrev pub as_option : Result ℤ → Option ℤ
as_option (ok n) = some n
as_option (err e) = none

abbrev pub int_of : Result Value → Result ℤ
int_of (ok v) = to_int v
int_of (err e) = err e

-- `int(state[k])` inside the `try`: a missing key, a wrong type or an unreadable text is no integer.
unfoldable pub read_int : Record → String → Option ℤ
read_int state k = as_option (int_of (item state k))

abbrev pub both : Option ℤ → Option ℤ → Option ℤ
both (some at) (some sequence) = some at
both _ _ = none

-- When a heartbeat was written, if it carries the two integers that it must.
unfoldable pub heartbeat_time : Record → Option ℤ
heartbeat_time state =
    both (read_int state "heartbeat_at_epoch") (read_int state "heartbeat_sequence")

-- `int(control[k])`.
unfoldable pub int_item : Record → String → Result ℤ
int_item control k = do v ← item control k; to_int v

-- The test of the age, of a state that was written at the given time.
unfoldable pub fresh_at : Record → ℤ → Option ℤ → Result Bool
fresh_at control now none = ok false
fresh_at control now (some at) = do
  interval ← int_item control "heartbeat_interval_seconds"
  poll ← int_item control "readiness_poll_seconds"
  ok (is_fresh now at (freshness interval poll))

-- `_eligible_heartbeat`.
unfoldable pub eligible_heartbeat :
    Record → Record → Specification → String → String → ℤ → Result Bool
eligible_heartbeat state control specification stack_id instance_id now = do
  from_control ← renamed expected_from_control control
  from_parameters ← renamed expected_from_parameters specification.parameters
  let fixed = expected_fixed specification stack_id instance_id
  if entries_match from_control state
        && entries_match from_parameters state
        && entries_match fixed state
      then fresh_at control now (heartbeat_time state)
      else ok false

-- What the waiting loop keeps: the instance, the last accepted state and how many were accepted.
pub record Waiting : Type 0 where
  pub expected_instance : Option String
  pub prior : Option Record
  pub accepted : ℤ

pub data Step : Type 0 where
  ready : Record → Step
  waiting : Waiting → Step

-- The first eligible state is accepted as it is.
unfoldable pub first_accepted : ℤ → Waiting → Record → Step
first_accepted required w state =
    if leb_ℤ required (pos 1)
    then ready state
    else waiting (record w { prior = some state; accepted = pos 1 })

unfoldable pub next_accepted : ℤ → Waiting → Record → Step
next_accepted required w state =
    if leb_ℤ required (w.accepted +ℤ pos 1)
    then ready state
    else waiting (record w { prior = some state; accepted = w.accepted +ℤ pos 1 })

-- `state["heartbeat_at_epoch"] - prior["heartbeat_at_epoch"]`.
unfoldable pub elapsed_since : Record → Record → Result ℤ
elapsed_since prior state = do
  at ← item state "heartbeat_at_epoch"
  before ← item prior "heartbeat_at_epoch"
  new ← as_number at
  old ← as_number before
  ok (new -ℤ old)

unfoldable pub spaced_accepted : Record → ℤ → Waiting → Record → Record → Result Step
spaced_accepted control required w prior state = do
  elapsed ← elapsed_since prior state
  interval ← int_item control "heartbeat_interval_seconds"
  ok (if leb_ℤ interval elapsed then next_accepted required w state else waiting w)

-- `state["heartbeat_sequence"] != prior["heartbeat_sequence"]`.
unfoldable pub same_sequence : Record → Record → Result Bool
same_sequence prior state = do
  sequence ← item state "heartbeat_sequence"
  last ← item prior "heartbeat_sequence"
  ok (value_eq sequence last)

unfoldable pub later_accepted : Record → ℤ → Waiting → Record → Record → Result Step
later_accepted control required w prior state = do
  same ← same_sequence prior state
  if same then ok (waiting w) else spaced_accepted control required w prior state

unfoldable pub accept_after : Record → ℤ → Waiting → Option Record → Record → Result Step
accept_after control required w none state = ok (first_accepted required w state)
accept_after control required w (some prior) state = later_accepted control required w prior state

-- What the loop makes of an eligible state.
unfoldable pub accept : Record → ℤ → Waiting → Record → Result Step
accept control required w state = accept_after control required w w.prior state
