-- ===== src/Ec2/Proof.antt =====
-- ec2_daemon.py: what `_eligible_functional_readiness` asks of a candidate's state, and the records that
-- `conditional_handoff` writes.
use cloud_glider.Prelude.{
  String, Bool, true, false, not, ◌&&◌, ◌||◌, Option, none, some, List, [], ◌∷◌, if◌then◌else◌,
}
use cloud_glider.Prelude.Int.{ℤ, pos, ◌+ℤ◌, ◌*ℤ◌, leb_ℤ}
use cloud_glider.Prelude.Lists.{all}
use cloud_glider.Python.Text.{int_of_text, format_06d_int}
use cloud_glider.Python.Result.{Result, ok, ◌>>=◌}
use cloud_glider.Python.Dict.{lookup, update}
use cloud_glider.Python.Value.{
  Plain, num, Value, dict, Record, as_number, or_value_error, item, get, is_bool, str, flag,
}
use cloud_glider.Daemon.Identity.{entries_match}
use cloud_glider.Daemon.Specification.{select}
use cloud_glider.Ec2.Session.{Expected, Specification, Ec2Daemon}
use cloud_glider.Ec2.Specification.{required_control_fields, control_fingerprint, identity}
use cloud_glider.Ec2.Authority.{proof_matches, continuation_status}

-- `FUNCTIONAL_READINESS_MAX_AGE_SECONDS`.
abbrev pub max_age_seconds : ℤ
max_age_seconds = pos 15

-- `0 <= self.clock() - timestamp <= FUNCTIONAL_READINESS_MAX_AGE_SECONDS`, of a clock in milliseconds.
unfoldable pub is_young : ℤ → ℤ → Bool
is_young timestamp now =
    leb_ℤ (timestamp *ℤ pos 1000) now && leb_ℤ now ((timestamp +ℤ max_age_seconds) *ℤ pos 1000)

abbrev pub proof_flags : List String
proof_flags = "daemon_live" ∷ "observed_propagation_enabled" ∷ "observed_hold_active" ∷ []

-- `type(timestamp) is int`.
abbrev pub time_of : Option Plain → Option ℤ
time_of (some (num n)) = some n
time_of _ = none

-- `"BOUNDARY" if int(spec["generation"]) >= control["max_generation"] else "DRY_RUN_PASSED"`, and the
-- generation after it.
unfoldable pub continuation : Record → Specification → Result (String × String)
continuation control spec = do
  number ← or_value_error (int_of_text spec.generation)
  ceiling ← item control "max_generation"
  limit ← as_number ceiling
  ok (format_06d_int (number +ℤ pos 1), continuation_status number limit)

module _ {W : Type 0} (d : Ec2Daemon W) where
  open d use {config, gateway, lease_owner}

  unfoldable pub expected_state : Specification → String → Result Record
  expected_state spec id = do
    predecessor ← item spec.tags "predecessor-instance-id"
    token ← item spec.tags "handoff-token"
    ok (
        update (identity d) (
          ("generation", str spec.generation)
          ∷ ("instance_id", str id)
          ∷ ("predecessor_instance_id", predecessor)
          ∷ ("handoff_token", token)
          ∷ ("status", str "CANDIDATE")
          ∷ ("daemon_live", flag true)
          ∷ ("observed_propagation_enabled", flag true)
          ∷ ("observed_hold_active", flag false)
          ∷ []))

  unfoldable pub candidate_proof : Record → Specification → String → Result Record
  candidate_proof control spec id = do
    token ← item spec.tags "handoff-token"
    digest ← control_fingerprint gateway.sha256_hex control
    next ← continuation control spec
    ok (
        ("schema_version", str "1")
        ∷ ("producer_instance_id", str id)
        ∷ ("handoff_token", token)
        ∷ ("control_sha256", str digest)
        ∷ ("continuation_generation", str next.0)
        ∷ ("continuation_status", str next.1)
        ∷ [])

  -- The time of the proof, where the proof holds what it must.
  unfoldable pub time_of_proof : Record → Specification → String → Value → Result (Option ℤ)
  time_of_proof control spec id (dict proof) = do
    expected ← candidate_proof control spec id
    ok (if proof_matches expected proof then time_of (lookup "proved_at_epoch" proof) else none)
  time_of_proof control spec id _ = ok none

  -- `_eligible_functional_readiness` up to its reading of the clock: the time that the proof has, unless
  -- the state is refused.
  unfoldable pub proved_at : Record → Record → Specification → String → Result (Option ℤ)
  proved_at state control spec id = do
    expected ← expected_state spec id
    if not (entries_match expected state) || not (all (λ k. is_bool (get k state)) proof_flags)
        then ok none
        else time_of_proof control spec id (get "functional_readiness" state)

  -- `expected` of `conditional_handoff`.
  unfoldable pub handoff_expected : Record → Record → ℤ → Result Expected
  handoff_expected fresh state now = do
    fields ← select required_control_fields fresh
    ok (record {
      identity = identity d;
      lease_owner = lease_owner;
      lease_now = now;
      control_identity = fields;
      candidate = state;
    })

  -- `successor` of `conditional_handoff`.
  unfoldable pub handoff_successor :
      Record → Specification → String → Record → String → Result Record
  handoff_successor fresh spec id state updated = do
    token ← item spec.tags "handoff-token"
    readiness ← item state "functional_readiness"
    digest ← control_fingerprint gateway.sha256_hex fresh
    next ← continuation fresh spec
    ok (
        update (identity d) (
          ("generation", str spec.generation)
          ∷ ("instance_id", str id)
          ∷ ("status", str "CURRENT")
          ∷ ("handoff_token", token)
          ∷ ("predecessor_instance_id", str gateway.instance_id)
          ∷ ("retirement_authorized", flag true)
          ∷ ("functional_readiness", readiness)
          ∷ ("handoff_control_sha256", str digest)
          ∷ ("continuation_generation", str next.0)
          ∷ ("continuation_status", str next.1)
          ∷ ("updated_at", str updated)
          ∷ []))
