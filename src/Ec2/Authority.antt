-- ===== src/Ec2/Authority.antt =====
-- ec2_daemon.py: the tests that `retire_predecessor` makes of CURRENT and of the instances.
pub mod Authorized
pub mod Predecessor
use cloud_glider.Prelude.{
  String, Bool, true, false, not, ◌&&◌, ◌||◌, ◌==◌, Option, none, some, [], ◌∷◌, if◌then◌else◌,
}
use cloud_glider.Prelude.Int.{ℤ, pos, ◌+ℤ◌, ◌-ℤ◌, leb_ℤ}
use cloud_glider.Python.Text.{format_06d_int}
use cloud_glider.Python.Result.{safety, transient, Result, ok, err, raise_if, ◌>>=◌, ◌>>◌}
use cloud_glider.Python.Dict.{Dict, lookup, dict_eq}
use cloud_glider.Python.Value.{
  Plain, null, num, Value, plain, dict, Record, value_eq, as_number, item, get, is_true, str,
}
use cloud_glider.Daemon.Identity.{or_empty, entries_match}
use cloud_glider.Daemon.Provision.{or_key_error}
use cloud_glider.Ec2.Session.{Instance, Ec2Daemon}
use cloud_glider.Ec2.Specification.{control_fingerprint}
use cloud_glider.Ec2.Ownership.{generation_number}

abbrev or_null : Option Plain → Value
or_null none = plain null
or_null (some p) = plain p

-- `proof.get(key) == value` for each of the entries.
unfoldable pub proof_matches : Record → Dict Plain → Bool
unfolding lookup value_eq
proof_matches [] proof = true
proof_matches ((k, v) ∷ expected) proof =
    value_eq (or_null (lookup k proof)) v && proof_matches expected proof

-- `type(v) is int`.
abbrev is_int : Option Plain → Bool
is_int (some (num n)) = true
is_int _ = false

-- The functional readiness that CURRENT holds has a time, and the entries.
unfoldable pub is_proof : Record → Value → Bool
unfolding lookup
is_proof expected (dict proof) =
    is_int (lookup "proved_at_epoch" proof) && proof_matches expected proof
is_proof expected _ = false

-- `"BOUNDARY" if generation >= max_generation else "DRY_RUN_PASSED"`.
abbrev pub continuation_status : ℤ → ℤ → String
continuation_status number limit = if leb_ℤ limit number then "BOUNDARY" else "DRY_RUN_PASSED"

abbrev pub running_or_ambiguous : Option Instance → Result Instance
running_or_ambiguous none = err (transient "current instance health is ambiguous before retirement")
running_or_ambiguous (some own) = do
  state ← or_key_error own.state_name
  raise_if (not (state == "running"))
      (transient "current instance health is ambiguous before retirement")
  ok own

module _ {W : Type 0} (d : Ec2Daemon W) where
  open d use {config, gateway}

  -- What the proof of the readiness must hold.
  unfoldable pub expected_proof : Record → String → Result Record
  expected_proof current status = do
    digest ← item current "handoff_control_sha256"
    generation ← item current "continuation_generation"
    ok (
        ("schema_version", str "1")
        ∷ ("producer_instance_id", str gateway.instance_id)
        ∷ ("handoff_token", str config.handoff_token)
        ∷ ("control_sha256", digest)
        ∷ ("continuation_generation", generation)
        ∷ ("continuation_status", str status)
        ∷ [])

  -- The tests that `retire_predecessor` makes of CURRENT.
  unfoldable pub check_authority : Record → Record → Result (Unit {0})
  check_authority control current = do
    raise_if
        (not (value_eq (get "predecessor_instance_id" current) (str config.predecessor_instance_id))
          || not (value_eq (get "handoff_token" current) (str config.handoff_token))
          || not (is_true (get "retirement_authorized" current)))
        (safety "RETIREMENT_OWNERSHIP_INVALID")
    digest ← control_fingerprint gateway.sha256_hex control
    raise_if (not (value_eq (get "handoff_control_sha256" current) (str digest)))
        (transient "control changed since handoff; preserve predecessor")
    number ← generation_number d
    ceiling ← item control "max_generation"
    limit ← as_number ceiling
    let status = continuation_status number limit
    raise_if
        (not (value_eq (get "continuation_status" current) (str status))
          || not (
              value_eq (get "continuation_generation" current)
                (str (format_06d_int (number +ℤ pos 1)))))
        (safety "CONTINUATION_PROOF_MISSING")
    expected ← expected_proof current status
    raise_if (not (is_proof expected (get "functional_readiness" current)))
        (safety "FUNCTIONAL_READINESS_PROOF_MISSING")

  -- The tags that the predecessor must have.
  unfoldable pub predecessor_tags : ℤ → Record
  predecessor_tags number =
      ("generation", str (format_06d_int (number -ℤ pos 1)))
      ∷ ("project", str "cloud-glider")
      ∷ ("environment", str config.environment)
      ∷ ("purpose", str "generation-compute")
      ∷ ("bootstrap-request-id", str config.request_id)
      ∷ ("propagation-backend", str "ec2")
      ∷ []

  abbrev pub approved_template : Record
  approved_template =
      ("LaunchTemplateId", str config.launch_template_id)
      ∷ ("Version", str config.launch_template_version)
      ∷ []

  abbrev pub template_is : Record → Option Record → Bool
  unfolding dict_eq
  template_is wanted none = false
  template_is wanted (some found) = dict_eq value_eq found wanted

  -- The tests of the instance that is to be terminated, and its state.
  unfoldable pub check_predecessor : ℤ → Option Instance → Result String
  check_predecessor number none =
      err (transient "predecessor lookup is ambiguous; preserve retirement state")
  check_predecessor number (some found) = do
    raise_if
        (not (entries_match (predecessor_tags number) (or_empty found.tags))
          || not (template_is approved_template found.launch_template))
        (safety "PREDECESSOR_IDENTITY_MISMATCH")
    or_key_error found.state_name
