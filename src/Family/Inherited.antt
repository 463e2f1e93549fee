-- ===== src/Family/Inherited.antt =====
-- inherited.py: `validate`, `child_paths`, `specification`. The digest of a dict, SHA-256 of its JSON
-- text, is a parameter.
pub mod Tree
pub mod Exact
pub mod Valid
use Prim.Native.String.{◌++◌ as concat}
use cloud_glider.Prelude.{
  ℕ, String, Bool, true, false, not, ◌&&◌, ◌||◌, Option, none, some, List, [], ◌∷◌, ◌==◌, Char,
  if◌then◌else◌,
}
use cloud_glider.Prelude.Int.{ℤ, pos, ◌-ℤ◌, ltb_ℤ, leb_ℤ, eqb_ℤ}
use cloud_glider.Prelude.Lists.{all}
use cloud_glider.Python.Text.{
  text_length, matches_account, matches_node_path, contains, take, format_06d_int, int_of_text,
}
use cloud_glider.Python.Result.{
  Failure, safety, uncaught, Result, ok, err, raise_if, or_raise, ◌>>=◌, ◌>>◌,
}
use cloud_glider.Python.Dict.{has_key}
use cloud_glider.Python.Value.{
  Plain, num, Value, plain, Record, truth, item, is_bool, as_text, str, value_eq,
}
use cloud_glider.Daemon.Control.{require}
use cloud_glider.Family.Config.{Envelope, Ec2DaemonConfig, audit_table_name}

abbrev pub required_settings : List String
required_settings =
    "schema_version" ∷ "request_id" ∷ "binary_fanout_enabled" ∷ "max_generation"
    ∷ "audit_table_name" ∷ "readiness_poll_seconds" ∷ "readiness_timeout_seconds"
    ∷ "heartbeat_interval_seconds" ∷ "control_poll_seconds" ∷ "control_max_age_seconds"
    ∷ "initial_propagation_enabled" ∷ "retry_backoff_max_seconds" ∷ "launch_template_id"
    ∷ "launch_template_version" ∷ "launch_template_sha256" ∷ "daemon_artifact_sha256"
    ∷ "approved_account_id" ∷ "approved_region" ∷ "environment" ∷ []

abbrev pub boolean_settings : List String
boolean_settings = "binary_fanout_enabled" ∷ "initial_propagation_enabled" ∷ []

-- The numeric settings, each with the least value that it may have.
abbrev pub numeric_settings : List (String × ℤ)
numeric_settings =
    ("max_generation", pos 0)
    ∷ ("readiness_poll_seconds", pos 1)
    ∷ ("readiness_timeout_seconds", pos 1)
    ∷ ("heartbeat_interval_seconds", pos 1)
    ∷ ("control_poll_seconds", pos 1)
    ∷ ("control_max_age_seconds", pos 1)
    ∷ ("retry_backoff_max_seconds", pos 1)
    ∷ []

abbrev pub invalid : Failure
invalid = safety "INHERITED_CONFIG_INVALID"

unfoldable pub check_booleans : Record → List String → Result (Unit {0})
check_booleans settings [] = ok tt
check_booleans settings (k ∷ ks) =
    let rest = check_booleans settings ks in
    do v ← item settings k; raise_if (not (is_bool v)) invalid; rest

-- A value of type `int`; a Boolean is not one.
unfoldable pub whole : Value → Result ℤ
whole (plain (num n)) = ok n
whole _ = err invalid

unfoldable pub whole_item : Record → String → Result ℤ
whole_item settings k = do v ← item settings k; whole v

unfoldable pub check_numbers : Record → List (String × ℤ) → Result (Unit {0})
check_numbers settings [] = ok tt
check_numbers settings ((k, least) ∷ fields) =
    let rest = check_numbers settings fields in
    do n ← whole_item settings k; raise_if (ltb_ℤ n least) invalid; rest

-- The pinned settings, and the field of the configuration that each must equal.
abbrev pub pins : Ec2DaemonConfig → List (String × String)
pins c =
    ("request_id", c.request_id)
    ∷ ("launch_template_id", c.launch_template_id)
    ∷ ("launch_template_version", c.launch_template_version)
    ∷ ("daemon_artifact_sha256", c.daemon_artifact_sha256)
    ∷ ("environment", c.environment)
    ∷ []

abbrev pub optional_pins : Ec2DaemonConfig → List (String × String)
optional_pins c =
    ("template_sha256", c.template_sha256)
    ∷ ("template_s3_version_id", c.template_s3_version_id)
    ∷ ("template_s3_bucket", c.template_bucket)
    ∷ ("template_s3_key", c.template_key)
    ∷ ("template_build_id", c.template_build_id)
    ∷ ("desired_template_version", c.template_version)
    ∷ ("desired_bootstrap_version", c.bootstrap_version)
    ∷ ("generation_table_name", c.generation_table_name)
    ∷ ("daemon_artifact_version_id", c.daemon_artifact_version_id)
    ∷ ("daemon_artifact_bucket", c.daemon_artifact_bucket)
    ∷ ("daemon_artifact_key", c.daemon_artifact_key)
    ∷ []

unfoldable pub check_pins : Record → List (String × String) → Result (Unit {0})
check_pins settings [] = ok tt
check_pins settings ((k, v) ∷ rest) =
    let others = check_pins settings rest in do require settings k (str v) invalid; others

unfoldable pub check_optional_pins : Record → List (String × String) → Result (Unit {0})
check_optional_pins settings [] = ok tt
check_optional_pins settings ((k, v) ∷ rest) =
    let others = check_optional_pins settings rest in
    do (if has_key settings k then require settings k (str v) invalid else ok tt); others

abbrev pub depth : String → ℤ
unfolding text_length
depth path = pos (text_length path) -ℤ pos 1

-- The ranges of depth, monitor timing and backoff.
unfoldable pub check_ranges : Record → Result (Unit {0})
check_ranges settings = do
  limit ← whole_item settings "max_generation"
  age ← whole_item settings "control_max_age_seconds"
  interval ← whole_item settings "control_poll_seconds"
  raise_if (ltb_ℤ (pos 9) limit || ltb_ℤ age interval) invalid
  backoff ← whole_item settings "retry_backoff_max_seconds"
  poll ← whole_item settings "readiness_poll_seconds"
  raise_if (ltb_ℤ backoff poll) invalid

abbrev pub lineage : Failure
lineage = safety "LINEAGE_INVALID"

-- The node path fits the generation and the shape of the tree.
unfoldable pub check_lineage : Ec2DaemonConfig → Record → Result (Unit {0})
check_lineage c settings = do
  raise_if (not (matches_node_path c.node_path)) lineage
  generation ← or_raise (int_of_text c.generation) uncaught
  raise_if (not (eqb_ℤ (depth c.node_path) generation)) lineage
  fanout ← item settings "binary_fanout_enabled"
  raise_if (not (truth fanout) && contains "1" c.node_path) lineage

-- The account is a text, or `re.fullmatch` raises.
unfoldable pub check_place : Record → Result (Unit {0})
check_place settings = do
  require settings "approved_region" (str "us-west-2") invalid
  v ← item settings "approved_account_id"
  account ← as_text v
  raise_if (not (matches_account account)) invalid

unfoldable pub check_settings : Ec2DaemonConfig → Record → Result Record
check_settings c settings = do
  raise_if (not (all (has_key settings) required_settings)) invalid
  require settings "schema_version" (str "3") invalid
  require settings "audit_table_name" (str (audit_table_name c)) (safety "AUDIT_TABLE_MISMATCH")
  check_booleans settings boolean_settings
  check_numbers settings numeric_settings
  check_ranges settings
  check_lineage c settings
  check_pins settings (pins c)
  check_optional_pins settings (optional_pins c)
  check_place settings
  limit ← whole_item settings "max_generation"
  raise_if (ltb_ℤ limit (depth c.node_path)) lineage
  ok settings

-- `path + c`.
unfoldable pub snoc : String → Char → String
snoc String.[] c = String.◌∷◌ c ""
snoc (String.◌∷◌ d s) c = String.◌∷◌ d (snoc s c)

-- `child_paths`, on the two settings that it reads.
unfoldable pub child_paths : String → ℤ → Bool → List String
child_paths path limit fanout =
    if leb_ℤ limit (depth path)
    then []
    else if fanout
    then snoc path "0" ∷ snoc path "1" ∷ []
    else snoc path "0" ∷ []

-- The dict that `specification` returns.
pub record NodeSpecification : Type 0 where
  pub request_id : String
  pub generation : String
  pub node_path : String
  pub launch_template_id : String
  pub launch_template_version : String
  pub client_token : String
  pub tags : Record

module _ (digest : Record → String) where
  -- `validate`.
  unfoldable pub validate : Ec2DaemonConfig → Result Record
  validate c = do
    envelope ← or_raise c.inherited_configuration invalid
    raise_if (not (value_eq (str (digest envelope.settings)) envelope.sha256)) invalid
    check_settings c envelope.settings

  -- What the token of a child is the digest of.
  unfoldable pub token_parts : Ec2DaemonConfig → String → String → Value → Record
  token_parts c path parent sha256 =
      ("cycle", str c.request_id)
      ∷ ("path", str path)
      ∷ ("parent", str parent)
      ∷ ("config", sha256)
      ∷ []

  -- `specification`.
  unfoldable pub specification :
      Ec2DaemonConfig → String → String → String → Result NodeSpecification
  specification c path parent handoff = do
    settings ← validate c
    envelope ← or_raise c.inherited_configuration uncaught
    let generation = format_06d_int (depth path)
    let token = concat "cg-tree-" (take 40 (digest (token_parts c path parent envelope.sha256)))
    ok (record {
      request_id = c.request_id;
      generation = generation;
      node_path = path;
      launch_template_id = c.launch_template_id;
      launch_template_version = c.launch_template_version;
      client_token = token;
      tags =
          ("project", str "cloud-glider")
          ∷ ("environment", str c.environment)
          ∷ ("owner", str c.owner)
          ∷ ("purpose", str "generation-compute")
          ∷ ("propagation-backend", str "ec2")
          ∷ ("bootstrap-request-id", str c.request_id)
          ∷ ("generation", str generation)
          ∷ ("node-path", str path)
          ∷ ("configuration-sha256", envelope.sha256)
          ∷ ("predecessor-instance-id", str parent)
          ∷ ("handoff-token", str handoff)
          ∷ ("template-sha256", str c.template_sha256)
          ∷ (
            "Name",
            str (
                concat "cloud-glider-"
                  (concat c.environment (concat "-" (concat c.request_id (concat "-" path))))),
          )
          ∷ [];
    })
