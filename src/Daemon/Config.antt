-- ===== src/Daemon/Config.antt =====
-- daemon.py, `DaemonConfig`: the bootstrap configuration of one generation.
use cloud_glider.Prelude.{
  String, Bool, false, not, ◌&&◌, ◌||◌, Option, none, some, List, [], ◌∷◌, ◌==◌, ltb, eqb,
}
use Prim.Native.String.{◌++◌ as concat}
use cloud_glider.Prelude.Int.{ℤ}
use cloud_glider.Prelude.Lists.{length, get_elem?, all}
use cloud_glider.Python.Text.{
  text_length, lower, split_colon, int_of_text, matches_generation, matches_sha256,
  matches_request_id,
}
use text.Mathlib.Text.{starts_with}
use cloud_glider.Python.Result.{uncaught, Result, ok, ◌>>=◌, ◌>>◌, raise_if, or_raise}
use cloud_glider.Python.Dict.{Dict, keys, has_key}
use cloud_glider.Python.Value.{item}

pub record DaemonConfig : Type 0 where
  pub environment : String
  pub request_id : String
  pub generation : String
  pub stack_id : String
  pub predecessor_stack_id : String
  pub handoff_token : String
  pub state_table_name : String
  pub generation_table_name : String
  pub bootstrap_version : String
  pub template_version : String
  pub template_bucket : String
  pub template_key : String
  pub template_s3_version_id : String
  pub template_sha256 : String
  pub template_build_id : String
  pub daemon_artifact_bucket : String
  pub daemon_artifact_key : String
  pub daemon_artifact_version_id : String
  pub daemon_artifact_sha256 : String
  pub emergency_hold_function_name : String
  pub propagation_audit_log_group : String
  pub daemon_operations_log_group : String

-- The property of that name.
unfoldable pub audit_table_name : DaemonConfig → String
audit_table_name c = concat "cloud-glider-" (concat c.environment "-audit")

abbrev part_is : String → Option String → Bool
part_is s none = false
part_is s (some p) = p == s

-- Six parts, the third one "cloudformation" and a Region in the fourth.
abbrev is_regional_stack : List String → Bool
is_regional_stack parts =
    eqb (length parts) 6
    && part_is "cloudformation" (get_elem? parts 2)
    && not (part_is "" (get_elem? parts 3))

-- `DaemonConfig.validate`. Each of its errors is a `ValueError`.
unfoldable pub validate : DaemonConfig → Result (Unit {0})
unfolding matches_request_id matches_generation matches_sha256 split_colon text_length lower
validate c = do
  raise_if
      (not
        (c.generation_table_name == concat "cloud-glider-" (concat c.environment "-generations")))
      uncaught
  raise_if (not (matches_request_id c.request_id)) uncaught
  raise_if (not (matches_generation c.generation)) uncaught
  raise_if (not (starts_with c.stack_id "arn:")) uncaught
  let stack_parts = split_colon 5 c.stack_id
  raise_if (not (is_regional_stack stack_parts)) uncaught
  raise_if (c.handoff_token == "" || ltb 128 (text_length c.handoff_token)) uncaught
  raise_if (not (matches_sha256 (lower c.template_sha256))) uncaught
  raise_if (not (matches_sha256 (lower c.daemon_artifact_sha256))) uncaught

-- The names of the dataclass's fields.
abbrev pub config_fields : List String
config_fields =
    "environment" ∷ "request_id" ∷ "generation" ∷ "stack_id" ∷ "predecessor_stack_id"
    ∷ "handoff_token" ∷ "state_table_name" ∷ "generation_table_name" ∷ "bootstrap_version"
    ∷ "template_version" ∷ "template_bucket" ∷ "template_key" ∷ "template_s3_version_id"
    ∷ "template_sha256" ∷ "template_build_id" ∷ "daemon_artifact_bucket" ∷ "daemon_artifact_key"
    ∷ "daemon_artifact_version_id" ∷ "daemon_artifact_sha256" ∷ "emergency_hold_function_name"
    ∷ "propagation_audit_log_group" ∷ "daemon_operations_log_group" ∷ []

abbrev is_field : List String → String → Bool
is_field [] k = false
is_field (f ∷ fs) k = f == k || is_field fs k

-- `cls(**raw)`.
build : Dict String → Result DaemonConfig
unfolding item
build raw = do
  environment ← item raw "environment"
  request_id ← item raw "request_id"
  generation ← item raw "generation"
  stack_id ← item raw "stack_id"
  predecessor_stack_id ← item raw "predecessor_stack_id"
  handoff_token ← item raw "handoff_token"
  state_table_name ← item raw "state_table_name"
  generation_table_name ← item raw "generation_table_name"
  bootstrap_version ← item raw "bootstrap_version"
  template_version ← item raw "template_version"
  template_bucket ← item raw "template_bucket"
  template_key ← item raw "template_key"
  template_s3_version_id ← item raw "template_s3_version_id"
  template_sha256 ← item raw "template_sha256"
  template_build_id ← item raw "template_build_id"
  daemon_artifact_bucket ← item raw "daemon_artifact_bucket"
  daemon_artifact_key ← item raw "daemon_artifact_key"
  daemon_artifact_version_id ← item raw "daemon_artifact_version_id"
  daemon_artifact_sha256 ← item raw "daemon_artifact_sha256"
  emergency_hold_function_name ← item raw "emergency_hold_function_name"
  propagation_audit_log_group ← item raw "propagation_audit_log_group"
  daemon_operations_log_group ← item raw "daemon_operations_log_group"
  ok (record {
    environment = environment;
    request_id = request_id;
    generation = generation;
    stack_id = stack_id;
    predecessor_stack_id = predecessor_stack_id;
    handoff_token = handoff_token;
    state_table_name = state_table_name;
    generation_table_name = generation_table_name;
    bootstrap_version = bootstrap_version;
    template_version = template_version;
    template_bucket = template_bucket;
    template_key = template_key;
    template_s3_version_id = template_s3_version_id;
    template_sha256 = template_sha256;
    template_build_id = template_build_id;
    daemon_artifact_bucket = daemon_artifact_bucket;
    daemon_artifact_key = daemon_artifact_key;
    daemon_artifact_version_id = daemon_artifact_version_id;
    daemon_artifact_sha256 = daemon_artifact_sha256;
    emergency_hold_function_name = emergency_hold_function_name;
    propagation_audit_log_group = propagation_audit_log_group;
    daemon_operations_log_group = daemon_operations_log_group;
  })

-- `DaemonConfig.load`, from the object that `json.loads` returned.
unfoldable pub load : Dict String → Result DaemonConfig
unfolding has_key keys validate item build
load raw = do
  raise_if (not (all (has_key raw) config_fields)) uncaught
  raise_if (not (all (is_field config_fields) (keys raw))) uncaught
  config ← build raw
  validate config
  ok config

-- `int(self.config.generation)`.
unfoldable pub generation_number : DaemonConfig → Result ℤ
unfolding int_of_text
generation_number c = or_raise (int_of_text c.generation) uncaught
