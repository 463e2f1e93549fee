-- ===== src/Ec2/Control/Approved.antt =====
-- What `Ec2Daemon._validated_control` accepts: records that keep within the fixed policy and name the
-- daemon's own chain, place, launch template and artifacts.
use cloud_glider.Prelude.{String, true, false, not, ◌||◌, List, [], ◌∷◌, ◌==◌, ◌≡◌, ap, ◌∙◌, arith}
use cloud_glider.Prelude.Int.{ℤ, pos, ltb_ℤ, ◌≤ℤ◌}
use cloud_glider.Prelude.Lists.{All}
use cloud_glider.Python.Text.{matches_sha256}
use cloud_glider.Python.Result.{
  Failure, safety, transient, ok, raise_if, ◌>>=◌, bind_ok, then_ok, ok_inj,
}
use cloud_glider.Python.Value.{
  flag, null, bool, num, dict, text, Value, plain, list, Record, value_eq, truth, to_int, item, get,
  as_text, str, int,
}
use cloud_glider.Python.Items.{item-ok}
use cloud_glider.Daemon.Control.{timing_fields, differs, require}
use cloud_glider.Daemon.Control.Approved.{Says, IsPositive, check_timing-ok}
use cloud_glider.Family.Config.{Ec2DaemonConfig, audit_table_name}
use cloud_glider.Ec2.Control.{
  text_fields, is_filled, is_bool, number_fields, Bool, check_each, is_number, check_cleanup,
  check_ceiling, check_limit, check_digest, artifact_identity, check_artifacts, Place,
  expected_topic, validated_control,
}

abbrev pub IsDigest : Record → String → Type 0
IsDigest control k = (s : String) × (get k control ≡ str s) × (matches_sha256 s ≡ true)

pub record IsApproved (c : Ec2DaemonConfig) (p : Place) (control : Record) : Type 0 where
  pub own_chain : Says control "request_id" (str c.request_id)
  pub own_environment : Says control "environment" (str c.environment)
  pub own_audit : Says control "audit_table_name" (str (audit_table_name c))
  pub backend : Says control "propagation_backend" (str "ec2")
  pub own_generations : Says control "generation_table_name" (str c.generation_table_name)
  pub uncleaned : get "cleanup_requested" control ≡ flag false
  pub settled :
      (value_eq (get "cleanup_status" control) (str "IDLE")
        || value_eq (get "cleanup_status" control) (str "COMPLETE"))
      ≡ true
  pub numbers : All (λ k. is_number (get k control) ≡ true) number_fields
  pub texts : All (λ k. is_filled (get k control) ≡ true) text_fields
  pub switch : is_bool (get "propagation_enabled" control) ≡ true
  pub architecture : Says control "approved_architecture" (str "arm64")
  pub timing : All (IsPositive control) timing_fields
  pub topic : (c.operational_alerts_topic_arn == expected_topic c p) ≡ true
  pub ceiling :
      (value_eq (get "max_live_generations" control) (int (pos 2))
        || value_eq (get "max_live_generations" control) (int (pos 3)))
      ≡ true
  pub model : Says control "concurrency_model" (str "EC2_DRY_RUN_THEN_RETIRE")
  pub region : Says control "approved_region" (str "us-west-2")
  pub own_region : (p.region == "us-west-2") ≡ true
  pub own_account : Says control "approved_account_id" (str p.account_id)
  pub instance_types : Says control "approved_instance_types" (list (text "t4g.micro" ∷ []))
  pub limit :
      (n : ℤ) × (to_int (get "max_generation" control) ≡ ok n) × (pos 0 ≤ℤ n) × (n ≤ℤ pos 999999)
  pub template_digest : IsDigest control "template_sha256"
  pub daemon_digest : IsDigest control "daemon_artifact_sha256"
  pub launch_digest : IsDigest control "launch_template_sha256"
  pub own_template : Says control "launch_template_id" (str c.launch_template_id)
  pub own_version : Says control "launch_template_version" (str c.launch_template_version)
  pub artifacts : All (λ pin. Says control pin.0 (str pin.1)) (artifact_identity c)

require-Says :
    (control : Record) (k : String) (v : Value) (e : Failure)
    → require control k v e ≡ ok tt
    → Says control k v
unfolding require differs item get
require-Says control k v e h = ground arith

as_text-ok : (v : Value) (s : String) → as_text v ≡ ok s → v ≡ str s
unfolding as_text
as_text-ok (plain (text t)) s e = ap str (ok_inj e)
as_text-ok (plain null) s e = cc
as_text-ok (plain (bool b)) s e = cc
as_text-ok (plain (num n)) s e = cc
as_text-ok (list l) s e = cc
as_text-ok (dict d) s e = cc

check_digest-IsDigest :
    (control : Record) (k : String) → check_digest control k ≡ ok tt → IsDigest control k
unfolding check_digest
check_digest-IsDigest control k h =
    let (v, found, h') =
      bind_ok (item control k)
        (λ v.
          as_text v >>= λ s. raise_if (not (matches_sha256 s)) (safety "TEMPLATE_IDENTITY_INVALID"))
        h in
    let (s, is_text, h'') =
      bind_ok (as_text v)
        (λ s. raise_if (not (matches_sha256 s)) (safety "TEMPLATE_IDENTITY_INVALID")) h' in
    (s, item-ok k control found ∙ as_text-ok v s is_text, ground arith)

limit-within :
    (control : Record)
    → check_limit control ≡ ok tt
    → (n : ℤ) × (to_int (get "max_generation" control) ≡ ok n) × (pos 0 ≤ℤ n) × (n ≤ℤ pos 999999)
unfolding check_limit
limit-within control h =
    let (v, found, h') =
      bind_ok (item control "max_generation")
        (λ v. to_int v >>= λ n.
          raise_if (ltb_ℤ n (pos 0) || ltb_ℤ (pos 999999) n) (safety "MAX_GENERATION_INVALID"))
        h in
    let (n, is_number', h'') =
      bind_ok (to_int v)
        (λ n. raise_if (ltb_ℤ n (pos 0) || ltb_ℤ (pos 999999) n) (safety "MAX_GENERATION_INVALID"))
        h' in
    (n, ap to_int (item-ok "max_generation" control found) ∙ is_number', ground arith, ground arith)

cleanup-check :
    (control : Record)
    → check_cleanup control ≡ ok tt
    → (get "cleanup_requested" control ≡ flag false)
      × ((value_eq (get "cleanup_status" control) (str "IDLE")
            || value_eq (get "cleanup_status" control) (str "COMPLETE"))
          ≡ true)
unfolding check_cleanup item get truth
cleanup-check control h =
    of_value (get "cleanup_requested" control) (ground arith) (ground arith) (ground arith)
  where
    of_value :
        (v : Value)
        → is_bool v ≡ true
        → truth v ≡ false
        → (value_eq (get "cleanup_status" control) (str "IDLE")
            || value_eq (get "cleanup_status" control) (str "COMPLETE"))
          ≡ true
        → (v ≡ flag false)
          × ((value_eq (get "cleanup_status" control) (str "IDLE")
                || value_eq (get "cleanup_status" control) (str "COMPLETE"))
              ≡ true)
    of_value (plain (bool b)) e f g = (ap flag f, g)
    of_value (plain null) e f g = cc
    of_value (plain (num n)) e f g = cc
    of_value (plain (text s)) e f g = cc
    of_value (list l) e f g = cc
    of_value (dict d) e f g = cc

each-All :
    (test : Value → Bool) (control : Record) (fields : List String)
    → check_each test control fields ≡ ok tt
    → All (λ k. test (get k control) ≡ true) fields
unfolding check_each item get
each-All test control [] h = tt
each-All test control (field ∷ fields) h =
    (ground arith, each-All test control fields (ground arith))

ceiling-check :
    (control : Record)
    → check_ceiling control ≡ ok tt
    → (value_eq (get "max_live_generations" control) (int (pos 2))
        || value_eq (get "max_live_generations" control) (int (pos 3)))
      ≡ true
unfolding check_ceiling item get
ceiling-check control h = ground arith

model-check :
    (control : Record)
    → check_ceiling control ≡ ok tt
    → Says control "concurrency_model" (str "EC2_DRY_RUN_THEN_RETIRE")
unfolding check_ceiling
model-check control h = require-Says control _ _ (safety "CONCURRENCY_MODEL_INVALID") (ground arith)

artifacts-All :
    (control : Record) (pins : List (String × String))
    → check_artifacts control pins ≡ ok tt
    → All (λ pin. Says control pin.0 (str pin.1)) pins
unfolding check_artifacts
artifacts-All control [] h = tt
artifacts-All control ((k, v) ∷ pins) h =
    let (here, rest) =
      then_ok (require control k (str v) (safety "ARTIFACT_IDENTITY_MISMATCH"))
        (check_artifacts control pins) h in
    (require-Says control k (str v) _ here, artifacts-All control pins rest)

-- A record that `Ec2Daemon._validated_control` returns is the one that it was given, and is approved: its
-- cleanup switch is `False` and its cleanup status IDLE or COMPLETE; its numbers are integers and its texts
-- are not empty; its switch is a Boolean; it has the fixed backend, model, Region, architecture and instance
-- type, a ceiling of 2 or 3, a limit from 0 to 999999, intervals of 1 or more and well-formed digests; and it
-- names the daemon's own chain, tables, environment, account, launch template and artifacts. The gateway's
-- Region and the alert topic of the configuration are the expected ones.
pub validated_control_sound :
    (c : Ec2DaemonConfig) (p : Place) (control result : Record)
    → validated_control c p control ≡ ok result
    → (result ≡ control) × IsApproved c p control
unfolding validated_control
validated_control_sound c p control result h = (
  ground arith,
  record {
    own_chain =
        require-Says control _ _ (transient "stale chain identity; daemon is fenced")
          (ground arith);
    own_environment =
        require-Says control _ _ (safety "ENVIRONMENT_POLICY_MISMATCH") (ground arith);
    own_audit = require-Says control _ _ (safety "AUDIT_TABLE_MISMATCH") (ground arith);
    backend = require-Says control _ _ (safety "BACKEND_MISMATCH") (ground arith);
    own_generations = require-Says control _ _ (safety "GENERATION_TABLE_MISMATCH") (ground arith);
    uncleaned = (cleanup-check control (ground arith)).0;
    settled = (cleanup-check control (ground arith)).1;
    numbers = each-All is_number control number_fields (ground arith);
    texts = each-All is_filled control text_fields (ground arith);
    switch = (each-All is_bool control ("propagation_enabled" ∷ []) (ground arith)).0;
    architecture = require-Says control _ _ (safety "COMPUTE_POLICY_MISMATCH") (ground arith);
    timing = check_timing-ok control timing_fields (ground arith);
    topic = ground arith;
    ceiling = ceiling-check control (ground arith);
    model = model-check control (ground arith);
    region = require-Says control _ _ (safety "REGION_POLICY_MISMATCH") (ground arith);
    own_region = ground arith;
    own_account = require-Says control _ _ (safety "ACCOUNT_POLICY_MISMATCH") (ground arith);
    instance_types = require-Says control _ _ (safety "COMPUTE_POLICY_MISMATCH") (ground arith);
    limit = limit-within control (ground arith);
    template_digest = check_digest-IsDigest control "template_sha256" (ground arith);
    daemon_digest = check_digest-IsDigest control "daemon_artifact_sha256" (ground arith);
    launch_digest = check_digest-IsDigest control "launch_template_sha256" (ground arith);
    own_template =
        require-Says control _ _ (safety "LAUNCH_TEMPLATE_IDENTITY_MISMATCH") (ground arith);
    own_version =
        require-Says control _ _ (safety "LAUNCH_TEMPLATE_IDENTITY_MISMATCH") (ground arith);
    artifacts = artifacts-All control (artifact_identity c) (ground arith);
  },
)
