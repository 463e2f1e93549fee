-- ===== src/Daemon/Control/Approved.antt =====
-- What `validated_control` accepts: an accepted record, and no other, names the daemon's own tables,
-- chain and environment, and keeps within the fixed policy.
use cloud_glider.Prelude.{
  ◌↔◌, ◌∙◌, ap, ℕ, String, true, false, ◌||◌, some, List, [], ◌∷◌, ◌==◌, ◌≡◌, refl, arith, eq_iff,
  sym, not-false,
}
use cloud_glider.Prelude.Int.{ℤ, pos, ltb_ℤ, ltb_ℤ-false, ◌≤ℤ◌}
use cloud_glider.Prelude.Lists.{all, All, all_sound, get_elem?, All-get_elem?}
use cloud_glider.Python.Text.{lower}
use cloud_glider.Python.Result.{
  Failure, safety, ok, raise_if, bind_ok, then_ok, bind_eq, then_eq, raise_if-false, raise_if_ok,
  ok_inj,
}
use cloud_glider.Python.Dict.{has_key}
use cloud_glider.Python.Value.{
  text, Value, list, Record, value_eq, truth, to_int, item, get, is_bool, as_text, str, int, flag,
}
use cloud_glider.Python.Items.{item-ok, item-get}
use cloud_glider.Daemon.Config.{DaemonConfig, audit_table_name}
use cloud_glider.Daemon.Control.{
  required_control_fields, timing_fields, differs, require, region_of, check_region, check_timing,
  check_lowercase, check_switches, validated_control,
}

-- The field is there with a value equal to the given one.
abbrev pub Says : Record → String → Value → Type 0
Says control k v = value_eq (get k control) v ≡ true

-- The field is there and is at least 1 as an integer.
abbrev pub IsPositive : Record → String → Type 0
IsPositive control k = (n : ℤ) × (to_int (get k control) ≡ ok n) × (pos 1 ≤ℤ n)

abbrev pub IsLowercase : Record → String → Type 0
IsLowercase control k = (s : String) × (get k control ≡ str s) × ((lower s == s) ≡ true)

pub record IsApproved (c : DaemonConfig) (control : Record) : Type 0 where
  pub complete : all (has_key control) required_control_fields ≡ true
  pub audit_table : Says control "audit_table_name" (str (audit_table_name c))
  pub generation_table : Says control "generation_table_name" (str c.generation_table_name)
  pub own_chain : Says control "request_id" (str c.request_id)
  pub switch : is_bool (get "propagation_enabled" control) ≡ true
  pub no_cleanup : get "cleanup_requested" control ≡ flag false
  pub settled :
      (value_eq (get "cleanup_status" control) (str "IDLE")
        || value_eq (get "cleanup_status" control) (str "COMPLETE"))
      ≡ true
  pub ceiling : Says control "max_live_generations" (int (pos 3))
  pub model : Says control "concurrency_model" (str "PREFLIGHT_THEN_RETIRE")
  pub region : Says control "approved_region" (str "us-west-2")
  pub own_region : region_of c.stack_id ≡ ok "us-west-2"
  pub architecture : Says control "approved_architecture" (str "arm64")
  pub instance_types : Says control "approved_instance_types" (list (text "t4g.micro" ∷ []))
  pub own_environment : Says control "environment" (str c.environment)
  pub limit : (n : ℤ) × (to_int (get "max_generation" control) ≡ ok n) × (pos 0 ≤ℤ n)
  pub timing : All (IsPositive control) timing_fields
  pub template_digest : IsLowercase control "template_sha256"
  pub daemon_digest : IsLowercase control "daemon_artifact_sha256"

require-ok :
    (control : Record) (k : String) (v : Value) (e : Failure)
    → require control k v e ≡ ok tt
    → Says control k v
unfolding require differs item get
require-ok control k v e h = ground arith

check_switches-ok :
    (control : Record)
    → check_switches control ≡ ok tt
    → (is_bool (get "propagation_enabled" control) ≡ true)
      × (get "cleanup_requested" control ≡ flag false)
      × ((value_eq (get "cleanup_status" control) (str "IDLE")
            || value_eq (get "cleanup_status" control) (str "COMPLETE"))
          ≡ true)
unfolding check_switches item get truth
check_switches-ok control h = ground arith

pub check_timing-ok :
    (control : Record) (fields : List String)
    → check_timing control fields ≡ ok tt
    → All (IsPositive control) fields
unfolding check_timing
check_timing-ok control [] h = tt
check_timing-ok control (k ∷ ks) h =
    let (v, found, h1) = bind_ok (item control k) _ h in
    let (n, read, h2) = bind_ok (to_int v) _ h1 in
    let (u, large, rest) =
      bind_ok (raise_if (ltb_ℤ n (pos 1)) (safety "CONTROL_TIMING_INVALID")) _ h2 in
    ((n, rw (item-ok k control found) read, ground arith), check_timing-ok control ks rest)

check_lowercase-ok :
    (control : Record) (k : String) (e : Failure)
    → check_lowercase control k e ≡ ok tt
    → IsLowercase control k
unfolding check_lowercase as_text item get
check_lowercase-ok control k e h =
    let (v, found, h1) = bind_ok (item control k) _ h in
    let (s, read, h2) = bind_ok (as_text v) _ h1 in (s, ground arith, ground arith)

check_region-ok :
    (c : DaemonConfig) (control : Record)
    → check_region c control ≡ ok tt
    → Says control "approved_region" (str "us-west-2") × (region_of c.stack_id ≡ ok "us-west-2")
unfolding check_region
check_region-ok c control h =
    let (u, first, h1) =
      bind_ok
        (require control "approved_region" (str "us-west-2") (safety "REGION_POLICY_MISMATCH")) _
        h in
    let (r, own, h2) = bind_ok (region_of c.stack_id) _ h1 in
    (require-ok control _ _ _ first, ground (arith, eq_iff r "us-west-2"))

pub validated_control-IsApproved :
    (c : DaemonConfig) (control : Record) {result : Record}
    → validated_control c control ≡ ok result
    → (result ≡ control) × IsApproved c control
unfolding validated_control
validated_control-IsApproved c control h =
    let (p_complete, h_complete) = then_ok _ _ h in
    let (p_audit, h_audit) = then_ok _ _ h_complete in
    let (p_generation, h_generation) = then_ok _ _ h_audit in
    let (p_chain, h_chain) = then_ok _ _ h_generation in
    let (p_switches, h_switches) = then_ok _ _ h_chain in
    let (p_ceiling, h_ceiling) = then_ok _ _ h_switches in
    let (p_model, h_model) = then_ok _ _ h_ceiling in
    let (p_region, h_region) = then_ok _ _ h_model in
    let (p_arch, h_arch) = then_ok _ _ h_region in
    let (p_types, h_types) = then_ok _ _ h_arch in
    let (p_env, h_env) = then_ok _ _ h_types in
    let (limit, found, h_found) = bind_ok (item control "max_generation") _ h_env in
    let (most, read, h_read) = bind_ok (to_int limit) _ h_found in
    let (p_most, h_most) = then_ok _ _ h_read in
    let (p_timing, h_timing) = then_ok _ _ h_most in
    let (p_template, h_template) = then_ok _ _ h_timing in
    let (p_daemon, h_daemon) = then_ok _ _ h_template in
    let switches = check_switches-ok control p_switches in
    let regions = check_region-ok c control p_region in
    (
      sym (ok_inj h_daemon),
      record {
        complete = not-false _ (raise_if_ok _ _ p_complete);
        audit_table = require-ok control _ _ _ p_audit;
        generation_table = require-ok control _ _ _ p_generation;
        own_chain = require-ok control _ _ _ p_chain;
        switch = switches.0;
        no_cleanup = switches.1;
        settled = switches.2;
        ceiling = require-ok control _ _ _ p_ceiling;
        model = require-ok control _ _ _ p_model;
        region = regions.0;
        own_region = regions.1;
        architecture = require-ok control _ _ _ p_arch;
        instance_types = require-ok control _ _ _ p_types;
        own_environment = require-ok control _ _ _ p_env;
        limit = (
          most,
          rw (item-ok "max_generation" control found) read,
          ltb_ℤ-false most (pos 0) (raise_if_ok _ (safety "MAX_GENERATION_INVALID") p_most),
        );
        timing = check_timing-ok control timing_fields p_timing;
        template_digest =
            check_lowercase-ok control _ (safety "TEMPLATE_IDENTITY_INVALID") p_template;
        daemon_digest = check_lowercase-ok control _ (safety "DAEMON_IDENTITY_INVALID") p_daemon;
      },
    )

require-accepts :
    (control : Record) (k : String) (v : Value) (e : Failure)
    → has_key control k ≡ true
    → Says control k v
    → require control k v e ≡ ok tt
unfolding require differs
require-accepts control k v e h says = rw (item-get control k h) (ground arith)

check_timing-accepts :
    (control : Record) (fields : List String)
    → All (λ k. has_key control k ≡ true) fields
    → All (IsPositive control) fields
    → check_timing control fields ≡ ok tt
unfolding check_timing
check_timing-accepts control [] h p = refl
check_timing-accepts control (k ∷ ks) h p =
    rw (item-get control k h.0) (rw p.0.1 (ground (arith, check_timing-accepts control ks h.1 p.1)))

check_lowercase-accepts :
    (control : Record) (k : String) (e : Failure)
    → has_key control k ≡ true
    → IsLowercase control k
    → check_lowercase control k e ≡ ok tt
unfolding check_lowercase as_text
check_lowercase-accepts control k e h p = rw (item-get control k h) (rw p.1 (ground arith))

check_switches-accepts :
    (c : DaemonConfig) (control : Record)
    → IsApproved c control
    → has_key control "propagation_enabled" ≡ true
    → has_key control "cleanup_requested" ≡ true
    → has_key control "cleanup_status" ≡ true
    → check_switches control ≡ ok tt
unfolding check_switches truth
check_switches-accepts c control a h1 h2 h3 = rw (item-get control "propagation_enabled" h1) (
    rw (item-get control "cleanup_requested" h2) (
      rw (item-get control "cleanup_status" h3)
        (ground (arith, a.switch, a.no_cleanup, a.settled))))

check_region-accepts :
    (c : DaemonConfig) (control : Record)
    → IsApproved c control
    → has_key control "approved_region" ≡ true
    → check_region c control ≡ ok tt
unfolding check_region
check_region-accepts c control a h =
    rw (require-accepts control "approved_region" _ (safety "REGION_POLICY_MISMATCH") h a.region)
      (rw a.own_region refl)

negative : (n : ℤ) → pos 0 ≤ℤ n → ltb_ℤ n (pos 0) ≡ false
negative n h = ground arith

-- A record that is approved is accepted as it is.
pub IsApproved-validated_control :
    (c : DaemonConfig) (control : Record)
    → IsApproved c control
    → validated_control c control ≡ ok control
unfolding validated_control
IsApproved-validated_control c control a =
    let fields = all_sound (has_key control) required_control_fields a.complete in
    let has = λ (i : ℕ) (k : String) (e : get_elem? required_control_fields i ≡ some k).
      All-get_elem? (λ x. has_key control x ≡ true) required_control_fields i k fields e in
    then_eq _ _ (raise_if-false _ _ (rw a.complete refl)) (
      then_eq _ _
        (require-accepts control "audit_table_name" _ _ (has 3 "audit_table_name" refl)
          a.audit_table)
        (then_eq _ _
          (require-accepts control "generation_table_name" _ _ (has 14 "generation_table_name" refl)
            a.generation_table)
          (then_eq _ _
            (require-accepts control "request_id" _ _ (has 22 "request_id" refl) a.own_chain)
            (then_eq _ _
              (check_switches-accepts c control a (has 18 "propagation_enabled" refl)
                (has 4 "cleanup_requested" refl) (has 5 "cleanup_status" refl))
              (then_eq _ _
                (require-accepts control "max_live_generations" _ _
                  (has 17 "max_live_generations" refl) a.ceiling)
                (then_eq _ _
                  (require-accepts control "concurrency_model" _ _ (has 6 "concurrency_model" refl)
                    a.model)
                  (then_eq _ _ (check_region-accepts c control a (has 2 "approved_region" refl)) (
                    then_eq _ _
                      (require-accepts control "approved_architecture" _ _
                        (has 0 "approved_architecture" refl) a.architecture)
                      (then_eq _ _
                        (require-accepts control "approved_instance_types" _ _
                          (has 1 "approved_instance_types" refl) a.instance_types)
                        (then_eq _ _
                          (require-accepts control "environment" _ _ (has 13 "environment" refl)
                            a.own_environment)
                          (bind_eq _ _
                            (item-get control "max_generation" (has 16 "max_generation" refl))
                            (bind_eq _ _ a.limit.1 (
                              then_eq _ _ (raise_if-false _ _ (negative a.limit.0 a.limit.2)) (
                                then_eq _ _
                                  (check_timing-accepts control timing_fields
                                    (
                                      (has 19 "readiness_poll_seconds" refl),
                                      (
                                        (has 20 "readiness_required_heartbeats" refl),
                                        (
                                          (has 15 "heartbeat_interval_seconds" refl),
                                          ((has 21 "readiness_timeout_seconds" refl), tt),
                                        ),
                                      ),
                                    )
                                    a.timing)
                                  (then_eq _ _
                                    (check_lowercase-accepts control "template_sha256" _
                                      (has 27 "template_sha256" refl) a.template_digest)
                                    (then_eq _ _
                                      (check_lowercase-accepts control "daemon_artifact_sha256" _
                                        (has 9 "daemon_artifact_sha256" refl) a.daemon_digest)
                                      refl))))))))))))))))

-- `_validated_control` succeeds exactly on the approved records, and returns them unchanged.
pub validated_control-ok_iff :
    (c : DaemonConfig) (control result : Record)
    → (validated_control c control ≡ ok result) ↔ ((result ≡ control) × IsApproved c control)
validated_control-ok_iff c control result = (
  validated_control-IsApproved c control,
  λ p. IsApproved-validated_control c control p.1 ∙ ap ok (sym p.0),
)
