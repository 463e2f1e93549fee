-- ===== src/Ec2/Authority/Predecessor.antt =====
-- What the tests of `retire_predecessor` establish of the predecessor's instance.
use cloud_glider.Daemon.Identity.{entries_match, or_empty}
use cloud_glider.Daemon.Provision.{or_key_error}
use cloud_glider.Prelude.{
  String, true, false, not, ◌||◌, Option, none, some, [], ◌∷◌, ◌≡◌, refl, arith,
}
use cloud_glider.Prelude.Int.{ℤ, pos, ◌-ℤ◌}
use cloud_glider.Python.Text.{format_06d_int}
use cloud_glider.Python.Result.{ok, raise_if_ok, then_ok}
use cloud_glider.Python.Dict.{dict_eq}
use cloud_glider.Python.Value.{Record, value_eq, str}
use cloud_glider.Daemon.Control.Approved.{Says}
use cloud_glider.Ec2.Session.{Instance, Ec2Daemon}
use cloud_glider.Ec2.Authority.{
  raise_if, safety, template_is, approved_template, predecessor_tags, check_predecessor,
}

module _ {W : Type 0} (d : Ec2Daemon W) where
  open d use {config}

  -- The instance is this chain's predecessor of the generation before the own one: its tags and its
  -- launch template say so.
  pub record IsPredecessor (number : ℤ) (found : Option Instance) (state : String) : Type 0 where
    pub instance : Instance
    pub tags : Record
    pub template : Record
    pub found_is : found ≡ some instance
    pub tags_are : tags ≡ or_empty instance.tags
    pub generation : Says tags "generation" (str (format_06d_int (number -ℤ pos 1)))
    pub project : Says tags "project" (str "cloud-glider")
    pub environment : Says tags "environment" (str config.environment)
    pub purpose : Says tags "purpose" (str "generation-compute")
    pub chain : Says tags "bootstrap-request-id" (str config.request_id)
    pub backend : Says tags "propagation-backend" (str "ec2")
    pub template_is : instance.launch_template ≡ some template
    pub approved :
        dict_eq value_eq template (
          ("LaunchTemplateId", str config.launch_template_id)
          ∷ ("Version", str config.launch_template_version)
          ∷ [])
        ≡ true
    pub state_is : instance.state_name ≡ some state

  impossible : false ≡ true → ⊥
  impossible e = ground arith

  pub check_predecessor-IsPredecessor :
      (number : ℤ) (found : Option Instance) (state : String)
      → check_predecessor d number found ≡ ok state
      → IsPredecessor number found state
  unfolding check_predecessor predecessor_tags template_is
  check_predecessor-IsPredecessor number none state h = cc
  check_predecessor-IsPredecessor number (some instance) state h =
      let wrong =
        not (entries_match (predecessor_tags d number) (or_empty instance.tags))
        || not (template_is d (approved_template d) instance.launch_template) in
      let e = safety "PREDECESSOR_IDENTITY_MISMATCH" in
      let (right, h1) = then_ok (raise_if wrong e) (or_key_error instance.state_name) h in
      let good : wrong ≡ false = raise_if_ok wrong e right in
      of_template instance.launch_template refl (ground arith) (ground arith)
        (name instance.state_name h1)
    where
      name : (o : Option String) → or_key_error o ≡ ok state → o ≡ some state
      name none e = cc
      name (some s) e = ground arith

      of_template :
          (l : Option Record)
          → instance.launch_template ≡ l
          → entries_match (predecessor_tags d number) (or_empty instance.tags) ≡ true
          → template_is d (approved_template d) l ≡ true
          → instance.state_name ≡ some state
          → IsPredecessor number (some instance) state
      of_template (some template) f m w s = record {
        instance = instance;
        tags = or_empty instance.tags;
        template = template;
        found_is = refl;
        tags_are = refl;
        generation = ground (arith, m);
        project = ground (arith, m);
        environment = ground (arith, m);
        purpose = ground (arith, m);
        chain = ground (arith, m);
        backend = ground (arith, m);
        template_is = f;
        approved = w;
        state_is = s;
      }
      of_template none f m w s = absurd (impossible w)
