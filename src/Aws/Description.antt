-- ===== src/Aws/Description.antt =====
-- aws_sdk.py: what is asked of CloudFormation and S3, and how their answers are read.
use Prim.Native.String.{◌++◌ as concat}
use cloud_glider.Prelude.{String, ◌&&◌, Option, none, some, List, [], ◌∷◌, ◌==◌, if◌then◌else◌}
use cloud_glider.Python.Text.{contains, join}
use cloud_glider.Python.Result.{err, ok, transient, uncaught, Result, ok, err, ◌>>=◌}
use cloud_glider.Python.Dict.{insert, update}
use cloud_glider.Python.Sorted.{sorted_items}
use cloud_glider.Python.Value.{Record, truth, get, str}
use cloud_glider.Daemon.Gateway.{Stack, Specification}
use cloud_glider.Aws.Services.{Body, chunks, broken, StackDescription, CreateStack, Library}
use cloud_glider.Aws.Client.{Reply, replied, refused}
use cloud_glider.Aws.Snapshot.{text_item}

abbrev pub or_empty : Option String → String
or_empty none = ""
or_empty (some v) = v

abbrev parameter_entries : List (String × Option String) → Record
parameter_entries [] = []
parameter_entries ((k, v) ∷ ps) = (k, str (or_empty v)) ∷ parameter_entries ps

abbrev tag_entries : List (String × String) → Record
tag_entries [] = []
tag_entries ((k, v) ∷ ts) = (k, str v) ∷ tag_entries ts

-- `_stack`; an `IndexError` where there is none.
unfoldable pub stack_of : List StackDescription → Result Stack
unfolding update
stack_of [] = err uncaught
stack_of (s ∷ ss) = ok (record {
  stack_id = s.stack_id;
  stack_status = s.stack_status;
  parameters = some (update [] (parameter_entries s.parameters));
  role_arn = s.role_arn;
  tags = some (update [] (tag_entries s.tags));
})

-- A stack that does not exist is `None`; every other error raises.
unfoldable pub described : Reply (List StackDescription) → Result (Option Stack)
unfolding stack_of contains
described (replied stacks) = do s ← stack_of stacks; ok (some s)
described (refused code message reasons) =
    if code == "ValidationError" && contains "does not exist" message
    then ok none
    else err (transient message)

-- `_parameters`, where `[{"ParameterKey": k, "ParameterValue": v}, ...]` stands as a dict.
unfoldable pub stack_parameters : Specification → Record
unfolding sorted_items
stack_parameters specification = sorted_items specification.parameters

-- `_tags`.
unfoldable pub stack_tags : Specification → Record
unfolding sorted_items get truth insert
stack_tags specification =
    let owner = get "Owner" specification.parameters in
    sorted_items
      (if truth owner then insert "owner" owner specification.tags else specification.tags)

-- The digest of a body, or what broke it off.
unfoldable pub digest : Library → Body → Result String
unfolding join
digest library (chunks parts) = ok (library.sha256_hex (join "" parts))
digest library (broken message) = err (transient (concat "template download incomplete: " message))

-- `_template_url`.
unfoldable pub template_url : Library → (region : String) → Specification → Result String
unfolding join
template_url library region specification = do
  bucket ← text_item specification.template "template_bucket"
  key ← text_item specification.template "template_key"
  version ← text_item specification.template "template_version_id"
  ok (
      join "" (
        "https://"
        ∷ library.quote "" bucket
        ∷ ".s3."
        ∷ region
        ∷ ".amazonaws.com/"
        ∷ library.quote "/" key
        ∷ "?versionId="
        ∷ library.quote "" version
        ∷ []))

unfoldable pub create_stack_request : Specification → String → CreateStack
unfolding stack_parameters stack_tags
create_stack_request specification url = record {
  stack_name = specification.stack_name;
  template_url = url;
  parameters = stack_parameters specification;
  role_arn = specification.role_arn;
  on_failure = "DO_NOTHING";
  client_request_token = specification.client_token;
  tags = stack_tags specification;
}
