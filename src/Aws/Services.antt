-- ===== src/Aws/Services.antt =====
-- The clients that aws_sdk.py makes with boto3, as operations on a world `W`, and what a call of one
-- may end in. Bytes stand as text.
use cloud_glider.Prelude.{ℕ, String, Option, List}
use cloud_glider.Prelude.Int.{ℤ}
use cloud_glider.Python.Dict.{Dict}
use cloud_glider.Python.Value.{Record}
use cloud_glider.Aws.Attribute.{Item}
use cloud_glider.Aws.Dynamo.{Key, Condition, Write, Get}

-- The `response` of a `ClientError`, and its text. A reason without a code has `none`.
pub record ClientError : Type 0 where
  pub code : Option String
  pub message : String
  pub cancellation_reasons : List (Option String)

-- What a client's method returns or raises: a `ClientError`, a `BotoCoreError` with its type and text,
-- another `Exception`, or a `BaseException` such as the `SystemExit` of a SIGTERM.
pub data Answer (A : Type 0) : Type 0 where
  answered : A → Answer A
  client_error : ClientError → Answer A
  transport_error : (kind message : String) → Answer A
  unexpected : Answer A
  interrupted : (kind : String) → Answer A

abbrev pub Request : (W A : Type 0) → Type 0
Request W A = W → Answer A × W

-- The body of a response: its chunks, or a read that broke off.
pub data Body : Type 0 where
  chunks : List String → Body
  broken : (message : String) → Body

-- An entry of `Stacks`.
pub record StackDescription : Type 0 where
  pub stack_id : Option String
  pub stack_status : Option String
  pub role_arn : Option String
  pub parameters : List (String × Option String)
  pub tags : List (String × String)

pub record CreateStack : Type 0 where
  pub stack_name : String
  pub template_url : String
  pub parameters : Record
  pub role_arn : String
  pub on_failure : String
  pub client_request_token : String
  pub tags : Record

-- A page of instances, each known by its id, or of instance types.
pub record InstancePage : Type 0 where
  pub reservations : List (List String)
  pub next_token : Option String

pub record OfferingPage : Type 0 where
  pub offerings : List String
  pub next_token : Option String

pub record Invocation : Type 0 where
  pub function_name : String
  pub payload : Dict String
  pub invocation_type : String

pub record InvocationReply : Type 0 where
  pub payload : Option Body
  pub function_error : Option String
  pub status_code : Option ℕ

-- A quota counts thousandths.
pub record Services (W : Type 0) : Type 0 where
  pub get_item : Get → Request W (Option Item)
  pub transact_get_items : List Get → Request W (List (Option Item))
  pub transact_write_items : List Write → Request W (Unit {0})
  pub put_item : (table : String) → Item → Condition → Request W (Unit {0})
  pub delete_item : (table : String) → Key → Condition → Request W (Unit {0})
  pub describe_stacks : String → Request W (List StackDescription)
  pub describe_stack_resource : (stack_name logical_id : String) → Request W (Option String)
  pub create_stack : CreateStack → Request W String
  pub delete_stack : (stack_name role_arn token : String) → Request W (Unit {0})
  pub get_object : (bucket key version : String) → Request W Body
  pub describe_instances : Dict (List String) → Option String → Request W InstancePage
  pub describe_instance_type_offerings : Dict (List String) → Option String → Request W OfferingPage
  pub get_service_quota : (service quota : String) → Request W (Option ℤ)
  pub invoke : Invocation → Request W InvocationReply

-- What the code takes from the libraries: SHA-256 of bytes, and `urllib.parse.quote`.
pub record Library : Type 0 where
  pub sha256_hex : String → String
  pub quote : (safe s : String) → String
