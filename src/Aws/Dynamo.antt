-- ===== src/Aws/Dynamo.antt =====
-- The DynamoDB requests of aws_sdk.py, as data. An expression stands with the names and values that the
-- code gives for its placeholders put in.
use cloud_glider.Prelude.{String, Option, List}
use cloud_glider.Aws.Attribute.{Attribute, Item}

-- `Key={"PK": {"S": pk}, "SK": {"S": sk}}`.
pub record Key : Type 0 where
  pub pk : String
  pub sk : String

pub data Condition : Type 0 where
  attribute_not_exists : String → Condition
  equals : String → Attribute → Condition
  differs : String → Attribute → Condition
  less : String → Attribute → Condition
  one_of : String → List Attribute → Condition
  both : Condition → Condition → Condition
  one : Condition → Condition → Condition

-- An entry of `TransactItems` in `transact_write_items`.
pub data Write : Type 0 where
  condition_check : (table : String) (key : Key) (condition : Condition) → Write
  put : (table : String) (item : Item) (condition : Option Condition) → Write
  update : (table : String) (key : Key) (assignments : Item) (condition : Condition) → Write
  delete : (table : String) (key : Key) (condition : Condition) → Write

pub record Get : Type 0 where
  pub table : String
  pub key : Key
