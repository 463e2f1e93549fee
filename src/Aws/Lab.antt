-- ===== src/Aws/Lab.antt =====
-- A small account that answers the requests of aws_sdk.py as documented, for the examples.
use cloud_glider.Prelude.{
  String, Bool, true, false, Option, none, some, List, [], ◌∷◌, ◌≡◌, refl, if◌then◌else◌,
}
use cloud_glider.Prelude.Int.{pos}
use cloud_glider.Aws.Attribute.{Item}
use cloud_glider.Aws.Dynamo.{Write, put, delete, Get}
use cloud_glider.Aws.Services.{
  StackDescription, ClientError, Answer, answered, client_error, Services, chunks,
}
use cloud_glider.Aws.Store.{
  item_or_empty, Store, table_of, target_of, permits, all_permit, apply_all, Transacted, Documented,
}

-- The code of each entry whose condition fails.
abbrev reasons : List Write → Store → List (Option String)
reasons [] s = []
reasons (op ∷ ops) s =
    (if permits op (s (table_of op) (target_of op)) then none else some "ConditionalCheckFailed")
    ∷ reasons ops s

abbrev refusal : String → List Write → Store → ClientError
refusal code ops s = record {
  code = some code;
  message = "refused";
  cancellation_reasons = reasons ops s;
}

abbrev done_if : Bool → String → List Write → Store → Answer (Unit {0}) × Store
done_if true code ops s = (answered tt, apply_all ops s)
done_if false code ops s = (client_error (refusal code ops s), s)

unfoldable pub transact : String → List Write → Store → Answer (Unit {0}) × Store
unfolding all_permit apply_all
transact code ops s = done_if (all_permit ops s) code ops s

abbrev found : Item → Option Item
found [] = none
found (entry ∷ entries) = some (entry ∷ entries)

abbrev found_each : List Get → Store → List (Option Item)
found_each [] s = []
found_each (g ∷ gs) s = found (s g.table g.key) ∷ found_each gs s

-- An account where every name finds these stacks, and every stack this instance.
abbrev pub account_with : List StackDescription → Option String → Services Store
account_with stacks instance_id = record {
  get_item = λ g s. (answered (found (s g.table g.key)), s);
  transact_get_items = λ gs s. (answered (found_each gs s), s);
  transact_write_items = transact "TransactionCanceledException";
  put_item =
      λ table i p s. transact "ConditionalCheckFailedException" (put table i (some p) ∷ []) s;
  delete_item =
      λ table key p s. transact "ConditionalCheckFailedException" (delete table key p ∷ []) s;
  describe_stacks = λ name s. (answered stacks, s);
  describe_stack_resource = λ stack id s. (answered instance_id, s);
  create_stack = λ r s. (answered "arn:created", s);
  delete_stack = λ name role token s. (answered tt, s);
  get_object = λ bucket key version s. (answered (chunks []), s);
  describe_instances =
      λ filters token s. (answered (record { reservations = []; next_token = none }), s);
  describe_instance_type_offerings =
      λ filters token s. (answered (record { offerings = "t4g.micro" ∷ []; next_token = none }), s);
  get_service_quota = λ service quota s. (answered (some (pos 16000)), s);
  invoke = λ i s.
      (answered (record { payload = none; function_error = none; status_code = some 200 }), s);
}

abbrev pub account : Services Store
account = account_with [] none

done_if-Transacted :
    (code : String) (ops : List Write) (s : Store) (t : Bool)
    → all_permit ops s ≡ t
    → Transacted ops s (done_if t code ops s).1 (done_if t code ops s).0
done_if-Transacted code ops s true e = (e, refl)
done_if-Transacted code ops s false e = refl

pub transact-Transacted :
    (code : String) (ops : List Write) (s : Store)
    → Transacted ops s (transact code ops s).1 (transact code ops s).0
unfolding transact
transact-Transacted code ops s = done_if-Transacted code ops s (all_permit ops s) refl

pub found-Reads : (i : Item) → item_or_empty (found i) ≡ i
found-Reads [] = refl
found-Reads (entry ∷ entries) = refl

unfoldable pub account_with-Documented :
    (stacks : List StackDescription) (instance_id : Option String)
    → Documented (account_with stacks instance_id)
account_with-Documented stacks instance_id = record {
  stored = λ s. s;
  transaction = λ ops s. transact-Transacted "TransactionCanceledException" ops s;
  deletion = λ table key p s.
      transact-Transacted "ConditionalCheckFailedException" (delete table key p ∷ []) s;
  insertion = λ table i p s.
      transact-Transacted "ConditionalCheckFailedException" (put table i (some p) ∷ []) s;
  reading = λ g s. (found-Reads (s g.table g.key), refl);
  creation = λ r s. refl;
}

unfoldable pub account-Documented : Documented account
unfolding account_with-Documented
account-Documented = account_with-Documented [] none
