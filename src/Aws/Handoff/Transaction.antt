-- ===== src/Aws/Handoff/Transaction.antt =====
-- What `handoff` of aws_sdk.py puts in its transaction, where it has one.
use cloud_glider.Prelude.{String, ◌≡◌, List}
use cloud_glider.Python.Result.{ok, bind_ok, ok_inj}
use cloud_glider.Python.Value.{Record}
use cloud_glider.Daemon.Gateway.{Expected}
use cloud_glider.Aws.Dynamo.{Write}
use cloud_glider.Aws.Services.{Services}
use cloud_glider.Aws.Client.{AwsSdkGateway}
use cloud_glider.Aws.Snapshot.{text_item}
use cloud_glider.Aws.Handoff.{Place, place_of, handoff_writes, handoff_transaction}

module _ {W : Type 0} (services : Services W) (self : AwsSdkGateway) where
  -- The owner, its successor and the texts of the successor's record, and the writes that name them.
  pub record Parts (expected : Expected) (successor audit : Record) (ops : List Write)
      : Type 0 where
    pub owner : Place
    pub next : Place
    pub token : String
    pub updated : String
    pub owner_read : place_of expected.identity ≡ ok owner
    pub next_read : place_of successor ≡ ok next
    pub writes :
        handoff_writes services self expected successor audit owner next token updated ≡ ops

  pub handoff_transaction-Parts :
      (expected : Expected) (successor audit : Record) {ops : List Write}
      → handoff_transaction services self expected successor audit ≡ ok ops
      → Parts expected successor audit ops
  unfolding handoff_transaction
  handoff_transaction-Parts expected successor audit h =
      let (owner, ho, h1) = bind_ok (place_of expected.identity) _ h in
      let (next, hn, h2) = bind_ok (place_of successor) _ h1 in
      let (token, ht, h3) = bind_ok (text_item successor "handoff_token") _ h2 in
      let (updated, hu, h4) = bind_ok (text_item successor "updated_at") _ h3 in
      record {
        owner = owner;
        next = next;
        token = token;
        updated = updated;
        owner_read = ho;
        next_read = hn;
        writes = ok_inj h4;
      }
