-- ===== src/Aws/Metadata.antt =====
-- aws_sdk.py: `_imds` and `AwsSdkGateway.__init__`, which ask the instance's metadata service who it is.
-- The clients that the constructor makes are the services of the model.
use Prim.Native.String.{◌++◌ as concat}
use cloud_glider.Prelude.{String, List, [], ◌∷◌}
use cloud_glider.Python.Result.{transient, Result, ok, err}
use cloud_glider.Python.Exec.{Exec, pure, lift, ◌>>=◌}
use cloud_glider.Python.Value.{Record}
use cloud_glider.Aws.Client.{GatewayConfig, AwsSdkGateway}
use cloud_glider.Aws.Snapshot.{text_item}

pub record HttpRequest : Type 0 where
  pub url : String
  pub method : String
  pub headers : List (String × String)

-- The body that `urlopen` reads, or an `OSError` or `URLError`, with a timeout of two seconds.
pub data HttpAnswer : Type 0 where
  body : String → HttpAnswer
  failed : (message : String) → HttpAnswer

-- `urlopen`, and `json.loads` of an object.
pub record Metadata (W : Type 0) : Type 0 where
  pub urlopen : HttpRequest → W → HttpAnswer × W
  pub loads : String → Result Record

abbrev pub imds_url : String
imds_url = "http://169.254.169.254/latest"

unfoldable pub body_or_raise : (path : String) → HttpAnswer → Result String
body_or_raise path (body text) = ok text
body_or_raise path (failed message) =
    err (transient (concat "IMDSv2 lookup failed for " (concat path (concat ": " message))))

module _ {W : Type 0} (metadata : Metadata W) where
  unfoldable pub fetch : (path : String) → HttpRequest → Exec W String
  unfolding body_or_raise
  fetch path request w =
      let (answer, w') = metadata.urlopen request w in (body_or_raise path answer, w')

  -- `_imds`.
  unfoldable pub imds : String → Exec W String
  unfolding fetch
  imds path = do
    token ← fetch path (record {
      url = concat imds_url "/api/token";
      method = "PUT";
      headers = ("X-aws-ec2-metadata-token-ttl-seconds", "21600") ∷ [];
    })
    fetch path (record {
      url = concat imds_url (concat "/" path);
      method = "GET";
      headers = ("X-aws-ec2-metadata-token", token) ∷ [];
    })

  -- `__init__`.
  unfoldable pub aws_sdk_gateway : GatewayConfig → Exec W AwsSdkGateway
  unfolding imds
  aws_sdk_gateway config = do
    instance_id ← imds "meta-data/instance-id"
    identity ← imds "dynamic/instance-identity/document"
    document ← lift (metadata.loads identity)
    region ← lift (text_item document "region")
    account_id ← lift (text_item document "accountId")
    pure (record {
      config = config;
      instance_id = instance_id;
      region = region;
      account_id = account_id;
    })
