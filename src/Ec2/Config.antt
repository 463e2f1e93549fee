-- ===== src/Ec2/Config.antt =====
-- ec2_daemon.py: `Ec2DaemonConfig.validate`.
use Prim.Native.String.{◌++◌ as concat}
use text.Mathlib.Text.{starts_with}
use cloud_glider.Prelude.{
  ℕ, zero, suc, ◌+◌, code, String, Bool, true, false, not, ◌&&◌, ◌||◌, ◌==◌, leb, eqb,
}
use cloud_glider.Python.Text.{
  text_length, all_codes, is_digit, is_hex, matches_generation, matches_sha256, matches_request_id,
}
use cloud_glider.Python.Result.{uncaught, Result, raise_if, ◌>>◌}
use cloud_glider.Family.Config.{Ec2DaemonConfig}

unfoldable pub drop : ℕ → String → String
drop zero s = s
drop (suc n) String.[] = ""
drop (suc n) (String.◌∷◌ c s) = drop n s

-- A prefix and 17 lowercase hexadecimal digits.
unfoldable pub matches_id : String → String → Bool
unfolding text_length all_codes drop
matches_id prefix s =
    starts_with s prefix
    && eqb (text_length s) (text_length prefix + 17)
    && all_codes is_hex (drop (text_length prefix) s)

-- `INSTANCE_RE`.
abbrev pub matches_instance : String → Bool
matches_instance s = matches_id "i-" s

-- `lt-[0-9a-f]{17}`.
abbrev pub matches_template : String → Bool
matches_template s = matches_id "lt-" s

-- `[1-9][0-9]*`.
unfoldable pub matches_version : String → Bool
unfolding all_codes
matches_version String.[] = false
matches_version (String.◌∷◌ c s) = leb b'1' (code c) && leb (code c) b'9' && all_codes is_digit s

-- Not empty, and no longer than that.
abbrev pub is_short : ℕ → String → Bool
is_short most s = not (s == "") && leb (text_length s) most

abbrev pub is_same : Bool → Bool → Bool
is_same true b = b
is_same false b = not b

-- `validate`. Each of its errors is a `ValueError`.
unfoldable pub validate : Ec2DaemonConfig → Result (Unit {0})
unfolding matches_request_id matches_generation matches_id matches_version matches_sha256
validate c = do
  raise_if (not (c.daemon_delivery_mode == "baked")) uncaught
  raise_if
      (not
        (c.generation_table_name == concat "cloud-glider-" (concat c.environment "-generations")))
      uncaught
  raise_if (not (matches_request_id c.request_id)) uncaught
  raise_if (not (is_short 64 c.owner)) uncaught
  raise_if (not (matches_generation c.generation)) uncaught
  raise_if (not (matches_instance c.instance_id)) uncaught
  raise_if (not (c.predecessor_instance_id == "NONE" || matches_instance c.predecessor_instance_id))
      uncaught
  raise_if (not (is_same (c.generation == "000000") (c.predecessor_instance_id == "NONE"))) uncaught
  raise_if (not (matches_template c.launch_template_id)) uncaught
  raise_if (not (matches_version c.launch_template_version)) uncaught
  raise_if (not (is_short 128 c.handoff_token)) uncaught
  raise_if (not (matches_sha256 c.template_sha256)) uncaught
  raise_if (not (matches_sha256 c.daemon_artifact_sha256)) uncaught
