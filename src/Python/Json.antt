-- ===== src/Python/Json.antt =====
-- `json.dumps(v, sort_keys=True, separators=(",", ":"))` of the records: ASCII only, as is its default.
use Prim.Native.String.{◌++◌ as concat}
use cloud_glider.Prelude.{
  ◌-◌, ℕ, zero, suc, ◌+◌, ◌/◌, ◌%◌, code, String, true, false, ◌||◌, List, [], ◌∷◌, eqb, ltb,
  if◌then◌else◌,
}
use cloud_glider.Python.Text.{join}
use cloud_glider.Python.Dict.{Dict}
use cloud_glider.Python.Sorted.{sorted_items}
use cloud_glider.Python.Value.{Plain, null, bool, num, text, Value, plain, list, dict, Record}
use cloud_glider.Aws.Attribute.{str_of_int}

unfoldable char_at : ℕ → String → String
char_at n String.[] = ""
char_at zero (String.◌∷◌ c s) = String.◌∷◌ c ""
char_at (suc n) (String.◌∷◌ c s) = char_at n s

unfoldable hex : ℕ → String
unfolding char_at
hex n = char_at (n % 16) "0123456789abcdef"

-- `\uXXXX`.
unfoldable unicode_escape : ℕ → String
unfolding hex
unicode_escape n =
    concat "\\u" (concat (hex (n / 4096)) (concat (hex (n / 256)) (concat (hex (n / 16)) (hex n))))

-- A code point above the first plane is a pair of surrogates.
unfoldable escape_code : ℕ → String
unfolding unicode_escape
escape_code n =
    if ltb n 65536
    then unicode_escape n
    else concat (unicode_escape (55296 + (n - 65536) / 1024)) (unicode_escape (56320 + n % 1024))

unfoldable escape : ℕ → String → String
unfolding escape_code
escape n character =
    if eqb n 34
    then "\\\""
    else if eqb n 92
    then "\\\\"
    else if eqb n 10
    then "\\n"
    else if eqb n 13
    then "\\r"
    else if eqb n 9
    then "\\t"
    else if eqb n 12
    then "\\f"
    else if eqb n 8
    then "\\b"
    else if ltb n 32 || ltb 126 n
    then escape_code n
    else character

unfoldable escaped : String → String
unfolding escape
escaped String.[] = ""
escaped (String.◌∷◌ c s) = concat (escape (code c) (String.◌∷◌ c "")) (escaped s)

unfoldable quoted : String → String
unfolding escaped
quoted s = concat "\"" (concat (escaped s) "\"")

unfoldable plain_json : Plain → String
unfolding str_of_int quoted
plain_json null = "null"
plain_json (bool true) = "true"
plain_json (bool false) = "false"
plain_json (num n) = str_of_int n
plain_json (text s) = quoted s

unfoldable elements : List Plain → List String
unfolding plain_json
elements [] = []
elements (x ∷ xs) = plain_json x ∷ elements xs

unfoldable members {ℓ} : {V : Type ℓ} → (V → String) → Dict V → List String
unfolding quoted
members f [] = []
members f ((k, v) ∷ d) = concat (quoted k) (concat ":" (f v)) ∷ members f d

unfoldable object {ℓ} : {V : Type ℓ} → (V → String) → Dict V → String
unfolding quoted join members sorted_items
object f d = concat "{" (concat (join "," (members f (sorted_items d))) "}")

unfoldable value_json : Value → String
unfolding plain_json elements join object
value_json (plain p) = plain_json p
value_json (list xs) = concat "[" (concat (join "," (elements xs)) "]")
value_json (dict d) = object plain_json d

unfoldable pub dumps : Record → String
unfolding value_json object
dumps d = object value_json d
