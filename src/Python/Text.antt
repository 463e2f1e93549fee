-- ===== src/Python/Text.antt =====
-- Text as the daemon handles it: `len`, `lower`, `split`, `endswith`, `in`, the regular expressions
-- it matches in full, `f"{n:06d}"` and `int` of a text. Only ASCII letters change under `lower`, and
-- `int` reads ASCII digits.
pub mod Decimal
use cloud_glider.Prelude.{
  ℕ, zero, suc, ◌+◌, ◌-◌, ◌*◌, ◌/◌, ◌%◌, Char, code, String, Bool, true, false, not, ◌&&◌, ◌||◌,
  Option, none, some, List, [], ◌∷◌, ◌==◌, ltb, leb, eqb, if◌then◌else◌,
}
use cloud_glider.Prelude.Int.{ℤ, pos, negsuc}
use Prim.Native.String.{◌++◌ as concat}
use text.Mathlib.Text.{starts_with}

-- `len(s)`.
unfoldable pub text_length : String → ℕ
text_length String.[] = 0
text_length (String.◌∷◌ c s) = suc (text_length s)

-- Every character passes a test on its code point.
unfoldable pub all_codes : (ℕ → Bool) → String → Bool
all_codes p String.[] = true
all_codes p (String.◌∷◌ c s) = p (code c) && all_codes p s

-- The character at a position, or the default past the end.
char_or : Char → String → ℕ → Char
char_or d String.[] i = d
char_or d (String.◌∷◌ c s) zero = c
char_or d (String.◌∷◌ c s) (suc i) = char_or d s i

abbrev pub is_digit : ℕ → Bool
is_digit c = leb b'0' c && leb c b'9'

abbrev pub is_hex : ℕ → Bool
is_hex c = is_digit c || (leb b'a' c && leb c b'f')

abbrev pub is_bit : ℕ → Bool
is_bit c = eqb c b'0' || eqb c b'1'

abbrev is_upper : ℕ → Bool
is_upper c = leb b'A' c && leb c b'Z'

-- What `str.strip` and `int` skip.
abbrev is_space : ℕ → Bool
is_space c = eqb c 32 || (leb 9 c && leb c 13) || (leb 28 c && leb c 31)

-- `^[0-9]{6}$`.
unfoldable pub matches_generation : String → Bool
unfolding all_codes text_length
matches_generation s = eqb (text_length s) 6 && all_codes is_digit s

-- `^[0-9a-f]{64}$`.
unfoldable pub matches_sha256 : String → Bool
unfolding all_codes text_length
matches_sha256 s = eqb (text_length s) 64 && all_codes is_hex s

-- `[0-9]{12}`.
unfoldable pub matches_account : String → Bool
unfolding all_codes text_length
matches_account s = eqb (text_length s) 12 && all_codes is_digit s

-- `[1-9][0-9]{0,17}`.
unfoldable pub matches_request_id : String → Bool
unfolding all_codes text_length
matches_request_id String.[] = false
matches_request_id (String.◌∷◌ c s) =
    leb b'1' (code c) && leb (code c) b'9' && leb (text_length s) 17 && all_codes is_digit s

-- `r[01]{0,9}`.
unfoldable pub matches_node_path : String → Bool
unfolding all_codes text_length
matches_node_path String.[] = false
matches_node_path (String.◌∷◌ c s) =
    eqb (code c) b'r' && leb (text_length s) 9 && all_codes is_bit s

-- `s.lower()`.
unfoldable pub lower : String → String
unfolding char_or
lower String.[] = ""
lower (String.◌∷◌ c s) =
    String.◌∷◌
      (if is_upper (code c) then char_or c "abcdefghijklmnopqrstuvwxyz" (code c - 65) else c)
      (lower s)

-- `part in s`.
unfoldable pub contains : String → String → Bool
contains part String.[] = part == ""
contains part (String.◌∷◌ c s) = starts_with (String.◌∷◌ c s) part || contains part s

-- `s.endswith(part)`.
unfoldable pub ends_with : String → String → Bool
ends_with part String.[] = part == ""
ends_with part (String.◌∷◌ c s) = part == String.◌∷◌ c s || ends_with part s

abbrev push : Char → List String → List String
push c [] = (String.◌∷◌ c "") ∷ []
push c (w ∷ ws) = (String.◌∷◌ c w) ∷ ws

-- `s.split(":", k)`.
unfoldable pub split_colon : ℕ → String → List String
split_colon k String.[] = "" ∷ []
split_colon k (String.◌∷◌ c s) =
    let cut = eqb (code c) b':' && ltb 0 k in
    let rest = split_colon (if cut then k - 1 else k) s in if cut then "" ∷ rest else push c rest

abbrev digit : ℕ → Char
unfolding char_or
digit n = char_or (Prim.Native.Char.nul) "0123456789" n

-- The decimal digits of a number, in front of a text. The fuel is above the number.
digits_before : ℕ → ℕ → String → String
unfolding char_or
digits_before zero n s = s
digits_before (suc fuel) n s =
    let rest = digits_before fuel (n / 10) (String.◌∷◌ (digit (n % 10)) s) in
    if ltb n 10 then String.◌∷◌ (digit n) s else rest

unfoldable pub decimal : ℕ → String
unfolding digits_before
decimal n = digits_before (suc n) n ""

zeros_before : ℕ → String → String
zeros_before zero s = s
zeros_before (suc k) s = String.◌∷◌ (digit 0) (zeros_before k s)

-- `f"{n:06d}"`.
unfoldable pub format_06d : ℕ → String
unfolding decimal text_length zeros_before
format_06d n = zeros_before (6 - text_length (decimal n)) (decimal n)

-- `f"{n:06d}"` of an integer: the sign takes one of the six places.
unfoldable pub format_06d_int : ℤ → String
unfolding format_06d
format_06d_int (pos n) = format_06d n
format_06d_int (negsuc n) =
    concat "-" (zeros_before (5 - text_length (decimal (suc n))) (decimal (suc n)))

-- `s[:k]`.
unfoldable pub take : ℕ → String → String
take zero s = ""
take (suc k) String.[] = ""
take (suc k) (String.◌∷◌ c s) = String.◌∷◌ c (take k s)

-- `sep.join(parts)`.
unfoldable pub join : String → List String → String
join sep [] = ""
join sep (w ∷ []) = w
join sep (w ∷ ws) = concat w (concat sep (join sep ws))

-- The digits that `int` reads, with single underscores between them and space behind them; the flag
-- says that the last character was a digit.
read_digits : Bool → ℕ → String → Option ℕ
unfolding all_codes
read_digits ready n String.[] = if ready then some n else none
read_digits ready n (String.◌∷◌ c s) =
    let d = is_digit (code c) in
    let rest = read_digits d (if d then n * 10 + (code c - b'0') else n) s in
    if d || (ready && eqb (code c) b'_')
    then rest
    else if ready && is_space (code c) && all_codes is_space s
    then some n
    else none

abbrev negated : ℕ → ℤ
negated zero = pos 0
negated (suc n) = negsuc n

read_signed : String → Option ℤ
unfolding read_digits
read_signed String.[] = none
read_signed (String.◌∷◌ c s) =
    if eqb (code c) b'-'
    then mathlib.Core.Option.map negated (read_digits false 0 s)
    else mathlib.Core.Option.map pos
        (if eqb (code c) b'+' then read_digits false 0 s else read_digits false 0 (String.◌∷◌ c s))

skip_space : String → String
skip_space String.[] = ""
skip_space (String.◌∷◌ c s) = if is_space (code c) then skip_space s else String.◌∷◌ c s

-- `int(s)`; `none` is its `ValueError`.
unfoldable pub int_of_text : String → Option ℤ
unfolding read_signed skip_space
int_of_text s = read_signed (skip_space s)
