-- ===== src/Python/Text/Decimal.antt =====
-- Formatting a generation number, reading it back, and the pattern that it matches.
use cloud_glider.Prelude.{
  ℕ, zero, suc, ◌+◌, ◌-◌, ◌*◌, ◌/◌, ◌%◌, ◌≤◌, ◌<◌, code, String, Bool, true, false, ◌≡◌, refl, some,
  arith, ltb, Bool-cases, inl, inr, ◌∙◌, ap,
}
use cloud_glider.Prelude.Int.{pos, negsuc}
use cloud_glider.Python.Text.{
  text_length, all_codes, char_or, digit, digits_before, decimal, zeros_before, format_06d,
  read_digits, int_of_text, is_digit, matches_generation, negated,
}

code-digit : (d : ℕ) → d < 10 → code (digit d) ≡ b'0' + d
unfolding char_or
code-digit zero h = refl
code-digit (suc zero) h = refl
code-digit (suc (suc zero)) h = refl
code-digit (suc (suc (suc zero))) h = refl
code-digit (suc (suc (suc (suc zero)))) h = refl
code-digit (suc (suc (suc (suc (suc zero))))) h = refl
code-digit (suc (suc (suc (suc (suc (suc zero)))))) h = refl
code-digit (suc (suc (suc (suc (suc (suc (suc zero))))))) h = refl
code-digit (suc (suc (suc (suc (suc (suc (suc (suc zero)))))))) h = refl
code-digit (suc (suc (suc (suc (suc (suc (suc (suc (suc zero))))))))) h = refl
code-digit (suc (suc (suc (suc (suc (suc (suc (suc (suc (suc d)))))))))) h = absurd (omega arith)

-- Reading one digit.
read-cons :
    (d : ℕ) (r : Bool) (m v : ℕ) (s : String)
    → d < 10
    → v ≡ m * 10 + d
    → read_digits r m (String.◌∷◌ (digit d) s) ≡ read_digits true v s
unfolding read_digits
read-cons d r m v s h e = ground (arith, code-digit d h)

read-digits_before :
    (f n : ℕ) (r : Bool) (s : String)
    → n < f
    → read_digits r 0 (digits_before f n s) ≡ read_digits true n s
unfolding digits_before
read-digits_before zero n r s h = absurd (omega arith)
read-digits_before (suc f) n r s h = elim (Bool-cases (ltb n 10)) [
  | inl small ↦ rw small (read-cons n r 0 n s (ground arith) (omega arith))
  | inr large ↦ rw large (
      read-digits_before f (n / 10) r (String.◌∷◌ (digit (n % 10)) s) (ground arith)
      ∙ read-cons (n % 10) true (n / 10) n s (omega arith) (omega arith))
]

read-zeros_before :
    (k : ℕ) (r : Bool) (s : String) (n : ℕ)
    → ((q : Bool) → read_digits q 0 s ≡ some n)
    → read_digits r 0 (zeros_before k s) ≡ some n
unfolding zeros_before
read-zeros_before zero r s n h = h r
read-zeros_before (suc k) r s n h =
    read-cons 0 r 0 0 (zeros_before k s) (omega arith) (omega arith)
    ∙ read-zeros_before k true s n h

-- What the first character of a formatted number is.
data StartsWithDigit : String → Type 0 where
  starts : (d : ℕ) (s : String) → d < 10 → StartsWithDigit (String.◌∷◌ (digit d) s)

digits_before-StartsWithDigit :
    (f n : ℕ) (s : String) → n < f → StartsWithDigit (digits_before f n s)
unfolding digits_before
digits_before-StartsWithDigit zero n s h = absurd (omega arith)
digits_before-StartsWithDigit (suc f) n s h = elim (Bool-cases (ltb n 10)) [
  | inl small ↦ rw small (starts n s (ground arith))
  | inr large ↦
      rw large
        (digits_before-StartsWithDigit f (n / 10) (String.◌∷◌ (digit (n % 10)) s) (ground arith))
]

format_06d-StartsWithDigit : (n : ℕ) → StartsWithDigit (format_06d n)
unfolding format_06d
format_06d-StartsWithDigit n = go (6 - text_length (decimal n))
  where
    go : (k : ℕ) → StartsWithDigit (zeros_before k (decimal n))
    go zero = digits_before-StartsWithDigit (suc n) n "" (omega arith)
    go (suc k) = starts 0 (zeros_before k (decimal n)) (omega arith)

int_of_text-StartsWithDigit :
    (s : String)
    → StartsWithDigit s
    → int_of_text s ≡ mathlib.Core.Option.map pos (read_digits false 0 s)
unfolding int_of_text
int_of_text-StartsWithDigit t (starts d s h) = ground (arith, code-digit d h)

read-format_06d : (n : ℕ) → read_digits false 0 (format_06d n) ≡ some n
unfolding format_06d read_digits
read-format_06d n =
    read-zeros_before (6 - text_length (decimal n)) false (decimal n) n
      (λ q. read-digits_before (suc n) n q "" (omega arith))

-- `int(f"{n:06d}")` is `n`.
pub int_of_text-format_06d : (n : ℕ) → int_of_text (format_06d n) ≡ some (pos n)
int_of_text-format_06d n =
    int_of_text-StartsWithDigit (format_06d n) (format_06d-StartsWithDigit n)
    ∙ ap (mathlib.Core.Option.map pos) (read-format_06d n)

-- `int(str(n))` is `n`.
pub int_of_text-decimal : (n : ℕ) → int_of_text (decimal n) ≡ some (pos n)
unfolding decimal read_digits
int_of_text-decimal n =
    int_of_text-StartsWithDigit (decimal n)
      (digits_before-StartsWithDigit (suc n) n "" (omega arith))
    ∙ ap (mathlib.Core.Option.map pos) (read-digits_before (suc n) n false "" (omega arith))

pub int_of_text-minus : (n : ℕ) → int_of_text (String.◌∷◌ "-" (decimal (suc n))) ≡ some (negsuc n)
unfolding int_of_text decimal read_digits
int_of_text-minus n =
    ap (mathlib.Core.Option.map negated)
      (read-digits_before (suc (suc n)) (suc n) false "" (omega arith))

abbrev power_10 : ℕ → ℕ
power_10 zero = 1
power_10 (suc k) = 10 * power_10 k

-- A number below 10 ^ k has at most k digits (and at least one).
text_length-digits_before :
    (f k n : ℕ) (s : String)
    → n < f
    → n < power_10 (suc k)
    → text_length (digits_before f n s) ≤ suc k + text_length s
unfolding digits_before text_length
text_length-digits_before zero k n s h b = absurd (omega arith)
text_length-digits_before (suc f) zero n s h b = ground arith
text_length-digits_before (suc f) (suc k) n s h b =
    ground (arith, text_length-digits_before f k (n / 10) (String.◌∷◌ (digit (n % 10)) s))

all_codes-digits_before :
    (f n : ℕ) (s : String)
    → all_codes is_digit s ≡ true
    → all_codes is_digit (digits_before f n s) ≡ true
unfolding digits_before all_codes
all_codes-digits_before zero n s h = h
all_codes-digits_before (suc f) n s h = ground (
  arith,
  code-digit n,
  code-digit (n % 10),
  all_codes-digits_before f (n / 10) (String.◌∷◌ (digit (n % 10)) s),
)

all_codes-zeros_before :
    (k : ℕ) (s : String)
    → all_codes is_digit s ≡ true
    → all_codes is_digit (zeros_before k s) ≡ true
unfolding zeros_before all_codes
all_codes-zeros_before zero s h = h
all_codes-zeros_before (suc k) s h = ground (arith, all_codes-zeros_before k s h, code-digit 0)

text_length-zeros_before : (k : ℕ) (s : String) → text_length (zeros_before k s) ≡ k + text_length s
unfolding zeros_before text_length
text_length-zeros_before zero s = omega arith
text_length-zeros_before (suc k) s = omega (arith, text_length-zeros_before k s)

text_length-decimal : (n : ℕ) → n < 1000000 → text_length (decimal n) ≤ 6
unfolding decimal text_length
text_length-decimal n h = text_length-digits_before (suc n) 5 n "" (omega arith) h

all_codes-decimal : (n : ℕ) → all_codes is_digit (decimal n) ≡ true
unfolding decimal all_codes
all_codes-decimal n = all_codes-digits_before (suc n) n "" refl

-- A generation number below a million is formatted as the six digits that the configuration and the
-- state records are checked for.
pub format_06d-matches_generation : (n : ℕ) → n < 1000000 → matches_generation (format_06d n) ≡ true
unfolding format_06d matches_generation
format_06d-matches_generation n h =
    let fits : 6 - text_length (decimal n) + text_length (decimal n) ≡ 6 =
      omega (arith, text_length-decimal n h) in
    rw (text_length-zeros_before (6 - text_length (decimal n)) (decimal n), fits)
      (all_codes-zeros_before (6 - text_length (decimal n)) (decimal n) (all_codes-decimal n))
