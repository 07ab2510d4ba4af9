-- ===== src/Text/Decimal.antt =====
-- `strconv.FormatInt(n, 10)` and `strconv.ParseInt(s, 10, 64)` on int64 values.
pub mod RoundTrip
use Prim.Native.String
use Prim.Native.String.{char_at}
use native.Mathlib.Nat.{mul_comm}
use git_mirror_operator.Base.{
  ℕ, zero, suc, ◌+◌, ◌*◌, ◌-◌, ◌/◌, ◌%◌, ◌^◌, ◌<◌, ◌≤◌, Char, code, String, ◌<>◌, Bool, true, false,
  if◌then◌else◌, Option, none, some, ◌≡◌, ◌∙◌, refl, arith, ltb, leb, ◌=ℕ◌, ◌==◌, ◌&&◌, Bool-cases,
  inl, inr,
}
use git_mirror_operator.Text.{in_range, head_is, is_nil}

-- `negsuc n` is -(n + 1).
pub data ℤ : Type 0 where
  pos : ℕ → ℤ
  negsuc : ℕ → ℤ

-- `a - b` on int64 values.
abbrev pub difference : ℕ → ℕ → ℤ
difference a b = if leb b a then pos (a - b) else negsuc (b - a - 1)

infix 50 ◌=ℤ◌
abbrev pub ◌=ℤ◌ : ℤ → ℤ → Bool
pos a =ℤ pos b = a =ℕ b
negsuc a =ℤ negsuc b = a =ℕ b
pos a =ℤ negsuc b = false
negsuc a =ℤ pos b = false

abbrev digit : ℕ → Char
digit n = char_at "0123456789" n

-- One round for each digit; an int64 has 19 of them at most.
digits : ℕ → ℕ → String → String
digits zero n acc = acc
digits (suc f) n acc =
    let rest = digits f (n / 10) (String.◌∷◌ (digit (n % 10)) acc) in
    if ltb n 10 then String.◌∷◌ (digit (n % 10)) acc else rest

unfoldable pub format_int : ℤ → String
unfolding digits
format_int (pos n) = digits 20 n ""
format_int (negsuc n) = "-" <> digits 20 (n + 1) ""

abbrev is_digit : Char → Bool
is_digit c = in_range "0" "9" c

-- `ParseUint` stops at 2^64; here the number is read whole and the range is tested at the end,
-- with an error in the same cases.
parse_digits : String → ℕ → Option ℕ
parse_digits String.[] n = some n
parse_digits (String.◌∷◌ c s) n =
    let rest = parse_digits s (n * 10 + (code c - 48)) in if is_digit c then rest else none

abbrev pub max_int64 : ℕ
max_int64 = 2 ^ 63 - 1

parse_uint : String → Option ℕ
unfolding parse_digits
parse_uint s = if is_nil s then none else parse_digits s 0

signed : Bool → Option ℕ → Option ℤ
signed neg none = none
signed false (some n) = if leb n max_int64 then some (pos n) else none
signed true (some zero) = some (pos 0)
signed true (some (suc n)) = if leb n max_int64 then some (negsuc n) else none

unfoldable pub parse_int : String → Option ℤ
unfolding parse_uint signed
parse_int String.[] = none
parse_int (String.◌∷◌ c s) =
    if code c =ℕ b'+'
    then signed false (parse_uint s)
    else if code c =ℕ b'-'
    then signed true (parse_uint s)
    else signed false (parse_uint (String.◌∷◌ c s))

test_format : format_int (negsuc 41) ≡ "-42"
unfolding format_int
test_format = refl

test_parse : parse_int "-9223372036854775808" ≡ some (negsuc max_int64)
unfolding parse_int
test_parse = refl

test_overflow : parse_int "9223372036854775808" ≡ none
unfolding parse_int
test_overflow = refl
