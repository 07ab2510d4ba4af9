-- ===== src/Text/Decimal/RoundTrip.antt =====
-- `FormatInt` and `ParseInt` one after the other.
use git_mirror_operator.Base.{
  ℕ, zero, suc, ◌+◌, ◌*◌, ◌/◌, ◌%◌, ◌<◌, ◌≤◌, code, String, true, false, some, ◌≡◌, refl, arith,
}
use git_mirror_operator.Text.{head_is}
use git_mirror_operator.Text.Decimal.{
  pos, digit, digits, format_int, is_digit, parse_digits, max_int64, signed, parse_int,
}

-- 10 ^ f
room : ℕ → ℕ
room zero = 1
room (suc f) = 10 * room f

is_digit-digit : (n : ℕ) → n < 10 → (code (digit n) ≡ 48 + n)
is_digit-digit zero h = refl
is_digit-digit (suc zero) h = refl
is_digit-digit (suc (suc zero)) h = refl
is_digit-digit (suc (suc (suc zero))) h = refl
is_digit-digit (suc (suc (suc (suc zero)))) h = refl
is_digit-digit (suc (suc (suc (suc (suc zero))))) h = refl
is_digit-digit (suc (suc (suc (suc (suc (suc zero)))))) h = refl
is_digit-digit (suc (suc (suc (suc (suc (suc (suc zero))))))) h = refl
is_digit-digit (suc (suc (suc (suc (suc (suc (suc (suc zero)))))))) h = refl
is_digit-digit (suc (suc (suc (suc (suc (suc (suc (suc (suc zero))))))))) h = refl
is_digit-digit (suc (suc (suc (suc (suc (suc (suc (suc (suc (suc n)))))))))) h =
    absurd (omega arith)

parse_digit :
    (n m : ℕ) (acc : String)
    → n < 10
    → parse_digits (String.◌∷◌ (digit n) acc) m ≡ parse_digits acc (m * 10 + n)
unfolding parse_digits
parse_digit n m acc h = ground (arith, is_digit-digit n h)

parse_digits-digits :
    (f n : ℕ) (acc : String)
    → n < room (suc f)
    → parse_digits (digits (suc f) n acc) 0 ≡ parse_digits acc n
unfolding digits room
parse_digits-digits zero n acc h = ground (arith, parse_digit (n % 10) 0 acc)
parse_digits-digits (suc f) n acc h = ground (
  arith,
  parse_digit (n % 10) 0 acc,
  parse_digit (n % 10) (n / 10) acc,
  parse_digits-digits f (n / 10) (String.◌∷◌ (digit (n % 10)) acc),
)

head-digits : (f n : ℕ) (acc : String) → head_is is_digit (digits (suc f) n acc) ≡ true
unfolding digits
head-digits zero n acc = ground (arith, is_digit-digit (n % 10))
head-digits (suc f) n acc =
    ground
      (arith, is_digit-digit (n % 10), head-digits f (n / 10) (String.◌∷◌ (digit (n % 10)) acc))

parse_int-unsigned :
    (s : String) → head_is is_digit s ≡ true → parse_int s ≡ signed false (parse_digits s 0)
unfolding parse_int
parse_int-unsigned String.[] h = cc
parse_int-unsigned (String.◌∷◌ c s) h = ground arith

pub parse_int-format_int : (n : ℕ) → n ≤ max_int64 → parse_int (format_int (pos n)) ≡ some (pos n)
unfolding format_int parse_digits signed room
parse_int-format_int n h =
    rw
      (
        parse_int-unsigned (digits 20 n "") (head-digits 19 n ""),
        parse_digits-digits 19 n "" (omega arith),
      )
      (ground arith)
