-- ===== src/Text/Hex.antt =====
-- `hex.EncodeToString` and `hex.DecodeString`.
use Prim.Native.String.{char_at}
use git_mirror_operator.Base.{
  zero, suc, ◌=ℕ◌, ◌||◌, ℕ, ◌+◌, ◌*◌, ◌-◌, ◌/◌, ◌%◌, ◌<◌, Char, code, String, Bool, true, false,
  if◌then◌else◌, Option, none, some, List, [], ◌∷◌, ◌≡◌, refl, arith, All,
}
use git_mirror_operator.Text.{in_range, all_chars}

abbrev digit : ℕ → Char
digit n = char_at "0123456789abcdef" n

unfoldable pub encode : List ℕ → String
encode [] = ""
encode (b ∷ bs) = String.◌∷◌ (digit (b / 16)) (String.◌∷◌ (digit (b % 16)) (encode bs))

-- `fromHexChar`
unfoldable pub nibble : Char → Option ℕ
nibble c =
    if in_range "0" "9" c
    then some (code c - 48)
    else if in_range "a" "f" c
    then some (code c - 87)
    else if in_range "A" "F" c
    then some (code c - 55)
    else none

abbrev join : Option ℕ → Option ℕ → Option (List ℕ) → Option (List ℕ)
join (some h) (some l) (some bs) = some ((h * 16 + l) ∷ bs)
join (some h) (some l) none = none
join (some h) none _ = none
join none _ _ = none

-- An odd number of digits is an error, and so is any other character.
unfoldable pub decode : String → Option (List ℕ)
unfolding nibble
decode String.[] = some []
decode (String.◌∷◌ c String.[]) = none
decode (String.◌∷◌ c (String.◌∷◌ d s)) = join (nibble c) (nibble d) (decode s)

abbrev pub is_hex : Char → Bool
is_hex c = in_range "0" "9" c || in_range "a" "f" c

test_encode : encode (222 ∷ 173 ∷ 0 ∷ []) ≡ "dead00"
unfolding encode
test_encode = refl

test_decode : decode "DEad00" ≡ some (222 ∷ 173 ∷ 0 ∷ [])
unfolding decode
test_decode = refl

-- How many numbers below a bound fail a test.
failures : (ℕ → Bool) → ℕ → ℕ
failures test zero = 0
failures test (suc bound) = (if test bound then 0 else 1) + failures test bound

failures_sound :
    (test : ℕ → Bool) (bound x : ℕ) → x < bound → failures test bound ≡ 0 → test x ≡ true
unfolding failures
failures_sound test zero x small zeros = absurd (omega arith)
failures_sound test (suc bound) x small zeros = ground (arith, failures_sound test bound x)

is_value : ℕ → Option ℕ → Bool
is_value n none = false
is_value n (some m) = m =ℕ n

nibble-digit : (n : ℕ) → n < 16 → nibble (digit n) ≡ some n
unfolding is_value failures nibble
nibble-digit n h = ground (arith, failures_sound (λ k. is_value k (nibble (digit k))) 16 n h table)
  where
    table : failures (λ k. is_value k (nibble (digit k))) 16 ≡ 0
    table = refl

digit-is_hex : (n : ℕ) → n < 16 → is_hex (digit n) ≡ true
unfolding failures
digit-is_hex n h = failures_sound (λ k. is_hex (digit k)) 16 n h table
  where
    table : failures (λ k. is_hex (digit k)) 16 ≡ 0
    table = refl

-- Decoding undoes encoding, for any list of bytes.
pub decode-encode : (bs : List ℕ) → All (λ b. b < 256) bs → decode (encode bs) ≡ some bs
unfolding encode decode
decode-encode [] _ = refl
decode-encode (b ∷ bs) (h, hs) =
    ground (arith, nibble-digit (b / 16), nibble-digit (b % 16), decode-encode bs hs)

pub all_chars-encode : (bs : List ℕ) → All (λ b. b < 256) bs → all_chars is_hex (encode bs) ≡ true
unfolding encode
all_chars-encode [] _ = refl
all_chars-encode (b ∷ bs) (h, hs) =
    rw (digit-is_hex (b / 16) (omega arith), digit-is_hex (b % 16) (omega arith))
      (all_chars-encode bs hs)
