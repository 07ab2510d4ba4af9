-- ===== src/Text/Base64.antt =====
-- `base64.RawURLEncoding` of bytes, and the UTF-8 bytes of a text.
use Prim.Native.String.{char_at}
use git_mirror_operator.Base.{
  ℕ, ◌+◌, ◌*◌, ◌/◌, ◌%◌, Char, code, String, if◌then◌else◌, ltb, List, [], ◌∷◌, ◌++◌, ◌≡◌, refl,
}

abbrev sextet : ℕ → Char
sextet n = char_at "ABCDEFGHIJKLMNOPQRSTUVWXYZabcdefghijklmnopqrstuvwxyz0123456789-_" n

unfoldable pub encode : List ℕ → String
encode [] = ""
encode (a ∷ []) = String.◌∷◌ (sextet (a / 4)) (String.◌∷◌ (sextet (a % 4 * 16)) "")
encode (a ∷ b ∷ []) =
    String.◌∷◌ (sextet (a / 4))
      (String.◌∷◌ (sextet (a % 4 * 16 + b / 16)) (String.◌∷◌ (sextet (b % 16 * 4)) ""))
encode (a ∷ b ∷ c ∷ rest) = String.◌∷◌ (sextet (a / 4)) (
    String.◌∷◌ (sextet (a % 4 * 16 + b / 16))
      (String.◌∷◌ (sextet (b % 16 * 4 + c / 64)) (String.◌∷◌ (sextet (c % 64)) (encode rest))))

-- The low six bits in a byte that continues a rune.
abbrev continuation : ℕ → ℕ
continuation n = 128 + n % 64

abbrev rune_bytes : ℕ → List ℕ
rune_bytes n =
    if ltb n 0x80
    then n ∷ []
    else if ltb n 0x800
    then (192 + n / 64) ∷ continuation n ∷ []
    else if ltb n 0x10000
    then (224 + n / 4096) ∷ continuation (n / 64) ∷ continuation n ∷ []
    else (240 + n / 262144) ∷ continuation (n / 4096) ∷ continuation (n / 64) ∷ continuation n ∷ []

unfoldable pub bytes_of : String → List ℕ
bytes_of String.[] = []
bytes_of (String.◌∷◌ c s) = rune_bytes (code c) ++ bytes_of s

test_encode :
    encode (bytes_of "{\"alg\":\"RS256\",\"typ\":\"JWT\"}") ≡ "eyJhbGciOiJSUzI1NiIsInR5cCI6IkpXVCJ9"
unfolding encode bytes_of
test_encode = refl

test_bytes_of : bytes_of "aé€" ≡ 97 ∷ 195 ∷ 169 ∷ 226 ∷ 130 ∷ 172 ∷ []
unfolding bytes_of
test_bytes_of = refl
