-- ===== src/Text.antt =====
-- What the code uses of Go's `strings` and `encoding/hex`, on valid UTF-8 text. A native `String`
-- is a list of runes and `len` counts the bytes of its UTF-8, as Go's `len` does.

pub mod Base64
pub mod Decimal
pub mod Hex
pub mod Laws
pub mod Path
pub mod Search
use Prim.Native.String.{[], ◌∷◌, char_at}
use git_mirror_operator.Base.{
  ℕ, zero, suc, ◌-◌, Char, code, String, Bool, true, false, ◌&&◌, ◌==◌, if◌then◌else◌,
}
use git_mirror_operator.Base.{leb}

abbrev pub is_nil : String → Bool
is_nil [] = true
is_nil (c ∷ s) = false

-- A loop over the runes of a text that stops at the first one that fails.
abbrev pub all_chars : (Char → Bool) → String → Bool
all_chars p [] = true
all_chars p (c ∷ s) = p c && all_chars p s

-- `strings.Map`, and a loop that writes one rune for each rune read.
unfoldable pub map_chars : (Char → Char) → String → String
map_chars f [] = []
map_chars f (c ∷ s) = f c ∷ map_chars f s

-- `strings.TrimLeftFunc`
unfoldable pub trim_left : (Char → Bool) → String → String
trim_left p [] = []
trim_left p (c ∷ s) = let rest = trim_left p s in if p c then rest else c ∷ s

-- `strings.TrimRightFunc`
unfoldable pub trim_right : (Char → Bool) → String → String
trim_right p [] = []
trim_right p (c ∷ s) = let rest = trim_right p s in if is_nil rest && p c then [] else c ∷ rest

-- `strings.TrimFunc`
unfoldable pub trim : (Char → Bool) → String → String
unfolding trim_left trim_right
trim p s = trim_right p (trim_left p s)

-- `s[:n]` for a text of one-byte runes, and the whole text where it is shorter.
unfoldable pub take : ℕ → String → String
take zero s = []
take (suc n) [] = []
take (suc n) (c ∷ s) = c ∷ take n s

abbrev pub in_range : Char → Char → Char → Bool
in_range lo hi c = leb (code lo) (code c) && leb (code c) (code hi)

-- `unicode.ToLower` is a table outside ASCII: `fold` stands for it there.
unfoldable pub lower_char : (Char → Char) → Char → Char
lower_char fold c =
    if in_range "A" "Z" c
    then char_at "abcdefghijklmnopqrstuvwxyz" (code c - 65)
    else if leb (code c) 127
    then c
    else fold c

-- `strings.ToLower`
unfoldable pub to_lower : (Char → Char) → String → String
unfolding map_chars lower_char
to_lower fold = map_chars (lower_char fold)

-- The first and the last rune of a text pass the test, and there is one.
abbrev pub head_is : (Char → Bool) → String → Bool
head_is p [] = false
head_is p (c ∷ s) = p c

abbrev pub last_is : (Char → Bool) → String → Bool
last_is p [] = false
last_is p (c ∷ []) = p c
last_is p (c ∷ d ∷ s) = last_is p (d ∷ s)
