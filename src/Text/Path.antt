-- ===== src/Text/Path.antt =====
-- `filepath.Clean`, `Join` of two elements, and `Dir`, with the separator of Unix.
use mathlib.Core.List.{reverse}
use git_mirror_operator.Base.{
  code, Char, String, ◌<>◌, Bool, not, ◌&&◌, ◌||◌, ◌==◌, ◌=ℕ◌, if◌then◌else◌, List, [], ◌∷◌, ◌≡◌,
  refl,
}
use git_mirror_operator.Text.{is_nil, head_is}
use git_mirror_operator.Text.Search.{join_with}

abbrev is_slash : Char → Bool
is_slash c = code c =ℕ 47

abbrev with_char : Char → List String → List String
with_char c [] = String.◌∷◌ c "" ∷ []
with_char c (word ∷ words) = String.◌∷◌ c word ∷ words

-- The texts between the slashes.
unfoldable pub components : String → List String
components String.[] = "" ∷ []
components (String.◌∷◌ c s) =
    let rest = components s in if is_slash c then "" ∷ rest else with_char c rest

-- `..` after the components that are kept, the last one first.
abbrev up : Bool → List String → List String
up rooted [] = if rooted then [] else ".." ∷ []
up rooted (last ∷ kept) = if last == ".." then ".." ∷ last ∷ kept else kept

abbrev keep : Bool → String → List String → List String
keep rooted word kept =
    if word == "" || word == "." then kept else if word == ".." then up rooted kept else word ∷ kept

unfoldable pub resolve : Bool → List String → List String → List String
resolve rooted kept [] = kept
resolve rooted kept (word ∷ words) = resolve rooted (keep rooted word kept) words

unfoldable pub clean : String → String
unfolding components resolve join_with
clean path =
    let rooted = head_is is_slash path in
    let body = join_with "/" (reverse (resolve rooted [] (components path))) in
    if rooted then "/" <> body else if body == "" then "." else body

unfoldable pub join : String → String → String
unfolding clean
join a b = if a == "" then (if b == "" then "" else clean b) else clean (a <> "/" <> b)

-- The text up to its last slash.
unfoldable pub up_to_slash : String → String
up_to_slash String.[] = ""
up_to_slash (String.◌∷◌ c s) =
    let rest = up_to_slash s in if is_nil rest && not (is_slash c) then "" else String.◌∷◌ c rest

unfoldable pub dir : String → String
unfolding clean up_to_slash
dir path = clean (up_to_slash path)

test_join : join "/tmp/" "git-mirror-credentials" ≡ "/tmp/git-mirror-credentials"
unfolding join
test_join = refl

test_dir : dir "/tmp/a/../ssh_key" ≡ "/tmp"
unfolding dir
test_dir = refl

test_clean : clean "../a//./b/../../.." ≡ "../.."
unfolding clean
test_clean = refl
