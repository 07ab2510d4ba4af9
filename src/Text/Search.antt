-- ===== src/Text/Search.antt =====
-- `strings.HasPrefix`, `Contains`, `Join` and `TrimSpace`.
use git_mirror_operator.Base.{
  Char, code, String, ◌<>◌, Bool, true, false, ◌&&◌, ◌||◌, ◌=ℕ◌, leb, List, [], ◌∷◌, ◌≡◌, refl,
}
use git_mirror_operator.Text.{trim}

abbrev pub starts_with : String → String → Bool
starts_with s String.[] = true
starts_with String.[] (String.◌∷◌ c p) = false
starts_with (String.◌∷◌ d s) (String.◌∷◌ c p) = code d =ℕ code c && starts_with s p

unfoldable pub contains : String → String → Bool
contains String.[] p = starts_with "" p
contains (String.◌∷◌ c s) p = starts_with (String.◌∷◌ c s) p || contains s p

unfoldable pub join_with : String → List String → String
join_with sep [] = ""
join_with sep (s ∷ []) = s
join_with sep (s ∷ t ∷ rest) = s <> sep <> join_with sep (t ∷ rest)

-- `unicode.IsSpace`
abbrev pub is_space : Char → Bool
is_space c =
    let n = code c in
    (leb 9 n && leb n 13)
    || n =ℕ 32
    || n =ℕ 0x85
    || n =ℕ 0xA0
    || n =ℕ 0x1680
    || (leb 0x2000 n && leb n 0x200A)
    || n =ℕ 0x2028
    || n =ℕ 0x2029
    || n =ℕ 0x202F
    || n =ℕ 0x205F
    || n =ℕ 0x3000

unfoldable pub trim_space : String → String
unfolding trim
trim_space s = trim is_space s

test_contains : contains "/var/ssh_key/x" "key" ≡ true
unfolding contains
test_contains = refl

test_join : join_with " " ("ssh" ∷ "-o" ∷ "x" ∷ []) ≡ "ssh -o x"
unfolding join_with
test_join = refl

test_trim_space : trim_space " \n a b\n" ≡ "a b"
unfolding trim_space
test_trim_space = refl
