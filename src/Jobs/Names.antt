-- ===== src/Jobs/Names.antt =====
-- internal/jobs/builder.go: label values and names.

pub mod Hashed
pub mod Labels
pub mod Objects
use git_mirror_operator.Base.{
  ℕ, ◌-◌, Char, code, String, ◌<>◌, len, Bool, true, false, not, ◌&&◌, ◌||◌, ◌==◌, if◌then◌else◌,
  List, [], ◌∷◌, ltb, leb,
}
use git_mirror_operator.Text.{
  in_range, is_nil, all_chars, map_chars, trim_left, trim_right, trim, take, to_lower, head_is,
  last_is,
}
use git_mirror_operator.Text.Hex
use git_mirror_operator.Api.Mirror.{GitMirror}
use git_mirror_operator.Platform.{Platform}

abbrev pub app_name : String
app_name = "git-mirror-operator"

abbrev pub label_name : String
label_name = "app.kubernetes.io/name"

abbrev pub label_git_mirror : String
label_git_mirror = "mirror.shamubernetes.com/gitmirror"

abbrev pub label_delivery_id : String
label_delivery_id = "mirror.shamubernetes.com/delivery-id"

abbrev pub label_source_owner : String
label_source_owner = "mirror.shamubernetes.com/source-owner"

abbrev pub label_source_repo : String
label_source_repo = "mirror.shamubernetes.com/source-repo"

abbrev pub annotation_revision : String
annotation_revision = "mirror.shamubernetes.com/revision"

abbrev pub annotation_generation : String
annotation_generation = "mirror.shamubernetes.com/generation"

abbrev pub annotation_git_mirror : String
annotation_git_mirror = "mirror.shamubernetes.com/gitmirror-name"

abbrev pub annotation_owner : String
annotation_owner = "mirror.shamubernetes.com/full-source-owner"

abbrev pub annotation_repo : String
annotation_repo = "mirror.shamubernetes.com/full-source-repo"

abbrev pub is_label_value_alnum : Char → Bool
is_label_value_alnum c = in_range "a" "z" c || in_range "A" "Z" c || in_range "0" "9" c

abbrev pub not_label_alnum : Char → Bool
not_label_alnum c = not (is_label_value_alnum c)

abbrev pub is_label_value_char : Char → Bool
is_label_value_char c =
    is_label_value_alnum c || in_range "-" "-" c || in_range "_" "_" c || in_range "." "." c

-- The bytes `s[0]` and `s[len(s)-1]` of a rune of more than one byte are no letters or digits, as
-- the rune itself is none. The caller has excluded the empty text, on which Go would panic.
unfoldable pub is_valid_label_value : String → Bool
is_valid_label_value s =
    if ltb 63 (len s)
    then false
    else if not (head_is is_label_value_alnum s) || not (last_is is_label_value_alnum s)
    then false
    else all_chars is_label_value_char s

abbrev label_char : Char → Char
label_char c = if is_label_value_char c then c else "-"

unfoldable pub label_value_base : String → String
unfolding map_chars trim
label_value_base s =
    let clean = trim not_label_alnum (map_chars label_char s) in
    if is_nil clean then "value" else clean

abbrev pub is_dns_char : Char → Bool
is_dns_char c = in_range "a" "z" c || in_range "0" "9" c || in_range "-" "-" c

abbrev pub is_dash : Char → Bool
is_dash c = in_range "-" "-" c

abbrev pub dns_char : Char → Char
dns_char c = if is_dns_char c then c else "-"

abbrev pub or_value : String → String → String
or_value d s = if is_nil s then d else s

module _ (P : Platform) where
  -- `hex.EncodeToString(sum[:])[:12]` of the text's SHA-256.
  unfoldable pub short_hash : String → String
  unfolding take Hex.encode
  short_hash s = take 12 (Hex.encode (P.sha256 s))

  unfoldable pub sanitize_label_value : String → String
  unfolding is_valid_label_value label_value_base take trim_right short_hash
  sanitize_label_value s =
      if not (is_nil s) && is_valid_label_value s && leb (len s) 63
      then s
      else let clean = label_value_base s in
        let max_base = 63 - len (short_hash s) - 1 in
        let short = if ltb max_base (len clean) then take max_base clean else clean in
        let trimmed = trim_right not_label_alnum short in
        or_value "value" trimmed <> "-" <> short_hash s

  unfoldable pub dns_label : String → String
  unfolding map_chars to_lower trim_left
  dns_label s = trim_left is_dash (map_chars dns_char (to_lower P.fold_lower s))

  unfoldable pub name_for_mirror_trigger : GitMirror → String → String
  unfolding dns_label short_hash take trim_right
  name_for_mirror_trigger mirror trigger_id =
      let hash = short_hash (mirror.namespace <> "/" <> mirror.name <> "/" <> trigger_id) in
      let base = dns_label ("gitmirror-" <> mirror.name) in
      let max_base = 63 - len hash - 1 in
      let base' =
        if ltb max_base (len base) then trim_right is_dash (take max_base base) else base in
      or_value "gitmirror" base' <> "-" <> hash

  unfoldable pub labels_for_mirror : GitMirror → List (String × String)
  unfolding sanitize_label_value
  labels_for_mirror mirror =
      (label_name, app_name)
      ∷ (label_git_mirror, sanitize_label_value mirror.name)
      ∷ (label_source_owner, sanitize_label_value mirror.spec.github.owner)
      ∷ (label_source_repo, sanitize_label_value mirror.spec.github.repo)
      ∷ []

unfoldable pub annotations_for_mirror : GitMirror → List (String × String)
annotations_for_mirror mirror =
    (annotation_git_mirror, mirror.name)
    ∷ (annotation_owner, mirror.spec.github.owner)
    ∷ (annotation_repo, mirror.spec.github.repo)
    ∷ []
