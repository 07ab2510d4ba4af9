-- ===== src/Jobs/Names/Labels.antt =====
-- internal/jobs/builder.go: the shape of the values of `SanitizeLabelValue`.
use git_mirror_operator.Base.{
  ◌≤◌, Char, String, ◌<>◌, len, Bool, true, false, not, ◌&&◌, ◌≡◌, refl, arith, leb, Bool-cases,
  inl, inr,
}
use git_mirror_operator.Text.{is_nil, all_chars, map_chars, trim_left, trim_right, trim, head_is}
use git_mirror_operator.Text.Laws.{
  size, all_chars-map, all_chars-trim_left, all_chars-trim_right, head_is-trim_right,
  head_is-trim_left, is_nil_of_head, size-trim_right-le, is_nil-trim_right,
}
use git_mirror_operator.Platform.{Platform, IsFaithful}
use git_mirror_operator.Jobs.Names.Hashed.{
  IsLabelValue, label→ascii, dns→label, dns_alnum→alnum, len-short_hash, hashed-IsName,
  kept_or_dash, cut, size-cut, cut_head, cut_chars, or_value_id,
}
use git_mirror_operator.Jobs.Names.{
  is_label_value_alnum, not_label_alnum, is_label_value_char, is_valid_label_value, label_char,
  label_value_base, or_value, short_hash, sanitize_label_value,
}

alnum→label : (c : Char) → is_label_value_alnum c ≡ true → is_label_value_char c ≡ true
alnum→label c h = ground arith

label_char-is_label : (c : Char) → is_label_value_char (label_char c) ≡ true
label_char-is_label = kept_or_dash is_label_value_char refl

not_alnum_spares : (c : Char) → is_label_value_alnum c ≡ true → not (is_label_value_alnum c) ≡ false
not_alnum_spares c h = rw h

not_alnum_keeps : (c : Char) → not (is_label_value_alnum c) ≡ false → is_label_value_alnum c ≡ true
not_alnum_keeps c h = ground arith

cleaned : String → String
cleaned s = trim not_label_alnum (map_chars label_char s)

cleaned_chars : (s : String) → all_chars is_label_value_char (cleaned s) ≡ true
unfolding cleaned trim
cleaned_chars s =
    let trimmed = trim_left not_label_alnum (map_chars label_char s) in
    all_chars-trim_right is_label_value_char not_label_alnum trimmed (
      all_chars-trim_left is_label_value_char not_label_alnum (map_chars label_char s)
        (all_chars-map is_label_value_char label_char label_char-is_label s))

cleaned_head :
    (s : String) → is_nil (cleaned s) ≡ false → head_is is_label_value_alnum (cleaned s) ≡ true
unfolding cleaned trim
cleaned_head s h =
    let trimmed = trim_left not_label_alnum (map_chars label_char s) in
    head_is-trim_right is_label_value_alnum not_label_alnum not_alnum_spares trimmed (
      head_is-trim_left is_label_value_alnum not_label_alnum not_alnum_keeps
        (map_chars label_char s) (is_nil-trim_right not_label_alnum trimmed h))

base_chars : (s : String) → all_chars is_label_value_char (label_value_base s) ≡ true
unfolding label_value_base cleaned
base_chars s = elim (Bool-cases (is_nil (cleaned s))) [
  | inl e ↦ rw e
  | inr e ↦ rw e (cleaned_chars s)
]

base_head : (s : String) → head_is is_label_value_alnum (label_value_base s) ≡ true
unfolding label_value_base cleaned
base_head s = elim (Bool-cases (is_nil (cleaned s))) [
  | inl e ↦ rw e
  | inr e ↦ rw e (cleaned_head s e)
]

-- The base of a label value behind which the hash is put.
short_base : String → String
short_base s = trim_right not_label_alnum (cut 50 (label_value_base s))

short_base_head : (s : String) → head_is is_label_value_alnum (short_base s) ≡ true
unfolding short_base
short_base_head s =
    head_is-trim_right is_label_value_alnum not_label_alnum not_alnum_spares _
      (cut_head is_label_value_alnum (label_value_base s) (base_head s))

short_base_chars : (s : String) → all_chars is_label_value_char (short_base s) ≡ true
unfolding short_base
short_base_chars s =
    all_chars-trim_right is_label_value_char not_label_alnum (cut 50 (label_value_base s))
      (cut_chars is_label_value_char (label_value_base s) (base_chars s))

size-short_base : (s : String) → size (short_base s) ≤ 50
unfolding short_base
size-short_base s = omega (
  arith,
  size-trim_right-le not_label_alnum (cut 50 (label_value_base s)),
  size-cut is_label_value_char label→ascii (label_value_base s) (base_chars s),
)

valid_label : (s : String) → is_nil s ≡ false → is_valid_label_value s ≡ true → IsLabelValue s
unfolding is_valid_label_value
valid_label s h v = record {
  fits = ground arith;
  starts = ground arith;
  stops = ground arith;
  chars = ground arith;
}

-- The test that lets a text through.
abbrev passes : String → Bool
passes s = not (is_nil s) && is_valid_label_value s && leb (len s) 63

module _ (P : Platform) (F : IsFaithful P) where
  hashed_label :
      (s : String) → IsLabelValue (or_value "value" (short_base s) <> "-" <> short_hash P s)
  hashed_label s =
      rw
        (or_value_id "value" (short_base s)
          (is_nil_of_head is_label_value_alnum (short_base s) (short_base_head s)))
        (hashed-IsName P F is_label_value_char is_label_value_alnum dns→label dns_alnum→alnum
          label→ascii (short_base s) s (size-short_base s) (short_base_head s) (short_base_chars s))

  sanitize_hashed :
      (s : String)
      → passes s ≡ false
      → sanitize_label_value P s ≡ or_value "value" (short_base s) <> "-" <> short_hash P s
  unfolding sanitize_label_value short_base cut
  sanitize_hashed s h = rw (h, len-short_hash P F s)

  sanitize_kept : (s : String) → passes s ≡ true → sanitize_label_value P s ≡ s
  unfolding sanitize_label_value
  sanitize_kept s h = rw h

  -- Every text is turned into a label value: 1 to 63 bytes, letters, digits, dashes, underscores
  -- and dots, a letter or digit at both ends.
  pub sanitize_label_value-IsLabelValue : (s : String) → IsLabelValue (sanitize_label_value P s)
  sanitize_label_value-IsLabelValue s = elim (Bool-cases (passes s)) [
    | inl e ↦ rw (sanitize_kept s e) (valid_label s (ground arith) (ground arith))
    | inr e ↦ rw (sanitize_hashed s e) (hashed_label s)
  ]

  -- A text that is a label value already is not changed.
  pub sanitize_label_value_id : (s : String) → IsLabelValue s → sanitize_label_value P s ≡ s
  unfolding is_valid_label_value
  sanitize_label_value_id s v =
      sanitize_kept s (ground (arith, is_nil_of_head is_label_value_alnum s v.starts))
