-- ===== src/Jobs/Names/Objects.antt =====
-- internal/jobs/builder.go: the shape of the names of `NameForMirrorTrigger`.
use text.Mathlib.TextLemmas.{cons-append}
use git_mirror_operator.Base.{
  ◌≤◌, Char, String, ◌<>◌, len, true, false, if◌then◌else◌, ◌≡◌, refl, arith, ltb, Bool-cases, inl,
  inr,
}
use git_mirror_operator.Text.{all_chars, map_chars, trim_right, take, head_is, to_lower}
use git_mirror_operator.Text.Laws.{
  is_ascii, size, len-eq-size, all_chars_mono, all_chars-take, all_chars-map, all_chars-trim_left,
  all_chars-trim_right, head_is-take, head_is-trim_right, is_nil_of_head, size-take-le,
  size-trim_right-le,
}
use git_mirror_operator.Api.Mirror.{GitMirror}
use git_mirror_operator.Platform.{Platform, IsFaithful}
use git_mirror_operator.Jobs.Names.Hashed.{
  IsDnsLabel, is_dns_alnum, dns→ascii, len-short_hash, hashed-IsName, kept_or_dash, or_value_id,
}
use git_mirror_operator.Jobs.Names.{
  is_dns_char, is_dash, dns_char, or_value, short_hash, dns_label, name_for_mirror_trigger,
}

pub dns_char-is_dns : (c : Char) → is_dns_char (dns_char c) ≡ true
dns_char-is_dns = kept_or_dash is_dns_char refl

pub dash_spares : (c : Char) → is_dns_alnum c ≡ true → is_dash c ≡ false
dash_spares c h = ground arith

-- The base of a name, cut to 50 bytes where it is longer.
unfoldable pub short_name : String → String
unfolding take trim_right
short_name s = if ltb 50 (len s) then trim_right is_dash (take 50 s) else s

short_name_head :
    (s : String) → head_is is_dns_alnum s ≡ true → head_is is_dns_alnum (short_name s) ≡ true
unfolding short_name
short_name_head s h = elim (Bool-cases (ltb 50 (len s))) [
  | inl e ↦ rw e (
      head_is-trim_right is_dns_alnum is_dash dash_spares (take 50 s)
        (head_is-take is_dns_alnum 49 s h))
  | inr e ↦ rw e h
]

short_name_chars :
    (s : String) → all_chars is_dns_char s ≡ true → all_chars is_dns_char (short_name s) ≡ true
unfolding short_name
short_name_chars s h = elim (Bool-cases (ltb 50 (len s))) [
  | inl e ↦
      rw e
        (all_chars-trim_right is_dns_char is_dash (take 50 s) (all_chars-take is_dns_char 50 s h))
  | inr e ↦ rw e h
]

size-short_name : (s : String) → all_chars is_dns_char s ≡ true → size (short_name s) ≤ 50
unfolding short_name
size-short_name s h = elim (Bool-cases (ltb 50 (len s))) [
  | inl e ↦ rw e (omega (arith, size-trim_right-le is_dash (take 50 s), size-take-le 50 s))
  | inr e ↦ rw e (ground (arith, len-eq-size s (all_chars_mono is_dns_char is_ascii dns→ascii s h)))
]

module _ (P : Platform) (F : IsFaithful P) where
  -- The base of a name: what follows "gitmirror-" is turned into dashes, letters and digits.
  dns_label-chars : (s : String) → all_chars is_dns_char (dns_label P s) ≡ true
  unfolding dns_label
  dns_label-chars s =
      all_chars-trim_left is_dns_char is_dash (map_chars dns_char (to_lower P.fold_lower s))
        (all_chars-map is_dns_char dns_char dns_char-is_dns (to_lower P.fold_lower s))

  dns_label-head : (s : String) → head_is is_dns_alnum (dns_label P ("gitmirror-" <> s)) ≡ true
  unfolding dns_label
  dns_label-head s =
      let e : ("gitmirror-" <> s) ≡ String.◌∷◌ "g" ("itmirror-" <> s) =
        cons-append "g" "itmirror-" s in
      rw e refl

  -- A base of dashes, letters and digits that begins with a letter or digit makes a DNS label.
  pub named :
      (base s : String)
      → head_is is_dns_alnum base ≡ true
      → all_chars is_dns_char base ≡ true
      → IsDnsLabel (or_value "gitmirror" (short_name base) <> "-" <> short_hash P s)
  named base s head chars =
      let starts = short_name_head base head in
      rw
        (or_value_id "gitmirror" (short_name base)
          (is_nil_of_head is_dns_alnum (short_name base) starts))
        (hashed-IsName P F is_dns_char is_dns_alnum (λ c h. h) (λ c h. h) dns→ascii
          (short_name base) s (size-short_name base chars) starts (short_name_chars base chars))

  -- The name of a triggered Job is a DNS label: 1 to 63 bytes, lower-case letters, digits and
  -- dashes, a letter or digit at both ends.
  pub name_for_mirror_trigger-IsDnsLabel :
      (m : GitMirror) (trigger_id : String) → IsDnsLabel (name_for_mirror_trigger P m trigger_id)
  unfolding name_for_mirror_trigger short_name
  name_for_mirror_trigger-IsDnsLabel m trigger_id =
      rw (len-short_hash P F (m.namespace <> "/" <> m.name <> "/" <> trigger_id)) (
        named (dns_label P ("gitmirror-" <> m.name))
          (m.namespace <> "/" <> m.name <> "/" <> trigger_id) (dns_label-head m.name)
          (dns_label-chars ("gitmirror-" <> m.name)))
