-- ===== src/Jobs/Names/Hashed.antt =====
-- internal/jobs/builder.go: names made of a readable base, a dash and twelve digits of a hash.
use text.Mathlib.TextPositions.{len-append}
use git_mirror_operator.Base.{
  ℕ, ◌≤◌, Char, String, ◌<>◌, len, Bool, true, false, ◌||◌, if◌then◌else◌, ◌≡◌, ◌∙◌, refl, arith,
  ltb, Bool-cases, inl, inr,
}
use git_mirror_operator.Text.{in_range, is_nil, all_chars, take, head_is, last_is}
use git_mirror_operator.Text.Hex
use git_mirror_operator.Text.Laws.{
  is_ascii, size, len-eq-size, all_chars_mono, last_is_mono, all_chars-append, all_chars-take,
  head_is-append, head_is-take, last_is_of_all, last_is-append, size-take-le, size-take,
  size-encode, is_nil_of_size,
}
use git_mirror_operator.Platform.{Platform, IsFaithful}
use git_mirror_operator.Jobs.Names.{
  is_label_value_alnum, is_label_value_char, is_dns_char, or_value, short_hash,
}

-- A text of 1 to 63 bytes of some alphabet that begins and ends with a letter or digit of it.
pub record IsName (alphabet ends : Char → Bool) (s : String) : Type 0 where
  pub fits : len s ≤ 63
  pub starts : head_is ends s ≡ true
  pub stops : last_is ends s ≡ true
  pub chars : all_chars alphabet s ≡ true

-- A label value, as Kubernetes wants it.
abbrev pub IsLabelValue : String → Type 0
IsLabelValue = IsName is_label_value_char is_label_value_alnum

abbrev pub is_dns_alnum : Char → Bool
is_dns_alnum c = in_range "a" "z" c || in_range "0" "9" c

-- A DNS label (RFC 1123): lower-case letters, digits and dashes.
abbrev pub IsDnsLabel : String → Type 0
IsDnsLabel = IsName is_dns_char is_dns_alnum

hex→dns : (c : Char) → Hex.is_hex c ≡ true → is_dns_alnum c ≡ true
hex→dns c h = ground arith

dns_alnum→dns : (c : Char) → is_dns_alnum c ≡ true → is_dns_char c ≡ true
dns_alnum→dns c h = ground arith

pub dns→label : (c : Char) → is_dns_char c ≡ true → is_label_value_char c ≡ true
dns→label c h = ground arith

pub dns_alnum→alnum : (c : Char) → is_dns_alnum c ≡ true → is_label_value_alnum c ≡ true
dns_alnum→alnum c h = ground arith

pub label→ascii : (c : Char) → is_label_value_char c ≡ true → is_ascii c ≡ true
label→ascii c h = ground arith

pub dns→ascii : (c : Char) → is_dns_char c ≡ true → is_ascii c ≡ true
dns→ascii c h = label→ascii c (dns→label c h)

module _ (P : Platform) (F : IsFaithful P) where
  hash_hex : (s : String) → all_chars Hex.is_hex (short_hash P s) ≡ true
  unfolding short_hash
  hash_hex s =
      all_chars-take Hex.is_hex 12 (Hex.encode (P.sha256 s))
        (Hex.all_chars-encode (P.sha256 s) (F.sha256_bytes s))

  hash_size : (s : String) → size (short_hash P s) ≡ 12
  unfolding short_hash
  hash_size s =
      size-take 12 (Hex.encode (P.sha256 s))
        (omega (arith, size-encode (P.sha256 s), F.sha256_length s))

  hash_dns : (s : String) → all_chars is_dns_alnum (short_hash P s) ≡ true
  hash_dns s = all_chars_mono Hex.is_hex is_dns_alnum hex→dns (short_hash P s) (hash_hex s)

  hash_chars : (s : String) → all_chars is_dns_char (short_hash P s) ≡ true
  hash_chars s = all_chars_mono is_dns_alnum is_dns_char dns_alnum→dns (short_hash P s) (hash_dns s)

  pub len-short_hash : (s : String) → len (short_hash P s) ≡ 12
  len-short_hash s =
      len-eq-size (short_hash P s)
        (all_chars_mono is_dns_char is_ascii dns→ascii (short_hash P s) (hash_chars s))
      ∙ hash_size s

  hash_last : (s : String) → last_is is_dns_alnum (short_hash P s) ≡ true
  hash_last s =
      last_is_of_all is_dns_alnum (short_hash P s) (hash_dns s)
        (is_nil_of_size (short_hash P s) (omega (arith, hash_size s)))

  -- A base of at most 50 runes, a dash and the hash make a name.
  pub hashed-IsName :
      (alphabet ends : Char → Bool)
      → ((c : Char) → is_dns_char c ≡ true → alphabet c ≡ true)
      → ((c : Char) → is_dns_alnum c ≡ true → ends c ≡ true)
      → ((c : Char) → alphabet c ≡ true → is_ascii c ≡ true)
      → (base s : String) → size base ≤ 50
      → head_is ends base ≡ true
      → all_chars alphabet base ≡ true
      → IsName alphabet ends (base <> "-" <> short_hash P s)
  hashed-IsName alphabet ends dns alnum ascii base s fits head chars =
      let hash = short_hash P s in
      record {
        fits = omega (
          arith,
          len-append base ("-" <> hash),
          len-append "-" hash,
          len-short_hash s,
          len-eq-size base (all_chars_mono alphabet is_ascii ascii base chars),
        );
        starts = head_is-append ends base ("-" <> hash) head;
        stops = last_is-append ends base ("-" <> hash) (
            last_is-append ends "-" hash (last_is_mono is_dns_alnum ends alnum hash (hash_last s)));
        chars = all_chars-append alphabet base ("-" <> hash) chars (
            all_chars-append alphabet "-" hash (rw (dns "-" refl))
              (all_chars_mono is_dns_char alphabet dns hash (hash_chars s)));
      }

-- A loop that writes a dash for what its test rejects writes only what passes the test.
pub kept_or_dash : (p : Char → Bool) → p "-" ≡ true → (c : Char) → p (if p c then c else "-") ≡ true
kept_or_dash p dash c = elim (Bool-cases (p c)) [ inl e ↦ rw e e | inr e ↦ rw e dash ]

-- The first bytes of a text that is longer.
unfoldable pub cut : ℕ → String → String
unfolding take
cut n s = if ltb n (len s) then take n s else s

-- Cutting a text of one-byte runes to 50 keeps its head and its alphabet.
module _ (p : Char → Bool) where
  pub size-cut :
      ((c : Char) → p c ≡ true → is_ascii c ≡ true)
      → (s : String) → all_chars p s ≡ true
      → size (cut 50 s) ≤ 50
  unfolding cut
  size-cut ascii s h =
      ground (arith, size-take-le 50 s, len-eq-size s (all_chars_mono p is_ascii ascii s h))

  pub cut_head : (s : String) → head_is p s ≡ true → head_is p (cut 50 s) ≡ true
  unfolding cut
  cut_head s h = elim (Bool-cases (ltb 50 (len s))) [
    | inl e ↦ rw e (head_is-take p 49 s h)
    | inr e ↦ rw e h
  ]

  pub cut_chars : (s : String) → all_chars p s ≡ true → all_chars p (cut 50 s) ≡ true
  unfolding cut
  cut_chars s h = elim (Bool-cases (ltb 50 (len s))) [
    | inl e ↦ rw e (all_chars-take p 50 s h)
    | inr e ↦ rw e h
  ]

pub or_value_id : (d s : String) → is_nil s ≡ false → or_value d s ≡ s
or_value_id d s h = rw h
