-- ===== src/Text/Laws.antt =====
-- Laws of the text functions: which runes they keep, their ends and their lengths.
use Prim.Native.String.len
use Prim.Native.Char.{len_utf8, len_utf8_def, width}
use Prim.Native.Nat.{compare}
use text.Mathlib.TextLemmas.{nil-append, cons-append}
use git_mirror_operator.Base.{
  ℕ, zero, suc, ◌+◌, ◌*◌, ◌<◌, ◌≤◌, Char, code, String, ◌<>◌, len, Bool, true, false, List, [], ◌∷◌,
  ◌≡◌, refl, ap, arith, leb, length, and-eq-true, ◌∙◌,
}
use git_mirror_operator.Text.{
  is_nil, all_chars, map_chars, trim_left, trim_right, take, head_is, last_is,
}
use git_mirror_operator.Text.Hex.{encode}

abbrev pub is_ascii : Char → Bool
is_ascii c = leb (code c) 127

-- The runes of a text.
abbrev pub size : String → ℕ
size String.[] = 0
size (String.◌∷◌ c s) = suc (size s)

len_utf8-ascii : (c : Char) → is_ascii c ≡ true → len_utf8 c ≡ 1
len_utf8-ascii c h = (λ i. len_utf8_def c i) ∙ ascii_width c h
  where
    ascii_width :
        (c : Char)
        → is_ascii c ≡ true
        → width (compare (code c) 128) (compare (code c) 2048) (compare (code c) 65536) ≡ 1
    ascii_width c h = ground arith

len-cons : (c : Char) (s : String) → len (String.◌∷◌ c s) ≡ len_utf8 c + len s
len-cons c s = λ i. len.cons c s i

-- A text of one-byte runes has as many bytes as runes.
pub len-eq-size : (s : String) → all_chars is_ascii s ≡ true → len s ≡ size s
len-eq-size String.[] h = refl
len-eq-size (String.◌∷◌ c s) h =
    let (first, rest) = and-eq-true (is_ascii c) (all_chars is_ascii s) h in
    omega (arith, len-cons c s, len_utf8-ascii c first, len-eq-size s rest)

module _ (p q : Char → Bool) (h : (c : Char) → p c ≡ true → q c ≡ true) where
  pub all_chars_mono : (s : String) → all_chars p s ≡ true → all_chars q s ≡ true
  all_chars_mono String.[] k = refl
  all_chars_mono (String.◌∷◌ c s) k = ground (arith, h c, all_chars_mono s)

  pub head_is_mono : (s : String) → head_is p s ≡ true → head_is q s ≡ true
  head_is_mono String.[] k = k
  head_is_mono (String.◌∷◌ c s) k = h c k

  pub last_is_mono : (s : String) → last_is p s ≡ true → last_is q s ≡ true
  last_is_mono String.[] k = k
  last_is_mono (String.◌∷◌ c String.[]) k = h c k
  last_is_mono (String.◌∷◌ c (String.◌∷◌ d s)) k = last_is_mono (String.◌∷◌ d s) k

module _ (p : Char → Bool) where
  pub all_chars-append :
      (s t : String) → all_chars p s ≡ true → all_chars p t ≡ true → all_chars p (s <> t) ≡ true
  all_chars-append String.[] t h k = rw nil-append k
  all_chars-append (String.◌∷◌ c s) t h k = rw cons-append (ground (arith, all_chars-append s t))

  pub all_chars-take : (n : ℕ) (s : String) → all_chars p s ≡ true → all_chars p (take n s) ≡ true
  unfolding take
  all_chars-take zero s h = refl
  all_chars-take (suc n) String.[] h = refl
  all_chars-take (suc n) (String.◌∷◌ c s) h = ground (arith, all_chars-take n s)

  pub all_chars-map :
      (f : Char → Char)
      → ((c : Char) → p (f c) ≡ true)
      → (s : String) → all_chars p (map_chars f s) ≡ true
  unfolding map_chars
  all_chars-map f h String.[] = refl
  all_chars-map f h (String.◌∷◌ c s) = ground (arith, h c, all_chars-map f h s)

  pub all_chars-trim_left :
      (q : Char → Bool) (s : String) → all_chars p s ≡ true → all_chars p (trim_left q s) ≡ true
  unfolding trim_left
  all_chars-trim_left q String.[] h = refl
  all_chars-trim_left q (String.◌∷◌ c s) h = ground (arith, all_chars-trim_left q s)

  pub all_chars-trim_right :
      (q : Char → Bool) (s : String) → all_chars p s ≡ true → all_chars p (trim_right q s) ≡ true
  unfolding trim_right
  all_chars-trim_right q String.[] h = refl
  all_chars-trim_right q (String.◌∷◌ c s) h = ground (arith, all_chars-trim_right q s)

  pub head_is-append : (s t : String) → head_is p s ≡ true → head_is p (s <> t) ≡ true
  head_is-append String.[] t h = cc
  head_is-append (String.◌∷◌ c s) t h = rw cons-append h

  pub head_is-take : (n : ℕ) (s : String) → head_is p s ≡ true → head_is p (take (suc n) s) ≡ true
  unfolding take
  head_is-take n String.[] h = h
  head_is-take n (String.◌∷◌ c s) h = h

  -- What the trimming spares at the head stays.
  pub head_is-trim_right :
      (q : Char → Bool)
      → ((c : Char) → p c ≡ true → q c ≡ false)
      → (s : String) → head_is p s ≡ true
      → head_is p (trim_right q s) ≡ true
  unfolding trim_right
  head_is-trim_right q spare String.[] h = h
  head_is-trim_right q spare (String.◌∷◌ c s) h = ground (arith, spare c)

  pub head_is-trim_left :
      (q : Char → Bool)
      → ((c : Char) → q c ≡ false → p c ≡ true)
      → (s : String) → is_nil (trim_left q s) ≡ false
      → head_is p (trim_left q s) ≡ true
  unfolding trim_left
  head_is-trim_left q keep String.[] h = cc
  head_is-trim_left q keep (String.◌∷◌ c s) h = ground (arith, keep c, head_is-trim_left q keep s)

  pub is_nil-trim_right : (s : String) → is_nil (trim_right p s) ≡ false → is_nil s ≡ false
  unfolding trim_right
  is_nil-trim_right String.[] h = h
  is_nil-trim_right (String.◌∷◌ c s) h = refl

  pub is_nil_of_head : (s : String) → head_is p s ≡ true → is_nil s ≡ false
  is_nil_of_head String.[] h = cc
  is_nil_of_head (String.◌∷◌ c s) h = refl

  pub last_is_of_all : (s : String) → all_chars p s ≡ true → is_nil s ≡ false → last_is p s ≡ true
  last_is_of_all String.[] h k = cc
  last_is_of_all (String.◌∷◌ c String.[]) h k = ground arith
  last_is_of_all (String.◌∷◌ c (String.◌∷◌ d s)) h k =
      last_is_of_all (String.◌∷◌ d s) (ground arith) refl

  last_is-cons : (c : Char) (t : String) → last_is p t ≡ true → last_is p (String.◌∷◌ c t) ≡ true
  last_is-cons c String.[] h = cc
  last_is-cons c (String.◌∷◌ d t) h = h

  pub last_is-append : (s t : String) → last_is p t ≡ true → last_is p (s <> t) ≡ true
  last_is-append String.[] t h = rw nil-append h
  last_is-append (String.◌∷◌ c s) t h =
      rw cons-append (last_is-cons c (s <> t) (last_is-append s t h))

pub size-take-le : (n : ℕ) (s : String) → size (take n s) ≤ n
unfolding take
size-take-le zero s = omega arith
size-take-le (suc n) String.[] = omega arith
size-take-le (suc n) (String.◌∷◌ c s) = omega (arith, size-take-le n s)

pub size-take : (n : ℕ) (s : String) → n ≤ size s → size (take n s) ≡ n
unfolding take
size-take zero s h = refl
size-take (suc n) String.[] h = absurd (omega arith)
size-take (suc n) (String.◌∷◌ c s) h = ap suc (size-take n s (omega arith))

pub size-trim_right-le : (q : Char → Bool) (s : String) → size (trim_right q s) ≤ size s
unfolding trim_right
size-trim_right-le q String.[] = omega arith
size-trim_right-le q (String.◌∷◌ c s) = ground (arith, size-trim_right-le q s)

pub size-encode : (bs : List ℕ) → size (encode bs) ≡ 2 * length bs
unfolding encode
size-encode [] = refl
size-encode (b ∷ bs) = omega (arith, size-encode bs)

pub is_nil_of_size : (s : String) → 0 < size s → is_nil s ≡ false
is_nil_of_size String.[] h = absurd (omega arith)
is_nil_of_size (String.◌∷◌ c s) h = refl
