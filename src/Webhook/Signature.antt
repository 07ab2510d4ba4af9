-- ===== src/Webhook/Signature.antt =====
-- internal/github/payload.go: the payload's fields and the check of `X-Hub-Signature-256`.
pub mod Laws
use Prim.Native.String
use git_mirror_operator.Base.{
  ℕ, code, String, Bool, true, false, not, ◌&&◌, ◌==◌, ◌=ℕ◌, if◌then◌else◌, Option, none, some,
  List, [], ◌∷◌, Result, ok, err, failure,
}
use git_mirror_operator.Text.Hex
use git_mirror_operator.Platform.{Platform, Payload, Bytes}

abbrev full_name_or_error : String → Result String
full_name_or_error name =
    if name == "" then err (failure "payload missing repository.full_name") else ok name

-- `strings.HasPrefix` and `strings.TrimPrefix` in one: what follows the prefix, if it is there.
unfoldable pub after_prefix : String → String → Option String
after_prefix String.[] s = some s
after_prefix (String.◌∷◌ c p) String.[] = none
after_prefix (String.◌∷◌ c p) (String.◌∷◌ d s) =
    let rest = after_prefix p s in if code c =ℕ code d then rest else none

abbrev pub is_empty : Bytes → Bool
is_empty [] = true
is_empty (b ∷ bs) = false

-- `hmac.Equal`
unfoldable pub equal_bytes : Bytes → Bytes → Bool
equal_bytes [] [] = true
equal_bytes (a ∷ as') (b ∷ bs) = a =ℕ b && equal_bytes as' bs
equal_bytes [] (b ∷ bs) = false
equal_bytes (a ∷ as') [] = false

module _ (P : Platform) where
  unfoldable pub extract_repository_full_name : Bytes → Result String
  extract_repository_full_name body = elim (P.unmarshal body) [
    | none ↦ err (failure "invalid payload")
    | some payload ↦ full_name_or_error payload.full_name
  ]

  unfoldable pub extract_after_revision : Bytes → String
  extract_after_revision body = elim (P.unmarshal body) [ none ↦ "" | some payload ↦ payload.after ]

  -- The signature's digits against the MAC.
  unfoldable pub matches_mac : Bytes → Bytes → Option String → Bool
  matches_mac body secret none = false
  matches_mac body secret (some digits) = elim (Hex.decode digits) [
    | none ↦ false
    | some got ↦ equal_bytes got (P.hmac secret body)
  ]

  unfoldable pub verify_signature_256 : Bytes → String → Bytes → Bool
  verify_signature_256 body header secret =
      not (is_empty secret) && matches_mac body secret (after_prefix "sha256=" header)
