-- ===== src/Webhook/Signature/Laws.antt =====
-- internal/github/payload.go: which signatures `VerifySignature256` accepts.
use text.Mathlib.TextLemmas.{cons-append, nil-append}
use mathlib.Core.Logic.{◌↔◌}
use git_mirror_operator.Base.{
  String, ◌<>◌, true, false, Option, none, some, [], ◌∷◌, ◌≡◌, refl, arith, Option-cases, inl, inr,
}
use git_mirror_operator.Text.Hex
use git_mirror_operator.Platform.{Platform, IsFaithful, Bytes}
use git_mirror_operator.Webhook.Signature.{
  after_prefix, is_empty, equal_bytes, matches_mac, verify_signature_256,
}

equal_bytes_iff : (a b : Bytes) → (equal_bytes a b ≡ true) ↔ (a ≡ b)
unfolding equal_bytes
equal_bytes_iff [] [] = (λ h. refl, λ h. refl)
equal_bytes_iff [] (y ∷ ys) = (λ h. cc, λ h. cc)
equal_bytes_iff (x ∷ xs) [] = (λ h. cc, λ h. cc)
equal_bytes_iff (x ∷ xs) (y ∷ ys) = ground (arith, equal_bytes_iff xs ys)

after_prefix-append : (p s : String) → after_prefix p (p <> s) ≡ some s
unfolding after_prefix
after_prefix-append String.[] s = rw nil-append
after_prefix-append (String.◌∷◌ c p) s = rw cons-append (ground (arith, after_prefix-append p s))

module _ (P : Platform) (body : Bytes) (secret : Bytes) where
  -- Some digits follow the prefix, and they spell the MAC.
  abbrev Spelled : Option String → Type 0
  Spelled rest =
      (digits : String) × (rest ≡ some digits) × (Hex.decode digits ≡ some (P.hmac secret body))

  decoded :
      (d : String)
      → matches_mac P body secret (some d) ≡ true
      → Hex.decode d ≡ some (P.hmac secret body)
  unfolding matches_mac
  decoded d h = elim (Option-cases (Hex.decode d)) [
    | inl e ↦ ground arith
    | inr (got, e) ↦ ground (arith, equal_bytes_iff got (P.hmac secret body))
  ]

  matches :
      (d : String)
      → Hex.decode d ≡ some (P.hmac secret body)
      → matches_mac P body secret (some d) ≡ true
  unfolding matches_mac
  matches d e =
      rw (matches_mac, e) ((equal_bytes_iff (P.hmac secret body) (P.hmac secret body)).1 refl)

  matches_mac_iff : (rest : Option String) → (matches_mac P body secret rest ≡ true) ↔ Spelled rest
  unfolding matches_mac
  matches_mac_iff none = (λ h. absurd (ground arith), λ (d, e, _). absurd (ground arith))
  matches_mac_iff (some d) = (λ h. (d, refl, decoded d h), λ (d', e, k). matches d cc)

module _ (P : Platform) (body : Bytes) (header : String) (secret : Bytes) where
  -- A header is accepted exactly if the secret is not empty and the header is "sha256=" followed
  -- by digits that decode as hexadecimal to the body's MAC under the secret.
  pub verify_signature_256_iff : (verify_signature_256 P body header secret ≡ true) ↔ (
      (is_empty secret ≡ false)
      × ((digits : String) × (after_prefix "sha256=" header ≡ some digits)
          × (Hex.decode digits ≡ some (P.hmac secret body))))
  unfolding verify_signature_256
  verify_signature_256_iff =
      ground (arith, matches_mac_iff P body secret (after_prefix "sha256=" header))

module _ (P : Platform) (F : IsFaithful P) (body : Bytes) (secret : Bytes) where
  -- Under a secret that is not empty, the header "sha256=" and the lower-case hexadecimal digits
  -- of the body's MAC is accepted.
  pub verify_signature_256-encode :
      is_empty secret ≡ false
      → verify_signature_256 P body ("sha256=" <> Hex.encode (P.hmac secret body)) secret ≡ true
  verify_signature_256-encode h =
      (verify_signature_256_iff P body ("sha256=" <> Hex.encode (P.hmac secret body)) secret).1 (
        h,
        (
          Hex.encode (P.hmac secret body),
          after_prefix-append "sha256=" (Hex.encode (P.hmac secret body)),
          Hex.decode-encode (P.hmac secret body) (F.hmac_bytes secret body),
        ),
      )
