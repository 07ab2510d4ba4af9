-- ===== src/Runner/Token.antt =====
-- sync/main.go: the token of a GitHub App's installation.
use git_mirror_operator.Base.{
  ℕ, ◌+◌, ◌-◌, ◌*◌, ◌/◌, String, ◌<>◌, ◌||◌, ◌==◌, if◌then◌else◌, ltb, Option, none, some, List, [],
  ◌∷◌, failure, done, Exec, pure, raise, lift, ◌>>=◌, ◌>>◌,
}
use git_mirror_operator.Text.{trim_right, in_range}
use git_mirror_operator.Text.Base64
use git_mirror_operator.Text.Decimal.{ℤ, difference}
use git_mirror_operator.Api.Mirror.{Time}
use git_mirror_operator.Platform.{Platform}
use git_mirror_operator.Runner.Machine.{Machine, Claims, HttpRequest, HttpResponse}
use git_mirror_operator.Runner.Config.{EndpointAuth, default_github_api_url}

abbrev pub nanoseconds : ℕ
nanoseconds = 1_000_000_000

-- `Unix`: seconds since 1970, which the zero `time.Time` precedes by 62135596800.
abbrev pub unix_seconds : Time → ℤ
unix_seconds t = difference (t / nanoseconds) 62_135_596_800

-- The zero time stands for all earlier ones.
unfoldable pub claims_at : String → Time → Claims
claims_at app_id now = record {
  iat = unix_seconds (now - 60 * nanoseconds);
  exp = unix_seconds (now + 540 * nanoseconds);
  iss = app_id;
}

abbrev pub jwt_header : String
jwt_header = "{\"alg\":\"RS256\",\"typ\":\"JWT\"}"

module _ (P : Platform) (M : Machine) where
  unfoldable pub sign_github_app_jwt : String → M.PrivateKey → Time → Exec M.State String
  unfolding Base64.encode Base64.bytes_of
  sign_github_app_jwt app_id key now = do
    payload ← lift (M.marshal_claims (claims_at app_id now))
    let signing_input = Base64.encode (Base64.bytes_of jwt_header) <> "." <> Base64.encode payload
    signature ← M.sign key (P.sha256 signing_input)
    pure (signing_input <> "." <> Base64.encode signature)

  abbrev pub rsa_key : Option M.PrivateKey → Exec M.State M.PrivateKey
  rsa_key none = raise (failure "GitHub App private key must be RSA")
  rsa_key (some key) = pure key

  abbrev pub key_of_block : Option M.PrivateKey → List ℕ → Exec M.State M.PrivateKey
  key_of_block (some key) block = pure key
  key_of_block none block = lift (M.parse_pkcs8 block) >>= λ parsed. rsa_key (M.as_rsa parsed)

  abbrev pub key_of_pem : Option (List ℕ) → Exec M.State M.PrivateKey
  key_of_pem none = raise (failure "GitHub App private key must be PEM encoded")
  key_of_pem (some block) = key_of_block (M.parse_pkcs1 block) block

  unfoldable pub read_rsa_private_key : String → Exec M.State M.PrivateKey
  read_rsa_private_key path = M.read_file path >>= λ contents. key_of_pem (M.pem_decode contents)

  unfoldable pub now : Exec M.State Time
  now s = let (t, s') = M.clock s in done t s'

  unfoldable pub token_url : EndpointAuth → String
  unfolding trim_right
  token_url auth =
      let api_url =
        if auth.github_app_api_url == "" then default_github_api_url else auth.github_app_api_url in
      trim_right (in_range "/" "/") api_url
      <> "/app/installations/"
      <> M.path_escape auth.github_app_installation_id
      <> "/access_tokens"

  unfoldable pub token_request : EndpointAuth → String → HttpRequest
  token_request auth jwt = record {
    url = token_url auth;
    headers =
        ("Accept", "application/vnd.github+json")
        ∷ ("Authorization", "Bearer " <> jwt)
        ∷ ("X-GitHub-Api-Version", "2022-11-28")
        ∷ [];
  }

  -- What is made of the response.
  unfoldable pub token_of : HttpResponse → Exec M.State String
  token_of response =
      if ltb response.status_code 200 || ltb 299 response.status_code
      then raise (failure ("GitHub App token request failed with status " <> response.status))
      else lift (M.decode_token response.body) >>= λ token.
          if token == ""
          then raise (failure "GitHub App token response did not include token")
          else pure token

  -- The exchange, once the settings are there.
  unfoldable pub request_token : EndpointAuth → Exec M.State String
  request_token auth = do
    key ← read_rsa_private_key auth.github_app_private_key_path
    at ← now
    jwt ← sign_github_app_jwt auth.github_app_id key at
    lift (M.check_url (token_url auth))
    response ← M.post (token_request auth jwt)
    token_of response

  unfoldable pub create_github_app_installation_token : EndpointAuth → Exec M.State String
  create_github_app_installation_token auth =
      if auth.github_app_id == ""
      then raise (failure "GitHub App ID is required")
      else if auth.github_app_installation_id == ""
      then raise (failure "GitHub App installation ID is required")
      else if auth.github_app_private_key_path == ""
      then raise (failure "GitHub App private key path is required")
      else request_token auth
