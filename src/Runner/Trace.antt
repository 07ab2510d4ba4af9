-- ===== src/Runner/Trace.antt =====
-- sync/main.go: what the runner runs of git, and the calls that run nothing.
use git_mirror_operator.Base.{
  failure, ltb, ℕ, String, ◌<>◌, ◌||◌, ◌==◌, Option, none, some, List, [], ◌∷◌, ◌++◌, ◌≡◌, ◌∙◌,
}
use git_mirror_operator.Base.Hoare.{
  Triple, Keeps, Keeps-bind, Keeps-pure, Keeps-raise, Keeps-lift, Keeps-bind-attempt, Triple-if,
}
use git_mirror_operator.Platform.{Platform, Bytes}
use git_mirror_operator.Api.Mirror.{Time}
use git_mirror_operator.Runner.Machine.{Machine, HttpRequest, HttpResponse}
use git_mirror_operator.Runner.Config.{EndpointAuth, Config}
use git_mirror_operator.Runner.Commands.{Command}
use git_mirror_operator.Runner.Credentials.{
  replace_file, copy_private_file, prepare_ssh, prepare_github_app, prepare_endpoint_auth,
  ensure_ask_pass_script, git_auth_env,
}
use git_mirror_operator.Runner.Token.{
  rsa_key, key_of_block, key_of_pem, sign_github_app_jwt, now, token_of, request_token,
  read_rsa_private_key, token_url, token_request, create_github_app_installation_token,
}
use git_mirror_operator.Runner.Prepared.{in_context}

-- A machine that remembers the commands that were run, the last one at the end. Those whose output
-- is read, which change nothing, do not count.
pub record IsTraced (M : Machine) : Type 0 where
  pub ran : M.State → List Command
  pub log : (text : String) (s : M.State) → ran (M.log text s) ≡ ran s
  pub run :
      (args : Command) (env : List String) (r : List Command)
      → Triple
          (λ s. ran s ≡ r)
          (λ _ t. ran t ≡ r ++ args ∷ [])
          (λ t. ran t ≡ r ++ args ∷ [])
          (M.run args env)
  pub output :
      (args : Command) (env : List String) (r : List Command)
      → Keeps (λ s. ran s ≡ r) (M.output args env)
  pub mkdir_all :
      (p : String) (mode : ℕ) (r : List Command) → Keeps (λ s. ran s ≡ r) (M.mkdir_all p mode)
  pub remove : (p : String) (r : List Command) → Keeps (λ s. ran s ≡ r) (M.remove p)
  pub write_file :
      (p : String) (b : Bytes) (mode : ℕ) (r : List Command)
      → Keeps (λ s. ran s ≡ r) (M.write_file p b mode)
  pub chmod : (p : String) (mode : ℕ) (r : List Command) → Keeps (λ s. ran s ≡ r) (M.chmod p mode)
  pub read_file : (p : String) (r : List Command) → Keeps (λ s. ran s ≡ r) (M.read_file p)
  pub clock : (s : M.State) → ran (M.clock s).1 ≡ ran s
  pub post : (request : HttpRequest) (r : List Command) → Keeps (λ s. ran s ≡ r) (M.post request)
  pub sign :
      (key : M.PrivateKey) (digest : Bytes) (r : List Command)
      → Keeps (λ s. ran s ≡ r) (M.sign key digest)
  pub rename : (p q : String) (r : List Command) → Keeps (λ s. ran s ≡ r) (M.rename p q)

module _ (P : Platform) {M : Machine} (tr : IsTraced M) where
  open tr use {ran}

  abbrev pub Ran : List Command → M.State → Type 0
  Ran r s = ran s ≡ r

  pub replace_file-Keeps :
      (dst : String) (b : Bytes) (created final : ℕ) (r : List Command)
      → Keeps (Ran r) (replace_file M dst b created final)
  unfolding replace_file
  replace_file-Keeps dst b created final r =
      let rest =
        Keeps-bind (tr.write_file (dst <> ".tmp") b created r)
          λ _. Keeps-bind (tr.chmod (dst <> ".tmp") final r) λ _. tr.rename (dst <> ".tmp") dst r in
      Keeps-bind-attempt _ (tr.remove (dst <> ".tmp") r) (λ _. rest) (λ _. rest)

  pub copy_private_file-Keeps :
      (src dst : String) (r : List Command) → Keeps (Ran r) (copy_private_file M src dst)
  unfolding copy_private_file
  copy_private_file-Keeps src dst r = Keeps-bind (tr.read_file src r) λ b.
      Keeps-bind (tr.mkdir_all _ _ r)
        λ _. Keeps-bind (replace_file-Keeps dst b _ _ r) λ _. Keeps-pure dst

  rsa_key-Keeps : (key : Option M.PrivateKey) (r : List Command) → Keeps (Ran r) (rsa_key P M key)
  rsa_key-Keeps none r = Keeps-raise _
  rsa_key-Keeps (some key) r = Keeps-pure key

  key_of_block-Keeps :
      (key : Option M.PrivateKey) (block : Bytes) (r : List Command)
      → Keeps (Ran r) (key_of_block P M key block)
  key_of_block-Keeps (some key) block r = Keeps-pure key
  key_of_block-Keeps none block r =
      Keeps-bind (Keeps-lift (M.parse_pkcs8 block)) λ parsed. rsa_key-Keeps (M.as_rsa parsed) r

  pub key_of_pem-Keeps :
      (block : Option (List ℕ)) (r : List Command) → Keeps (Ran r) (key_of_pem P M block)
  key_of_pem-Keeps none r = Keeps-raise _
  key_of_pem-Keeps (some block) r = key_of_block-Keeps (M.parse_pkcs1 block) block r

  signs :
      (app_id : String) (key : M.PrivateKey) (at : Time) (r : List Command)
      → Keeps (Ran r) (sign_github_app_jwt P M app_id key at)
  unfolding sign_github_app_jwt
  signs app_id key at r =
      Keeps-bind (Keeps-lift _) λ payload. Keeps-bind (tr.sign key _ r) λ signature. Keeps-pure _

  reads_clock : (r : List Command) → Keeps (Ran r) (now P M)
  unfolding now
  reads_clock r = record { at = λ s h. tr.clock s ∙ h }

  pub token_of-Keeps :
      (response : HttpResponse) (r : List Command) → Keeps (Ran r) (token_of P M response)
  unfolding token_of
  token_of-Keeps response r =
      Triple-if (ltb response.status_code 200 || ltb 299 response.status_code) (Keeps-raise _) (
        Keeps-bind (Keeps-lift (M.decode_token response.body)) λ token.
          Triple-if (token == "")
            (Keeps-raise (failure "GitHub App token response did not include token"))
            (Keeps-pure token))

  pub request_token-Keeps :
      (auth : EndpointAuth) (r : List Command) → Keeps (Ran r) (request_token P M auth)
  unfolding request_token read_rsa_private_key
  request_token-Keeps auth r =
      Keeps-bind
        (Keeps-bind (tr.read_file _ r) λ contents. key_of_pem-Keeps (M.pem_decode contents) r)
        λ key. Keeps-bind (reads_clock r) λ at.
          Keeps-bind (signs auth.github_app_id key at r) λ jwt.
            Keeps-bind (Keeps-lift (M.check_url (token_url P M auth))) λ _.
              Keeps-bind (tr.post (token_request P M auth jwt) r)
                λ response. token_of-Keeps response r

  pub create_token-Keeps :
      (auth : EndpointAuth) (r : List Command)
      → Keeps (Ran r) (create_github_app_installation_token P M auth)
  unfolding create_github_app_installation_token
  create_token-Keeps auth r = Triple-if (auth.github_app_id == "") (Keeps-raise _) (
      Triple-if (auth.github_app_installation_id == "") (Keeps-raise _) (
        Triple-if (auth.github_app_private_key_path == "") (Keeps-raise _)
          (request_token-Keeps auth r)))

  pub git_auth_env-Keeps :
      (cfg : Config) (auth : EndpointAuth) (r : List Command)
      → Keeps (Ran r) (git_auth_env M cfg auth)
  unfolding git_auth_env ensure_ask_pass_script
  git_auth_env-Keeps cfg auth r = Triple-if (auth.kind == "ssh") (Keeps-pure _) (
      Triple-if (auth.kind == "basic" || auth.kind == "githubApp")
        (Keeps-bind
          (Keeps-bind (tr.mkdir_all _ _ r)
            λ _. Keeps-bind (replace_file-Keeps _ _ _ _ r) λ _. Keeps-pure _)
          λ _. Keeps-pure _)
        (Keeps-raise _))

  pub prepare_endpoint_auth-Keeps :
      (name : String) (auth : EndpointAuth) (dir : String) (r : List Command)
      → Keeps (Ran r) (prepare_endpoint_auth P M name auth dir)
  unfolding prepare_endpoint_auth prepare_ssh prepare_github_app
  prepare_endpoint_auth-Keeps name auth dir r = Triple-if (auth.kind == "") (Keeps-pure auth) (
      Triple-if (auth.kind == "ssh")
        (Triple-if (auth.ssh_key_path == "") (Keeps-raise _)
          (Keeps-bind (in_context _ (copy_private_file-Keeps _ _ r)) λ _. Keeps-pure _))
        (Triple-if (auth.kind == "githubApp")
          (Keeps-bind (in_context _ (create_token-Keeps auth r)) λ _. Keeps-pure _)
          (Triple-if (auth.kind == "basic") (Keeps-pure auth) (Keeps-raise _))))
