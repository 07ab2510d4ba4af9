-- ===== src/Runner/Machine.antt =====
-- What sync/main.go calls: the environment, files, processes, the clock and HTTP, and of Go's
-- library URLs, PEM, X.509, RSA and JSON. All are parameters.
use git_mirror_operator.Base.{ℕ, String, Bool, Option, List, Result, Exec}
use git_mirror_operator.Text.Decimal.{ℤ}
use git_mirror_operator.Api.Mirror.{Time}
use git_mirror_operator.Platform.{Bytes}

-- What is read of `url.Parse`: the scheme, whether there is user information, and the text with the
-- user information replaced by `<redacted>`.
pub record Url : Type 0 where
  pub scheme : String
  pub has_user : Bool
  pub redacted : String

-- A POST with an empty body.
pub record HttpRequest : Type 0 where
  pub url : String
  pub headers : List (String × String)

pub record HttpResponse : Type 0 where
  pub status_code : ℕ
  pub status : String
  pub body : Bytes

-- The claims of a JSON web token, in seconds since 1970.
pub record Claims : Type 0 where
  pub iat : ℤ
  pub exp : ℤ
  pub iss : String

pub record Machine : Type 1 where
  pub State : Type 0
  -- An RSA key, and a key that `x509.ParsePKCS8PrivateKey` returns.
  pub PrivateKey : Type 0
  pub AnyKey : Type 0
  -- `os.Environ`, which nothing here changes
  pub environment : List (String × String)
  -- `os.TempDir`
  pub temp_dir : String
  pub read_file : String → Exec State Bytes
  pub mkdir_all : String → ℕ → Exec State (Unit {0})
  pub remove : String → Exec State (Unit {0})
  pub write_file : String → Bytes → ℕ → Exec State (Unit {0})
  pub chmod : String → ℕ → Exec State (Unit {0})
  pub rename : String → String → Exec State (Unit {0})
  -- `exec.Command(args...)` with additions to the environment: its success, and its output
  pub run : List String → List String → Exec State (Unit {0})
  pub output : List String → List String → Exec State String
  -- `log.Printf`
  pub log : String → State → State
  pub clock : State → Time × State
  -- `http.Client.Do` under the deadline
  pub post : HttpRequest → Exec State HttpResponse
  -- `http.NewRequestWithContext` accepts the URL
  pub check_url : String → Result (Unit {0})
  pub parse_url : String → Option Url
  pub path_escape : String → String
  -- the first PEM block's bytes
  pub pem_decode : Bytes → Option Bytes
  pub parse_pkcs1 : Bytes → Option PrivateKey
  pub parse_pkcs8 : Bytes → Result AnyKey
  -- the type assertion to `*rsa.PrivateKey`
  pub as_rsa : AnyKey → Option PrivateKey
  pub marshal_claims : Claims → Result Bytes
  -- `rsa.SignPKCS1v15` of a SHA-256 digest
  pub sign : PrivateKey → Bytes → Exec State Bytes
  -- the `token` of a JSON response
  pub decode_token : Bytes → Result String
