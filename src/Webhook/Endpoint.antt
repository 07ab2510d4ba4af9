-- ===== src/Webhook/Endpoint.antt =====
-- internal/webhook/server.go: `Server` and its constructors.
use git_mirror_operator.Base.{String, Bool, false, Option, none, some, List, Exec, ◌≡◌, refl}
use git_mirror_operator.Api.Mirror.{Key}
use git_mirror_operator.Platform.{Platform, Bytes}
use git_mirror_operator.Cluster.{Cluster}
use git_mirror_operator.Webhook.Server.{Request, Response, handle_github}

-- `client.Reader`, as far as it reads Secrets.
abbrev pub Reader : Cluster → Type 0
Reader c = Key → Exec c.State (List (String × Bytes))

-- `now` is the client's clock.
pub record Server : Type 1 where
  pub client : Cluster
  pub secret_reader : Reader client
  pub default_sync_image : String
  pub has_scheme : Bool

abbrev or_client : (c : Cluster) → Option (Reader c) → Reader c
or_client c none = c.get_secret
or_client c (some reader) = reader

-- A reader that is nil is replaced by the client.
unfoldable pub new_server_with_readers : (c : Cluster) → Option (Reader c) → String → Bool → Server
new_server_with_readers c reader image has_scheme = record {
  client = c;
  secret_reader = or_client c reader;
  default_sync_image = image;
  has_scheme = has_scheme;
}

unfoldable pub new_server_with_scheme : Cluster → String → Bool → Server
new_server_with_scheme c image has_scheme =
    new_server_with_readers c (some c.get_secret) image has_scheme

unfoldable pub new_server : Cluster → String → Server
new_server c image = new_server_with_readers c (some c.get_secret) image false

abbrev pub client : Server → Cluster
client s = s.client

abbrev pub object_key : String → String → Key
object_key namespace name = record { namespace = namespace; name = name }

-- The calls of a server: Secrets are read with its reader, all else is the client's.
unfoldable pub cluster_of : Server → Cluster
cluster_of s = record {
  State = s.client.State;
  clock = s.client.clock;
  wall_clock = s.client.wall_clock;
  get_mirror = s.client.get_mirror;
  list_mirrors = s.client.list_mirrors;
  patch_mirror_status = s.client.patch_mirror_status;
  list_jobs = s.client.list_jobs;
  get_job = s.client.get_job;
  create_job = s.client.create_job;
  get_lease = s.client.get_lease;
  create_lease = s.client.create_lease;
  update_lease = s.client.update_lease;
  delete_lease = s.client.delete_lease;
  get_secret = s.secret_reader;
  retry_on_conflict = s.client.retry_on_conflict;
}

-- `(*Server).HandleGitHub`
unfoldable pub serve :
    Platform → (s : Server) → Request → (cluster_of s).State → Response × (cluster_of s).State
serve P s = handle_github P (cluster_of s)

-- A server that is given no reader of its own makes all calls with its client.
pub cluster_of-new_server : (c : Cluster) (image : String) → cluster_of (new_server c image) ≡ c
unfolding cluster_of new_server new_server_with_readers
cluster_of-new_server c image = refl

pub cluster_of-new_server_with_readers :
    (c : Cluster) (image : String) (has_scheme : Bool)
    → cluster_of (new_server_with_readers c none image has_scheme) ≡ c
unfolding cluster_of new_server_with_readers
cluster_of-new_server_with_readers c image has_scheme = refl
