-- ===== src/Manager/Serving.antt =====
-- cmd/main.go: `httpServer`.
use git_mirror_operator.Base.{ℕ, ◌*◌, String, Bool, true, false, Error, Result, ok, err, List}
use git_mirror_operator.Manager.Start.{Route}

abbrev pub second : ℕ
second = 1_000_000_000

abbrev pub webhook_read_header_timeout : ℕ
webhook_read_header_timeout = 5 * second

abbrev pub webhook_read_timeout : ℕ
webhook_read_timeout = 15 * second

abbrev pub webhook_write_timeout : ℕ
webhook_write_timeout = 15 * second

abbrev pub webhook_idle_timeout : ℕ
webhook_idle_timeout = 60 * second

pub record HttpServer : Type 0 where
  pub addr : String
  pub handler : List (String × Route)

-- `http.Server`, with its timeouts in nanoseconds.
pub record Server : Type 0 where
  pub addr : String
  pub handler : List (String × Route)
  pub read_header_timeout : ℕ
  pub read_timeout : ℕ
  pub write_timeout : ℕ
  pub idle_timeout : ℕ

unfoldable pub new_server : HttpServer → Server
new_server s = record {
  addr = s.addr;
  handler = s.handler;
  read_header_timeout = webhook_read_header_timeout;
  read_timeout = webhook_read_timeout;
  write_timeout = webhook_write_timeout;
  idle_timeout = webhook_idle_timeout;
}

-- What the `select` finds ready first: the context, or the error with which serving ended, where
-- the flag tells `http.ErrServerClosed`.
pub data Ready : Type 0 where
  context_done : Ready
  served : (closed : Bool) → Error → Ready

-- The server, what `Shutdown` answers, and what is ready first.
unfoldable pub start :
    (Server → Result (Unit {0})) → (Server → Ready) → HttpServer → Result (Unit {0})
unfolding new_server
start shutdown serve s = elim (serve (new_server s)) [
  | context_done ↦ shutdown (new_server s)
  | served true e ↦ ok tt
  | served false e ↦ err e
]
