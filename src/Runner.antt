-- ===== src/Runner.antt =====
-- sync/main.go: the runner of a sync Job. `Runner.Machine` is what it calls of the operating system
-- and of libraries, `Runner.Config` its configuration, `Runner.Commands` the git commands,
-- `Runner.Credentials` and `Runner.Token` the credentials, and `Runner.Main` the run itself.
pub mod Machine
pub mod Config
pub mod Commands
pub mod Token
pub mod Credentials
pub mod Main
pub mod Handoff
pub mod Files
pub mod Atomic
pub mod Routing
pub mod Usable
pub mod Prepared
pub mod Trace
pub mod Commanded
pub mod Execution
pub mod Reliable
pub mod Claims
pub mod Skips
