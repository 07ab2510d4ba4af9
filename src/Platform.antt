-- ===== src/Platform.antt =====
-- What the operator calls and does not implement: hashing and JSON of Go's library, the Unicode
-- case table, cron schedules (github.com/robfig/cron), and two helpers of the Kubernetes
-- libraries. They are parameters; `IsFaithful` states what is documented of them.
use git_mirror_operator.Base.{
  ℕ, ◌<◌, Char, String, ◌==◌, if◌then◌else◌, ◌≡◌, Option, none, some, List, [], ◌∷◌, Result, length,
  All,
}
use git_mirror_operator.Api.Mirror.{Time, Condition, GitMirror}
use git_mirror_operator.Api.Job.{Job, OwnerReference}

abbrev pub Bytes : Type 0
Bytes = List ℕ

-- `minimalRepositoryPayload`: the two fields of a push payload that are read.
pub record Payload : Type 0 where
  pub full_name : String
  pub after : String

pub record Platform : Type 0 where
  -- `sha256.Sum256`
  pub sha256 : String → Bytes
  -- an HMAC with SHA-256, of a key and a message
  pub hmac : Bytes → Bytes → Bytes
  -- `json.Unmarshal` into a payload; `none` is an error
  pub unmarshal : Bytes → Option Payload
  -- `unicode.ToLower` outside ASCII
  pub fold_lower : Char → Char
  -- `Time.Format(time.RFC3339Nano)`
  pub format_time : Time → String
  -- `cron.ParseStandard` and the schedule's `Next`
  pub parse_schedule : String → Option (Time → Time)
  -- `meta.SetStatusCondition`
  pub set_status_condition : List Condition → Condition → List Condition
  -- `controllerutil.SetControllerReference`: the job's new owner references
  pub controller_reference : GitMirror → Job → Result (List OwnerReference)

-- `meta.FindStatusCondition`
abbrev pub find_condition : String → List Condition → Option Condition
find_condition t [] = none
find_condition t (c ∷ cs) = if c.condition_type == t then some c else find_condition t cs

pub record IsFaithful (P : Platform) : Type 0 where
  pub sha256_length : (s : String) → length (P.sha256 s) ≡ 32
  pub sha256_bytes : (s : String) → All (λ b. b < 256) (P.sha256 s)
  pub hmac_bytes : (k m : Bytes) → All (λ b. b < 256) (P.hmac k m)
  pub find-set_status :
      (cs : List Condition) (c : Condition) (t : String)
      → find_condition t (P.set_status_condition cs c)
        ≡ (if c.condition_type == t then some c else find_condition t cs)
