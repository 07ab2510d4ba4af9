-- ===== src/Runner/Claims.antt =====
-- sync/main.go: the times in the token that `signGitHubAppJWT` signs.
use git_mirror_operator.Base.{ℕ, ◌+◌, ◌-◌, ◌*◌, ◌/◌, ◌≤◌, String, ◌≡◌, refl, ap, ◌∙◌, arith}
use git_mirror_operator.Text.Decimal.{pos, difference}
use git_mirror_operator.Api.Mirror.{Time}
use git_mirror_operator.Runner.Token.{nanoseconds, claims_at}

difference-le : (a b : ℕ) → b ≤ a → difference a b ≡ pos (a - b)
difference-le a b h = ground arith

abbrev seconds : Time → ℕ
seconds t = t / nanoseconds

abbrev epoch : ℕ
epoch = 62_135_596_800

-- The second since 1970 that a time lies in.
abbrev second : Time → ℕ
second now = seconds now - epoch

-- The claims of a token that is made a minute or more after the beginning of 1970 name the app;
-- they hold from 60 seconds before its making to 540 seconds after it, so for ten minutes.
pub claims_at-window :
    (app_id : String) (now : Time)
    → 62_135_596_860 * 1_000_000_000 ≤ now
    → ((claims_at app_id now).iat ≡ pos (second now - 60))
      × (60 ≤ second now)
      × ((claims_at app_id now).exp ≡ pos (second now + 540))
      × ((claims_at app_id now).iss ≡ app_id)
unfolding claims_at
claims_at-window app_id now h = (
  difference-le (seconds (now - 60 * nanoseconds)) epoch (omega arith) ∙ ap pos (omega arith),
  omega arith,
  difference-le (seconds (now + 540 * nanoseconds)) epoch (omega arith) ∙ ap pos (omega arith),
  refl,
)
