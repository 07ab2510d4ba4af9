-- ===== src/Manager/Shared.antt =====
-- cmd/main.go: the two flags of the address of GitHub's webhooks.
use git_mirror_operator.Base.{
  String, Bool, true, false, if◌then◌else◌, List, [], ◌∷◌, ◌++◌, All, ◌≡◌, ◌≢◌, ◌⊎◌, ◌∙◌, inl, inr,
  refl, ap, arith, ne→eq_false,
}
use git_mirror_operator.Manager.Flags.{Flags, Assignment, text, truth, parsed, assign}

-- The assignment is to another variable.
abbrev pub IsOther : Assignment → Type 0
IsOther (text name value) = (name ≢ "github-webhook-bind-address") × (name ≢ "webhook-bind-address")
IsOther (truth name value) = Unit

assign-shared :
    (name addr : String) (f : Flags)
    → (name ≡ "github-webhook-bind-address") ⊎ (name ≡ "webhook-bind-address")
    → (assign (text name addr) f).github_webhook_addr ≡ addr
unfolding assign
assign-shared name addr f (inl e) = rw e refl
assign-shared name addr f (inr e) = rw e refl

addr-if :
    (b : Bool) (f g : Flags)
    → (if b then f else g).github_webhook_addr
      ≡ (if b then f.github_webhook_addr else g.github_webhook_addr)
addr-if true f g = refl
addr-if false f g = refl

if_same : (b : Bool) (addr : String) → (if b then addr else addr) ≡ addr
if_same true addr = refl
if_same false addr = refl

assign-IsOther :
    (a : Assignment) (f : Flags)
    → IsOther a
    → (assign a f).github_webhook_addr ≡ f.github_webhook_addr
unfolding assign
assign-IsOther (text name value) f (no_new, no_old) =
    rw
      (
        ne→eq_false name "github-webhook-bind-address" no_new,
        ne→eq_false name "webhook-bind-address" no_old,
      )
      (simp (addr-if, if_same))
assign-IsOther (truth name value) f h = ground arith

parsed-IsOther :
    (rest : List Assignment) (f : Flags)
    → All IsOther rest
    → (parsed rest f).github_webhook_addr ≡ f.github_webhook_addr
unfolding parsed
parsed-IsOther [] f h = refl
parsed-IsOther (a ∷ rest) f (other, h) =
    parsed-IsOther rest (assign a f) h ∙ assign-IsOther a f other

parsed-append :
    (xs ys : List Assignment) (f : Flags) → parsed (xs ++ ys) f ≡ parsed ys (parsed xs f)
unfolding parsed
parsed-append [] ys f = refl
parsed-append (a ∷ xs) ys f = parsed-append xs ys (assign a f)

-- The two names of the flag for the address of GitHub's webhooks, the deprecated one included, are
-- one flag: the last of them on the command line tells the address, whatever the defaults.
pub parsed-shared :
    (before after : List Assignment) (f : Flags) (name addr : String)
    → (name ≡ "github-webhook-bind-address") ⊎ (name ≡ "webhook-bind-address")
    → All IsOther after
    → (parsed (before ++ text name addr ∷ after) f).github_webhook_addr ≡ addr
unfolding parsed
parsed-shared before after f name addr shared others =
    ap (λ (g : Flags). g.github_webhook_addr) (parsed-append before (text name addr ∷ after) f)
    ∙ parsed-IsOther after (assign (text name addr) (parsed before f)) others
    ∙ assign-shared name addr (parsed before f) shared
