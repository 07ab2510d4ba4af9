-- ===== src/Controller/Setup.antt =====
-- internal/controller/gitmirror_controller.go: `SetupWithManager`.
use git_mirror_operator.Base.{String, List, [], ◌∷◌, Exec}

-- What the builder of a controller is told: the kind that is reconciled, the kinds whose objects
-- lead to their owner, and the controller's name.
pub record ControllerSetup : Type 0 where
  pub for_kind : String
  pub owns : List String
  pub named : String

abbrev pub controller_setup : ControllerSetup
controller_setup = record { for_kind = "GitMirror"; owns = "Job" ∷ []; named = "gitmirror" }

-- `complete` is that of controller-runtime's builder.
unfoldable pub setup_with_manager :
    {S : Type 0} (complete : ControllerSetup → Exec S (Unit {0})) → Exec S (Unit {0})
setup_with_manager complete = complete controller_setup
