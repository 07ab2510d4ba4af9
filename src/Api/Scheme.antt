-- ===== src/Api/Scheme.antt =====
-- api/v1alpha1/groupversion_info.go, the `init` of api/v1alpha1/gitmirror_types.go and that of
-- cmd/main.go: the kinds that the operator's scheme knows.
use git_mirror_operator.Base.{String, List, [], ◌∷◌, ◌++◌, map}

pub record GroupVersion : Type 0 where
  pub group : String
  pub version : String

pub record GroupVersionKind : Type 0 where
  pub group_version : GroupVersion
  pub kind : String

abbrev pub group_version : GroupVersion
group_version = record { group = "mirror.shamubernetes.com"; version = "v1alpha1" }

-- `SchemeBuilder` after `Register(&GitMirror{}, &GitMirrorList{})`
abbrev pub scheme_builder : List String
scheme_builder = "GitMirror" ∷ "GitMirrorList" ∷ []

-- A scheme is the list of its kinds, the last that was registered first.
abbrev pub Scheme : Type 0
Scheme = List GroupVersionKind

unfoldable pub add_to_scheme : Scheme → Scheme
add_to_scheme scheme =
    map (λ kind. record { group_version = group_version; kind = kind }) scheme_builder ++ scheme

-- The scheme that `main` starts with, from Kubernetes' own kinds.
unfoldable pub initial_scheme : (Scheme → Scheme) → Scheme
initial_scheme add_client_go = add_to_scheme (add_client_go [])
