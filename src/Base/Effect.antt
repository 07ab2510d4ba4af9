-- ===== src/Base/Effect.antt =====
-- Calls that may fail and that change a state: the state comes back on both paths.
use mathlib.Core.Path.{◌≡◌, refl, ap}
use mathlib.Core.Logic.{◌⊎◌, inl, inr}
use Prim.Native.String.{String}
use mathlib.Core.Bool.{Bool, true, false}

-- The errors that the code tells apart (`apierrors.IsNotFound` and the like) and those with a
-- message of their own. `quoted` holds the text before a `%q` and the value printed by it,
-- `wrapped` the text before a `: %w` and the error that it wraps.
pub data Error : Type 0 where
  not_found already_exists conflict : Error
  failure : String → Error
  quoted : String → String → Error
  wrapped : String → Error → Error

pub data Result {ℓ} (A : Type ℓ) : Type ℓ where
  ok : A → Result A
  err : Error → Result A

pub Result-cases {ℓ} :
    {A : Type ℓ} (r : Result A) → ((e : Error) × (r ≡ err e)) ⊎ ((a : A) × (r ≡ ok a))
Result-cases (ok a) = inr (a, refl)
Result-cases (err e) = inl (e, refl)

pub data Outcome {ℓ} (S A : Type ℓ) : Type ℓ where
  done : A → S → Outcome S A
  fail : Error → S → Outcome S A

abbrev pub Exec {ℓ} : Type ℓ → Type ℓ → Type ℓ
Exec S A = S → Outcome S A

module _ {ℓ} {S A : Type ℓ} where
  abbrev pub pure : A → Exec S A
  pure a s = done a s

  abbrev pub raise : Error → Exec S A
  raise e s = fail e s

  abbrev pub lift : Result A → Exec S A
  lift (ok a) s = done a s
  lift (err e) s = fail e s

  -- The state after a call, whatever its result.
  abbrev pub final : Outcome S A → S
  final (done a s) = s
  final (fail e s) = s

  -- A call with its error handed to the caller as a value.
  abbrev pub attempt : Exec S A → Exec S (Result A)
  attempt m s = elim (m s) [ done a s' ↦ done (ok a) s' | fail e s' ↦ done (err e) s' ]

module _ {ℓ} {S A B : Type ℓ} where
  infixl 10 ◌>>=◌ ◌>>◌
  abbrev pub ◌>>=◌ : Exec S A → (A → Exec S B) → Exec S B
  ◌>>=◌ m f s = elim (m s) [ done a s' ↦ f a s' | fail e s' ↦ fail e s' ]

  abbrev pub ◌>>◌ : Exec S A → Exec S B → Exec S B
  m >> n = m >>= λ _. n

-- What a sequence does where its first call, of the outcome `o`, succeeds.
module _ {ℓ} {S A B : Type ℓ} {o : Outcome S A} {s : S} {a : A} where
  pub done-bind :
      (f : A → Exec S B)
      → o ≡ done a s
      → ◌≡◌ {A = Outcome S B} (elim o [ done b t ↦ f b t | fail x t ↦ fail x t ]) (f a s)
  done-bind f e = ap (elim [ done b t ↦ f b t | fail x t ↦ fail x t ]) e

  pub done-bind_attempt :
      (f : Result A → Exec S B)
      → o ≡ done a s
      → ◌≡◌ {A = Outcome S B} ((attempt (λ _. o) >>= f) s) (f (ok a) s)
  done-bind_attempt f e = ap (λ r. (attempt (λ _. r) >>= f) s) e

abbrev pub is_not_found : Error → Bool
is_not_found not_found = true
is_not_found (wrapped _ e) = is_not_found e
is_not_found _ = false

abbrev pub is_already_exists : Error → Bool
is_already_exists already_exists = true
is_already_exists (wrapped _ e) = is_already_exists e
is_already_exists _ = false

abbrev pub is_conflict : Error → Bool
is_conflict conflict = true
is_conflict (wrapped _ e) = is_conflict e
is_conflict _ = false
