-- ===== src/Base/Hoare.antt =====
-- Triples for calls that may fail: what holds before, what holds of the value and the state where
-- the call succeeds, and what holds of the state where it fails.
use mathlib.Core.Path.{◌≡◌, refl}
use mathlib.Core.Logic.{◌⊎◌, inl, inr}
use mathlib.Core.Bool.{Bool, true, false}
use git_mirror_operator.Base.Logic.{if◌then◌else◌}
use git_mirror_operator.Base.Effect.{
  Error, Result, ok, err, Outcome, done, fail, Exec, pure, raise, lift, attempt, ◌>>=◌,
}

module _ {S A : Type 0} where
  abbrev pub Ensures : (A → S → Type 0) → (S → Type 0) → Outcome S A → Type 0
  Ensures Q E (done a s) = Q a s
  Ensures Q E (fail e s) = E s

  abbrev pub OnResult : (A → S → Type 0) → (S → Type 0) → Result A → S → Type 0
  OnResult Q E (ok a) s = Q a s
  OnResult Q E (err e) s = E s

pub Ensures-weaken :
    {S A : Type 0} {Q R : A → S → Type 0} {E F : S → Type 0} (o : Outcome S A)
    → ((a : A) (s : S) → Q a s → R a s)
    → ((s : S) → E s → F s)
    → Ensures Q E o
    → Ensures R F o
Ensures-weaken (done a s) to_r to_f h = to_r a s h
Ensures-weaken (fail e s) to_r to_f h = to_f s h

pub record Triple {S A : Type 0} (B : S → Type 0) (Q : A → S → Type 0) (E : S → Type 0)
    (m : Exec S A) : Type 0 where
  pub at : (s : S) → B s → Ensures Q E (m s)

-- A call that keeps an invariant, whether it succeeds or fails.
abbrev pub Keeps : {S A : Type 0} → (S → Type 0) → Exec S A → Type 0
Keeps I m = Triple I (λ _ s. I s) I m

module _ {S A : Type 0} {B : S → Type 0} {Q : A → S → Type 0} {E : S → Type 0} where
  pub Triple-pure : (a : A) → ((s : S) → B s → Q a s) → Triple B Q E (pure a)
  Triple-pure a h = record { at = h }

  pub Triple-raise : (e : Error) → ((s : S) → B s → E s) → Triple B Q E (raise {A = A} e)
  Triple-raise e h = record { at = h }

  pub Triple-if :
      (b : Bool) {m n : Exec S A}
      → Triple B Q E m
      → Triple B Q E n
      → Triple B Q E (if b then m else n)
  Triple-if true tm tn = tm
  Triple-if false tm tn = tn

  pub Triple-test :
      (b : Bool) {m n : Exec S A}
      → (b ≡ true → Triple B Q E m)
      → (b ≡ false → Triple B Q E n)
      → Triple B Q E (if b then m else n)
  Triple-test true tm tn = tm refl
  Triple-test false tm tn = tn refl

  pub Triple-weaken :
      {R : A → S → Type 0} {F : S → Type 0} {m : Exec S A}
      → ((a : A) (s : S) → Q a s → R a s)
      → ((s : S) → E s → F s)
      → Triple B Q E m
      → Triple B R F m
  Triple-weaken {m} to_r to_f tm = record { at = λ s b. Ensures-weaken (m s) to_r to_f (tm.at s b) }

  pub Triple-either :
      {C : S → Type 0} {m : Exec S A}
      → Triple B Q E m
      → Triple C Q E m
      → Triple (λ s. B s ⊎ C s) Q E m
  Triple-either tb tc = record { at = λ s h. elim h [ inl b ↦ tb.at s b | inr c ↦ tc.at s c ] }

  pub Triple-before :
      {B' : S → Type 0} {m : Exec S A} → ((s : S) → B s → B' s) → Triple B' Q E m → Triple B Q E m
  Triple-before h tm = record { at = λ s b. tm.at s (h s b) }

  pub Triple-fails : (e : Error) → ((s : S) → E s) → Triple B Q E (raise {A = A} e)
  Triple-fails e h = record { at = λ s _. h s }

  -- What holds whatever the state.
  pub Triple-given :
      {X : Type 0} {m : Exec S A} → (X → Triple B Q E m) → Triple (λ s. X × B s) Q E m
  Triple-given t = record { at = λ s h. (t h.0).at s h.1 }

pub Ensures-test :
    {S A : Type 0} (Q : A → S → Type 0) (E : S → Type 0) (b : Bool) (m n : Exec S A) (s : S)
    → (b ≡ true → Ensures Q E (m s))
    → (b ≡ false → Ensures Q E (n s))
    → Ensures Q E ((if b then m else n) s)
Ensures-test Q E true m n s tm tn = tm refl
Ensures-test Q E false m n s tm tn = tn refl

Ensures-kept :
    {S A : Type 0} (Q : A → S → Type 0) (E : S → Type 0) (o : Outcome S A)
    → Ensures Q E o
    → Ensures (λ a s. ((t : S) × (o ≡ done a t)) × Q a s) E o
Ensures-kept Q E (done a s) h = ((s, refl), h)
Ensures-kept Q E (fail e s) h = h

-- From a state that is known, the call's result is kept.
pub Triple-kept :
    {S A : Type 0} {B : S → Type 0} {Q : A → S → Type 0} {E : S → Type 0} {m : Exec S A} (s : S)
    → B s
    → Triple B Q E m
    → Ensures (λ a t. ((t' : S) × (m s ≡ done a t')) × Q a t) E (m s)
Triple-kept {Q = Q} {E = E} {m = m} s b tm = Ensures-kept Q E (m s) (tm.at s b)

any_outcome : {S A : Type 0} (o : Outcome S A) → Ensures (λ _ _. Unit {0}) (λ _. Unit {0}) o
any_outcome (done a s) = tt
any_outcome (fail e s) = tt

pub Triple-any :
    {S A : Type 0} {B : S → Type 0} (m : Exec S A) → Triple B (λ _ _. Unit {0}) (λ _. Unit {0}) m
Triple-any m = record { at = λ s _. any_outcome (m s) }

on_result :
    {S A : Type 0} (Q : A → S → Type 0) (E F : S → Type 0) (o : Outcome S A)
    → Ensures Q E o
    → Ensures (OnResult Q E) F (elim o [ done a s' ↦ done (ok a) s' | fail e s' ↦ done (err e) s' ])
on_result Q E F (done a s') k = k
on_result Q E F (fail e s') k = k

bound :
    {S A C : Type 0} (Q : A → S → Type 0) (R : C → S → Type 0) (E : S → Type 0) (f : A → Exec S C)
    (o : Outcome S A)
    → Ensures Q E o
    → ((a : A) → Triple (Q a) R E (f a))
    → Ensures R E (elim o [ done a s' ↦ f a s' | fail e s' ↦ fail e s' ])
bound Q R E f (done a s') h k = (k a).at s' h
bound Q R E f (fail e s') h k = h

module _ {S A : Type 0} {B : S → Type 0} {Q : A → S → Type 0} {E : S → Type 0} where
  pub Triple-attempt :
      {F : S → Type 0} {m : Exec S A} → Triple B Q E m → Triple B (OnResult Q E) F (attempt m)
  Triple-attempt {F} {m} tm = record { at = λ s b. on_result Q E F (m s) (tm.at s b) }

-- A result that is there already: the state stays, and the equation is kept.
pub Triple-lift :
    {S A : Type 0} {B : S → Type 0} (r : Result A) → Triple B (λ a s. (r ≡ ok a) × B s) B (lift r)
Triple-lift (ok a) = record { at = λ s b. (refl, b) }
Triple-lift (err e) = record { at = λ s b. b }

module _ {S A : Type 0} {I : S → Type 0} where
  pub Keeps-pure : (a : A) → Keeps I (pure a)
  Keeps-pure a = Triple-pure a (λ s h. h)

  pub Keeps-raise : (e : Error) → Keeps I (raise {A = A} e)
  Keeps-raise e = Triple-raise e (λ s h. h)

  pub Keeps-lift : (r : Result A) → Keeps I (lift r)
  Keeps-lift (ok a) = record { at = λ s h. h }
  Keeps-lift (err e) = record { at = λ s h. h }

pub Ensures-bind :
    {S A C : Type 0} (Q : A → S → Type 0) {R : C → S → Type 0} {E : S → Type 0} (m : Exec S A)
    {f : A → Exec S C} (s : S)
    → Ensures Q E (m s)
    → ((a : A) → Triple (Q a) R E (f a))
    → Ensures R E ((m >>= f) s)
Ensures-bind Q {R} {E} m {f} s = bound Q R E f (m s)

module _ {S A C : Type 0} {B : S → Type 0} {R : C → S → Type 0} {E : S → Type 0} where
  pub Triple-bind :
      (Q : A → S → Type 0) {m : Exec S A} {f : A → Exec S C}
      → Triple B Q E m
      → ((a : A) → Triple (Q a) R E (f a))
      → Triple B R E (m >>= f)
  Triple-bind Q {m} {f} tm tf = record { at = λ s b. bound Q R E f (m s) (tm.at s b) tf }

module _ {S A C : Type 0} {I : S → Type 0} where
  pub Keeps-bind :
      {m : Exec S A} {f : A → Exec S C} → Keeps I m → ((a : A) → Keeps I (f a)) → Keeps I (m >>= f)
  Keeps-bind tm tf = Triple-bind (λ _ s. I s) tm tf

  -- A call whose error is looked at.
  pub Keeps-bind-attempt :
      (f : Result A → Exec S C) {m : Exec S A}
      → Keeps I m
      → ((a : A) → Keeps I (f (ok a)))
      → ((e : Error) → Keeps I (f (err e)))
      → Keeps I (attempt m >>= f)
  Keeps-bind-attempt f tm tok terr =
      Triple-bind (OnResult (λ _ s. I s) I) (Triple-attempt tm)
        (elim [ ok a ↦ tok a | err e ↦ terr e ])
