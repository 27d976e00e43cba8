-- ===== src/Machine/Outcomes.antt =====
-- Computations of the machine by the outcomes of their parts.
use xlibfabric.Base.{◌≡◌, refl, ap, ◌∙◌, Option, none, some}
use xlibfabric.Machine.{State, M, ◌>>=◌}

-- A bind by the outcome of its first computation.
abbrev pub bound : {A B : Type 0} → (A → M B) → Option (A × State) → Option (B × State)
bound f none = none
bound f (some (a, t)) = f a t

pub bound-none :
    {A B : Type 0} (f : A → M B) (x : Option (A × State))
    → ((a : A) (t : State) → f a t ≡ none)
    → bound f x ≡ none
bound-none f none stuck = refl
bound-none f (some (a, t)) stuck = stuck a t

pub >>=_lem : {A B : Type 0} (m : M A) (f : A → M B) (s : State) → (m >>= f) s ≡ bound f (m s)
>>=_lem m f s = elim (m s) as (λ x. elim x [ none ↦ none | some (a, t) ↦ f a t ] ≡ bound f x) [
  | none ↦ refl
  | some (a, t) ↦ refl
]

pub bind-none :
    {A B : Type 0} (m : M A) (f : A → M B) (s : State)
    → ((a : A) (t : State) → f a t ≡ none)
    → (m >>= f) s ≡ none
bind-none m f s stuck = >>=_lem m f s ∙ bound-none f (m s) stuck

pub bind-stuck :
    {A B : Type 0} (m : M A) (f : A → M B) (s : State) → m s ≡ none → (m >>= f) s ≡ none
bind-stuck m f s stuck = >>=_lem m f s ∙ ap (bound f) stuck
