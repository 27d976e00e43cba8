-- ===== src/Transfer/Sequence.antt =====
-- A program that makes a sequence of data transfer calls, against the methods of the endpoint.
use xlibfabric.Base.{ℕ, ◌≡◌, refl, sym, ap, ◌∙◌, Option, none, some, List, [], ◌∷◌, ℤ}
use xlibfabric.Machine.{Host, State, M, ◌>>=◌}
use xlibfabric.Machine.Outcomes.{bound, >>=_lem}
use xlibfabric.Transfer.{Call, issue, Methods, meaning, Serves, issue-meaning, in_order}

-- The provider keeps its promise: from every state in `P` the tables represent the methods, and the
-- methods do not lead out of `P`.
pub record Lasts (host : Host) (ep : ℕ) (methods : Methods) (P : State → Type 0) : Type 0 where
  pub serves : (s : State) → P s → Serves host ep methods s
  pub lasts : (s t : State) (c : Call) (r : ℤ) → P s → meaning methods ep c s ≡ some (r, t) → P t

bind-same :
    {A B : Type 0} (m n : M A) (f : A → M B) (s : State) → m s ≡ n s → (m >>= f) s ≡ (n >>= f) s
bind-same m n f s e = >>=_lem m f s ∙ ap (bound f) e ∙ sym (>>=_lem n f s)

bound-same :
    {A B : Type 0} (f g : A → M B) (x : Option (A × State))
    → ((a : A) (t : State) → x ≡ some (a, t) → f a t ≡ g a t)
    → bound f x ≡ bound g x
bound-same f g none same = refl
bound-same f g (some (a, t)) same = same a t refl

-- For a provider whose methods keep the tables of the endpoint, every sequence of data transfer calls
-- is the sequence of the methods that they stand for: the results are the same, in order, and so is
-- the memory at the end; where one of them is undefined, so is the other.
pub in_order-meaning :
    {host : Host} {ep : ℕ} {methods : Methods} {P : State → Type 0} {s : State}
    → Lasts host ep methods P
    → P s
    → (cs : List Call) → in_order (issue host ep) cs s ≡ in_order (meaning methods ep) cs s
unfolding in_order
in_order-meaning l p [] = refl
in_order-meaning {host} {ep} {methods} {P} {s} l p (c ∷ cs) =
    bind-same (issue host ep c) (meaning methods ep c) _ s (issue-meaning (l.serves s p) c)
    ∙ >>=_lem (meaning methods ep c) _ s
    ∙ bound-same _ _ (meaning methods ep c s) (λ r t e.
      bind-same (in_order (issue host ep) cs) (in_order (meaning methods ep) cs) _ t
        (in_order-meaning l (l.lasts s t c r p e) cs))
    ∙ sym (>>=_lem (meaning methods ep c) _ s)
