-- ===== src/Soroban/Matching.antt =====
-- How a call is compared with a description of it, step by step.
use stellar_txwatch_contract.Prelude.{◌≡◌, refl, ap, ◌∙◌}
use stellar_txwatch_contract.Soroban.Results.{Outcome, ok, err, trap, ◌>>=◌}

-- The result of a call, seen through a function.
unfoldable pub on_ok : {E A B : Type 0} → (A → B) → Outcome E A → Outcome E B
on_ok k (ok a) = ok (k a)
on_ok k (err e) = err e
on_ok k trap = trap

-- Two calls that begin with the same step are compared after it.
pub on_ok->>= :
    {E A B C : Type 0} (k : B → C) (m : Outcome E A) (f : A → Outcome E B) (g : A → Outcome E C)
    → ((a : A) → m ≡ ok a → on_ok k (f a) ≡ g a)
    → on_ok k (m >>= f) ≡ (m >>= g)
unfolding on_ok ◌>>=◌
on_ok->>= k (ok a) f g p = p a refl
on_ok->>= k (err e) f g p = refl
on_ok->>= k trap f g p = refl

pub on_ok-ok :
    {E A B : Type 0} (k : A → B) (a : A) {b : B} → k a ≡ b → on_ok {E = E} k (ok a) ≡ ok b
unfolding on_ok
on_ok-ok k a p = ap ok p

-- A call that is known to succeed.
pub on_ok-eq :
    {E A B : Type 0} (k : A → B) {m : Outcome E A} {a : A} {b : B}
    → m ≡ ok a
    → k a ≡ b
    → on_ok k m ≡ ok b
unfolding on_ok
on_ok-eq k e p = ap (on_ok k) e ∙ ap ok p

-- A first step that is known to succeed.
pub on_ok->>=-eq :
    {E A B C : Type 0} (k : B → C) {m : Outcome E A} (f : A → Outcome E B) {a : A} {x : Outcome E C}
    → m ≡ ok a
    → on_ok k (f a) ≡ x
    → on_ok k (m >>= f) ≡ x
unfolding ◌>>=◌
on_ok->>=-eq k f e p = ap (λ m. on_ok k (m >>= f)) e ∙ p

-- A last step that succeeds.
pub on_ok->>=-ok :
    {E A B C : Type 0} (k : B → C) (m : Outcome E A) (f : A → B)
    → on_ok k (m >>= λ a. ok (f a)) ≡ on_ok (λ a. k (f a)) m
unfolding on_ok ◌>>=◌
on_ok->>=-ok k (ok a) f = refl
on_ok->>=-ok k (err e) f = refl
on_ok->>=-ok k trap f = refl

-- Two calls whose first steps are equal.
pub on_ok->>=-same :
    {E A B C : Type 0} (k : B → C) {m n : Outcome E A} (f : A → Outcome E B) (g : A → Outcome E C)
    → m ≡ n
    → ((a : A) → m ≡ ok a → on_ok k (f a) ≡ g a)
    → on_ok k (m >>= f) ≡ (n >>= g)
on_ok->>=-same k {m} f g e p = on_ok->>= k m f g p ∙ ap (λ x. x >>= g) e
