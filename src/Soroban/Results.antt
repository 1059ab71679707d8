-- ===== src/Soroban/Results.antt =====
-- How a call ends. The host undoes what a call wrote and published when it returns an error or
-- traps, so only a success carries a state.
use stellar_txwatch_contract.Prelude.{◌≡◌, refl, Bool, true, false, Option, none, some, arith}

-- `trap` is a panic, or the refusal of a host function: a missing signature, a key that is not
-- there.
pub data Outcome {ℓ} (E A : Type ℓ) : Type ℓ where
  ok : A → Outcome E A
  err : E → Outcome E A
  trap : Outcome E A

module _ {E : Type 0} where
  infixl 5 ◌>>=◌ ◌>>◌
  unfoldable pub ◌>>=◌ : {A B : Type 0} → Outcome E A → (A → Outcome E B) → Outcome E B
  ok a >>= f = f a
  err e >>= f = err e
  trap >>= f = trap

  abbrev pub ◌>>◌ : {B : Type 0} → Outcome E (Unit {0}) → Outcome E B → Outcome E B
  m >> k = m >>= λ _. k

  -- `if b { return Err(e) }`
  abbrev pub reject_if : Bool → E → Outcome E (Unit {0})
  reject_if true e = err e
  reject_if false e = ok tt

  -- `o.ok_or(e)?`
  abbrev pub ok_or : {A : Type 0} → Option A → E → Outcome E A
  ok_or none e = err e
  ok_or (some a) e = ok a

  -- Inversion of a success.
  pub >>=-eq-ok :
      {A B : Type 0} (m : Outcome E A) (f : A → Outcome E B) {b : B}
      → (m >>= f) ≡ ok b
      → (a : A) × (m ≡ ok a) × (f a ≡ ok b)
  unfolding ◌>>=◌
  >>=-eq-ok (ok a) f h = (a, refl, h)
  >>=-eq-ok (err e) f h = cc
  >>=-eq-ok trap f h = cc

  pub reject_if-eq-ok : (b : Bool) (e : E) {u : Unit {0}} → reject_if b e ≡ ok u → b ≡ false
  reject_if-eq-ok true e h = cc
  reject_if-eq-ok false e h = refl

  pub ok_or-eq-ok : {A : Type 0} (o : Option A) (e : E) {a : A} → ok_or o e ≡ ok a → o ≡ some a
  ok_or-eq-ok none e h = cc
  ok_or-eq-ok (some a) e h = ground arith

-- `P` holds of what a call returns, if it succeeds.
unfoldable pub Ensures : {E A : Type 0} → (A → Type 0) → Outcome E A → Type 0
Ensures P (ok a) = P a
Ensures P (err e) = Unit
Ensures P trap = Unit

pub Ensures-ok : (E : Type 0) {A : Type 0} (P : A → Type 0) {a : A} → P a → Ensures {E = E} P (ok a)
unfolding Ensures
Ensures-ok E P p = p

module _ {E A : Type 0} (P : A → Type 0) where
  pub Ensures-of : (m : Outcome E A) → ((a : A) → m ≡ ok a → P a) → Ensures P m
  unfolding Ensures
  Ensures-of (ok a) k = k a refl
  Ensures-of (err e) k = tt
  Ensures-of trap k = tt

  pub Ensures-eq-ok : {m : Outcome E A} {a : A} → Ensures P m → m ≡ ok a → P a
  unfolding Ensures
  Ensures-eq-ok p e = rw e at p

  -- A chain of steps is followed step by step, with what each returned.
  pub Ensures->>= :
      {B : Type 0} (m : Outcome E B) (f : B → Outcome E A)
      → ((b : B) → m ≡ ok b → Ensures P (f b))
      → Ensures P (m >>= f)
  unfolding Ensures ◌>>=◌
  Ensures->>= (ok b) f k = k b refl
  Ensures->>= (err e) f k = tt
  Ensures->>= trap f k = tt
