-- ===== src/Prelude/Lists.antt =====
-- Lists measured by native numbers, and lists of numbers as duplicate-free sets.
use Prim.Native.Nat.{ℕ, zero, suc, ◌+◌, ◌≤◌}
use mathlib.Core.Path.{◌≡◌, refl, ap}
use mathlib.Core.Logic.{inl, inr}
use mathlib.Core.Bool.{Bool, true, false, not, ◌&&◌, ◌||◌}
use mathlib.Core.List.{List, [], ◌∷◌, ◌++◌}
use native.Mathlib.Omega.{arith}
use stellar_txwatch_contract.Prelude.Tests.{Bool-cases, ◌==◌, if◌then◌else◌}

module _ {ℓ} {A : Type ℓ} where
  abbrev pub length : List A → ℕ
  length [] = 0
  length (x ∷ xs) = suc (length xs)

  abbrev pub take : ℕ → List A → List A
  take zero xs = []
  take (suc n) [] = []
  take (suc n) (x ∷ xs) = x ∷ take n xs

  abbrev pub drop : ℕ → List A → List A
  drop zero xs = xs
  drop (suc n) [] = []
  drop (suc n) (x ∷ xs) = drop n xs

  -- `Vec::is_empty`
  abbrev pub is_empty : List A → Bool
  is_empty [] = true
  is_empty (x ∷ xs) = false

  -- The elements that pass a test.
  unfoldable pub keep_if : (A → Bool) → List A → List A
  keep_if p [] = []
  keep_if p (x ∷ xs) = let rest = keep_if p xs in if p x then x ∷ rest else rest

  pub length-append : (xs ys : List A) → length (xs ++ ys) ≡ length xs + length ys
  length-append [] ys = omega arith
  length-append (x ∷ xs) ys = omega (arith, length-append xs ys)

  pub length-keep_if-le : (p : A → Bool) (xs : List A) → length (keep_if p xs) ≤ length xs
  unfolding keep_if
  length-keep_if-le p [] = omega arith
  length-keep_if-le p (x ∷ xs) = ground (arith, length-keep_if-le p xs)

  pub keep_if_all :
      (p : A → Bool) (xs : List A) → length (keep_if p xs) ≡ length xs → keep_if p xs ≡ xs
  unfolding keep_if
  keep_if_all p [] h = refl
  keep_if_all p (x ∷ xs) h = ground (arith, keep_if_all p xs, length-keep_if-le p xs)

-- Membership in a list of numbers.
unfoldable pub contains : List ℕ → ℕ → Bool
contains [] a = false
contains (x ∷ xs) a = x == a || contains xs a

-- No number stands twice.
unfoldable pub distinct : List ℕ → Bool
distinct [] = true
distinct (x ∷ xs) = not (contains xs x) && distinct xs

pub contains-append :
    (xs ys : List ℕ) (a : ℕ) → contains (xs ++ ys) a ≡ (contains xs a || contains ys a)
unfolding contains
contains-append [] ys a = refl
contains-append (x ∷ xs) ys a = ground (arith, contains-append xs ys a)

pub contains-snoc : (xs : List ℕ) (b a : ℕ) → contains (xs ++ b ∷ []) a ≡ (contains xs a || b == a)
unfolding contains
contains-snoc xs b a = ground (arith, contains-append xs (b ∷ []) a)

pub contains-keep_if :
    (p : ℕ → Bool) (xs : List ℕ) (a : ℕ) → contains (keep_if p xs) a ≡ (contains xs a && p a)
unfolding contains keep_if
contains-keep_if p [] a = refl
contains-keep_if p (x ∷ xs) a = ground (arith, contains-keep_if p xs a, ap p)

pub distinct-keep_if :
    (p : ℕ → Bool) (xs : List ℕ) → distinct xs ≡ true → distinct (keep_if p xs) ≡ true
unfolding distinct keep_if
distinct-keep_if p [] h = refl
distinct-keep_if p (x ∷ xs) h = ground (arith, distinct-keep_if p xs, contains-keep_if p xs x)

pub distinct-snoc :
    (xs : List ℕ) (b : ℕ)
    → distinct xs ≡ true
    → contains xs b ≡ false
    → distinct (xs ++ b ∷ []) ≡ true
unfolding distinct contains
distinct-snoc [] b h k = refl
distinct-snoc (x ∷ xs) b h k = ground (arith, distinct-snoc xs b, contains-snoc xs b x)

pub keep_if_absent : (a : ℕ) (l : List ℕ) → contains l a ≡ false → keep_if (λ v. not (v == a)) l ≡ l
unfolding contains keep_if
keep_if_absent a [] out = refl
keep_if_absent a (x ∷ l) out = ground (arith, keep_if_absent a l)

-- A number that stands in a list without repetition stands there once.
pub length-keep_if_once :
    (a : ℕ) (l : List ℕ)
    → distinct l ≡ true
    → contains l a ≡ true
    → length l ≡ length (keep_if (λ v. not (v == a)) l) + 1
unfolding distinct contains keep_if
length-keep_if_once a [] d m = absurd (ground arith)
length-keep_if_once a (x ∷ l) d m = elim (Bool-cases (x == a)) [
  | inl here ↦
      let out : contains l a ≡ false = ground arith in
      rw (here, keep_if_absent a l out) (omega arith)
  | inr later ↦ rw later (ground (arith, length-keep_if_once a l))
]

-- Without one number, a list without repetition is shorter by one at most.
pub length-keep_if_ne :
    (a : ℕ) (l : List ℕ) → distinct l ≡ true → length l ≤ length (keep_if (λ v. not (v == a)) l) + 1
length-keep_if_ne a l d = elim (Bool-cases (contains l a)) [
  | inl there ↦ omega (arith, length-keep_if_once a l d there)
  | inr out ↦ rw (keep_if_absent a l out) (omega arith)
]
