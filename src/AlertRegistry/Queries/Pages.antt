-- ===== src/AlertRegistry/Queries/Pages.antt =====
-- The paginated queries against the lists that they cut into pages.
use native.Mathlib.Nat.{zero-add, suc-add, zero-mul}
use stellar_txwatch_contract.Prelude.{
  ℕ, zero, suc, ◌+◌, ◌-◌, ◌*◌, ◌≤◌, ◌<◌, min, ◌≡◌, refl, ap, ◌∙◌, sym, List, [], ◌∷◌, ◌++◌, arith,
  length, take, drop, Bool-cases, ltb, ltb→lt, inl, inr,
}
use stellar_txwatch_contract.Soroban.{Host}
use stellar_txwatch_contract.AlertRegistry.Types.{AlertConfig, State, max_batch_size}
use stellar_txwatch_contract.AlertRegistry.Store.{saturating_add, u32_max}
use stellar_txwatch_contract.AlertRegistry.Queries.{slice, configs_for_ids, configs_paginated}

module _ {A : Type 0} where
  drop_all : (n : ℕ) (l : List A) → length l ≤ n → drop n l ≡ []
  drop_all zero [] h = refl
  drop_all zero (x ∷ l) h = absurd (omega arith)
  drop_all (suc n) [] h = refl
  drop_all (suc n) (x ∷ l) h = drop_all n l (omega arith)

  take_all : (n : ℕ) (l : List A) → length l ≤ n → take n l ≡ l
  take_all zero [] h = refl
  take_all zero (x ∷ l) h = absurd (omega arith)
  take_all (suc n) [] h = refl
  take_all (suc n) (x ∷ l) h = ap (◌∷◌ x) (take_all n l (omega arith))

  length-drop : (n : ℕ) (l : List A) → length (drop n l) ≡ length l - n
  length-drop zero l = omega arith
  length-drop (suc n) [] = omega arith
  length-drop (suc n) (x ∷ l) = omega (arith, length-drop n l)

  length-take-le : (n : ℕ) (l : List A) → length (take n l) ≤ n
  length-take-le zero l = omega arith
  length-take-le (suc n) [] = omega arith
  length-take-le (suc n) (x ∷ l) = omega (arith, length-take-le n l)

  pub take-nil : (n : ℕ) → take {A = A} n [] ≡ []
  take-nil zero = refl
  take-nil (suc n) = refl

  pub drop-nil : (n : ℕ) → drop {A = A} n [] ≡ []
  drop-nil zero = refl
  drop-nil (suc n) = refl

  take-add : (a b : ℕ) (l : List A) → take (a + b) l ≡ take a l ++ take b (drop a l)
  take-add zero b l = rw zero-add
  take-add (suc a) b [] = rw suc-add (sym (take-nil b))
  take-add (suc a) b (x ∷ l) = rw suc-add (ap (◌∷◌ x) (take-add a b l))

  take-min : (n : ℕ) (l : List A) → take (min n (length l)) l ≡ take n l
  take-min n l = elim (Bool-cases (ltb n (length l))) [
    | inl less ↦ rw (let e : min n (length l) ≡ n = omega (arith, ltb→lt _ _ less) in e)
    | inr more ↦
        let m : length l ≤ n = ground arith in
        rw (let e : min n (length l) ≡ length l = omega arith in e)
          (take_all (length l) l (omega arith) ∙ sym (take_all n l m))
  ]

  -- The bounds that the queries compute cut out the page, also where the sum saturates.
  pub slice_lem :
      (offset n : ℕ) (l : List A)
      → length l ≤ u32_max
      → slice (min offset (length l)) (min (saturating_add offset n) (length l)) l
        ≡ take n (drop offset l)
  slice_lem offset n l small = elim (Bool-cases (ltb offset (length l))) [
    | inl less ↦
        let m : offset < length l = ltb→lt _ _ less in
        let start : min offset (length l) ≡ offset = omega arith in
        let size : min (saturating_add offset n) (length l) - offset
            ≡ min n (length (drop offset l)) =
          omega (arith, length-drop offset l) in
        rw (start, size) (take-min n (drop offset l))
    | inr more ↦
        let m : length l ≤ offset = ground arith in
        let start : min offset (length l) ≡ length l = omega arith in
        rw (start, drop_all (length l) l (omega arith), drop_all offset l m)
          (take-nil _ ∙ sym (take-nil n))
  ]

module _ (h : Host) (s : State h) where
  pub configs_for_ids-append :
      (xs ys : List ℕ)
      → configs_for_ids h (xs ++ ys) s ≡ configs_for_ids h xs s ++ configs_for_ids h ys s
  unfolding configs_for_ids
  configs_for_ids-append [] ys = refl
  configs_for_ids-append (x ∷ xs) ys = ground (arith, configs_for_ids-append xs ys)

  length-configs_for_ids-le : (ids : List ℕ) → length (configs_for_ids h ids s) ≤ length ids
  unfolding configs_for_ids
  length-configs_for_ids-le [] = omega arith
  length-configs_for_ids-le (x ∷ ids) = ground (arith, length-configs_for_ids-le ids)

  -- A page of a list of at most `u32::MAX` IDs holds at most `limit` alerts and at most 50, whatever
  -- the offset and the limit.
  pub length-configs_paginated-le :
      (ids : List ℕ) (offset limit : ℕ)
      → length ids ≤ u32_max
      → length (configs_paginated h ids offset limit s) ≤ min limit max_batch_size
  unfolding configs_paginated
  length-configs_paginated-le ids offset limit small =
      rw (slice_lem offset (min limit 50) ids small) (
        omega (
          arith,
          length-configs_for_ids-le (take (min limit 50) (drop offset ids)),
          length-take-le (min limit 50) (drop offset ids),
        ))

  -- The pages 0 to n - 1 of `size` entries each, one after the other.
  pub pages : List ℕ → ℕ → ℕ → List AlertConfig
  pages ids size zero = []
  pages ids size (suc n) = pages ids size n ++ configs_paginated h ids (n * size) size s

  pages-take :
      (ids : List ℕ) (size n : ℕ)
      → size ≤ max_batch_size
      → length ids ≤ u32_max
      → pages ids size n ≡ configs_for_ids h (take (n * size) ids) s
  unfolding pages configs_paginated configs_for_ids
  pages-take ids size zero fits small = rw zero-mul
  pages-take ids size (suc n) fits small =
      let whole : min size 50 ≡ size = omega arith in
      let next : suc n * size ≡ n * size + size = grind arith in
      rw
        (
          next,
          slice_lem (n * size) (min size 50) ids small,
          whole,
          pages-take ids size n fits small,
          take-add,
        )
        (sym (configs_for_ids-append (take (n * size) ids) (take size (drop (n * size) ids))))

  -- For a list of at most `u32::MAX` IDs, pages of at most 50 entries that together span the list
  -- are, one after the other, exactly what `configs_for_ids` returns for the whole list.
  pub pages-configs_for_ids :
      (ids : List ℕ) (size n : ℕ)
      → size ≤ max_batch_size
      → length ids ≤ u32_max
      → length ids ≤ n * size
      → pages ids size n ≡ configs_for_ids h ids s
  pages-configs_for_ids ids size n fits small enough =
      pages-take ids size n fits small
      ∙ ap (λ l. configs_for_ids h l s) (take_all (n * size) ids enough)
