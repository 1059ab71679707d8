-- ===== src/AlertRegistry/Spec/Counting.antt =====
-- The limit check counts what the map counts: the alerts of the owner.
use stellar_txwatch_contract.Prelude.{
  ℕ, zero, suc, ◌≡◌, refl, ap, ◌∙◌, Bool, true, not, ◌&&◌, List, [], ◌∷◌, ◌==◌, ltb, arith,
  contains, distinct, keep_if, length, contains-keep_if, distinct-keep_if, length-keep_if_once,
  Bool-cases, Option-cases, inl, inr, is_some, ==-refl,
}
use stellar_txwatch_contract.Soroban.{Host, Address, Outcome, ◌>>=◌, ◌>>◌}
use stellar_txwatch_contract.AlertRegistry.Types.{ContractError, State}
use stellar_txwatch_contract.AlertRegistry.Store.{
  live_ids, owner_index, get_alert_count, get_per_owner_alert_limit, assert_per_owner_limit_for,
  saturating_add, prune_owner_index,
}
use stellar_txwatch_contract.AlertRegistry.Invariant.{IsValid, owner_ids, counter}
use stellar_txwatch_contract.AlertRegistry.Invariant.Steps.{prune_owner_index-IsValid}
use stellar_txwatch_contract.AlertRegistry.Spec.{view, count_below, is_owned_by, owned, room}
use stellar_txwatch_contract.Soroban.Matching.{on_ok}
use stellar_txwatch_contract.AlertRegistry.Spec.Matching.{kept, view-same}

-- A list without repetition of the numbers below `n` that pass a test is as long as there are such.
length-count_below :
    (n : ℕ) (p : ℕ → Bool) (l : List ℕ)
    → distinct l ≡ true
    → ((j : ℕ) → contains l j ≡ (ltb j n && p j))
    → length l ≡ count_below n p
unfolding count_below contains
length-count_below zero p [] d e = refl
length-count_below zero p (x ∷ l) d e = absurd (ground (arith, e x, ==-refl x))
length-count_below (suc n) p l d e = elim (Bool-cases (p n)) [
  | inl yes' ↦
      let l' = keep_if (λ j. not (j == n)) l in
      let there : contains l n ≡ true = ground (arith, e n) in
      let ih =
        length-count_below n p l' (distinct-keep_if _ l d)
          (λ j. contains-keep_if (λ j. not (j == n)) l j ∙ ground (arith, e j)) in
      rw yes' (omega (arith, length-keep_if_once n l d there, ih))
  | inr no' ↦ rw no' (length-count_below n p l d (λ j. ground (arith, e j)))
]

module _ (h : Host) where
  pub length-live_ids :
      (a : Address) (s : State h)
      → IsValid h s
      → length (live_ids h (owner_index h a s) s) ≡ owned a (view h s)
  unfolding owned view get_alert_count owner_index live_ids
  length-live_ids a s v =
      length-count_below (counter h s) (λ id. is_owned_by a (h.get id s.alerts)) _
        (distinct-keep_if _ (owner_ids h s a) (v.owners.unique a))
        (λ j.
          contains-keep_if (λ id. is_some (h.get id s.alerts)) (owner_ids h s a) j
          ∙ elim (Option-cases (h.get j s.alerts)) [
            | inl absent ↦ rw absent (ground arith)
            | inr (c, there) ↦
                rw there (
                  ground
                    (arith, v.owners.listed j c there, v.owners.only a j c, v.owners.fresh a j))
          ])

  prune_owner_index-kept :
      (k : Address) (s : State h)
      → (kept h (prune_owner_index h k s) ≡ kept h s)
        × ((prune_owner_index h k s).alerts ≡ s.alerts)
  unfolding prune_owner_index
  prune_owner_index-kept k s = ground arith

  -- The check and the map find no room together; where both go on, the storage stands for the same
  -- map as before.
  pub assert_per_owner_limit_for->>= :
      {A B : Type 0} (k : A → B) (a : Address) (n : ℕ) (s : State h)
      (f : State h → Outcome ContractError A) (m : Outcome ContractError B)
      → IsValid h s
      → ((s' : State h)
          → IsValid h s'
          → view h s' ≡ view h s
          → s'.alerts ≡ s.alerts
          → kept h s' ≡ kept h s
          → on_ok k (f s') ≡ m)
      → on_ok k (assert_per_owner_limit_for h a n s >>= f) ≡ (room a n (view h s) >> m)
  unfolding assert_per_owner_limit_for room view ◌>>=◌ on_ok
  assert_per_owner_limit_for->>= k a n s f m v go =
      let l : length (live_ids h (owner_index h a s) s) ≡ owned a (view h s) =
        length-live_ids a s v in
      let limit = get_per_owner_alert_limit h s in
      elim (Bool-cases (ltb 0 limit)) [
        | inr free ↦ rw free (go s v refl refl refl)
        | inl limited ↦ elim (Bool-cases (ltb limit (saturating_add (owned a (view h s)) n))) [
          | inl full ↦ rw (limited, l, full)
          | inr fits ↦
              let (q, al) = prune_owner_index-kept a s in
              rw (limited, l, fits)
                (go (prune_owner_index h a s) (prune_owner_index-IsValid h s a v)
                  (view-same h s _ q (λ j. ap (h.get j) al)) al q)
        ]
      ]
