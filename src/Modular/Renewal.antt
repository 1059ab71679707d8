-- ===== src/Modular/Renewal.antt =====
-- The renewals of the second implementation: they change no data, and never trap.
use stellar_txwatch_contract.Prelude.{
  ℕ, ◌+◌, ◌≡◌, refl, ap, ◌∙◌, Bool, true, some, List, [], ◌∷◌, arith, if◌then◌else◌, is_some,
  length, ltb, keep_if, Option-cases, Bool-cases, inl, inr,
}
use stellar_txwatch_contract.Soroban.{Host, Address, Outcome, ok, ◌>>=◌}
use stellar_txwatch_contract.Soroban.Access.{extend, extend-eq, has}
use stellar_txwatch_contract.Modular.Types.{
  ContractError, AlertConfig, Event, State, max_batch_size,
}
use stellar_txwatch_contract.Modular.Storage
use stellar_txwatch_contract.Modular.Checks.{publish}
use stellar_txwatch_contract.Modular.Contract.{renew_one, renew_loop, bulk_renew_ttl}

module _ (h : Host) where
  -- Every entry of every store is as it was; lifetimes and events may differ.
  pub record SameData (s s' : State h) : Type 0 where
    pub alerts : (j : ℕ) → h.get j s'.alerts ≡ h.get j s.alerts
    pub owners : (j : Address) → h.get j s'.owner_indexes ≡ h.get j s.owner_indexes
    pub targets : (j : Address) → h.get j s'.contract_indexes ≡ h.get j s.contract_indexes
    pub next : (j : ℕ) → h.get j s'.next_ids ≡ h.get j s.next_ids
    pub rates : s'.rate_limits ≡ s.rate_limits
    pub pause : s'.paused ≡ s.paused
    pub pause_symbol : s'.paused_symbol ≡ s.paused_symbol
    pub administrator : s'.admin ≡ s.admin
    pub bound : s'.limit ≡ s.limit

  pub same_refl : (s : State h) → SameData s s
  same_refl s = record {
    alerts = λ j. refl;
    owners = λ j. refl;
    targets = λ j. refl;
    next = λ j. refl;
    rates = refl;
    pause = refl;
    pause_symbol = refl;
    administrator = refl;
    bound = refl;
  }

  pub same_trans : {s s' t : State h} → SameData s s' → SameData s' t → SameData s t
  same_trans p q = record {
    alerts = λ j. q.alerts j ∙ p.alerts j;
    owners = λ j. q.owners j ∙ p.owners j;
    targets = λ j. q.targets j ∙ p.targets j;
    next = λ j. q.next j ∙ p.next j;
    rates = q.rates ∙ p.rates;
    pause = q.pause ∙ p.pause;
    pause_symbol = q.pause_symbol ∙ p.pause_symbol;
    administrator = q.administrator ∙ p.administrator;
    bound = q.bound ∙ p.bound;
  }

  pub extend_if_there_succeeds :
      {V : Type 0} (t k : ℕ) (st : h.Store V)
      → (st' : h.Store V) × (Storage.extend_if_there h t k st ≡ ok st')
        × ((j : ℕ) → h.get j st' ≡ h.get j st)
  unfolding Storage.extend_if_there extend
  extend_if_there_succeeds t k st = elim (Option-cases (h.get k st)) [
    | inl absent ↦ (st, rw absent, λ j. refl)
    | inr (v, there) ↦ (h.extended k t t st, rw there, λ j. h.get-extended j k t t st)
  ]

  -- The three extensions that follow a read of the alert succeed, and what comes after them goes on
  -- with the same data.
  pub extend_three :
      {B : Type 0} (f : State h → Outcome ContractError B) (id : ℕ) (c : AlertConfig) (s : State h)
      → h.get id s.alerts ≡ some c
      → (s' : State h) × SameData s s'
        × ((Storage.extend_alert_ttl h id s >>= λ s₁.
              Storage.extend_owner_index_ttl h c.owner s₁ >>= λ s₂.
              Storage.extend_contract_index_ttl h c.target_contract s₂ >>= f)
            ≡ f s')
  unfolding Storage.extend_alert_ttl Storage.extend_owner_index_ttl
      Storage.extend_contract_index_ttl ◌>>=◌
  extend_three f id c s there =
      let (o, p, po) = extend_if_there_succeeds 100 c.owner s.owner_indexes in
      let (t, q, qt) = extend_if_there_succeeds 100 c.target_contract s.contract_indexes in
      (
        record s {
          alerts = h.extended id 100 100 s.alerts;
          owner_indexes = o;
          contract_indexes = t;
        },
        record {
          alerts = λ j. h.get-extended j id 100 100 s.alerts;
          owners = po;
          targets = qt;
          next = λ j. refl;
          rates = refl;
          pause = refl;
          pause_symbol = refl;
          administrator = refl;
          bound = refl;
        },
        rw (extend-eq h {E = ContractError} 100 id s.alerts there, p, q),
      )

  renew_one_succeeds :
      (id : ℕ) (s : State h)
      → (s' : State h) × SameData s s' × (renew_one h id s ≡ ok (is_some (h.get id s.alerts), s'))
  unfolding renew_one Storage.get_alert
  renew_one_succeeds id s = elim (Option-cases (h.get id s.alerts)) [
    | inl absent ↦ (s, same_refl s, rw (absent, renew_one))
    | inr (c, there) ↦
        let (s₁, same, go) =
          extend_three {B = Bool × State h} (λ s₃. ok (true, publish h (Event.alert_bump id) s₃)) id
            c s there in
        (
          publish h (Event.alert_bump id) s₁,
          record {
            alerts = same.alerts;
            owners = same.owners;
            targets = same.targets;
            next = same.next;
            rates = same.rates;
            pause = same.pause;
            pause_symbol = same.pause_symbol;
            administrator = same.administrator;
            bound = same.bound;
          },
          rw (there, renew_one) go,
        )
  ]

  -- The IDs whose alert is stored.
  abbrev pub live_ids : List ℕ → State h → List ℕ
  live_ids ids s = keep_if (λ id. has h id s.alerts) ids

  live_ids-SameData :
      (ids : List ℕ) (s s' : State h) → SameData s s' → live_ids ids s' ≡ live_ids ids s
  unfolding keep_if
  live_ids-SameData [] s s' same = refl
  live_ids-SameData (id ∷ ids) s s' same = rw (same.alerts id) (
      ap (λ l. if is_some (h.get id s.alerts) then id ∷ l else l) (live_ids-SameData ids s s' same))

  renew_loop_succeeds :
      (n : ℕ) (ids : List ℕ) (s : State h)
      → (s' : State h) × SameData s s'
        × (renew_loop h n ids s ≡ ok (n + length (live_ids ids s), s'))
  unfolding renew_loop keep_if ◌>>=◌
  renew_loop_succeeds n [] s = (s, same_refl s, ap (λ m. ok (m, s)) (omega arith))
  renew_loop_succeeds n (id ∷ ids) s =
      let (s₁, same, e) = renew_one_succeeds id s in
      let (s₂, same', e') =
        renew_loop_succeeds (if is_some (h.get id s.alerts) then n + 1 else n) ids s₁ in
      (
        s₂,
        same_trans same same',
        rw (e, e', live_ids-SameData ids s s₁ same) (ap (λ m. ok (m, s₂)) (ground arith)),
      )

  -- `bulk_renew_ttl` succeeds in every state and changes no entry of any store: alerts, indexes, counter, rate
  -- limits, pauses, admin and limit are as they were. It returns 0 for more than 20 IDs; for
  -- others it returns how many of them have a stored alert.
  pub bulk_renew_ttl_succeeds :
      (ids : List ℕ) (s : State h)
      → (s' : State h) × SameData s s'
        × (bulk_renew_ttl h ids s
            ≡ ok (if ltb max_batch_size (length ids) then 0 else length (live_ids ids s), s'))
  unfolding bulk_renew_ttl
  bulk_renew_ttl_succeeds ids s = elim (Bool-cases (ltb max_batch_size (length ids))) [
    | inl large ↦ (s, same_refl s, rw large)
    | inr small ↦
        let (s', same, e) = renew_loop_succeeds 0 ids s in
        (s', same, rw small (e ∙ ap (λ m. ok (m, s')) (omega arith)))
  ]
