-- ===== src/AlertRegistry/Renewal/Bulk.antt =====
-- What `bulk_renew_ttl` does in a valid state: it counts and renews the alerts that are stored.
use stellar_txwatch_contract.Prelude.{
  ℕ, ◌+◌, ◌≤◌, ◌≡◌, refl, ap, ◌∙◌, true, false, some, none, Bool-cases, List, [], ◌∷◌, arith,
  length, contains, keep_if, is_some, ◌==◌, if◌then◌else◌, Option-cases, inl, inr,
}
use stellar_txwatch_contract.Soroban.{Host, ok, ◌>>=◌, Ensures-eq-ok}
use stellar_txwatch_contract.Soroban.Access.{ttl-extended-ge}
use stellar_txwatch_contract.AlertRegistry.Types.{
  AlertConfig, State, Event, default_ttl, max_batch_size,
}
use stellar_txwatch_contract.AlertRegistry.Store.{publish, live_ids}
use stellar_txwatch_contract.AlertRegistry.Ttl.{renew_one, renew_loop, bulk_renew_ttl}
use stellar_txwatch_contract.AlertRegistry.Invariant.{IsValid}
use stellar_txwatch_contract.AlertRegistry.Invariant.Renewals.{renew_one-IsValid}
use stellar_txwatch_contract.AlertRegistry.Access.Signed.{SameData, renew_one-SameData}
use stellar_txwatch_contract.AlertRegistry.Renewal.{extended_entries, extend_entries-eq}

module _ (h : Host) where
  live_ids-SameData :
      (ids : List ℕ) (s s' : State h) → SameData h s s' → live_ids h ids s' ≡ live_ids h ids s
  unfolding live_ids keep_if
  live_ids-SameData [] s s' same = refl
  live_ids-SameData (id ∷ ids) s s' same = rw (same id) (
      ap (λ l. if is_some (h.get id s.alerts) then id ∷ l else l) (live_ids-SameData ids s s' same))

  -- What the renewal of a list of IDs does to the alerts: it counts the stored ones, changes no
  -- record, shortens no lifetime, and gives the stored ones in the list the default lifetime at
  -- least.
  pub record Renewed (ids : List ℕ) (s : State h) (r : ℕ × State h) : Type 0 where
    pub count : r.0 ≡ length (live_ids h ids s)
    pub same : (j : ℕ) → h.get j r.1.alerts ≡ h.get j s.alerts
    pub longer : (j : ℕ) → h.ttl j s.alerts ≤ h.ttl j r.1.alerts
    pub renewed :
        (id : ℕ) (c : AlertConfig)
        → contains ids id ≡ true
        → h.get id s.alerts ≡ some c
        → default_ttl ≤ h.ttl id r.1.alerts

  pub renew_one_absent :
      (id : ℕ) (s : State h) → h.get id s.alerts ≡ none → renew_one h id s ≡ ok (false, s)
  unfolding renew_one
  renew_one_absent id s absent = rw (absent, renew_one)

  -- The state after one stored alert has been renewed.
  unfoldable pub renewed_one : ℕ → AlertConfig → State h → State h
  renewed_one id c s =
      publish h (Event.alert_bump id default_ttl) (extended_entries h default_ttl id c s)

  pub renew_one_stored :
      (id : ℕ) (c : AlertConfig) (s : State h)
      → IsValid h s
      → h.get id s.alerts ≡ some c
      → renew_one h id s ≡ ok (true, renewed_one id c s)
  unfolding renew_one ◌>>=◌ renewed_one
  renew_one_stored id c s v there =
      rw (there, renew_one, extend_entries-eq h default_ttl id c s v there)

  ttl-renewed_one-ge :
      (id j : ℕ) (c : AlertConfig) (s : State h)
      → h.ttl j s.alerts ≤ h.ttl j (renewed_one id c s).alerts
  unfolding renewed_one extended_entries
  ttl-renewed_one-ge id j c s = ground (arith, h.ttl-extended j id default_ttl default_ttl s.alerts)

  default_ttl-renewed_one-le :
      (id : ℕ) (c : AlertConfig) (s : State h) → default_ttl ≤ h.ttl id (renewed_one id c s).alerts
  unfolding renewed_one extended_entries
  default_ttl-renewed_one-le id c s = ttl-extended-ge h default_ttl id s.alerts

  renew_loop-Renewed :
      (ids : List ℕ) (s : State h)
      → IsValid h s
      → (r : ℕ × State h) × (renew_loop h ids s ≡ ok r) × Renewed ids s r
  unfolding renew_loop live_ids keep_if contains ◌>>=◌
  renew_loop-Renewed [] s v = (
    (0, s),
    refl,
    record {
      count = refl;
      same = λ j. refl;
      longer = λ j. omega arith;
      renewed = λ id c m e. absurd (ground arith);
    },
  )
  renew_loop-Renewed (id ∷ ids) s v = elim (Option-cases (h.get id s.alerts)) [
    | inl absent ↦
        let (r, e, q) = renew_loop-Renewed ids s v in
        (
          r,
          rw (renew_one_absent id s absent, e),
          record {
            count = rw absent (q.count);
            same = q.same;
            longer = q.longer;
            renewed = λ j c m there. elim (Bool-cases (id == j)) [
              | inl here ↦ ground arith
              | inr later ↦ q.renewed j c (ground arith) there
            ];
          },
        )
    | inr (c, there) ↦
        let s₁ = renewed_one id c s in
        let first = renew_one_stored id c s v there in
        let (r, e, q) =
          renew_loop-Renewed ids s₁ (Ensures-eq-ok _ (renew_one-IsValid h id s v) first) in
        let same₁ = Ensures-eq-ok _ (renew_one-SameData h id s) first in
        (
          (r.0 + 1, r.1),
          rw (first, e),
          record {
            count = rw there (omega (arith, q.count, ap length (live_ids-SameData ids s s₁ same₁)));
            same = λ j. q.same j ∙ same₁ j;
            longer = λ j. omega (arith, q.longer j, ttl-renewed_one-ge id j c s);
            renewed = λ j d m stored. elim (Bool-cases (id == j)) [
              | inl here ↦ ground (arith, q.longer id, default_ttl-renewed_one-le id c s)
              | inr later ↦ q.renewed j d (ground arith) (same₁ j ∙ stored)
            ];
          },
        )
  ]

  -- In a valid state `bulk_renew_ttl` of at most 50 IDs succeeds and returns the number of those
  -- whose alert is stored; each of these has the default lifetime at least, no alert has a shorter
  -- one than before, and no record has changed.
  pub bulk_renew_ttl-Renewed :
      (ids : List ℕ) (s : State h)
      → IsValid h s
      → length ids ≤ max_batch_size
      → (r : ℕ × State h) × (bulk_renew_ttl h ids s ≡ ok r) × Renewed ids s r
  unfolding bulk_renew_ttl ◌>>=◌
  bulk_renew_ttl-Renewed ids s v few =
      let (r, e, q) = renew_loop-Renewed ids s v in (r, ground arith, q)
