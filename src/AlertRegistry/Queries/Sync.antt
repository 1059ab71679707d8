-- ===== src/AlertRegistry/Queries/Sync.antt =====
-- The two queries for incremental synchronisation: `get_alerts_updated_since` and
-- `get_alerts_modified_since`.
use native.Mathlib.Nat.{zero-add, sub-zero}
use stellar_txwatch_contract.Prelude.{
  ℕ, zero, suc, ◌+◌, ◌-◌, ◌≤◌, ◌<◌, ◌≡◌, ◌↔◌, ◌⊎◌, refl, ap, ◌∙◌, sym, Bool, true, some, List, [],
  ◌∷◌, arith, take, drop, keep_if, ◌==◌, leb, ltb, ltb→lt, Bool-cases, Option-cases, inl, inr,
  contains, distinct,
}
use stellar_txwatch_contract.Soroban.{Host, Address}
use stellar_txwatch_contract.AlertRegistry.Types.{AlertConfig, State}
use stellar_txwatch_contract.AlertRegistry.Store.{contract_index, live_ids, get_alert_count}
use stellar_txwatch_contract.AlertRegistry.Queries.{
  get_alert_ids_for_contract, configs_for_ids, updated_loop, get_alerts_updated_since,
  modified_loop, get_alerts_modified_since,
}
use stellar_txwatch_contract.AlertRegistry.Queries.Pages.{take-nil, drop-nil}
use stellar_txwatch_contract.AlertRegistry.Invariant.{IsValid}
use stellar_txwatch_contract.AlertRegistry.Lookup.{get_alert_ids_for_contract_iff}

-- Was the alert updated at `since` or later?
abbrev pub is_recent : ℕ → AlertConfig → Bool
is_recent since c = leb since c.updated_at

module _ (h : Host) (s : State h) where
  updated_loop_lem :
      (since offset limit : ℕ) (ids : List ℕ) (skipped out_len : ℕ)
      → updated_loop h since offset limit ids skipped out_len s
        ≡ take
            (limit - out_len)
            (drop (offset - skipped) (keep_if (is_recent since) (configs_for_ids h ids s)))
  unfolding updated_loop keep_if configs_for_ids
  updated_loop_lem since offset limit [] skipped out_len =
      rw (drop-nil (offset - skipped)) (sym (take-nil (limit - out_len)))
  updated_loop_lem since offset limit (id ∷ ids) skipped out_len =
      elim (Bool-cases (leb limit out_len)) [
        | inl done ↦
            let m : limit ≤ out_len = ground arith in
            let e : limit - out_len ≡ 0 = omega arith in rw (e, done)
        | inr more ↦
            let m : out_len < limit = ground arith in
            let room : limit - out_len ≡ suc (limit - (out_len + 1)) = omega arith in
            elim (Option-cases (h.get id s.alerts)) [
              | inl absent ↦
                  rw (more, absent, updated_loop, configs_for_ids)
                    (updated_loop_lem since offset limit ids skipped out_len)
              | inr (c, there) ↦ elim (Bool-cases (leb since c.updated_at)) [
                | inr old ↦
                    rw (more, there, updated_loop, configs_for_ids, old)
                      (updated_loop_lem since offset limit ids skipped out_len)
                | inl recent ↦ elim (Bool-cases (ltb skipped offset)) [
                  | inl skip ↦
                      let m' : skipped < offset = ltb→lt _ _ skip in
                      let e : offset - skipped ≡ suc (offset - (skipped + 1)) = omega arith in
                      rw (more, there, updated_loop, configs_for_ids, recent, skip, e)
                        (updated_loop_lem since offset limit ids (skipped + 1) out_len)
                  | inr push ↦
                      let m' : offset ≤ skipped = ground arith in
                      let e : offset - skipped ≡ 0 = omega arith in
                      rw (more, there, updated_loop, configs_for_ids, recent, push, e, room)
                        (ap (◌∷◌ c)
                          (updated_loop_lem since offset limit ids skipped (out_len + 1) ∙ rw e))
                ]
              ]
            ]
      ]

  configs_for_ids-live_ids :
      (ids : List ℕ) → configs_for_ids h (live_ids h ids s) s ≡ configs_for_ids h ids s
  unfolding configs_for_ids live_ids keep_if
  configs_for_ids-live_ids [] = refl
  configs_for_ids-live_ids (id ∷ ids) = elim (Option-cases (h.get id s.alerts)) [
    | inl absent ↦ rw (absent, configs_for_ids) (configs_for_ids-live_ids ids)
    | inr (c, there) ↦
        rw (there, configs_for_ids, there) (ap (◌∷◌ c) (configs_for_ids-live_ids ids))
  ]

  -- In a valid state `get_alerts_updated_since` goes over a list of IDs that has each stored alert that watches the
  -- contract once and no other, in the order of `get_alert_ids_for_contract`: of those that were updated at `since` or later, it
  -- returns the ones from number `offset` on, `limit` of them at most.
  pub get_alerts_updated_since_lem :
      (target : Address) (since offset limit : ℕ)
      → IsValid h s
      → let ids = get_alert_ids_for_contract h target s in
        (distinct ids ≡ true)
        × ((id : ℕ)
            → (contains ids id ≡ true)
              ↔ ((c : AlertConfig) × (h.get id s.alerts ≡ some c) × (c.target_contract ≡ target)))
        × (get_alerts_updated_since h target since offset limit s
            ≡ take limit (drop offset (keep_if (is_recent since) (configs_for_ids h ids s))))
  unfolding get_alerts_updated_since
  get_alerts_updated_since_lem target since offset limit v =
      let (once, these) = get_alert_ids_for_contract_iff h s target v in
      let ids = contract_index h target s in
      let loop = simp sub-zero at (updated_loop_lem since offset limit ids 0 0) in
      let live : configs_for_ids h (get_alert_ids_for_contract h target s) s
          ≡ configs_for_ids h ids s =
        unfold get_alert_ids_for_contract in configs_for_ids-live_ids ids in
      (
        once,
        these,
        loop ∙ ap (λ l. take limit (drop offset (keep_if (is_recent since) l))) (sym live),
      )

  -- `c` stands in the list.
  abbrev pub In : AlertConfig → List AlertConfig → Type 0
  In c [] = ⊥
  In c (x ∷ xs) = (c ≡ x) ⊎ In c xs

  modified_loop→ :
      (since i n : ℕ) (c : AlertConfig)
      → In c (modified_loop h since i n s)
      → (id : ℕ) × (h.get id s.alerts ≡ some c) × (since ≤ c.updated_at)
  unfolding modified_loop
  modified_loop→ since i zero c m = absurd m
  modified_loop→ since i (suc n) c m = elim (Option-cases (h.get i s.alerts)) [
    | inl absent ↦ modified_loop→ since (i + 1) n c (rw (absent, modified_loop) at m)
    | inr (d, there) ↦ elim (Bool-cases (leb since d.updated_at)) [
      | inr old ↦ modified_loop→ since (i + 1) n c (rw (there, modified_loop, old) at m)
      | inl recent ↦ elim (rw (there, modified_loop, recent) at m) [
        | inl here ↦ (i, rw here there, rw here (ground arith))
        | inr later ↦ modified_loop→ since (i + 1) n c later
      ]
    ]
  ]

  →modified_loop :
      (since i n : ℕ) (c : AlertConfig) (id : ℕ)
      → h.get id s.alerts ≡ some c
      → since ≤ c.updated_at
      → i ≤ id
      → id < i + n
      → In c (modified_loop h since i n s)
  unfolding modified_loop
  →modified_loop since i zero c id e r lo hi = absurd (omega arith)
  →modified_loop since i (suc n) c id e r lo hi = elim (Bool-cases (i == id)) [
    | inl here ↦
        let p : i ≡ id = ground arith in
        let q : h.get i s.alerts ≡ some c = rw p e in
        let k : leb since c.updated_at ≡ true = ground arith in rw (q, modified_loop, k) (inl refl)
    | inr later ↦
        let rest = →modified_loop since (i + 1) n c id e r (ground arith) (ground arith) in
        elim (Option-cases (h.get i s.alerts)) [
          | inl absent ↦ rw (absent, modified_loop) rest
          | inr (d, there) ↦ elim (Bool-cases (leb since d.updated_at)) [
            | inr old ↦ rw (there, modified_loop, old) rest
            | inl recent ↦ rw (there, modified_loop, recent) (inr rest)
          ]
        ]
  ]

  -- In a valid state `get_alerts_modified_since` returns an alert exactly if it is stored and was
  -- updated at `since` or later: the scan up to the counter misses none.
  pub get_alerts_modified_since_iff :
      (since : ℕ) (c : AlertConfig)
      → IsValid h s
      → In c (get_alerts_modified_since h since s)
        ↔ ((id : ℕ) × (h.get id s.alerts ≡ some c) × (since ≤ c.updated_at))
  unfolding get_alerts_modified_since get_alert_count
  get_alerts_modified_since_iff since c v = (
    modified_loop→ since 0 _ c,
    λ (id, e, r).
        →modified_loop since 0 _ c id e r (omega arith)
          (rw zero-add (v.owners.fresh c.owner id (v.owners.listed id c e))),
  )
