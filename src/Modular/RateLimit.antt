-- ===== src/Modular/RateLimit.antt =====
-- How many registrations the rate limit of the second implementation admits.
use stellar_txwatch_contract.Prelude.{
  ℕ, ◌+◌, ◌-◌, ◌<◌, ◌≤◌, min, ◌≡◌, refl, ap, ◌∙◌, false, none, some, List, [], ◌∷◌, arith, length,
  leb, unwrap_or, Bool-cases, inl, inr, ==-refl, ◌⊎◌,
}
use stellar_txwatch_contract.Soroban.{Host, Address, Outcome, ok, err, trap, ◌>>=◌}
use stellar_txwatch_contract.Soroban.Access.{put, get-put}
use stellar_txwatch_contract.AlertRegistry.Types.{default_ttl}
use stellar_txwatch_contract.Modular.Types.{
  ContractError, State, rate_limit_count, rate_limit_window, rate_limit_exceeded,
}
use stellar_txwatch_contract.Modular.Storage.{is_paused, check_rate_limit}

-- All of these ledgers are before the end of a window that begins at `w`.
abbrev pub AllWithin : ℕ → List ℕ → Type 0
AllWithin w [] = Unit
AllWithin w (now ∷ nows) = (now < w + rate_limit_window) × AllWithin w nows

module _ (h : Host) (owner : Address) where
  -- Whether a check was passed, and the storage after it: a refusal changes nothing.
  abbrev settled : Outcome ContractError (State h) → State h → ℕ × State h
  settled (ok s') s = (1, s')
  settled (err e) s = (0, s)
  settled trap s = (0, s)

  -- How many of the checks at these ledgers, one after the other, are passed.
  unfoldable pub admitted : List ℕ → State h → ℕ
  admitted [] s = 0
  admitted (now ∷ nows) s =
      let (n, s') = settled (check_rate_limit h now owner s) s in
      let rest = admitted nows s' in n + rest

  -- The storage with the owner's window and its count.
  counted : ℕ → ℕ → State h → State h
  counted w c s = record s { rate_limits = put h default_ttl owner (w, c) s.rate_limits }

  get-counted : (w c : ℕ) (s : State h) → h.get owner (counted w c s).rate_limits ≡ some (w, c)
  unfolding counted
  get-counted w c s = get-put h default_ttl owner owner (w, c) s.rate_limits ∙ rw (==-refl owner)

  is_paused-counted : (w c : ℕ) (s : State h) → is_paused h (counted w c s) ≡ is_paused h s
  unfolding is_paused counted
  is_paused-counted w c s = refl

  check_rate_limit_passes :
      (now w c : ℕ) (s : State h)
      → is_paused h s ≡ false
      → unwrap_or (h.get owner s.rate_limits) (now, 0) ≡ (w, c)
      → now < w + rate_limit_window
      → c < rate_limit_count
      → check_rate_limit h now owner s ≡ ok (counted w (c + 1) s)
  unfolding check_rate_limit ◌>>=◌ counted
  check_rate_limit_passes now w c s running entry within room = rw (running, entry) (ground arith)

  check_rate_limit_refuses :
      (now w c : ℕ) (s : State h)
      → is_paused h s ≡ false
      → h.get owner s.rate_limits ≡ some (w, c)
      → now < w + rate_limit_window
      → rate_limit_count ≤ c
      → check_rate_limit h now owner s ≡ err rate_limit_exceeded
  unfolding check_rate_limit ◌>>=◌
  check_rate_limit_refuses now w c s running entry within full = rw (running, entry) (ground arith)

  check_rate_limit_restarts :
      (now w c : ℕ) (s : State h)
      → is_paused h s ≡ false
      → h.get owner s.rate_limits ≡ some (w, c)
      → w + rate_limit_window ≤ now
      → check_rate_limit h now owner s ≡ ok (counted now 1 s)
  unfolding check_rate_limit ◌>>=◌ counted
  check_rate_limit_restarts now w c s running entry over = rw (running, entry) (ground arith)

  -- Within a window, what is left of its ten.
  admitted_within :
      (nows : List ℕ) (w c : ℕ) (s : State h)
      → is_paused h s ≡ false
      → h.get owner s.rate_limits ≡ some (w, c)
      → AllWithin w nows
      → c ≤ rate_limit_count
      → admitted nows s ≡ min (length nows) (rate_limit_count - c)
  unfolding admitted
  admitted_within [] w c s running entry within room = omega arith
  admitted_within (now ∷ nows) w c s running entry within room =
      elim (Bool-cases (leb rate_limit_count c)) [
        | inl none_left ↦
            let full : rate_limit_count ≤ c = ground arith in
            rw (check_rate_limit_refuses now w c s running entry within.0 full)
              (omega (arith, admitted_within nows w c s running entry within.1 room))
        | inr more ↦
            let left : c < rate_limit_count = ground arith in
            rw
              (check_rate_limit_passes now w c s running (ap (λ o. unwrap_or o (now, 0)) entry)
                within.0 left)
              (omega (
                arith,
                admitted_within nows w (c + 1) (counted w (c + 1) s)
                    (is_paused-counted w (c + 1) s ∙ running) (get-counted w (c + 1) s) within.1
                    (omega arith),
              ))
      ]

  -- No window of the owner goes on at this ledger.
  abbrev pub HasNoWindow : ℕ → State h → Type 0
  HasNoWindow now s =
      (h.get owner s.rate_limits ≡ none)
      ⊎ ((w : ℕ) × (c : ℕ) × (h.get owner s.rate_limits ≡ some (w, c))
          × (w + rate_limit_window ≤ now))

  check_rate_limit_starts :
      (now : ℕ) (s : State h)
      → is_paused h s ≡ false
      → HasNoWindow now s
      → check_rate_limit h now owner s ≡ ok (counted now 1 s)
  check_rate_limit_starts now s running (inl absent) =
      check_rate_limit_passes now now 0 s running (ap (λ o. unwrap_or o (now, 0)) absent)
        (omega arith) (omega arith)
  check_rate_limit_starts now s running (inr (w, c, entry, over)) =
      check_rate_limit_restarts now w c s running entry over

  -- Where the flag under the symbol PAUSED is not set and no window of the owner goes on, of the checks that
  -- the owner makes from a ledger on and before the 100th after it, exactly the first ten are passed.
  pub admitted_lem :
      (first : ℕ) (nows : List ℕ) (s : State h)
      → is_paused h s ≡ false
      → HasNoWindow first s
      → AllWithin first nows
      → admitted (first ∷ nows) s ≡ min (length (first ∷ nows)) rate_limit_count
  unfolding admitted
  admitted_lem first nows s running start within =
      rw (check_rate_limit_starts first s running start) (
        omega (
          arith,
          admitted_within nows first 1 (counted first 1 s) (is_paused-counted first 1 s ∙ running)
              (get-counted first 1 s) within (omega arith),
        ))
