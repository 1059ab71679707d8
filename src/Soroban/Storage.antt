-- ===== src/Soroban/Storage.antt =====
-- The storage of the host: `env.storage().persistent()` and `env.storage().instance()`.
use stellar_txwatch_contract.Prelude.{ℕ, ◌≡◌, Bool, Option, none, ltb, ◌==◌, if◌then◌else◌, List}

-- `Store V` holds the entries of one variant of a contract's storage keys, by the number in the
-- key: an alert ID or an address. Entries of different variants never collide, so each variant
-- has a store of its own; a variant with no number in it is entry 0 of its store.
pub record Host : Type 1 where
  pub Store : Type 0 → Type 0
  -- `get`: the entry, if it is there.
  pub get : {V : Type 0} → ℕ → Store V → Option V
  pub set : {V : Type 0} → ℕ → V → Store V → Store V
  pub remove : {V : Type 0} → ℕ → Store V → Store V
  -- The ledgers that an entry has left.
  pub ttl : {V : Type 0} → ℕ → Store V → ℕ
  -- `extend_ttl(key, threshold, extend_to)` on a key that is there.
  pub extended : {V : Type 0} → ℕ → ℕ → ℕ → Store V → Store V
  pub get-set :
      {V : Type 0} (j k : ℕ) (v : V) (s : Store V)
      → get j (set k v s) ≡ (if k == j then Option.some v else get j s)
  pub get-remove :
      {V : Type 0} (j k : ℕ) (s : Store V) → get j (remove k s) ≡ (if k == j then none else get j s)
  -- To extend a lifetime changes no data.
  pub get-extended :
      {V : Type 0} (j k threshold extend_to : ℕ) (s : Store V)
      → get j (extended k threshold extend_to s) ≡ get j s
  -- The lifetime becomes `extend_to`, if it was below the threshold.
  pub ttl-extended :
      {V : Type 0} (j k threshold extend_to : ℕ) (s : Store V)
      → ttl j (extended k threshold extend_to s)
        ≡ (if k == j then if ltb (ttl k s) threshold then extend_to else ttl k s else ttl j s)

abbrev pub Address : Type 0
Address = ℕ

-- A `String`, by its bytes.
abbrev pub Bytes : Type 0
Bytes = List ℕ

-- What the host tells a call: whose signature it carries, and the ledger's time.
pub record Env : Type 0 where
  pub authorized : Address → Bool
  pub timestamp : ℕ
