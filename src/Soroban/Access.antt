-- ===== src/Soroban/Access.antt =====
-- Access to one store of the host: the pairs of calls that the contracts make everywhere.
use stellar_txwatch_contract.Prelude.{
  ℕ, [], List, ◌≡◌, Bool, true, some, ◌==◌, if◌then◌else◌, is_some, is_empty, unwrap_or, arith, ◌≤◌,
  ◌∷◌,
}
use stellar_txwatch_contract.Soroban.Storage.{Host, Address, Env}
use stellar_txwatch_contract.Soroban.Results.{Outcome, ok, trap}

-- `a.require_auth()`: the host refuses the call without the signature.
abbrev pub require_auth : {E : Type 0} → Env → Address → Outcome E (Unit {0})
require_auth env a = if env.authorized a then ok tt else trap

pub require_auth-eq-ok :
    {E : Type 0} (env : Env) (a : Address) {u : Unit {0}}
    → require_auth {E = E} env a ≡ ok u
    → env.authorized a ≡ true
require_auth-eq-ok env a h = ground arith

module _ (h : Host) where
  open h use {Store, get, set, remove, ttl, extended, get-set, get-remove, get-extended}

  -- `has`
  abbrev pub has : {V : Type 0} → ℕ → Store V → Bool
  has k s = is_some (get k s)

  -- `set(k, v)`, then `extend_ttl(k, t, t)`; the key is there by then.
  unfoldable pub put : {V : Type 0} → ℕ → ℕ → V → Store V → Store V
  put t k v s = extended k t t (set k v s)

  -- `extend_ttl(k, t, t)`: the host traps if the key is not there.
  unfoldable pub extend : {E V : Type 0} → ℕ → ℕ → Store V → Outcome E (Store V)
  extend t k s = if has k s then ok (extended k t t s) else trap

  -- `get(k).unwrap_or_else(|| vec![env])`
  abbrev pub load_list : {V : Type 0} → ℕ → Store (List V) → List V
  load_list k s = unwrap_or (get k s) []

  -- Remove the key rather than store an empty list (#203).
  unfoldable pub put_list : {V : Type 0} → ℕ → ℕ → List V → Store (List V) → Store (List V)
  put_list t k l s = if is_empty l then remove k s else put t k l s

  pub get-put :
      {V : Type 0} (t j k : ℕ) (v : V) (s : Store V)
      → get j (put t k v s) ≡ (if k == j then some v else get j s)
  unfolding put
  get-put t j k v s = rw (get-extended, get-set)

  pub load_list-put :
      {V : Type 0} (t j k : ℕ) (l : List V) (s : Store (List V))
      → load_list j (put t k l s) ≡ (if k == j then l else load_list j s)
  load_list-put t j k l s = rw get-put (ground arith)

  pub load_list-put_list :
      {V : Type 0} (t j k : ℕ) (l : List V) (s : Store (List V))
      → load_list j (put_list t k l s) ≡ (if k == j then l else load_list j s)
  unfolding put_list
  load_list-put_list t j k [] s = rw get-remove (ground arith)
  load_list-put_list t j k (x ∷ l) s = load_list-put t j k (x ∷ l) s

  -- Extending succeeds exactly on the keys that are there, and changes no data.
  pub extend-eq :
      {E V : Type 0} (t k : ℕ) (s : Store V) {v : V}
      → get k s ≡ some v
      → extend {E = E} t k s ≡ ok (extended k t t s)
  unfolding extend
  extend-eq t k s e = rw e

  pub extend-eq-ok :
      {E V : Type 0} (t k : ℕ) (s : Store V) {s' : Store V}
      → extend {E = E} t k s ≡ ok s'
      → s' ≡ extended k t t s
  unfolding extend
  extend-eq-ok t k s e = ground arith

  pub get-extend :
      {E V : Type 0} (t j k : ℕ) (s : Store V) {s' : Store V}
      → extend {E = E} t k s ≡ ok s'
      → get j s' ≡ get j s
  get-extend t j k s e = rw (extend-eq-ok t k s e) (get-extended j k t t s)

  -- What has been extended to `t` stays for `t` ledgers at least.
  pub ttl-extended-ge : {V : Type 0} (t k : ℕ) (s : Store V) → t ≤ ttl k (extended k t t s)
  ttl-extended-ge t k s = rw (h.ttl-extended k k t t s) (ground arith)
