-- ===== src/Soroban/MapHost.antt =====
-- A host that keeps its stores as functions: the laws of `Host` can be met, and the contracts run
-- on it in the tests.
use stellar_txwatch_contract.Prelude.{ℕ, refl, Option, none, some, ltb, ◌==◌, if◌then◌else◌}
use stellar_txwatch_contract.Soroban.Storage.{Host}

-- The entries, and the ledgers that each has left.
pub record MapStore (V : Type 0) : Type 0 where
  pub entry : ℕ → Option V
  pub left : ℕ → ℕ

abbrev pub extended_map : {V : Type 0} → ℕ → ℕ → ℕ → MapStore V → MapStore V
extended_map k threshold extend_to s = record s {
  left = λ j. if k == j then if ltb (s.left k) threshold then extend_to else s.left k else s.left j;
}

abbrev pub map_host : Host
map_host = record {
  Store = MapStore;
  get = λ j s. s.entry j;
  set = λ k v s. record s { entry = λ j. if k == j then some v else s.entry j };
  remove = λ k s. record s { entry = λ j. if k == j then none else s.entry j };
  ttl = λ j s. s.left j;
  extended = extended_map;
  get-set = λ j k v s. refl;
  get-remove = λ j k s. refl;
  get-extended = λ j k t e s. refl;
  ttl-extended = λ j k t e s. refl;
}

-- A store with no entry.
abbrev pub no_entries : {V : Type 0} → MapStore V
no_entries = record { entry = λ j. none; left = λ j. 0 }
