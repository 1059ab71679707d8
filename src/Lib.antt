-- ===== src/Lib.antt =====
-- The on-chain contracts of stellar-txwatch: the alert registry and the watcher registry.
--
-- The program. Owners register alerts on contracts that they want watched; off-chain watchers
-- read them. `contracts/alert-registry` keeps the alerts, with an index by owner and one by watched
-- contract, and an admin set that can pause it and limit its owners. `contracts/watcher-registry`
-- keeps the watchers; the alert registry asks it, where one is configured, before it answers four of
-- its queries.
--
-- The files. `Prelude` has the shared tests and list functions on the native numbers. `Soroban` is
-- what the contracts take from `soroban_sdk`, which is not part of the repository: `Soroban.Storage`
-- is an interface of stores with the laws that the code relies on (a read after a write, a removal,
-- an extension of a lifetime), `Soroban.MapHost` a host that meets them; `Soroban.Results` says how
-- a call ends (success with a state, a contract error, a trap), `Soroban.Access` has the pairs of
-- calls that recur, `Soroban.Matching` the lemmas that compare two ways to answer a call.
--
-- `AlertRegistry` is contracts/alert-registry/src/lib.rs, one function for each function there:
--   `Types`    the constants, `ContractError`, `AlertConfig`, `AlertInput`, the storage as a record
--              with a store for each key, the events;
--   `Validate` `validate_label`, `validate_rules`, `validate_rule`, `validate_tags`;
--   `Store`    the internal helpers: guards, limit, counter, indexes, removal;
--   `Admin`    `initialize` to `get_watcher_registry`;
--   `Register` `register_alert`, `batch_register_alerts`;
--   `Update`   the entry points that change or remove one alert;
--   `Ttl`      `bump_alert`, `bulk_renew_ttl`, `deactivate_all_alerts`;
--   `Queries`  the reads, with the watcher gating;
--   `Calls`    a call as a value, its execution, and sequences of calls and expiries.
-- Proofs: `Invariant` (with its children, over `Indexed`) states the invariant of the storage and shows
-- it for each operation, `Reachable` for every run; `Spec` (with its children) describes the registry
-- as a map from IDs to alerts and compares each call, and every run, with that description; `Access` treats signatures, `Pausing` the pause;
-- `Lookup`, `Queries.Pages`, `Queries.Sync` and `Gating` the queries; `Registration`, `Admission`,
-- `Removal`, `Deactivation`, `Renewal`, `Rotation`, `AdminSet` and `Validate.Rules` their entry
-- points. `Tests` runs the contract on concrete inputs.
--
-- `WatcherRegistry` is contracts/watcher-registry/src/lib.rs in the same way: `Types`, `Store` (the
-- internal helpers), `Admins`, `Watchers`, `Queries`, `Calls` (the calls of a history, all that
-- write but `register_watcher`); `Spec` (with its children) describes the registry as a roster of
-- watchers with their expiries and compares each of those calls, and every history of them, with
-- it; `Registration`, `Revocation`, `Counting` and `AdminSet` are proofs, `Tests` the concrete
-- inputs. That file uses names that it does not declare: two error variants and `WatcherInfo` are
-- declared here as it uses them, the other names (`label` and `watchers` in `register_watcher`,
-- `MAX_LABEL_BYTES`, `MAX_PAGE_LIMIT`) are arguments.
--
-- `Modular` is the second implementation of the alert registry that stands beside the first and is
-- not built: `Types` is contracts/alert-registry/src/types.rs, `Storage` storage.rs, `Checks` (the
-- private helpers), `Contract` (the entry points that write), `Queries` and `Calls` are contract.rs.
-- `Invariant`, `Reachable`, `Registration`, `Renewal`, `RateLimit`, `Reads` and `Pausing` are proofs,
-- `Tests` the concrete inputs. Names that the source uses and does not declare are arguments here too.
--
-- `Composition` has the alert registry ask the watcher registry: its gated queries with the watcher
-- registry's answers in place of the function that they take.
--
-- `Indexed` says what an index has to be, for both implementations.
--
-- Conventions. Addresses are numbers, strings are lists of bytes. A function that writes takes the
-- state and returns the new one in an `Outcome`; as the host undoes what a failed call wrote, only a
-- success carries a state, and a write that precedes a check of the source may follow it here.
-- Loops are recursions on the lists or counts that they run over, so no fuel is needed. `u32` and
-- `u64` are numbers, with their saturation and their checked increment written out where the code
-- has them. Signatures and ledger time are the fields of `Env`.
--
-- Not modelled: any contract but the watcher registry that the alert registry may be set to ask (the
-- gating takes the answers as a function); a `register_watcher` within a history, as its list of
-- watchers is a name that the source does not declare; guards.rs of the alert registry and storage.rs and types.rs of the watcher
-- registry, which no crate builds and which do not parse or name what no file declares; a limit on
-- the size of an entry or on the cost of a call; the expiry of an index or of a flag before its
-- alert; tests, bindings, scripts and documents.
pub mod Prelude
pub mod Soroban
pub mod AlertRegistry
pub mod WatcherRegistry
pub mod Modular
pub mod Indexed
pub mod Composition
