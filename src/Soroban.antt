-- ===== src/Soroban.antt =====
-- What the contracts take from `soroban_sdk`, which is not part of this repository.
--
-- The storage of the host is a parameter, `Host`, with the documented behaviour of its operations
-- as laws. The rest is how a call ends (`Outcome`) and what the host tells it (`Env`). Addresses
-- are compared and used as keys, nothing more, so they are numbers; a `String` is the list of its
-- bytes, a `Vec` is a list.
mod Storage
mod Results
pub mod Access
pub mod MapHost
pub mod Matching
pub use Storage.*
unfoldable pub use Results.*
