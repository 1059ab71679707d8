-- ===== src/AlertRegistry/Spec/Returns.antt =====
-- A call that has the signatures it asks for returns.
use stellar_txwatch_contract.Prelude.{
  ℕ, ◌≡◌, ◌≢◌, refl, Bool, true, false, Option, none, some, List, [], ◌∷◌, ◌++◌, arith,
  if◌then◌else◌,
}
use stellar_txwatch_contract.Soroban.{Env, Address, Outcome, ok, err, trap, ◌>>=◌, reject_if, ok_or}
use stellar_txwatch_contract.Soroban.Access.{require_auth}
use stellar_txwatch_contract.AlertRegistry.Types.{ContractError, AlertConfig, AlertInput}
use stellar_txwatch_contract.AlertRegistry.Validate.{
  validate_label, validate_rule, validate_rules_loop, validate_rules, validate_tags_loop,
  validate_tags,
}
use stellar_txwatch_contract.AlertRegistry.Register.{check_webhook_hash, check_input, check_inputs}
use stellar_txwatch_contract.AlertRegistry.Calls.{Call}
use stellar_txwatch_contract.AlertRegistry.Spec.{Spec, room, create, create_all}

-- The call returns, a value or an error: it does not trap.
unfoldable Returns : {A : Type 0} → Outcome ContractError A → Type 0
Returns m = m ≢ trap

module _ {A : Type 0} where
  ok-Returns : (a : A) → Returns (ok a)
  unfolding Returns
  ok-Returns a p = cc

  ok_or-Returns : (o : Option A) (e : ContractError) → Returns (ok_or o e)
  unfolding Returns
  ok_or-Returns none e p = cc
  ok_or-Returns (some a) e p = cc

  >>=-Returns :
      {B : Type 0} (m : Outcome ContractError B) (f : B → Outcome ContractError A)
      → Returns m
      → ((b : B) → Returns (f b))
      → Returns (m >>= f)
  unfolding Returns ◌>>=◌
  >>=-Returns (ok b) f r k = k b
  >>=-Returns (err e) f r k = λ p. cc
  >>=-Returns trap f r k = λ p. r refl

  if-Returns :
      (b : Bool) (m n : Outcome ContractError A)
      → Returns m
      → Returns n
      → Returns (if b then m else n)
  if-Returns true m n r q = r
  if-Returns false m n r q = q

reject_if-Returns : (b : Bool) (e : ContractError) → Returns (reject_if b e)
unfolding Returns
reject_if-Returns true e p = cc
reject_if-Returns false e p = cc

ruleset returning = (ok-Returns, ok_or-Returns, reject_if-Returns, >>=-Returns, if-Returns)

check_webhook_hash-Returns : (w : List ℕ) → Returns (check_webhook_hash w)
unfolding check_webhook_hash
check_webhook_hash-Returns w = search returning

validate_label-Returns : (l : List ℕ) → Returns (validate_label l)
unfolding validate_label
validate_label-Returns l = search returning

validate_rules_loop-Returns :
    (seen rules : List (List ℕ)) → Returns (validate_rules_loop seen rules)
unfolding validate_rules_loop validate_rule
validate_rules_loop-Returns seen [] = search returning
validate_rules_loop-Returns seen (r ∷ rules) =
    search (returning, validate_rules_loop-Returns (seen ++ r ∷ []) rules)

validate_rules-Returns : (rules : List (List ℕ)) → Returns (validate_rules rules)
unfolding validate_rules
validate_rules-Returns rules = search (returning, validate_rules_loop-Returns)

validate_tags_loop-Returns : (tags : List (List ℕ)) → Returns (validate_tags_loop tags)
unfolding validate_tags_loop
validate_tags_loop-Returns [] = search returning
validate_tags_loop-Returns (t ∷ tags) = search (returning, validate_tags_loop-Returns tags)

validate_tags-Returns : (tags : Option (List (List ℕ))) → Returns (validate_tags tags)
unfolding validate_tags
validate_tags-Returns none = search returning
validate_tags-Returns (some t) = search (returning, validate_tags_loop-Returns)

check_input-Returns : (i : AlertInput) → Returns (check_input i)
unfolding check_input
check_input-Returns i =
    search (returning, check_webhook_hash-Returns, validate_label-Returns, validate_rules-Returns)

check_inputs-Returns : (is : List AlertInput) → Returns (check_inputs is)
unfolding check_inputs
check_inputs-Returns [] = search returning
check_inputs-Returns (i ∷ is) = search (returning, check_input-Returns, check_inputs-Returns is)

ruleset checks_return = (
  returning, check_webhook_hash-Returns, validate_label-Returns, validate_rules-Returns,
  validate_tags-Returns, check_inputs-Returns,
)

create-Returns : (c : AlertConfig) (v : Spec) → Returns (create c v)
unfolding create
create-Returns c v = search returning

create_all-Returns :
    (env : Env) (a : Address) (is : List AlertInput) (v : Spec) → Returns (create_all env a is v)
unfolding create_all
create_all-Returns env a [] v = search returning
create_all-Returns env a (i ∷ is) v =
    >>=-Returns _ _ (create-Returns _ v) (λ w. create_all-Returns env a is w)

room-Returns : (a : Address) (n : ℕ) (v : Spec) → Returns (room a n v)
unfolding room
room-Returns a n v = search returning

-- The one address that a call has to be signed by, if any.
unfoldable pub signer_of : Call → Option Address
signer_of (Call.initialize a) = none
signer_of (Call.transfer_admin a b) = some a
signer_of (Call.add_admin a b) = some a
signer_of (Call.remove_admin a b) = some a
signer_of (Call.set_watcher_registry a b) = some a
signer_of (Call.set_per_owner_alert_limit a n) = some a
signer_of (Call.set_paused a b) = some a
signer_of (Call.register_alert a b l w rs ts) = some a
signer_of (Call.batch_register_alerts a is) = some a
signer_of (Call.pause_alert a id) = some a
signer_of (Call.unpause_alert a id) = some a
signer_of (Call.update_alert a id rs b) = some a
signer_of (Call.update_webhook a id w) = some a
signer_of (Call.propose_webhook a id w) = some a
signer_of (Call.update_label a id l) = some a
signer_of (Call.confirm_webhook a id) = some a
signer_of (Call.remove_alert a id) = some a
signer_of (Call.remove_alert_by_admin a id) = some a
signer_of (Call.bump_alert id t) = none
signer_of (Call.bulk_renew_ttl ids) = none
signer_of (Call.get_alert id) = none
signer_of (Call.deactivate_all_alerts a) = some a
signer_of (Call.update_target_contract a id b) = some a
signer_of (Call.transfer_alert_ownership a id b) = some a
signer_of (Call.update_tags a id ts) = some a

module _ (env : Env) where
  require_auth-Returns : (a : Address) → env.authorized a ≡ true → Returns (require_auth env a)
  unfolding Returns
  require_auth-Returns a signed p = ground arith

  ruleset steps_return =
      (checks_return, room-Returns, create-Returns, create_all-Returns, require_auth-Returns)

  -- The address whose signature the call asks for has signed.
  abbrev pub HasSigned : Call → Type 0
  HasSigned c = elim (signer_of c) [ none ↦ Unit | some a ↦ env.authorized a ≡ true ]
