-- ===== src/AlertRegistry/AdminSet.antt =====
-- The admin set: never empty once it is set, and no admin twice.
use mathlib.Core.Path.{subst}
use stellar_txwatch_contract.Prelude.{
  ◌<◌, ◌≡◌, refl, sym, true, false, not, Option, none, some, List, [], ◌∷◌, ◌++◌, arith, length,
  leb, ◌==◌, contains, distinct, length-keep_if_ne, keep_if, distinct-keep_if, distinct-snoc,
  length-append,
}
use stellar_txwatch_contract.Soroban.{
  Host, Address, Env, Ensures, Ensures->>=, Ensures-ok, ok_or-eq-ok, reject_if-eq-ok,
}
use stellar_txwatch_contract.AlertRegistry.Types.{Event, State}
use stellar_txwatch_contract.AlertRegistry.Store.{decode_admins, load_admins, set_admins, publish}
use stellar_txwatch_contract.AlertRegistry.Admin.{
  initialize, transfer_admin, add_admin, remove_admin,
}

-- Not set, or not empty and without repetition.
abbrev pub AdminsOk : Option (List Address) → Type 0
AdminsOk none = Unit
AdminsOk (some l) = (distinct l ≡ true) × (0 < length l)

AdminsOk-some :
    (o : Option (List Address)) (l : List Address)
    → o ≡ some l
    → AdminsOk o
    → (distinct l ≡ true) × (0 < length l)
AdminsOk-some o l e v = subst AdminsOk e v

module _ (h : Host) where
  abbrev pub HasAdmins : State h → Type 0
  HasAdmins s = AdminsOk (load_admins h s)

  load_admins-set_admins :
      (l : List Address) (e : Event) (s : State h)
      → load_admins h (publish h e (set_admins h l s)) ≡ some l
  unfolding load_admins set_admins decode_admins
  load_admins-set_admins l e s = rw (h.get-set, load_admins)

  set_admins-HasAdmins :
      (l : List Address) (e : Event) (s : State h)
      → distinct l ≡ true
      → 0 < length l
      → HasAdmins (publish h e (set_admins h l s))
  set_admins-HasAdmins l e s d n = subst AdminsOk (sym (load_admins-set_admins l e s)) (d, n)

  snoc-HasAdmins :
      (l : List Address) (b : Address) (e : Event) (s : State h)
      → distinct l ≡ true
      → contains l b ≡ false
      → HasAdmins (publish h e (set_admins h (l ++ b ∷ []) s))
  snoc-HasAdmins l b e s d out =
      set_admins-HasAdmins (l ++ b ∷ []) e s (distinct-snoc l b d out)
        (omega (arith, length-append l (b ∷ [])))

  without-HasAdmins :
      (l : List Address) (b : Address) (e : Event) (s : State h)
      → distinct l ≡ true
      → leb (length l) 1 ≡ false
      → HasAdmins (publish h e (set_admins h (keep_if (λ a. not (a == b)) l) s))
  without-HasAdmins l b e s d many =
      set_admins-HasAdmins (keep_if (λ a. not (a == b)) l) e s
        (distinct-keep_if (λ a. not (a == b)) l d) (ground (arith, length-keep_if_ne b l d))

  one-HasAdmins :
      (b : Address) (e : Event) (s : State h) → HasAdmins (publish h e (set_admins h (b ∷ []) s))
  unfolding distinct contains
  one-HasAdmins b e s = set_admins-HasAdmins (b ∷ []) e s refl (omega arith)

  -- If the admin set is not stored, or is not empty and free of repetitions, then so it is after
  -- each of `initialize`, `transfer_admin`, `add_admin` and `remove_admin` that succeeds.
  pub admin_calls-HasAdmins :
      (env : Env) (a b : Address) (s : State h)
      → HasAdmins s
      → Ensures HasAdmins (initialize h a s)
        × Ensures HasAdmins (transfer_admin h env a b s)
        × Ensures HasAdmins (add_admin h env a b s)
        × Ensures HasAdmins (remove_admin h env a b s)
  unfolding initialize transfer_admin add_admin remove_admin
  admin_calls-HasAdmins env a b s v =
      let P = HasAdmins in
      (
        Ensures->>= P _ _ λ _ _. Ensures-ok _ P (one-HasAdmins a _ s),
        Ensures->>= P _ _ λ _ _. Ensures->>= P _ _ λ _ _. Ensures-ok _ P (one-HasAdmins b _ s),
        Ensures->>= P _ _ λ _ _. Ensures->>= P _ _ λ _ _. Ensures->>= P _ _ λ l e.
            Ensures->>= P _ _ λ _ out. Ensures-ok _ P (
              let fine = AdminsOk-some (load_admins h s) l (ok_or-eq-ok _ _ e) v in
              snoc-HasAdmins l b _ s fine.0 (reject_if-eq-ok _ _ out)),
        Ensures->>= P _ _ λ _ _. Ensures->>= P _ _ λ _ _. Ensures->>= P _ _ λ l e.
            Ensures->>= P _ _ λ _ _. Ensures->>= P _ _ λ _ many. Ensures-ok _ P (
              let fine = AdminsOk-some (load_admins h s) l (ok_or-eq-ok _ _ e) v in
              without-HasAdmins l b _ s fine.0 (reject_if-eq-ok _ _ many)),
      )
