-- ===== src/WatcherRegistry/Spec/Rosters.antt =====
-- The list of watchers beside the map of expiries, and the one roster that they stand for.
use stellar_txwatch_contract.Prelude.{
  ℕ, ◌≡◌, refl, ap, ◌∙◌, sym, true, false, Option, none, some, List, [], ◌∷◌, ◌++◌, map, leb, ◌==◌,
  arith, length, keep_if, contains, if◌then◌else◌, contains-snoc, Bool-cases, inl, inr,
}
use stellar_txwatch_contract.Soroban.{Host, Address}
use stellar_txwatch_contract.WatcherRegistry.Types.{State}
use stellar_txwatch_contract.WatcherRegistry.Store.{
  map_get, map_remove, map_set, load_watchers, load_expiries,
}
use stellar_txwatch_contract.WatcherRegistry.Watchers.{without, merge}
use stellar_txwatch_contract.WatcherRegistry.Queries.{is_authorized_at}
use stellar_txwatch_contract.WatcherRegistry.Revocation.{map_get-map_remove}
use stellar_txwatch_contract.WatcherRegistry.Spec.{
  row, view, on_roster, allows, off, renewed, enlist, enlist_all,
}

map_get-map_set :
    (a b : Address) (e : ℕ) (m : List (Address × ℕ))
    → map_get b (map_set a e m) ≡ (if a == b then some e else map_get b m)
unfolding map_get map_set
map_get-map_set a b e m = ground (arith, map_get-map_remove a b m)

-- An expiry that is set or taken away.
unfoldable pub set_to : Address → Option ℕ → List (Address × ℕ) → List (Address × ℕ)
set_to w none m = map_remove w m
set_to w (some e) m = map_set w e m

pub map_get-set_to :
    (w b : Address) (e : Option ℕ) (m : List (Address × ℕ))
    → map_get b (set_to w e m) ≡ (if w == b then e else map_get b m)
unfolding set_to
map_get-set_to w b none m = map_get-map_remove w b m
map_get-set_to w b (some e) m = map_get-map_set w b e m

module _ (m : List (Address × ℕ)) where
  pub on_roster-map : (a : Address) (l : List Address) → on_roster a (map (row m) l) ≡ contains l a
  unfolding on_roster contains
  on_roster-map a [] = refl
  on_roster-map a (w ∷ l) = ground (arith, on_roster-map a l)

  pub length-map : (l : List Address) → length (map (row m) l) ≡ length l
  length-map [] = refl
  length-map (w ∷ l) = omega (arith, length-map l)

  pub map-append :
      (xs ys : List Address) → map (row m) (xs ++ ys) ≡ map (row m) xs ++ map (row m) ys
  map-append [] ys = refl
  map-append (x ∷ xs) ys = ap (◌∷◌ (row m x)) (map-append xs ys)

  -- A removal from the list and from the expiries.
  pub map-without :
      (w : Address) (l : List Address)
      → map (row (map_remove w m)) (without w l) ≡ off w (map (row m) l)
  unfolding keep_if
  map-without w [] = refl
  map-without w (x ∷ l) = elim (Bool-cases (x == w)) [
    | inl same ↦ rw same (map-without w l)
    | inr other ↦
        let kept : map_get x (map_remove w m) ≡ map_get x m =
          map_get-map_remove w x m ∙ ground arith in
        rw (other, kept) (ap (◌∷◌ (row m x)) (map-without w l))
  ]

  pub map-set_to :
      (w : Address) (e : Option ℕ) (l : List Address)
      → map (row (set_to w e m)) l ≡ renewed w e (map (row m) l)
  map-set_to w e [] = refl
  map-set_to w e (x ∷ l) = elim (Bool-cases (x == w)) [
    | inl same ↦
        let now : map_get x (set_to w e m) ≡ e = map_get-set_to w x e m ∙ ground arith in
        rw (same, now) (ap (◌∷◌ (x, e)) (map-set_to w e l))
    | inr other ↦
        let kept : map_get x (set_to w e m) ≡ map_get x m = map_get-set_to w x e m ∙ ground arith in
        rw (other, kept) (ap (◌∷◌ (row m x)) (map-set_to w e l))
  ]

  -- Who is not on the list has no expiry.
  abbrev pub NoStale : List Address → Type 0
  NoStale l = (a : Address) → contains l a ≡ false → map_get a m ≡ none

  map-snoc :
      (w : Address) (l : List Address)
      → NoStale l
      → contains l w ≡ false
      → map (row m) (l ++ w ∷ []) ≡ map (row m) l ++ (w, none) ∷ []
  map-snoc w l fresh new =
      map-append l (w ∷ []) ∙ ap (λ e. map (row m) l ++ (w, e) ∷ []) (fresh w new)

  pub map-enlist :
      (w : Address) (l : List Address)
      → NoStale l
      → map (row m) (if contains l w then l else l ++ w ∷ []) ≡ enlist w (map (row m) l)
  map-enlist w l fresh = elim (Bool-cases (contains l w)) [
    | inl there ↦ rw (on_roster-map, there)
    | inr new ↦ rw (on_roster-map, new) (map-snoc w l fresh new)
  ]

  pub NoStale-snoc : (w : Address) (l : List Address) → NoStale l → NoStale (l ++ w ∷ [])
  NoStale-snoc w l fresh a out = fresh a (ground (arith, contains-snoc l w a))

  pub map-merge :
      (ws l added : List Address)
      → NoStale l
      → map (row m) (merge ws l added).0 ≡ enlist_all ws (map (row m) l)
  unfolding merge enlist_all
  map-merge [] l added fresh = refl
  map-merge (w ∷ ws) l added fresh = elim (Bool-cases (contains l w)) [
    | inl there ↦ rw (there, on_roster-map, there) (map-merge ws l added fresh)
    | inr new ↦
        rw (new, on_roster-map, new)
          (map-merge ws (l ++ w ∷ []) (added ++ w ∷ []) (NoStale-snoc w l fresh)
            ∙ ap (enlist_all ws) (map-snoc w l fresh new))
  ]

  pub NoStale-merge : (ws l added : List Address) → NoStale l → NoStale (merge ws l added).0
  unfolding merge
  NoStale-merge [] l added fresh = fresh
  NoStale-merge (w ∷ ws) l added fresh = elim (Bool-cases (contains l w)) [
    | inl there ↦ rw there (NoStale-merge ws l added fresh)
    | inr new ↦ rw new (NoStale-merge ws (l ++ w ∷ []) (added ++ w ∷ []) (NoStale-snoc w l fresh))
  ]

  pub allows-map :
      (now : ℕ) (a : Address) (l : List Address)
      → allows now a (map (row m) l) ≡ (
          if contains l a
          then elim (map_get a m) [ none ↦ true | some exp ↦ leb now exp ]
          else false)
  unfolding allows contains
  allows-map now a [] = refl
  allows-map now a (w ∷ l) = elim (Bool-cases (w == a)) [
    | inl same ↦ rw same (
        let e : w ≡ a = ground arith in
        ap (λ x. elim (map_get x m) [ none ↦ true | some exp ↦ leb now exp ]) e)
    | inr other ↦ rw other (allows-map now a l)
  ]

-- The query answers what the roster says.
pub is_authorized_at-allows :
    (h : Host) (now : ℕ) (a : Address) (s : State h)
    → is_authorized_at h now a s ≡ allows now a ((view h s).roster)
unfolding is_authorized_at view
is_authorized_at-allows h now a s = sym (allows-map (load_expiries h s) now a (load_watchers h s))
