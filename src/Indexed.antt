-- ===== src/Indexed.antt =====
-- What the owner index and the contract index have to be, over the alerts and the lists of IDs as
-- functions, and how each change of an alert with its index entry keeps it.
use stellar_txwatch_contract.Prelude.{
  ℕ, suc, ◌<◌, ◌≡◌, true, false, not, Option, none, some, List, [], ◌∷◌, ◌++◌, arith, ◌==◌,
  if◌then◌else◌, is_some, contains, distinct, keep_if, contains-snoc, distinct-snoc,
  contains-keep_if, distinct-keep_if,
}
use stellar_txwatch_contract.Soroban.{Address}

-- `key` is the field that the index goes by, `at` the stored alerts, `ids` the index, `n` the
-- next ID. An index may list IDs of alerts that have expired, never those of another key.
pub record Indexed {A : Type 0} (key : A → Address) (at : ℕ → Option A) (ids : Address → List ℕ)
    (n : ℕ) : Type 0 where
  -- A stored alert stands in the list of its key.
  pub listed : (id : ℕ) (c : A) → at id ≡ some c → contains (ids (key c)) id ≡ true
  -- A listed alert, if it is stored, has that key.
  pub only :
      (a : Address) (id : ℕ) (c : A) → contains (ids a) id ≡ true → at id ≡ some c → key c ≡ a
  -- Only IDs that have been handed out are listed, and none twice.
  pub fresh : (a : Address) (id : ℕ) → contains (ids a) id ≡ true → id < n
  pub unique : (a : Address) → distinct (ids a) ≡ true

module _ {A : Type 0} (key : A → Address) {at at' : ℕ → Option A} {ids ids' : Address → List ℕ}
    {n : ℕ} where
  -- A new alert under the next ID.
  pub Indexed-insert :
      (c : A)
      → Indexed key at ids n
      → ((j : ℕ) → at' j ≡ (if n == j then some c else at j))
      → ((a : Address) → ids' a ≡ (if key c == a then ids a ++ n ∷ [] else ids a))
      → Indexed key at' ids' (suc n)
  Indexed-insert c v e f = record {
    listed =
        λ id d p. ground (arith, e id, f (key d), v.listed id d, contains-snoc (ids (key d)) n id);
    only = λ a id d p q.
        ground (arith, e id, f a, v.only a id d, v.fresh a id, contains-snoc (ids a) n id);
    fresh = λ a id p. ground (arith, f a, v.fresh a id, contains-snoc (ids a) n id);
    unique = λ a. ground (arith, f a, v.unique a, v.fresh a n, distinct-snoc (ids a) n);
  }

  -- An alert changes, and keeps its key.
  pub Indexed-update :
      (id : ℕ) (c c' : A)
      → Indexed key at ids n
      → at id ≡ some c
      → key c' ≡ key c
      → ((j : ℕ) → at' j ≡ (if id == j then some c' else at j))
      → ((a : Address) → ids' a ≡ ids a)
      → Indexed key at' ids' n
  Indexed-update id c c' v here same e f = record {
    listed = λ j d p. ground (arith, e j, f (key d), v.listed j d, v.listed id c);
    only = λ a j d p q. ground (arith, e j, f a, v.only a j d, v.only a j c);
    fresh = λ a j p. ground (arith, f a, v.fresh a j);
    unique = λ a. ground (arith, f a, v.unique a);
  }

  -- An alert and its index entry go.
  pub Indexed-remove :
      (id : ℕ) (k : Address)
      → Indexed key at ids n
      → ((j : ℕ) → at' j ≡ (if id == j then none else at j))
      → ((a : Address) → ids' a ≡ (if k == a then keep_if (λ v. not (v == id)) (ids a) else ids a))
      → Indexed key at' ids' n
  Indexed-remove id k v e f = record {
    listed = λ j d p. ground (
      arith,
      e j,
      f (key d),
      v.listed j d,
      contains-keep_if (λ w. not (w == id)) (ids (key d)) j,
    );
    only = λ a j d p q.
        ground (arith, e j, f a, v.only a j d, contains-keep_if (λ w. not (w == id)) (ids a) j);
    fresh =
        λ a j p. ground (arith, f a, v.fresh a j, contains-keep_if (λ w. not (w == id)) (ids a) j);
    unique = λ a. ground (arith, f a, v.unique a, distinct-keep_if (λ w. not (w == id)) (ids a));
  }

  -- One list is cut down to the alerts that are stored.
  pub Indexed-prune :
      (k : Address)
      → Indexed key at ids n
      → ((j : ℕ) → at' j ≡ at j)
      → ((a : Address) → ids' a ≡ (if k == a then keep_if (λ v. is_some (at v)) (ids a) else ids a))
      → Indexed key at' ids' n
  Indexed-prune k v e f = record {
    listed = λ j d p. ground (
      arith,
      e j,
      f (key d),
      v.listed j d,
      contains-keep_if (λ w. is_some (at w)) (ids (key d)) j,
    );
    only = λ a j d p q.
        ground (arith, e j, f a, v.only a j d, contains-keep_if (λ w. is_some (at w)) (ids a) j);
    fresh =
        λ a j p. ground (arith, f a, v.fresh a j, contains-keep_if (λ w. is_some (at w)) (ids a) j);
    unique = λ a. ground (arith, f a, v.unique a, distinct-keep_if (λ w. is_some (at w)) (ids a));
  }

  -- An alert moves to another key: its entry is taken out of the one list, and put at the end of
  -- the other.
  pub Indexed-move :
      (id : ℕ) (c c' : A) {mid : Address → List ℕ}
      → Indexed key at ids n
      → at id ≡ some c
      → ((j : ℕ) → at' j ≡ (if id == j then some c' else at j))
      → ((a : Address)
          → mid a ≡ (if key c == a then keep_if (λ v. not (v == id)) (ids a) else ids a))
      → ((a : Address) → ids' a ≡ (if key c' == a then mid a ++ id ∷ [] else mid a))
      → contains (mid (key c')) id ≡ false
      → Indexed key at' ids' n
  Indexed-move id c c' {mid} v here e f g gone = record {
    listed = λ j d p. ground (
      arith,
      e j,
      f (key d),
      g (key d),
      v.listed j d,
      contains-snoc (mid (key d)) id j,
      contains-keep_if (λ w. not (w == id)) (ids (key d)) j,
    );
    only = λ a j d p q. ground (
      arith,
      e j,
      f a,
      g a,
      v.only a j d,
      v.only a j c,
      contains-snoc (mid a) id j,
      contains-keep_if (λ w. not (w == id)) (ids a) j,
    );
    fresh = λ a j p. ground (
      arith,
      f a,
      g a,
      v.fresh a j,
      v.fresh (key c) id (v.listed id c here),
      contains-snoc (mid a) id j,
      contains-keep_if (λ w. not (w == id)) (ids a) j,
    );
    unique = λ a. ground (
      arith,
      f a,
      g a,
      v.unique a,
      distinct-snoc (mid a) id,
      distinct-keep_if (λ w. not (w == id)) (ids a),
    );
  }

  -- Nothing changes that the index depends on.
  pub Indexed-same :
      Indexed key at ids n
      → ((j : ℕ) → at' j ≡ at j)
      → ((a : Address) → ids' a ≡ ids a)
      → Indexed key at' ids' n
  Indexed-same v e f = record {
    listed = λ j d p. ground (arith, e j, f (key d), v.listed j d);
    only = λ a j d p q. ground (arith, e j, f a, v.only a j d);
    fresh = λ a j p. ground (arith, f a, v.fresh a j);
    unique = λ a. ground (arith, f a, v.unique a);
  }

  -- An alert expires; its index entry may stay behind.
  pub Indexed-expire :
      (id : ℕ)
      → Indexed key at ids n
      → ((j : ℕ) → at' j ≡ (if id == j then none else at j))
      → ((a : Address) → ids' a ≡ ids a)
      → Indexed key at' ids' n
  Indexed-expire id v e f = record {
    listed = λ j d p. ground (arith, e j, f (key d), v.listed j d);
    only = λ a j d p q. ground (arith, e j, f a, v.only a j d);
    fresh = λ a j p. ground (arith, f a, v.fresh a j);
    unique = λ a. ground (arith, f a, v.unique a);
  }

-- With nothing stored and nothing listed.
pub Indexed-empty :
    {A : Type 0} (key : A → Address) {at : ℕ → Option A} {ids : Address → List ℕ} {n : ℕ}
    → ((j : ℕ) → at j ≡ none)
    → ((a : Address) → ids a ≡ [])
    → Indexed key at ids n
unfolding contains distinct
Indexed-empty key e f = record {
  listed = λ j d p. ground (arith, e j);
  only = λ a j d p q. ground (arith, e j);
  fresh = λ a j p. ground (arith, f a);
  unique = λ a. rw (f a);
}
