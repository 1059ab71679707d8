-- ===== src/AlertRegistry/Validate/Rules.antt =====
-- `validate_rules` against what an acceptable list of rules is.
use stellar_txwatch_contract.Prelude.{
  ℕ, ◌+◌, ◌≡◌, refl, ◌≢◌, ◌↔◌, ◌⊎◌, inl, inr, ◌≤◌, true, false, ◌||◌, List, [], ◌∷◌, ◌++◌, arith,
  length, Bool-cases, if◌then◌else◌,
}
use stellar_txwatch_contract.Soroban.{Bytes, ok, ◌>>=◌}
use stellar_txwatch_contract.AlertRegistry.Validate.{
  bytes_eq, contains_bytes, rule_transfer, rule_mint, rule_invoke, rule_all, validate_rule,
  validate_rules_loop, validate_rules,
}

pub bytes_eq→≡ : (xs ys : Bytes) → bytes_eq xs ys ≡ true → xs ≡ ys
unfolding bytes_eq
bytes_eq→≡ [] [] h = refl
bytes_eq→≡ [] (y ∷ ys) h = cc
bytes_eq→≡ (x ∷ xs) [] h = cc
bytes_eq→≡ (x ∷ xs) (y ∷ ys) h = ground (arith, bytes_eq→≡ xs ys)

pub bytes_eq_refl : (xs : Bytes) → bytes_eq xs xs ≡ true
unfolding bytes_eq
bytes_eq_refl [] = refl
bytes_eq_refl (x ∷ xs) = ground (arith, bytes_eq_refl xs)

pub bytes_eq-false : (xs ys : Bytes) → xs ≢ ys → bytes_eq xs ys ≡ false
bytes_eq-false xs ys ne = elim (Bool-cases (bytes_eq xs ys)) [
  | inl same ↦ absurd (ne (bytes_eq→≡ xs ys same))
  | inr other ↦ other
]

-- One of the four rule descriptors.
abbrev pub IsRule : Bytes → Type 0
IsRule r = (r ≡ rule_transfer) ⊎ ((r ≡ rule_mint) ⊎ ((r ≡ rule_invoke) ⊎ (r ≡ rule_all)))

abbrev pub AllRules : List Bytes → Type 0
AllRules [] = Unit
AllRules (r ∷ rs) = IsRule r × AllRules rs

-- `r` differs from every rule of the list.
abbrev pub Apart : Bytes → List Bytes → Type 0
Apart r [] = Unit
Apart r (x ∷ xs) = (r ≢ x) × Apart r xs

abbrev pub Distinct : List Bytes → Type 0
Distinct [] = Unit
Distinct (r ∷ rs) = Apart r rs × Distinct rs

-- No rule of the second list stands in the first.
abbrev Disjoint : List Bytes → List Bytes → Type 0
Disjoint seen [] = Unit
Disjoint seen (r ∷ rs) = (contains_bytes seen r ≡ false) × Disjoint seen rs

validate_rule→ : (r : Bytes) → validate_rule r ≡ ok tt → IsRule r
unfolding validate_rule ◌>>=◌
validate_rule→ r h = ground (
  arith,
  bytes_eq→≡ r rule_transfer,
  bytes_eq→≡ r rule_mint,
  bytes_eq→≡ r rule_invoke,
  bytes_eq→≡ r rule_all,
)

→validate_rule : (r : Bytes) → IsRule r → validate_rule r ≡ ok tt
unfolding validate_rule ◌>>=◌
→validate_rule r h = ground (arith, bytes_eq_refl r)

contains_bytes-snoc :
    (xs : List Bytes) (r x : Bytes)
    → contains_bytes (xs ++ r ∷ []) x ≡ (contains_bytes xs x || bytes_eq r x)
unfolding contains_bytes
contains_bytes-snoc [] r x = ground arith
contains_bytes-snoc (y ∷ xs) r x = ground (arith, contains_bytes-snoc xs r x)

Disjoint-snoc→ :
    (seen : List Bytes) (r : Bytes) (rs : List Bytes)
    → Disjoint (seen ++ r ∷ []) rs
    → Disjoint seen rs × Apart r rs
Disjoint-snoc→ seen r [] d = (tt, tt)
Disjoint-snoc→ seen r (x ∷ rs) d =
    ground (arith, contains_bytes-snoc seen r x, bytes_eq_refl r, Disjoint-snoc→ seen r rs d.1)

→Disjoint-snoc :
    (seen : List Bytes) (r : Bytes) (rs : List Bytes)
    → Disjoint seen rs
    → Apart r rs
    → Disjoint (seen ++ r ∷ []) rs
→Disjoint-snoc seen r [] d a = tt
→Disjoint-snoc seen r (x ∷ rs) d a =
    ground (
      arith,
      contains_bytes-snoc seen r x,
      bytes_eq-false r x a.0,
      →Disjoint-snoc seen r rs d.1 a.1,
    )

validate_rules_loop→ :
    (seen rs : List Bytes)
    → validate_rules_loop seen rs ≡ ok tt
    → AllRules rs × Distinct rs × Disjoint seen rs
unfolding validate_rules_loop ◌>>=◌
validate_rules_loop→ seen [] h = (tt, tt, tt)
validate_rules_loop→ seen (r ∷ rs) h =
    ground
      (arith, validate_rule→ r, validate_rules_loop→ (seen ++ r ∷ []) rs, Disjoint-snoc→ seen r rs)

→validate_rules_loop :
    (seen rs : List Bytes)
    → AllRules rs
    → Distinct rs
    → Disjoint seen rs
    → validate_rules_loop seen rs ≡ ok tt
unfolding validate_rules_loop ◌>>=◌
→validate_rules_loop seen [] a d j = refl
→validate_rules_loop seen (r ∷ rs) a d j = ground (
  arith,
  →validate_rule r a.0,
  →validate_rules_loop (seen ++ r ∷ []) rs a.1 d.1 (→Disjoint-snoc seen r rs j.1 d.0),
)

Disjoint-nil : (rs : List Bytes) → Disjoint [] rs
unfolding contains_bytes
Disjoint-nil [] = tt
Disjoint-nil (r ∷ rs) = (refl, Disjoint-nil rs)

-- `validate_rules` accepts exactly the lists that are not empty, have at most 50 rules, all of
-- them among the four descriptors, and no rule twice.
pub validate_rules_iff :
    (rules : List Bytes)
    → (validate_rules rules ≡ ok tt)
      ↔ ((rules ≢ []) × (length rules ≤ 50) × AllRules rules × Distinct rules)
unfolding validate_rules ◌>>=◌
validate_rules_iff [] = (λ h. absurd (cc), λ p. absurd (p.0 refl))
validate_rules_iff (r ∷ rs) = (
  (λ h.
      let e : validate_rules_loop [] (r ∷ rs) ≡ ok tt = ground arith in
      let (a, d, _) = validate_rules_loop→ [] (r ∷ rs) e in ((λ p. cc), ground arith, a, d)),
  λ (_, short, a, d). ground (arith, →validate_rules_loop [] (r ∷ rs) a d (Disjoint-nil (r ∷ rs))),
)

-- How often a rule stands in a list.
count : Bytes → List Bytes → ℕ
count t [] = 0
count t (x ∷ xs) = if bytes_eq t x then count t xs + 1 else count t xs

count-Apart : (t : Bytes) (xs : List Bytes) → Apart t xs → count t xs ≡ 0
unfolding count
count-Apart t [] a = refl
count-Apart t (x ∷ xs) a = ground (arith, bytes_eq-false t x a.0, count-Apart t xs a.1)

count-Distinct : (t : Bytes) (xs : List Bytes) → Distinct xs → count t xs ≤ 1
unfolding count
count-Distinct t [] d = omega arith
count-Distinct t (x ∷ xs) d = elim (Bool-cases (bytes_eq t x)) [
  | inl same ↦ rw same (omega (arith, count-Apart t xs (rw (bytes_eq→≡ t x same) d.0)))
  | inr other ↦ rw other (count-Distinct t xs d.1)
]

length-count :
    (xs : List Bytes)
    → AllRules xs
    → length xs
      ≤ count rule_transfer xs + count rule_mint xs + count rule_invoke xs + count rule_all xs
unfolding count
length-count [] a = omega arith
length-count (x ∷ xs) a = ground (arith, length-count xs a.1, bytes_eq_refl x)

-- A list of rule descriptors without repetition has at most four rules, and `validate_rules` accepts it exactly
-- if it is not empty: the bound of 50 never decides about a list that the other checks let through.
pub validate_rules-Distinct :
    (rules : List Bytes)
    → AllRules rules
    → Distinct rules
    → (length rules ≤ 4) × ((validate_rules rules ≡ ok tt) ↔ (rules ≢ []))
validate_rules-Distinct rules a d =
    let few : length rules ≤ 4 = omega (
      arith,
      length-count rules a,
      count-Distinct rule_transfer rules d,
      count-Distinct rule_mint rules d,
      count-Distinct rule_invoke rules d,
      count-Distinct rule_all rules d,
    ) in
    let (accepted→, →accepted) = validate_rules_iff rules in
    (few, ((λ h. (accepted→ h).0), λ some_rule. →accepted (some_rule, omega (arith, few), a, d)))
