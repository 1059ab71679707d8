-- ===== src/AlertRegistry/Validate.antt =====
-- The checks of the alert registry's arguments: `validate_label`, `validate_rules`,
-- `validate_rule`, `validate_tags` (contracts/alert-registry/src/lib.rs).
pub mod Rules
use Prim.Native.Char.{code}
use Prim.Native.String.{String}
use stellar_txwatch_contract.Prelude.{
  ℕ, Bool, true, false, Option, none, some, List, [], ◌∷◌, ◌++◌, ltb, ◌==◌, ◌&&◌, ◌||◌, not, length,
  is_empty,
}
use stellar_txwatch_contract.Soroban.{Bytes, Outcome, ok, ◌>>=◌, ◌>>◌, reject_if}
use stellar_txwatch_contract.AlertRegistry.Types.{
  ContractError, max_tags, max_tag_bytes, empty_rules, too_many_rules, duplicate_rule,
  invalid_rule_descriptor, label_too_long, too_many_tags, tag_too_long,
}

-- `String::from_str(env, s)`
abbrev pub from_str : String → Bytes
from_str String.[] = []
from_str (String.◌∷◌ c s) = code c ∷ from_str s

-- `a == b` on strings.
unfoldable pub bytes_eq : Bytes → Bytes → Bool
bytes_eq [] [] = true
bytes_eq [] (y ∷ ys) = false
bytes_eq (x ∷ xs) [] = false
bytes_eq (x ∷ xs) (y ∷ ys) = x == y && bytes_eq xs ys

unfoldable pub contains_bytes : List Bytes → Bytes → Bool
contains_bytes [] r = false
contains_bytes (x ∷ xs) r = bytes_eq x r || contains_bytes xs r

unfoldable pub validate_label : Bytes → Outcome ContractError (Unit {0})
validate_label label = do reject_if (ltb 128 (length label)) label_too_long; ok tt

-- The four rule descriptors.
unfoldable pub rule_transfer : Bytes
rule_transfer = from_str "rule:transfer"

unfoldable pub rule_mint : Bytes
rule_mint = from_str "rule:mint"

unfoldable pub rule_invoke : Bytes
rule_invoke = from_str "rule:invoke"

unfoldable pub rule_all : Bytes
rule_all = from_str "rule:all"

unfoldable pub validate_rule : Bytes → Outcome ContractError (Unit {0})
validate_rule rule = do
  reject_if
      (not (bytes_eq rule rule_transfer)
        && not (bytes_eq rule rule_mint)
        && not (bytes_eq rule rule_invoke)
        && not (bytes_eq rule rule_all))
      invalid_rule_descriptor
  ok tt

-- The loop of `validate_rules`, over the rules that are left.
unfoldable pub validate_rules_loop : List Bytes → List Bytes → Outcome ContractError (Unit {0})
validate_rules_loop seen [] = ok tt
validate_rules_loop seen (rule ∷ rules) = do
  validate_rule rule
  reject_if (contains_bytes seen rule) duplicate_rule
  validate_rules_loop (seen ++ rule ∷ []) rules

unfoldable pub validate_rules : List Bytes → Outcome ContractError (Unit {0})
validate_rules rules = do
  reject_if (is_empty rules) empty_rules
  reject_if (ltb 50 (length rules)) too_many_rules
  validate_rules_loop [] rules

unfoldable pub validate_tags_loop : List Bytes → Outcome ContractError (Unit {0})
validate_tags_loop [] = ok tt
validate_tags_loop (tag ∷ tags) = do
  reject_if (ltb max_tag_bytes (length tag)) tag_too_long
  validate_tags_loop tags

unfoldable pub validate_tags : Option (List Bytes) → Outcome ContractError (Unit {0})
validate_tags none = ok tt
validate_tags (some t) = do reject_if (ltb max_tags (length t)) too_many_tags; validate_tags_loop t
