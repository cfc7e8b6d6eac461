-- ===== src/Validators.antt =====
-- src/commands/yang_core/data_validators.c: the checks of a value before it enters the data tree.
-- `lyd_value_validate` and `ly_errmsg` are libyang's, and stand as the parameter `Libyang`.
pub mod Uint
pub mod Dispatch
mod Tests
use onm_cli.Base.{
  ℕ, ◌%◌, ◌^◌, Bool, true, false, not, ◌&&◌, Option, none, some, List, [], ◌∷◌, Str, str_eq, codes,
  leb, if◌then◌else◌,
}
use onm_cli.Utils.{isdigit}
use onm_cli.Libc.{atoi}
use onm_cli.Cli.{CliCode, cli_ok, cli_error, cli_error_arg}
use onm_cli.Env.{LyErr, success, incomplete, failed}
use onm_cli.Schema.{
  NodeType, leaf, list, case, BaseType, uint8, uint16, uint32, uint64, int8, int16, int32, int64,
  Range, LeafType, Info, Parent,
}

unfoldable pub is_numeric : Str → Bool
is_numeric [] = true
is_numeric (c ∷ str) = if not (isdigit c) then false else is_numeric str

-- The messages that the validators print, with their arguments.
pub data Line : Type 0 where
  numeric_expected : Line
  out_of_range : (min max value : ℕ) → Line
  invalid_value : (word : Str) (err : ℕ) (message : Str) → Line
  no_validation : (word : Str) → Line

abbrev pub Verdict : Type 0
Verdict = CliCode × List Line

pub record Libyang : Type 0 where
  pub value_validate : Info → Str → LyErr
  pub errmsg : Info → Str → Str

-- `num_t->range`, read from its first part and cut to `unsigned int`
unfoldable pub check_range : Option Range → ℕ → Verdict
check_range none num = (cli_ok, [])
check_range (some range) num =
    let min = range.first.min_u64 % 2 ^ 32 in
    let max = range.first.max_u64 % 2 ^ 32 in
    if leb min num && leb num max
    then (cli_ok, [])
    else (cli_error_arg, out_of_range min max num ∷ [])

unfoldable pub validate_uint : LeafType → Str → Verdict
unfolding is_numeric check_range
validate_uint type value =
    if not (is_numeric value)
    then (cli_error, numeric_expected ∷ [])
    else check_range type.range (atoi value)

unfoldable pub find_named : Str → List Info → Option Info
find_named word [] = none
find_named word (child ∷ next) = if str_eq child.name word then some child else find_named word next

module _ (ly : Libyang) where
  unfoldable pub validate_all : Str → Str → Info → Verdict
  validate_all word value node = elim (ly.value_validate node value) [
    | success ↦ (cli_ok, [])
    | incomplete ↦ (cli_ok, [])
    | failed err ↦ (cli_error_arg, invalid_value word err (ly.errmsg node value) ∷ [])
  ]

  -- The switch over the leaf's type.
  unfoldable pub validate_type : BaseType → LeafType → Str → Str → Info → Verdict
  unfolding validate_uint validate_all
  validate_type uint8 type word value node = validate_uint type value
  validate_type uint16 type word value node = validate_uint type value
  validate_type uint32 type word value node = validate_uint type value
  validate_type uint64 type word value node = validate_uint type value
  validate_type int8 type word value node = validate_uint type value
  validate_type int16 type word value node = validate_uint type value
  validate_type int32 type word value node = validate_uint type value
  validate_type int64 type word value node = validate_uint type value
  validate_type _ type word value node = validate_all word value node

  -- `none` is a fault: the code reads the type of a node that has none.
  unfoldable pub validate_leaf : Str → Str → Info → Option Verdict
  unfolding validate_type
  validate_leaf word value node = elim node.ytype [
    | none ↦ none
    | some type ↦ some (validate_type type.basetype type word value node)
  ]

  -- The child of a list or a case that is named by `word`.
  unfoldable pub validate_child : Str → Str → Option Info → Option Verdict
  unfolding validate_leaf
  validate_child word value none = some (cli_ok, no_validation word ∷ [])
  validate_child word value (some child) = validate_leaf word value child

  unfoldable pub validate_node : NodeType → Str → Str → Parent → Option Verdict
  unfolding validate_leaf validate_child find_named
  validate_node leaf word value y_node = validate_leaf word value y_node.info
  validate_node list word value y_node = validate_child word value (find_named word y_node.children)
  validate_node case word value y_node = validate_child word value (find_named word y_node.children)
  validate_node _ word value y_node = some (cli_ok, [])

  unfoldable pub yang_data_validator : Str → Str → Parent → Option Verdict
  unfolding validate_node
  yang_data_validator word value y_node =
      if str_eq value (codes "delete")
      then some (cli_ok, [])
      else validate_node y_node.info.nodetype word value y_node
