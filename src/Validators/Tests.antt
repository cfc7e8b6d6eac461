-- ===== src/Validators/Tests.antt =====
-- Runs of data_validators.c, and its theorems at concrete values.
use onm_cli.Base.{
  ◌≡◌, refl, ◌⊎◌, ◌↔◌, ◌≤◌, true, false, none, some, [], ◌∷◌, arith, Str, All, codes, is_some,
  str_eq,
}
use onm_cli.Libc.{atoi}
use onm_cli.Libc.Decimal.{IsDigit}
use onm_cli.Cli.{cli_ok, cli_error, cli_error_arg}
use onm_cli.Schema.{leaf, list, uint8, BaseType, Range, LeafType, Info, Parent, nil, NodeType}
use onm_cli.Validators.{
  validate_uint, yang_data_validator, Libyang, success, LyErr, failed, numeric_expected,
  out_of_range,
}
use onm_cli.Validators.Uint.{validate_uint-exact}
use onm_cli.Validators.Dispatch.{
  yang_data_validator-integer, yang_data_validator-negative, yang_data_validator-total,
}

abbrev small : Range
small = record { first = record { min_u64 = 1; max_u64 = 10 }; more = [] }

abbrev type_of : BaseType → LeafType
type_of b = record { basetype = b; range = some small; bases = nil; enums = [] }

abbrev node_of : NodeType → BaseType → Info
node_of k b = record {
  addr = 7;
  name = codes "mtu";
  module_name = codes "ietf-interfaces";
  nodetype = k;
  config_r = false;
  is_key = false;
  user_ordered = false;
  dsc = none;
  ytype = some (type_of b);
}

abbrev at : NodeType → BaseType → Parent
at k b = record { info = node_of k b; children = node_of leaf b ∷ [] }

-- A libyang that takes the empty value only.
abbrev empty_only : Str → LyErr
empty_only [] = success
empty_only (_ ∷ _) = failed 7

abbrev strict : Libyang
strict = record { value_validate = λ _ value. empty_only value; errmsg = λ _ _. [] }

out_of_range_run :
    validate_uint (type_of uint8) (codes "42") ≡ (cli_error_arg, out_of_range 1 10 42 ∷ [])
unfolding validate_uint atoi
out_of_range_run = refl

validate_uint-exact_example :
    ((validate_uint (type_of uint8) (codes "7")).0 ≡ cli_ok) ↔ ((1 ≤ 7) × (7 ≤ 10))
validate_uint-exact_example =
    validate_uint-exact (type_of uint8) small (codes "7") refl (refl, tt) (omega arith)
      (omega arith) (omega arith)

wrapped_run : validate_uint (type_of uint8) (codes "4294967301") ≡ (cli_ok, [])
unfolding validate_uint atoi
wrapped_run = refl

yang_data_validator-integer_example : (codes "7" ≡ codes "delete") ⊎ All IsDigit (codes "7")
unfolding yang_data_validator atoi str_eq
yang_data_validator-integer_example =
    yang_data_validator-integer strict (codes "mtu") (codes "7") (at leaf uint8) (type_of uint8)
      (cli_ok, []) refl refl refl refl refl

yang_data_validator-negative_example :
    yang_data_validator strict (codes "mtu") (codes "-5") (at leaf BaseType.int8)
    ≡ some (cli_error, numeric_expected ∷ [])
yang_data_validator-negative_example =
    yang_data_validator-negative strict (codes "mtu") (codes "5") (at leaf BaseType.int8)
      (type_of BaseType.int8) refl refl refl

yang_data_validator-total_example :
    is_some (yang_data_validator strict (codes "speed") (codes "42") (at list uint8)) ≡ true
yang_data_validator-total_example =
    yang_data_validator-total strict (codes "speed") (codes "42") (at list uint8) (λ h. refl)
      (refl, tt)
