-- ===== src/YUtils/Predicate.antt =====
-- y_utils.c: `create_list_predicate_from_optargs`, the predicate that names a list entry.
-- `cli_get_optarg_value(cli, name, NULL)` is the parameter `optarg`.
pub mod Text
pub mod Unique
use onm_cli.Base.{ℕ, ◌+◌, true, false, Option, none, some, List, [], ◌∷◌, ◌++◌, Str, codes, length}
use onm_cli.Schema.{Info}

-- The allocated size, and the text before its NUL.
pub record Buffer : Type 0 where
  pub size : ℕ
  pub text : Str

module _ (optarg : Str → Option Str) where
  -- `realloc` and the five `strcat` calls for one key.
  unfoldable pub append_key : Buffer → Str → Str → Buffer
  append_key predicate name value = record {
    size = length predicate.text + length name + length value + 6;
    text = ((((predicate.text ++ codes "[") ++ name) ++ codes "='") ++ value) ++ codes "']";
  }

  -- The loop over the children. `none` is the fault of `strlen(NULL)`, for a key with no argument.
  unfoldable pub append_keys : List Info → Buffer → Option Buffer
  unfolding append_key
  append_keys [] predicate = some predicate
  append_keys (child ∷ next) predicate = elim child.is_key [
    | false ↦ append_keys next predicate
    | true ↦ elim (optarg child.name) [
      | none ↦ none
      | some value ↦ append_keys next (append_key predicate child.name value)
    ]
  ]

  unfoldable pub create_list_predicate_from_optargs : List Info → Option Buffer
  unfolding append_keys
  create_list_predicate_from_optargs children =
      append_keys children (record { size = 1; text = [] })
