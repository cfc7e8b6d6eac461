-- ===== src/Validators/Dispatch.antt =====
-- src/commands/yang_core/data_validators.c: what `yang_data_validator` lets through.
use onm_cli.Base.{
  ◌≡◌, ◌≢◌, refl, ◌⊎◌, inl, inr, ◌↔◌, Bool, true, false, none, some, List, [], ◌∷◌, arith, Str, All,
  str_eq, str_eq→≡, codes, Bool-cases, is_some,
}
use onm_cli.Libc.Decimal.{IsDigit}
use onm_cli.Cli.{cli_ok, cli_error}
use onm_cli.Schema.{
  leaf, list, case, BaseType, uint8, uint16, uint32, uint64, int8, int16, int32, int64, LeafType,
  Info, Parent,
}
use onm_cli.Validators.{
  is_numeric, Verdict, validate_uint, validate_type, find_named, yang_data_validator, validate_all,
  Libyang, success, incomplete, numeric_expected,
}
use onm_cli.Validators.Uint.{is_numeric-All}

-- The types that `yang_data_validator` sends to `validate_uint`.
abbrev pub is_integer : BaseType → Bool
is_integer uint8 = true
is_integer uint16 = true
is_integer uint32 = true
is_integer uint64 = true
is_integer int8 = true
is_integer int16 = true
is_integer int32 = true
is_integer int64 = true
is_integer _ = false

validate_uint-ok :
    (type : LeafType) (value : Str)
    → (validate_uint type value).0 ≡ cli_ok
    → is_numeric value ≡ true
unfolding validate_uint
validate_uint-ok type value h = ground arith

module _ (ly : Libyang) where
  validate_type-integer :
      (b : BaseType) (type : LeafType) (word value : Str) (node : Info)
      → is_integer b ≡ true
      → validate_type ly b type word value node ≡ validate_uint type value
  unfolding validate_type
  validate_type-integer uint8 type word value node h = refl
  validate_type-integer uint16 type word value node h = refl
  validate_type-integer uint32 type word value node h = refl
  validate_type-integer uint64 type word value node h = refl
  validate_type-integer int8 type word value node h = refl
  validate_type-integer int16 type word value node h = refl
  validate_type-integer int32 type word value node h = refl
  validate_type-integer int64 type word value node h = refl
  validate_type-integer _ type word value node h = cc

  validate_type-other :
      (b : BaseType) (type : LeafType) (word value : Str) (node : Info)
      → is_integer b ≡ false
      → validate_type ly b type word value node ≡ validate_all ly word value node
  unfolding validate_type
  validate_type-other uint8 type word value node h = cc
  validate_type-other _ type word value node h = ground arith

  validator-leaf :
      (word value : Str) (y_node : Parent) (type : LeafType)
      → y_node.info.nodetype ≡ leaf
      → y_node.info.ytype ≡ some type
      → str_eq value (codes "delete") ≡ false
      → yang_data_validator ly word value y_node
        ≡ some (validate_type ly type.basetype type word value y_node.info)
  unfolding yang_data_validator
  validator-leaf word value y_node type k t e = ground arith

  -- For a leaf of one of the eight integer types, a value that the validator accepts is the word
  -- `delete` or a text of decimal digits.
  pub yang_data_validator-integer :
      (word value : Str) (y_node : Parent) (type : LeafType) (v : Verdict)
      → y_node.info.nodetype ≡ leaf
      → y_node.info.ytype ≡ some type
      → is_integer type.basetype ≡ true
      → yang_data_validator ly word value y_node ≡ some v
      → v.0 ≡ cli_ok
      → (value ≡ codes "delete") ⊎ All IsDigit value
  yang_data_validator-integer word value y_node type v k t i r ok =
      elim (Bool-cases (str_eq value (codes "delete"))) [
        | inl e ↦ inl (str_eq→≡ value (codes "delete") e)
        | inr e ↦ inr (
            (is_numeric-All value).0 (
              validate_uint-ok type value (
                ground (
                  arith,
                  validator-leaf word value y_node type k t e,
                  validate_type-integer type.basetype type word value y_node.info i,
                ))))
      ]

  -- For a leaf of one of the eight integer types, every value that begins with a minus sign is
  -- refused with CLI_ERROR and the message that wants a numeric value, whatever the range says.
  pub yang_data_validator-negative :
      (word rest : Str) (y_node : Parent) (type : LeafType)
      → y_node.info.nodetype ≡ leaf
      → y_node.info.ytype ≡ some type
      → is_integer type.basetype ≡ true
      → yang_data_validator ly word (b'-' ∷ rest) y_node ≡ some (cli_error, numeric_expected ∷ [])
  unfolding validate_uint is_numeric str_eq
  yang_data_validator-negative word rest y_node type k t i = ground (
    arith,
    validator-leaf word (b'-' ∷ rest) y_node type k t refl,
    validate_type-integer type.basetype type word (b'-' ∷ rest) y_node.info i,
  )

  -- A leaf of any other type gets its verdict from libyang: a value other than `delete` is accepted
  -- exactly when `lyd_value_validate` answers LY_SUCCESS or LY_EINCOMPLETE.
  yang_data_validator-libyang :
      (word value : Str) (y_node : Parent) (type : LeafType)
      → y_node.info.nodetype ≡ leaf
      → y_node.info.ytype ≡ some type
      → is_integer type.basetype ≡ false
      → value ≢ codes "delete"
      → (yang_data_validator ly word value y_node ≡ some (cli_ok, [])) ↔ (
          (ly.value_validate y_node.info value ≡ success)
          ⊎ (ly.value_validate y_node.info value ≡ incomplete))
  unfolding validate_all
  yang_data_validator-libyang word value y_node type k t i ne =
      elim (Bool-cases (str_eq value (codes "delete"))) [
        | inl e ↦ absurd (ne (str_eq→≡ value (codes "delete") e))
        | inr e ↦
            rw
              (
                validator-leaf word value y_node type k t e,
                validate_type-other type.basetype type word value y_node.info i,
              )
              (λ h. ground arith, λ h. ground arith)
      ]

  -- A value for the argument `word` of a list or a case gets the verdict that it gets at the first
  -- child of that name, where that is a leaf.
  yang_data_validator-child :
      (word value : Str) (y_node : Parent) (child : Info)
      → (y_node.info.nodetype ≡ list) ⊎ (y_node.info.nodetype ≡ case)
      → find_named word y_node.children ≡ some child
      → child.nodetype ≡ leaf
      → yang_data_validator ly word value y_node
        ≡ yang_data_validator ly word value (record { info = child; children = [] })
  unfolding yang_data_validator
  yang_data_validator-child word value y_node child k f l = ground arith

  find_named-typed :
      (word : Str) (children : List Info)
      → All (λ (c : Info). is_some c.ytype ≡ true) children
      → (find_named word children ≡ none)
        ⊎ ((c : Info) × (find_named word children ≡ some c) × (is_some c.ytype ≡ true))
  unfolding find_named
  find_named-typed word [] h = inl refl
  find_named-typed word (c ∷ next) (p, h) = elim (Bool-cases (str_eq c.name word)) [
    | inl e ↦ rw (e, find_named) (inr (c, refl, p))
    | inr e ↦ rw (e, find_named) (find_named-typed word next h)
  ]

  -- The validator never reads the type of a node that has none, and so returns, if a node of the
  -- kind leaf has a type and so has every child of the node.
  pub yang_data_validator-total :
      (word value : Str) (y_node : Parent)
      → (y_node.info.nodetype ≡ leaf → is_some y_node.info.ytype ≡ true)
      → All (λ (c : Info). is_some c.ytype ≡ true) y_node.children
      → is_some (yang_data_validator ly word value y_node) ≡ true
  unfolding yang_data_validator
  yang_data_validator-total word value y_node typed children =
      ground (arith, typed, find_named-typed word y_node.children children)
