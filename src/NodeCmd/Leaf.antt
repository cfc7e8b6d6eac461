-- ===== src/NodeCmd/Leaf.antt =====
-- src/commands/yang_core/cmd_leaf.c: the handlers of leaves and leaf-lists. A command stands as its
-- node, the ancestors and the children of the node, and the arguments.
use mathlib.Core.List.{append-nil}
use onm_cli.Base.{
  ap, ◌∙◌, ◌≡◌, refl, Option, none, some, List, [], ◌∷◌, ◌++◌, Str, map, codes, str_eq, Bool-cases,
  inl, inr,
}
use onm_cli.Cli.{CliCode, cli_ok, cli_error, cli_error_arg, cli_missing_argument}
use onm_cli.Env.{Env, LyErr, success, incomplete, failed}
use onm_cli.Schema.{leaf_list, Info, Parent}
use onm_cli.State.{
  State, Line, M, pure, fault, ◌>>=◌, ◌>>◌, modify, validation, missing_value, creation_failed,
  deletion_failed,
}
use onm_cli.Validators.{Libyang, Verdict, yang_data_validator, validate_node}
use onm_cli.DefaultCmd.{print}
use onm_cli.DataFactory.{add_data_node, delete_data_node}

module _ (env : Env) (lysc_path : List Info → Str) where
  open env use {World}

  -- `if (ret != LY_SUCCESS) { ...; return CLI_ERROR; }`
  abbrev pub unless_created : LyErr → M World CliCode → M World CliCode
  unless_created success rest = rest
  unless_created _ rest = do print env creation_failed; pure cli_error

  abbrev pub unless_deleted : LyErr → M World CliCode → M World CliCode
  unless_deleted success rest = rest
  unless_deleted _ rest = do print env deletion_failed; pure cli_error

  unfoldable pub cmd_yang_leaf : Info → List Info → Option Str → M World CliCode
  cmd_yang_leaf y_node up value = do
    ret ← add_data_node env lysc_path y_node up value
    unless_created ret (pure cli_ok)

  unfoldable pub cmd_yang_no_leaf : Info → List Info → M World CliCode
  cmd_yang_no_leaf y_node up = do
    ret ← delete_data_node env lysc_path y_node up none
    unless_deleted ret (pure cli_ok)

  -- What the validator prints, and what it returns; it may fault.
  abbrev pub verdict : Option Verdict → M World CliCode
  verdict none = fault
  verdict (some (code, lines)) = do
    modify (λ s. record s { output = s.output ++ map validation lines })
    pure code

  abbrev pub if_valid : CliCode → M World CliCode → M World CliCode
  if_valid cli_ok rest = rest
  if_valid _ rest = pure cli_error_arg

  module _ (ly : Libyang) (cmd : Str) (y_node : Info) (up children : List Info) where
    abbrev pub cmd_model : Parent
    cmd_model = record { info = y_node; children = children }

    -- The loop over the values.
    unfoldable pub add_values : List Str → M World CliCode
    unfolding yang_data_validator
    add_values [] = pure cli_ok
    add_values (value ∷ argv) =
        let rest = add_values argv in
        do
          code ← verdict (yang_data_validator ly cmd value cmd_model)
          if_valid code
              (do ret ← add_data_node env lysc_path y_node up (some value); unless_created ret rest)

    unfoldable pub cmd_yang_leaf_list : List Str → M World CliCode
    unfolding add_values
    cmd_yang_leaf_list [] = do print env missing_value; pure cli_missing_argument
    cmd_yang_leaf_list (value ∷ argv) = add_values (value ∷ argv)

    unfoldable pub cmd_yang_no_leaf_list : List Str → M World CliCode
    cmd_yang_no_leaf_list [] = do print env missing_value; pure cli_missing_argument
    cmd_yang_no_leaf_list (value ∷ argv) = do
      ret ← delete_data_node env lysc_path y_node up (some value)
      unless_deleted ret (pure cli_ok)

    -- A leaf-list is no leaf, list or case.
    validator_lem :
        (value : Str)
        → y_node.nodetype ≡ leaf_list
        → yang_data_validator ly cmd value cmd_model ≡ some (cli_ok, [])
    unfolding yang_data_validator validate_node
    validator_lem value k = elim (Bool-cases (str_eq value (codes "delete"))) [
      | inl e ↦ rw e
      | inr e ↦ rw (e, k)
    ]

    -- What follows an attempt to add a value: the other values where libyang made a node of it, and
    -- otherwise a message and CLI_ERROR.
    abbrev pub go_on :
        M World CliCode → Option (LyErr × State World) → Option (CliCode × State World)
    go_on rest none = none
    go_on rest (some (success, t)) = rest t
    go_on rest (some (incomplete, t)) =
        some (cli_error, record t { output = t.output ++ creation_failed ∷ [] })
    go_on rest (some (failed n, t)) =
        some (cli_error, record t { output = t.output ++ creation_failed ∷ [] })

    -- Each value is added, in the order given, up to the first that cannot be.
    abbrev pub add_each : List Str → M World CliCode
    add_each [] s = some (cli_ok, s)
    add_each (value ∷ argv) s =
        go_on (add_each argv) (add_data_node env lysc_path y_node up (some value) s)

    after-add :
        (argv : List Str)
        → ((s : State World) → add_values argv s ≡ add_each argv s)
        → (o : Option (LyErr × State World))
        → elim o [ none ↦ none | some (ret, t) ↦ unless_created ret (add_values argv) t ]
          ≡ go_on (add_each argv) o
    after-add argv same none = refl
    after-add argv same (some (success, t)) = same t
    after-add argv same (some (incomplete, t)) = refl
    after-add argv same (some (failed n, t)) = refl

    add_values-add_each :
        (argv : List Str) (s : State World)
        → y_node.nodetype ≡ leaf_list
        → add_values argv s ≡ add_each argv s
    unfolding add_values
    add_values-add_each [] s k = refl
    add_values-add_each (value ∷ argv) s k =
        ap (λ (v : Option Verdict). (verdict v >>= λ code. if_valid code (add_next argv)) s)
          (validator_lem value k)
        ∙ ap (λ (l : List Line). add_next argv (record s { output = l })) (append-nil s.output)
        ∙ after-add argv (λ t. add_values-add_each argv t k)
            (add_data_node env lysc_path y_node up (some value) s)
      where
        add_next : List Str → M World CliCode
        add_next argv = add_data_node env lysc_path y_node up (some value) >>= λ ret.
            unless_created ret (add_values argv)

    -- The values of a leaf-list are not checked before they are added, whatever libyang says of them:
    -- the command adds each in the order given, up to the first for which `add_data_node` does not
    -- return LY_SUCCESS. It then says that the creation failed and returns CLI_ERROR, and the values
    -- behind that one are not added. Where all values are added it returns CLI_OK.
    pub cmd_yang_leaf_list-add_each :
        (value : Str) (argv : List Str) (s : State World)
        → y_node.nodetype ≡ leaf_list
        → cmd_yang_leaf_list (value ∷ argv) s ≡ add_each (value ∷ argv) s
    unfolding cmd_yang_leaf_list
    cmd_yang_leaf_list-add_each value argv s k = add_values-add_each (value ∷ argv) s k
