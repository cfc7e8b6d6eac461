-- ===== src/DataCompl.antt =====
-- src/commands/yang_core/data_cmd_compl.c: the values that are offered for an argument. The completions of
-- an identityref are in YUtils.Identity. `lysc_node_lref_target` and `cli_add_comphelp_entry` are
-- parameters.
pub mod Offers
mod Tests
use onm_cli.Base.{
  ℕ, Bool, true, false, ◌&&◌, Option, none, some, List, [], ◌∷◌, ◌++◌, Str, str_eq, if◌then◌else◌,
}
use onm_cli.Cli.{CliCode, cli_ok}
use onm_cli.Env.{Env}
use onm_cli.Schema.{BaseType, enumeration, boolean, string, leafref, identityref, Info, LeafType}
use onm_cli.State.{M, pure, fault, ◌>>=◌, gets}
use onm_cli.Base.{codes}
use onm_cli.YUtils.Identity.{offers, bases_add_comphelp}
use onm_cli.DataFactory.{get_sysrepo_running_node}
use onm_cli.DataFactory.ListEdit.{
  get_local_list_nodes, get_local_or_sr_list_nodes, get_sysrepo_startup_node,
}

-- CANDIDATE_SRC, RUNNING_SRC, STARTUP_SRC, CANDIDATE_OR_RUNNING_SRC
pub data Source : Type 0 where
  candidate_src running_src startup_src candidate_or_running_src : Source

abbrev pub is_ok : CliCode → Bool
is_ok cli_ok = true
is_ok _ = false

-- An array that ends in NULL, or NULL for none.
abbrev pub array_of : List Str → Option (List Str)
array_of [] = none
array_of (value ∷ next) = some (value ∷ next)

-- The loop over the options: the first that cannot be added ends it.
module _ {C : Type 0} (add : C → Str → CliCode × C) where
  unfoldable pub add_options : Option Str → List Str → C → CliCode × C
  add_options word [] comphelp = (cli_ok, comphelp)
  add_options word (option ∷ next) comphelp =
      let skipped = add_options word next comphelp in
      let added = add comphelp option in
      let rest = add_options word next added.1 in
      if offers word option then (if is_ok added.0 then rest else added) else skipped

module _ (env : Env) (lysc_path : List Info → Str) where
  open env use {World}

  -- The values of the key of a name among the children of one entry.
  unfoldable pub entry_values : World → Str → List ℕ → List Str
  unfolding str_eq
  entry_values w name [] = []
  entry_values w name (entry_child ∷ next) =
      let rest = entry_values w name next in
      if (env.schema w entry_child).is_key && str_eq (env.schema w entry_child).name name
      then env.lyd_get_value w entry_child ∷ rest
      else rest

  unfoldable pub key_values : World → Str → List ℕ → List Str
  unfolding entry_values
  key_values w name [] = []
  key_values w name (entry ∷ next) =
      entry_values w name (env.children w entry) ++ key_values w name next

  abbrev pub nodes_from : Option ℕ → M World (List ℕ)
  nodes_from none = pure []
  nodes_from (some n) = gets (λ s. env.nexts s.world n)

  -- `lyd_child` of a node, or of NULL.
  abbrev pub children_of : Option ℕ → M World (List ℕ)
  children_of none = pure []
  children_of (some n) = gets (λ s. env.children s.world n)

  -- No data in the candidate: `xpath` is empty at this place.
  abbrev pub or_running : List Info → Option ℕ → M World (Option ℕ)
  or_running up (some n) = pure (some n)
  or_running [] none = pure none
  or_running (grand ∷ up) none = get_sysrepo_running_node env lysc_path []

  -- `list_data_node` and the `next` ones, for the ancestors of the key. The path is written with 1028
  -- for the size of a buffer of 1024 bytes.
  abbrev pub list_data_nodes : List Info → Source → M World (List ℕ)
  list_data_nodes [] candidate_src = fault
  list_data_nodes (parent ∷ up) candidate_src = do
    n ← get_local_list_nodes env lysc_path parent up
    nodes_from n
  list_data_nodes [] candidate_or_running_src = fault
  list_data_nodes (parent ∷ up) candidate_or_running_src = do
    n ← get_local_or_sr_list_nodes env lysc_path parent up
    m ← or_running up n
    nodes_from m
  list_data_nodes (parent ∷ grand ∷ up) running_src = do
    n ← get_sysrepo_running_node env lysc_path (lysc_path (grand ∷ up))
    children_of n
  list_data_nodes (parent ∷ grand ∷ up) startup_src = do
    n ← get_sysrepo_startup_node env lysc_path (lysc_path (grand ∷ up))
    children_of n
  list_data_nodes _ _ = pure []

  unfoldable pub get_list_key_values_array : Info → List Info → Source → M World (Option (List Str))
  unfolding get_local_list_nodes get_local_or_sr_list_nodes key_values
  get_list_key_values_array y_node up src = do
    list_entries ← list_data_nodes up src
    gets (λ s. array_of (key_values s.world y_node.name list_entries))

  module _ (lref_target : List Info → List Info) where
    -- A node that is NULL has no parent to read.
    abbrev pub target_values : List Info → M World (Option (List Str))
    target_values [] = fault
    target_values (target ∷ up) = get_list_key_values_array target up candidate_or_running_src

    abbrev pub options_of :
        BaseType → LeafType → Info → List Info → Source → M World (Option (List Str))
    options_of enumeration t y_node up src = pure (array_of t.enums)
    options_of boolean t y_node up src = pure (some (codes "false" ∷ codes "true" ∷ []))
    options_of string t y_node up src =
        if y_node.is_key then get_list_key_values_array y_node up src else pure none
    options_of leafref t y_node up src = target_values (lref_target (y_node ∷ up))
    options_of _ t y_node up src = pure none

    unfoldable pub create_type_options :
        LeafType → Info → List Info → Source → M World (Option (List Str))
    unfolding get_list_key_values_array
    create_type_options t y_node up src = options_of t.basetype t y_node up src

    module _ {C : Type 0} (add : C → Str → CliCode × C) where
      abbrev pub add_all : Option Str → C → Option (List Str) → CliCode × C
      add_all word comphelp none = (cli_ok, comphelp)
      add_all word comphelp (some options) = add_options add word options comphelp

      abbrev pub compl_of :
          BaseType → LeafType → Info → List Info → Source → Option Str → C → M World (CliCode × C)
      compl_of identityref t y_node up src word comphelp =
          pure (cli_ok, bases_add_comphelp add t.bases word comphelp)
      compl_of _ t y_node up src word comphelp = do
        options ← create_type_options t y_node up src
        pure (add_all word comphelp options)

      abbrev pub compl_for :
          Option LeafType → Info → List Info → Source → Option Str → C → M World (CliCode × C)
      compl_for none y_node up src word comphelp = fault
      compl_for (some t) y_node up src word comphelp =
          compl_of t.basetype t y_node up src word comphelp

      -- `cmd_model` with its ancestors, or NULL; the functions for the three sources call this.
      unfoldable pub core_optagr_get_compl :
          List Info → Source → Option Str → C → M World (CliCode × C)
      unfolding create_type_options add_options bases_add_comphelp
      core_optagr_get_compl [] src word comphelp = pure (cli_ok, comphelp)
      core_optagr_get_compl (y_node ∷ up) src word comphelp =
          compl_for y_node.ytype y_node up src word comphelp
