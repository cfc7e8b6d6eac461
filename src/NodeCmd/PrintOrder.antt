-- ===== src/NodeCmd/PrintOrder.antt =====
-- src/commands/yang_core/cmd_list.c: `cmd_print_list_order`, which prints the entries of a list with the
-- index of each. `cli_print` is given a text of 265 bytes at most. The index is an `int`, which the
-- entries that fit into memory do not overflow.
pub mod Index
use onm_cli.Base.{ℕ, ◌+◌, Option, none, some, List, [], ◌∷◌, ◌++◌, Str, length, ltb, if◌then◌else◌}
use onm_cli.Cli.{CliCode, cli_ok}
use onm_cli.Env.{Env}
use onm_cli.Schema.{Info}
use onm_cli.State.{M, pure, fault, ◌>>=◌, ◌>>◌, gets, ordered_entry}
use onm_cli.DefaultCmd.{print}
use onm_cli.DataFactory.ListEdit.{get_local_list_nodes}

module _ (env : Env) (lysc_path : List Info → Str) where
  open env use {World}

  -- The values of the keys among the children of an entry, each behind a space.
  unfoldable pub keys_text : World → List ℕ → Str
  keys_text w [] = []
  keys_text w (entry_child ∷ next) =
      let rest = keys_text w next in
      if (env.schema w entry_child).is_key
      then b' ' ∷ env.lyd_get_value w entry_child ++ rest
      else rest

  unfoldable pub entry_text : World → ℕ → Str
  unfolding keys_text
  entry_text w n = (env.schema w n).name ++ keys_text w (env.children w n)

  -- `line` has 265 bytes.
  unfoldable pub print_entries : ℕ → List ℕ → M World (Unit {0})
  unfolding entry_text
  print_entries curr_indx [] = pure tt
  print_entries curr_indx (entry ∷ next) = do
    line ← gets (λ s. entry_text s.world entry)
    (if ltb (length line) 265 then print env (ordered_entry line curr_indx) else fault)
    print_entries (curr_indx + 10) next

  abbrev pub entries_from : Option ℕ → M World (List ℕ)
  entries_from none = pure []
  entries_from (some n) = gets (λ s. env.nexts s.world n)

  unfoldable pub cmd_print_list_order : Info → List Info → M World CliCode
  unfolding get_local_list_nodes print_entries
  cmd_print_list_order y_node up = do
    list_entries ← get_local_list_nodes env lysc_path y_node up
    entries ← entries_from list_entries
    print_entries 10 entries
    pure cli_ok
