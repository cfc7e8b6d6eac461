-- ===== src/Register/Generator/Oper.antt =====
-- src/commands/yang_core/y_cmd_generator.c: what is registered for a subtree of state data.
pub mod Keys
pub mod Show
use onm_cli.Base.{ℕ, ◌+◌, ◌≡◌, Bool, Option, some, List, ◌∷◌, ◌++◌, Str, All}
use onm_cli.Schema.{NodeType, container, leaf, leaf_list, list, choice, Info, Nodes, end, node}
use onm_cli.Register.{Call, Libcli, IsAnswering, Registry, R, pure, ◌>>=◌, ◌>>◌}
use onm_cli.Register.Runs.{pure-Runs}
use onm_cli.Register.Leaf.{register_cmd_leaf, register_cmd_leaf_list}
use onm_cli.Register.Generator.{
  Signal, skip_next, unknown, unless_skipped, visit, register_node_routine, register_cmd_choice,
  choice_cases, register_nodes, register_commands_schema,
}
use onm_cli.Register.Generator.Oper.Keys.{IsShow, HasShow, HasKeys}
use onm_cli.Register.Generator.Oper.Show.{
  IsStateNode, AreState, Shows, nothing-Shows, then-Shows, one-Shows, state-Shows,
  register_cmd_container-Shows, register_cmd_list-Shows,
}

module _ {W : Type 0} (lib : Libcli W) (owner_module log_path : List Info → Str) (malloc : ℕ → Bool)
    (lawful : IsAnswering lib) where
  register_cmd_leaf-Shows :
      (y_node : Info) (up : List Info)
      → IsStateNode y_node up
      → Shows (register_cmd_leaf lib owner_module log_path malloc y_node up)
  unfolding register_cmd_leaf
  register_cmd_leaf-Shows y_node up (state, _, _) =
      state-Shows y_node.config_r _ _ state (one-Shows 1)

  register_cmd_leaf_list-Shows :
      (y_node : Info) (up : List Info)
      → IsStateNode y_node up
      → Shows (register_cmd_leaf_list lib owner_module log_path malloc y_node up)
  unfolding register_cmd_leaf_list
  register_cmd_leaf_list-Shows y_node up (state, _, _) =
      state-Shows y_node.config_r _ _ state (one-Shows 1)

  choice-Shows :
      (y_node : Info) (up : List Info) (cases : Option ℕ → Option ℕ → ℕ → R W ℕ)
      → IsStateNode y_node up
      → Shows (register_cmd_choice lib owner_module log_path y_node up cases)
  choice-Shows y_node up cases (state, _, _) = state-Shows y_node.config_r _ _ state (one-Shows 0)

  signal-Shows :
      {A : Type 0} (m : R W A) (signal : Signal) → Shows m → Shows (m >>= λ ret. pure signal)
  signal-Shows m signal h = then-Shows m _ h (λ ret. pure-Runs HasShow IsShow (λ a. Unit) signal tt)

  routine-Shows :
      (kind : NodeType) (y_node : Info) (up : List Info) (children : Nodes) (nested : R W ℕ)
      → IsStateNode y_node up
      → HasKeys children
      → Shows nested
      → Shows
          (register_node_routine lib owner_module log_path malloc kind y_node up children nested)
  routine-Shows container y_node up children nested h keys k =
      signal-Shows _ _
        (register_cmd_container-Shows lib owner_module log_path malloc lawful y_node up children h)
  routine-Shows leaf y_node up children nested h keys k =
      signal-Shows _ _ (register_cmd_leaf-Shows y_node up h)
  routine-Shows list y_node up children nested h keys k =
      signal-Shows _ _
        (register_cmd_list-Shows lib owner_module log_path malloc lawful y_node up children h keys)
  routine-Shows leaf_list y_node up children nested h keys k =
      signal-Shows _ _ (register_cmd_leaf_list-Shows y_node up h)
  routine-Shows choice y_node up children nested h keys k = signal-Shows _ _ k
  routine-Shows _ y_node up children nested h keys k =
      pure-Runs HasShow IsShow (λ a. Unit) unknown tt

  skipped-Shows :
      (signal : Signal) (below : R W (Unit {0}))
      → Shows below
      → Shows (unless_skipped lib owner_module log_path malloc signal below)
  skipped-Shows skip_next below h = nothing-Shows
  skipped-Shows _ below h = h

  visit-Shows :
      (y_node : Info) (up : List Info) (children : Nodes) (nested : R W ℕ) (below : R W (Unit {0}))
      → IsStateNode y_node up
      → HasKeys children
      → Shows nested
      → Shows below
      → Shows (visit lib owner_module log_path malloc y_node up children nested below)
  visit-Shows y_node up children nested below h keys k b =
      then-Shows _ _ (routine-Shows y_node.nodetype y_node up children nested h keys k)
        (λ signal. skipped-Shows signal below b)

  nodes-Shows :
      (up : List Info) (nodes : Nodes)
      → AreState up nodes
      → Shows (register_nodes lib owner_module log_path malloc up nodes)
  unfolding register_nodes
  nodes-Shows up end h = nothing-Shows
  nodes-Shows up (node y_node children next) (here, keys, under, rest) =
      then-Shows _ _
        (visit-Shows y_node up children _ _ here keys
          (choice-Shows y_node up
            (λ c no_c mode.
              choice_cases lib owner_module log_path malloc (y_node ∷ up) c no_c mode children)
            here)
          (nodes-Shows (y_node ∷ up) children under))
        (λ done. nodes-Shows up next rest)

  -- Registering a subtree of state data whose names fit the buffers and whose lists have keys of
  -- different names, with the command for operational data there, returns, where libcli answers. It makes no
  -- command but those that show operational data, in every mode, and gives them no argument but
  -- those that are completed from the running datastore.
  pub register_commands_schema-Shows :
      (y_node : Info) (up : List Info) (children : Nodes) (s : Registry W)
      → IsStateNode y_node up
      → HasKeys children
      → AreState (y_node ∷ up) children
      → HasShow s.ctx
      → (s' : Registry W) × (new : List Call) × (register_commands_schema lib owner_module log_path
            malloc y_node up children s
          ≡ some (tt, s'))
        × (s'.ctx ≡ s.ctx)
        × (s'.calls ≡ s.calls ++ new)
        × All IsShow new
  unfolding register_commands_schema
  register_commands_schema-Shows y_node up children s here keys under known =
      let (done, s', new, run, _, ctx, calls, all) =
        visit-Shows y_node up children _ _ here keys
          (choice-Shows y_node up
            (λ c no_c mode.
              choice_cases lib owner_module log_path malloc (y_node ∷ up) c no_c mode children)
            here)
          (nodes-Shows (y_node ∷ up) children under) s known in
      (s', new, run, ctx, calls, all)
