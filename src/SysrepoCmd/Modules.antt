-- ===== src/SysrepoCmd/Modules.antt =====
-- src/commands/sysrepo_cmd.c: `list-modules` and `load-modules`. `ly_ctx_get_module_iter` gives the modules
-- of the context, `modules`, one by one. The walk of `unregister_commands_schema`, which starts at
-- one node and ends where it would for the next, is the parameter `walk`.
pub mod Laws
use onm_cli.Base.{ℕ, Bool, Option, none, some, List, [], ◌∷◌, Str, codes, str_eq, if◌then◌else◌}
use onm_cli.Cli.{CliCode, cli_ok, cli_error_arg, cli_missing_argument}
use onm_cli.Env.{Env}
use onm_cli.Schema.{Info, Nodes, end, node}
use onm_cli.State.{
  carriage_return, unknown_arguments, module_listed, commands_generated, M, pure, ◌>>=◌, ◌>>◌, gets,
}
use onm_cli.Sysrepo.{sysrepo_get_ctx, sysrepo_release_ctx}
use onm_cli.DefaultCmd.{print}
use onm_cli.Register.{CtxData, Libcli, R}
use onm_cli.Register.Generator.{register_commands_schema, unregister_node_routine}

-- A `struct lys_module`, in the fields that are read; `top` is `compiled->data`.
pub record Module : Type 0 where
  pub name : Str
  pub implemented : Bool
  pub top : Nodes

-- What the registering keeps between two modules: `cli_get_context(cli)` and `current_print_order_c`.
pub record CliContext : Type 0 where
  pub ctx : CtxData
  pub print_order : Option ℕ

module _ (env : Env) where
  open env use {World}

  -- One argument is `?` or unknown; more are not looked at. The context is released.
  abbrev pub unless_one : {A : Type 0} → (CliCode → A) → List Str → M World A → M World A
  unless_one done (arg ∷ []) rest =
      if str_eq arg (codes "?")
      then (do print env carriage_return; sysrepo_release_ctx env; pure (done cli_missing_argument))
      else (do print env unknown_arguments; sysrepo_release_ctx env; pure (done cli_error_arg))
  unless_one done argv rest = rest

  unfoldable pub print_modules : List Module → M World (Unit {0})
  print_modules [] = pure tt
  print_modules (mod' ∷ next) = do print env (module_listed mod'.name); print_modules next

  module _ (modules : World → List Module) where
    unfoldable pub cmd_sysrepo_list_modules : List Str → M World CliCode
    unfolding sysrepo_get_ctx sysrepo_release_ctx print_modules str_eq
    cmd_sysrepo_list_modules argv = do
      got ← sysrepo_get_ctx env
      unless_one (λ code. code) argv
          (do
            mods ← gets (λ s. modules s.world)
            print_modules mods
            sysrepo_release_ctx env
            pure cli_ok)

    module _ (lib : Libcli World) (owner_module log_path : List Info → Str) (malloc : ℕ → Bool)
        (walk : Nodes → List (Info × List Info)) where
      unfoldable pub unregister_nodes : List (Info × List Info) → R World (Unit {0})
      unfolding unregister_node_routine
      unregister_nodes [] s = some (tt, s)
      unregister_nodes ((y_node, up) ∷ next) s =
          elim (unregister_node_routine lib owner_module log_path y_node up s) [
            | none ↦ none
            | some (done, s') ↦ unregister_nodes next s'
          ]

      -- The commands of the nodes from `compiled->data` on.
      abbrev pub generate : Nodes → R World (Unit {0})
      generate end s = some (tt, s)
      generate (node y_node children next) s =
          elim (unregister_nodes (walk (node y_node children next)) s) [
            | none ↦ none
            | some (done, s') ↦
                register_commands_schema lib owner_module log_path malloc y_node [] children s'
          ]

      -- The registering runs over the state of the libraries that the commands run over.
      abbrev pub run_registering : CliContext → R World (Unit {0}) → M World CliContext
      run_registering kept m s =
          elim (m (record {
            cli = s.world;
            ctx = kept.ctx;
            current_print_order_c = kept.print_order;
            calls = [];
          })) [
            | none ↦ none
            | some (done, r) ↦ some (
              record { ctx = r.ctx; print_order = r.current_print_order_c },
              record s { world = r.cli },
            )
          ]

      abbrev pub generated : CliContext → Module → Nodes → M World CliContext
      generated kept mod' end = pure kept
      generated kept mod' top = do
        kept' ← run_registering kept (generate top)
        print env (commands_generated mod'.name)
        pure kept'

      unfoldable pub mod2cmd_generate : CliContext → Module → M World CliContext
      unfolding unregister_nodes register_commands_schema
      mod2cmd_generate kept mod' =
          if mod'.implemented then generated kept mod' mod'.top else pure kept

      unfoldable pub load_modules : CliContext → List Module → M World CliContext
      unfolding mod2cmd_generate
      load_modules kept [] = pure kept
      load_modules kept (mod' ∷ next) = do
        kept' ← mod2cmd_generate kept mod'
        load_modules kept' next

      unfoldable pub cmd_sysrepo_load_module :
          CliContext → List Str → M World (CliCode × CliContext)
      unfolding sysrepo_get_ctx sysrepo_release_ctx load_modules str_eq
      cmd_sysrepo_load_module kept argv = do
        got ← sysrepo_get_ctx env
        unless_one (λ code. (code, kept)) argv
            (do
              mods ← gets (λ s. modules s.world)
              kept' ← load_modules kept mods
              sysrepo_release_ctx env
              pure (cli_ok, kept'))
