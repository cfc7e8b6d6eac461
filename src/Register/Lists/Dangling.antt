-- ===== src/Register/Lists/Dangling.antt =====
-- cmd_list.c and y_cmd_generator.c: the `print-order` command that is kept when it is unregistered.
use onm_cli.Base.{
  ℕ, ◌≡◌, inl, inr, true, false, Option, none, some, List, [], ◌∷◌, Str, codes, length, ltb,
  Bool-cases,
}
use onm_cli.Schema.{Info}
use onm_cli.YUtils.Search.{y_node_name}
use onm_cli.YUtils.RelativePath.{is_list}
use onm_cli.Register.{Libcli, Registry, ◌>>=◌, sprintf}
use onm_cli.Register.Lists.{order_from, register_print_order}
use onm_cli.Register.Generator.{unregister_node_routine}

module _ {W : Type 0} (lib : Libcli W) (owner_module log_path : List Info → Str) where
  order_from-stale :
      (c : ℕ) (mode : ℕ) (hash : Str) (s : Registry W)
      → lib.live s.cli c ≡ false
      → order_from lib owner_module log_path (some c) mode hash s ≡ none
  order_from-stale c mode hash s dead = rw dead

  register_print_order-stale :
      (y_node : Info) (up : List Info) (mode : ℕ) (hash : Str) (above : Option ℕ) (c : ℕ)
      (s : Registry W)
      → s.current_print_order_c ≡ some c
      → lib.live s.cli c ≡ false
      → register_print_order lib owner_module log_path (y_node ∷ up) mode hash above s ≡ none
  unfolding register_print_order
  register_print_order-stale y_node [] mode hash above c s kept dead = rw (kept, ◌>>=◌, dead)
  register_print_order-stale y_node (parent ∷ up) mode hash above c s kept dead =
      elim (Bool-cases (is_list parent.nodetype)) [
        | inl l ↦ rw (l, ◌>>=◌, kept, dead)
        | inr n ↦ rw (n, ◌>>=◌, register_print_order-stale parent up mode hash above c s kept dead)
      ]

  unregister_run :
      (y_node : Info) (up : List Info) (s : Registry W)
      → y_node.config_r ≡ false
      → y_node.user_ordered ≡ true
      → ltb (length (y_node_name y_node up)) 100 ≡ true
      → unregister_node_routine lib owner_module log_path y_node up s
        ≡ some (
          tt,
          record s {
            cli =
                lib.cli_unregister_command
                  (lib.cli_unregister_command s.cli
                    (codes "print-order")
                    (owner_module (y_node ∷ up)))
                  (y_node_name y_node up)
                  (owner_module (y_node ∷ up));
          },
        )
  unfolding unregister_node_routine sprintf
  unregister_run y_node up s config ordered fits = simp (config, ordered, ◌>>=◌, fits)

  -- Unregistering a user-ordered configuration list, whose name fits its buffer, returns. If it frees
  -- the `print-order` command that was registered last, as nothing that is freed comes back, then the
  -- pointer to that command is left as it was, and registering the next user-ordered list reads the
  -- freed command.
  pub unregister_node_routine-register_print_order :
      (y_node : Info) (up : List Info) (other : Info) (others : List Info) (mode : ℕ) (hash : Str)
      (above : Option ℕ) (c : ℕ) (s : Registry W)
      → y_node.config_r ≡ false
      → y_node.user_ordered ≡ true
      → ltb (length (y_node_name y_node up)) 100 ≡ true
      → s.current_print_order_c ≡ some c
      → lib.live
          (lib.cli_unregister_command s.cli (codes "print-order") (owner_module (y_node ∷ up)))
          c
        ≡ false
      → ((w : W) (name h : Str)
          → lib.live w c ≡ false
          → lib.live (lib.cli_unregister_command w name h) c ≡ false)
      → (s' : Registry W) × (unregister_node_routine lib owner_module log_path y_node up s
          ≡ some (tt, s'))
        × (s'.current_print_order_c ≡ some c)
        × (register_print_order lib owner_module log_path (other ∷ others) mode hash above s'
            ≡ none)
  unregister_node_routine-register_print_order y_node up other others mode hash above c s config
        ordered fits kept freed dead =
      (
        _,
        unregister_run y_node up s config ordered fits,
        kept,
        register_print_order-stale other others mode hash above c _ kept
            (dead _ (y_node_name y_node up) (owner_module (y_node ∷ up)) freed),
      )
