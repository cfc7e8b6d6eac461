-- ===== src/Register/Container/Root.antt =====
-- cmd_container.c: what is registered for a root container.
pub mod Fits
use mathlib.Core.List.{append-nil}
use onm_cli.Base.{
  ℕ, ◌+◌, ◌≤◌, ◌≡◌, refl, ap, ◌∙◌, Bool, true, false, Option, none, some, List, [], ◌∷◌, ◌++◌,
  arith, Str, codes, length, Bool-cases, inl, inr, if◌then◌else◌,
}
use onm_cli.Schema.{Info, Nodes}
use onm_cli.YUtils.Search.{y_node_name}
use onm_cli.YUtils.Search.Parents.{
  config_parent, no_config_parent, show_config_candidate_parent, show_config_running_parent,
  show_config_startup_parent, find_parent_command_core,
}
use onm_cli.YUtils.Mode.{y_get_curr_mode, config_mode}
use onm_cli.YUtils.Oper.{has_oper_children}
use onm_cli.Register.{
  Handler, yang_container, yang_no_container, yang_show_candidate_config_container,
  yang_show_running_config_container, yang_show_startup_config_container,
  yang_show_candidate_config_diff_container, yang_show_operational_container, privileged, mode_any,
  Registration, Call, command, CtxData, Libcli, Registry, R, pure, ◌>>=◌, ◌>>◌, sprintf,
  cli_register_command, can_search, find_parent,
}
use onm_cli.Register.Generator.Oper.Show.{oper_text}
use onm_cli.Register.Container.Root.Fits.{text_fits, show_fits, oper_fits, short_name, root_name}
use onm_cli.Register.Start.{HasAll}
use onm_cli.Register.Runs.{snocs-append}
use onm_cli.Register.Place.{help_text, show_text, place_of}
use onm_cli.Register.Container.{
  show_oper, container_commands, has_list_in_parents, register_cmd_container,
}

module _ {W : Type 0} (lib : Libcli W) (owner_module log_path : List Info → Str) where
  find_root :
      (s : Registry W)
      → HasAll s.ctx
      → (find_parent lib owner_module config_parent [] s ≡ some (none, s))
        × (find_parent lib owner_module no_config_parent [] s ≡ some (none, s))
        × (find_parent lib owner_module show_config_candidate_parent [] s ≡ some (none, s))
        × (find_parent lib owner_module show_config_running_parent [] s ≡ some (none, s))
        × (find_parent lib owner_module show_config_startup_parent [] s ≡ some (none, s))
  unfolding find_parent can_search find_parent_command_core
  find_root s (no_cmd, cand, running, start, oper) = (
    refl,
    rw no_cmd,
    rw (cand, running, start, oper),
    rw (running, start, oper),
    rw (start, oper),
  )

  place_of-root :
      (y_node : Info) (s : Registry W)
      → HasAll s.ctx
      → place_of lib owner_module log_path y_node [] s
        ≡ some (
          record {
            parent_cmd = none;
            parent_cmd_no = s.ctx.no_cmd;
            mode = y_get_curr_mode log_path y_node [];
          },
          s,
        )
  unfolding place_of
  place_of-root y_node s all = rw (◌>>=◌, (find_root s all).0, (find_root s all).1)

  abbrev pub node_command : Info → Option ℕ → Str → Handler → ℕ → Str → Registration
  node_command y_node parent name handler mode help = record {
    parent = parent;
    model = some y_node.addr;
    command = name;
    callback = some handler;
    privilege = privileged;
    mode = mode;
    command_hash = some (owner_module (y_node ∷ []));
    help = help;
  }

  -- What the six calls return.
  pub record Returned : Type 0 where
    pub candidate : Option ℕ
    pub running : Option ℕ
    pub startup : Option ℕ
    pub diff : Option ℕ
    pub configure : Option ℕ
    pub no : Option ℕ

  -- The `show` commands of a root container, and then the two that configure it
  abbrev pub root_calls : Info → Str → CtxData → Returned → List Call
  root_calls y_node name ctx c =
      let shown = show_text name y_node.module_name in
      command
        (node_command y_node ctx.show_conf_cand_cmd name yang_show_candidate_config_container
          mode_any shown)
        c.candidate
      ∷ command
          (node_command y_node ctx.show_conf_running_cmd name yang_show_running_config_container
            mode_any shown)
          c.running
      ∷ command
          (node_command y_node ctx.show_conf_startup_cmd name yang_show_startup_config_container
            mode_any shown)
          c.startup
      ∷ command
          (record (node_command y_node c.candidate (codes "diff")
            yang_show_candidate_config_diff_container mode_any (codes "show config diff")) {
              command_hash = some (codes "diff");
            })
          c.diff
      ∷ command
          (node_command y_node none name yang_container config_mode
            (help_text (codes "configure") name y_node.module_name (codes "contain")))
          c.configure
      ∷ command
          (node_command y_node ctx.no_cmd name yang_no_container config_mode
            (help_text (codes "delete") name y_node.module_name (codes "contain")))
          c.no
      ∷ []

  -- What registering the configuration of the container returns, and the calls that it makes.
  abbrev Registers : Info → Str → Registry W → Option (ℕ × Registry W) → Type 0
  Registers y_node name s none = ⊥
  Registers y_node name s (some (ret, s')) =
      (c : Returned) × (ret ≡ 0)
      × (s'.ctx ≡ s.ctx)
      × (s'.calls ≡ s.calls ++ root_calls y_node name s.ctx c)

  container_commands-Registers :
      (y_node : Info) (name : Str) (s : Registry W)
      → HasAll s.ctx
      → length name + length y_node.module_name ≤ 900
      → Registers y_node name s (container_commands lib owner_module log_path y_node [] name s)
  unfolding has_list_in_parents cli_register_command y_get_curr_mode
  container_commands-Registers y_node name s all short =
      rw
        (
          container_commands,
          ◌>>=◌,
          text_fits name y_node.module_name (codes "configure") s short (omega arith),
          text_fits name y_node.module_name (codes "delete") s short (omega arith),
          show_fits name y_node.module_name s short,
          place_of-root y_node s all,
          (find_root s all).2,
          (find_root s all).3,
          (find_root s all).4,
        )
        (
          record { candidate = _; running = _; startup = _; diff = _; configure = _; no = _ },
          refl,
          refl,
          snocs-append s.calls (
              command _ _
              ∷ command _ _
              ∷ command _ _
              ∷ command _ _
              ∷ command _ _
              ∷ command _ _
              ∷ []),
        )

  -- The command that shows operational data, where the container has any
  abbrev pub oper_calls : Info → Str → CtxData → Bool → Option ℕ → List Call
  oper_calls y_node name ctx false oper = []
  oper_calls y_node name ctx true oper =
      command
        (node_command y_node ctx.show_operational_data name yang_show_operational_container mode_any
          (oper_text name y_node.module_name (codes ") [contain]")))
        oper
      ∷ []

  show_oper_run :
      (y_node : Info) (children : Nodes) (name : Str) (s : Registry W)
      → length name + length y_node.module_name ≤ 900
      → (w : W) × (oper : Option ℕ) × (show_oper lib owner_module log_path y_node [] children name s
          ≡ some (
            tt,
            record s {
              cli = w;
              calls =
                  s.calls ++ oper_calls y_node name s.ctx (has_oper_children y_node children) oper;
            },
          ))
  unfolding cli_register_command
  show_oper_run y_node children name s short =
      elim (Bool-cases (has_oper_children y_node children)) [
        | inl oper ↦ (
          (lib.cli_register_command s.cli (
              node_command y_node s.ctx.show_operational_data name yang_show_operational_container
                mode_any (oper_text name y_node.module_name (codes ") [contain]")))).1,
          (lib.cli_register_command s.cli (
              node_command y_node s.ctx.show_operational_data name yang_show_operational_container
                mode_any (oper_text name y_node.module_name (codes ") [contain]")))).0,
          rw (oper, ◌>>=◌, oper_fits name y_node.module_name s short),
        )
        | inr none_oper ↦ (s.cli, none, rw (none_oper, append-nil s.calls))
      ]

  returned :
      (y_node : Info) (name : Str) (s : Registry W) (o : Option (ℕ × Registry W))
      → Registers y_node name s o
      → (s' : Registry W) × (c : Returned) × (o ≡ some (0, s'))
        × (s'.ctx ≡ s.ctx)
        × (s'.calls ≡ s.calls ++ root_calls y_node name s.ctx c)
  returned y_node name s none h = absurd h
  returned y_node name s (some (ret, s')) (c, e, same, calls) =
      (s', c, ap (λ (n : ℕ). some (n, s')) e, same, calls)

  -- Where the name is written and the first command registered, for a node of the configuration.
  unless_state :
      (naming : R W Str) (first : Str → R W (Unit {0})) (rest : Str → R W ℕ) (state : Bool)
      (name : Str) (s t : Registry W)
      → naming s ≡ some (name, s)
      → first name s ≡ some (tt, t)
      → state ≡ false
      → (naming >>= λ c. first c >> (if state then pure 0 else rest c)) s ≡ rest name t
  unless_state naming first rest state name s t named done config = rw (named, ◌>>=◌, done, config)

  root_run :
      (y_node : Info) (children : Nodes) (s t : Registry W)
      → y_node.config_r ≡ false
      → sprintf 100 (y_node_name y_node []) s ≡ some (y_node_name y_node [], s)
      → show_oper lib owner_module log_path y_node [] children (y_node_name y_node []) s
        ≡ some (tt, t)
      → register_cmd_container lib owner_module log_path y_node [] children s
        ≡ container_commands lib owner_module log_path y_node [] (y_node_name y_node []) t
  unfolding register_cmd_container
  root_run y_node children s t config fits shown =
      unless_state (sprintf 100 (y_node_name y_node []))
        (λ name. show_oper lib owner_module log_path y_node [] children name)
        (λ name. container_commands lib owner_module log_path y_node [] name) y_node.config_r
        (y_node_name y_node []) s t fits shown config

  -- Where libcli holds the commands of the start, registering a configuration root container returns 0
  -- if its name and that of its module have 98 bytes together at most. It makes these calls and no
  -- other: a command that shows operational data, exactly if there are any below the container; four
  -- that show the candidate, the running and the startup configuration, below the commands of the
  -- start, and the difference, below the command that the call for the candidate returned; the command
  -- of the container, in the mode of root nodes; and the one below `no`.
  pub register_cmd_container-root :
      (y_node : Info) (children : Nodes) (s : Registry W)
      → y_node.config_r ≡ false
      → length y_node.name + length y_node.module_name ≤ 98
      → HasAll s.ctx
      → (s' : Registry W) × (oper : Option ℕ) × (c : Returned) × (register_cmd_container lib
            owner_module log_path y_node [] children s
          ≡ some (0, s'))
        × (s'.ctx ≡ s.ctx)
        × (s'.calls
            ≡ (s.calls
                ++ oper_calls y_node
                    (y_node_name y_node [])
                    s.ctx
                    (has_oper_children y_node children)
                    oper)
              ++ root_calls y_node (y_node_name y_node []) s.ctx c)
  register_cmd_container-root y_node children s config short all =
      let name = y_node_name y_node [] in
      let (w, oper, shown) = show_oper_run y_node children name s (short_name y_node short) in
      let t : Registry W = record s {
        cli = w;
        calls = s.calls ++ oper_calls y_node name s.ctx (has_oper_children y_node children) oper;
      } in
      let (s', c, run, same, calls) =
        returned y_node name t (container_commands lib owner_module log_path y_node [] name t)
          (container_commands-Registers y_node name t all (short_name y_node short)) in
      (
        s',
        oper,
        c,
        root_run y_node children s t config (root_name y_node s short) shown ∙ run,
        same,
        calls,
      )
