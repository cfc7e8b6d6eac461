-- ===== src/SysrepoCmd/Modules/Laws.antt =====
-- src/commands/sysrepo_cmd.c: what `list-modules` prints, and that it and `load-modules` release the
-- context that they acquire.
use mathlib.Core.List.{append-nil, append_assoc}
use onm_cli.Base.{
  ℕ, ◌+◌, ◌≡◌, refl, ◌∙◌, subst, inl, inr, Bool, some, List, [], ◌∷◌, ◌++◌, arith, Str, codes,
  str_eq, Bool-cases,
}
use onm_cli.Cli.{CliCode, cli_ok, cli_error_arg, cli_missing_argument}
use onm_cli.Env.{Env}
use onm_cli.Schema.{Info, Nodes, end, node}
use onm_cli.State.{
  State, Line, carriage_return, unknown_arguments, module_listed, M, pure, ◌>>=◌, ◌>>◌, gets,
}
use onm_cli.Sysrepo.{sysrepo_get_ctx, sysrepo_release_ctx}
use onm_cli.Register.{Libcli, R}
use onm_cli.DataFactory.Context.{Gives, Adds, Adds-if, Adds-pure, Adds-bind}
use onm_cli.DataFactory.Balance.{get_ctx-Adds}
use onm_cli.SysrepoCmd.Modules.{
  Module, CliContext, unless_one, print_modules, cmd_sysrepo_list_modules, run_registering,
  generate, generated, mod2cmd_generate, load_modules, cmd_sysrepo_load_module,
}

module _ (env : Env) where
  open env use {World}

  abbrev pub listed : List Module → List Line
  listed [] = []
  listed (mod' ∷ next) = module_listed mod'.name ∷ listed next

  print_modules-listed :
      (mods : List Module) (s : State World)
      → print_modules env mods s ≡ some (tt, record s { output = s.output ++ listed mods })
  unfolding print_modules
  print_modules-listed [] s = rw (append-nil s.output)
  print_modules-listed (mod' ∷ next) s =
      print_modules-listed next (record s { output = s.output ++ module_listed mod'.name ∷ [] })
      ∙ rw (append_assoc s.output (module_listed mod'.name ∷ []) (listed next))

  release-Adds : Adds 0 1 (sysrepo_release_ctx env)
  unfolding sysrepo_release_ctx
  release-Adds s = (omega arith, omega arith)

  unless_one-Adds :
      {A : Type 0} (done : CliCode → A) (argv : List Str) (rest : M World A)
      → Adds 0 1 rest
      → Adds 0 1 (unless_one env done argv rest)
  unfolding sysrepo_release_ctx
  unless_one-Adds done [] rest h = h
  unless_one-Adds done (arg ∷ []) rest h =
      Adds-if 0 1 (str_eq arg (codes "?")) _ _ (λ s. (omega arith, omega arith))
        (λ s. (omega arith, omega arith))
  unless_one-Adds done (arg ∷ next ∷ argv) rest h = h

  -- The state behind an argument that is refused.
  abbrev refused : State World → Line → State World
  refused s line = record s {
    world = env.sr_release_context (env.sr_acquire_context s.world).1;
    acquired = s.acquired + 1;
    released = s.released + 1;
    output = s.output ++ line ∷ [];
  }

  module _ (modules : World → List Module) where
    -- `list-modules` always returns, and it acquires the context once and releases it once, also for an
    -- argument that it refuses. With no argument it returns CLI_OK and prints the name of each
    -- module of the context that it acquired, in order.
    cmd_sysrepo_list_modules-listed :
        (argv : List Str) (s : State World)
        → (code : CliCode) × (s' : State World) × (cmd_sysrepo_list_modules env modules argv s
            ≡ some (code, s'))
          × (s'.acquired ≡ s.acquired + 1)
          × (s'.released ≡ s.released + 1)
          × (argv ≡ []
              → (code ≡ cli_ok)
                × (s'.output ≡ s.output ++ listed (modules (env.sr_acquire_context s.world).1)))
    unfolding cmd_sysrepo_list_modules
    cmd_sysrepo_list_modules-listed [] s =
        let w = (env.sr_acquire_context s.world).1 in
        let t : State World = record s { world = w; acquired = s.acquired + 1 } in
        (
          cli_ok,
          record t {
            world = env.sr_release_context w;
            released = s.released + 1;
            output = s.output ++ listed (modules w);
          },
          rw (print_modules-listed (modules w) t, ◌>>=◌),
          refl,
          refl,
          λ e. (refl, refl),
        )
    cmd_sysrepo_list_modules-listed (arg ∷ []) s = elim (Bool-cases (str_eq arg (codes "?"))) [
      | inl help ↦ (cli_missing_argument, refused s carriage_return, rw help, refl, refl, λ e. cc)
      | inr unknown ↦ (cli_error_arg, refused s unknown_arguments, rw unknown, refl, refl, λ e. cc)
    ]
    cmd_sysrepo_list_modules-listed (arg ∷ next ∷ argv) s =
        let w = (env.sr_acquire_context s.world).1 in
        let t : State World = record s { world = w; acquired = s.acquired + 1 } in
        (
          cli_ok,
          record t {
            world = env.sr_release_context w;
            released = s.released + 1;
            output = s.output ++ listed (modules w);
          },
          rw (print_modules-listed (modules w) t, ◌>>=◌),
          refl,
          refl,
          λ e. cc,
        )

    module _ (lib : Libcli World) (owner_module log_path : List Info → Str) (malloc : ℕ → Bool)
        (walk : Nodes → List (Info × List Info)) where
      run_registering-Adds :
          (kept : CliContext) (m : R World (Unit {0}))
          → Adds 0 0 (run_registering env modules lib owner_module log_path malloc walk kept m)
      run_registering-Adds kept m s = ground arith

      generated-Adds :
          (kept : CliContext) (mod' : Module) (top : Nodes)
          → Adds 0 0 (generated env modules lib owner_module log_path malloc walk kept mod' top)
      generated-Adds kept mod' end = Adds-pure kept
      generated-Adds kept mod' (node y children next) =
          Adds-bind 0 0 0 0
            (run_registering env modules lib owner_module log_path malloc walk kept
              (generate env modules lib owner_module log_path malloc walk (node y children next)))
            _
            (run_registering-Adds kept
              (generate env modules lib owner_module log_path malloc walk (node y children next)))
            (λ kept' s. (omega arith, omega arith))

      mod2cmd-Adds :
          (kept : CliContext) (mod' : Module)
          → Adds 0 0 (mod2cmd_generate env modules lib owner_module log_path malloc walk kept mod')
      unfolding mod2cmd_generate
      mod2cmd-Adds kept mod' =
          Adds-if 0 0 mod'.implemented _ _ (generated-Adds kept mod' mod'.top) (Adds-pure kept)

      load-Adds :
          (kept : CliContext) (mods : List Module)
          → Adds 0 0 (load_modules env modules lib owner_module log_path malloc walk kept mods)
      unfolding load_modules
      load-Adds kept [] = Adds-pure kept
      load-Adds kept (mod' ∷ next) =
          Adds-bind 0 0 0 0
            (mod2cmd_generate env modules lib owner_module log_path malloc walk kept mod') _
            (mod2cmd-Adds kept mod') (λ kept'. load-Adds kept' next)

      release_after-Adds :
          (kept : CliContext) (mods : List Module)
          → Adds {A = CliCode × CliContext} 0 1 (do
            kept' ← load_modules env modules lib owner_module log_path malloc walk kept mods
            sysrepo_release_ctx env
            pure (cli_ok, kept'))
      unfolding sysrepo_release_ctx
      release_after-Adds kept mods =
          Adds-bind 0 0 0 1
            (load_modules env modules lib owner_module log_path malloc walk kept mods) _
            (load-Adds kept mods) (λ kept' s. (omega arith, omega arith))

      -- `load-modules` that returns, whatever it is given and whatever modules it registers the
      -- commands of, has acquired the context once and released it once.
      pub cmd_sysrepo_load_module_balanced :
          (kept : CliContext) (argv : List Str) (s s' : State World) (ret : CliCode × CliContext)
          → cmd_sysrepo_load_module env modules lib owner_module log_path malloc walk kept argv s
            ≡ some (ret, s')
          → (s'.acquired ≡ s.acquired + 1) × (s'.released ≡ s.released + 1)
      unfolding cmd_sysrepo_load_module
      cmd_sysrepo_load_module_balanced kept argv s s' ret e = subst (Gives 1 1 s) e (
          Adds-bind 1 0 0 1 (sysrepo_get_ctx env) _ (get_ctx-Adds env owner_module)
            (λ got.
              unless_one-Adds (λ code. (code, kept)) argv _
                (Adds-bind 0 0 0 1 (gets (λ s. modules s.world)) _ (λ s. (omega arith, omega arith))
                  (λ mods. release_after-Adds kept mods)))
            s)
