-- ===== src/Register/Start/Known.antt =====
-- default_cmd.c, sysrepo_cmd.c and src/onm_cli.c: the calls that `onm_cli_init` makes, and the commands
-- that the others are registered under.
use onm_cli.Base.{
  ℕ, ◌≡◌, refl, sym, ap, ◌∙◌, subst, Bool, true, Option, none, some, List, [], ◌∷◌, ◌++◌, Str,
  is_some, All,
}
use onm_cli.Schema.{Info, Nodes}
use onm_cli.Register.{
  Registration, Optarg, Call, optarg, Libcli, IsAnswering, CtxData, Registry, R, ◌>>=◌,
  cli_register_command, cli_register_optarg,
}
use onm_cli.Register.Runs.{snocs, snocs-append}
use onm_cli.Register.Generator.{register_commands_schema}
use onm_cli.Register.Generator.Oper.Keys.{IsShow, HasKeys}
use onm_cli.Register.Generator.Oper.Show.{IsStateNode, AreState}
use onm_cli.Register.Generator.Oper.{register_commands_schema-Shows}
use onm_cli.Register.Start.Calls.{DefaultIds, default_calls, LoaderIds, loader_calls, known_of}
use onm_cli.Register.Start.{HasAll, default_commands_init, yang_cmd_loader_init, onm_cli_init}

module _ {W : Type 0} (lib : Libcli W) (lawful : IsAnswering lib) where
  -- What `default_commands_init` returns and does.
  abbrev Started : Registry W → ℕ → CtxData → List Call → Type 0
  Started s ret ctx calls =
      (c : DefaultIds) × (ret ≡ 0)
      × (ctx ≡ known_of c)
      × HasAll (known_of c)
      × (calls ≡ s.calls ++ default_calls c)

  abbrev Starts : Registry W → Option (ℕ × Registry W) → Type 0
  Starts s none = ⊥
  Starts s (some (ret, t)) = Started s ret t.ctx t.calls

  is_given : (w : W) (r : Registration) → is_some (lib.cli_register_command w r).0 ≡ true
  is_given w r = rw ((lawful.answers w r).1)

  optarg_then :
      (G : Option (ℕ × Registry W) → Type 0) (c : Option ℕ) (o : Optarg) (k : Option ℕ → R W ℕ)
      (s : Registry W)
      → is_some c ≡ true
      → ((x : Option ℕ) (w : W)
          → G (k x (record s { cli = w; calls = s.calls ++ optarg c o x ∷ [] })))
      → G ((cli_register_optarg lib c o >>= k) s)
  unfolding cli_register_optarg
  optarg_then G none o k s h all = absurd (cc h)
  optarg_then G (some c) o k s h all = all _ _

  starting :
      (s : Registry W) (ctx : CtxData) (calls : List Call) (c : DefaultIds)
      → ctx ≡ known_of c
      → calls ≡ snocs s.calls (default_calls c)
      → HasAll (known_of c)
      → Started s 0 ctx calls
  starting s ctx calls c known made all =
      (c, refl, known, all, made ∙ snocs-append s.calls (default_calls c))

  default_commands_init-Starts : (s : Registry W) → Starts s (default_commands_init lib s)
  unfolding default_commands_init cli_register_command
  default_commands_init-Starts s = optarg_then (Starts s) _ _ _ _ (is_given _ _) (λ x w.
      starting s _ _
        (record {
          exit_c = _;
          commit_c = _;
          show = _;
          config_candidate = _;
          config_running = _;
          config_startup = _;
          show_oper = _;
          format = x;
          discard = _;
          no_cmd = _;
        })
        refl refl (is_given _ _, is_given _ _, is_given _ _, is_given _ _, is_given _ _))

  -- What `yang_cmd_loader_init` returns and does.
  abbrev Loaded : Registry W → ℕ → CtxData → List Call → Type 0
  Loaded s ret ctx calls =
      (c : LoaderIds) × (ret ≡ 0) × (ctx ≡ s.ctx) × (calls ≡ s.calls ++ loader_calls c)

  abbrev Loads : Registry W → Option (ℕ × Registry W) → Type 0
  Loads s none = ⊥
  Loads s (some (ret, t)) = Loaded s ret t.ctx t.calls

  loading :
      (s : Registry W) (ctx : CtxData) (calls : List Call) (c : LoaderIds)
      → ctx ≡ s.ctx
      → calls ≡ snocs s.calls (loader_calls c)
      → Loaded s 0 ctx calls
  loading s ctx calls c same made = (c, refl, same, made ∙ snocs-append s.calls (loader_calls c))

  yang_cmd_loader_init-Loads : (s : Registry W) → Loads s (yang_cmd_loader_init lib s)
  unfolding yang_cmd_loader_init cli_register_command
  yang_cmd_loader_init-Loads s = optarg_then (Loads s) _ _ _ _ (is_given _ _) (λ x1 w1.
      optarg_then (Loads s) _ _ _ _ (is_given _ _) (λ x2 w2.
        optarg_then (Loads s) _ _ _ _ (is_given _ _) (λ x3 w3.
          optarg_then (Loads s) _ _ _ _ (is_given _ _) (λ x4 w4.
            loading s _ _
              (record {
                sysrepo_cmd = _;
                set_path = _;
                path_o = x1;
                list_c = _;
                load_c = _;
                install_c = _;
                file_o = x2;
                remove_c = _;
                name_o = x3;
                force_o = x4;
              })
              refl refl))))

  started :
      (s : Registry W) (o : Option (ℕ × Registry W))
      → Starts s o
      → (t : Registry W) × (c : DefaultIds) × (o ≡ some (0, t))
        × (t.ctx ≡ known_of c)
        × HasAll (known_of c)
        × (t.calls ≡ s.calls ++ default_calls c)
  started s none h = absurd h
  started s (some (ret, t)) (c, e, known, all, calls) =
      (t, c, ap (λ (n : ℕ). some (n, t)) e, known, all, calls)

  loaded :
      (s : Registry W) (o : Option (ℕ × Registry W))
      → Loads s o
      → (t : Registry W) × (c : LoaderIds) × (o ≡ some (0, t))
        × (t.ctx ≡ s.ctx)
        × (t.calls ≡ s.calls ++ loader_calls c)
  loaded s none h = absurd h
  loaded s (some (ret, t)) (c, e, same, calls) = (t, c, ap (λ (n : ℕ). some (n, t)) e, same, calls)

  init_runs :
      (s t u : Registry W)
      → default_commands_init lib s ≡ some (0, t)
      → yang_cmd_loader_init lib t ≡ some (0, u)
      → onm_cli_init lib s ≡ some (0, u)
  unfolding onm_cli_init
  init_runs s t u e f = rw (e, ◌>>=◌, f)

  -- Where libcli answers, `onm_cli_init` returns 0 and makes exactly these calls: `exit`, `commit`,
  -- `show` with the four commands below it and the `format` argument of the one for the candidate,
  -- `discard-changes` and `no`; then `sysrepo` with its commands and their arguments. What it keeps for
  -- later are the commands that these calls returned, and they are all there. Registering a subtree of
  -- state data whose names fit the buffers and whose lists have keys of different names then returns
  -- too, and makes no command but those that show operational data, in every mode, and no argument but
  -- those that are completed from the running datastore.
  pub onm_cli_init-register_commands_schema :
      (owner_module log_path : List Info → Str) (malloc : ℕ → Bool) (y_node : Info) (up : List Info)
      (children : Nodes) (s : Registry W)
      → IsStateNode y_node up
      → HasKeys children
      → AreState (y_node ∷ up) children
      → (c : DefaultIds) × (l : LoaderIds) × (t u : Registry W) × (new : List Call) × (onm_cli_init
            lib s
          ≡ some (0, t))
        × (t.calls ≡ (s.calls ++ default_calls c) ++ loader_calls l)
        × (t.ctx ≡ known_of c)
        × HasAll t.ctx
        × (register_commands_schema lib owner_module log_path malloc y_node up children t
            ≡ some (tt, u))
        × (u.calls ≡ t.calls ++ new)
        × All IsShow new
  onm_cli_init-register_commands_schema owner_module log_path malloc y_node up children s here keys
        under =
      let (t, c, run, known, all, calls) =
        started s (default_commands_init lib s) (default_commands_init-Starts s) in
      let (u, l, load, same, more) =
        loaded t (yang_cmd_loader_init lib t) (yang_cmd_loader_init-Loads t) in
      let kept : HasAll u.ctx = subst HasAll (sym (same ∙ known)) all in
      let (v, new, runs, _, added, shows) =
        register_commands_schema-Shows lib owner_module log_path malloc lawful y_node up children u
          here keys under kept.4 in
      (
        c,
        l,
        u,
        v,
        new,
        init_runs s t u run load,
        more ∙ ap (λ (calls : List Call). calls ++ loader_calls l) calls,
        same ∙ known,
        kept,
        runs,
        added,
        shows,
      )
