-- ===== src/DefaultCmd/Leave.antt =====
-- src/commands/default_cmd.c: `exit` behind a commit leaves, with the candidate freed.
use mathlib.Core.Option.{some-injective}
use onm_cli.Base.{
  ℕ, ◌+◌, ◌≡◌, ◌≢◌, refl, sym, ap, ◌∙◌, subst, true, false, Option, some, List, [], ◌∷◌, arith, Str,
}
use onm_cli.Cli.{CliCode, cli_ok}
use onm_cli.Env.{Env}
use onm_cli.State.{DataTree, State}
use onm_cli.Sysrepo.{free_roots, free_data_tree_all, sysrepo_release_ctx}
use onm_cli.Sysrepo.Commit.{Kept, Documented, IsReadable}
use onm_cli.Sysrepo.Commit.One
use onm_cli.YUtils.Mode.{config_mode}
use onm_cli.DefaultCmd.{exit_trees, exit_unless, cmd_commit, cmd_exit2, leave_config}
use onm_cli.DefaultCmd.RootList.{Differs, IsRootList, AreStored, IsRootList-Kept}
use onm_cli.DefaultCmd.Commit.{cmd_commit-AreStored}
use onm_cli.DefaultCmd.Exit.{any_uncommited-Asked, exit-asks, cmd_exit2-config}

-- What libyang documents of `lyd_free_all`: it frees one tree and no other.
pub record IsFreeing (env : Env) : Type 0 where
  pub others :
      (w : Env.World env) (n m : ℕ)
      → env.live w m ≡ true
      → env.ancestors w m ≡ []
      → env.lyd_path w n ≢ env.lyd_path w m
      → (env.live (env.lyd_free_all w (some n)) m ≡ true)
        × (env.lyd_path (env.lyd_free_all w (some n)) m ≡ env.lyd_path w m)
        × (env.ancestors (env.lyd_free_all w (some n)) m ≡ [])

module _ (env : Env) {Tree : Type 0} (content : Env.World env → ℕ → Tree)
    (stored : Env.World env → Str → Option Tree) (freeing : IsFreeing env) where
  open env use {World}

  module _ (w : World) (n : ℕ) where
    abbrev freed : World
    freed = env.lyd_free_all w (some n)

    Differs-freed :
        (m : ℕ) (ts : List DataTree)
        → env.live w m ≡ true
        → env.ancestors w m ≡ []
        → env.lyd_path w n ≢ env.lyd_path w m
        → IsRootList env content stored w ts
        → Differs env content stored w n ts
        → Differs env content stored w m ts
        → Differs env content stored freed m ts
    Differs-freed m [] l top ne roots from_n differs = tt
    Differs-freed m (t ∷ ts) l top ne ((q, e, lq, tq, dq), roots) (nq, from_n) (mq, differs) = (
      λ x f same. mq x f (sym (freeing.others w n m l top ne).1 ∙ same ∙ path_x x f),
      Differs-freed m ts l top ne roots from_n differs,
    )
      where
        path_x : (x : ℕ) → t.node ≡ some x → env.lyd_path freed x ≡ env.lyd_path w x
        path_x x f =
            let is = some-injective _ _ (sym f ∙ e) in rw is (freeing.others w n q lq tq (nq q e)).1

    IsRootList-freed :
        (ts : List DataTree)
        → IsRootList env content stored w ts
        → Differs env content stored w n ts
        → IsRootList env content stored freed ts
    IsRootList-freed [] roots from_n = tt
    IsRootList-freed (t ∷ ts) ((q, e, lq, tq, dq), roots) (nq, from_n) =
        let (l, p, a) = freeing.others w n q lq tq (nq q e) in
        (
          (q, e, l, a, Differs-freed q ts lq tq (nq q e) roots from_n dq),
          IsRootList-freed ts roots from_n,
        )

  free_roots-next :
      (t : DataTree) (ts : List DataTree) (w : World) (m : ℕ)
      → t.node ≡ some m
      → env.live w m ≡ true
      → free_roots env (t ∷ ts) w ≡ free_roots env ts (env.lyd_free_all w (some m))
  unfolding free_roots
  free_roots-next t ts w m e l = ground arith

  -- Every tree of the list is allocated when it is freed: none is freed twice.
  pub free_roots-total :
      (ts : List DataTree) (w : World)
      → IsRootList env content stored w ts
      → (w' : World) × (free_roots env ts w ≡ some w')
  unfolding free_roots
  free_roots-total [] w roots = (w, refl)
  free_roots-total (t ∷ ts) w ((m, e, l, top, differs), roots) =
      let (w', run) = free_roots-total ts (freed w m) (IsRootList-freed w m ts roots differs) in
      (w', free_roots-next t ts w m e l ∙ run)

  -- What `exit` leaves behind when it leaves: each tree of the candidate freed while it is still
  -- allocated, the context released, the code of `cli_exit`, and an empty candidate.
  abbrev pub Left : State World → CliCode → State World → Type 0
  Left s code s' =
      (w1 w2 : World) × Kept env content s.world w1
      × (free_roots env s.config_root_tree w1 ≡ some w2)
      × (code ≡ (env.cli_exit (env.sr_release_context w2)).0)
      × (s' ≡ record s {
        world = (env.cli_exit (env.sr_release_context w2)).1;
        config_root_tree = [];
        released = s.released + 1;
      })

  leave-frees :
      (s : State World) (w' : World)
      → free_roots env s.config_root_tree s.world ≡ some w'
      → exit_unless env false s
        ≡ some (
          (env.cli_exit (env.sr_release_context w')).0,
          record s {
            world = (env.cli_exit (env.sr_release_context w')).1;
            config_root_tree = [];
            released = s.released + 1;
          },
        )
  unfolding free_data_tree_all sysrepo_release_ctx
  leave-frees s w' e = ground arith

  leave-empty :
      (s : State World)
      → s.config_root_tree ≡ []
      → leave_config env s
        ≡ some (
          (env.cli_exit (env.sr_release_context s.world)).0,
          record s {
            world = (env.cli_exit (env.sr_release_context s.world)).1;
            config_root_tree = [];
            released = s.released + 1;
          },
        )
  unfolding sysrepo_release_ctx
  leave-empty s e = ground arith

  free_none :
      (s : State World)
      → s.config_root_tree ≡ []
      → free_roots env s.config_root_tree s.world ≡ some s.world
  unfolding free_roots
  free_none s e = ground arith

  module _ (doc : Documented env content stored) (readable : IsReadable env) where
    exit_trees-leaves :
        (ts : List DataTree) (s : State World)
        → s.config_root_tree ≡ ts
        → IsRootList env content stored s.world ts
        → AreStored env content stored s.world ts
        → (code : CliCode) × (s' : State World) × (exit_trees env ts s ≡ some (code, s'))
          × Left s code s'
    exit_trees-leaves [] s e roots all = (
      _,
      _,
      leave-empty s e,
      (s.world, s.world, One.Kept-refl env content stored doc s.world, free_none s e, refl, refl),
    )
    exit_trees-leaves (t ∷ ts) s e roots all =
        let (b, w1, (run, kept, same, _, stays)) =
          any_uncommited-Asked env content stored doc readable (t ∷ ts) s roots in
        let again = IsRootList-Kept env content stored s.world w1 (t ∷ ts) kept roots in
        let (w2, freed_all) = free_roots-total (t ∷ ts) w1 again in
        let frees = ap (λ (l : List DataTree). free_roots env l w1) e ∙ freed_all in
        let leaves = leave-frees (record s { world = w1 }) w2 frees in
        (
          _,
          _,
          exit-asks env content stored doc readable t ts s b w1 run ∙ rw (stays all) leaves,
          (w1, w2, kept, frees, refl, refl),
        )

    -- In the mode of `configure terminal`, `exit` leaves if the running datastore holds every tree
    -- of the candidate at its path: it frees each tree once, empties the candidate, and returns
    -- what `cli_exit` returns.
    exit-leaves :
        (s : State World)
        → env.mode s.world ≡ config_mode
        → IsRootList env content stored s.world s.config_root_tree
        → AreStored env content stored s.world s.config_root_tree
        → (code : CliCode) × (s' : State World) × (cmd_exit2 env s ≡ some (code, s'))
          × Left s code s'
    exit-leaves s e roots all =
        rw (cmd_exit2-config env content stored doc readable s e)
          (exit_trees-leaves s.config_root_tree s refl roots all)

    -- Under what is documented of libyang and sysrepo, where every read of a subtree succeeds or finds
    -- none, for a candidate of allocated top-level trees at different paths, a `commit` that returns
    -- CLI_OK is enough for `exit` to leave: in the mode of `configure terminal`, `exit` in the state
    -- behind the commit does not complain of uncommitted changes, but frees each tree of the
    -- candidate while it is still allocated, empties the candidate, releases the context, and
    -- returns what `cli_exit` returns.
    pub cmd_commit-cmd_exit2 :
        (s s' : State World)
        → IsRootList env content stored s.world s.config_root_tree
        → cmd_commit env s ≡ some (cli_ok, s')
        → env.mode s'.world ≡ config_mode
        → (code : CliCode) × (t : State World) × (cmd_exit2 env s' ≡ some (code, t))
          × Left s' code t
    cmd_commit-cmd_exit2 s s' roots done e =
        let (c, u, run, kept, same, all) =
          cmd_commit-AreStored env content stored doc readable s roots in
        let both = some-injective _ _ (sym run ∙ done) in
        let ok = ap (λ (p : CliCode × State World). p.0) both in
        let is = ap (λ (p : CliCode × State World). p.1) both in
        exit-leaves s' e
          (subst (λ (v : State World). IsRootList env content stored v.world v.config_root_tree) is
            (rw same
              (IsRootList-Kept env content stored s.world u.world s.config_root_tree kept roots)))
          (subst (λ (v : State World). AreStored env content stored v.world v.config_root_tree) is
            (all ok))
