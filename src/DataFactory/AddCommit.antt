-- ===== src/DataFactory/AddCommit.antt =====
-- data_factory.c and src/commands/default_cmd.c: a root container that is added is committed.
use mathlib.Core.Option.{some-injective}
use onm_cli.Base.{
  ℕ, ◌≡◌, refl, sym, ap, ◌∙◌, subst, inl, inr, true, Option, none, some, List, [], ◌∷◌, Str,
}
use onm_cli.Cli.{CliCode, cli_ok}
use onm_cli.Env.{Env, LyErr, success}
use onm_cli.Schema.{container, Info}
use onm_cli.State.{DataTree, State}
use onm_cli.Sysrepo.Commit.{Documented, IsReadable}
use onm_cli.DefaultCmd.{cmd_commit}
use onm_cli.DefaultCmd.RootList.{IsRootList, AreStored}
use onm_cli.DefaultCmd.Commit.{cmd_commit-AreStored}
use onm_cli.DataFactory.{add_data_node}
use onm_cli.DataFactory.Roots.{IsTop, IsMaking}
use onm_cli.DataFactory.FindRoot.{Holds}
use onm_cli.DataFactory.AddRoot.{Added}
use onm_cli.DataFactory.AddContainer.{add_data_node-Added}

module _ (env : Env) (lysc_path : List Info → Str) {Tree : Type 0}
    (content : Env.World env → ℕ → Tree) (stored : Env.World env → Str → Option Tree) where
  open env use {World}

  AreStored-Holds :
      (w : World) (r n : ℕ) (ts : List DataTree)
      → AreStored env content stored w ts
      → Holds env lysc_path r n ts
      → stored w (env.lyd_path w n) ≡ some (content w n)
  AreStored-Holds w r n [] all held = absurd held
  AreStored-Holds w r n (t ∷ ts) (here, all) (inl (at, is)) = here n is
  AreStored-Holds w r n (t ∷ ts) (here, all) (inr held) = AreStored-Holds w r n ts all held

  module _ (law : IsMaking env lysc_path) (y_node : Info) (doc : Documented env content stored)
      (readable : IsReadable env) where
    -- What a commit does with the tree of the container.
    abbrev pub Committed : State World → Option (CliCode × State World) → Type 0
    Committed s' o =
        (code : CliCode) × (s'' : State World) × (n : ℕ) × (o ≡ some (code, s''))
        × (s'.parent_data ≡ some n)
        × IsTop env s''.world (lysc_path (y_node ∷ [])) n
        × (code ≡ cli_ok → stored s''.world (lysc_path (y_node ∷ [])) ≡ some (content s''.world n))

    committed_lem :
        (c : ℕ) (ts : List DataTree) (s' : State World)
        → Added env lysc_path law y_node content stored c ts success s'
        → Committed s' (cmd_commit env s')
    committed_lem c ts s' (inr (ne, _)) = absurd (ne refl)
    committed_lem c ts s' (inl (_, roots, _, r, n, _, is, held, (l, a, p))) =
        let (code, s'', run, kept, same, all) =
          cmd_commit-AreStored env content stored doc readable s' roots in
        let (l', _, p', a') = kept n l in
        (
          code,
          s'',
          n,
          run,
          is,
          (l', a' ∙ a, p' ∙ p),
          λ good.
              ap (stored s''.world) (sym (p' ∙ p))
              ∙ AreStored-Holds s''.world r n s''.config_root_tree (all good)
                  (subst (Holds env lysc_path r n) (sym same) held),
        )

    -- Under what is documented of libyang and sysrepo, where every read of a subtree succeeds or finds
    -- none: after a root container was added with LY_SUCCESS to a candidate of allocated top-level
    -- trees at different paths, with `parent_data` at NULL if it was empty, `commit` returns. The
    -- node that `parent_data` then points to is still the tree at the path of the container and, if
    -- `commit` returns CLI_OK, the running datastore holds it there.
    pub add_data_node-cmd_commit :
        (s s' : State World)
        → y_node.nodetype ≡ container
        → (env.sr_acquire_context s.world).0 ≡ true
        → IsRootList env content stored s.world s.config_root_tree
        → (s.config_root_tree ≡ [] → s.parent_data ≡ none)
        → add_data_node env lysc_path y_node [] none s ≡ some (success, s')
        → Committed s' (cmd_commit env s')
    add_data_node-cmd_commit s s' k ctx roots top done =
        let (ret, t, run, added) =
          add_data_node-Added env lysc_path law y_node content stored s k ctx roots top in
        let both = some-injective _ _ (sym run ∙ done) in
        committed_lem s.next_cell s.config_root_tree s' (
          subst
            (λ (p : LyErr × State World).
              Added env lysc_path law y_node content stored s.next_cell s.config_root_tree p.0 p.1)
            both added)
