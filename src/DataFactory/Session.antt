-- ===== src/DataFactory/Session.antt =====
-- data_factory.c and src/commands/default_cmd.c: what a user does with the candidate, as a step relation.
use mathlib.Core.Option.{some-injective}
use onm_cli.Base.{
  ℕ, ◌≡◌, ◌≢◌, refl, sym, ap, ◌∙◌, subst, inl, inr, Bool, true, false, if◌then◌else◌, Option, none,
  some, List, [], ◌∷◌, Str,
}
use onm_cli.Cli.{CliCode, cli_ok}
use onm_cli.Env.{Env, LyErr, success}
use onm_cli.Schema.{container, Info}
use onm_cli.State.{DataTree, State}
use onm_cli.Sysrepo.Commit.{Documented, IsReadable}
use onm_cli.DefaultCmd.{cmd_commit, commit_trees, cmd_show_config_candidate}
use onm_cli.DefaultCmd.RootList.{IsRootList, IsRootList-Kept}
use onm_cli.DefaultCmd.Commit.{cmd_commit-AreStored}
use onm_cli.DefaultCmd.Overlay.{overlay, view, cmd_commit-overlay}
use onm_cli.DefaultCmd.Show.{
  asks_json, shown, show_code, behind, all_printable, cmd_show_config_candidate-shown,
}
use onm_cli.DataFactory.{add_data_node}
use onm_cli.DataFactory.Roots.{IsMaking}
use onm_cli.DataFactory.FindRoot.{Holds}
use onm_cli.DataFactory.AddRoot.{Added}
use onm_cli.DataFactory.AddContainer.{add_data_node-Added}

-- One command of a user: entering a root container, showing the candidate, and committing it.
pub data Step (env : Env) (lysc_path : List Info → Str)
    : State (Env.World env) → State (Env.World env) → Type 0 where
  enter :
      {s s' : State (Env.World env)} (y_node : Info)
      → y_node.nodetype ≡ container
      → (env.sr_acquire_context s.world).0 ≡ true
      → add_data_node env lysc_path y_node [] none s ≡ some (success, s')
      → Step env lysc_path s s'
  show :
      {s s' : State (Env.World env)} (format : Option Str) (code : CliCode)
      → cmd_show_config_candidate env format s ≡ some (code, s')
      → Step env lysc_path s s'
  store :
      {s s' : State (Env.World env)} (code : CliCode)
      → cmd_commit env s ≡ some (code, s')
      → Step env lysc_path s s'

pub data Steps (env : Env) (lysc_path : List Info → Str)
    : State (Env.World env) → State (Env.World env) → Type 0 where
  stop : {s : State (Env.World env)} → Steps env lysc_path s s
  next :
      {s s' s'' : State (Env.World env)}
      → Step env lysc_path s s'
      → Steps env lysc_path s' s''
      → Steps env lysc_path s s''

module _ (env : Env) (lysc_path : List Info → Str) {Tree : Type 0}
    (content : Env.World env → ℕ → Tree) (stored : Env.World env → Str → Option Tree)
    (law : IsMaking env lysc_path) (doc : Documented env content stored)
    (readable : IsReadable env) where
  open env use {World}

  abbrev pub IsSession : State World → Type 0
  IsSession s =
      IsRootList env content stored s.world s.config_root_tree
      × (s.config_root_tree ≡ [] → s.parent_data ≡ none)

  some_held : (r n : ℕ) (ts : List DataTree) → Holds env lysc_path r n ts → ts ≢ []
  some_held r n [] held e = absurd held
  some_held r n (t ∷ ts) held e = cc

  enter-IsSession :
      (y_node : Info) (s s' : State World)
      → y_node.nodetype ≡ container
      → (env.sr_acquire_context s.world).0 ≡ true
      → add_data_node env lysc_path y_node [] none s ≡ some (success, s')
      → IsSession s
      → IsSession s'
  enter-IsSession y_node s s' k ctx done (roots, top) =
      let (ret, t, run, added) =
        add_data_node-Added env lysc_path law y_node content stored s k ctx roots top in
      let both = some-injective _ _ (sym run ∙ done) in
      settled (
        subst
          (λ (p : LyErr × State World).
            Added env lysc_path law y_node content stored s.next_cell s.config_root_tree p.0 p.1)
          both added)
    where
      settled :
          Added env lysc_path law y_node content stored s.next_cell s.config_root_tree success s'
          → IsSession s'
      settled (inr (ne, _)) = absurd (ne refl)
      settled (inl (_, roots', _, r, n, _, is, held, _)) =
          (roots', λ e. absurd (some_held r n s'.config_root_tree held e))

  show-IsSession :
      (format : Option Str) (code : CliCode) (s s' : State World)
      → cmd_show_config_candidate env format s ≡ some (code, s')
      → IsSession s
      → IsSession s'
  show-IsSession format code s s' done session =
      by_printing (all_printable env s.world s.config_root_tree)
        (sym (cmd_show_config_candidate-shown env format s) ∙ done)
    where
      all_shown : CliCode × State World
      all_shown =
          (show_code s.config_root_tree, behind env s (shown (asks_json format) s.config_root_tree))

      by_printing :
          (b : Bool) → (if b then some all_shown else none) ≡ some (code, s') → IsSession s'
      by_printing true e =
          subst (λ (p : CliCode × State World). IsSession p.1) (some-injective _ _ e) session
      by_printing false e = cc

  -- A commit of an empty candidate only prints.
  store_parent :
      (code : CliCode) (s s' : State World)
      → cmd_commit env s ≡ some (code, s')
      → s.config_root_tree ≡ []
      → s'.parent_data ≡ s.parent_data
  unfolding cmd_commit
  store_parent code s s' done e =
      let empty = subst (λ ts. commit_trees env ts s ≡ some (code, s')) e done in
      ap (λ (p : CliCode × State World). p.1.parent_data) (sym (some-injective _ _ empty))

  store-IsSession :
      (code : CliCode) (s s' : State World)
      → cmd_commit env s ≡ some (code, s')
      → IsSession s
      → IsSession s'
  store-IsSession code s s' done (roots, top) =
      let (ret, t, run, kept, same, _) =
        cmd_commit-AreStored env content stored doc readable s roots in
      let at = some-injective _ _ (sym run ∙ done) in
      subst (λ (p : CliCode × State World). IsSession p.1) at
        (
          subst (IsRootList env content stored t.world) (sym same)
              (IsRootList-Kept env content stored s.world t.world s.config_root_tree kept roots),
          λ e. store_parent ret s t run (sym same ∙ e) ∙ top (sym same ∙ e),
        )

  Step-IsSession : (s s' : State World) → Step env lysc_path s s' → IsSession s → IsSession s'
  Step-IsSession s s' (enter y_node k ctx done) = enter-IsSession y_node s s' k ctx done
  Step-IsSession s s' (show format code done) = show-IsSession format code s s' done
  Step-IsSession s s' (store code done) = store-IsSession code s s' done

  Steps-IsSession : (s s' : State World) → Steps env lysc_path s s' → IsSession s → IsSession s'
  Steps-IsSession s s' stop session = session
  Steps-IsSession s s' (next {s' = t} step steps) session =
      Steps-IsSession t s' steps (Step-IsSession s t step session)

  -- Under what is documented of libyang and sysrepo, where every read of a subtree succeeds or finds
  -- none: however often a user enters root containers, with LY_SUCCESS, shows the candidate and
  -- commits it, from a state with an empty candidate and `parent_data` at NULL, the candidate is a list
  -- of allocated top-level trees at different paths. `commit` then returns and, if it returns
  -- CLI_OK, on the paths of the allocated top-level trees the running datastore is the old one
  -- overlaid with the candidate.
  pub Steps-cmd_commit :
      (s s' : State World)
      → s.config_root_tree ≡ []
      → s.parent_data ≡ none
      → Steps env lysc_path s s'
      → IsRootList env content stored s'.world s'.config_root_tree
        × (code : CliCode) × (s'' : State World) × (cmd_commit env s' ≡ some (code, s''))
        × (code ≡ cli_ok
            → (q : ℕ) → env.live s'.world q ≡ true
            → env.ancestors s'.world q ≡ []
            → stored s''.world (env.lyd_path s'.world q)
              ≡ overlay
                  (view env content stored s'.world s'.config_root_tree)
                  (stored s'.world)
                  (env.lyd_path s'.world q))
  Steps-cmd_commit s s' empty top steps =
      let roots = subst (IsRootList env content stored s.world) (sym empty) tt in
      let session = Steps-IsSession s s' steps (roots, λ e. top) in
      let (code, s'', run, _, _, holds) =
        cmd_commit-overlay env content stored s' doc readable session.0 in
      (session.0, code, s'', run, holds)
