-- ===== src/DefaultCmd/Overlay.antt =====
-- src/commands/default_cmd.c: `commit` as an operation on an abstract datastore, a map of paths.
use mathlib.Core.Option.{some-injective}
use onm_cli.Base.{
  ℕ, ◌≡◌, ◌≢◌, sym, ap, ◌∙◌, subst, inl, inr, true, false, Option, none, some, List, [], ◌∷◌, Str,
  All, str_eq, str_eq→≡, str_eq_refl, Bool-cases, if◌then◌else◌,
}
use onm_cli.Cli.{CliCode, cli_ok}
use onm_cli.Env.{Env}
use onm_cli.State.{DataTree, State}
use onm_cli.Sysrepo.Commit.{Kept, Documented, IsReadable}
use onm_cli.DefaultCmd.{cmd_commit}
use onm_cli.DefaultCmd.RootList.{IsRootList, AreStored}
use onm_cli.DefaultCmd.Commit.{commit_trees-Pushed}

-- What a datastore holds when the trees of `entries` replace those at their paths
abbrev pub overlay : {Tree : Type 0} → List (Str × Tree) → (Str → Option Tree) → Str → Option Tree
overlay [] store path = store path
overlay ((p, tree) ∷ entries) store path =
    if str_eq p path then some tree else overlay entries store path

module _ (env : Env) {Tree : Type 0} (content : Env.World env → ℕ → Tree)
    (stored : Env.World env → Str → Option Tree) where
  open env use {World}

  abbrev entry : World → Option ℕ → List (Str × Tree) → List (Str × Tree)
  entry w none entries = entries
  entry w (some m) entries = (env.lyd_path w m, content w m) ∷ entries

  -- The candidate without its cells and pointers: the trees by their paths.
  abbrev pub view : World → List DataTree → List (Str × Tree)
  view w [] = []
  view w (t ∷ ts) = entry w t.node (view w ts)

  abbrev IsFreeOf : World → Str → List DataTree → Type 0
  IsFreeOf w path = All (λ (u : DataTree). (q : ℕ) → u.node ≡ some q → path ≢ env.lyd_path w q)

  view_cons :
      (w : World) (t : DataTree) (ts : List DataTree) (m : ℕ)
      → t.node ≡ some m
      → view w (t ∷ ts) ≡ (env.lyd_path w m, content w m) ∷ view w ts
  view_cons w t ts m e = ap (λ o. entry w o (view w ts)) e

  stored-overlay :
      (w w' : World) (path : Str) (ts : List DataTree)
      → Kept env content w w'
      → IsRootList env content stored w ts
      → AreStored env content stored w' ts
      → (IsFreeOf w path ts → stored w' path ≡ stored w path)
      → stored w' path ≡ overlay (view w ts) (stored w) path
  stored-overlay w w' path [] kept roots all rest = rest tt
  stored-overlay w w' path (t ∷ ts) kept ((m, e, l, top, differs), roots) (own, all) rest =
      let (l', c, p, a) = kept m l in
      rw (view_cons w t ts m e) (elim (Bool-cases (str_eq (env.lyd_path w m) path)) [
        | inl same ↦
            let at = str_eq→≡ (env.lyd_path w m) path same in
            rw same (ap (stored w') (sym (p ∙ at)) ∙ own m e ∙ ap some c)
        | inr other ↦
            rw other (stored-overlay w w' path ts kept roots all (λ free. rest (apart other, free)))
      ])
    where
      here : (q : ℕ) → t.node ≡ some q → env.lyd_path w m ≡ env.lyd_path w q
      here q is = ap (env.lyd_path w) (some-injective _ _ (sym e ∙ is))

      apart :
          str_eq (env.lyd_path w m) path ≡ false
          → (q : ℕ) → t.node ≡ some q
          → path ≢ env.lyd_path w q
      apart other q is same =
          let equal =
            subst (λ r. str_eq r path ≡ true) (same ∙ sym (here q is)) (str_eq_refl path) in
          absurd (cc (sym equal ∙ other))

  -- Under what is documented of libyang and sysrepo, where every read of a subtree succeeds or finds
  -- none, for a candidate of allocated top-level trees at different paths: `commit` returns, and the
  -- trees and the candidate's list are as they were. If it returns CLI_OK, then on the paths of the
  -- top-level trees that were allocated the running datastore is the old one overlaid with the
  -- candidate, seen as a list of trees by their paths.
  pub cmd_commit-overlay :
      (s : State World)
      → Documented env content stored
      → IsReadable env
      → IsRootList env content stored s.world s.config_root_tree
      → (code : CliCode) × (s' : State World) × (cmd_commit env s ≡ some (code, s'))
        × Kept env content s.world s'.world
        × (s'.config_root_tree ≡ s.config_root_tree)
        × (code ≡ cli_ok
            → (q : ℕ) → env.live s.world q ≡ true
            → env.ancestors s.world q ≡ []
            → stored s'.world (env.lyd_path s.world q)
              ≡ overlay (view s.world s.config_root_tree) (stored s.world) (env.lyd_path s.world q))
  unfolding cmd_commit
  cmd_commit-overlay s doc readable roots =
      let (code, s', run, (kept, same, all, rest)) =
        commit_trees-Pushed env content stored doc readable s.config_root_tree s roots in
      (
        code,
        s',
        run,
        kept,
        same,
        λ good q l top.
            stored-overlay s.world s'.world (env.lyd_path s.world q) s.config_root_tree kept roots
              (all good) (λ free. rest good q (l, top, free)),
      )
