-- ===== src/DataFactory/DeleteRoot.antt =====
-- data_factory.c: what deleting a root container does.
use onm_cli.Base.{
  ℕ, ◌+◌, ◌≡◌, ◌≢◌, refl, sym, ◌∙◌, inl, inr, true, false, Option, none, some, List, [], ◌∷◌, arith,
  Str,
}
use onm_cli.Env.{Env}
use onm_cli.Schema.{container, Info}
use onm_cli.State.{DataTree, State, ◌>>=◌}
use onm_cli.Sysrepo.{sysrepo_get_ctx}
use onm_cli.DefaultCmd.RootList.{IsRootList}
use onm_cli.DataFactory.{
  EditType, is_same_schema, find_root, root_among, edit_container, edit_by_type,
  edit_node_data_tree, add_data_node, delete_data_node, edit_data_add, edit_data_del,
}
use onm_cli.DataFactory.Roots.{Still, IsRootList-Still}
use onm_cli.DataFactory.FindRoot.{Found, Holds, find_root-Found}

module _ (env : Env) (lysc_path : List Info → Str) {Tree : Type 0}
    (content : Env.World env → ℕ → Tree) (stored : Env.World env → Str → Option Tree) where
  open env use {World}

  -- A tree of the list is one of the schema node.
  not_missing :
      (w : World) (y_node : Info) (c m : ℕ) (ts : List DataTree)
      → Holds env lysc_path c m ts
      → is_same_schema (env.schema w m) y_node ≡ true
      → ¬ Found env lysc_path w y_node ts none
  not_missing w y_node c m [] held same found = held
  not_missing w y_node c m (t ∷ ts) (inl (at, is)) same (here, found) =
      absurd (clash (sym same ∙ here m is))
    where
      clash : true ≢ false
      clash e = ground arith
  not_missing w y_node c m (t ∷ ts) (inr held) same (here, found) =
      not_missing w y_node c m ts held same found

  no_root :
      (y_node : Info) (k : DataTree) (u : State World)
      → find_root env lysc_path y_node [] u ≢ some (some k, u)
  unfolding find_root
  no_root y_node k u e = ground arith

  either_edit :
      (edit_type : EditType) (y_node : Info) (k : DataTree) (ts : List DataTree) (u : State World)
      → u.config_root_tree ≡ ts
      → find_root env lysc_path y_node ts u ≡ some (some k, u)
      → root_among env lysc_path edit_type y_node (lysc_path (y_node ∷ [])) ts u
        ≡ root_among env lysc_path edit_data_add y_node (lysc_path (y_node ∷ [])) ts u
  either_edit edit_type y_node k [] u et run = absurd (no_root y_node k u run)
  either_edit edit_type y_node k (t ∷ ts) u et run = rw (run, ◌>>=◌)

  container_edit :
      (edit_type : EditType) (y_node : Info) (s : State World)
      → y_node.nodetype ≡ container
      → (env.sr_acquire_context s.world).0 ≡ true
      → edit_node_data_tree env lysc_path edit_type y_node [] none s
        ≡ root_among env lysc_path edit_type y_node
            (lysc_path (y_node ∷ []))
            s.config_root_tree
            (record s { world = (env.sr_acquire_context s.world).1; acquired = s.acquired + 1 })
  unfolding edit_node_data_tree edit_by_type edit_container sysrepo_get_ctx
  container_edit edit_type y_node s k ctx = rw (ctx, ◌>>=◌, k)

  -- For a root container whose tree is in the candidate, `delete_data_node` does what
  -- `add_data_node` does, in the result and the whole state behind it: nothing is deleted. The
  -- candidate is a list of allocated top-level trees at different paths, and the context can be
  -- acquired, which leaves them alone.
  pub delete_data_node-add_data_node :
      (y_node : Info) (s : State World) (c m : ℕ)
      → y_node.nodetype ≡ container
      → (env.sr_acquire_context s.world).0 ≡ true
      → Still env s.world (env.sr_acquire_context s.world).1
      → IsRootList env content stored s.world s.config_root_tree
      → Holds env lysc_path c m s.config_root_tree
      → is_same_schema (env.schema (env.sr_acquire_context s.world).1 m) y_node ≡ true
      → delete_data_node env lysc_path y_node [] none s
        ≡ add_data_node env lysc_path y_node [] none s
  delete_data_node-add_data_node y_node s c m k ctx still roots held same =
      let w = (env.sr_acquire_context s.world).1 in
      let u = record s { world = w; acquired = s.acquired + 1 } in
      let (o, run, found) =
        find_root-Found env lysc_path content stored y_node s.config_root_tree u (
          IsRootList-Still env lysc_path content stored s.world w s.config_root_tree still roots) in
      container_edit edit_data_del y_node s k ctx
      ∙ by_found u o (not_missing w y_node c m s.config_root_tree held same) run found
      ∙ sym (container_edit edit_data_add y_node s k ctx)
    where
      by_found :
          (u : State World) (o : Option DataTree)
          → ¬ Found env lysc_path u.world y_node u.config_root_tree none
          → find_root env lysc_path y_node u.config_root_tree u ≡ some (o, u)
          → Found env lysc_path u.world y_node u.config_root_tree o
          → root_among env lysc_path edit_data_del y_node
              (lysc_path (y_node ∷ []))
              u.config_root_tree
              u
            ≡ root_among env lysc_path edit_data_add y_node
                (lysc_path (y_node ∷ []))
                u.config_root_tree
                u
      by_found u none present run found = absurd (present found)
      by_found u (some t) present run found =
          either_edit edit_data_del y_node t u.config_root_tree u refl run
