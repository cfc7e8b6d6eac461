-- ===== src/DataFactory/AddContainer.antt =====
-- data_factory.c: adding a root container to the candidate, as a whole.
use mathlib.Core.Option.{some-injective}
use onm_cli.Base.{
  ℕ, ◌+◌, ◌≡◌, refl, sym, ap, ◌∙◌, subst, inl, true, Option, none, some, List, [], ◌∷◌, Str,
}
use onm_cli.Env.{Env, LyErr, success, SrErr, sr_ok, sr_not_found, sr_failed}
use onm_cli.Schema.{container, Info}
use onm_cli.State.{DataTree, State, ◌>>=◌}
use onm_cli.Sysrepo.{sysrepo_get_ctx, sysrepo_release_ctx}
use onm_cli.DefaultCmd.RootList.{IsRootList}
use onm_cli.DataFactory.{
  edit_data_add, tree_of, find_root, new_root, get_sysrepo_running_node, container_at, root_among,
  edit_container, edit_by_type, edit_node_data_tree, add_data_node,
}
use onm_cli.DataFactory.Roots.{IsTop, IsMaking, IsFree, IsTop-Still, IsFree-Still, IsRootList-Still}
use onm_cli.DataFactory.FindRoot.{Found, find_root-Found}
use onm_cli.DataFactory.AddRoot.{fresh, settled, Added, front-Added, made-Added, found-Added}

module _ (env : Env) (lysc_path : List Info → Str) (law : IsMaking env lysc_path) (y_node : Info)
    {Tree : Type 0} (content : Env.World env → ℕ → Tree)
    (stored : Env.World env → Str → Option Tree) where
  open env use {World}

  abbrev pub root_path : Str
  root_path = lysc_path (y_node ∷ [])

  abbrev IsAdded : ℕ → List DataTree → LyErr → State World → Type 0
  IsAdded c ts ret s' = Added env lysc_path law y_node content stored c ts ret s'

  abbrev Runs : ℕ → List DataTree → Option (LyErr × State World) → Type 0
  Runs c ts o = (ret : LyErr) × (s' : State World) × (o ≡ some (ret, s')) × IsAdded c ts ret s'

  free_lem :
      (w : World) (ts : List DataTree)
      → IsRootList env content stored w ts
      → Found env lysc_path w y_node ts none
      → IsFree env lysc_path content stored w root_path ts
  free_lem w [] roots found = tt
  free_lem w (t ∷ ts) ((m, e, l, top, differs), roots) (here, found) = (
    λ q is. law.other_path w y_node q (own q is).0 (own q is).1 (here q is),
    free_lem w ts roots found,
  )
    where
      own : (q : ℕ) → t.node ≡ some q → (env.live w q ≡ true) × (env.ancestors w q ≡ [])
      own q is =
          subst (λ (k : ℕ). (env.live w k ≡ true) × (env.ancestors w k ≡ []))
            (some-injective _ _ (sym e ∙ is)) (l, top)

  module _ (u : State World) (roots : IsRootList env content stored u.world u.config_root_tree)
      (free : IsFree env lysc_path content stored u.world root_path u.config_root_tree) where
    -- The answer of sysrepo, and the state behind it.
    abbrev got : (SrErr × Option ℕ) × World
    got = env.sr_get_subtree u.world u.session root_path

    abbrev base : State World
    base = record u { world = got.1; next_cell = u.next_cell + 1 }

    got-IsTop :
        (a : SrErr × Option ℕ) (n : ℕ)
        → got.0 ≡ a
        → tree_of a ≡ some n
        → IsTop env got.1 root_path n
    got-IsTop (sr_ok, tree) n e is =
        law.get_root u.world got.1 u.session y_node n
          (ap (λ (a : SrErr × Option ℕ). (a, got.1)) (e ∙ ap (λ (k : Option ℕ). (sr_ok, k)) is))
    got-IsTop (sr_not_found, tree) n e is = cc
    got-IsTop (sr_failed k, tree) n e is = cc

    roots' : IsRootList env content stored got.1 u.config_root_tree
    roots' =
        IsRootList-Still env lysc_path content stored u.world got.1 u.config_root_tree
          (law.get_still u.world u.session root_path) roots

    free' : IsFree env lysc_path content stored got.1 root_path u.config_root_tree
    free' =
        IsFree-Still env lysc_path content stored u.world got.1 root_path u.config_root_tree
          (law.get_still u.world u.session root_path) roots free

    -- A new cell that is filled from sysrepo or, if there is nothing, with a new tree.
    new_cell :
        (o : Option ℕ)
        → tree_of got.0 ≡ o
        → Runs u.next_cell u.config_root_tree (
            container_at env lysc_path edit_data_add root_path
              (fresh env lysc_path root_path base u.next_cell u.config_root_tree o))
    new_cell none e =
        made-Added env lysc_path law y_node content stored base u.next_cell u.config_root_tree
          roots' free' _ refl
    new_cell (some n) e =
        found-Added env lysc_path law y_node content stored base u.next_cell u.config_root_tree
          roots' free' n (got-IsTop got.0 n refl e)

    -- The first root of an empty candidate.
    first_cell :
        (o : Option ℕ)
        → tree_of got.0 ≡ o
        → u.parent_data ≡ none
        → Runs u.next_cell u.config_root_tree
            (root_among env lysc_path edit_data_add y_node root_path [] u)
    unfolding new_root get_sysrepo_running_node sysrepo_release_ctx
    first_cell none e top =
        let (ret, s', run, added) = new_cell none e in (ret, s', first_none e top ∙ run, added)
      where
        behind : Option ℕ → State World
        behind p = record (fresh env lysc_path root_path base u.next_cell u.config_root_tree none) {
          parent_data = p;
        }

        first_none :
            tree_of got.0 ≡ none
            → u.parent_data ≡ none
            → root_among env lysc_path edit_data_add y_node root_path [] u
              ≡ container_at env lysc_path edit_data_add root_path
                  (fresh env lysc_path root_path base u.next_cell u.config_root_tree none)
        first_none e top = rw e (
            ap (λ (p : Option ℕ). container_at env lysc_path edit_data_add root_path (behind p))
              top)
    first_cell (some n) e top = (
      success,
      settled env lysc_path law y_node content stored base got.1 u.next_cell n u.config_root_tree,
      rw e,
      front-Added env lysc_path law y_node content stored base got.1 u.next_cell n
          u.config_root_tree (got-IsTop got.0 n refl e) free' roots',
    )

    -- A further root.
    next_cell-Runs :
        (t : DataTree) (ts : List DataTree)
        → find_root env lysc_path y_node (t ∷ ts) u ≡ some (none, u)
        → Runs u.next_cell u.config_root_tree
            (root_among env lysc_path edit_data_add y_node root_path (t ∷ ts) u)
    unfolding new_root get_sysrepo_running_node
    next_cell-Runs t ts e =
        let (ret, s', run, added) = new_cell (tree_of got.0) refl in
        (ret, s', rw (e, ◌>>=◌) run, added)

  present :
      (u : State World) (t k : DataTree) (ts : List DataTree)
      → u.config_root_tree ≡ t ∷ ts
      → IsRootList env content stored u.world u.config_root_tree
      → find_root env lysc_path y_node (t ∷ ts) u ≡ some (some k, u)
      → Found env lysc_path u.world y_node u.config_root_tree (some k)
      → Runs u.next_cell u.config_root_tree
          (root_among env lysc_path edit_data_add y_node root_path (t ∷ ts) u)
  unfolding sysrepo_release_ctx
  present u t k ts et roots e (m, held, is, l, top, same) = (
    success,
    record u {
      curr_root = some k.cell;
      parent_data = k.node;
      world = env.sr_release_context u.world;
      released = u.released + 1;
    },
    rw (e, ◌>>=◌),
    inl (
      refl,
      IsRootList-Still env lysc_path content stored u.world (env.sr_release_context u.world)
          u.config_root_tree (law.release_still u.world) roots,
      inl refl,
      k.cell,
      m,
      refl,
      is,
      held,
      IsTop-Still env u.world (env.sr_release_context u.world) root_path m
          (law.release_still u.world) (l, top, law.same_path u.world y_node m l top same),
    ),
  )

  root_lem :
      (u : State World) (ts : List DataTree)
      → u.config_root_tree ≡ ts
      → IsRootList env content stored u.world u.config_root_tree
      → (u.config_root_tree ≡ [] → u.parent_data ≡ none)
      → Runs u.next_cell u.config_root_tree
          (root_among env lysc_path edit_data_add y_node root_path ts u)
  root_lem u [] et roots top =
      let free = subst (IsFree env lysc_path content stored u.world root_path) (sym et) tt in
      first_cell u roots free (tree_of (got u roots free).0) refl (top et)
  root_lem u (t ∷ ts) et roots top =
      let (o, run, found) =
        find_root-Found env lysc_path content stored y_node (t ∷ ts) u
          (subst (IsRootList env content stored u.world) et roots) in
      by_found o run found
    where
      by_found :
          (o : Option DataTree)
          → find_root env lysc_path y_node (t ∷ ts) u ≡ some (o, u)
          → Found env lysc_path u.world y_node (t ∷ ts) o
          → Runs u.next_cell u.config_root_tree
              (root_among env lysc_path edit_data_add y_node root_path (t ∷ ts) u)
      by_found none run found =
          next_cell-Runs u roots
            (free_lem u.world u.config_root_tree roots (
              subst (λ (l : List DataTree). Found env lysc_path u.world y_node l none) (sym et)
                found))
            t ts run
      by_found (some k) run found = present u t k ts et roots run (
          subst (λ (l : List DataTree). Found env lysc_path u.world y_node l (some k)) (sym et)
            found)

  container_edit :
      (s : State World)
      → y_node.nodetype ≡ container
      → (env.sr_acquire_context s.world).0 ≡ true
      → edit_node_data_tree env lysc_path edit_data_add y_node [] none s
        ≡ root_among env lysc_path edit_data_add y_node root_path s.config_root_tree
            (record s { world = (env.sr_acquire_context s.world).1; acquired = s.acquired + 1 })
  unfolding edit_node_data_tree edit_by_type edit_container sysrepo_get_ctx
  container_edit s k ctx = rw (ctx, ◌>>=◌, k)

  -- Adding a root container, with the context there, to a candidate of allocated top-level trees at
  -- different paths, with `parent_data` at NULL if it is empty, returns, under what is documented of
  -- libyang and sysrepo. If it returns LY_SUCCESS, the candidate is again such a list, the same or
  -- with one more cell in front; `curr_root` and `parent_data` are the cell and the node of a tree in
  -- it at the path of the container. Otherwise it leaves a cell whose node is NULL in front of the
  -- candidate.
  pub add_data_node-Added :
      (s : State World)
      → y_node.nodetype ≡ container
      → (env.sr_acquire_context s.world).0 ≡ true
      → IsRootList env content stored s.world s.config_root_tree
      → (s.config_root_tree ≡ [] → s.parent_data ≡ none)
      → (ret : LyErr) × (s' : State World) × (add_data_node env lysc_path y_node [] none s
          ≡ some (ret, s'))
        × Added env lysc_path law y_node content stored s.next_cell s.config_root_tree ret s'
  add_data_node-Added s k ctx roots top =
      let w = (env.sr_acquire_context s.world).1 in
      let (ret, s', run, added) =
        root_lem (record s { world = w; acquired = s.acquired + 1 }) s.config_root_tree refl
          (IsRootList-Still env lysc_path content stored s.world w s.config_root_tree
            (law.acquire_still s.world) roots)
          top in
      (ret, s', container_edit s k ctx ∙ run, added)
