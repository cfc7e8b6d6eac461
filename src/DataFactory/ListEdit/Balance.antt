-- ===== src/DataFactory/ListEdit/Balance.antt =====
-- data_factory.c: every edit of a list entry releases the context that it acquired.
use onm_cli.Base.{
  ℕ, ◌+◌, ◌≡◌, subst, Bool, true, false, Option, none, some, List, arith, Str, if◌then◌else◌, ◌==◌,
}
use onm_cli.Env.{Env, LyErr, success, incomplete, failed}
use onm_cli.Schema.{Info}
use onm_cli.State.{State, M, pure, ◌>>=◌}
use onm_cli.Sysrepo.{call, check_live, sysrepo_get_ctx, sysrepo_release_ctx}
use onm_cli.YUtils.Predicate.{create_list_predicate_from_optargs}
use onm_cli.DataFactory.{
  EditType, edit_data_add, edit_data_del, is_missing, find_path_unset, free_tree,
}
use onm_cli.DataFactory.Context.{Gives, Adds, Adds-if, Adds-pure, Adds-bind}
use onm_cli.DataFactory.Balance.{
  Adds-call, check_live-Adds, find_path_unset-Adds, free_tree-Adds, finish-Adds, no_context-Adds,
  get_ctx-Adds,
}
use onm_cli.DataFactory.ListEdit.{
  insert_point, list_path, given, root_node, node_at, list_parent, siblings_of, after_insert,
  insert_at, insert_by, entry_made, leave, entry_found, new_path2, edit_entry, edit_list,
  edit_node_data_tree_list,
}

module _ (env : Env) (lysc_path : List Info → Str) where
  open env use {World}

  given-Adds : {A : Type 0} (o : Option A) → Adds 0 0 (given env lysc_path o)
  given-Adds none s = tt
  given-Adds (some a) s = (omega arith, omega arith)

  list_parent-Adds :
      (parent : Option ℕ) (y_node : List Info) → Adds 0 0 (list_parent env lysc_path parent y_node)
  list_parent-Adds (some n) y_node s = (omega arith, omega arith)
  list_parent-Adds none y_node s = from s.curr_root
    where
      from :
          (o : Option ℕ)
          → Gives {A = Option ℕ × Str} 0 0 s (
              (root_node env lysc_path o s.config_root_tree >>= λ node.
              pure (node, lysc_path y_node))
                s)
      from none = tt
      from (some cell) =
          Adds-bind 0 0 0 0 (given env lysc_path (node_at cell s.config_root_tree))
            (λ node. pure {A = Option ℕ × Str} (node, lysc_path y_node))
            (given-Adds (node_at cell s.config_root_tree))
            (λ node. Adds-pure {A = Option ℕ × Str} (node, lysc_path y_node)) s

  siblings_of-Adds : (node : Option ℕ) → Adds 0 0 (siblings_of env lysc_path node)
  siblings_of-Adds none s = (omega arith, omega arith)
  siblings_of-Adds (some n) s =
      Adds-bind 0 0 0 0 (check_live env n) _ (check_live-Adds env lysc_path n)
        (λ x s. (omega arith, omega arith)) s

  module _ (rest : M World LyErr) (rest-Adds : Adds 0 0 rest) where
    after_insert-Adds :
        (new_parent : Option ℕ) (ret : LyErr)
        → Adds 0 0 (after_insert env lysc_path new_parent ret rest)
    after_insert-Adds new_parent success = rest-Adds
    after_insert-Adds new_parent incomplete =
        Adds-bind 0 0 0 0 (free_tree env lysc_path new_parent) _
          (free_tree-Adds env lysc_path new_parent) (λ x. Adds-pure incomplete)
    after_insert-Adds new_parent (failed k) =
        Adds-bind 0 0 0 0 (free_tree env lysc_path new_parent) _
          (free_tree-Adds env lysc_path new_parent) (λ x. Adds-pure (failed k))

    insert_at-Adds :
        (new_parent point : Option ℕ) → Adds 0 0 (insert_at env lysc_path new_parent point rest)
    insert_at-Adds none none = rest-Adds
    insert_at-Adds none (some next) = rest-Adds
    insert_at-Adds (some n) none = rest-Adds
    insert_at-Adds (some n) (some next) =
        Adds-bind 0 0 0 0 (call env (λ w. env.lyd_insert_before w next n)) _
          (Adds-call env lysc_path (λ w. env.lyd_insert_before w next n))
          (after_insert-Adds (some n))

    insert_by-Adds :
        (index : ℕ) (new_parent : Option ℕ)
        → Adds 0 0 (insert_by env lysc_path index new_parent rest)
    insert_by-Adds index new_parent = Adds-if 0 0 (index == 0) rest _ rest-Adds (
        Adds-bind 0 0 0 0 (siblings_of env lysc_path new_parent) _ (siblings_of-Adds new_parent)
          (λ siblings. insert_at-Adds new_parent (insert_point index 10 siblings)))

  entry_made-Adds :
      (edit_type : EditType) (update : Bool) (new_parent : Option ℕ)
      → Adds 0 0 (entry_made env lysc_path edit_type update new_parent)
  entry_made-Adds edit_data_add true new_parent s = (omega arith, omega arith)
  entry_made-Adds edit_data_add false new_parent s = (omega arith, omega arith)
  entry_made-Adds edit_data_del update new_parent s =
      Adds-bind 0 0 0 0 (free_tree env lysc_path new_parent) _
        (free_tree-Adds env lysc_path new_parent) (λ x. Adds-pure success) s

  leave-Adds : (ret : LyErr) → Adds 0 1 (leave env lysc_path ret)
  unfolding sysrepo_release_ctx
  leave-Adds ret s = (omega arith, omega arith)

  entry_found-Adds :
      (edit_type : EditType) (index : ℕ) (update : Bool) (answer : LyErr × Option ℕ)
      → Adds 0 1 (entry_found env lysc_path edit_type index update answer)
  entry_found-Adds edit_type index update (success, new_parent) =
      Adds-bind 0 0 0 1
        (insert_by env lysc_path index new_parent
          (entry_made env lysc_path edit_type update new_parent))
        _ (insert_by-Adds _ (entry_made-Adds edit_type update new_parent) index new_parent)
        leave-Adds
  entry_found-Adds edit_type index update (incomplete, new_parent) =
      finish-Adds env lysc_path incomplete
  entry_found-Adds edit_type index update (failed k, new_parent) =
      finish-Adds env lysc_path (failed k)

  new_path2-Adds :
      (parent : Option ℕ) (xpath : Str) → Adds 0 0 (new_path2 env lysc_path parent xpath)
  new_path2-Adds none xpath s = (omega arith, omega arith)
  new_path2-Adds (some n) xpath s =
      Adds-bind 0 0 0 0 (check_live env n) _ (check_live-Adds env lysc_path n)
        (λ x. Adds-call env lysc_path (λ w. env.lyd_new_path2 w (some n) xpath)) s

  edit_entry-Adds :
      (edit_type : EditType) (index : ℕ) (update : Bool) (parent : Option ℕ) (xpath : Str)
      → Adds 0 1 (edit_entry env lysc_path edit_type index update parent xpath)
  edit_entry-Adds edit_type index update parent xpath =
      Adds-bind 0 0 0 1 (find_path_unset env lysc_path parent xpath) _
        (find_path_unset-Adds env lysc_path parent xpath)
        (λ found.
          Adds-bind 0 0 0 1
            (if is_missing found then new_path2 env lysc_path parent xpath else pure found) _
            (Adds-if 0 0 (is_missing found) _ _ (new_path2-Adds parent xpath) (Adds-pure found))
            (entry_found-Adds edit_type index update))

  module _ (optarg : Str → Option Str) where
    edit_list-Adds :
        (edit_type : EditType) (y_node children : List Info) (index : ℕ) (update : Bool)
        → Adds 0 1 (edit_list env lysc_path optarg edit_type y_node children index update)
    edit_list-Adds edit_type y_node children index update s =
        Adds-bind 0 0 0 1 (list_parent env lysc_path s.parent_data y_node) _
          (list_parent-Adds s.parent_data y_node)
          (λ at.
            Adds-bind 0 0 0 1
              (given env lysc_path
                (list_path at.1 (create_list_predicate_from_optargs optarg children)))
              _ (given-Adds (list_path at.1 (create_list_predicate_from_optargs optarg children)))
              (edit_entry-Adds edit_type index update at.0))
          s

    list_edit-Adds :
        (y_node children : List Info) (edit_type : EditType) (index : ℕ) (update : Bool)
        → Adds 1 1
            (edit_node_data_tree_list env lysc_path optarg y_node children edit_type index update)
    unfolding edit_node_data_tree_list
    list_edit-Adds y_node children edit_type index update =
        Adds-bind 1 0 0 1 (sysrepo_get_ctx env) _ (get_ctx-Adds env lysc_path) (λ ctx.
          Adds-if 0 1 ctx _ _ (edit_list-Adds edit_type y_node children index update)
            (no_context-Adds env lysc_path))

    -- Every edit of a list entry that returns has acquired the context of sysrepo once and released
    -- it once, also when the entry cannot be found, made or put in its place.
    pub edit_node_data_tree_list_balanced :
        (y_node children : List Info) (edit_type : EditType) (index : ℕ) (update : Bool)
        (s s' : State World) (ret : LyErr)
        → edit_node_data_tree_list env lysc_path optarg y_node children edit_type index update s
          ≡ some (ret, s')
        → (s'.acquired ≡ s.acquired + 1) × (s'.released ≡ s.released + 1)
    edit_node_data_tree_list_balanced y_node children edit_type index update s s' ret e =
        subst (Gives 1 1 s) e (list_edit-Adds y_node children edit_type index update s)
