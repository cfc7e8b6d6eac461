-- ===== src/DefaultCmd/Tests.antt =====
-- Runs of default_cmd.c over the small model of the libraries, and its theorems there.
use mathlib.Core.Option.{some-injective}
use onm_cli.Utils.{to_lower}
use onm_cli.Sysrepo.{
  free_roots, sysrepo_has_uncommited_changes, sysrepo_commit, sysrepo_get_session,
}
use onm_cli.Sysrepo.Commit.One
use onm_cli.Base.{
  subst, ap, inr, ℕ, ◌≡◌, refl, inl, true, false, Option, none, some, List, [], ◌∷◌, ◌+◌, ◌≢◌, ◌==◌,
  if◌then◌else◌, arith, Str, codes, str_eq,
}
use onm_cli.Cli.{CliCode, cli_ok, cli_error}
use onm_cli.Env.{Env}
use onm_cli.Schema.{NodeType}
use onm_cli.State.{DataTree, State, uncommitted_changes, json_tree}
use onm_cli.YUtils.Mode.{config_mode}
use onm_cli.Sysrepo.Commit.{Kept}
use onm_cli.Sample.{World, sample, stored, top}
use onm_cli.Sample.Laws.{
  value, sample-documented, sample-readable, sample-freeing, sample-freeing_all,
}
use onm_cli.DefaultCmd.{
  commit_loop, cmd_commit, cmd_discard_changes, cmd_exit2, cmd_show_config_candidate,
}
use onm_cli.DefaultCmd.RootList.{IsRootList, AreStored}
use onm_cli.DefaultCmd.Overlay.{overlay, view, cmd_commit-overlay}
use onm_cli.DefaultCmd.Exit.{cmd_exit2-refuses}
use onm_cli.DefaultCmd.ExitNode.{FirstEnd, cmd_exit2-parent}
use onm_cli.DefaultCmd.Leave.{Left, cmd_commit-cmd_exit2}
use onm_cli.DefaultCmd.Discard.{Dangling, cmd_discard_changes-Dangling}
use onm_cli.DefaultCmd.Show.{cmd_show_config_candidate-shown}

-- Two trees, of which the running datastore holds the first with other contents.
abbrev two_trees : World
two_trees = record {
  next = 2;
  freed = λ n. false;
  value = λ n. n + 5;
  path = λ n. if n == 0 then codes "/a" else codes "/b";
  datastore = λ path. if str_eq path (codes "/a") then some 9 else none;
  pending = none;
  mode = config_mode;
}

abbrev candidate : List DataTree
candidate = record { cell = 8; node = some 0 } ∷ record { cell = 9; node = some 1 } ∷ []

abbrev editing : State World
editing = record {
  world = two_trees;
  connection = some 1;
  session = some 1;
  startup_session = some 2;
  operational_session = some 3;
  module_path = none;
  config_root_tree = candidate;
  curr_root = some 1;
  parent_data = some 1;
  next_cell = 10;
  acquired = 1;
  released = 0;
  output = [];
}

-- The letter of a path.
abbrev second : Str → ℕ
second (_ ∷ c ∷ _) = c
second _ = 0

editing-roots : IsRootList sample value stored two_trees candidate
editing-roots = ((0, refl, refl, refl, (differ, tt)), ((1, refl, refl, refl, tt), tt))
  where
    apart : ◌≢◌ {A = ℕ} 97 98
    apart e = omega arith

    differ : (q : ℕ) → ◌≡◌ {A = Option ℕ} (some 1) (some q) → two_trees.path 0 ≢ two_trees.path q
    differ q e =
        subst (λ k. two_trees.path 0 ≢ two_trees.path k) (some-injective _ _ e)
          (λ f. absurd (apart (ap second f)))

-- The running datastore does not hold the first tree.
not_stored : ¬ AreStored sample value stored two_trees candidate
unfolding str_eq
not_stored (all, _) = absurd (nine (some-injective _ _ (all 0 refl)))
  where
    nine : ◌≢◌ {A = ℕ} 9 5
    nine e = omega arith

cmd_commit-overlay_example :
    (code : CliCode) × (s' : State World) × (cmd_commit sample editing ≡ some (code, s'))
    × Kept sample value two_trees s'.world
    × (s'.config_root_tree ≡ candidate)
    × (code ≡ cli_ok
        → (q : ℕ) → sample.live two_trees q ≡ true
        → sample.ancestors two_trees q ≡ []
        → stored s'.world (two_trees.path q)
          ≡ overlay
              (view sample value stored two_trees candidate)
              (stored two_trees)
              (two_trees.path q))
cmd_commit-overlay_example =
    cmd_commit-overlay sample value stored editing sample-documented sample-readable editing-roots

cmd_exit2-refuses_example :
    (w' : World) × (cmd_exit2 sample editing
      ≡ some (cli_error, record editing { world = w'; output = uncommitted_changes ∷ [] }))
    × Kept sample value two_trees w'
    × One.SameStored sample value stored sample-documented two_trees w'
cmd_exit2-refuses_example =
    cmd_exit2-refuses sample value stored sample-documented sample-readable editing refl
      editing-roots not_stored

-- The state behind a command that does not fault.
abbrev behind_of : State World → Option (CliCode × State World) → State World
behind_of s none = s
behind_of s (some (code, s')) = s'

abbrev committed : State World
committed = behind_of editing (cmd_commit sample editing)

commit_run : cmd_commit sample editing ≡ some (cli_ok, committed)
unfolding cmd_commit commit_loop sysrepo_has_uncommited_changes sysrepo_commit sysrepo_get_session
    str_eq
commit_run = refl

cmd_commit-cmd_exit2_example :
    (code : CliCode) × (t : State World) × (cmd_exit2 sample committed ≡ some (code, t))
    × Left sample value stored sample-freeing committed code t
unfolding cmd_commit commit_loop sysrepo_has_uncommited_changes sysrepo_commit sysrepo_get_session
    str_eq
cmd_commit-cmd_exit2_example =
    cmd_commit-cmd_exit2 sample value stored sample-freeing sample-documented sample-readable
      editing committed editing-roots commit_run refl

cmd_show_config_candidate-shown_example :
    cmd_show_config_candidate sample (some (codes "JSON")) editing
    ≡ some (cli_ok, record editing { output = json_tree (some 0) ∷ json_tree (some 1) ∷ [] })
unfolding to_lower str_eq
cmd_show_config_candidate-shown_example =
    cmd_show_config_candidate-shown sample (some (codes "JSON")) editing

cmd_discard_changes-Dangling_example :
    Dangling sample sample-freeing_all 1 (cmd_discard_changes sample editing)
unfolding free_roots
cmd_discard_changes-Dangling_example =
    cmd_discard_changes-Dangling sample sample-freeing_all editing
      (record { cell = 8; node = some 0 }) (record { cell = 9; node = some 1 } ∷ []) _ 1 refl refl
      refl (inr (inl (1, refl, refl)))

-- The small model with a list entry 1 in a root node 0, above the node 2.
abbrev nested : Env
nested = record sample {
  ancestors = λ w n. if n == 2 then 1 ∷ 0 ∷ [] else [];
  schema = λ w n. record top { nodetype = if n == 1 then NodeType.list else NodeType.container };
}

abbrev inside : State World
inside = record editing { world = record two_trees { next = 3; mode = 77 }; parent_data = some 2 }

cmd_exit2-parent_example :
    (s' : State World) × (cmd_exit2 nested inside ≡ some (cli_ok, s'))
    × FirstEnd nested inside.world (1 ∷ 0 ∷ []) s'.parent_data
    × (s'.config_root_tree ≡ candidate)
cmd_exit2-parent_example = cmd_exit2-parent nested inside 2 (omega arith) refl refl
