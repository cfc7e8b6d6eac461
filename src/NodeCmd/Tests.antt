-- ===== src/NodeCmd/Tests.antt =====
-- The theorems on the handlers over the small models of the libraries.
use onm_cli.Base.{ℕ, ◌≡◌, List, refl, Option, some, [], ◌∷◌, codes, arith}
use onm_cli.Cli.{cli_ok}
use onm_cli.Env.{Env, failed}
use onm_cli.Schema.{leaf_list, Info}
use onm_cli.State.{State}
use onm_cli.Validators.{Libyang}
use onm_cli.Sample.{World, sample, top}
use onm_cli.Sample.Start.{fresh, started}
use onm_cli.Sample.Rooted.{rooted, lysc_path}
use onm_cli.DataFactory.Lookup.{IsFirst}
use onm_cli.NodeCmd.Leaf.{cmd_yang_leaf_list, add_each, cmd_yang_leaf_list-add_each}
use onm_cli.NodeCmd.Container.{
  candidate_ds, cmd_yang_show_config_container, shown_line, cmd_yang_show_config_container-IsFirst,
}
use onm_cli.NodeCmd.List.{parse_index, parse_index-decimal}

-- A candidate with the tree of `top`.
abbrev holding : State World
holding = record started {
  world = record fresh { next = 1; path = λ n. lysc_path (top ∷ []) };
  config_root_tree = record { cell = 8; node = some 0 } ∷ [];
  parent_data = some 0;
  curr_root = some 8;
}

-- A libyang that takes no value.
abbrev refusing : Libyang
refusing = record { value_validate = λ _ _. failed 7; errmsg = λ _ _. [] }

abbrev servers : Info
servers = record top { name = codes "server"; nodetype = leaf_list }

cmd_yang_leaf_list-add_each_example :
    cmd_yang_leaf_list rooted lysc_path refusing
      (codes "server")
      servers
      (top ∷ [])
      []
      (codes "a" ∷ codes "b" ∷ [])
      holding
    ≡ add_each rooted lysc_path refusing
        (codes "server")
        servers
        (top ∷ [])
        []
        (codes "a" ∷ codes "b" ∷ [])
        holding
cmd_yang_leaf_list-add_each_example =
    cmd_yang_leaf_list-add_each rooted lysc_path refusing (codes "server") servers (top ∷ []) []
      (codes "a") (codes "b" ∷ []) holding refl

cmd_yang_show_config_container-IsFirst_example :
    (o : Option ℕ) × (cmd_yang_show_config_container rooted lysc_path lysc_path candidate_ds top []
        [] holding
      ≡ some (cli_ok, record holding { output = shown_line rooted lysc_path lysc_path o ∷ [] }))
    × IsFirst rooted lysc_path holding.world (lysc_path (top ∷ [])) holding.config_root_tree o
cmd_yang_show_config_container-IsFirst_example =
    cmd_yang_show_config_container-IsFirst rooted lysc_path lysc_path top [] holding
      ((0, refl, refl), tt)

parse_index-decimal_example : parse_index (some (codes "20")) ≡ some 20
parse_index-decimal_example = parse_index-decimal (codes "20") (refl, (refl, tt)) (omega arith)

-- Two entries of a list, and a third that is added behind them, with another node in front.
abbrev entries : List ℕ
entries = 1 ∷ 2 ∷ []

abbrev with_siblings : Env
with_siblings = record sample { siblings = λ w n. 0 ∷ 1 ∷ 2 ∷ 3 ∷ [] }
