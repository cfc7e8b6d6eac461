-- ===== src/DefaultCmd/Show.antt =====
-- src/commands/default_cmd.c: what `show config candidate` prints.
use mathlib.Core.List.{append_assoc, append-nil}
use onm_cli.Base.{
  ℕ, ◌≡◌, refl, sym, ap, ◌∙◌, Bool, true, false, ◌&&◌, Option, none, some, List, [], ◌∷◌, ◌++◌, Str,
  str_eq, codes, map, Bool-cases, inl, inr, if◌then◌else◌,
}
use onm_cli.Utils.{to_lower}
use onm_cli.Cli.{CliCode, cli_ok, cli_error}
use onm_cli.Env.{Env}
use onm_cli.State.{DataTree, State, M, ◌>>=◌, ◌>>◌, Line, no_new_config, xml_tree, json_tree}
use onm_cli.DefaultCmd.{
  json_asked, print, check_tree, show_loop, show_trees, cmd_show_config_candidate,
}

abbrev pub tree_line : Bool → DataTree → Line
tree_line is_json tree = if is_json then json_tree tree.node else xml_tree tree.node

-- Whether the `format` argument is `json` in any case.
abbrev pub asks_json : Option Str → Bool
asks_json none = false
asks_json (some format) = str_eq (to_lower format) (codes "json")

-- The lines for a candidate, and what the command returns.
abbrev pub shown : Bool → List DataTree → List Line
shown is_json [] = no_new_config ∷ []
shown is_json (tree ∷ prev) = map (tree_line is_json) (tree ∷ prev)

abbrev pub show_code : List DataTree → CliCode
show_code [] = cli_error
show_code (tree ∷ prev) = cli_ok

module _ (env : Env) where
  open env use {World}

  abbrev pub behind : State World → List Line → State World
  behind s lines = record s { output = s.output ++ lines }

  behind-behind : (s : State World) (a b : List Line) → behind (behind s a) b ≡ behind s (a ++ b)
  behind-behind s a b = ap (λ (l : List Line). record s { output = l }) (append_assoc s.output a b)

  -- Whether libyang can print each tree: its node is allocated, or NULL.
  abbrev pub printable : World → Option ℕ → Bool
  printable w none = true
  printable w (some n) = env.live w n

  abbrev pub all_printable : World → List DataTree → Bool
  all_printable w [] = true
  all_printable w (tree ∷ prev) = printable w tree.node && all_printable w prev

  check_tree-printable :
      (node : Option ℕ) (rest : M World CliCode) (s : State World)
      → (check_tree env node >> rest) s ≡ (if printable s.world node then rest s else none)
  check_tree-printable none rest s = refl
  check_tree-printable (some n) rest s = elim (Bool-cases (env.live s.world n)) [
    | inl e ↦ rw (◌>>=◌, e)
    | inr e ↦ rw (◌>>=◌, e)
  ]

  show_loop-map :
      (is_json : Bool) (trees : List DataTree) (s : State World)
      → show_loop env is_json trees s ≡ (
          if all_printable s.world trees
          then some (cli_ok, behind s (map (tree_line is_json) trees))
          else none)
  unfolding show_loop
  show_loop-map is_json [] s =
      ap (λ (l : List Line). some (cli_ok, record s { output = l })) (sym (append-nil s.output))
  show_loop-map is_json (t ∷ ts) s =
      check_tree-printable t.node (print env (tree_line is_json t) >> show_loop env is_json ts) s
      ∙ elim (Bool-cases (printable s.world t.node)) [
        | inl e ↦ rw e (
            show_loop-map is_json ts (behind s (tree_line is_json t ∷ []))
            ∙ ap (λ (u : State World). if all_printable s.world ts then some (cli_ok, u) else none)
                (behind-behind s (tree_line is_json t ∷ []) (map (tree_line is_json) ts)))
        | inr e ↦ rw e
      ]

  show_trees-shown :
      (is_json : Bool) (trees : List DataTree) (s : State World)
      → show_trees env is_json trees s ≡ (
          if all_printable s.world trees
          then some (show_code trees, behind s (shown is_json trees))
          else none)
  show_trees-shown is_json [] s = refl
  show_trees-shown is_json (t ∷ ts) s = show_loop-map is_json (t ∷ ts) s

  json_asked-asks_json : (format : Option Str) → json_asked format ≡ asks_json format
  json_asked-asks_json none = refl
  json_asked-asks_json (some format) = refl

  -- `show config candidate` prints each tree of the candidate once, in the order of the list, as
  -- JSON exactly if there is a `format` argument that is `json` in any case and as XML otherwise,
  -- and returns CLI_OK. For an empty candidate it says that there is no new configuration and
  -- returns CLI_ERROR. Nothing but the output changes. This is so exactly if the node of each tree is
  -- allocated or NULL: where the candidate holds a tree that was freed, the command faults.
  pub cmd_show_config_candidate-shown :
      (format : Option Str) (s : State World)
      → cmd_show_config_candidate env format s ≡ (
          if all_printable s.world s.config_root_tree
          then some
              (show_code s.config_root_tree, behind s (shown (asks_json format) s.config_root_tree))
          else none)
  unfolding cmd_show_config_candidate
  cmd_show_config_candidate-shown format s =
      ap (λ is_json. show_trees env is_json s.config_root_tree s) (json_asked-asks_json format)
      ∙ show_trees-shown (asks_json format) s.config_root_tree s
