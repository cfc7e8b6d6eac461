-- ===== src/DefaultCmd/ExitNode.antt =====
-- src/commands/default_cmd.c: where `exit` leads inside the candidate.
use onm_cli.Base.{
  ℕ, ◌≡◌, ◌≢◌, refl, ap, inl, inr, Bool, true, false, ◌||◌, Option, none, some, List, [], ◌∷◌, ◌++◌,
  arith, All, Bool-cases, ◌==◌,
}
use onm_cli.Env.{Env}
use onm_cli.State.{State}
use onm_cli.YUtils.Mode.{config_mode, is_root_node}
use onm_cli.YUtils.RelativePath.{is_list}
use onm_cli.DefaultCmd.{cmd_exit2, prev_parent}

module _ (env : Env) where
  open env use {World}

  -- A node in which a configuration mode ends: a list entry or a root node.
  abbrev pub ends_mode : World → ℕ → Bool
  ends_mode w n =
      is_list (env.schema w n).nodetype || is_root_node (env.schema w n ∷ env.schema_up w n) == 1

  abbrev pub FirstEnd : World → List ℕ → Option ℕ → Type 0
  FirstEnd w above none = All (λ n. ends_mode w n ≡ false) above
  FirstEnd w above (some n) =
      (passed : List ℕ) × (after : List ℕ) × (above ≡ passed ++ (n ∷ after))
      × All (λ k. ends_mode w k ≡ false) passed
      × (ends_mode w n ≡ true)

  prev_parent-here :
      (w : World) (n : ℕ) (above : List ℕ)
      → ends_mode w n ≡ true
      → prev_parent env w (n ∷ above) ≡ some n
  unfolding prev_parent
  prev_parent-here w n above e = rw e

  prev_parent-above :
      (w : World) (n : ℕ) (above : List ℕ)
      → ends_mode w n ≡ false
      → prev_parent env w (n ∷ above) ≡ prev_parent env w above
  unfolding prev_parent
  prev_parent-above w n above e = rw e

  FirstEnd-cons :
      (w : World) (n : ℕ) (above : List ℕ) (o : Option ℕ)
      → ends_mode w n ≡ false
      → FirstEnd w above o
      → FirstEnd w (n ∷ above) o
  FirstEnd-cons w n above none e all = (e, all)
  FirstEnd-cons w n above (some k) e (passed, after, split, all, stop) =
      (n ∷ passed, after, ap (λ (l : List ℕ). n ∷ l) split, (e, all), stop)

  prev_parent-FirstEnd : (w : World) (above : List ℕ) → FirstEnd w above (prev_parent env w above)
  unfolding prev_parent
  prev_parent-FirstEnd w [] = tt
  prev_parent-FirstEnd w (n ∷ above) = elim (Bool-cases (ends_mode w n)) [
    | inl e ↦ rw (prev_parent-here w n above e) ([], above, refl, tt, e)
    | inr e ↦
        rw (prev_parent-above w n above e)
          (FirstEnd-cons w n above (prev_parent env w above) e (prev_parent-FirstEnd w above))
  ]

  cmd_exit2-node :
      (s : State World) (n : ℕ)
      → env.mode s.world ≢ config_mode
      → s.parent_data ≡ some n
      → env.live s.world n ≡ true
      → cmd_exit2 env s
        ≡ some (
          (env.cli_exit s.world).0,
          record s {
            world = (env.cli_exit s.world).1;
            parent_data = prev_parent env s.world (env.ancestors s.world n);
          },
        )
  unfolding cmd_exit2
  cmd_exit2-node s n e p l = ground arith

  -- Below the mode of `configure terminal`, `exit` moves `parent_data` to the nearest node above it
  -- that is a list entry or a root node, or to NULL if there is none, and returns what `cli_exit`
  -- returns; the candidate stays as it is.
  pub cmd_exit2-parent :
      (s : State World) (n : ℕ)
      → env.mode s.world ≢ config_mode
      → s.parent_data ≡ some n
      → env.live s.world n ≡ true
      → (s' : State World) × (cmd_exit2 env s ≡ some ((env.cli_exit s.world).0, s'))
        × FirstEnd s.world (env.ancestors s.world n) s'.parent_data
        × (s'.config_root_tree ≡ s.config_root_tree)
  cmd_exit2-parent s n e p l =
      (_, cmd_exit2-node s n e p l, prev_parent-FirstEnd s.world (env.ancestors s.world n), refl)
