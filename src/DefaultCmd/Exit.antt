-- ===== src/DefaultCmd/Exit.antt =====
-- src/commands/default_cmd.c: when `exit` lets the user leave, and where it leads inside a candidate.
use mathlib.Core.Option.{some-injective}
use onm_cli.Base.{
  ℕ, ◌≡◌, refl, sym, ap, ◌∙◌, inl, inr, Bool, true, false, Option, some, List, [], ◌∷◌, ◌++◌, arith,
  Str, Bool-cases, ◌==◌, ==_iff,
}
use onm_cli.Cli.{cli_error}
use onm_cli.Env.{Env}
use onm_cli.State.{DataTree, State, uncommitted_changes, ◌>>=◌}
use onm_cli.Sysrepo.{sysrepo_has_uncommited_changes}
use onm_cli.Sysrepo.Commit.{Kept, Documented, IsReadable}
use onm_cli.Sysrepo.Commit.One
use onm_cli.YUtils.Mode.{config_mode}
use onm_cli.DefaultCmd.{any_uncommited, exit_trees, exit_unless, cmd_exit2}
use onm_cli.DefaultCmd.RootList.{IsRootList, AreStored, IsRootList-Kept}

module _ (env : Env) {Tree : Type 0} (content : Env.World env → ℕ → Tree)
    (stored : Env.World env → Str → Option Tree) (doc : Documented env content stored)
    (readable : IsReadable env) where
  open env use {World}

  any-found :
      (s : State World) (w1 : World) (t : DataTree) (ts : List DataTree) (m r : ℕ)
      → t.node ≡ some m
      → sysrepo_has_uncommited_changes env (some m) s ≡ some (r, record s { world = w1 })
      → (r == 1) ≡ true
      → any_uncommited env (t ∷ ts) s ≡ some (true, record s { world = w1 })
  unfolding any_uncommited
  any-found s w1 t ts m r e run z = rw (e, ◌>>=◌, run, z)

  any-next :
      (s : State World) (w1 : World) (t : DataTree) (ts : List DataTree) (m r : ℕ)
      → t.node ≡ some m
      → sysrepo_has_uncommited_changes env (some m) s ≡ some (r, record s { world = w1 })
      → (r == 1) ≡ false
      → any_uncommited env (t ∷ ts) s ≡ any_uncommited env ts (record s { world = w1 })
  unfolding any_uncommited
  any-next s w1 t ts m r e run z = rw (e, ◌>>=◌, run, z)

  -- The answer of the loop in `exit`, and what it leaves behind.
  abbrev pub Asked : State World → List DataTree → Bool → World → Type 0
  Asked s ts b w' =
      (any_uncommited env ts s ≡ some (b, record s { world = w' }))
      × Kept env content s.world w'
      × One.SameStored env content stored doc s.world w'
      × (b ≡ false → AreStored env content stored s.world ts)
      × (AreStored env content stored s.world ts → b ≡ false)

  module _ (w w1 : World) (kept : Kept env content w w1)
      (same : One.SameStored env content stored doc w w1) where
    live_node :
        (t : DataTree) (m n : ℕ)
        → t.node ≡ some m
        → t.node ≡ some n
        → env.live w m ≡ true
        → env.live w n ≡ true
    live_node t m n e f l = rw (some-injective _ _ (sym f ∙ e)) l

    AreStored-before :
        (ts : List DataTree)
        → IsRootList env content stored w ts
        → AreStored env content stored w1 ts
        → AreStored env content stored w ts
    AreStored-before [] roots all = tt
    AreStored-before (t ∷ ts) ((m, e, l, top, differs), roots) (here, all) = (
      λ n f.
          let (l1, c1, p1, a1) = kept n (live_node t m n e f l) in
          sym (same (env.lyd_path w n)) ∙ ap (stored w1) (sym p1) ∙ here n f ∙ ap some c1,
      AreStored-before ts roots all,
    )

    AreStored-after :
        (ts : List DataTree)
        → IsRootList env content stored w ts
        → AreStored env content stored w ts
        → AreStored env content stored w1 ts
    AreStored-after [] roots all = tt
    AreStored-after (t ∷ ts) ((m, e, l, top, differs), roots) (here, all) = (
      λ n f.
          let (l1, c1, p1, a1) = kept n (live_node t m n e f l) in
          ap (stored w1) p1 ∙ same (env.lyd_path w n) ∙ here n f ∙ ap some (sym c1),
      AreStored-after ts roots all,
    )

  pub any_uncommited-Asked :
      (ts : List DataTree) (s : State World)
      → IsRootList env content stored s.world ts
      → (b : Bool) × (w' : World) × Asked s ts b w'
  unfolding any_uncommited
  any_uncommited-Asked [] s roots = (
    false,
    s.world,
    (refl, One.Kept-refl env content stored doc s.world, λ p. refl, λ z. tt, λ all. refl),
  )
  any_uncommited-Asked (t ∷ ts) s ((m, e, l, top, differs), roots) =
      let (r, w1, (run, kept, same, zero, back, small)) =
        One.has_uncommited-Checked env content stored doc readable s m l in
      elim (Bool-cases (r == 1)) [
        | inl one ↦ (
          true,
          w1,
          (
            any-found s w1 t ts m r e run one,
            kept,
            same,
            λ z. cc,
            λ (here, all). absurd (omega (arith, back (here m e), (==_iff r 1).0 one)),
          ),
        )
        | inr other ↦
            let is : r ≡ 0 = ground (arith, small) in
            let (b, w2, (run2, kept2, same2, yes2, no2)) =
              any_uncommited-Asked ts (record s { world = w1 })
                (IsRootList-Kept env content stored s.world w1 ts kept roots) in
            (
              b,
              w2,
              (
                any-next s w1 t ts m r e run other ∙ run2,
                One.Kept-trans env content stored doc s.world w1 w2 kept kept2,
                λ p. same2 p ∙ same p,
                λ z. (
                  λ n f. rw (some-injective _ _ (sym f ∙ e)) (zero is),
                  AreStored-before s.world w1 kept same ts roots (yes2 z),
                ),
                λ (here, all). no2 (AreStored-after s.world w1 kept same ts roots all),
              ),
            )
      ]

  pub exit-asks :
      (t : DataTree) (ts : List DataTree) (s : State World) (b : Bool) (w' : World)
      → any_uncommited env (t ∷ ts) s ≡ some (b, record s { world = w' })
      → exit_trees env (t ∷ ts) s ≡ exit_unless env b (record s { world = w' })
  exit-asks t ts s b w' run = rw (◌>>=◌, run)

  pub cmd_exit2-config :
      (s : State World)
      → env.mode s.world ≡ config_mode
      → cmd_exit2 env s ≡ exit_trees env s.config_root_tree s
  unfolding cmd_exit2
  cmd_exit2-config s e = rw e

  exit_trees-refuses :
      (ts : List DataTree) (s : State World)
      → IsRootList env content stored s.world ts
      → ¬ AreStored env content stored s.world ts
      → (w' : World) × (exit_trees env ts s
          ≡ some
              (cli_error, record s { world = w'; output = s.output ++ uncommitted_changes ∷ [] }))
        × Kept env content s.world w'
        × One.SameStored env content stored doc s.world w'
  exit_trees-refuses [] s roots not_all = absurd (not_all tt)
  exit_trees-refuses (t ∷ ts) s roots not_all =
      let (b, w', (run, kept, same, if_none, _)) = any_uncommited-Asked (t ∷ ts) s roots in
      elim (Bool-cases b) [
        | inl e ↦ (w', exit-asks t ts s b w' run ∙ rw e, kept, same)
        | inr e ↦ absurd (not_all (if_none e))
      ]

  -- Under what is documented of libyang and sysrepo, where every read of a subtree succeeds or finds
  -- none, in the mode of `configure terminal`, for a candidate of allocated top-level trees at different
  -- paths that the running datastore does not hold all of at their paths, `exit` says that there are uncommitted changes and returns CLI_ERROR. The
  -- candidate and its trees, the datastore and the rest of the program's state are as they were.
  pub cmd_exit2-refuses :
      (s : State World)
      → env.mode s.world ≡ config_mode
      → IsRootList env content stored s.world s.config_root_tree
      → ¬ AreStored env content stored s.world s.config_root_tree
      → (w' : World) × (cmd_exit2 env s
          ≡ some
              (cli_error, record s { world = w'; output = s.output ++ uncommitted_changes ∷ [] }))
        × Kept env content s.world w'
        × One.SameStored env content stored doc s.world w'
  cmd_exit2-refuses s e roots not_all =
      rw (cmd_exit2-config s e) (exit_trees-refuses s.config_root_tree s roots not_all)
