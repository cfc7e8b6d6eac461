-- ===== src/DefaultCmd/Commit.antt =====
-- src/commands/default_cmd.c: what `commit` stores, and when `exit` lets the user leave.
use onm_cli.Base.{
  ℕ, ◌≡◌, refl, sym, ap, ◌∙◌, inl, inr, Bool, true, false, Option, some, List, [], ◌∷◌, ◌++◌,
  if◌then◌else◌, ==_iff, Str, Bool-cases, ◌==◌,
}
use mathlib.Core.Option.{some-injective}
use onm_cli.Cli.{CliCode, cli_ok, cli_error}
use onm_cli.Env.{Env}
use onm_cli.State.{DataTree, State, commit_failed, changes_applied, no_modification, ◌>>=◌}
use onm_cli.Sysrepo.{exit_success, sysrepo_has_uncommited_changes, sysrepo_commit}
use onm_cli.Sysrepo.Commit.{Kept, Documented, IsReadable}
use onm_cli.Sysrepo.Commit.One
use onm_cli.DefaultCmd.RootList.{Differs, IsRootList, AreStored, Differs-Kept, IsRootList-Kept}
use onm_cli.DefaultCmd.{commit_loop, commit_trees, cmd_commit}

module _ (env : Env) {Tree : Type 0} (content : Env.World env → ℕ → Tree)
    (stored : Env.World env → Str → Option Tree) where
  open env use {World}

  -- The tree of `q` is at none of the paths of the list.
  abbrev pub IsApartFrom : World → ℕ → List DataTree → Type 0
  IsApartFrom w q ts =
      (env.live w q ≡ true) × (env.ancestors w q ≡ []) × Differs env content stored w q ts

  -- What the loop of `commit` over `ts` leaves behind.
  abbrev pub Pushed : State World → List DataTree → CliCode → State World → Type 0
  Pushed s ts code s' =
      Kept env content s.world s'.world
      × (s'.config_root_tree ≡ s.config_root_tree)
      × (code ≡ cli_ok → AreStored env content stored s'.world ts)
      × (code ≡ cli_ok
          → (q : ℕ) → IsApartFrom s.world q ts
          → stored s'.world (env.lyd_path s.world q) ≡ stored s.world (env.lyd_path s.world q))

  module _ (doc : Documented env content stored) (readable : IsReadable env) where
    -- A step for the tree `t`, and the loop over the rest.
    absorb :
        (s : State World) (w1 : World) (t : DataTree) (ts : List DataTree) (m : ℕ) (code : CliCode)
        (s' : State World)
        → t.node ≡ some m
        → env.live s.world m ≡ true
        → env.ancestors s.world m ≡ []
        → Differs env content stored s.world m ts
        → IsRootList env content stored s.world ts
        → Kept env content s.world w1
        → stored w1 (env.lyd_path s.world m) ≡ some (content s.world m)
        → ((q : ℕ)
            → One.IsApart env content stored doc s.world m q
            → stored w1 (env.lyd_path s.world q) ≡ stored s.world (env.lyd_path s.world q))
        → Pushed (record s { world = w1 }) ts code s'
        → Pushed s (t ∷ ts) code s'
    absorb s w1 t ts m code s' e l top differs roots kept own others (kept', same, all, rest) = (
      One.Kept-trans env content stored doc s.world w1 s'.world kept kept',
      same,
      λ good. (λ m' e'. rw (some-injective _ _ (sym e' ∙ e)) (head good), all good),
      λ good q (lq, tq, (ne_t, ne_ts)).
          let (lq1, cq1, pq1, aq1) = kept q lq in
          ap (stored s'.world) (sym pq1)
          ∙ rest good q
              (lq1, aq1 ∙ tq, Differs-Kept env content stored s.world w1 q ts kept lq roots ne_ts)
          ∙ ap (stored w1) pq1
          ∙ others q (lq, tq, ne_t m e),
    )
      where
        head : code ≡ cli_ok → stored s'.world (env.lyd_path s'.world m) ≡ some (content s'.world m)
        head good =
            let (l1, c1, p1, a1) = kept m l in
            let (l2, c2, p2, a2) = kept' m l1 in
            ap (stored s'.world) p2
            ∙ rest good m
                (l1, a1 ∙ top, Differs-Kept env content stored s.world w1 m ts kept l roots differs)
            ∙ ap (stored w1) p1
            ∙ own
            ∙ ap some (sym (c2 ∙ c1))

    -- What a commit of `m` stores, behind a check that has led from `s` to `w1`.
    Committed-own :
        (s : State World) (w1 w2 : World) (m r : ℕ)
        → env.live s.world m ≡ true
        → Kept env content s.world w1
        → One.Committed env content stored doc (record s { world = w1 }) m r w2
        → r ≡ exit_success
        → stored w2 (env.lyd_path s.world m) ≡ some (content s.world m)
    Committed-own s w1 w2 m r l kept (_, _, done) good =
        let (l1, c1, p1, a1) = kept m l in ap (stored w2) (sym p1) ∙ (done good).0 ∙ ap some c1

    Committed-others :
        (s : State World) (w1 w2 : World) (m r : ℕ)
        → env.live s.world m ≡ true
        → Kept env content s.world w1
        → One.SameStored env content stored doc s.world w1
        → One.Committed env content stored doc (record s { world = w1 }) m r w2
        → r ≡ exit_success
        → (q : ℕ) → One.IsApart env content stored doc s.world m q
        → stored w2 (env.lyd_path s.world q) ≡ stored s.world (env.lyd_path s.world q)
    Committed-others s w1 w2 m r l kept same (_, _, done) good q (lq, tq, ne) =
        let (l1, c1, p1, a1) = kept m l in
        let (lq1, cq1, pq1, aq1) = kept q lq in
        ap (stored w2) (sym pq1)
        ∙ (done good).1 q (lq1, aq1 ∙ tq, λ e. ne (sym pq1 ∙ e ∙ p1))
        ∙ ap (stored w1) pq1
        ∙ same (env.lyd_path s.world q)

    loop-skip :
        (s : State World) (w1 : World) (t : DataTree) (ts : List DataTree) (m r : ℕ) (pushed : Bool)
        → t.node ≡ some m
        → sysrepo_has_uncommited_changes env (some m) s ≡ some (r, record s { world = w1 })
        → (r == 0) ≡ true
        → commit_loop env (t ∷ ts) pushed s ≡ commit_loop env ts pushed (record s { world = w1 })
    unfolding commit_loop
    loop-skip s w1 t ts m r pushed e run z = rw (e, ◌>>=◌, run, z)

    loop-commit :
        (s : State World) (w1 w2 : World) (t : DataTree) (ts : List DataTree) (m r : ℕ)
        (pushed : Bool)
        → t.node ≡ some m
        → sysrepo_has_uncommited_changes env (some m) s ≡ some (r, record s { world = w1 })
        → (r == 0) ≡ false
        → sysrepo_commit env (some m) (record s { world = w1 }) ≡ some (0, record s { world = w2 })
        → commit_loop env (t ∷ ts) pushed s ≡ commit_loop env ts true (record s { world = w2 })
    unfolding commit_loop
    loop-commit s w1 w2 t ts m r pushed e run z run2 = rw (e, ◌>>=◌, run, z, e, ◌>>=◌, run2)

    loop-fail :
        (s : State World) (w1 w2 : World) (t : DataTree) (ts : List DataTree) (m r r2 : ℕ)
        (pushed : Bool)
        → t.node ≡ some m
        → sysrepo_has_uncommited_changes env (some m) s ≡ some (r, record s { world = w1 })
        → (r == 0) ≡ false
        → sysrepo_commit env (some m) (record s { world = w1 }) ≡ some (r2, record s { world = w2 })
        → (r2 == exit_success) ≡ false
        → commit_loop env (t ∷ ts) pushed s
          ≡ some (cli_error, record s { world = w2; output = s.output ++ commit_failed ∷ [] })
    unfolding commit_loop
    loop-fail s w1 w2 t ts m r r2 pushed e run z run2 f = rw (e, ◌>>=◌, run, z, e, ◌>>=◌, run2, f)

    commit_loop-Pushed :
        (ts : List DataTree) (pushed : Bool) (s : State World)
        → IsRootList env content stored s.world ts
        → (code : CliCode) × (s' : State World) × (commit_loop env ts pushed s ≡ some (code, s'))
          × Pushed s ts code s'
    unfolding commit_loop
    commit_loop-Pushed [] pushed s roots = (
      cli_ok,
      record s { output = s.output ++ (if pushed then changes_applied else no_modification) ∷ [] },
      refl,
      (One.Kept-refl env content stored doc s.world, refl, λ good. tt, λ good q apart. refl),
    )
    commit_loop-Pushed (t ∷ ts) pushed s ((m, e, l, top, differs), roots) =
        let (r, w1, (run1, kept1, same1, zero, _, _)) =
          One.has_uncommited-Checked env content stored doc readable s m l in
        elim (Bool-cases (r == 0)) [
          | inl z ↦
              let (code, s', run, after) =
                commit_loop-Pushed ts pushed (record s { world = w1 })
                  (IsRootList-Kept env content stored s.world w1 ts kept1 roots) in
              (
                code,
                s',
                loop-skip s w1 t ts m r pushed e run1 z ∙ run,
                absorb s w1 t ts m code s' e l top differs roots kept1
                    (same1 (env.lyd_path s.world m) ∙ zero ((==_iff r 0).0 z))
                    (λ q apart. same1 (env.lyd_path s.world q)) after,
              )
          | inr nz ↦
              let (l1, c1, p1, a1) = kept1 m l in
              let (r2, w2, committed) =
                One.commit-Committed env content stored doc (record s { world = w1 }) m l1
                  (a1 ∙ top) in
              let kept = One.Kept-trans env content stored doc s.world w1 w2 kept1 committed.1 in
              elim (Bool-cases (r2 == exit_success)) [
                | inl z ↦
                    let good = (==_iff r2 exit_success).0 z in
                    let (code, s', run, after) =
                      commit_loop-Pushed ts true (record s { world = w2 })
                        (IsRootList-Kept env content stored s.world w2 ts kept roots) in
                    (
                      code,
                      s',
                      loop-commit s w1 w2 t ts m r pushed e run1 nz (rw good at committed.0) ∙ run,
                      absorb s w2 t ts m code s' e l top differs roots kept
                          (Committed-own s w1 w2 m r2 l kept1 committed good)
                          (Committed-others s w1 w2 m r2 l kept1 same1 committed good) after,
                    )
                | inr f ↦ (
                  cli_error,
                  record s { world = w2; output = s.output ++ commit_failed ∷ [] },
                  loop-fail s w1 w2 t ts m r r2 pushed e run1 nz committed.0 f,
                  (kept, refl, λ good. cc, λ good q apart. cc),
                )
              ]
        ]

    pub commit_trees-Pushed :
        (ts : List DataTree) (s : State World)
        → IsRootList env content stored s.world ts
        → (code : CliCode) × (s' : State World) × (commit_trees env ts s ≡ some (code, s'))
          × Pushed s ts code s'
    commit_trees-Pushed [] s roots = (
      cli_ok,
      record s { output = s.output ++ no_modification ∷ [] },
      refl,
      (One.Kept-refl env content stored doc s.world, refl, λ good. tt, λ good q apart. refl),
    )
    commit_trees-Pushed (t ∷ ts) s roots = commit_loop-Pushed (t ∷ ts) false s roots

    -- Under what is documented of libyang and sysrepo, where every read of a subtree succeeds or finds
    -- none, for a candidate of allocated top-level trees at different paths: `commit` returns, and
    -- the trees and the candidate's list are as they were. If it returns CLI_OK, the running datastore
    -- holds every tree of the candidate at its path.
    pub cmd_commit-AreStored :
        (s : State World)
        → IsRootList env content stored s.world s.config_root_tree
        → (code : CliCode) × (s' : State World) × (cmd_commit env s ≡ some (code, s'))
          × Kept env content s.world s'.world
          × (s'.config_root_tree ≡ s.config_root_tree)
          × (code ≡ cli_ok → AreStored env content stored s'.world s'.config_root_tree)
    unfolding cmd_commit
    cmd_commit-AreStored s roots =
        let (code, s', run, (kept, same, all, rest)) =
          commit_trees-Pushed s.config_root_tree s roots in
        (code, s', run, kept, same, λ good. rw same (all good))
