-- ===== src/Sysrepo/Commit/One.antt =====
-- One data tree: what the check for uncommitted changes finds, and what a commit stores.
use onm_cli.Base.{
  ℕ, ◌≤◌, ◌≡◌, ◌≢◌, refl, sym, ap, ◌∙◌, ◌⊎◌, inl, inr, true, false, Option, none, some, [], arith,
  Str,
}
use mathlib.Core.Option.{some-injective}
use onm_cli.Env.{Env, SrErr, sr_ok, sr_not_found, sr_failed}
use onm_cli.State.{State}
use onm_cli.Sysrepo.{sysrepo_has_uncommited_changes, sysrepo_commit, exit_success, has_diff, is_ok}
use onm_cli.Sysrepo.Commit.{Kept, Documented, IsReadable}

module _ (env : Env) {Tree : Type 0} (content : Env.World env → ℕ → Tree)
    (stored : Env.World env → Str → Option Tree) (doc : Documented env content stored) where
  open env use {World}

  pub Kept-refl : (w : World) → Kept env content w w
  Kept-refl w m l = (l, refl, refl, refl)

  pub Kept-trans :
      (u v w : World) → Kept env content u v → Kept env content v w → Kept env content u w
  Kept-trans u v w p q m l =
      let (lv, cv, pv, av) = p m l in
      let (lw, cw, pw, aw) = q m lv in (lw, cw ∙ cv, pw ∙ pv, aw ∙ av)

  -- The datastore holds the same at every path.
  abbrev pub SameStored : World → World → Type 0
  SameStored w w' = (p : Str) → stored w' p ≡ stored w p

  -- The tree of `m` is what the running datastore holds at its path.
  abbrev pub IsStored : World → ℕ → Type 0
  IsStored w m = stored w (env.lyd_path w m) ≡ some (content w m)

  -- What a check leaves behind: its answer `r` in the state `w'` of the libraries.
  abbrev pub Checked : State World → ℕ → ℕ → World → Type 0
  Checked s m r w' =
      (sysrepo_has_uncommited_changes env (some m) s ≡ some (r, record s { world = w' }))
      × Kept env content s.world w'
      × SameStored s.world w'
      × (r ≡ 0 → IsStored s.world m)
      × (IsStored s.world m → r ≡ 0)
      × (r ≤ 1)

  module _ (readable : IsReadable env) where
    has_diff-le : (d : Option ℕ) → has_diff env d ≤ 1
    has_diff-le none = omega arith
    has_diff-le (some d) = omega arith

    module _ (s : State World) (m : ℕ) (l : env.live s.world m ≡ true) where
      abbrev answer : (SrErr × Option ℕ) × World
      answer = env.sr_get_subtree s.world s.session (env.lyd_path s.world m)

      abbrev difference : ℕ → Option ℕ × World
      difference n = env.lyd_diff_tree answer.1 (some m) (some n)

      run-ok :
          (n : ℕ)
          → answer.0 ≡ (sr_ok, some n)
          → sysrepo_has_uncommited_changes env (some m) s
            ≡ some (
              has_diff env (difference n).0,
              record s { world = env.sr_release_data (difference n).1 n },
            )
      unfolding sysrepo_has_uncommited_changes
      run-ok n e = ground arith

      run-missing :
          answer.0 ≡ (sr_not_found, none)
          → sysrepo_has_uncommited_changes env (some m) s ≡ some (1, record s { world = answer.1 })
      unfolding sysrepo_has_uncommited_changes
      run-missing e = ground arith

      module _ (n : ℕ) (e : answer.0 ≡ (sr_ok, some n)) where
        abbrev found : answer ≡ ((sr_ok, some n), answer.1)
        found = λ i. (e i, answer.1)

        fresh : m ≢ n
        fresh same = cc (
          l,
          ap (env.live s.world) same,
          (doc.get_ok s.world answer.1 s.session (env.lyd_path s.world m) n found).1,
        )

        Kept-ok : Kept env content s.world (env.sr_release_data (difference n).1 n)
        Kept-ok x lx =
            let (l1, c1, p1, a1) = doc.get_kept s.world s.session (env.lyd_path s.world m) x lx in
            let (l2, c2, p2, a2) = doc.diff_kept answer.1 (some m) (some n) x l1 in
            let (l3, c3, p3, a3) = doc.release_kept (difference n).1 n x other l2 in
            (l3, c3 ∙ c2 ∙ c1, p3 ∙ p2 ∙ p1, a3 ∙ a2 ∙ a1)
          where
            other : x ≢ n
            other same = cc (
              lx,
              ap (env.live s.world) same,
              (doc.get_ok s.world answer.1 s.session (env.lyd_path s.world m) n found).1,
            )

        stored-ok : SameStored s.world (env.sr_release_data (difference n).1 n)
        stored-ok p =
            doc.release_stored (difference n).1 n p
            ∙ doc.diff_stored answer.1 (some m) (some n) p
            ∙ doc.get_stored s.world s.session (env.lyd_path s.world m) p

        read : stored s.world (env.lyd_path s.world m) ≡ some (content answer.1 n)
        read = (doc.get_ok s.world answer.1 s.session (env.lyd_path s.world m) n found).0

        unchanged : content answer.1 m ≡ content s.world m
        unchanged = (doc.get_kept s.world s.session (env.lyd_path s.world m) m l).1

        has_diff-zero : (d : Option ℕ) → has_diff env d ≡ 0 → d ≡ none
        has_diff-zero none z = refl
        has_diff-zero (some d) z = absurd (omega arith)

        IsStored-ok : has_diff env (difference n).0 ≡ 0 → IsStored s.world m
        IsStored-ok z =
            read
            ∙ ap some
                (sym (doc.diff_none answer.1 m n (has_diff-zero (difference n).0 z)) ∙ unchanged)

        ok-IsStored : IsStored s.world m → has_diff env (difference n).0 ≡ 0
        ok-IsStored is =
            ap (has_diff env)
              (doc.diff_same answer.1 m n (unchanged ∙ some-injective _ _ (sym is ∙ read)))

      missing-IsStored : answer.0 ≡ (sr_not_found, none) → IsStored s.world m → ⊥
      missing-IsStored e is = cc (
        is,
        doc.get_missing s.world answer.1 s.session (env.lyd_path s.world m) none
            (λ i. (e i, answer.1)),
      )

      -- The check returns, says 0 exactly when the tree is what the running datastore holds at its
      -- path, and changes neither the trees nor the datastore.
      pub has_uncommited-Checked : (r : ℕ) × (w' : World) × Checked s m r w'
      has_uncommited-Checked = elim (readable s.world s.session (env.lyd_path s.world m)) [
        | inl (n, e) ↦ (
          has_diff env (difference n).0,
          env.sr_release_data (difference n).1 n,
          (
            run-ok n e,
            Kept-ok n e,
            stored-ok n e,
            IsStored-ok n e,
            ok-IsStored n e,
            has_diff-le (difference n).0,
          ),
        )
        | inr e ↦ (
          1,
          answer.1,
          (
            run-missing e,
            doc.get_kept s.world s.session (env.lyd_path s.world m),
            doc.get_stored s.world s.session (env.lyd_path s.world m),
            λ z. absurd (omega arith),
            λ is. absurd (missing-IsStored e is),
            omega arith,
          ),
        )
      ]

  -- A top-level tree other than that of `m`: its path is another one.
  abbrev pub IsApart : World → ℕ → ℕ → Type 0
  IsApart w m q =
      (env.live w q ≡ true) × (env.ancestors w q ≡ []) × (env.lyd_path w q ≢ env.lyd_path w m)

  -- What a commit leaves behind: its result `r` in the state `w'` of the libraries.
  abbrev pub Committed : State World → ℕ → ℕ → World → Type 0
  Committed s m r w' =
      (sysrepo_commit env (some m) s ≡ some (r, record s { world = w' }))
      × Kept env content s.world w'
      × (r ≡ exit_success
          → (stored w' (env.lyd_path s.world m) ≡ some (content s.world m))
            × ((q : ℕ)
                → IsApart s.world m q
                → stored w' (env.lyd_path s.world q) ≡ stored s.world (env.lyd_path s.world q)))

  pub SrErr-cases : (e : SrErr) → (e ≡ sr_ok) ⊎ (is_ok e ≡ false)
  SrErr-cases sr_ok = inl refl
  SrErr-cases sr_not_found = inr refl
  SrErr-cases (sr_failed n) = inr refl

  module _ (s : State World) (m : ℕ) (l : env.live s.world m ≡ true)
      (top : env.ancestors s.world m ≡ []) where
    abbrev edit : SrErr × World
    edit = env.sr_edit_batch s.world s.session m

    abbrev apply : SrErr × World
    apply = env.sr_apply_changes edit.1 s.session

    run-edit :
        is_ok edit.0 ≡ false → sysrepo_commit env (some m) s ≡ some (1, record s { world = edit.1 })
    unfolding sysrepo_commit
    run-edit e = ground arith

    run-apply :
        edit.0 ≡ sr_ok
        → is_ok apply.0 ≡ false
        → sysrepo_commit env (some m) s
          ≡ some (1, record s { world = (env.sr_discard_changes apply.1 s.session).1 })
    unfolding sysrepo_commit
    run-apply e f = ground arith

    run-applied :
        edit.0 ≡ sr_ok
        → apply.0 ≡ sr_ok
        → sysrepo_commit env (some m) s ≡ some (0, record s { world = apply.1 })
    unfolding sysrepo_commit
    run-applied e f = ground arith

    Kept-edit : Kept env content s.world edit.1
    Kept-edit = doc.edit_kept s.world s.session m

    Kept-apply : Kept env content s.world apply.1
    Kept-apply = Kept-trans s.world edit.1 apply.1 Kept-edit (doc.apply_kept edit.1 s.session)

    -- A commit of a top-level tree returns. If it succeeds, the running datastore holds the tree at
    -- its path and what it held at the paths of the other top-level trees.
    pub commit-Committed : (r : ℕ) × (w' : World) × Committed s m r w'
    commit-Committed = elim (SrErr-cases edit.0) [
      | inr e ↦ (1, edit.1, (run-edit e, Kept-edit, λ z. absurd (omega arith)))
      | inl e ↦ elim (SrErr-cases apply.0) [
        | inr f ↦ (
          1,
          (env.sr_discard_changes apply.1 s.session).1,
          (
            run-apply e f,
            Kept-trans s.world apply.1 (env.sr_discard_changes apply.1 s.session).1 Kept-apply
                (doc.discard_kept apply.1 s.session),
            λ z. absurd (omega arith),
          ),
        )
        | inl f ↦ (
          0,
          apply.1,
          (
            run-applied e f,
            Kept-apply,
            λ z.
                let (own, others) =
                  doc.replaced s.world edit.1 apply.1 s.session m l top (λ i. (e i, edit.1))
                    (λ i. (f i, apply.1)) in
                (own, λ q (lq, tq, ne). others q lq tq ne),
          ),
        )
      ]
    ]
