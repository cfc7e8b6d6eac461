-- ===== src/DataFactory/AddRoot.antt =====
-- data_factory.c: what adding a root container does to the candidate.
use onm_cli.Base.{
  ℕ, ◌+◌, ◌≡◌, ◌≢◌, refl, ap, ◌∙◌, ◌⊎◌, inl, inr, true, Option, none, some, List, [], ◌∷◌, ◌++◌,
  arith, Str, ==_refl,
}
use onm_cli.Env.{Env, LyErr, success, incomplete, failed}
use onm_cli.Schema.{Info}
use onm_cli.State.{DataTree, State, ◌>>=◌, ly_error}
use onm_cli.Sysrepo.{sysrepo_release_ctx}
use onm_cli.DefaultCmd.RootList.{IsRootList}
use onm_cli.DataFactory.{edit_data_add, fill_cell, fill_root, make_container, container_at}
use onm_cli.DataFactory.FindRoot.{Holds}
use onm_cli.DataFactory.Roots.{
  IsTop, IsMaking, IsFree, IsTop-Still, IsFree-Still, IsRootList-Still, IsRootList-front,
}

module _ (env : Env) (lysc_path : List Info → Str) where
  open env use {World}

  -- `container_at` for a candidate whose first cell was made by this edit.
  module _ (xpath : Str) (s : State World) (c : ℕ) (ts : List DataTree) where
    -- `s` with a new cell in front, and its node for a parent.
    abbrev pub fresh : Option ℕ → State World
    fresh o = record s {
      curr_root = some c;
      parent_data = o;
      config_root_tree = record { cell = c; node = o } ∷ ts;
    }

    abbrev pub answer : (LyErr × Option ℕ) × World
    answer = env.lyd_new_path s.world none xpath none

    made_new :
        (o : Option ℕ)
        → answer.0 ≡ (success, o)
        → container_at env lysc_path edit_data_add xpath (fresh none)
          ≡ some (
            success,
            record (fresh o) { world = env.sr_release_context answer.1; released = s.released + 1 },
          )
    unfolding make_container fill_root fill_cell sysrepo_release_ctx
    made_new o ea = rw (ea, ◌>>=◌, ==_refl c)

    made_failed :
        (ret : LyErr) (o : Option ℕ)
        → answer.0 ≡ (ret, o)
        → ret ≢ success
        → container_at env lysc_path edit_data_add xpath (fresh none)
          ≡ some (
            ret,
            record (fresh none) {
              world = env.sr_release_context answer.1;
              output = s.output ++ ly_error ∷ [];
              released = s.released + 1;
            },
          )
    unfolding make_container sysrepo_release_ctx
    made_failed success o ea ne = absurd (ne refl)
    made_failed incomplete o ea ne = rw (ea, ◌>>=◌)
    made_failed (failed n) o ea ne = rw (ea, ◌>>=◌)

    made_found :
        (n : ℕ)
        → env.live s.world n ≡ true
        → env.lyd_find_path s.world n xpath ≡ (success, some n)
        → container_at env lysc_path edit_data_add xpath (fresh (some n))
          ≡ some (
            success,
            record (fresh (some n)) {
              world = env.sr_release_context s.world;
              released = s.released + 1;
            },
          )
    unfolding make_container fill_root fill_cell sysrepo_release_ctx
    made_found n l ef = rw (l, ◌>>=◌, ef, ==_refl c)

  module _ (law : IsMaking env lysc_path) (y_node : Info) {Tree : Type 0}
      (content : Env.World env → ℕ → Tree) (stored : Env.World env → Str → Option Tree) where
    abbrev pub xpath : Str
    xpath = lysc_path (y_node ∷ [])

    -- The candidate `ts` is as it was, or has one more cell in front, at the address `c`.
    abbrev pub IsGrown : ℕ → List DataTree → List DataTree → Type 0
    IsGrown c ts us = (us ≡ ts) ⊎ ((o : Option ℕ) × (us ≡ record { cell = c; node = o } ∷ ts))

    -- What the edit leaves behind, for a candidate `ts`.
    abbrev pub Added : ℕ → List DataTree → LyErr → State World → Type 0
    Added c ts ret s' =
        ((ret ≡ success)
          × IsRootList env content stored s'.world s'.config_root_tree
          × IsGrown c ts s'.config_root_tree
          × (r n : ℕ) × (s'.curr_root ≡ some r)
          × (s'.parent_data ≡ some n)
          × Holds env lysc_path r n s'.config_root_tree
          × IsTop env s'.world xpath n)
        ⊎ ((ret ≢ success) × (s'.config_root_tree ≡ record { cell = c; node = none } ∷ ts))

    -- The state that is left behind with the tree of `n` in front.
    abbrev pub settled : State World → World → ℕ → ℕ → List DataTree → State World
    settled s w c n ts = record (fresh xpath s c ts (some n)) {
      world = env.sr_release_context w;
      released = s.released + 1;
    }

    pub front-Added :
        (s : State World) (w : World) (c n : ℕ) (ts : List DataTree)
        → IsTop env w xpath n
        → IsFree env lysc_path content stored w xpath ts
        → IsRootList env content stored w ts
        → Added c ts success (settled s w c n ts)
    front-Added s w c n ts top free roots =
        let still = law.release_still w in
        let w' = env.sr_release_context w in
        let top' = IsTop-Still env w w' xpath n still top in
        inl (
          refl,
          IsRootList-front env lysc_path content stored w' xpath c n ts top'
              (IsFree-Still env lysc_path content stored w w' xpath ts still roots free)
              (IsRootList-Still env lysc_path content stored w w' ts still roots),
          inr (some n, refl),
          c,
          n,
          refl,
          refl,
          inl (refl, refl),
          top',
        )

    module _ (s : State World) (c : ℕ) (ts : List DataTree)
        (roots : IsRootList env content stored s.world ts)
        (free : IsFree env lysc_path content stored s.world xpath ts) where
      abbrev pub Ends : Option ℕ → Type 0
      Ends o =
          (ret : LyErr) × (s' : State World) × (container_at env lysc_path edit_data_add xpath
              (fresh xpath s c ts o)
            ≡ some (ret, s'))
          × Added c ts ret s'

      abbrev made : (LyErr × Option ℕ) × World
      made = answer xpath s c ts

      made_well : (o : Option ℕ) → made ≡ ((success, o), made.1) → Ends none
      made_well o e =
          let (n, is, top) = law.make_root s.world made.1 y_node o e in
          let still = law.new_still s.world xpath none in
          (
            success,
            settled s made.1 c n ts,
            made_new xpath s c ts (some n) (
                ap (λ (a : (LyErr × Option ℕ) × World). a.0) e
                ∙ ap (λ (k : Option ℕ). (success, k)) is),
            front-Added s made.1 c n ts top
                (IsFree-Still env lysc_path content stored s.world made.1 xpath ts still roots free)
                (IsRootList-Still env lysc_path content stored s.world made.1 ts still roots),
          )

      made_badly : (ret : LyErr) (o : Option ℕ) → made.0 ≡ (ret, o) → ret ≢ success → Ends none
      made_badly ret o e ne = (ret, _, made_failed xpath s c ts ret o e ne, inr (ne, refl))

      pub made-Added : (a : LyErr × Option ℕ) → made.0 ≡ a → Ends none
      made-Added (success, o) e = made_well o (ap (λ (a : LyErr × Option ℕ). (a, made.1)) e)
      made-Added (incomplete, o) e = made_badly incomplete o e (λ f. ground arith)
      made-Added (failed k, o) e = made_badly (failed k) o e (λ f. ground arith)

      pub found-Added : (n : ℕ) → IsTop env s.world xpath n → Ends (some n)
      found-Added n top = (
        success,
        settled s s.world c n ts,
        made_found xpath s c ts n top.0 (law.find_self s.world xpath n top),
        front-Added s s.world c n ts top free roots,
      )
