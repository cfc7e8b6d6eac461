-- ===== src/DefaultCmd/RootList.antt =====
-- src/commands/default_cmd.c: the candidate's list of data trees, as `commit` reads it.
use onm_cli.Base.{ℕ, ◌≡◌, ◌≢◌, sym, ◌∙◌, true, Option, some, List, [], ◌∷◌, Str, All}
use mathlib.Core.Option.{some-injective}
use onm_cli.Env.{Env}
use onm_cli.State.{DataTree}
use onm_cli.Sysrepo.Commit.{Kept}

module _ (env : Env) {Tree : Type 0} (content : Env.World env → ℕ → Tree)
    (stored : Env.World env → Str → Option Tree) where
  open env use {World}

  -- The path of `m` is none of the paths of the list.
  abbrev pub Differs : World → ℕ → List DataTree → Type 0
  Differs w m =
      All (λ (u : DataTree). (q : ℕ) → u.node ≡ some q → env.lyd_path w m ≢ env.lyd_path w q)

  -- The candidate's list: each tree is an allocated top-level tree, and no two have one path.
  abbrev pub IsRootList : World → List DataTree → Type 0
  IsRootList w [] = Unit
  IsRootList w (t ∷ ts) =
      ((m : ℕ) × (t.node ≡ some m)
        × (env.live w m ≡ true)
        × (env.ancestors w m ≡ [])
        × Differs w m ts)
      × IsRootList w ts

  -- Each tree of the list is what the running datastore holds at its path.
  abbrev pub AreStored : World → List DataTree → Type 0
  AreStored w = All (λ (t : DataTree).
      (m : ℕ) → t.node ≡ some m → stored w (env.lyd_path w m) ≡ some (content w m))

  pub Differs-Kept :
      (w w' : World) (m : ℕ) (ts : List DataTree)
      → Kept env content w w'
      → env.live w m ≡ true
      → IsRootList w ts
      → Differs w m ts
      → Differs w' m ts
  Differs-Kept w w' m [] kept l roots differs = tt
  Differs-Kept w w' m (t ∷ ts) kept l ((n, is, ln, tn, dn), roots) (ne, differs) = (
    λ q e same. ne q e (sym (kept m l).2 ∙ same ∙ path_q q e),
    Differs-Kept w w' m ts kept l roots differs,
  )
    where
      path_q : (q : ℕ) → t.node ≡ some q → env.lyd_path w' q ≡ env.lyd_path w q
      path_q q e = (kept q (rw (some-injective _ _ (sym e ∙ is)) ln)).2

  pub IsRootList-Kept :
      (w w' : World) (ts : List DataTree)
      → Kept env content w w'
      → IsRootList w ts
      → IsRootList w' ts
  IsRootList-Kept w w' [] kept roots = tt
  IsRootList-Kept w w' (t ∷ ts) kept ((m, e, l, top, differs), roots) =
      let (l', c, p, a) = kept m l in
      (
        (m, e, l', a ∙ top, Differs-Kept w w' m ts kept l roots differs),
        IsRootList-Kept w w' ts kept roots,
      )
