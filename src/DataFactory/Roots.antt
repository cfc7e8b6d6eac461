-- ===== src/DataFactory/Roots.antt =====
-- data_factory.c: adding a root container keeps the candidate a list of trees at different paths.
use mathlib.Core.Option.{some-injective}
use onm_cli.Base.{
  ℕ, ◌≡◌, ◌≢◌, refl, sym, ◌∙◌, subst, true, false, Option, none, some, List, [], ◌∷◌, Str, All,
}
use onm_cli.Env.{Env, success, sr_ok}
use onm_cli.Schema.{Info}
use onm_cli.State.{DataTree}
use onm_cli.DefaultCmd.RootList.{IsRootList}
use onm_cli.DataFactory.{is_same_schema}

module _ (env : Env) where
  open env use {World}

  -- The data nodes of `w` are all there in `w'`, where they were.
  abbrev pub Still : World → World → Type 0
  Still w w' =
      (m : ℕ)
      → env.live w m ≡ true
      → (env.live w' m ≡ true)
        × (env.lyd_path w' m ≡ env.lyd_path w m)
        × (env.ancestors w' m ≡ env.ancestors w m)
        × (env.schema w' m ≡ env.schema w m)

  -- A top-level tree at a path.
  abbrev pub IsTop : World → Str → ℕ → Type 0
  IsTop w xpath n = (env.live w n ≡ true) × (env.ancestors w n ≡ []) × (env.lyd_path w n ≡ xpath)

  pub Still-trans : (u v w : World) → Still u v → Still v w → Still u w
  Still-trans u v w h k m l =
      let (l1, p1, a1, s1) = h m l in
      let (l2, p2, a2, s2) = k m l1 in (l2, p2 ∙ p1, a2 ∙ a1, s2 ∙ s1)

  pub IsTop-Still :
      (v w : World) (xpath : Str) (n : ℕ) → Still v w → IsTop v xpath n → IsTop w xpath n
  IsTop-Still v w xpath n h (l, a, p) = let (l1, p1, a1, _) = h n l in (l1, a1 ∙ a, p1 ∙ p)

-- What libyang and sysrepo document of the calls, for the root containers of a schema.
pub record IsMaking (env : Env) (lysc_path : List Info → Str) : Type 0 where
  pub acquire_still : (w : Env.World env) → Still env w (env.sr_acquire_context w).1
  pub release_still : (w : Env.World env) → Still env w (env.sr_release_context w)
  pub get_still :
      (w : Env.World env) (session : Option ℕ) (path : Str)
      → Still env w (env.sr_get_subtree w session path).1
  pub new_still :
      (w : Env.World env) (path : Str) (value : Option Str)
      → Still env w (env.lyd_new_path w none path value).1
  -- A subtree that is read at the path of a root container is a tree there.
  pub get_root :
      (w w' : Env.World env) (session : Option ℕ) (y_node : Info) (n : ℕ)
      → env.sr_get_subtree w session (lysc_path (y_node ∷ [])) ≡ ((sr_ok, some n), w')
      → IsTop env w' (lysc_path (y_node ∷ [])) n
  -- So is a tree that is made there.
  pub make_root :
      (w w' : Env.World env) (y_node : Info) (o : Option ℕ)
      → env.lyd_new_path w none (lysc_path (y_node ∷ [])) none ≡ ((success, o), w')
      → (n : ℕ) × (o ≡ some n) × IsTop env w' (lysc_path (y_node ∷ [])) n
  -- A tree is found at its own path.
  pub find_self :
      (w : Env.World env) (xpath : Str) (n : ℕ)
      → IsTop env w xpath n
      → env.lyd_find_path w n xpath ≡ (success, some n)
  -- Paths tell the root nodes of a schema apart.
  pub same_path :
      (w : Env.World env) (y_node : Info) (m : ℕ)
      → env.live w m ≡ true
      → env.ancestors w m ≡ []
      → is_same_schema (env.schema w m) y_node ≡ true
      → env.lyd_path w m ≡ lysc_path (y_node ∷ [])
  pub other_path :
      (w : Env.World env) (y_node : Info) (m : ℕ)
      → env.live w m ≡ true
      → env.ancestors w m ≡ []
      → is_same_schema (env.schema w m) y_node ≡ false
      → lysc_path (y_node ∷ []) ≢ env.lyd_path w m

module _ (env : Env) (lysc_path : List Info → Str) {Tree : Type 0}
    (content : Env.World env → ℕ → Tree) (stored : Env.World env → Str → Option Tree) where
  open env use {World}

  -- No tree of the list is at the path.
  abbrev pub IsFree : World → Str → List DataTree → Type 0
  IsFree w xpath = All (λ (u : DataTree). (q : ℕ) → u.node ≡ some q → xpath ≢ env.lyd_path w q)

  pub IsFree-Still :
      (v w : World) (xpath : Str) (ts : List DataTree)
      → Still env v w
      → IsRootList env content stored v ts
      → IsFree v xpath ts
      → IsFree w xpath ts
  IsFree-Still v w xpath [] h roots free = tt
  IsFree-Still v w xpath (t ∷ ts) h ((m, e, l, top, differs), roots) (f, free) = (
    λ q is same. f q is (same ∙ (h q (subst (λ (k : ℕ). env.live v k ≡ true) (own q is) l)).1),
    IsFree-Still v w xpath ts h roots free,
  )
    where
      own : (q : ℕ) → t.node ≡ some q → m ≡ q
      own q is = some-injective _ _ (sym e ∙ is)

  pub IsRootList-Still :
      (v w : World) (ts : List DataTree)
      → Still env v w
      → IsRootList env content stored v ts
      → IsRootList env content stored w ts
  IsRootList-Still v w [] h roots = tt
  IsRootList-Still v w (t ∷ ts) h ((m, e, l, top, differs), roots) =
      let (l1, p1, a1, _) = h m l in
      (
        (
          m,
          e,
          l1,
          a1 ∙ top,
          subst (λ (p : Str). IsFree w p ts) (sym p1)
              (IsFree-Still v w (env.lyd_path v m) ts h roots differs),
        ),
        IsRootList-Still v w ts h roots,
      )

  pub IsRootList-front :
      (w : World) (xpath : Str) (cell n : ℕ) (ts : List DataTree)
      → IsTop env w xpath n
      → IsFree w xpath ts
      → IsRootList env content stored w ts
      → IsRootList env content stored w (record { cell = cell; node = some n } ∷ ts)
  IsRootList-front w xpath cell n ts (l, a, p) free roots =
      ((n, refl, l, a, subst (λ (q : Str). IsFree w q ts) (sym p) free), roots)
