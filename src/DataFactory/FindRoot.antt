-- ===== src/DataFactory/FindRoot.antt =====
-- data_factory.c: the loop that looks for the tree of a root container.
use mathlib.Core.Option.{some-injective}
use onm_cli.Base.{
  ℕ, ◌≡◌, refl, sym, ◌∙◌, ◌⊎◌, inl, inr, true, false, Option, none, some, List, [], ◌∷◌, arith, Str,
  All, Bool-cases,
}
use onm_cli.Env.{Env}
use onm_cli.Schema.{Info}
use onm_cli.State.{DataTree, State}
use onm_cli.DefaultCmd.RootList.{IsRootList}
use onm_cli.DataFactory.{is_same_schema, find_root}

module _ (env : Env) (lysc_path : List Info → Str) where
  open env use {World}

  -- The cell at an address holds the tree of `n`.
  abbrev pub Holds : ℕ → ℕ → List DataTree → Type 0
  Holds c n [] = ⊥
  Holds c n (t ∷ ts) = ((t.cell ≡ c) × (t.node ≡ some n)) ⊎ Holds c n ts

  -- What the loop over the roots finds: a tree of the schema node, or that there is none.
  abbrev pub Found : World → Info → List DataTree → Option DataTree → Type 0
  Found w y_node ts none =
      All
        (λ (t : DataTree).
          (m : ℕ) → t.node ≡ some m → is_same_schema (env.schema w m) y_node ≡ false)
        ts
  Found w y_node ts (some t) =
      (m : ℕ) × Holds t.cell m ts
      × (t.node ≡ some m)
      × (env.live w m ≡ true)
      × (env.ancestors w m ≡ [])
      × (is_same_schema (env.schema w m) y_node ≡ true)

  module _ {Tree : Type 0} (content : Env.World env → ℕ → Tree)
      (stored : Env.World env → Str → Option Tree) where
    find_here :
        (y_node : Info) (s : State World) (t : DataTree) (ts : List DataTree) (m : ℕ)
        → t.node ≡ some m
        → env.live s.world m ≡ true
        → is_same_schema (env.schema s.world m) y_node ≡ true
        → find_root env lysc_path y_node (t ∷ ts) s ≡ some (some t, s)
    unfolding find_root
    find_here y_node s t ts m e l same = ground arith

    find_on :
        (y_node : Info) (s : State World) (t : DataTree) (ts : List DataTree) (m : ℕ)
        → t.node ≡ some m
        → env.live s.world m ≡ true
        → is_same_schema (env.schema s.world m) y_node ≡ false
        → find_root env lysc_path y_node (t ∷ ts) s ≡ find_root env lysc_path y_node ts s
    unfolding find_root
    find_on y_node s t ts m e l same = ground arith

    Found-cons :
        (w : World) (y_node : Info) (t : DataTree) (ts : List DataTree) (m : ℕ)
        (o : Option DataTree)
        → t.node ≡ some m
        → is_same_schema (env.schema w m) y_node ≡ false
        → Found w y_node ts o
        → Found w y_node (t ∷ ts) o
    Found-cons w y_node t ts m none e differs f =
        (λ q is. rw (some-injective _ _ (sym is ∙ e)) differs, f)
    Found-cons w y_node t ts m (some u) e differs (q, at, is, l, top, same) =
        (q, inr at, is, l, top, same)

    pub find_root-Found :
        (y_node : Info) (ts : List DataTree) (s : State World)
        → IsRootList env content stored s.world ts
        → (o : Option DataTree) × (find_root env lysc_path y_node ts s ≡ some (o, s))
          × Found s.world y_node ts o
    unfolding find_root
    find_root-Found y_node [] s roots = (none, refl, tt)
    find_root-Found y_node (t ∷ ts) s ((m, e, l, top, differs), roots) =
        elim (Bool-cases (is_same_schema (env.schema s.world m) y_node)) [
          | inl same ↦
              (some t, find_here y_node s t ts m e l same, (m, inl (refl, e), e, l, top, same))
          | inr other ↦
              let (o, run, found) = find_root-Found y_node ts s roots in
              (
                o,
                find_on y_node s t ts m e l other ∙ run,
                Found-cons s.world y_node t ts m o e other found,
              )
        ]
