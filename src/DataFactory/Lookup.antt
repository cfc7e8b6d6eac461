-- ===== src/DataFactory/Lookup.antt =====
-- data_factory.c: `get_local_node_data` finds the first tree with the node.
use onm_cli.Base.{
  ℕ, ◌≡◌, refl, ap, ◌∙◌, inl, inr, true, Option, none, some, List, [], ◌∷◌, ◌++◌, arith, Str, All,
  Option-cases,
}
use onm_cli.Env.{Env}
use onm_cli.Schema.{Info}
use onm_cli.State.{DataTree, State}
use onm_cli.DataFactory.{local_node, get_local_node_data}

module _ (env : Env) (lysc_path : List Info → Str) where
  open env use {World}

  -- The node that libyang finds in a tree.
  abbrev pub match_in : World → Str → DataTree → Option ℕ
  match_in w xpath t = elim t.node [ none ↦ none | some n ↦ (env.lyd_find_path w n xpath).1 ]

  abbrev pub IsAllocated : World → DataTree → Type 0
  IsAllocated w t = (n : ℕ) × (t.node ≡ some n) × (env.live w n ≡ true)

  -- What is found in a list of trees: the match in the first tree that has one, or that none has.
  abbrev pub IsFirst : World → Str → List DataTree → Option ℕ → Type 0
  IsFirst w xpath ts none = All (λ (t : DataTree). match_in w xpath t ≡ none) ts
  IsFirst w xpath ts (some n) =
      (passed : List DataTree) × (t : DataTree) × (after : List DataTree) × (ts
        ≡ passed ++ (t ∷ after))
      × All (λ (u : DataTree). match_in w xpath u ≡ none) passed
      × (match_in w xpath t ≡ some n)

  IsFirst-cons :
      (w : World) (xpath : Str) (t : DataTree) (ts : List DataTree) (o : Option ℕ)
      → match_in w xpath t ≡ none
      → IsFirst w xpath ts o
      → IsFirst w xpath (t ∷ ts) o
  IsFirst-cons w xpath t ts none e f = (e, f)
  IsFirst-cons w xpath t ts (some n) e (passed, u, after, split, all, found) =
      (t ∷ passed, u, after, ap (λ (l : List DataTree). t ∷ l) split, (e, all), found)

  local_hit :
      (s : State World) (xpath : Str) (t : DataTree) (ts : List DataTree) (m n : ℕ)
      → t.node ≡ some m
      → env.live s.world m ≡ true
      → (env.lyd_find_path s.world m xpath).1 ≡ some n
      → local_node env lysc_path xpath (t ∷ ts) s ≡ some (some n, s)
  unfolding local_node
  local_hit s xpath t ts m n e l found = ground arith

  local_miss :
      (s : State World) (xpath : Str) (t : DataTree) (ts : List DataTree) (m : ℕ)
      → t.node ≡ some m
      → env.live s.world m ≡ true
      → (env.lyd_find_path s.world m xpath).1 ≡ none
      → local_node env lysc_path xpath (t ∷ ts) s ≡ local_node env lysc_path xpath ts s
  unfolding local_node
  local_miss s xpath t ts m e l found = ground arith

  match_eq :
      (w : World) (xpath : Str) (t : DataTree) (m : ℕ) (o : Option ℕ)
      → t.node ≡ some m
      → (env.lyd_find_path w m xpath).1 ≡ o
      → match_in w xpath t ≡ o
  match_eq w xpath t m o e f = ground arith

  local_node-IsFirst :
      (xpath : Str) (ts : List DataTree) (s : State World)
      → All (IsAllocated s.world) ts
      → (o : Option ℕ) × (local_node env lysc_path xpath ts s ≡ some (o, s))
        × IsFirst s.world xpath ts o
  unfolding local_node
  local_node-IsFirst xpath [] s all = (none, refl, tt)
  local_node-IsFirst xpath (t ∷ ts) s ((m, e, l), all) =
      elim (Option-cases (env.lyd_find_path s.world m xpath).1) [
        | inr (n, f) ↦ (
          some n,
          local_hit s xpath t ts m n e l f,
          ([], t, ts, refl, tt, match_eq s.world xpath t m (some n) e f),
        )
        | inl f ↦
            let (o, run, first) = local_node-IsFirst xpath ts s all in
            (
              o,
              local_miss s xpath t ts m e l f ∙ run,
              IsFirst-cons s.world xpath t ts o (match_eq s.world xpath t m none e f) first,
            )
      ]

  -- For a candidate of allocated trees `get_local_node_data` returns, and changes nothing. It
  -- returns the match in the first tree of the list that has one, and NULL exactly if none has.
  pub get_local_node_data-IsFirst :
      (xpath : Str) (s : State World)
      → All (IsAllocated s.world) s.config_root_tree
      → (o : Option ℕ) × (get_local_node_data env lysc_path xpath s ≡ some (o, s))
        × IsFirst s.world xpath s.config_root_tree o
  unfolding get_local_node_data
  get_local_node_data-IsFirst xpath s all = local_node-IsFirst xpath s.config_root_tree s all
