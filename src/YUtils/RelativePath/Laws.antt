-- ===== src/YUtils/RelativePath/Laws.antt =====
-- What a relative path is relative to, and that it leads back to the node.
use mathlib.Core.List.{append_assoc, append-nil}
use onm_cli.Base.{
  ◌≡◌, ◌≢◌, refl, sym, ap, ◌∙◌, ◌⊎◌, inl, inr, true, false, List, [], ◌∷◌, ◌++◌, arith, Str, All,
  Bool-cases,
}
use onm_cli.Schema.{Info}
use onm_cli.YUtils.RelativePath.{is_list, root_parent, after_common, skip_slash, get_relative_path}

-- The nodes passed over on the way to `root_parent`.
abbrev pub IsNotList : Info → Type 0
IsNotList node = is_list node.nodetype ≡ false

abbrev pub StopsAt : List Info → Type 0
StopsAt [] = Unit
StopsAt (node ∷ []) = Unit
StopsAt (node ∷ _ ∷ _) = is_list node.nodetype ≡ true

-- The walk from the parent upwards passes over nodes that are no lists only, and stops at a list,
-- at a root, or at NULL for a root node: so at the nearest list above the node, if there is one.
root_parent-nearest :
    (up : List Info)
    → (passed : List Info) × (up ≡ passed ++ root_parent up)
      × All IsNotList passed
      × StopsAt (root_parent up)
unfolding root_parent
root_parent-nearest [] = ([], refl, tt, tt)
root_parent-nearest (top ∷ []) = ([], refl, tt, tt)
root_parent-nearest (node ∷ up ∷ above) = elim (Bool-cases (is_list node.nodetype)) [
  | inl e ↦ rw (e, root_parent) ([], refl, tt, e)
  | inr e ↦
      let (passed, split, all, stop) = root_parent-nearest (up ∷ above) in
      rw (e, root_parent) (node ∷ passed, ap (λ (l : List Info). node ∷ l) split, (e, all), stop)
]

-- What libyang documents of LYSC_PATH_DATA: the path of a node is that of its parent and one more
-- step, which begins with a slash, or is empty for a choice or a case; NULL has no path.
pub record IsPath (lysc_path : List Info → Str) (step : List Info → Str) : Type 0 where
  pub of_null : lysc_path [] ≡ []
  pub of_node :
      (node : Info) (up : List Info) → lysc_path (node ∷ up) ≡ lysc_path up ++ step (node ∷ up)
  pub slashed : (nodes : List Info) → (step nodes ≡ []) ⊎ ((s : Str) × (step nodes ≡ b'/' ∷ s))

after_common-append : (p s : Str) → after_common p (p ++ s) ≡ s
unfolding after_common
after_common-append [] s = refl
after_common-append (c ∷ p) s = ground (arith, after_common-append p s)

module _ (lysc_path step : List Info → Str) (law : IsPath lysc_path step) where
  -- The steps of the nodes in front of `base`.
  abbrev steps : List Info → List Info → Str
  steps [] base = []
  steps (node ∷ passed) base = steps passed base ++ step (node ∷ (passed ++ base))

  path-steps :
      (passed base : List Info) → lysc_path (passed ++ base) ≡ lysc_path base ++ steps passed base
  path-steps [] base = sym (append-nil (lysc_path base))
  path-steps (node ∷ passed) base =
      law.of_node node (passed ++ base)
      ∙ ap (λ (t : Str). t ++ step (node ∷ (passed ++ base))) (path-steps passed base)
      ∙ append_assoc (lysc_path base) (steps passed base) (step (node ∷ (passed ++ base)))

  IsSlashed : Str → Type 0
  IsSlashed s = (s ≡ []) ⊎ ((r : Str) × (s ≡ b'/' ∷ r))

  IsSlashed-append : (s t : Str) → IsSlashed s → IsSlashed t → IsSlashed (s ++ t)
  unfolding IsSlashed
  IsSlashed-append s t (inl e) h = rw e h
  IsSlashed-append s t (inr (r, e)) h = inr (r ++ t, rw e)

  steps-IsSlashed : (passed base : List Info) → IsSlashed (steps passed base)
  unfolding IsSlashed
  steps-IsSlashed [] base = inl refl
  steps-IsSlashed (node ∷ passed) base =
      IsSlashed-append (steps passed base) (step (node ∷ (passed ++ base)))
        (steps-IsSlashed passed base) (law.slashed (node ∷ (passed ++ base)))

  append-ne_nil : (s t : Str) → t ≢ [] → s ++ t ≢ []
  append-ne_nil [] t ne e = ne e
  append-ne_nil (c ∷ s) t ne e = cc

  -- The path of a node is that of `root_parent`, and behind it the steps that lead to the node.
  path_split :
      (node : Info) (up : List Info)
      → (s : Str) × (lysc_path (node ∷ up) ≡ lysc_path (root_parent up) ++ s)
        × IsSlashed s
        × (step (node ∷ up) ≢ [] → s ≢ [])
  unfolding IsSlashed
  path_split node up =
      let (passed, split, _, _) = root_parent-nearest up in
      let base = root_parent up in
      let last = step (node ∷ up) in
      (
        steps passed base ++ last,
        law.of_node node up
            ∙ ap (λ (l : List Info). lysc_path l ++ last) split
            ∙ ap (λ (t : Str). t ++ last) (path-steps passed base)
            ∙ append_assoc (lysc_path base) (steps passed base) last,
        IsSlashed-append (steps passed base) last (steps-IsSlashed passed base)
            (law.slashed (node ∷ up)),
        append-ne_nil (steps passed base) last,
      )

  skip_slash-cons : (s : Str) → IsSlashed s → s ≢ [] → b'/' ∷ skip_slash s ≡ s
  unfolding IsSlashed
  skip_slash-cons s (inl e) ne = absurd (ne e)
  skip_slash-cons s (inr (r, e)) ne = rw e

  -- For a node that is no choice and no case, the path of `root_parent`, a slash and the relative
  -- path make up the path of the node: the relative path leads from there to the node.
  pub get_relative_path-path :
      (node : Info) (up : List Info)
      → step (node ∷ up) ≢ []
      → lysc_path (root_parent up) ++ (b'/' ∷ get_relative_path lysc_path (node ∷ up))
        ≡ lysc_path (node ∷ up)
  unfolding get_relative_path
  get_relative_path-path node up ne =
      let (s, whole, slashed, some_step) = path_split node up in
      let base = lysc_path (root_parent up) in
      ap (λ (t : Str). base ++ (b'/' ∷ skip_slash t))
        (ap (after_common base) whole ∙ after_common-append base s)
      ∙ ap (λ (t : Str). base ++ t) (skip_slash-cons s slashed (some_step ne))
      ∙ sym whole
