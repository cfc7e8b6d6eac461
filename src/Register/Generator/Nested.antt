-- ===== src/Register/Generator/Nested.antt =====
-- cmd_choice.c: a choice inside a case ends the registering of the choice around it.
use onm_cli.Base.{
  ℕ, subst, ◌≡◌, ◌⊎◌, inl, inr, Bool, true, Option, none, some, List, ◌∷◌, arith, Str, is_some,
  Option-cases,
}
use onm_cli.Schema.{NodeType, leaf, choice, Info, Nodes, end, node}
use onm_cli.Register.{Libcli, Registry, R, pure, ◌>>=◌}
use onm_cli.Register.Generator.{
  case_commands, case_leaf, case_child, or_go_on, or_next, choice_cases, case_children,
}

-- A choice stands among nodes linked by `next`.
abbrev pub HasChoice : Nodes → Type 0
HasChoice end = ⊥
HasChoice (node child children next) = (child.nodetype ≡ choice) ⊎ HasChoice next

module _ {W : Type 0} where
  -- The loop over the children has ended the whole function, or there was a fault.
  abbrev Ends : Option (Option ℕ × Registry W) → Type 0
  Ends none = Unit
  Ends (some (r, s)) = is_some r ≡ true

  -- Two continuations that agree.
  bind-same :
      {A B : Type 0} (m : R W A) (f g : A → R W B) (s : Registry W)
      → ((a : A) (s' : Registry W) → f a s' ≡ g a s')
      → (m >>= f) s ≡ (m >>= g) s
  bind-same m f g s h = elim (Option-cases (m s)) [
    | inl e ↦ rw (e, ◌>>=◌)
    | inr (x, e) ↦ rw (e, ◌>>=◌) (h x.0 x.1)
  ]

module _ {W : Type 0} (lib : Libcli W) (owner_module log_path : List Info → Str)
    (malloc : ℕ → Bool) where
  go_on-Ends :
      (m : R W (Unit {0})) (rest : R W (Option ℕ)) (s : Registry W)
      → ((s' : Registry W) → Ends (rest s'))
      → Ends (
          ((m >>= λ done. pure {A = Option ℕ} none) >>= λ r.
          or_go_on lib owner_module log_path malloc r rest)
            s)
  go_on-Ends m rest s h = elim (Option-cases (m s)) [
    | inl e ↦ rw (e, ◌>>=◌, Ends) tt
    | inr (x, e) ↦ rw (e, ◌>>=◌, Ends) (h x.1)
  ]

  case_child-Ends :
      (kind : NodeType) (case_cmd : Option ℕ) (mode : ℕ) (child : Info) (nested : R W ℕ)
      (walk : R W (Unit {0})) (rest : R W (Option ℕ)) (s : Registry W)
      → (kind ≡ choice) ⊎ ((s' : Registry W) → Ends (rest s'))
      → Ends (
          (case_child lib owner_module log_path malloc kind case_cmd mode child nested walk >>= λ r.
          or_go_on lib owner_module log_path malloc r rest)
            s)
  case_child-Ends choice case_cmd mode child nested walk rest s h = ground arith
  case_child-Ends leaf case_cmd mode child nested walk rest s (inl e) = cc
  case_child-Ends leaf case_cmd mode child nested walk rest s (inr h) =
      go_on-Ends (case_leaf lib owner_module log_path case_cmd mode child) rest s h
  case_child-Ends _ case_cmd mode child nested walk rest s (inl e) = cc
  case_child-Ends _ case_cmd mode child nested walk rest s (inr h) = go_on-Ends walk rest s h

  case_children-Ends :
      (children : Nodes) (up : List Info) (c no_c : Option ℕ) (mode : ℕ) (s : Registry W)
      → HasChoice children
      → Ends (case_children lib owner_module log_path malloc up c no_c mode children s)
  unfolding case_children
  case_children-Ends end up c no_c mode s h = absurd h
  case_children-Ends (node child children next) up c no_c mode s h =
      case_child-Ends child.nodetype c mode child _ _
        (case_children lib owner_module log_path malloc up c no_c mode next) s
        (elim h [
          | inl k ↦ inl k
          | inr below ↦ inr (λ s'. case_children-Ends next up c no_c mode s' below)
        ])

  -- What is behind the loop over the children of a case makes no difference then.
  not_ended : is_some {A = ℕ} none ≡ true → ⊥
  not_ended h = cc

  or_next-same :
      (o : R W (Option ℕ)) (m k : R W ℕ) (s : Registry W)
      → Ends (o s)
      → (o >>= λ r. or_next lib owner_module log_path malloc r m) s
        ≡ (o >>= λ r. or_next lib owner_module log_path malloc r k) s
  or_next-same o m k s h = elim (Option-cases (o s)) [
    | inl e ↦ rw (e, ◌>>=◌)
    | inr ((some r, s'), e) ↦ rw (e, ◌>>=◌)
    | inr ((none, s'), e) ↦ absurd (not_ended (subst Ends e h))
  ]

  -- Where a case has a choice among its children, what is registered of the cases does not depend on
  -- the cases behind it: none of them is registered.
  pub choice_cases-nested :
      (up : List Info) (c no_c : Option ℕ) (mode : ℕ) (y_case : Info) (children next : Nodes)
      (s : Registry W)
      → HasChoice children
      → choice_cases lib owner_module log_path malloc up c no_c mode (node y_case children next) s
        ≡ choice_cases lib owner_module log_path malloc up c no_c mode (node y_case children end) s
  unfolding choice_cases
  choice_cases-nested up c no_c mode y_case children next s h =
      bind-same (case_commands lib owner_module log_path y_case up c no_c mode)
        (λ both.
          case_children lib owner_module log_path malloc (y_case ∷ up) both.0 both.1 mode children
          >>= λ r.
              or_next lib owner_module log_path malloc r
                (choice_cases lib owner_module log_path malloc up c no_c mode next))
        (λ both.
          case_children lib owner_module log_path malloc (y_case ∷ up) both.0 both.1 mode children
          >>= λ r.
              or_next lib owner_module log_path malloc r
                (choice_cases lib owner_module log_path malloc up c no_c mode end))
        s
        (λ both s'.
          or_next-same
            (case_children lib owner_module log_path malloc (y_case ∷ up) both.0 both.1 mode
              children)
            (choice_cases lib owner_module log_path malloc up c no_c mode next)
            (choice_cases lib owner_module log_path malloc up c no_c mode end) s'
            (case_children-Ends children (y_case ∷ up) both.0 both.1 mode s' h))
