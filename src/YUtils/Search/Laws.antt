-- ===== src/YUtils/Search/Laws.antt =====
-- `search_cmds` returns the first command of its node in a fixed order, and misses none.
use onm_cli.Base.{
  ℕ, ◌≡◌, refl, sym, ◌∙◌, inl, inr, Bool, true, false, Option, none, some, List, [], ◌∷◌, ◌++◌,
  arith, Str, keep, keep-append, Bool-cases, str_eq→≡,
}
use onm_cli.YUtils.Search.{Command, Commands, nil, cmd, has_hash, is_command_of, search}

-- The commands of one module, each behind those that are below it: a command of another module
-- hides all that is below it.
abbrev pub in_order : Str → Commands → List Command
in_order root_module nil = []
in_order root_module (cmd c children next) = elim (has_hash c.command_hash root_module) [
  | true ↦ in_order root_module children ++ (c ∷ in_order root_module next)
  | false ↦ in_order root_module next
]

abbrev pub first : List Command → Option Command
first [] = none
first (c ∷ _) = some c

abbrev or_first : Option Command → List Command → Option Command
or_first none l = first l
or_first (some c) l = some c

first-append : (xs ys : List Command) → first (xs ++ ys) ≡ or_first (first xs) ys
first-append [] ys = refl
first-append (x ∷ xs) ys = refl

-- The search is the head of the list of all commands of the module, children before their parent,
-- that have the node for their model and its name: it finds the first of these, and NULL exactly
-- when there is none.
pub search-first :
    (root_module : Str) (addr : ℕ) (name : Str) (commands : Commands)
    → search root_module addr name commands
      ≡ first (keep (is_command_of addr name) (in_order root_module commands))
unfolding search
search-first m a n nil = refl
search-first m a n (cmd c children next) = elim (Bool-cases (has_hash c.command_hash m)) [
  | inr e ↦ rw (e, search, in_order) (search-first m a n next)
  | inl e ↦
      rw
        (
          e,
          search,
          in_order,
          keep-append (is_command_of a n) (in_order m children) (c ∷ in_order m next),
          first-append (keep (is_command_of a n) (in_order m children)),
          ← search-first m a n children,
        )
        (ground (arith, search-first m a n next))
]

pub first-keep :
    (p : Command → Bool) (l : List Command) (c : Command) → first (keep p l) ≡ some c → p c ≡ true
first-keep p [] c e = cc
first-keep p (x ∷ l) c e = ground (arith, first-keep p l c)

-- What the search returns is the command of the node: its model is the node, and its name is the
-- name searched for.
pub search_sound :
    (root_module : Str) (addr : ℕ) (name : Str) (commands : Commands) (c : Command)
    → search root_module addr name commands ≡ some c
    → (c.cmd_model ≡ some addr) × (c.command ≡ name)
search_sound m a n commands c e =
    is_command_of-eq c (
      first-keep (is_command_of a n) (in_order m commands) c
        (sym (search-first m a n commands) ∙ e))
  where
    is_command_of-eq :
        (c : Command) → is_command_of a n c ≡ true → (c.cmd_model ≡ some a) × (c.command ≡ n)
    is_command_of-eq c h = ground (arith, str_eq→≡ c.command n)
