-- ===== src/Register/Generator/Oper/Show.antt =====
-- cmd_container.c and cmd_list.c: what is registered for a container or a list of state data.
use onm_cli.Base.{
  ℕ, ◌+◌, ◌≤◌, ◌≡◌, refl, sym, subst, inl, inr, Bool, true, false, ◌&&◌, Option, none, some, List,
  [], ◌∷◌, ◌++◌, arith, Str, codes, length, length-append, ltb, lt→ltb, ltb→lt, is_some,
  if◌then◌else◌,
}
use mathlib.Core.List.{append-nil}
use onm_cli.Schema.{Info, Nodes, end, node}
use onm_cli.YUtils.Search.{Command, y_node_name}
use onm_cli.YUtils.Search.Parents.{show_operational, find_parent_command_core}
use onm_cli.YUtils.Oper.{has_oper_children}
use onm_cli.Register.{
  yang_show_operational_list, mode_any, Registration, Registry, privileged, cli_register_command,
  command, Libcli, IsAnswering, R, pure, ◌>>=◌, find_parent, can_search, context_of, sprintf,
}
use onm_cli.Register.Runs.{
  Runs, then-RunsAt, pure-Runs, gets-Runs, bind-Runs, sprintf-Runs, command-Runs, if-Runs,
}
use onm_cli.Register.Container.{show_command, show_oper, is_top, register_cmd_container}
use onm_cli.Register.Generator.Oper.Keys.{IsShow, HasShow, key_names, AreNew, HasKeys, keys-Returns}
use onm_cli.Register.Lists.{oper_keys, show_oper_list, register_cmd_list}

-- A node of state data whose names fit the buffers
abbrev pub IsStateNode : Info → List Info → Type 0
IsStateNode y_node up =
    (y_node.config_r ≡ true)
    × (length y_node.name + length y_node.module_name ≤ 63)
    × (ltb (length (y_node_name y_node up)) 100 ≡ true)

abbrev pub AreState : List Info → Nodes → Type 0
AreState up end = Unit
AreState up (node y_node children next) =
    IsStateNode y_node up × HasKeys children × AreState (y_node ∷ up) children × AreState up next

-- The help of a `show` command of operational data
abbrev pub oper_text : Str → Str → Str → Str
oper_text name module_name kind =
    codes "show operational data for " ++ name ++ codes " (" ++ module_name ++ kind

pub length-oper_text :
    (name module_name kind : Str)
    → length (oper_text name module_name kind) ≡ length name + length module_name + length kind + 28
length-oper_text name module_name kind = omega (
  arith,
  length-append (name ++ codes " (" ++ module_name) kind,
  length-append (name ++ codes " (") module_name,
  length-append name (codes " ("),
)

module _ {W : Type 0} where
  abbrev pub Shows : {A : Type 0} → R W A → Type 0
  Shows {A} m = Runs HasShow IsShow (λ (a : A). Unit) m

  pub nothing-Shows : Shows (pure tt)
  nothing-Shows = pure-Runs HasShow IsShow (λ a. Unit) tt tt

  pub then-Shows :
      {A B : Type 0} (m : R W A) (f : A → R W B)
      → Shows m
      → ((a : A) → Shows (f a))
      → Shows (m >>= f)
  then-Shows m f h k = bind-Runs HasShow IsShow (λ a. Unit) (λ b. Unit) m f h (λ a done. k a)

  help-Shows :
      {B : Type 0} (size : ℕ) (text : Str) (f : Str → R W B)
      → ltb (length text) size ≡ true
      → ((t : Str) → Shows (f t))
      → Shows (sprintf size text >>= f)
  help-Shows size text f fits k =
      bind-Runs HasShow IsShow (λ t. t ≡ text) (λ b. Unit) (sprintf size text) f
        (sprintf-Runs HasShow IsShow size text fits) (λ t same. k t)

  pub one-Shows : (n : ℕ) → Shows (pure n)
  one-Shows n = pure-Runs HasShow IsShow (λ a. Unit) n tt

  -- A branch that is taken for a node of state data
  pub state-Shows :
      {A : Type 0} (b : Bool) (m k : R W A) → b ≡ true → Shows m → Shows (if b then m else k)
  state-Shows true m k e h = h
  state-Shows false m k e h = absurd (cc e)

module _ {W : Type 0} (lib : Libcli W) (owner_module log_path : List Info → Str) (malloc : ℕ → Bool)
    (lawful : IsAnswering lib) where
  find_oper-Shows : (up : List Info) → Shows (find_parent lib owner_module show_operational up)
  unfolding find_parent
  find_oper-Shows up s p = (
    find_parent_command_core owner_module (context_of lib s.cli s.ctx) up show_operational,
    s,
    [],
    rw (can_search, p),
    tt,
    refl,
    sym (append-nil s.calls),
    tt,
  )

  show_oper-Shows :
      (y_node : Info) (up : List Info) (children : Nodes) (cmd_str : Str)
      → length cmd_str + length y_node.module_name ≤ 900
      → Shows (show_oper lib owner_module log_path y_node up children cmd_str)
  show_oper-Shows y_node up children cmd_str short =
      if-Runs HasShow IsShow (λ a. Unit) (has_oper_children y_node children && is_top up) _ _
        (help-Shows 1024 (oper_text cmd_str y_node.module_name (codes ") [contain]")) _
          (lt→ltb (length (oper_text cmd_str y_node.module_name (codes ") [contain]"))) 1024
            (omega (arith, length-oper_text cmd_str y_node.module_name (codes ") [contain]"))))
          (λ help.
            then-Shows _ _
              (gets-Runs HasShow IsShow (λ a. Unit) (λ s. s.ctx.show_operational_data) (λ s p. tt))
              (λ parent.
                bind-Runs HasShow IsShow (λ c. is_some c ≡ true) (λ b. Unit) _ _
                  (command-Runs HasShow IsShow lib _ lawful (λ c. (refl, inl refl)))
                  (λ c h. nothing-Shows))))
        nothing-Shows

  -- The command of a list that is found a parent, with its keys
  list_command-Shows :
      (y_node : Info) (up : List Info) (children : Nodes) (help : Str) (parent : Option Command)
      → HasKeys children
      → Shows {W = W} (elim parent [
        | none ↦ pure tt
        | some p ↦
            show_command lib owner_module log_path y_node up
              (some p.addr)
              y_node.name
              yang_show_operational_list
              (some (owner_module (y_node ∷ up)))
              help
            >>= λ c. oper_keys lib owner_module log_path c children
      ])
  unfolding cli_register_command
  list_command-Shows y_node up children help none keys s known = nothing-Shows s known
  list_command-Shows y_node up children help (some p) keys s known =
      let r : Registration = record {
        parent = some p.addr;
        model = some y_node.addr;
        command = y_node.name;
        callback = some yang_show_operational_list;
        privilege = privileged;
        mode = mode_any;
        command_hash = some (owner_module (y_node ∷ up));
        help = help;
      } in
      let (c, gives, live, bare) = lawful.answers s.cli r in
      let t : Registry W = record s {
        cli = (lib.cli_register_command s.cli r).1;
        calls = s.calls ++ command r (some c) ∷ [];
      } in
      then-RunsAt HasShow IsShow (λ b. Unit) (cli_register_command lib r)
        (λ c. oper_keys lib owner_module log_path c children) s t (some c) (command r (some c) ∷ [])
        (rw gives) refl refl ((refl, inr refl), tt)
        (keys-Returns lib owner_module log_path lawful c children t live
          (subst (λ names. AreNew names (key_names children)) (sym bare) keys))

  show_oper_list-Shows :
      (y_node : Info) (up : List Info) (children : Nodes)
      → length y_node.name + length y_node.module_name ≤ 63
      → HasKeys children
      → Shows (show_oper_list lib owner_module log_path y_node up children)
  show_oper_list-Shows y_node up children short keys =
      if-Runs HasShow IsShow (λ a. Unit) (has_oper_children y_node children) _ _
        (help-Shows 100 (oper_text y_node.name y_node.module_name (codes ") [list]")) _
          (lt→ltb (length (oper_text y_node.name y_node.module_name (codes ") [list]"))) 100
            (omega (arith, length-oper_text y_node.name y_node.module_name (codes ") [list]"))))
          (λ help.
            then-Shows _ _ (find_oper-Shows up)
              (λ parent. list_command-Shows y_node up children help parent keys)))
        nothing-Shows

  pub register_cmd_container-Shows :
      (y_node : Info) (up : List Info) (children : Nodes)
      → IsStateNode y_node up
      → Shows (register_cmd_container lib owner_module log_path y_node up children)
  unfolding register_cmd_container
  register_cmd_container-Shows y_node up children (state, short, fits) =
      bind-Runs HasShow IsShow (λ t. t ≡ y_node_name y_node up) (λ b. Unit) _ _
        (sprintf-Runs HasShow IsShow 100 (y_node_name y_node up) fits)
        (λ cmd_str same.
          then-Shows _ _
            (show_oper-Shows y_node up children cmd_str (
              subst (λ (t : Str). length t + length y_node.module_name ≤ 900) (sym same)
                (omega (arith, short, ltb→lt (length (y_node_name y_node up)) 100 fits))))
            (λ done. state-Shows y_node.config_r _ _ state (one-Shows 0)))

  pub register_cmd_list-Shows :
      (y_node : Info) (up : List Info) (children : Nodes)
      → IsStateNode y_node up
      → HasKeys children
      → Shows (register_cmd_list lib owner_module log_path malloc y_node up children)
  unfolding register_cmd_list
  register_cmd_list-Shows y_node up children (state, short, fits) keys =
      then-Shows _ _ (show_oper_list-Shows y_node up children short keys)
        (λ done. state-Shows y_node.config_r _ _ state (one-Shows 0))
