-- ===== src/Register/Generator/Oper/Keys.antt =====
-- cmd_list.c: what is registered for the keys of a list of state data.
use onm_cli.Base.{
  ℕ, ◌≡◌, refl, sym, subst, ◌∙◌, ◌⊎◌, Bool, true, false, some, List, [], ◌∷◌, ◌++◌, Str, is_some,
  if◌then◌else◌,
}
use mathlib.Core.List.{append-nil, append_assoc}
use onm_cli.Schema.{Info, Nodes, end, node}
use onm_cli.Register.{
  yang_show_operational_container, yang_show_operational_list, mode_any, compl_running, Call,
  Registry, has_name, cli_register_optarg, set_opt_model, register_model_optarg, command, optarg,
  opt_model, Libcli, IsAnswering, CtxData, R, pure, ◌>>=◌,
}
use onm_cli.Register.Place.{described}
use onm_cli.Register.Runs.{RunsAt, then-RunsAt, pure-Runs}
use onm_cli.Register.Lists.{key_argument, key_optarg, oper_keys}

-- A call that makes a `show` command of operational data, in every mode, or an argument of one.
abbrev pub IsShow : Call → Type 0
IsShow (command r c) =
    (r.mode ≡ mode_any)
    × ((r.callback ≡ some yang_show_operational_container)
        ⊎ (r.callback ≡ some yang_show_operational_list))
IsShow (optarg c o p) = (o.mode ≡ mode_any) × (o.completion ≡ some compl_running)
IsShow (opt_model o addr) = Unit

abbrev pub HasShow : CtxData → Type 0
HasShow ctx = is_some ctx.show_operational_data ≡ true

-- The names of the keys of a list.
abbrev pub key_names : Nodes → List Str
key_names end = []
key_names (node child children next) =
    if child.is_key then child.name ∷ key_names next else key_names next

-- Names that differ from one another and from those that are there.
abbrev pub AreNew : List Str → List Str → Type 0
AreNew names [] = Unit
AreNew names (name ∷ next) = (has_name names name ≡ false) × AreNew (names ++ name ∷ []) next

-- The keys of a list have different names.
abbrev pub HasKeys : Nodes → Type 0
HasKeys children = AreNew [] (key_names children)

module _ {W : Type 0} (lib : Libcli W) (owner_module log_path : List Info → Str)
    (lawful : IsAnswering lib) where
  abbrev pub Returns : {A : Type 0} → R W A → Registry W → Type 0
  Returns {A} m s = RunsAt HasShow IsShow (λ (a : A). Unit) m s

  -- One child of the list, in front of those for which `rest` holds
  key_step :
      (is_key : Bool) (c : ℕ) (child : Info) (next : Nodes) (s : Registry W)
      → lib.live s.cli c ≡ true
      → AreNew
          (lib.optargs s.cli c)
          (if is_key then child.name ∷ key_names next else key_names next)
      → ((t : Registry W)
          → lib.live t.cli c ≡ true
          → AreNew (lib.optargs t.cli c) (key_names next)
          → Returns (oper_keys lib owner_module log_path (some c) next) t)
      → Returns
          ((if is_key
              then key_optarg lib owner_module log_path
                  (some c)
                  child
                  mode_any
                  (some (described child.dsc child.name))
                  compl_running
              else pure tt)
            >>= λ a. oper_keys lib owner_module log_path (some c) next)
          s
  unfolding register_model_optarg cli_register_optarg set_opt_model
  key_step false c child next s live new rest =
      then-RunsAt HasShow IsShow (λ b. Unit) (pure tt)
        (λ a. oper_keys lib owner_module log_path (some c) next) s s tt [] refl refl
        (sym (append-nil s.calls)) tt (rest s live new)
  key_step true c child next s live (new, more) rest =
      let o =
        key_argument lib owner_module log_path child mode_any
          (some (described child.dsc child.name)) compl_running in
      let (p, gives, live', added) = lawful.gives s.cli c o live new in
      let w = (lib.cli_register_optarg s.cli c o).1 in
      let (live'', kept) = lawful.sets w p child.addr c in
      let t : Registry W = record s {
        cli = lib.set_opt_model w p child.addr;
        calls = (s.calls ++ optarg (some c) o (some p) ∷ []) ++ opt_model (some p) child.addr ∷ [];
      } in
      then-RunsAt HasShow IsShow (λ b. Unit) (register_model_optarg lib (some c) o child.addr)
        (λ a. oper_keys lib owner_module log_path (some c) next) s t tt
        (optarg (some c) o (some p) ∷ opt_model (some p) child.addr ∷ []) (rw (◌>>=◌, gives)) refl
        (append_assoc s.calls (optarg (some c) o (some p) ∷ [])
          (opt_model (some p) child.addr ∷ []))
        ((refl, refl), (tt, tt))
        (rest t (live'' ∙ live')
          (subst (λ names. AreNew names (key_names next)) (sym (kept ∙ added)) more))

  pub keys-Returns :
      (c : ℕ) (children : Nodes) (s : Registry W)
      → lib.live s.cli c ≡ true
      → AreNew (lib.optargs s.cli c) (key_names children)
      → Returns (oper_keys lib owner_module log_path (some c) children) s
  unfolding oper_keys
  keys-Returns c end s live new = pure-Runs (λ ctx. Unit) IsShow (λ a. Unit) tt tt s tt
  keys-Returns c (node child children next) s live new =
      key_step child.is_key c child next s live new
        (λ t live' new'. keys-Returns c next t live' new')
