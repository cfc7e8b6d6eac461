-- ===== src/Register/Leaf/Calls.antt =====
-- cmd_leaf.c: what is registered for a leaf, and in which mode.
use onm_cli.Base.{
  ℕ, ◌+◌, ◌≤◌, ◌≡◌, ◌≢◌, refl, sym, ap, ◌∙◌, ◌⊎◌, inl, inr, Bool, true, false, Option, none, some,
  List, [], ◌∷◌, ◌++◌, arith, Str, codes, length, length-append, lt→ltb, if◌then◌else◌,
}
use onm_cli.Schema.{BaseType, identityref, Info, LeafType, Idents}
use onm_cli.YUtils.Search.Parents.{
  attaches, Context, FindParent, is_show, find_parent_command_core, config_parent, no_config_parent,
}
use onm_cli.YUtils.Mode.{y_get_next_mode}
use onm_cli.Register.{
  sprintf, Handler, yang_leaf, yang_no_leaf, privileged, argument, compl_candidate, Registration,
  Optarg, Call, command, optarg, opt_model, can_search, Libcli, IsAnswering, Registry, pure, ◌>>=◌,
  cli_register_command, register_model_optarg, find_parent,
}
use onm_cli.Register.Runs.{snocs-append}
use onm_cli.Register.Place.{help_text, described, leaf_help, type_help, place_of}
use onm_cli.Register.Leaf.{leaf_commands, register_cmd_leaf}

pub length-help_text :
    (verb name module_name kind : Str)
    → length (help_text verb name module_name kind)
      ≡ length verb + length name + length module_name + length kind + 7
length-help_text verb name module_name kind = omega (arith, length-append {0})

module _ {W : Type 0} (lib : Libcli W) (owner_module log_path : List Info → Str)
    (malloc : ℕ → Bool) where
  core-none :
      (ctx : Context) (p g : Info) (up : List Info) (kind : FindParent)
      → is_show owner_module ctx kind ≡ false
      → attaches p.nodetype ≡ false
      → find_parent_command_core owner_module ctx (p ∷ g ∷ up) kind ≡ none
  unfolding find_parent_command_core
  core-none ctx p g up config_parent h a = rw a
  core-none ctx p g up no_config_parent h a = rw a
  core-none ctx p g up _ h a = cc

  filled_in : {g : Info} {up : List Info} → g ∷ up ≢ []
  filled_in e = cc

  place_of-mode :
      (y_node p : Info) (up : List Info) (s : Registry W) (n : ℕ)
      → s.ctx.no_cmd ≡ some n
      → (attaches p.nodetype ≡ false) ⊎ (up ≡ [])
      → place_of lib owner_module log_path y_node (p ∷ up) s
        ≡ some (
          record {
            parent_cmd = none;
            parent_cmd_no = some n;
            mode = y_get_next_mode log_path (p ∷ up);
          },
          s,
        )
  unfolding place_of y_get_next_mode
  place_of-mode y_node p [] s n e h = rw (e, find_parent, can_search, ◌>>=◌)
  place_of-mode y_node p (g ∷ up) s n e (inr none') = absurd (filled_in none')
  place_of-mode y_node p (g ∷ up) s n e (inl a) = rw (a, e, a)

  type_help-other :
      (y_node : Info) (b : BaseType) (bases : Idents) (s : Registry W)
      → b ≢ identityref
      → type_help malloc y_node b bases s ≡ some (some (described y_node.dsc y_node.name), s)
  type_help-other y_node identityref bases s h = absurd (h refl)
  type_help-other y_node _ bases s h = refl

  leaf_help-plain :
      (y_node : Info) (t : LeafType) (s : Registry W)
      → y_node.ytype ≡ some t
      → t.basetype ≢ identityref
      → leaf_help malloc y_node y_node.ytype s ≡ some (some (described y_node.dsc y_node.name), s)
  unfolding leaf_help
  leaf_help-plain y_node t s e h =
      ap (λ ty. leaf_help malloc y_node ty s) e ∙ type_help-other y_node t.basetype t.bases s h

  help_fits :
      (y_node : Info) (verb : Str) (s : Registry W)
      → length y_node.name + length y_node.module_name ≤ 79
      → length verb ≤ 9
      → sprintf 100 (help_text verb y_node.name y_node.module_name (codes "leaf")) s
        ≡ some (help_text verb y_node.name y_node.module_name (codes "leaf"), s)
  unfolding sprintf
  help_fits y_node verb s short h = rw (
      lt→ltb (length (help_text verb y_node.name y_node.module_name (codes "leaf"))) 100
        (omega (arith, length-help_text verb y_node.name y_node.module_name (codes "leaf"))))

  abbrev pub leaf_command : Info → List Info → Option ℕ → ℕ → Handler → Str → Registration
  leaf_command y_node up parent mode handler verb = record {
    parent = parent;
    model = some y_node.addr;
    command = y_node.name;
    callback = some handler;
    privilege = privileged;
    mode = mode;
    command_hash = some (owner_module (y_node ∷ up));
    help = help_text verb y_node.name y_node.module_name (codes "leaf");
  }

  abbrev pub leaf_value : Info → ℕ → Optarg
  leaf_value y_node mode = record {
    name = codes "value";
    flags = argument;
    privilege = privileged;
    mode = mode;
    help = some (described y_node.dsc y_node.name);
    completion = some compl_candidate;
    validated = true;
  }

  -- The calls with what they return: the commands `c` and `no_c`, and the argument `o` of `c`
  abbrev pub leaf_calls : Info → List Info → ℕ → ℕ → ℕ → ℕ → ℕ → List Call
  leaf_calls y_node up no_cmd mode c no_c o =
      command (leaf_command y_node up none mode yang_leaf (codes "configure")) (some c)
      ∷ command (leaf_command y_node up (some no_cmd) mode yang_no_leaf (codes "delete"))
          (some no_c)
      ∷ optarg (some c) (leaf_value y_node mode) (some o)
      ∷ opt_model (some o) y_node.addr
      ∷ []

  -- A configuration leaf with a type that is no identityref, whose parent is at the root or is no
  -- container, choice or case
  pub record IsPlainLeaf (y_node p : Info) (up : List Info) : Type 0 where
    pub is_config : y_node.config_r ≡ false
    pub ytype : LeafType
    pub is_typed : y_node.ytype ≡ some ytype
    pub no_identity : ytype.basetype ≢ identityref
    pub is_short : length y_node.name + length y_node.module_name ≤ 79
    pub is_below : (attaches p.nodetype ≡ false) ⊎ (up ≡ [])

  leaf_run :
      (y_node p : Info) (up : List Info) (s : Registry W) (no_cmd : ℕ) (r1 r2 : Registration)
      (opt : Optarg) (w1 w2 w3 : W) (c no_c o : ℕ)
      → IsPlainLeaf y_node p up
      → s.ctx.no_cmd ≡ some no_cmd
      → r1
        ≡ leaf_command y_node
            (p ∷ up)
            none
            (y_get_next_mode log_path (p ∷ up))
            yang_leaf
            (codes "configure")
      → r2
        ≡ leaf_command y_node
            (p ∷ up)
            (some no_cmd)
            (y_get_next_mode log_path (p ∷ up))
            yang_no_leaf
            (codes "delete")
      → opt ≡ leaf_value y_node (y_get_next_mode log_path (p ∷ up))
      → lib.cli_register_command s.cli r1 ≡ (some c, w1)
      → lib.cli_register_command w1 r2 ≡ (some no_c, w2)
      → lib.cli_register_optarg w2 c opt ≡ (some o, w3)
      → leaf_commands lib owner_module log_path malloc y_node (p ∷ up) s
        ≡ some (
          0,
          record s {
            cli = lib.set_opt_model w3 o y_node.addr;
            calls =
                s.calls
                ++ leaf_calls y_node (p ∷ up) no_cmd (y_get_next_mode log_path (p ∷ up)) c no_c o;
          },
        )
  unfolding cli_register_command register_model_optarg
  leaf_run y_node p up s no_cmd r1 r2 opt w1 w2 w3 c no_c o leaf e is1 is2 is3 run1 run2 run3 = rw (
    leaf_commands,
    ◌>>=◌,
    help_fits y_node (codes "configure") s leaf.is_short (omega arith),
    help_fits y_node (codes "delete") s leaf.is_short (omega arith),
    place_of-mode y_node p up s no_cmd e leaf.is_below,
    leaf_help-plain y_node leaf.ytype _ leaf.is_typed leaf.no_identity,
    sym is1,
    sym is2,
    sym is3,
    run1,
    run2,
    run3,
    snocs-append s.calls (
        command r1 (some c)
        ∷ command r2 (some no_c)
        ∷ optarg (some c) opt (some o)
        ∷ opt_model (some o) y_node.addr
        ∷ []),
  )

  config_leaf :
      (y_node p : Info) (up : List Info) (s : Registry W)
      → y_node.config_r ≡ false
      → register_cmd_leaf lib owner_module log_path malloc y_node (p ∷ up) s
        ≡ leaf_commands lib owner_module log_path malloc y_node (p ∷ up) s
  unfolding register_cmd_leaf
  config_leaf y_node p up s e =
      ap
        (λ b.
          (if b then pure 1 else leaf_commands lib owner_module log_path malloc y_node (p ∷ up)) s)
        e

  -- Where libcli answers and the command `no` is there, registering a configuration leaf returns 0, if
  -- its type is no identityref, its help fits, and its parent is a root node or no container, choice
  -- or case. It makes four calls: the command of the leaf, that below `no`, the argument of the command
  -- that the first call returned, with its completion and its validator, and the node of that
  -- argument. The mode of both commands is the one that the command of the parent enters.
  pub register_cmd_leaf-calls :
      (y_node p : Info) (up : List Info) (s : Registry W) (no_cmd : ℕ)
      → IsAnswering lib
      → IsPlainLeaf y_node p up
      → s.ctx.no_cmd ≡ some no_cmd
      → (c : ℕ) × (no_c : ℕ) × (o : ℕ) × (w : W) × (register_cmd_leaf lib owner_module log_path
            malloc y_node
            (p ∷ up)
            s
          ≡ some (
            0,
            record s {
              cli = w;
              calls =
                  s.calls
                  ++ leaf_calls y_node (p ∷ up) no_cmd (y_get_next_mode log_path (p ∷ up)) c no_c o;
            },
          ))
  register_cmd_leaf-calls y_node p up s no_cmd lawful leaf e =
      let mode = y_get_next_mode log_path (p ∷ up) in
      let r1 = leaf_command y_node (p ∷ up) none mode yang_leaf (codes "configure") in
      let r2 = leaf_command y_node (p ∷ up) (some no_cmd) mode yang_no_leaf (codes "delete") in
      let opt = leaf_value y_node mode in
      let w1 = (lib.cli_register_command s.cli r1).1 in
      let w2 = (lib.cli_register_command w1 r2).1 in
      let (c, gives, live, bare) = lawful.answers s.cli r1 in
      let (no_c, gives_no, _, _) = lawful.answers w1 r2 in
      let (live', same) = lawful.keeps w1 r2 c live in
      let (o, gives_o, _, _) = lawful.gives w2 c opt live' (rw (same, bare)) in
      (
        c,
        no_c,
        o,
        lib.set_opt_model (lib.cli_register_optarg w2 c opt).1 o y_node.addr,
        config_leaf y_node p up s leaf.is_config
            ∙ leaf_run y_node p up s no_cmd r1 r2 opt w1 w2 (lib.cli_register_optarg w2 c opt).1 c
                no_c o leaf e refl refl refl (ap (λ x. (x, w1)) gives) (ap (λ x. (x, w2)) gives_no)
                (ap (λ x. (x, (lib.cli_register_optarg w2 c opt).1)) gives_o),
      )
