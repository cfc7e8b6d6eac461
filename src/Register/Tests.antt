-- ===== src/Register/Tests.antt =====
-- The registering over a small model of libcli, and its theorems there.
use onm_cli.Base.{
  ℕ, ◌≡◌, ◌≢◌, refl, inl, inr, true, false, Option, none, some, List, [], ◌∷◌, ◌++◌, arith, codes,
  str_eq, contains, All, ltb,
}
use onm_cli.Schema.{
  leaf, list, choice, NodeType, BaseType, identityref, Info, Idents, Nodes, end, node,
}
use onm_cli.YUtils.Search.{y_node_name}
use onm_cli.YUtils.CmdName.{get_root_ynode_cmd_name}
use onm_cli.YUtils.Mode.{y_get_next_mode}
use onm_cli.Register.{Call, Registry}
use onm_cli.Register.Leaf.{register_cmd_leaf}
use onm_cli.Register.Leaf.Calls.{leaf_calls, register_cmd_leaf-calls}
use onm_cli.YUtils.Oper.{has_oper_children}
use onm_cli.Register.Container.{register_cmd_container}
use onm_cli.Register.Container.Root.{Returned, oper_calls, root_calls, register_cmd_container-root}
use onm_cli.Register.Lists.{register_print_order}
use onm_cli.Register.Lists.Dangling.{unregister_node_routine-register_print_order}
use onm_cli.Register.Generator.{choice_cases, register_commands_schema, unregister_node_routine}
use onm_cli.Register.Generator.Nested.{choice_cases-nested}
use onm_cli.Register.Generator.Oper.Keys.{IsShow}
use onm_cli.Register.Start.{HasAll, onm_cli_init}
use onm_cli.Register.Start.Calls.{DefaultIds, LoaderIds, default_calls, loader_calls, known_of}
use onm_cli.Register.Start.Known.{onm_cli_init-register_commands_schema}
use onm_cli.Register.Table.{
  Table, table, known, started, owner_module, log_path, malloc, stays_freed, table-IsAnswering,
}
use onm_cli.Sample.{top}

abbrev mtu : Info
mtu = record top {
  addr = 2;
  name = codes "mtu";
  nodetype = leaf;
  ytype =
      some (record { basetype = BaseType.uint16; range = none; bases = Idents.nil; enums = [] });
}

uint16_other : BaseType.uint16 ≢ identityref
uint16_other e = cc

register_cmd_leaf-calls_example :
    (c : ℕ) × (no_c : ℕ) × (o : ℕ) × (w : Table) × (register_cmd_leaf table owner_module log_path
        malloc mtu
        (top ∷ [])
        started
      ≡ some (
        0,
        record started {
          cli = w;
          calls =
              leaf_calls table owner_module log_path malloc mtu
                (top ∷ [])
                0
                (y_get_next_mode log_path (top ∷ []))
                c
                no_c
                o;
        },
      ))
register_cmd_leaf-calls_example =
    register_cmd_leaf-calls table owner_module log_path malloc mtu top [] started 0
      table-IsAnswering
      (record {
        is_config = refl;
        ytype = record { basetype = BaseType.uint16; range = none; bases = Idents.nil; enums = [] };
        is_typed = refl;
        no_identity = uint16_other;
        is_short = omega arith;
        is_below = inr refl;
      })
      refl

-- A case with a choice in it, and a case behind it.
abbrev outer_case : Info
outer_case = record top { addr = 3; name = codes "first"; nodetype = NodeType.case }

abbrev inner : Nodes
inner = node (record top { addr = 4; name = codes "inner"; nodetype = choice }) end end

abbrev second : Nodes
second = node (record top { addr = 5; name = codes "second"; nodetype = NodeType.case }) end end

choice_cases-nested_example :
    choice_cases table owner_module log_path malloc
      (top ∷ [])
      (some 6)
      (some 7)
      9
      (node outer_case inner second)
      started
    ≡ choice_cases table owner_module log_path malloc
        (top ∷ [])
        (some 6)
        (some 7)
        9
        (node outer_case inner end)
        started
choice_cases-nested_example =
    choice_cases-nested table owner_module log_path malloc (top ∷ []) (some 6) (some 7) 9 outer_case
      inner second started (inl refl)

-- A container of counters.
abbrev statistics : Info
statistics = record top { addr = 6; name = codes "statistics"; config_r = true }

abbrev counter : Nodes
counter = node (record mtu { addr = 7; name = codes "in"; config_r = true }) end end

register_cmd_container-root_example :
    (s' : Registry Table) × (oper : Option ℕ) × (c : Returned table owner_module log_path)
    × (register_cmd_container table owner_module log_path top [] counter started ≡ some (0, s'))
    × (s'.ctx ≡ known)
    × (s'.calls
        ≡ oper_calls table owner_module log_path top (y_node_name top []) known true oper
          ++ root_calls table owner_module log_path top (y_node_name top []) known c)
unfolding has_oper_children
register_cmd_container-root_example =
    register_cmd_container-root table owner_module log_path top counter started refl (omega arith)
      (refl, refl, refl, refl, refl)

-- Before the first command is registered.
abbrev blank : Registry Table
blank = record started {
  ctx = record {
    no_cmd = none;
    show_conf_cand_cmd = none;
    show_conf_running_cmd = none;
    show_conf_startup_cmd = none;
    show_operational_data = none;
  };
}

-- A list of state data with a key.
abbrev entry : Info
entry = record top { addr = 9; name = codes "entry"; nodetype = list; config_r = true }

abbrev keyed : Nodes
keyed =
    node entry
      (node (record mtu { addr = 10; name = codes "id"; config_r = true; is_key = true }) end
        counter)
      end

onm_cli_init-register_commands_schema_example :
    (c : DefaultIds) × (l : LoaderIds) × (t u : Registry Table) × (new : List Call) × (onm_cli_init
        table blank
      ≡ some (0, t))
    × (t.calls ≡ default_calls c ++ loader_calls l)
    × (t.ctx ≡ known_of c)
    × HasAll t.ctx
    × (register_commands_schema table owner_module log_path malloc statistics [] keyed t
        ≡ some (tt, u))
    × (u.calls ≡ t.calls ++ new)
    × All IsShow new
unfolding y_node_name get_root_ynode_cmd_name str_eq contains
onm_cli_init-register_commands_schema_example =
    onm_cli_init-register_commands_schema table table-IsAnswering owner_module log_path malloc
      statistics [] keyed blank (refl, omega arith, refl) tt
      (
        (refl, omega arith, refl),
        (refl, tt),
        ((refl, omega arith, refl), tt, tt, ((refl, omega arith, refl), tt, tt, tt)),
        tt,
      )

-- A list that is ordered by the user, and the table behind its `print-order` command.
abbrev rules : Info
rules = record top { addr = 8; name = codes "rule"; nodetype = list; user_ordered = true }

abbrev with_order : Registry Table
with_order = record started {
  cli = record { next = 6; freed = λ n. false; names = λ n. codes "print-order"; opts = λ n. [] };
  current_print_order_c = some 5;
}

unregister_node_routine-register_print_order_example :
    (s' : Registry Table) × (unregister_node_routine table owner_module log_path rules
        (top ∷ [])
        with_order
      ≡ some (tt, s'))
    × (s'.current_print_order_c ≡ some 5)
    × (register_print_order table owner_module log_path (rules ∷ top ∷ []) 9 (codes "m") none s'
        ≡ none)
unfolding y_node_name str_eq
unregister_node_routine-register_print_order_example =
    unregister_node_routine-register_print_order table owner_module log_path rules (top ∷ []) rules
      (top ∷ []) 9 (codes "m") none 5 with_order refl refl refl refl refl
      (λ w name h dead. stays_freed (ltb 5 w.next) (w.freed 5) (str_eq (w.names 5) name) dead)
