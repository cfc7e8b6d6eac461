-- ===== src/Register/Table.antt =====
-- A small model of libcli: commands are numbered, and unregistering frees all commands of a name.
use onm_cli.Base.{
  ℕ, ◌+◌, ◌≡◌, refl, Bool, true, false, not, ◌&&◌, ◌||◌, Option, none, some, List, [], ◌∷◌, ◌++◌,
  arith, Str, codes, str_eq, ltb, lt→ltb, ◌==◌, if◌then◌else◌,
}
use onm_cli.Schema.{Info}
use onm_cli.YUtils.Search.{Commands}
use onm_cli.Register.{Registration, Optarg, has_name, Libcli, IsAnswering, CtxData, Registry}

pub record Table : Type 0 where
  pub next : ℕ
  pub freed : ℕ → Bool
  pub names : ℕ → Str
  pub opts : ℕ → List Str

abbrev register : Table → Registration → Option ℕ × Table
register w r = (
  some w.next,
  record {
    next = w.next + 1;
    freed = λ n. if n == w.next then false else w.freed n;
    names = λ n. if n == w.next then r.command else w.names n;
    opts = λ n. if n == w.next then [] else w.opts n;
  },
)

-- An argument of a name that the command has is refused.
abbrev register_optarg : Table → ℕ → Optarg → Option ℕ × Table
register_optarg w c o =
    if has_name (w.opts c) o.name
    then (none, w)
    else (some c, record w { opts = λ n. if n == c then w.opts c ++ o.name ∷ [] else w.opts n })

abbrev unregister : Table → Str → Str → Table
unregister w name hash = record w { freed = λ n. w.freed n || str_eq (w.names n) name }

pub stays_freed : (b f g : Bool) → (b && not f) ≡ false → (b && not (f || g)) ≡ false
stays_freed false f g h = refl
stays_freed true true g h = refl
stays_freed true false g h = absurd (cc h)

abbrev pub table : Libcli Table
table = record {
  cli_register_command = register;
  cli_register_optarg = register_optarg;
  set_opt_model = λ w o addr. w;
  cli_unregister_command = unregister;
  commands = λ w. Commands.nil;
  children = λ w c. Commands.nil;
  live = λ w c. ltb c w.next && not (w.freed c);
  mode_of = λ w c. 0;
  optargs = λ w c. w.opts c;
}

abbrev empty_table : Table
empty_table = record { next = 5; freed = λ n. false; names = λ n. []; opts = λ n. [] }

abbrev pub known : CtxData
known = record {
  no_cmd = some 0;
  show_conf_cand_cmd = some 1;
  show_conf_running_cmd = some 2;
  show_conf_startup_cmd = some 3;
  show_operational_data = some 4;
}

abbrev pub started : Registry Table
started = record { cli = empty_table; ctx = known; current_print_order_c = none; calls = [] }

abbrev pub owner_module : List Info → Str
owner_module path = codes "m"

abbrev pub log_path : List Info → Str
log_path path = codes "/m:x"

abbrev pub malloc : ℕ → Bool
malloc n = true

table-fresh : (w : Table) (r : Registration) → table.live (register w r).1 w.next ≡ true
table-fresh w r = ground (arith, lt→ltb w.next (w.next + 1))

table-bare : (w : Table) (r : Registration) → table.optargs (register w r).1 w.next ≡ []
table-bare w r = ground arith

table-below : (w : Table) (c : ℕ) → table.live w c ≡ true → (c == w.next) ≡ false
table-below w c live = ground arith

table-keeps :
    (w : Table) (r : Registration) (c : ℕ)
    → table.live w c ≡ true
    → (table.live (register w r).1 c ≡ true) × (table.optargs (register w r).1 c ≡ w.opts c)
table-keeps w r c live = (ground arith, rw (table-below w c live))

same_number : (c : ℕ) → (c == c) ≡ true
same_number c = ground arith

table-gives :
    (w : Table) (c : ℕ) (o : Optarg)
    → table.live w c ≡ true
    → has_name (w.opts c) o.name ≡ false
    → (p : ℕ) × ((register_optarg w c o).0 ≡ some p)
      × (table.live (register_optarg w c o).1 c ≡ true)
      × (table.optargs (register_optarg w c o).1 c ≡ w.opts c ++ o.name ∷ [])
table-gives w c o live new = (c, rw new, rw new live, rw (new, same_number c))

pub table-IsAnswering : IsAnswering table
table-IsAnswering = record {
  answers = λ w r. (w.next, refl, table-fresh w r, table-bare w r);
  keeps = table-keeps;
  gives = table-gives;
  sets = λ w o addr c. (refl, refl);
}
