-- ===== src/Register.antt =====
-- What src/commands/yang_core and src/commands register with libcli, and the monad in which the functions
-- that do so run. The calls of `cli_register_command` and `cli_register_optarg` are operations of
-- an interface, and are kept in the order in which they are made.
pub mod Place
pub mod Runs
pub mod Leaf
pub mod Container
pub mod Lists
pub mod Generator
pub mod Start
mod Table
mod Tests
use onm_cli.Base.{
  ℕ, ◌≡◌, Bool, true, false, ◌&&◌, ◌||◌, str_eq, Option, none, some, List, [], ◌∷◌, ◌++◌, Str,
  length, ltb, is_some, if◌then◌else◌,
}
use onm_cli.Schema.{Info}
use onm_cli.YUtils.Search.{Command, Commands}
use onm_cli.YUtils.Search.Parents.{
  FindParent, config_parent, no_config_parent, show_config_candidate_parent,
  show_config_running_parent, show_config_startup_parent, show_operational, Context,
  find_parent_command_core,
}

-- The functions that are passed as `callback`.
pub data Handler : Type 0 where
  yang_leaf yang_no_leaf yang_leaf_list yang_no_leaf_list : Handler
  yang_container yang_no_container yang_list yang_no_list : Handler
  yang_choice yang_no_choice yang_case yang_no_case : Handler
  yang_show_candidate_config_container yang_show_running_config_container : Handler
  yang_show_startup_config_container yang_show_candidate_config_diff_container : Handler
  yang_show_operational_container yang_show_operational_list : Handler
  yang_show_candidate_config_list yang_show_running_config_list : Handler
  yang_show_startup_config_list print_list_order : Handler
  exit2 commit discard_changes no_command : Handler
  show_config_candidate show_config_running show_config_startup : Handler
  sysrepo_set_path sysrepo_list sysrepo_load sysrepo_install sysrepo_remove : Handler

pub data Privilege : Type 0 where
  unprivileged privileged : Privilege

-- The arguments of `cli_register_command`. NULL is `none`, and `mode` is a 32-bit pattern.
pub record Registration : Type 0 where
  pub parent : Option ℕ
  pub model : Option ℕ
  pub command : Str
  pub callback : Option Handler
  pub privilege : Privilege
  pub mode : ℕ
  pub command_hash : Option Str
  pub help : Str

-- The functions that are passed as `get_completions`.
pub data Completion : Type 0 where
  compl_candidate compl_running compl_startup : Completion

-- The arguments of `cli_register_optarg` behind the command; the validator is
-- `yang_data_validator` or NULL, and the transient mode always NULL.
pub record Optarg : Type 0 where
  pub name : Str
  pub flags : ℕ
  pub privilege : Privilege
  pub mode : ℕ
  pub help : Option Str
  pub completion : Option Completion
  pub validated : Bool

-- MODE_ANY and MODE_EXEC
abbrev pub mode_any : ℕ
mode_any = 4294967295

abbrev pub mode_exec : ℕ
mode_exec = 0

-- CLI_CMD_OPTIONAL_FLAG, CLI_CMD_OPTIONAL_ARGUMENT and CLI_CMD_ARGUMENT
abbrev pub optional_flag : ℕ
optional_flag = 1

abbrev pub optional_argument : ℕ
optional_argument = 2

abbrev pub argument : ℕ
argument = 4

-- CLI_CMD_ARGUMENT | CLI_CMD_DO_NOT_RECORD | CLI_CMD_OPTION_MULTIPLE
abbrev pub multiple_argument : ℕ
multiple_argument = 148

-- A call with what it returned. An argument is registered on a command.
pub data Call : Type 0 where
  command : Registration → (returned : Option ℕ) → Call
  optarg : (c : Option ℕ) → Optarg → (returned : Option ℕ) → Call
  -- `o->opt_model = y_node`
  opt_model : (o : Option ℕ) → ℕ → Call

-- libcli, over a state of its own. `commands` and `children` are `cli->commands` and the commands
-- below one; `live` tells whether a command is allocated, `mode_of` is its mode, and `optargs` the
-- names of its optional arguments.
pub record Libcli (W : Type 0) : Type 0 where
  pub cli_register_command : W → Registration → Option ℕ × W
  pub cli_register_optarg : W → ℕ → Optarg → Option ℕ × W
  pub set_opt_model : W → ℕ → ℕ → W
  pub cli_unregister_command : W → Str → Str → W
  pub commands : W → Commands
  pub children : W → ℕ → Commands
  pub live : W → ℕ → Bool
  pub mode_of : W → ℕ → ℕ
  pub optargs : W → ℕ → List Str

abbrev pub has_name : List Str → Str → Bool
has_name [] name = false
has_name (other ∷ names) name = str_eq other name || has_name names name

-- What is documented of libcli where its allocations succeed: a command that is registered is new and
-- has no optional arguments, registering another leaves it there with its arguments, and an argument
-- is registered if its name is new on the command.
pub record IsAnswering {W : Type 0} (lib : Libcli W) : Type 0 where
  pub answers :
      (w : W) (r : Registration)
      → (c : ℕ) × ((lib.cli_register_command w r).0 ≡ some c)
        × (lib.live (lib.cli_register_command w r).1 c ≡ true)
        × (lib.optargs (lib.cli_register_command w r).1 c ≡ [])
  pub keeps :
      (w : W) (r : Registration) (c : ℕ)
      → lib.live w c ≡ true
      → (lib.live (lib.cli_register_command w r).1 c ≡ true)
        × (lib.optargs (lib.cli_register_command w r).1 c ≡ lib.optargs w c)
  pub gives :
      (w : W) (c : ℕ) (o : Optarg)
      → lib.live w c ≡ true
      → has_name (lib.optargs w c) o.name ≡ false
      → (p : ℕ) × ((lib.cli_register_optarg w c o).0 ≡ some p)
        × (lib.live (lib.cli_register_optarg w c o).1 c ≡ true)
        × (lib.optargs (lib.cli_register_optarg w c o).1 c ≡ lib.optargs w c ++ o.name ∷ [])
  pub sets :
      (w : W) (o addr c : ℕ)
      → (lib.live (lib.set_opt_model w o addr) c ≡ lib.live w c)
        × (lib.optargs (lib.set_opt_model w o addr) c ≡ lib.optargs w c)

-- `struct cli_ctx_data`
pub record CtxData : Type 0 where
  pub no_cmd : Option ℕ
  pub show_conf_cand_cmd : Option ℕ
  pub show_conf_running_cmd : Option ℕ
  pub show_conf_startup_cmd : Option ℕ
  pub show_operational_data : Option ℕ

pub record Registry (W : Type 0) : Type 0 where
  pub cli : W
  pub ctx : CtxData
  -- `current_print_order_c` of cmd_list.c
  pub current_print_order_c : Option ℕ
  pub calls : List Call

-- `none` is a fault: NULL or a freed command is read, or a buffer is overrun.
abbrev pub R : Type 0 → Type 0 → Type 0
R W A = Registry W → Option (A × Registry W)

module _ {W : Type 0} where
  abbrev pub pure : {A : Type 0} → A → R W A
  pure a s = some (a, s)

  abbrev pub fault : {A : Type 0} → R W A
  fault s = none

  infixl 5 ◌>>=◌ ◌>>◌
  abbrev pub ◌>>=◌ : {A B : Type 0} → R W A → (A → R W B) → R W B
  ◌>>=◌ m f s = elim (m s) [ none ↦ none | some (a, s') ↦ f a s' ]

  abbrev pub ◌>>◌ : {B : Type 0} → R W (Unit {0}) → R W B → R W B
  m >> k = m >>= λ _. k

  abbrev pub gets : {A : Type 0} → (Registry W → A) → R W A
  gets f s = some (f s, s)

  -- `sprintf` into a buffer of `size` bytes.
  unfoldable pub sprintf : ℕ → Str → R W Str
  sprintf size text s = if ltb (length text) size then some (text, s) else none

module _ {W : Type 0} (lib : Libcli W) where
  unfoldable pub cli_register_command : Registration → R W (Option ℕ)
  cli_register_command r s =
      let (c, w) = lib.cli_register_command s.cli r in
      some (c, record s { cli = w; calls = s.calls ++ command r c ∷ [] })

  -- libcli reads the list of the command that it is given.
  unfoldable pub cli_register_optarg : Option ℕ → Optarg → R W (Option ℕ)
  cli_register_optarg none o s = none
  cli_register_optarg (some c) o s =
      let (p, w) = lib.cli_register_optarg s.cli c o in
      some (p, record s { cli = w; calls = s.calls ++ optarg (some c) o p ∷ [] })

  unfoldable pub set_opt_model : Option ℕ → ℕ → R W (Unit {0})
  set_opt_model none addr s = none
  set_opt_model (some o) addr s = some (
    tt,
    record s {
      cli = lib.set_opt_model s.cli o addr;
      calls = s.calls ++ opt_model (some o) addr ∷ [];
    },
  )

  -- An optional argument of the node at `addr`.
  unfoldable pub register_model_optarg : Option ℕ → Optarg → ℕ → R W (Unit {0})
  unfolding cli_register_optarg set_opt_model
  register_model_optarg c o addr = do p ← cli_register_optarg c o; set_opt_model p addr

  abbrev pub children_of : W → Option ℕ → Commands
  children_of w none = Commands.nil
  children_of w (some c) = lib.children w c

  abbrev pub context_of : W → CtxData → Context
  context_of w ctx = record {
    commands = lib.commands w;
    no_cmd = children_of w ctx.no_cmd;
    show_conf_cand_cmd = children_of w ctx.show_conf_cand_cmd;
    show_conf_running_cmd = children_of w ctx.show_conf_running_cmd;
    show_conf_startup_cmd = children_of w ctx.show_conf_startup_cmd;
    show_operational_data = children_of w ctx.show_operational_data;
  }

-- Whether the commands that the search for a parent reads the children of are there: for a node with no
-- parent the cases of the switch fall through into one another.
unfoldable pub can_search : CtxData → List Info → FindParent → Bool
can_search ctx up config_parent = true
can_search ctx up no_config_parent = is_some ctx.no_cmd
can_search ctx up show_operational = is_some ctx.show_operational_data
can_search ctx (_ ∷ _) show_config_candidate_parent = is_some ctx.show_conf_cand_cmd
can_search ctx (_ ∷ _) show_config_running_parent = is_some ctx.show_conf_running_cmd
can_search ctx (_ ∷ _) show_config_startup_parent = is_some ctx.show_conf_startup_cmd
can_search ctx [] show_config_candidate_parent =
    is_some ctx.show_conf_cand_cmd
    && is_some ctx.show_conf_running_cmd
    && is_some ctx.show_conf_startup_cmd
    && is_some ctx.show_operational_data
can_search ctx [] show_config_running_parent =
    is_some ctx.show_conf_running_cmd
    && is_some ctx.show_conf_startup_cmd
    && is_some ctx.show_operational_data
can_search ctx [] show_config_startup_parent =
    is_some ctx.show_conf_startup_cmd && is_some ctx.show_operational_data

module _ {W : Type 0} (lib : Libcli W) (owner_module : List Info → Str) where
  -- `find_parent_cmd` and the other wrappers; the list holds the ancestors of the node.
  unfoldable pub find_parent : FindParent → List Info → R W (Option Command)
  unfolding can_search find_parent_command_core
  find_parent kind up s =
      if can_search s.ctx up kind
      then some (find_parent_command_core owner_module (context_of lib s.cli s.ctx) up kind, s)
      else none
