-- ===== src/Register/Start/Calls.antt =====
-- default_cmd.c and sysrepo_cmd.c: the calls that `onm_cli_init` makes, in their order, and what
-- `struct cli_ctx_data` keeps of their results.
use onm_cli.Base.{ℕ, Option, none, some, List, [], ◌∷◌, Str, codes}
use onm_cli.Register.{
  Handler, exit2, commit, discard_changes, no_command, show_config_candidate, show_config_running,
  show_config_startup, sysrepo_set_path, sysrepo_list, sysrepo_load, sysrepo_install,
  sysrepo_remove, Privilege, unprivileged, privileged, mode_any, mode_exec, optional_flag,
  optional_argument, argument, Call, command, optarg, CtxData,
}
use onm_cli.Register.Start.{plain_optarg}

-- A command without a model, and what the call returns.
abbrev pub plain :
    Privilege
    → ℕ
    → Option ℕ
    → Str
    → Option Handler
    → Option Str
    → Str
    → (returned : Option ℕ) → Call
plain privilege mode parent name callback hash help returned =
    command
      (record {
        parent = parent;
        model = none;
        command = name;
        callback = callback;
        privilege = privilege;
        mode = mode;
        command_hash = hash;
        help = help;
      })
      returned

-- What the calls of `default_commands_init` return.
pub record DefaultIds : Type 0 where
  pub exit_c : Option ℕ
  pub commit_c : Option ℕ
  pub show : Option ℕ
  pub config_candidate : Option ℕ
  pub config_running : Option ℕ
  pub config_startup : Option ℕ
  pub show_oper : Option ℕ
  pub format : Option ℕ
  pub discard : Option ℕ
  pub no_cmd : Option ℕ

abbrev pub default_calls : DefaultIds → List Call
default_calls c =
    plain unprivileged mode_any none (codes "exit") (some exit2) none (codes "exit to prev mode")
      c.exit_c
    ∷ plain unprivileged mode_any none (codes "commit") (some commit) none
        (codes "commit changes to sysrepo cdb") c.commit_c
    ∷ plain unprivileged mode_any none (codes "show") none none
        (codes "print the candidate/running config") c.show
    ∷ plain unprivileged mode_any c.show (codes "config-candidate") (some show_config_candidate)
        (some (codes "config-candidate")) (codes "show the candidate configurations")
        c.config_candidate
    ∷ plain unprivileged mode_any c.show (codes "config-running") (some show_config_running)
        (some (codes "config-running")) (codes "show the running configurations") c.config_running
    ∷ plain unprivileged mode_any c.show (codes "config-startup") (some show_config_startup) none
        (codes "show the startup configurations") c.config_startup
    ∷ plain unprivileged mode_any c.show (codes "operational-data") (some show_config_startup) none
        (codes "show the operational data") c.show_oper
    ∷ optarg c.config_candidate
        (plain_optarg (codes "format") optional_argument unprivileged mode_any
          (codes "printed format [json|xml]."))
        c.format
    ∷ plain unprivileged mode_any none (codes "discard-changes") (some discard_changes) none
        (codes "discard all current changes") c.discard
    ∷ plain unprivileged mode_any none (codes "no") (some no_command) none (codes "delete configs")
        c.no_cmd
    ∷ []

-- What the calls of `yang_cmd_loader_init` return.
pub record LoaderIds : Type 0 where
  pub sysrepo_cmd : Option ℕ
  pub set_path : Option ℕ
  pub path_o : Option ℕ
  pub list_c : Option ℕ
  pub load_c : Option ℕ
  pub install_c : Option ℕ
  pub file_o : Option ℕ
  pub remove_c : Option ℕ
  pub name_o : Option ℕ
  pub force_o : Option ℕ

abbrev pub loader_calls : LoaderIds → List Call
loader_calls c =
    plain privileged mode_exec none (codes "sysrepo") none none (codes "sysrepo commands")
      c.sysrepo_cmd
    ∷ plain privileged mode_exec c.sysrepo_cmd (codes "set-module-path") (some sysrepo_set_path)
        none (codes "set yang modules path search to install in sysrepo") c.set_path
    ∷ optarg c.set_path
        (plain_optarg (codes "absolute-path") argument privileged mode_exec
          (codes "full absolute path to yang modules"))
        c.path_o
    ∷ plain privileged mode_exec c.sysrepo_cmd (codes "list-modules") (some sysrepo_list) none
        (codes "list all sysrepo yang modules") c.list_c
    ∷ plain privileged mode_exec c.sysrepo_cmd (codes "load-modules") (some sysrepo_load) none
        (codes "load all yang modules from sysrepo and generate the cmds.") c.load_c
    ∷ plain privileged mode_exec c.sysrepo_cmd (codes "install-module") (some sysrepo_install) none
        (codes "install yang module in sysrepo") c.install_c
    ∷ optarg c.install_c
        (plain_optarg (codes "module-file") argument privileged mode_exec
          (codes "module yang file .yang"))
        c.file_o
    ∷ plain privileged mode_exec c.sysrepo_cmd (codes "remove-module") (some sysrepo_remove) none
        (codes "remove yang module from sysrepo") c.remove_c
    ∷ optarg c.remove_c
        (plain_optarg (codes "module-name") argument privileged mode_exec
          (codes "module name ex:ietf-vrrp"))
        c.name_o
    ∷ optarg c.remove_c
        (plain_optarg (codes "force") optional_flag privileged mode_exec
          (codes "If there are other installed modules depending on module_name, remove them, too"))
        c.force_o
    ∷ []

-- `struct cli_ctx_data` behind `default_commands_init`
abbrev pub known_of : DefaultIds → CtxData
known_of c = record {
  no_cmd = c.no_cmd;
  show_conf_cand_cmd = c.config_candidate;
  show_conf_running_cmd = c.config_running;
  show_conf_startup_cmd = c.config_startup;
  show_operational_data = c.show_oper;
}
