-- ===== src/Register/Start.antt =====
-- What is registered when the program starts: `default_commands_init` of src/commands/default_cmd.c,
-- `yang_cmd_loader_init` of src/commands/sysrepo_cmd.c, and `onm_cli_init` of src/onm_cli.c.
pub mod Calls
pub mod Known
use onm_cli.Base.{ℕ, ◌≡◌, true, is_some, false, Option, none, some, Str, codes}
use onm_cli.Register.{
  Handler, exit2, commit, discard_changes, no_command, show_config_candidate, show_config_running,
  show_config_startup, sysrepo_set_path, sysrepo_list, sysrepo_load, sysrepo_install,
  sysrepo_remove, Privilege, unprivileged, privileged, mode_any, mode_exec, optional_flag,
  optional_argument, argument, Optarg, Libcli, R, pure, ◌>>=◌, cli_register_command,
  cli_register_optarg, CtxData,
}

-- An argument with no completion and no validator.
abbrev pub plain_optarg : Str → ℕ → Privilege → ℕ → Str → Optarg
plain_optarg name flags privilege mode help = record {
  name = name;
  flags = flags;
  privilege = privilege;
  mode = mode;
  help = some help;
  completion = none;
  validated = false;
}

-- The commands that `struct cli_ctx_data` holds are there.
abbrev pub HasAll : CtxData → Type 0
HasAll ctx =
    (is_some ctx.no_cmd ≡ true)
    × (is_some ctx.show_conf_cand_cmd ≡ true)
    × (is_some ctx.show_conf_running_cmd ≡ true)
    × (is_some ctx.show_conf_startup_cmd ≡ true)
    × (is_some ctx.show_operational_data ≡ true)

module _ {W : Type 0} (lib : Libcli W) where
  -- A command without a model.
  abbrev pub plain_command :
      Privilege → ℕ → Option ℕ → Str → Option Handler → Option Str → Str → R W (Option ℕ)
  plain_command privilege mode parent name callback hash help = cli_register_command lib (record {
    parent = parent;
    model = none;
    command = name;
    callback = callback;
    privilege = privilege;
    mode = mode;
    command_hash = hash;
    help = help;
  })

  unfoldable pub default_commands_init : R W ℕ
  unfolding cli_register_command cli_register_optarg
  default_commands_init = do
    exit_c ←
        plain_command unprivileged mode_any none (codes "exit") (some exit2) none
          (codes "exit to prev mode")
    commit_c ←
        plain_command unprivileged mode_any none (codes "commit") (some commit) none
          (codes "commit changes to sysrepo cdb")
    show ←
        plain_command unprivileged mode_any none (codes "show") none none
          (codes "print the candidate/running config")
    config_candidate ←
        plain_command unprivileged mode_any show (codes "config-candidate")
          (some show_config_candidate) (some (codes "config-candidate"))
          (codes "show the candidate configurations")
    config_running ←
        plain_command unprivileged mode_any show (codes "config-running") (some show_config_running)
          (some (codes "config-running")) (codes "show the running configurations")
    config_startup ←
        plain_command unprivileged mode_any show (codes "config-startup") (some show_config_startup)
          none (codes "show the startup configurations")
    show_oper ←
        plain_command unprivileged mode_any show (codes "operational-data")
          (some show_config_startup) none (codes "show the operational data")
    format ← cli_register_optarg lib config_candidate (
        plain_optarg (codes "format") optional_argument unprivileged mode_any
          (codes "printed format [json|xml]."))
    discard ←
        plain_command unprivileged mode_any none (codes "discard-changes") (some discard_changes)
          none (codes "discard all current changes")
    no_cmd ←
        plain_command unprivileged mode_any none (codes "no") (some no_command) none
          (codes "delete configs")
    (λ s. some (
      0,
      record s {
        ctx = record {
          no_cmd = no_cmd;
          show_conf_cand_cmd = config_candidate;
          show_conf_running_cmd = config_running;
          show_conf_startup_cmd = config_startup;
          show_operational_data = show_oper;
        };
      },
    ))

  unfoldable pub yang_cmd_loader_init : R W ℕ
  unfolding cli_register_command cli_register_optarg
  yang_cmd_loader_init = do
    sysrepo_cmd ←
        plain_command privileged mode_exec none (codes "sysrepo") none none
          (codes "sysrepo commands")
    set_path ←
        plain_command privileged mode_exec sysrepo_cmd (codes "set-module-path")
          (some sysrepo_set_path) none (codes "set yang modules path search to install in sysrepo")
    o ← cli_register_optarg lib set_path (
        plain_optarg (codes "absolute-path") argument privileged mode_exec
          (codes "full absolute path to yang modules"))
    list_c ←
        plain_command privileged mode_exec sysrepo_cmd (codes "list-modules") (some sysrepo_list)
          none (codes "list all sysrepo yang modules")
    load_c ←
        plain_command privileged mode_exec sysrepo_cmd (codes "load-modules") (some sysrepo_load)
          none (codes "load all yang modules from sysrepo and generate the cmds.")
    install_c ←
        plain_command privileged mode_exec sysrepo_cmd (codes "install-module")
          (some sysrepo_install) none (codes "install yang module in sysrepo")
    file_o ← cli_register_optarg lib install_c (
        plain_optarg (codes "module-file") argument privileged mode_exec
          (codes "module yang file .yang"))
    remove_c ←
        plain_command privileged mode_exec sysrepo_cmd (codes "remove-module") (some sysrepo_remove)
          none (codes "remove yang module from sysrepo")
    name_o ← cli_register_optarg lib remove_c (
        plain_optarg (codes "module-name") argument privileged mode_exec
          (codes "module name ex:ietf-vrrp"))
    force_o ← cli_register_optarg lib remove_c (
        plain_optarg (codes "force") optional_flag privileged mode_exec
          (codes "If there are other installed modules depending on module_name, remove them, too"))
    pure 0

  -- What `onm_cli_init` registers; the banner, the host name and the timeout are settings of libcli.
  unfoldable pub onm_cli_init : R W ℕ
  unfolding default_commands_init yang_cmd_loader_init
  onm_cli_init = do ret ← default_commands_init; ret' ← yang_cmd_loader_init; pure 0
