-- ===== src/SysrepoCmd.antt =====
-- src/commands/sysrepo_cmd.c: the commands that set the module path and install or remove a module. The
-- values of the arguments are given: libcli does not run a command without those it requires.
pub mod Modules
mod Tests
use onm_cli.Base.{ℕ, Option, none, some, Str, ◌==◌, if◌then◌else◌}
use onm_cli.Cli.{CliCode, cli_ok, cli_error}
use onm_cli.Env.{Env}
use onm_cli.State.{M, pure, ◌>>=◌, ◌>>◌}
use onm_cli.Sysrepo.{exit_success, sysrepo_set_module_path, sysrepo_insmod, sysrepo_rmmod}

abbrev pub code_of : ℕ → CliCode
code_of ret = if ret == exit_success then cli_ok else cli_error

abbrev pub is_given : Option Str → ℕ
is_given none = 0
is_given (some _) = 1

module _ (env : Env) where
  open env use {World}

  -- `last` is the byte that the allocation holds behind the copied path.
  unfoldable pub cmd_sysrepo_set_module_path : ℕ → Str → M World CliCode
  unfolding sysrepo_set_module_path
  cmd_sysrepo_set_module_path last path = do sysrepo_set_module_path env last path; pure cli_ok

  unfoldable pub cmd_sysrepo_install_module : Str → M World CliCode
  unfolding sysrepo_insmod
  cmd_sysrepo_install_module file = do ret ← sysrepo_insmod env file; pure (code_of ret)

  unfoldable pub cmd_sysrepo_remove_module : Str → Option Str → M World CliCode
  unfolding sysrepo_rmmod
  cmd_sysrepo_remove_module file force = do
    ret ← sysrepo_rmmod env file (is_given force)
    pure (code_of ret)
