-- ===== src/Cli.antt =====
-- What the commands return to libcli and print through it.

-- The results of lib/libcli/libcli.h that the commands use.
pub data CliCode : Type 0 where
  cli_ok cli_error cli_quit cli_error_arg cli_missing_argument : CliCode
