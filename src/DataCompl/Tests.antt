-- ===== src/DataCompl/Tests.antt =====
-- The theorems on data_cmd_compl.c for a list of completions that takes every option.
use onm_cli.Base.{some, List, [], ◌∷◌, Str, codes, keep}
use onm_cli.Cli.{CliCode, cli_ok}
use onm_cli.DataCompl.{offers, add_options}
use onm_cli.DataCompl.Offers.{Outcome, add_options-Outcome}

abbrev take_all : List Str → Str → CliCode × List Str
take_all comphelp option = (cli_ok, option ∷ comphelp)

abbrev options : List Str
options = codes "true" ∷ codes "false" ∷ []

add_options-Outcome_example :
    Outcome take_all []
      (keep (offers (some (codes "t"))) options)
      (add_options take_all (some (codes "t")) options [])
add_options-Outcome_example = add_options-Outcome take_all (some (codes "t")) options []
