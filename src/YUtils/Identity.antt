-- ===== src/YUtils/Identity.antt =====
-- y_utils.c: the help text of an identityref leaf, and its buffer's size. data_cmd_compl.c: the
-- completions of such a leaf. `malloc` and `cli_add_comphelp_entry` are parameters.
pub mod Help
use onm_cli.Base.{
  ℕ, ◌+◌, Bool, true, Option, none, some, ◌∷◌, ◌++◌, Str, codes, length, starts_with, if◌then◌else◌,
}
use onm_cli.Cli.{CliCode}
use onm_cli.Schema.{Idents, nil, ident}

-- `sprintf(id_str, "%s:%s", module, name)`
abbrev pub id_str : Str → Str → Str
id_str module_name name = module_name ++ b':' ∷ name

-- The sum over an array `derived`, each entry with its own.
unfoldable pub calculate_identities_length : Idents → ℕ
calculate_identities_length nil = 0
calculate_identities_length (ident module_name name derived next) =
    length (codes " [+] ")
    + length module_name
    + length name
    + 2
    + calculate_identities_length derived
    + calculate_identities_length next

unfoldable pub add_identities_recursive : Idents → Str → Str
add_identities_recursive nil help = help
add_identities_recursive (ident module_name name derived next) help =
    add_identities_recursive next (
      add_identities_recursive derived
        (((help ++ codes " [+] ") ++ id_str module_name name) ++ codes "\n"))

-- The two loops of `creat_help_for_identity_type` over the bases.
unfoldable pub bases_length : Idents → ℕ
unfolding calculate_identities_length
bases_length nil = 0
bases_length (ident module_name name derived next) =
    length (codes "[+] ")
    + length module_name
    + length name
    + 2
    + calculate_identities_length derived
    + bases_length next

unfoldable pub add_bases : Idents → Str → Str
unfolding add_identities_recursive
add_bases nil help = help
add_bases (ident module_name name derived next) help =
    add_bases next (add_identities_recursive derived help)

-- The buffer and the text in it; `no_description` is the fault of `strlen(NULL)`.
pub data HelpText : Type 0 where
  no_description : HelpText
  no_memory : HelpText
  written : (help_len : ℕ) (help : Str) → HelpText

module _ (malloc : ℕ → Bool) where
  unfoldable pub creat_help_for_identity_type : Option Str → Idents → HelpText
  unfolding bases_length add_bases
  creat_help_for_identity_type none bases = no_description
  creat_help_for_identity_type (some dsc) bases =
      let help_len = length dsc + length (codes "Available options:\n") + bases_length bases in
      if malloc help_len
      then written help_len (add_bases bases (dsc ++ codes "\nAvailable options:\n"))
      else no_memory

-- `!word || !strncmp(entry, word, strlen(word))`
abbrev pub offers : Option Str → Str → Bool
offers none entry = true
offers (some word) entry = starts_with entry word

module _ {C : Type 0} (add : C → Str → CliCode × C) where
  abbrev pub offer : Option Str → C → Str → C
  offer word comphelp entry = if offers word entry then (add comphelp entry).1 else comphelp

  unfoldable pub identityref_add_comphelp : Idents → Option Str → C → C
  identityref_add_comphelp nil word comphelp = comphelp
  identityref_add_comphelp (ident module_name name derived next) word comphelp =
      identityref_add_comphelp next word
        (identityref_add_comphelp derived word (offer word comphelp (id_str module_name name)))

  -- The loop of `core_optagr_get_compl` over the bases of an identityref.
  unfoldable pub bases_add_comphelp : Idents → Option Str → C → C
  unfolding identityref_add_comphelp
  bases_add_comphelp nil word comphelp = comphelp
  bases_add_comphelp (ident module_name name derived next) word comphelp =
      bases_add_comphelp next word (identityref_add_comphelp derived word comphelp)
