-- ===== src/DataCompl/Offers.antt =====
-- data_cmd_compl.c: what the loop over the options adds to the completions.
use onm_cli.Base.{
  ◌≡◌, ◌≢◌, refl, ap, ◌⊎◌, inl, inr, true, false, Option, List, [], ◌∷◌, ◌++◌, arith, Str, keep,
  Bool-cases,
}
use onm_cli.Cli.{CliCode, cli_ok}
use onm_cli.YUtils.Identity.{offers}
use onm_cli.DataCompl.{is_ok, add_options}

is_ok→≡ : (code : CliCode) → is_ok code ≡ true → code ≡ cli_ok
is_ok→≡ code h = ground arith

not_ok→≢ : (code : CliCode) → is_ok code ≡ false → code ≢ cli_ok
not_ok→≢ code h e = ground arith

module _ {C : Type 0} (add : C → Str → CliCode × C) where
  -- All of a list is added, with success, one after the other.
  abbrev pub Adds : C → List Str → C → Type 0
  Adds comphelp [] c = c ≡ comphelp
  Adds comphelp (option ∷ next) c =
      ((add comphelp option).0 ≡ cli_ok) × Adds (add comphelp option).1 next c

  -- How far the loop gets with the options that are offered.
  abbrev pub Outcome : C → List Str → CliCode × C → Type 0
  Outcome comphelp offered r =
      ((r.0 ≡ cli_ok) × Adds comphelp offered r.1)
      ⊎ ((added : List Str) × (option : Str) × (rest : List Str) × (c : C) × (offered
            ≡ added ++ option ∷ rest)
          × Adds comphelp added c
          × (r ≡ add c option)
          × (r.0 ≢ cli_ok))

  Outcome-cons :
      (comphelp : C) (option : Str) (offered : List Str) (r : CliCode × C)
      → (add comphelp option).0 ≡ cli_ok
      → Outcome (add comphelp option).1 offered r
      → Outcome comphelp (option ∷ offered) r
  Outcome-cons comphelp option offered r good (inl (done, all)) = inl (done, (good, all))
  Outcome-cons comphelp option offered r good (inr (added, o, rest, c, e, all, same, bad)) =
      inr (option ∷ added, o, rest, c, ap (λ (l : List Str). option ∷ l) e, (good, all), same, bad)

  -- The loop adds the options that begin with the word, all if there is no word, in their order. It
  -- ends at the first that libcli cannot add, and returns the code of that; if there is none, it has
  -- added all and returns CLI_OK.
  pub add_options-Outcome :
      (word : Option Str) (options : List Str) (comphelp : C)
      → Outcome comphelp (keep (offers word) options) (add_options add word options comphelp)
  unfolding add_options
  add_options-Outcome word [] comphelp = inl (refl, refl)
  add_options-Outcome word (option ∷ next) comphelp = elim (Bool-cases (offers word option)) [
    | inr skipped ↦ rw (skipped, keep) (add_options-Outcome word next comphelp)
    | inl offered ↦ elim (Bool-cases (is_ok (add comphelp option).0)) [
      | inl good ↦
          rw (offered, keep, good)
            (Outcome-cons comphelp option (keep (offers word) next) _
              (is_ok→≡ (add comphelp option).0 good)
              (add_options-Outcome word next (add comphelp option).1))
      | inr bad ↦
          rw (offered, keep, bad)
            (inr (
              [],
              option,
              keep (offers word) next,
              comphelp,
              refl,
              refl,
              refl,
              not_ok→≢ (add comphelp option).0 bad,
            ))
    ]
  ]
