-- ===== src/YUtils/Identity/Help.antt =====
-- The help text of an identityref fits its buffer, and lists what the completion offers.
use mathlib.Core.List.{foldl, foldl-append, append_assoc, append-nil}
use onm_cli.Base.{
  ◌⊎◌, inl, inr, ℕ, ◌+◌, ◌≤◌, ◌≡◌, refl, sym, ap, ◌∙◌, Bool, Option, some, List, [], ◌∷◌, ◌++◌,
  arith, Str, codes, length, length-append, keep, keep-append, Bool-cases, inl, inr,
}
use onm_cli.Cli.{CliCode}
use onm_cli.Schema.{Idents, nil, ident}
use onm_cli.YUtils.Identity.{
  id_str, calculate_identities_length, add_identities_recursive, bases_length, add_bases, written,
  creat_help_for_identity_type, offers, offer, identityref_add_comphelp, bases_add_comphelp,
}

-- The identities below an array, in the order of the walk.
abbrev pub descendants : Idents → List Str
descendants nil = []
descendants (ident module_name name derived next) =
    id_str module_name name ∷ (descendants derived ++ descendants next)

abbrev pub below_bases : Idents → List Str
below_bases nil = []
below_bases (ident module_name name derived next) = descendants derived ++ below_bases next

-- One line of the help text.
abbrev pub option_line : Str → Str
option_line entry = codes " [+] " ++ (entry ++ codes "\n")

abbrev pub option_lines : List Str → Str
option_lines [] = []
option_lines (entry ∷ entries) = option_line entry ++ option_lines entries

option_lines-append :
    (xs ys : List Str) → option_lines (xs ++ ys) ≡ option_lines xs ++ option_lines ys
option_lines-append [] ys = refl
option_lines-append (x ∷ xs) ys =
    rw (option_lines-append xs ys)
      (sym (append_assoc (option_line x) (option_lines xs) (option_lines ys)))

add_identities-lines :
    (ids : Idents) (help : Str)
    → add_identities_recursive ids help ≡ help ++ option_lines (descendants ids)
unfolding add_identities_recursive
add_identities-lines nil help = sym (append-nil help)
add_identities-lines (ident m n derived next) help =
    simp
      (add_identities-lines next, add_identities-lines derived, option_lines-append, append_assoc)

add_bases-lines :
    (ids : Idents) (help : Str) → add_bases ids help ≡ help ++ option_lines (below_bases ids)
unfolding add_bases
add_bases-lines nil help = sym (append-nil help)
add_bases-lines (ident m n derived next) help =
    simp (add_bases-lines next, add_identities-lines derived, option_lines-append, append_assoc)

length-option_line :
    (m n rest : Str)
    → length (option_line (id_str m n) ++ rest) ≡ length m + length n + 7 + length rest
length-option_line m n rest = omega (
  arith,
  length-append (id_str m n ++ codes "\n") rest,
  length-append (id_str m n) (codes "\n"),
  length-append m (b':' ∷ n),
)

length-option_lines :
    (ids : Idents) → length (option_lines (descendants ids)) ≡ calculate_identities_length ids
unfolding calculate_identities_length
length-option_lines nil = refl
length-option_lines (ident m n derived next) =
    rw (option_lines-append (descendants derived) (descendants next)) (
      omega (
        arith,
        length-option_line m n
            (option_lines (descendants derived) ++ option_lines (descendants next)),
        length-append (option_lines (descendants derived)) (option_lines (descendants next)),
        length-option_lines derived,
        length-option_lines next,
      ))

-- The number of bytes that the sizes of the bases themselves add.
abbrev pub base_slack : Idents → ℕ
base_slack nil = 0
base_slack (ident m n derived next) = 6 + length m + length n + base_slack next

length-below_bases :
    (ids : Idents) → length (option_lines (below_bases ids)) + base_slack ids ≡ bases_length ids
unfolding bases_length
length-below_bases nil = refl
length-below_bases (ident m n derived next) =
    rw (option_lines-append (descendants derived) (below_bases next)) (
      omega (
        arith,
        length-append (option_lines (descendants derived)) (option_lines (below_bases next)),
        length-option_lines derived,
        length-below_bases next,
      ))

creat_help-written :
    (malloc : ℕ → Bool) (dsc : Str) (bases : Idents) (help_len : ℕ) (help : Str)
    → creat_help_for_identity_type malloc (some dsc) bases ≡ written help_len help
    → (help_len ≡ length dsc + 19 + bases_length bases)
      × (help ≡ add_bases bases (dsc ++ codes "\nAvailable options:\n"))
unfolding creat_help_for_identity_type
creat_help-written malloc dsc bases help_len help e = ground arith

length-help :
    (dsc : Str) (bases : Idents)
    → length (add_bases bases (dsc ++ codes "\nAvailable options:\n")) + base_slack bases
      ≡ length dsc + 20 + bases_length bases
length-help dsc bases = rw (add_bases-lines bases) (
    omega (
      arith,
      length-append (dsc ++ codes "\nAvailable options:\n") (option_lines (below_bases bases)),
      length-append dsc (codes "\nAvailable options:\n"),
      length-below_bases bases,
    ))

-- With its NUL the help text, and what the size of the buffer counts for each base, which the text
-- does not list, take two bytes more than the buffer has. So the text fits, whatever the memory and
-- the identities, unless the type has no base: then it overruns the buffer by two bytes.
pub creat_help-fits :
    (malloc : ℕ → Bool) (dsc : Str) (bases : Idents) (help_len : ℕ) (help : Str)
    → creat_help_for_identity_type malloc (some dsc) bases ≡ written help_len help
    → (length help + 1 + base_slack bases ≡ help_len + 2)
      × ((length help + 1 ≤ help_len) ⊎ ((bases ≡ nil) × (length help + 1 ≡ help_len + 2)))
creat_help-fits malloc dsc bases help_len help e = (exact, fits bases exact)
  where
    exact : length help + 1 + base_slack bases ≡ help_len + 2
    exact =
        let (size, text) = creat_help-written malloc dsc bases help_len help e in
        omega (arith, size, ap length text, length-help dsc bases)

    fits :
        (ids : Idents)
        → length help + 1 + base_slack ids ≡ help_len + 2
        → (length help + 1 ≤ help_len) ⊎ ((ids ≡ nil) × (length help + 1 ≡ help_len + 2))
    fits nil is = inr (refl, omega (arith, is))
    fits (ident m n derived next) is = inl (omega (arith, is))

module _ {C : Type 0} (add : C → Str → CliCode × C) (word : Option Str) where
  abbrev pub collect : C → List Str → C
  collect = foldl (λ c entry. (add c entry).1)

  collect-keep_append :
      (xs ys : List Str) (c : C)
      → collect c (keep (offers word) (xs ++ ys))
        ≡ collect (collect c (keep (offers word) xs)) (keep (offers word) ys)
  collect-keep_append xs ys c =
      rw (keep-append (offers word) xs ys) (
        foldl-append (λ c entry. (add c entry).1) c (keep (offers word) xs) (keep (offers word) ys))

  offer-keep :
      (entry : Str) (xs : List Str) (c : C)
      → collect c (keep (offers word) (entry ∷ xs))
        ≡ collect (offer add word c entry) (keep (offers word) xs)
  offer-keep entry xs c = elim (Bool-cases (offers word entry)) [
    | inl e ↦ rw (e, keep) refl
    | inr e ↦ rw (e, keep) refl
  ]

  identityref-collect :
      (ids : Idents) (c : C)
      → identityref_add_comphelp add ids word c ≡ collect c (keep (offers word) (descendants ids))
  unfolding identityref_add_comphelp
  identityref-collect nil c = refl
  identityref-collect (ident m n derived next) c = rw (
    offer-keep (id_str m n) (descendants derived ++ descendants next) c,
    collect-keep_append (descendants derived) (descendants next),
    identityref-collect derived,
    identityref-collect next,
  )

  bases-collect :
      (ids : Idents) (c : C)
      → bases_add_comphelp add ids word c ≡ collect c (keep (offers word) (below_bases ids))
  unfolding bases_add_comphelp
  bases-collect nil c = refl
  bases-collect (ident m n derived next) c = rw (
    collect-keep_append (descendants derived) (below_bases next),
    identityref-collect derived,
    bases-collect next,
  )

-- One list stands behind the help text and the completions of an identityref: the help text is the
-- description, a head and one line for each identity below a base, in the order of the walk, and
-- the completion adds those of the same list that begin with the word, in the same order.
pub creat_help-offers :
    (malloc : ℕ → Bool) (dsc : Str) (bases : Idents) (help_len : ℕ) (help : Str) {C : Type 0}
    (add : C → Str → CliCode × C) (word : Option Str) (comphelp : C)
    → creat_help_for_identity_type malloc (some dsc) bases ≡ written help_len help
    → (help ≡ (dsc ++ codes "\nAvailable options:\n") ++ option_lines (below_bases bases))
      × (bases_add_comphelp add bases word comphelp
          ≡ collect add word comphelp (keep (offers word) (below_bases bases)))
creat_help-offers malloc dsc bases help_len help add word comphelp e = (
  (creat_help-written malloc dsc bases help_len help e).1
      ∙ add_bases-lines bases (dsc ++ codes "\nAvailable options:\n"),
  bases-collect add word bases comphelp,
)
