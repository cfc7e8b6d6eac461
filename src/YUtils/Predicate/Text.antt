-- ===== src/YUtils/Predicate/Text.antt =====
-- The text of a list predicate, and the size of its buffer.
use mathlib.Core.List.{append_assoc, append-nil}
use onm_cli.Base.{
  ◌+◌, ◌≡◌, refl, sym, ap, ◌∙◌, true, false, Option, none, some, List, [], ◌∷◌, ◌++◌, arith, Str,
  length, length-append, inl, inr, Bool-cases, Option-cases,
}
use onm_cli.Schema.{Info}
use onm_cli.YUtils.Predicate.{Buffer, append_key, append_keys, create_list_predicate_from_optargs}

-- `[name='value']`
abbrev pub key_clause : Str → Str → Str
key_clause name value = b'[' ∷ (name ++ (b'=' ∷ 39 ∷ (value ++ (39 ∷ b']' ∷ []))))

abbrev pub put_before : Str → Option Str → Option Str
put_before clause none = none
put_before clause (some rest) = some (clause ++ rest)

-- A buffer that holds `before` and then the clauses, and has room for their NUL and no more.
abbrev pub filled : Str → Option Str → Option Buffer
filled before none = none
filled before (some text) =
    some (record { size = length (before ++ text) + 1; text = before ++ text })

filled-put_before :
    (before clause : Str) (rest : Option Str)
    → filled (before ++ clause) rest ≡ filled before (put_before clause rest)
filled-put_before before clause none = refl
filled-put_before before clause (some rest) = rw (append_assoc before clause rest)

length-key_clause :
    (name value : Str) → length (key_clause name value) ≡ length name + length value + 5
length-key_clause name value = omega (
  arith,
  length-append name (b'=' ∷ 39 ∷ (value ++ (39 ∷ b']' ∷ []))),
  length-append value (39 ∷ b']' ∷ []),
)

module _ (optarg : Str → Option Str) where
  -- The clauses of the keys in the order of the schema; `none` if a key has no argument.
  abbrev pub clauses : List Info → Option Str
  clauses [] = some []
  clauses (child ∷ next) = elim child.is_key [
    | false ↦ clauses next
    | true ↦ elim (optarg child.name) [
      | none ↦ none
      | some value ↦ put_before (key_clause child.name value) (clauses next)
    ]
  ]

  append_key-text :
      (p : Buffer) (name value : Str)
      → (append_key optarg p name value).text ≡ p.text ++ key_clause name value
  unfolding append_key
  append_key-text p name value = rw (append_assoc, append_assoc, append_assoc, append_assoc)

  append_key-size :
      (p : Buffer) (name value : Str)
      → (append_key optarg p name value).size ≡ length (append_key optarg p name value).text + 1
  append_key-size p name value = rw (append_key-text p name value) (
      unfold append_key in
      omega (arith, length-append p.text (key_clause name value), length-key_clause name value))

  append_keys-key :
      (child : Info) (next : List Info) (p : Buffer) (value : Str)
      → child.is_key ≡ true
      → optarg child.name ≡ some value
      → append_keys optarg (child ∷ next) p
        ≡ append_keys optarg next (append_key optarg p child.name value)
  unfolding append_keys
  append_keys-key child next p value k o = ground arith

  pub clauses-key :
      (child : Info) (next : List Info) (value : Str)
      → child.is_key ≡ true
      → optarg child.name ≡ some value
      → clauses (child ∷ next) ≡ put_before (key_clause child.name value) (clauses next)
  clauses-key child next value k o = ground arith

  pub clauses-missing :
      (child : Info) (next : List Info)
      → child.is_key ≡ true
      → optarg child.name ≡ none
      → clauses (child ∷ next) ≡ none
  clauses-missing child next k o = ground arith

  pub clauses-other :
      (child : Info) (next : List Info)
      → child.is_key ≡ false
      → clauses (child ∷ next) ≡ clauses next
  clauses-other child next k = ground arith

  append_keys-missing :
      (child : Info) (next : List Info) (p : Buffer)
      → child.is_key ≡ true
      → optarg child.name ≡ none
      → append_keys optarg (child ∷ next) p ≡ none
  unfolding append_keys
  append_keys-missing child next p k o = ground arith

  append_keys-other :
      (child : Info) (next : List Info) (p : Buffer)
      → child.is_key ≡ false
      → append_keys optarg (child ∷ next) p ≡ append_keys optarg next p
  unfolding append_keys
  append_keys-other child next p k = ground arith

  append_keys-clauses :
      (children : List Info) (p : Buffer)
      → p.size ≡ length p.text + 1
      → append_keys optarg children p ≡ filled p.text (clauses children)
  unfolding append_keys
  append_keys-clauses [] p fit =
      rw (append-nil p.text) (λ i. some (record { size = fit i; text = p.text }))
  append_keys-clauses (child ∷ next) p fit = elim (Bool-cases child.is_key) [
    | inr k ↦
        append_keys-other child next p k
        ∙ append_keys-clauses next p fit
        ∙ ap (filled p.text) (sym (clauses-other child next k))
    | inl k ↦ elim (Option-cases (optarg child.name)) [
      | inl o ↦
          append_keys-missing child next p k o
          ∙ ap (filled p.text) (sym (clauses-missing child next k o))
      | inr (value, o) ↦
          append_keys-key child next p value k o
          ∙ append_keys-clauses next (append_key optarg p child.name value)
              (append_key-size p child.name value)
          ∙ ap (λ t. filled t (clauses next)) (append_key-text p child.name value)
          ∙ filled-put_before p.text (key_clause child.name value) (clauses next)
          ∙ ap (filled p.text) (sym (clauses-key child next value k o))
    ]
  ]

  -- The predicate is the clauses `[name='value']` of the keys in the order of the schema, in a
  -- buffer that has room for them and their NUL and no more; the call faults exactly when a key has
  -- no argument.
  pub create_list_predicate-clauses :
      (children : List Info)
      → create_list_predicate_from_optargs optarg children ≡ filled [] (clauses children)
  unfolding create_list_predicate_from_optargs
  create_list_predicate-clauses children =
      append_keys-clauses children (record { size = 1; text = [] }) (omega arith)
