-- ===== src/YUtils/Predicate/Unique.antt =====
-- Different list entries have different predicates.
use mathlib.Core.List.{append_assoc}
use onm_cli.Base.{
  ◌≡◌, ◌≢◌, refl, sym, ap, ◌∙◌, true, Option, none, some, List, [], ◌∷◌, ◌++◌, arith, Str, All, inl,
  inr, Bool-cases, Option-cases,
}
use onm_cli.Schema.{Info}
use onm_cli.YUtils.Predicate.{Buffer, create_list_predicate_from_optargs}
use onm_cli.YUtils.Predicate.Text.{
  key_clause, put_before, filled, clauses, clauses-key, clauses-missing, clauses-other,
  create_list_predicate-clauses,
}

-- A value with no apostrophe in it.
abbrev pub IsUnquoted : Str → Type 0
IsUnquoted = All (λ c. c ≢ 39)

-- The arguments of the keys hold no apostrophe.
abbrev pub IsPlain : (Str → Option Str) → List Info → Type 0
IsPlain optarg children =
    All (λ (child : Info). (value : Str) → optarg child.name ≡ some value → IsUnquoted value)
      children

cut_at_quote :
    (v w r s : Str)
    → IsUnquoted v
    → IsUnquoted w
    → v ++ (39 ∷ r) ≡ w ++ (39 ∷ s)
    → (v ≡ w) × (r ≡ s)
cut_at_quote [] [] r s hv hw e = (refl, cc)
cut_at_quote [] (d ∷ w) r s hv (hd, hw) e = absurd (hd (cc))
cut_at_quote (c ∷ v) [] r s (hc, hv) hw e = absurd (hc (cc))
cut_at_quote (c ∷ v) (d ∷ w) r s (hc, hv) (hd, hw) e =
    let (p, q) = cut_at_quote v w r s hv hw (cc) in (cc (p), q)

append_cancel : (n x y : Str) → n ++ x ≡ n ++ y → x ≡ y
append_cancel [] x y e = e
append_cancel (c ∷ n) x y e = append_cancel n x y (cc)

key_clause-append :
    (name value rest : Str)
    → key_clause name value ++ rest ≡ b'[' ∷ (name ++ (b'=' ∷ 39 ∷ (value ++ (39 ∷ b']' ∷ rest))))
key_clause-append name value rest =
    ap (λ (t : Str). b'[' ∷ t)
      (append_assoc name (b'=' ∷ 39 ∷ (value ++ (39 ∷ b']' ∷ []))) rest
        ∙ ap (λ (t : Str). name ++ (b'=' ∷ 39 ∷ t)) (append_assoc value (39 ∷ b']' ∷ []) rest))

key_clause-injective :
    (name v w r s : Str)
    → IsUnquoted v
    → IsUnquoted w
    → key_clause name v ++ r ≡ key_clause name w ++ s
    → (v ≡ w) × (r ≡ s)
key_clause-injective name v w r s hv hw e =
    let same = sym (key_clause-append name v r) ∙ e ∙ key_clause-append name w s in
    let (p, q) =
      cut_at_quote v w (b']' ∷ r) (b']' ∷ s) hv hw
        (quoted (append_cancel name _ _ (opened same))) in
    (p, tail_eq q)
  where
    opened : {x y : Str} → ◌≡◌ {A = Str} (b'[' ∷ x) (b'[' ∷ y) → x ≡ y
    opened e = cc

    quoted : {x y : Str} → ◌≡◌ {A = Str} (b'=' ∷ 39 ∷ x) (b'=' ∷ 39 ∷ y) → x ≡ y
    quoted e = cc

    tail_eq : {x y : Str} → ◌≡◌ {A = Str} (b']' ∷ x) (b']' ∷ y) → x ≡ y
    tail_eq e = cc

module _ (optarg : Str → Option Str) where
  put_before_eq :
      (clause t : Str) (rest : Option Str)
      → put_before clause rest ≡ some t
      → (r : Str) × (rest ≡ some r) × (clause ++ r ≡ t)
  put_before_eq clause t none e = cc
  put_before_eq clause t (some r) e = (r, refl, cc)

  clauses_inv :
      (child : Info) (next : List Info) (t : Str)
      → child.is_key ≡ true
      → clauses optarg (child ∷ next) ≡ some t
      → (value rest : Str) × (optarg child.name ≡ some value)
        × (clauses optarg next ≡ some rest)
        × (key_clause child.name value ++ rest ≡ t)
  clauses_inv child next t k e = elim (Option-cases (optarg child.name)) [
    | inl o ↦ absurd (cc (clauses-missing optarg child next k o))
    | inr (value, o) ↦
        let (r, n, same) =
          put_before_eq (key_clause child.name value) t (clauses optarg next)
            (sym (clauses-key optarg child next value k o) ∙ e) in
        (value, r, o, n, same)
  ]

clauses_unique :
    (o p : Str → Option Str) (children : List Info) (t : Str)
    → IsPlain o children
    → IsPlain p children
    → clauses o children ≡ some t
    → clauses p children ≡ some t
    → All (λ (child : Info). child.is_key ≡ true → o child.name ≡ p child.name) children
clauses_unique o p [] t ho hp e f = tt
clauses_unique o p (child ∷ next) t (oc, ho) (pc, hp) e f = elim (Bool-cases child.is_key) [
  | inr k ↦ (
    λ key. absurd (cc),
    clauses_unique o p next t ho hp (sym (clauses-other o child next k) ∙ e)
        (sym (clauses-other p child next k) ∙ f),
  )
  | inl k ↦
      let (v, r, ov, nr, same_o) = clauses_inv o child next t k e in
      let (w, s, pw, ns, same_p) = clauses_inv p child next t k f in
      let (vw, rs) =
        key_clause-injective child.name v w r s (oc v ov) (pc w pw) (same_o ∙ sym same_p) in
      (λ _. cc, clauses_unique o p next r ho hp nr (ns ∙ ap some (sym rs)))
]

-- Two commands for entries of one list that get the same predicate, whatever its buffer, give the
-- same arguments to every key, if no argument of a key holds an apostrophe: different entries are
-- never taken for one another.
pub create_list_predicate_unique :
    (o p : Str → Option Str) (children : List Info) (a b : Buffer)
    → IsPlain o children
    → IsPlain p children
    → create_list_predicate_from_optargs o children ≡ some a
    → create_list_predicate_from_optargs p children ≡ some b
    → a.text ≡ b.text
    → All (λ (child : Info). child.is_key ≡ true → o child.name ≡ p child.name) children
create_list_predicate_unique o p children a b ho hp e f same =
    clauses_unique o p children a.text ho hp (text_of o a e) (text_of p b f ∙ ap some (sym same))
  where
    filled_eq : (t : Option Str) (a : Buffer) → filled [] t ≡ some a → t ≡ some a.text
    filled_eq none a e = cc
    filled_eq (some t) a e = ground arith

    text_of :
        (q : Str → Option Str) (a : Buffer)
        → create_list_predicate_from_optargs q children ≡ some a
        → clauses q children ≡ some a.text
    text_of q a e =
        filled_eq (clauses q children) a (sym (create_list_predicate-clauses q children) ∙ e)
