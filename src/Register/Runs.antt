-- ===== src/Register/Runs.antt =====
-- Functions that register commands and return: rules for the calls that they make.
use onm_cli.Base.{
  ℕ, ◌≡◌, refl, sym, ap, ◌∙◌, subst, Bool, true, false, Option, some, List, [], ◌∷◌, ◌++◌, Str,
  length, ltb, is_some, if◌then◌else◌, All, All-append,
}
use mathlib.Core.List.{append_assoc, append-nil}
use onm_cli.Register.{
  Registration, Call, command, Libcli, IsAnswering, CtxData, Registry, R, pure, ◌>>=◌, gets,
  sprintf, cli_register_command,
}

-- Elements that are put behind a list one by one.
abbrev pub snocs : {A : Type 0} → List A → List A → List A
snocs xs [] = xs
snocs xs (y ∷ ys) = snocs (xs ++ y ∷ []) ys

pub snocs-append : {A : Type 0} (xs ys : List A) → snocs xs ys ≡ xs ++ ys
snocs-append xs [] = sym (append-nil xs)
snocs-append xs (y ∷ ys) = snocs-append (xs ++ y ∷ []) ys ∙ append_assoc xs (y ∷ []) ys

module _ {W : Type 0} (P : CtxData → Type 0) (Q : Call → Type 0) where
  -- From `s` the function returns, leaves the commands that the program knows alone, and makes calls of
  -- which `Q` holds.
  abbrev pub RunsAt : {A : Type 0} → (A → Type 0) → R W A → Registry W → Type 0
  RunsAt {A} Returns m s =
      (a : A) × (s' : Registry W) × (new : List Call) × (m s ≡ some (a, s'))
      × Returns a
      × (s'.ctx ≡ s.ctx)
      × (s'.calls ≡ s.calls ++ new)
      × All Q new

  -- It does so where `P` holds of the commands that the program knows.
  abbrev pub Runs : {A : Type 0} → (A → Type 0) → R W A → Type 0
  Runs Returns m = (s : Registry W) → P s.ctx → RunsAt Returns m s

  pub then-RunsAt :
      {A B : Type 0} (Second : B → Type 0) (m : R W A) (f : A → R W B) (s t : Registry W) (a : A)
      (new : List Call)
      → m s ≡ some (a, t)
      → t.ctx ≡ s.ctx
      → t.calls ≡ s.calls ++ new
      → All Q new
      → RunsAt Second (f a) t
      → RunsAt Second (m >>= f) s
  then-RunsAt Second m f s t a new run ctx calls all
        (b, u, more, run', second, ctx', calls', all') =
      (
        b,
        u,
        new ++ more,
        rw (run, ◌>>=◌) run',
        second,
        ctx' ∙ ctx,
        calls' ∙ ap (λ l. l ++ more) calls ∙ append_assoc s.calls new more,
        All-append Q new more all all',
      )

  pub pure-Runs : {A : Type 0} (Returns : A → Type 0) (a : A) → Returns a → Runs Returns (pure a)
  pure-Runs Returns a h s p = (a, s, [], refl, h, refl, sym (append-nil s.calls), tt)

  pub gets-Runs :
      {A : Type 0} (Returns : A → Type 0) (f : Registry W → A)
      → ((s : Registry W) → P s.ctx → Returns (f s))
      → Runs Returns (gets f)
  gets-Runs Returns f h s p = (f s, s, [], refl, h s p, refl, sym (append-nil s.calls), tt)

  pub bind-Runs :
      {A B : Type 0} (First : A → Type 0) (Second : B → Type 0) (m : R W A) (f : A → R W B)
      → Runs First m
      → ((a : A) → First a → Runs Second (f a))
      → Runs Second (m >>= f)
  bind-Runs First Second m f h k s p =
      let (a, t, new, run, first, ctx, calls, all) = h s p in
      then-RunsAt Second m f s t a new run ctx calls all (k a first t (subst P (sym ctx) p))

  pub sprintf-Runs :
      (size : ℕ) (text : Str)
      → ltb (length text) size ≡ true
      → Runs (λ t. t ≡ text) (sprintf size text)
  unfolding sprintf
  sprintf-Runs size text h s p = (text, s, [], rw h, refl, refl, sym (append-nil s.calls), tt)

  pub command-Runs :
      (lib : Libcli W) (r : Registration)
      → IsAnswering lib
      → ((c : Option ℕ) → Q (command r c))
      → Runs (λ c. is_some c ≡ true) (cli_register_command lib r)
  unfolding cli_register_command
  command-Runs lib r lawful q s p =
      let (c, gives, _, _) = lawful.answers s.cli r in
      let (at, w) = lib.cli_register_command s.cli r in
      (
        at,
        record s { cli = w; calls = s.calls ++ command r at ∷ [] },
        command r at ∷ [],
        refl,
        rw gives,
        refl,
        refl,
        (q at, tt),
      )

  pub if-Runs :
      {A : Type 0} (Returns : A → Type 0) (b : Bool) (m k : R W A)
      → Runs Returns m
      → Runs Returns k
      → Runs Returns (if b then m else k)
  if-Runs Returns true m k h h' = h
  if-Runs Returns false m k h h' = h'
