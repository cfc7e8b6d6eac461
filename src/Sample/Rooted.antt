-- ===== src/Sample/Rooted.antt =====
-- A variant of the small model in which a tree's path says its module and its name.
use onm_cli.Base.{
  ℕ, zero, suc, ◌≡◌, ◌≢◌, refl, sym, ap, ◌∙◌, Bool, true, false, subst, ◌&&◌, Option, none, some,
  List, [], ◌∷◌, ◌++◌, arith, Str, length, take, str_eq, str_eq→≡, str_eq_refl, if◌then◌else◌,
}
use mathlib.Core.Option.{some-injective}
use onm_cli.Env.{Env, LyErr, success, failed, SrErr, sr_ok}
use onm_cli.Schema.{Info}
use onm_cli.DataFactory.{is_same_schema}
use onm_cli.DataFactory.Roots.{Still, IsTop, IsMaking}
use onm_cli.Sample.{World, sample, top, live, get, grow, update}
use onm_cli.Sample.Laws.{get-Kept}

abbrev drop : ℕ → Str → Str
drop zero s = s
drop (suc n) [] = []
drop (suc n) (c ∷ s) = drop n s

take-append : (s t : Str) → take (length s) (s ++ t) ≡ s
take-append [] t = refl
take-append (c ∷ s) t = ap (λ (l : Str). c ∷ l) (take-append s t)

drop-append : (s t : Str) → drop (length s) (s ++ t) ≡ t
drop-append [] t = refl
drop-append (c ∷ s) t = drop-append s t

-- The path of a root node: its module behind the length of that, and its name.
abbrev path_from : Str → Str → Str
path_from module_name name = length module_name ∷ (module_name ++ name)

abbrev module_of : Str → Str
module_of [] = []
module_of (k ∷ s) = take k s

abbrev name_of : Str → Str
name_of [] = []
name_of (k ∷ s) = drop k s

-- A path with nothing in it that is not read.
abbrev pub clean : Str → Str
clean path = path_from (module_of path) (name_of path)

clean-path_from : (m n : Str) → clean (path_from m n) ≡ path_from m n
clean-path_from m n = rw (take-append m n, drop-append m n)

abbrev pub lysc_path : List Info → Str
lysc_path [] = []
lysc_path (node ∷ up) = path_from node.module_name node.name

abbrev find : World → Str → ℕ → LyErr × Option ℕ
find w path n = if str_eq (clean (w.path n)) path then (success, some n) else (failed 5, none)

abbrev pub rooted : Env
rooted = record sample {
  schema = λ w n. record top { name = name_of (w.path n); module_name = module_of (w.path n) };
  lyd_path = λ w n. clean (w.path n);
  lyd_find_path = λ w n path. find w path n;
  sr_edit_batch = λ w session n. (sr_ok, record w { pending = some (clean (w.path n), w.value n) });
}

get-Still : (w : World) (path : Str) (o : Option ℕ) → Still rooted w (get w path o).1
get-Still w path o m l =
    let (l', _, p, _) = get-Kept w path o m l in
    (
      l',
      ap clean p,
      refl,
      ap (λ (q : Str). record top { name = name_of q; module_name = module_of q }) p,
    )

grow-IsTop :
    (w : World) (y : Info) (v : ℕ)
    → IsTop rooted (grow w (lysc_path (y ∷ [])) v) (lysc_path (y ∷ [])) w.next
grow-IsTop w y v = (
  is_live w (lysc_path (y ∷ [])) v,
  refl,
  ap clean (here w.path w.next (lysc_path (y ∷ []))) ∙ clean-path_from y.module_name y.name,
)
  where
    is_live : (w : World) (path : Str) (v : ℕ) → live (grow w path v) w.next ≡ true
    is_live w path v = ground arith

    here : (f : ℕ → Str) (n : ℕ) (path : Str) → update f n path n ≡ path
    here f n path = ground arith

-- A read that succeeds is a new node.
read-IsTop :
    (w w' : World) (y : Info) (n : ℕ) (o : Option ℕ)
    → get w (lysc_path (y ∷ [])) o ≡ ((sr_ok, some n), w')
    → IsTop rooted w' (lysc_path (y ∷ [])) n
read-IsTop w w' y n none e = cc
read-IsTop w w' y n (some v) e =
    subst (λ (u : World). IsTop rooted u (lysc_path (y ∷ [])) n)
      (ap (λ (r : (SrErr × Option ℕ) × World). r.1) e)
      (subst (IsTop rooted (grow w (lysc_path (y ∷ [])) v) (lysc_path (y ∷ [])))
        (some-injective _ _ (ap (λ (r : (SrErr × Option ℕ) × World). r.0.1) e)) (grow-IsTop w y v))

made-IsTop :
    (w w' : World) (y : Info) (o : Option ℕ)
    → rooted.lyd_new_path w none (lysc_path (y ∷ [])) none ≡ ((success, o), w')
    → (n : ℕ) × (o ≡ some n) × IsTop rooted w' (lysc_path (y ∷ [])) n
made-IsTop w w' y o e = (
  w.next,
  sym (ap (λ (r : (LyErr × Option ℕ) × World). r.0.1) e),
  subst (λ (u : World). IsTop rooted u (lysc_path (y ∷ [])) w.next)
      (ap (λ (r : (LyErr × Option ℕ) × World). r.1) e) (grow-IsTop w y 0),
)

find_self_lem :
    (w : World) (xpath : Str) (n : ℕ)
    → clean (w.path n) ≡ xpath
    → find w xpath n ≡ (success, some n)
find_self_lem w xpath n e = rw (e, str_eq_refl xpath)

-- The parts of a path.
path-same :
    (w : World) (y : Info) (m : ℕ)
    → is_same_schema (rooted.schema w m) y ≡ true
    → clean (w.path m) ≡ lysc_path (y ∷ [])
path-same w y m same =
    let both =
      split (str_eq (name_of (w.path m)) y.name) (str_eq (module_of (w.path m)) y.module_name)
        same in
    ap (path_from (module_of (w.path m))) (str_eq→≡ _ _ both.0)
    ∙ ap (λ (q : Str). path_from q y.name) (str_eq→≡ _ _ both.1)
  where
    split : (a b : Bool) → (a && b) ≡ true → (a ≡ true) × (b ≡ true)
    split a b h = ground arith

path-other :
    (w : World) (y : Info) (m : ℕ)
    → is_same_schema (rooted.schema w m) y ≡ false
    → lysc_path (y ∷ []) ≢ clean (w.path m)
path-other w y m other e = absurd (clash (sym other ∙ yes_same))
  where
    clash : false ≢ true
    clash f = ground arith

    a : Str
    a = module_of (w.path m)

    b : Str
    b = name_of (w.path m)

    same_module : y.module_name ≡ a
    same_module = sym (take-append y.module_name y.name) ∙ ap module_of e ∙ take-append a b

    same_name : y.name ≡ b
    same_name = sym (drop-append y.module_name y.name) ∙ ap name_of e ∙ drop-append a b

    yes_same : is_same_schema (rooted.schema w m) y ≡ true
    yes_same = rw (same_module, same_name, str_eq_refl a, str_eq_refl b)

pub rooted-making : IsMaking rooted lysc_path
rooted-making = record {
  acquire_still = λ w m l. (l, refl, refl, refl);
  release_still = λ w m l. (l, refl, refl, refl);
  get_still = λ w session path. get-Still w path (w.datastore path);
  new_still = λ w path v. get-Still w path (some 0);
  get_root = λ w w' session y n e. read-IsTop w w' y n (w.datastore (lysc_path (y ∷ []))) e;
  make_root = λ w w' y o e. made-IsTop w w' y o e;
  find_self = λ w xpath n is. find_self_lem w xpath n is.2;
  same_path = λ w y m l a same. path-same w y m same;
  other_path = λ w y m l a other. path-other w y m other;
}
