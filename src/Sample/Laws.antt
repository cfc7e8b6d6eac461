-- ===== src/Sample/Laws.antt =====
-- The small model meets what is assumed of the libraries.
use onm_cli.Base.{
  ℕ, ◌≡◌, ◌≢◌, refl, sym, ap, ◌∙◌, subst, true, false, Option, none, some, arith, Str, inl, inr,
  str_eq, str_eq→≡, str_eq_refl, Option-cases, Bool-cases, ◌==◌, ◌||◌, [],
}
use mathlib.Core.Option.{some-injective}
use onm_cli.Env.{SrErr, sr_ok, sr_not_found}
use onm_cli.Sysrepo.Commit.{Kept, Documented, IsReadable}
use onm_cli.DefaultCmd.Leave.{IsFreeing}
use onm_cli.DefaultCmd.Discard.{IsFreeingAll, member}
use onm_cli.Sample.{World, sample, stored, live, get, grow, diff, apply, release, update_path}

abbrev pub value : World → ℕ → ℕ
value w n = w.value n

pub get-Kept : (w : World) (path : Str) (o : Option ℕ) → Kept sample value w (get w path o).1
get-Kept w path none m l = (l, refl, refl, refl)
get-Kept w path (some v) m l = ground arith

pub get-stored :
    (w : World) (path : Str) (o : Option ℕ) (p : Str) → stored (get w path o).1 p ≡ stored w p
get-stored w path none p = refl
get-stored w path (some v) p = refl

-- What a successful read says of the state behind it and the new node.
abbrev IsRead : World → ℕ → World → ℕ → Type 0
IsRead w v w' n =
    (◌≡◌ {A = Option ℕ} (some v) (some (w'.value n))) × (live w n ≡ false) × (live w' n ≡ true)

grow-IsRead : (w : World) (path : Str) (v : ℕ) → IsRead w v (grow w path v) w.next
grow-IsRead w path v = ground arith

pub get-ok :
    (w w' : World) (path : Str) (n : ℕ) (o : Option ℕ)
    → get w path o ≡ ((sr_ok, some n), w')
    → (o ≡ some (w'.value n)) × (live w n ≡ false) × (live w' n ≡ true)
get-ok w w' path n none e = cc
get-ok w w' path n (some v) e =
    subst (λ (u : World). IsRead w v u n) (ap (λ (r : (SrErr × Option ℕ) × World). r.1) e)
      (subst (λ (k : ℕ). IsRead w v (grow w path v) k)
        (some-injective _ _ (ap (λ (r : (SrErr × Option ℕ) × World). r.0.1) e))
        (grow-IsRead w path v))

pub get-missing :
    (w w' : World) (path : Str) (n o : Option ℕ) → get w path o ≡ ((sr_not_found, n), w') → o ≡ none
get-missing w w' path n none e = refl
get-missing w w' path n (some v) e = cc

pub diff-none : (w : World) (a b : ℕ) → diff w (some a) (some b) ≡ none → w.value a ≡ w.value b
diff-none w a b e = ground arith

pub diff-same : (w : World) (a b : ℕ) → w.value a ≡ w.value b → diff w (some a) (some b) ≡ none
diff-same w a b e = ground arith

pub release-live :
    (w : World) (n m : ℕ) → m ≢ n → live w m ≡ true → live (release w (some n)) m ≡ true
release-live w n m ne l = ground arith

apply-Kept : (w : World) (p : Option (Str × ℕ)) → Kept sample value w (apply w p)
apply-Kept w none m l = (l, refl, refl, refl)
apply-Kept w (some (path, v)) m l = (l, refl, refl, refl)

pub update_path-same : (f : Str → Option ℕ) (p : Str) (v : ℕ) → update_path f p v p ≡ some v
update_path-same f p v = rw (str_eq_refl p)

pub update_path-other : (f : Str → Option ℕ) (p q : Str) (v : ℕ) → q ≢ p → update_path f p v q ≡ f q
update_path-other f p q v ne = elim (Bool-cases (str_eq q p)) [
  | inl e ↦ absurd (ne (str_eq→≡ q p e))
  | inr e ↦ rw e
]

-- An applied `replace`, as the datastore of the state behind it.
apply-edit :
    (w w1 w2 : World) (session : Option ℕ) (n : ℕ)
    → sample.sr_edit_batch w session n ≡ (sr_ok, w1)
    → sample.sr_apply_changes w1 session ≡ (sr_ok, w2)
    → (p : Str) → stored w2 p ≡ update_path w.datastore (w.path n) (w.value n) p
apply-edit w w1 w2 session n e f p =
    ap (λ (u : World). stored u p)
      (sym (ap (λ (r : SrErr × World). r.1) f)
        ∙ ap (λ (u : World). apply u u.pending) (sym (ap (λ (r : SrErr × World). r.1) e)))

pub sample-documented : Documented sample value stored
sample-documented = record {
  get_kept = λ w session path. get-Kept w path (w.datastore path);
  get_stored = λ w session path p. get-stored w path (w.datastore path) p;
  get_ok = λ w w' session path n e. get-ok w w' path n (w.datastore path) e;
  get_missing = λ w w' session path n e. get-missing w w' path n (w.datastore path) e;
  diff_kept = λ w a b m l. (l, refl, refl, refl);
  diff_stored = λ w a b p. refl;
  diff_none = diff-none;
  diff_same = diff-same;
  release_kept = λ w n m ne l. (release-live w n m ne l, refl, refl, refl);
  release_stored = λ w n p. refl;
  edit_kept = λ w session n m l. (l, refl, refl, refl);
  apply_kept = λ w session. apply-Kept w w.pending;
  discard_kept = λ w session m l. (l, refl, refl, refl);
  replaced = λ w w1 w2 session n l t e f. (
    apply-edit w w1 w2 session n e f (w.path n)
        ∙ update_path-same w.datastore (w.path n) (w.value n),
    λ m lm tm ne.
        apply-edit w w1 w2 session n e f (w.path m)
        ∙ update_path-other w.datastore (w.path n) (w.path m) (w.value n) ne,
  );
}

pub sample-readable : IsReadable sample
sample-readable w session path = elim (Option-cases (w.datastore path)) [
  | inl e ↦ inr (ap (λ o. (get w path o).0) e)
  | inr (v, e) ↦ inl (w.next, ap (λ o. (get w path o).0) e)
]

pub sample-freeing : IsFreeing sample
sample-freeing = record {
  others = λ w n m l t ne. (release-live w n m (λ e. ne (ap w.path (sym e))) l, refl, refl);
}

frees-same :
    (w : World) (n m : ℕ) → (n == m || member n []) ≡ true → live (release w (some n)) m ≡ false
frees-same w n m inside = ground arith

release-dead : (w : World) (o : Option ℕ) (m : ℕ) → live w m ≡ false → live (release w o) m ≡ false
release-dead w none m dead = dead
release-dead w (some n) m dead = ground arith

pub sample-freeing_all : IsFreeingAll sample
sample-freeing_all = record {
  frees = λ w n m inside. frees-same w n m inside;
  dead_free = release-dead;
  up_free = λ w o m l. refl;
  dead_discard = λ w session m dead. dead;
  dead_mode = λ w mode m dead. dead;
}
