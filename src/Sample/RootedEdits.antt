-- ===== src/Sample/RootedEdits.antt =====
-- The variant of the small model meets what is assumed of sysrepo.
use onm_cli.Base.{ℕ, ◌≡◌, refl, sym, ap, ◌∙◌, Option, none, some, Str, inl, inr, Option-cases}
use onm_cli.Env.{SrErr, sr_ok}
use onm_cli.Sysrepo.Commit.{Kept, Documented, IsReadable}
use onm_cli.Sample.{World, stored, get, apply, update_path}
use onm_cli.Sample.Laws.{
  value, get-Kept, get-stored, get-ok, get-missing, diff-none, diff-same, release-live,
  update_path-same, update_path-other,
}
use onm_cli.Sample.Rooted.{rooted, clean}

rooted-get-Kept : (w : World) (path : Str) (o : Option ℕ) → Kept rooted value w (get w path o).1
rooted-get-Kept w path o m l =
    let (l', v, p, _) = get-Kept w path o m l in (l', v, ap clean p, refl)

rooted-apply-Kept : (w : World) (p : Option (Str × ℕ)) → Kept rooted value w (apply w p)
rooted-apply-Kept w none m l = (l, refl, refl, refl)
rooted-apply-Kept w (some (path, v)) m l = (l, refl, refl, refl)

-- An applied `replace`, as the datastore of the state behind it.
apply-edit :
    (w w1 w2 : World) (session : Option ℕ) (n : ℕ)
    → rooted.sr_edit_batch w session n ≡ (sr_ok, w1)
    → rooted.sr_apply_changes w1 session ≡ (sr_ok, w2)
    → (p : Str) → stored w2 p ≡ update_path w.datastore (clean (w.path n)) (w.value n) p
apply-edit w w1 w2 session n e f p =
    ap (λ (u : World). stored u p)
      (sym (ap (λ (r : SrErr × World). r.1) f)
        ∙ ap (λ (u : World). apply u u.pending) (sym (ap (λ (r : SrErr × World). r.1) e)))

pub rooted-documented : Documented rooted value stored
rooted-documented = record {
  get_kept = λ w session path. rooted-get-Kept w path (w.datastore path);
  get_stored = λ w session path p. get-stored w path (w.datastore path) p;
  get_ok = λ w w' session path n e. get-ok w w' path n (w.datastore path) e;
  get_missing = λ w w' session path n e. get-missing w w' path n (w.datastore path) e;
  diff_kept = λ w a b m l. (l, refl, refl, refl);
  diff_stored = λ w a b p. refl;
  diff_none = diff-none;
  diff_same = diff-same;
  release_kept = λ w n m ne l. (release-live w n m ne l, refl, refl, refl);
  release_stored = λ w n p. refl;
  edit_kept = λ w session n m l. (l, refl, refl, refl);
  apply_kept = λ w session. rooted-apply-Kept w w.pending;
  discard_kept = λ w session m l. (l, refl, refl, refl);
  replaced = λ w w1 w2 session n l t e f. (
    apply-edit w w1 w2 session n e f (clean (w.path n))
        ∙ update_path-same w.datastore (clean (w.path n)) (w.value n),
    λ m lm tm ne.
        apply-edit w w1 w2 session n e f (clean (w.path m))
        ∙ update_path-other w.datastore (clean (w.path n)) (clean (w.path m)) (w.value n) ne,
  );
}

pub rooted-readable : IsReadable rooted
rooted-readable w session path = elim (Option-cases (w.datastore path)) [
  | inl e ↦ inr (ap (λ o. (get w path o).0) e)
  | inr (v, e) ↦ inl (w.next, ap (λ o. (get w path o).0) e)
]
