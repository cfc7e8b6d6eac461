-- ===== src/Sysrepo/Commit.antt =====
-- src/onm_sysrepo.c: what `sysrepo_has_uncommited_changes` and `sysrepo_commit` say of the running
-- datastore, from what sysrepo and libyang document of the calls.
pub mod One
use onm_cli.Base.{ℕ, ◌≡◌, ◌≢◌, ◌⊎◌, true, false, Option, none, some, [], Str}
use onm_cli.Env.{Env, sr_ok, sr_not_found}

module _ (env : Env) {Tree : Type 0} (content : Env.World env → ℕ → Tree) where
  open env use {World}

  -- Every data tree of `w` is still there in `w'`, as it was.
  abbrev pub Kept : World → World → Type 0
  Kept w w' =
      (m : ℕ)
      → env.live w m ≡ true
      → (env.live w' m ≡ true)
        × (content w' m ≡ content w m)
        × (env.lyd_path w' m ≡ env.lyd_path w m)
        × (env.ancestors w' m ≡ env.ancestors w m)

-- `content w n` is what the data tree of `n` holds, and `stored w path` what the running datastore
-- holds at a path.
pub record Documented (env : Env) {Tree : Type 0} (content : Env.World env → ℕ → Tree)
    (stored : Env.World env → Str → Option Tree) : Type 0 where
  -- Reading a subtree makes a new tree with what is stored, and changes nothing.
  pub get_kept :
      (w : Env.World env) (session : Option ℕ) (path : Str)
      → Kept env content w (env.sr_get_subtree w session path).1
  pub get_stored :
      (w : Env.World env) (session : Option ℕ) (path p : Str)
      → stored (env.sr_get_subtree w session path).1 p ≡ stored w p
  pub get_ok :
      (w w' : Env.World env) (session : Option ℕ) (path : Str) (n : ℕ)
      → env.sr_get_subtree w session path ≡ ((sr_ok, some n), w')
      → (stored w path ≡ some (content w' n)) × (env.live w n ≡ false) × (env.live w' n ≡ true)
  pub get_missing :
      (w w' : Env.World env) (session : Option ℕ) (path : Str) (n : Option ℕ)
      → env.sr_get_subtree w session path ≡ ((sr_not_found, n), w')
      → stored w path ≡ none
  -- The difference of two trees is NULL exactly when they hold the same.
  pub diff_kept :
      (w : Env.World env) (a b : Option ℕ) → Kept env content w (env.lyd_diff_tree w a b).1
  pub diff_stored :
      (w : Env.World env) (a b : Option ℕ) (p : Str)
      → stored (env.lyd_diff_tree w a b).1 p ≡ stored w p
  pub diff_none :
      (w : Env.World env) (a b : ℕ)
      → (env.lyd_diff_tree w (some a) (some b)).0 ≡ none
      → content w a ≡ content w b
  pub diff_same :
      (w : Env.World env) (a b : ℕ)
      → content w a ≡ content w b
      → (env.lyd_diff_tree w (some a) (some b)).0 ≡ none
  -- Releasing a read subtree frees that tree and no other.
  pub release_kept :
      (w : Env.World env) (n m : ℕ)
      → m ≢ n
      → env.live w m ≡ true
      → (env.live (env.sr_release_data w n) m ≡ true)
        × (content (env.sr_release_data w n) m ≡ content w m)
        × (env.lyd_path (env.sr_release_data w n) m ≡ env.lyd_path w m)
        × (env.ancestors (env.sr_release_data w n) m ≡ env.ancestors w m)
  pub release_stored :
      (w : Env.World env) (n : ℕ) (p : Str) → stored (env.sr_release_data w n) p ≡ stored w p
  -- Edits leave the trees of the program alone.
  pub edit_kept :
      (w : Env.World env) (session : Option ℕ) (n : ℕ)
      → Kept env content w (env.sr_edit_batch w session n).1
  pub apply_kept :
      (w : Env.World env) (session : Option ℕ)
      → Kept env content w (env.sr_apply_changes w session).1
  pub discard_kept :
      (w : Env.World env) (session : Option ℕ)
      → Kept env content w (env.sr_discard_changes w session).1
  -- An applied `replace` of a top-level tree stores it, and leaves what is stored at the paths of
  -- other top-level trees alone.
  pub replaced :
      (w w1 w2 : Env.World env) (session : Option ℕ) (n : ℕ)
      → env.live w n ≡ true
      → env.ancestors w n ≡ []
      → env.sr_edit_batch w session n ≡ (sr_ok, w1)
      → env.sr_apply_changes w1 session ≡ (sr_ok, w2)
      → (stored w2 (env.lyd_path w n) ≡ some (content w n))
        × ((m : ℕ)
            → env.live w m ≡ true
            → env.ancestors w m ≡ []
            → env.lyd_path w m ≢ env.lyd_path w n
            → stored w2 (env.lyd_path w m) ≡ stored w (env.lyd_path w m))

-- Reading a subtree succeeds, or finds that there is none.
abbrev pub IsReadable : Env → Type 0
IsReadable env =
    (w : Env.World env) (session : Option ℕ) (path : Str)
    → ((n : ℕ) × ((env.sr_get_subtree w session path).0 ≡ (sr_ok, some n)))
      ⊎ ((env.sr_get_subtree w session path).0 ≡ (sr_not_found, none))
