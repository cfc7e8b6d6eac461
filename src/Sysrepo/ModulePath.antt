-- ===== src/Sysrepo/ModulePath.antt =====
-- src/onm_sysrepo.c: the module path that `sysrepo set-module-path` leaves for `install-module`.
use onm_cli.Base.{
  ℕ, ◌≡◌, ◌≢◌, refl, none, some, [], ◌∷◌, ◌++◌, Option, Bool-cases, inl, inr, ◌==◌, if◌then◌else◌,
  arith, Str, All, codes,
}
use onm_cli.Env.{Env}
use onm_cli.State.{State}
use onm_cli.Sysrepo.{read_string, sysrepo_set_module_path, sysrepo_insmod, status}

read_string-ended : (path : Str) → All (λ c. c ≢ 0) path → read_string (path ++ 0 ∷ []) ≡ some path
unfolding read_string
read_string-ended [] h = refl
read_string-ended (c ∷ path) (p, h) = ground (arith, read_string-ended path h)

read_string-open :
    (last : ℕ) (path : Str)
    → All (λ c. c ≢ 0) path
    → last ≢ 0
    → read_string (path ++ last ∷ []) ≡ none
unfolding read_string
read_string-open last [] h ne = ground arith
read_string-open last (c ∷ path) (p, h) ne = ground (arith, read_string-open last path h ne)

module _ (env : Env) where
  open env use {World}

  -- The state behind `set-module-path`, in which `install-module` runs.
  set_lem :
      (last : ℕ) (path : Str) (s : State World)
      → sysrepo_set_module_path env last path s
        ≡ some (tt, record s { module_path = some (path ++ last ∷ []) })
  unfolding sysrepo_set_module_path
  set_lem last path s = refl

  -- What `install-module` does where the path that was set is `path`.
  abbrev pub installed : Str → Str → State World → Option (ℕ × State World)
  installed path m t = some (
    status env (env.sr_install_module t.world ((path ++ codes "/") ++ m) path).0,
    record t { world = (env.sr_install_module t.world ((path ++ codes "/") ++ m) path).1 },
  )

  -- `set-module-path` copies a path without its NUL. If the byte behind the copy happens to be zero,
  -- `install-module` passes the file below that path to sysrepo, with the path to search in. If it
  -- is anything else, `install-module` reads past the end of the buffer.
  pub set_module_path-insmod :
      (last : ℕ) (path m : Str) (s t : State World)
      → All (λ c. c ≢ 0) path
      → sysrepo_set_module_path env last path s ≡ some (tt, t)
      → sysrepo_insmod env m t ≡ (if last == 0 then installed path m t else none)
  unfolding sysrepo_insmod sysrepo_set_module_path
  set_module_path-insmod last path m s t h e = elim (Bool-cases (last == 0)) [
    | inl z ↦ ground (arith, read_string-ended path h)
    | inr ne ↦ ground (arith, read_string-open last path h)
  ]
