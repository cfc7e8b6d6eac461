-- ===== src/Sysrepo/Tests.antt =====
-- The theorems on onm_sysrepo.c over the small model of the libraries.
use onm_cli.Base.{ℕ, ◌≡◌, ◌≢◌, refl, none, some, [], ◌∷◌, ◌==◌, false, codes, arith}
use onm_cli.State.{State}
use onm_cli.Sample.{World, sample}
use onm_cli.Sample.Start.{started}
use onm_cli.Sysrepo.{sysrepo_insmod, sysrepo_set_module_path}
use onm_cli.Sysrepo.ModulePath.{set_module_path-insmod}

-- The byte behind the copy is `7`.
abbrev path_set : State World
path_set = record started { module_path = some (b'/' ∷ b'd' ∷ 7 ∷ []) }

apart : (a b : ℕ) → (a == b) ≡ false → a ≢ b
apart a b e = ground arith

set_run : sysrepo_set_module_path sample 7 (codes "/d") started ≡ some (tt, path_set)
unfolding sysrepo_set_module_path
set_run = refl

set_module_path-insmod_example : sysrepo_insmod sample (codes "m") path_set ≡ none
set_module_path-insmod_example =
    set_module_path-insmod sample 7 (codes "/d") (codes "m") started path_set
      (apart b'/' 0 refl, (apart b'd' 0 refl, tt)) set_run
