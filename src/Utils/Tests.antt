-- ===== src/Utils/Tests.antt =====
-- Runs of src/utils.c, and its theorems at concrete texts.
use mathlib.Core.List.{flatten}
use onm_cli.Base.{ℕ, ◌≡◌, ◌≢◌, refl, codes, [], ◌∷◌, arith}
use onm_cli.Utils.{to_lower, str2fun_name, str2int_hash, hash_str, hash_step, hash_args}
use onm_cli.Utils.Hash.{djb2, str2int_hash-djb2}

to_lower_run : to_lower (codes "IPv4-Address") ≡ codes "ipv4-address"
unfolding to_lower
to_lower_run = refl

str2fun_name_run : str2fun_name (codes "IPv4-Address") ≡ codes "ipv4_address"
unfolding str2fun_name
str2fun_name_run = refl

str2int_hash_run : str2int_hash (codes "a") (codes "b" ∷ []) ≡ 5863208
unfolding str2int_hash hash_str hash_step hash_args
str2int_hash_run = refl

str2int_hash-djb2_example :
    (str2int_hash (codes "if") (codes "mtu" ∷ []) ≡ str2int_hash (codes "ifmtu") [])
    × (str2int_hash (codes "if") (codes "mtu" ∷ []) ≡ djb2 5381 (codes "ifmtu"))
unfolding flatten
str2int_hash-djb2_example = str2int_hash-djb2 (codes "if") (codes "mtu" ∷ [])

apart : ◌≢◌ {A = ℕ} 48 49
apart e = omega arith
