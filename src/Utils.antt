-- ===== src/Utils.antt =====
-- src/utils.c: the string helpers and the hash that names a configuration mode.
pub mod Names
pub mod Hash
mod Tests
use onm_cli.Base.{
  ℕ, ◌+◌, ◌-◌, ◌*◌, ◌%◌, ◌^◌, Bool, ◌&&◌, ◌||◌, List, [], ◌∷◌, Str, leb, ltb, if◌then◌else◌,
}

-- <ctype.h> in the C locale
abbrev pub isdigit : ℕ → Bool
isdigit c = leb b'0' c && leb c b'9'

abbrev pub isupper : ℕ → Bool
isupper c = leb b'A' c && leb c b'Z'

abbrev pub islower : ℕ → Bool
islower c = leb b'a' c && leb c b'z'

abbrev pub isalnum : ℕ → Bool
isalnum c = isdigit c || (isupper c || islower c)

abbrev pub tolower : ℕ → ℕ
tolower c = if isupper c then c + 32 else c

unfoldable pub to_lower : Str → Str
to_lower [] = []
to_lower (c ∷ str) = tolower c ∷ to_lower str

-- A byte that a `char` promotes to `int` and then to `unsigned long`: the sign is extended.
abbrev pub char_to_ulong : ℕ → ℕ
char_to_ulong c = if ltb c 128 then c else c + 2 ^ 64 - 256

-- `hash = ((hash << 5) + hash) + c` on an `unsigned long`
unfoldable pub hash_step : ℕ → ℕ → ℕ
hash_step hash c = (((hash * 32) % 2 ^ 64 + hash) % 2 ^ 64 + char_to_ulong c) % 2 ^ 64

unfoldable pub hash_str : ℕ → Str → ℕ
hash_str hash [] = hash
hash_str hash (c ∷ str) = hash_str (hash_step hash c) str

-- The variable arguments end with a NULL in the source, and with the list here.
unfoldable pub hash_args : ℕ → List Str → ℕ
hash_args hash [] = hash
hash_args hash (arg ∷ args) = hash_args (hash_str hash arg) args

unfoldable pub str2int_hash : Str → List Str → ℕ
str2int_hash str args = hash_args (hash_str 5381 str) args % 2 ^ 32

abbrev pub fun_name_char : ℕ → ℕ
fun_name_char c = if isalnum c then tolower c else b'_'

unfoldable pub str2fun_name : Str → Str
str2fun_name [] = []
str2fun_name (c ∷ str) = fun_name_char c ∷ str2fun_name str

-- The loop of `count_optargs`, from the count so far.
unfoldable pub count_optargs_from {ℓ} : {A : Type ℓ} → ℕ → List A → ℕ
count_optargs_from count [] = count
count_optargs_from count (_ ∷ next) = count_optargs_from (count + 1) next

unfoldable pub count_optargs {ℓ} : {A : Type ℓ} → List A → ℕ
unfolding count_optargs_from
count_optargs head = count_optargs_from 0 head
