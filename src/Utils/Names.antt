-- ===== src/Utils/Names.antt =====
-- src/utils.c: `to_lower`, `str2fun_name` and `count_optargs`.
use onm_cli.Base.{◌↔◌, ℕ, ◌+◌, ◌≡◌, refl, true, ◌||◌, List, [], ◌∷◌, arith, Str, All, length, ◌==◌}
use onm_cli.Utils.{
  isdigit, islower, tolower, to_lower, fun_name_char, str2fun_name, count_optargs_from,
  count_optargs,
}

-- The characters of a function name that `str2fun_name` makes.
abbrev pub IsFunChar : ℕ → Type 0
IsFunChar c = (isdigit c || (islower c || c == b'_')) ≡ true

fun_name_char-IsFunChar : (c : ℕ) → IsFunChar (fun_name_char c)
fun_name_char-IsFunChar c = ground arith

fun_name_char_fixed : (c : ℕ) → IsFunChar c → fun_name_char c ≡ c
fun_name_char_fixed c h = ground arith

str2fun_name-All : (str : Str) → All IsFunChar (str2fun_name str)
unfolding str2fun_name
str2fun_name-All [] = tt
str2fun_name-All (c ∷ str) = (fun_name_char-IsFunChar c, str2fun_name-All str)

str2fun_name-fixed : (str : Str) → All IsFunChar str → str2fun_name str ≡ str
unfolding str2fun_name
str2fun_name-fixed [] h = refl
str2fun_name-fixed (c ∷ str) (p, h) = cc (fun_name_char_fixed c p, str2fun_name-fixed str h)

str2fun_name-length : (str : Str) → length (str2fun_name str) ≡ length str
unfolding str2fun_name
str2fun_name-length [] = refl
str2fun_name-length (c ∷ str) = omega (arith, str2fun_name-length str)

-- For every text, `str2fun_name` returns a text of the same length that holds nothing but digits,
-- lower case letters and underscores, and it leaves a text alone exactly when it is one of those.
str2fun_name-canonical :
    (str : Str)
    → All IsFunChar (str2fun_name str)
      × (length (str2fun_name str) ≡ length str)
      × (All IsFunChar str ↔ (str2fun_name str ≡ str))
str2fun_name-canonical str = (
  str2fun_name-All str,
  str2fun_name-length str,
  (str2fun_name-fixed str, λ e. rw e at (str2fun_name-All str)),
)

tolower_idem : (c : ℕ) → tolower (tolower c) ≡ tolower c
tolower_idem c = ground arith

to_lower_idem : (str : Str) → to_lower (to_lower str) ≡ to_lower str
unfolding to_lower
to_lower_idem [] = refl
to_lower_idem (c ∷ str) = cc (tolower_idem c, to_lower_idem str)

fun_name_char-tolower : (c : ℕ) → fun_name_char (tolower c) ≡ fun_name_char c
fun_name_char-tolower c = ground arith

-- `str2fun_name` does not see the case of its argument, and its result is already in lower case.
str2fun_name-to_lower :
    (str : Str)
    → (str2fun_name (to_lower str) ≡ str2fun_name str)
      × (to_lower (str2fun_name str) ≡ str2fun_name str)
unfolding str2fun_name to_lower
str2fun_name-to_lower [] = (refl, refl)
str2fun_name-to_lower (c ∷ str) =
    let (p, q) = str2fun_name-to_lower str in (cc (fun_name_char-tolower c, p), cc (lower c, q))
  where
    lower : (c : ℕ) → tolower (fun_name_char c) ≡ fun_name_char c
    lower c = ground arith

count_optargs_from-length {ℓ} :
    {A : Type ℓ} (count : ℕ) (head : List A) → count_optargs_from count head ≡ count + length head
unfolding count_optargs_from
count_optargs_from-length count [] = omega arith
count_optargs_from-length count (_ ∷ next) =
    omega (arith, count_optargs_from-length (count + 1) next)

pub count_optargs-length {ℓ} : {A : Type ℓ} (head : List A) → count_optargs head ≡ length head
unfolding count_optargs
count_optargs-length head = omega (arith, count_optargs_from-length 0 head)
