-- ===== src/Libc.antt =====
-- What the sources use of <stdlib.h>: `strtol` in base 10 and `atoi`, with a 64-bit `long` and a
-- 32-bit `int`. Signed values stand as their bit patterns.
pub mod Decimal
use onm_cli.Base.{
  ℕ, ◌+◌, ◌-◌, ◌*◌, ◌%◌, ◌^◌, Bool, true, false, ◌&&◌, ◌||◌, [], ◌∷◌, Str, leb, ◌==◌, if◌then◌else◌,
}
use onm_cli.Utils.{isdigit}

abbrev pub isspace : ℕ → Bool
isspace c = c == 32 || (leb 9 c && leb c 13)

unfoldable pub skip_space : Str → Str
skip_space [] = []
skip_space (c ∷ s) = elim (isspace c) [ true ↦ skip_space s | false ↦ c ∷ s ]

-- The digits at the front, read onto `acc`, and what stands behind them.
unfoldable pub digits : ℕ → Str → ℕ × Str
digits acc [] = (acc, [])
digits acc (c ∷ s) = elim (isdigit c) [
  | true ↦ digits (acc * 10 + (c - b'0')) s
  | false ↦ (acc, c ∷ s)
]

-- LONG_MAX and LONG_MIN bound the result.
abbrev pub long_of : Bool → ℕ → ℕ
long_of false n = if leb n (2 ^ 63 - 1) then n else 2 ^ 63 - 1
long_of true n = if leb n (2 ^ 63) then (2 ^ 64 - n) % 2 ^ 64 else 2 ^ 63

abbrev pub starts_with_digit : Str → Bool
starts_with_digit [] = false
starts_with_digit (c ∷ _) = isdigit c

-- The value and `*endptr`; the text `s` as given if no digit was found.
abbrev pub convert : Bool → Str → Str → ℕ × Str
convert negative s body =
    let (n, rest) = digits 0 body in
    if starts_with_digit body then (long_of negative n, rest) else (0, s)

unfoldable pub signed : Str → Str → ℕ × Str
signed s [] = convert false s []
signed s (c ∷ body) =
    if c == b'-'
    then convert true s body
    else (if c == b'+' then convert false s body else convert false s (c ∷ body))

unfoldable pub strtol : Str → ℕ × Str
unfolding skip_space digits signed
strtol s = signed s (skip_space s)

-- `(int) strtol(s, NULL, 10)`
unfoldable pub atoi : Str → ℕ
unfolding strtol
atoi s = (strtol s).0 % 2 ^ 32
