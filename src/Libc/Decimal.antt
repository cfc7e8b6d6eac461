-- ===== src/Libc/Decimal.antt =====
-- `strtol` and `atoi` on texts that hold digits only.
use onm_cli.Base.{
  ℕ, ◌+◌, ◌-◌, ◌*◌, ◌%◌, ◌^◌, ◌<◌, ◌≡◌, refl, ◌∙◌, ap, true, false, [], ◌∷◌, arith, Str, All,
}
use onm_cli.Utils.{isdigit}
use onm_cli.Libc.{digits, long_of, strtol, atoi}

abbrev pub IsDigit : ℕ → Type 0
IsDigit c = isdigit c ≡ true

-- The number that a text of digits stands for.
abbrev pub decimal_from : ℕ → Str → ℕ
decimal_from acc [] = acc
decimal_from acc (c ∷ s) = decimal_from (acc * 10 + (c - b'0')) s

abbrev pub decimal : Str → ℕ
decimal s = decimal_from 0 s

digits-decimal_from : (acc : ℕ) (s : Str) → All IsDigit s → digits acc s ≡ (decimal_from acc s, [])
unfolding digits
digits-decimal_from acc [] h = refl
digits-decimal_from acc (c ∷ s) (d, h) =
    ground (arith, digits-decimal_from (acc * 10 + (c - b'0')) s h)

pub strtol-decimal : (s : Str) → All IsDigit s → strtol s ≡ (long_of false (decimal s), [])
unfolding strtol
strtol-decimal [] h = refl
strtol-decimal (c ∷ s) (d, h) = ground (arith, digits-decimal_from (0 * 10 + (c - b'0')) s h)

pub atoi-decimal : (s : Str) → All IsDigit s → atoi s ≡ long_of false (decimal s) % 2 ^ 32
unfolding atoi
atoi-decimal s h = ap (λ r. r.0 % 2 ^ 32) (strtol-decimal s h)

-- Below 2^63 only the lower 32 bits count.
pub atoi-mod : (s : Str) → All IsDigit s → decimal s < 2 ^ 63 → atoi s ≡ decimal s % 2 ^ 32
atoi-mod s h small = atoi-decimal s h ∙ ground arith
