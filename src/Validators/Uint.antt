-- ===== src/Validators/Uint.antt =====
-- src/commands/yang_core/data_validators.c: `is_numeric` and `validate_uint`.
use onm_cli.Base.{
  ◌%◌, ◌^◌, ◌≤◌, ◌<◌, ◌≡◌, refl, sym, ◌∙◌, ap, ◌↔◌, true, some, [], ◌∷◌, arith, Str, All,
}
use onm_cli.Libc.Decimal.{IsDigit, decimal, atoi-mod}
use onm_cli.Cli.{cli_ok}
use onm_cli.Schema.{Range, LeafType}
use onm_cli.Validators.{is_numeric, check_range, validate_uint}

-- `is_numeric` holds of exactly the texts of decimal digits, the empty one included.
pub is_numeric-All : (str : Str) → (is_numeric str ≡ true) ↔ All IsDigit str
unfolding is_numeric
is_numeric-All [] = (λ h. tt, λ h. refl)
is_numeric-All (c ∷ str) =
    let (to, from) = is_numeric-All str in (λ h. ground (arith, to), λ h. ground (arith, from))

validate_uint-check :
    (type : LeafType) (value : Str)
    → All IsDigit value
    → decimal value < 2 ^ 63
    → validate_uint type value ≡ check_range type.range (decimal value % 2 ^ 32)
unfolding validate_uint
validate_uint-check type value h small = rw ((is_numeric-All value).1 h, atoi-mod value h small)

-- Where the value and the bounds of the first part fit 32 bits, a text of digits is accepted
-- exactly when the number that it stands for lies within the first part of the range.
pub validate_uint-exact :
    (type : LeafType) (range : Range) (value : Str)
    → type.range ≡ some range
    → All IsDigit value
    → decimal value < 2 ^ 32
    → range.first.min_u64 < 2 ^ 32
    → range.first.max_u64 < 2 ^ 32
    → ((validate_uint type value).0 ≡ cli_ok)
      ↔ ((range.first.min_u64 ≤ decimal value) × (decimal value ≤ range.first.max_u64))
unfolding check_range
validate_uint-exact type range value has h small lo hi =
    rw (validate_uint-check type value h (omega arith), has) (λ e. ground arith, λ e. ground arith)

-- Two texts of digits below 2^63 whose numbers agree modulo 2^32 get the same verdict, messages
-- included: the check is blind to all but the lower 32 bits of the value.
validate_uint-wraps :
    (type : LeafType) (s t : Str)
    → All IsDigit s
    → All IsDigit t
    → decimal s < 2 ^ 63
    → decimal t < 2 ^ 63
    → decimal s % 2 ^ 32 ≡ decimal t % 2 ^ 32
    → validate_uint type s ≡ validate_uint type t
validate_uint-wraps type s t hs ht ls lt e =
    validate_uint-check type s hs ls
    ∙ ap (check_range type.range) e
    ∙ sym (validate_uint-check type t ht lt)
