-- ===== src/Utils/Hash.antt =====
-- src/utils.c: what `str2int_hash` computes, and which texts it tells apart.
use mathlib.Core.List.{flatten, append-nil}
use onm_cli.Base.{
  ℕ, ◌+◌, ◌-◌, ◌*◌, ◌%◌, ◌^◌, ◌≤◌, ◌<◌, ◌≡◌, ◌≢◌, refl, sym, ◌∙◌, ap, List, [], ◌∷◌, ◌++◌, arith,
  Str, ltb, if◌then◌else◌,
}
use onm_cli.Utils.{hash_step, hash_str, hash_args, str2int_hash}

-- Bernstein's hash on 32 bits, `hash * 33 + c`, with the sign of `c` extended to 32 bits.
abbrev pub djb2_step : ℕ → ℕ → ℕ
djb2_step hash c = (hash * 33 + (if ltb c 128 then c else c + 2 ^ 32 - 256)) % 2 ^ 32

abbrev pub djb2 : ℕ → Str → ℕ
djb2 hash [] = hash
djb2 hash (c ∷ str) = djb2 (djb2_step hash c) str

hash_step-mod : (hash c : ℕ) → hash_step hash c % 2 ^ 32 ≡ djb2_step (hash % 2 ^ 32) c
unfolding hash_step
hash_step-mod hash c = ground arith

hash_str-mod : (hash : ℕ) (str : Str) → hash_str hash str % 2 ^ 32 ≡ djb2 (hash % 2 ^ 32) str
unfolding hash_str
hash_str-mod hash [] = refl
hash_str-mod hash (c ∷ str) =
    hash_str-mod (hash_step hash c) str ∙ ap (λ h. djb2 h str) (hash_step-mod hash c)

hash_str-append : (hash : ℕ) (s t : Str) → hash_str hash (s ++ t) ≡ hash_str (hash_str hash s) t
unfolding hash_str
hash_str-append hash [] t = refl
hash_str-append hash (c ∷ s) t = hash_str-append (hash_step hash c) s t

hash_args-nil : (hash : ℕ) → hash_args hash [] ≡ hash
unfolding hash_args
hash_args-nil hash = refl

hash_args-flatten :
    (hash : ℕ) (args : List Str) → hash_args hash args ≡ hash_str hash (flatten args)
unfolding hash_args hash_str flatten
hash_args-flatten hash [] = refl
hash_args-flatten hash (arg ∷ args) =
    hash_args-flatten (hash_str hash arg) args ∙ sym (hash_str-append hash arg (flatten args))

-- The hash of several texts is that of their concatenation, and it is the 32-bit hash of Bernstein:
-- the 64-bit accumulator and the cut at the end lose nothing that matters.
pub str2int_hash-djb2 :
    (str : Str) (args : List Str)
    → (str2int_hash str args ≡ str2int_hash (str ++ flatten args) [])
      × (str2int_hash str args ≡ djb2 5381 (str ++ flatten args))
unfolding str2int_hash
str2int_hash-djb2 str args = (ap (λ h. h % 2 ^ 32) joined, narrow)
  where
    all : Str
    all = str ++ flatten args

    joined : hash_args (hash_str 5381 str) args ≡ hash_args (hash_str 5381 all) []
    joined =
        hash_args-flatten (hash_str 5381 str) args
        ∙ sym (hash_str-append 5381 str (flatten args))
        ∙ sym (hash_args-nil (hash_str 5381 all))

    narrow : hash_args (hash_str 5381 str) args % 2 ^ 32 ≡ djb2 5381 all
    narrow =
        ap (λ h. h % 2 ^ 32) (joined ∙ hash_args-nil (hash_str 5381 all)) ∙ hash_str-mod 5381 all

djb2-append : (hash : ℕ) (s t : Str) → djb2 hash (s ++ t) ≡ djb2 (djb2 hash s) t
djb2-append hash [] t = refl
djb2-append hash (c ∷ s) t = djb2-append (djb2_step hash c) s t

djb2_step-injective :
    (hash c d : ℕ) → c < 256 → d < 256 → djb2_step hash c ≡ djb2_step hash d → c ≡ d
djb2_step-injective hash c d hc hd e = ground arith

str2int_hash-one : (str : Str) → str2int_hash str [] ≡ djb2 5381 str
unfolding flatten
str2int_hash-one str = (str2int_hash-djb2 str []).1 ∙ ap (djb2 5381) (append_flatten str)
  where
    append_flatten : (s : Str) → s ++ flatten [] ≡ s
    append_flatten s = append-nil s

str2int_hash-same_last :
    (str : Str) (c d : ℕ)
    → c < 256
    → d < 256
    → str2int_hash (str ++ c ∷ []) [] ≡ str2int_hash (str ++ d ∷ []) []
    → c ≡ d
str2int_hash-same_last str c d hc hd e =
    djb2_step-injective (djb2 5381 str) c d hc hd (sym (at c) ∙ e ∙ at d)
  where
    at : (b : ℕ) → str2int_hash (str ++ b ∷ []) [] ≡ djb2_step (djb2 5381 str) b
    at b = str2int_hash-one (str ++ b ∷ []) ∙ djb2-append 5381 str (b ∷ [])

-- Two texts that differ in their last byte only never have the same hash.
str2int_hash-last :
    (str : Str) (c d : ℕ)
    → c < 256
    → d < 256
    → c ≢ d
    → str2int_hash (str ++ c ∷ []) [] ≢ str2int_hash (str ++ d ∷ []) []
str2int_hash-last str c d hc hd ne e = ne (str2int_hash-same_last str c d hc hd e)

djb2_step_collide :
    (hash a b : ℕ)
    → a < 127
    → 33 ≤ b
    → b < 128
    → djb2_step (djb2_step hash a) b ≡ djb2_step (djb2_step hash (a + 1)) (b - 33)
djb2_step_collide hash a b ha hb kb = ground arith

-- Wherever two neighbouring ASCII bytes `a b` stand in a text, raising the first by one and
-- lowering the second by 33 gives another text with the same hash.
str2int_hash-collide :
    (before after : Str) (a b : ℕ)
    → a < 127
    → 33 ≤ b
    → b < 128
    → str2int_hash (before ++ a ∷ b ∷ after) []
      ≡ str2int_hash (before ++ (a + 1) ∷ (b - 33) ∷ after) []
str2int_hash-collide before after a b ha hb kb =
    at a b
    ∙ ap (λ h. djb2 h after) (djb2_step_collide (djb2 5381 before) a b ha hb kb)
    ∙ sym (at (a + 1) (b - 33))
  where
    at :
        (x y : ℕ)
        → str2int_hash (before ++ x ∷ y ∷ after) []
          ≡ djb2 (djb2_step (djb2_step (djb2 5381 before) x) y) after
    at x y = str2int_hash-one (before ++ x ∷ y ∷ after) ∙ djb2-append 5381 before (x ∷ y ∷ after)
