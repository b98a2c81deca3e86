-- ===== src/Prelude/Text.antt =====
-- C strings as lists of byte values, without the final 0, and the library calls made on them.
use Prim.Native.Nat.{ℕ, zero, suc, ◌+◌, ◌-◌, ◌*◌, ◌/◌, ◌%◌, ◌^◌, min}
use Prim.Native.Char.{code}
use Prim.Native.String.{String}
use mathlib.Core.Path.{◌≡◌, refl}
use mathlib.Core.Bool.{Bool, true, false, ◌&&◌}
use mathlib.Core.List.{List, [], ◌∷◌, ◌++◌}
use native.Mathlib.Omega.{arith}
use flashflow_research.Prelude.Tests.{◌==◌, leb, if◌then◌else◌}
use flashflow_research.Prelude.Lists.{take}
use flashflow_research.Prelude.Int.{ℤ, pos, negsuc}

abbrev pub Bytes : Type 0
Bytes = List ℕ

-- The codes of a literal: its bytes, as it is ASCII.
abbrev pub codes : String → Bytes
codes String.[] = []
codes (String.◌∷◌ c s) = code c ∷ codes s

-- `!strcmp(a, b)`
abbrev pub bytes_eq : Bytes → Bytes → Bool
bytes_eq [] [] = true
bytes_eq [] (d ∷ b) = false
bytes_eq (c ∷ a) [] = false
bytes_eq (c ∷ a) (d ∷ b) = (c == d) && bytes_eq a b

pub bytes_eq_sound : (a b : Bytes) → bytes_eq a b ≡ true → a ≡ b
bytes_eq_sound [] [] h = refl
bytes_eq_sound [] (d ∷ b) h = cc
bytes_eq_sound (c ∷ a) [] h = cc
bytes_eq_sound (c ∷ a) (d ∷ b) h = ground (arith, bytes_eq_sound a b)

pub bytes_eq_refl : (a : Bytes) → bytes_eq a a ≡ true
bytes_eq_refl [] = refl
bytes_eq_refl (c ∷ a) = ground (arith, bytes_eq_refl a)

-- `!strncmp(s, prefix, strlen(prefix))`: the prefix has no 0 in it.
abbrev pub has_prefix : Bytes → Bytes → Bool
has_prefix [] s = true
has_prefix (c ∷ p) [] = false
has_prefix (c ∷ p) (d ∷ s) = (c == d) && has_prefix p s

pub has_prefix-append : (p s : Bytes) → has_prefix p (p ++ s) ≡ true
has_prefix-append [] s = refl
has_prefix-append (c ∷ p) s = ground (arith, has_prefix-append p s)

-- `strstr(s, needle) != NULL`
pub has_substring : Bytes → Bytes → Bool
has_substring needle [] = has_prefix needle []
has_substring needle (c ∷ s) =
    let rest = has_substring needle s in if has_prefix needle (c ∷ s) then true else rest

-- The array as a C string: what stands before the first 0.
abbrev pub c_string : Bytes → Bytes
c_string [] = []
c_string (c ∷ s) = if c == 0 then [] else c ∷ c_string s

-- A byte goes in front of the first part.
abbrev pub cons_head : ℕ → List Bytes → List Bytes
cons_head c [] = (c ∷ []) ∷ []
cons_head c (t ∷ ts) = (c ∷ t) ∷ ts

-- The calls of `strsep` until it returns NULL: the text is cut at every byte that is a delimiter,
-- and two delimiters in a row give an empty part.
unfoldable pub split_on : (ℕ → Bool) → Bytes → List Bytes
split_on delim [] = [] ∷ []
split_on delim (c ∷ s) =
    let rest = split_on delim s in if delim c then [] ∷ rest else cons_head c rest

abbrev pub is_empty : Bytes → Bool
is_empty [] = true
is_empty (c ∷ s) = false

-- The decimal digits of a number that has at most as many as the fuel.
unfoldable pub digits : ℕ → ℕ → Bytes → Bytes
digits zero n out = out
digits (suc fuel) n out =
    let rest = digits fuel (n / 10) ((b'0' + n % 10) ∷ out) in
    if n / 10 == 0 then (b'0' + n % 10) ∷ out else rest

-- `%u` and `%ld` of a number that is not negative: twenty digits hold every 64-bit value.
unfoldable pub decimal : ℕ → Bytes
decimal n = digits 20 n []

-- `snprintf(buf, size, …)`: what does not fit before the final 0 is dropped.
abbrev pub snprintf : ℕ → Bytes → Bytes
snprintf size text = take (size - 1) text

-- `isspace` in the C locale.
abbrev pub is_space : ℕ → Bool
is_space c = if c == b' ' then true else leb 9 c && leb c 13

abbrev pub is_digit : ℕ → Bool
is_digit c = leb b'0' c && leb c b'9'

unfoldable pub skip_space : Bytes → Bytes
skip_space [] = []
skip_space (c ∷ s) = let rest = skip_space s in if is_space c then rest else c ∷ s

-- The number that the digits in front spell behind `n`, with what follows them. The second
-- component says whether there was a digit.
unfoldable pub scan_digits : Bytes → ℕ → ℕ × Bytes
scan_digits [] n = (n, [])
scan_digits (c ∷ s) n =
    let rest = scan_digits s (n * 10 + (c - b'0')) in if is_digit c then rest else (n, c ∷ s)

-- LONG_MAX
abbrev pub long_max : ℕ
long_max = 2 ^ 63 - 1

-- The sign and the digits behind the white space. Past its range `strtol` stays at the end of it.
abbrev pub strtol_sign : Bytes → Bool × Bytes
strtol_sign [] = (false, [])
strtol_sign (c ∷ s) =
    if c == b'-' then (true, s) else if c == b'+' then (false, s) else (false, c ∷ s)

abbrev pub starts_with_digit : Bytes → Bool
starts_with_digit [] = false
starts_with_digit (c ∷ s) = is_digit c

-- -n, and no less than LONG_MIN.
abbrev pub negative_long : ℕ → ℤ
negative_long zero = pos 0
negative_long (suc n) = negsuc (min n long_max)

-- `strtol(s, &end, 10)`: the value, and the text at `end`. With no digit `end` is `s`.
unfoldable pub strtol : Bytes → ℤ × Bytes
unfolding skip_space scan_digits
strtol s =
    let (minus, t) = strtol_sign (skip_space s) in
    let (n, rest) = scan_digits t 0 in
    if starts_with_digit t
    then (if minus then negative_long n else pos (min n long_max), rest)
    else (pos 0, s)
