-- ===== src/V3bw/Words/Laws.antt =====
-- What the tests on words and the reader of numbers let through.
use flashflow_research.Prelude.{
  ℕ, zero, suc, ◌≤◌, ◌≡◌, ◌≢◌, ◌↔◌, ◌⊎◌, refl, true, some, [], ◌∷◌, ◌++◌, arith, length, All,
  replicate,
}
use flashflow_research.Prelude.Int.{pos}
use flashflow_research.Prelude.Text.{Bytes, decimal, strtol, long_max}
use flashflow_research.Prelude.Decimal.{IsDigit, decimal-All, decimal-ne-nil, strtol-decimal}
use flashflow_research.V3bw.Words.{fp_chars, is_fp, as_nonnegative_long, trim_newlines}

-- No blank in a word.
abbrev pub NoBlank : Bytes → Type 0
NoBlank = All (λ c. c ≢ b' ')

-- A digit or a letter from A to F.
abbrev pub IsHex : ℕ → Type 0
IsHex c = ((b'0' ≤ c) × (c ≤ b'9')) ⊎ ((b'A' ≤ c) × (c ≤ b'F'))

fp_chars-All : (s : Bytes) → fp_chars s ≡ true → All IsHex s
unfolding fp_chars
fp_chars-All [] h = tt
fp_chars-All (c ∷ s) h = (ground arith, fp_chars-All s (ground arith))

All-fp_chars : (s : Bytes) → All IsHex s → fp_chars s ≡ true
unfolding fp_chars
All-fp_chars [] h = refl
All-fp_chars (c ∷ s) h = ground (arith, All-fp_chars s h.1)

-- A word is a fingerprint exactly when it is 40 upper-case hexadecimal digits.
pub is_fp_iff : (s : Bytes) → (is_fp s ≡ true) ↔ ((length s ≡ 40) × All IsHex s)
unfolding is_fp
is_fp_iff s =
    (λ h. (ground arith, fp_chars-All s (ground arith)), λ h. ground (arith, All-fp_chars s h.1))

pub Hex-NoBlank : (s : Bytes) → All IsHex s → NoBlank s
Hex-NoBlank [] h = tt
Hex-NoBlank (c ∷ s) h = (ground (arith, h.0), Hex-NoBlank s h.1)

Digits-NoBlank : (s : Bytes) → All IsDigit s → NoBlank s
Digits-NoBlank [] h = tt
Digits-NoBlank (c ∷ s) h = (omega (arith, h.0), Digits-NoBlank s h.1)

pub decimal-NoBlank : (n : ℕ) → NoBlank (decimal n)
decimal-NoBlank n = Digits-NoBlank (decimal n) (decimal-All n)

pub replicate-NoBlank : (k : ℕ) → NoBlank (replicate k b'0')
replicate-NoBlank zero = tt
replicate-NoBlank (suc k) = (omega arith, replicate-NoBlank k)

-- Number read back.
pub as_nonnegative_long-decimal : (n : ℕ) → n ≤ long_max → as_nonnegative_long (decimal n) ≡ pos n
as_nonnegative_long-decimal n fits = go (decimal n) (decimal-ne-nil n) (strtol-decimal n fits)
  where
    go : (s : Bytes) → s ≢ [] → strtol s ≡ (pos n, []) → as_nonnegative_long s ≡ pos n
    go [] h e = absurd (h refl)
    go (c ∷ s) h e = unfold as_nonnegative_long in rw e refl

pub trim_newlines-append :
    (xs ys zs : Bytes) → trim_newlines ys ≡ some zs → trim_newlines (xs ++ ys) ≡ some (xs ++ zs)
unfolding trim_newlines
trim_newlines-append [] ys zs h = h
trim_newlines-append (c ∷ xs) ys zs h = rw (trim_newlines-append xs ys zs h) refl

pub trim_line_end : (s : Bytes) → s ≢ [] → All IsDigit s → trim_newlines (s ++ 10 ∷ []) ≡ some s
unfolding trim_newlines
trim_line_end [] h d = absurd (h refl)
trim_line_end (c ∷ []) h d = ground (arith, d.0)
trim_line_end (c ∷ e ∷ s) h d = rw (trim_line_end (e ∷ s) (λ p. cc) d.1) refl
