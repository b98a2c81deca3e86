-- ===== src/Prelude/Decimal.antt =====
-- The decimal print of a number is read back by `strtol`.
use native.Mathlib.Nat.{pow-suc}
use flashflow_research.Prelude.{
  ℕ, zero, suc, ◌+◌, ◌/◌, ◌%◌, ◌^◌, ◌≤◌, ◌<◌, ◌≡◌, ◌≢◌, refl, ap, ◌∙◌, [], ◌∷◌, arith, inl, inr,
  ◌==◌, Bool-cases, All,
}
use flashflow_research.Prelude.Int.{pos}
use flashflow_research.Prelude.Text.{
  Bytes, digits, decimal, skip_space, scan_digits, strtol, long_max,
}

abbrev pub IsDigit : ℕ → Type 0
IsDigit c = (b'0' ≤ c) × (c ≤ b'9')

digits-All : (fuel n : ℕ) (out : Bytes) → All IsDigit out → All IsDigit (digits fuel n out)
unfolding digits
digits-All zero n out h = h
digits-All (suc fuel) n out h = elim (Bool-cases (n / 10 == 0)) [
  | inl last ↦ rw last (omega arith, h)
  | inr more ↦ rw more (digits-All fuel (n / 10) _ (omega arith, h))
]

digits_grow : (fuel n c : ℕ) (out : Bytes) → digits fuel n (c ∷ out) ≢ []
unfolding digits
digits_grow zero n c out = λ h. cc
digits_grow (suc fuel) n c out = elim (Bool-cases (n / 10 == 0)) [
  | inl last ↦ rw last (λ h. cc)
  | inr more ↦ rw more (digits_grow fuel (n / 10) _ (c ∷ out))
]

digits-ne-nil : (fuel n : ℕ) (out : Bytes) → digits (suc fuel) n out ≢ []
unfolding digits
digits-ne-nil fuel n out = elim (Bool-cases (n / 10 == 0)) [
  | inl last ↦ rw last (λ h. cc)
  | inr more ↦ rw more (digits_grow fuel (n / 10) _ out)
]

-- Reading the last digit of a number behind the others gives the number.
scan_last : (n : ℕ) (out : Bytes) → scan_digits ((b'0' + n % 10) ∷ out) (n / 10) ≡ scan_digits out n
unfolding scan_digits
scan_last n out = ground arith

scan_digits-digits :
    (fuel n : ℕ) (out : Bytes)
    → n < 10 ^ suc fuel
    → scan_digits (digits (suc fuel) n out) 0 ≡ scan_digits out n
unfolding digits
scan_digits-digits zero n out h =
    let small : n / 10 ≡ 0 = omega arith in
    ground (arith, ap (λ q. scan_digits ((b'0' + n % 10) ∷ out) q) small, scan_last n out)
scan_digits-digits (suc fuel) n out h = elim (Bool-cases (n / 10 == 0)) [
  | inl last ↦ let small : n / 10 ≡ 0 = ground arith in rw last (rw small at (scan_last n out))
  | inr more ↦ rw more (
      scan_digits-digits fuel (n / 10) ((b'0' + n % 10) ∷ out)
        (omega (arith, pow-suc 10 (suc fuel)))
      ∙ scan_last n out)
]

pub decimal-All : (n : ℕ) → All IsDigit (decimal n)
unfolding decimal
decimal-All n = digits-All 20 n [] tt

pub decimal-ne-nil : (n : ℕ) → decimal n ≢ []
unfolding decimal
decimal-ne-nil n = digits-ne-nil 19 n []

strtol_digits :
    (s : Bytes) (n : ℕ)
    → s ≢ []
    → All IsDigit s
    → scan_digits s 0 ≡ (n, [])
    → n ≤ long_max
    → strtol s ≡ (pos n, [])
unfolding strtol skip_space
strtol_digits [] n h d e fits = absurd (h refl)
strtol_digits (c ∷ s) n h d e fits = ground arith

-- A number that fits a long is read back whole from its decimal print.
pub strtol-decimal : (n : ℕ) → n ≤ long_max → strtol (decimal n) ≡ (pos n, [])
unfolding decimal scan_digits
strtol-decimal n fits =
    strtol_digits (decimal n) n (decimal-ne-nil n) (decimal-All n)
      (scan_digits-digits 19 n [] (omega arith)) fits
