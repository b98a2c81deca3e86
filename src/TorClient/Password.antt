-- ===== src/TorClient/Password.antt =====
-- The 80-byte buffer of tc_auth_socket against the length of the password.
use flashflow_research.Prelude.{
  ℕ, zero, suc, ◌+◌, ◌≤◌, ◌<◌, ◌≡◌, ◌≢◌, ◌⊎◌, inl, inr, Bool-cases, leb, leb→le, some, List, [],
  ◌∷◌, ◌++◌, arith, length, take, All, length-append, take_all,
}
use flashflow_research.Prelude.Text.{Bytes, codes, snprintf}
use flashflow_research.TorClient.Handshake.{auth_message}

take_before {ℓ} :
    {A : Type ℓ} (P : A → Type 0) (n : ℕ) (xs : List A) (c : A) (rest : List A)
    → n ≤ length xs + 1
    → All P xs
    → P c
    → All P (take n (xs ++ c ∷ rest))
take_before P zero xs c rest h hx hc = tt
take_before P (suc zero) [] c rest h hx hc = (hc, tt)
take_before P (suc (suc n)) [] c rest h hx hc = absurd (omega arith)
take_before P (suc n) (x ∷ xs) c rest h hx hc =
    (hx.0, take_before P n xs c rest (omega arith) hx.1 hc)

-- Of passwords with no line end in themselves, one of up to 63 bytes is sent whole, in a line that is
-- closed by a line end. A longer one makes a command that is cut short and has no line end at all.
pub auth_message_fits :
    (pw : Bytes)
    → All (λ c. c ≢ 10) pw
    → ((length pw ≤ 63)
        × (snprintf 80 (auth_message (some pw)) ≡ codes "AUTHENTICATE \"" ++ pw ++ codes "\"\n"))
      ⊎ ((63 < length pw) × All (λ c. c ≢ 10) (snprintf 80 (auth_message (some pw))))
unfolding auth_message
auth_message_fits pw no_end = elim (Bool-cases (leb (length pw) 63)) [
  | inl short ↦
      let fits : length pw ≤ 63 = leb→le _ _ short in
      inl (fits, take_all 79 _ (omega (arith, length-append pw (codes "\"\n"))))
  | inr long ↦
      let more : 63 < length pw = ground arith in
      let tail =
        take_before (λ c. c ≢ 10) 65 pw b'"' (10 ∷ []) (omega arith) no_end (omega arith) in
      inr (more, ground arith)
]
