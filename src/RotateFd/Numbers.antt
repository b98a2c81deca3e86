-- ===== src/RotateFd/Numbers.antt =====
-- The number that rfd_open chooses.
use flashflow_research.Prelude.{
  ℕ, zero, suc, ◌+◌, ◌*◌, ◌/◌, ◌%◌, ◌≤◌, ◌<◌, ◌≡◌, inl, inr, refl, subst, true, false, Option, none,
  some, [], ◌∷◌, ◌++◌, arith, Bool-cases, length, length-append, take_all,
}
use flashflow_research.Prelude.Text.{Bytes, codes, decimal, digits}
use flashflow_research.RotateFd.{Files, Rotated, numbered, open_from, rfd_open}

-- Ten to the power.
below : ℕ → ℕ
below zero = 1
below (suc d) = 10 * below d

length-digits :
    (fuel n d : ℕ) (out : Bytes)
    → n < 10 * below d
    → length (digits fuel n out) ≤ suc d + length out
unfolding digits below
length-digits zero n d out h = omega arith
length-digits (suc fuel) n zero out h = ground arith
length-digits (suc fuel) n (suc d) out h =
    ground (arith, length-digits fuel (n / 10) d ((b'0' + n % 10) ∷ out))

-- A number below a thousand fits the buffer.
numbered-fits :
    (fname : Bytes) (k : ℕ) → k < 1000 → numbered fname k ≡ fname ++ codes "." ++ decimal k
unfolding numbered decimal below
numbered-fits fname k h = take_all _ _ (
    omega (
      arith,
      length-append (fname ++ codes ".") (digits 20 k []),
      length-append fname (codes "."),
      length-digits 20 k 2 [] h,
    ))

same_number : (n : ℕ) → n ≡ n + 0
same_number n = omega arith

next_number : (n k : ℕ) → n + 1 + k ≡ n + suc k
next_number n k = omega arith

module _ (files : Files) where
  open files use {World, File, exists, fopen}

  -- All numbers from `next` on, `count` of them, are taken.
  abbrev pub AllTaken : ℕ → ℕ → Bytes → World → Type 0
  AllTaken next zero fname w = Unit
  AllTaken next (suc count) fname w =
      (exists (fname ++ codes "." ++ decimal next) w ≡ true) × AllTaken (next + 1) count fname w

  -- The search finds nothing, as all are taken; or the least number that is not, and opens its file.
  abbrev pub FindsNumber : ℕ → ℕ → Bytes → World → Option (Rotated File) × World → Type 0
  FindsNumber next left fname w (none, w') = AllTaken next left fname w × (w' ≡ w)
  FindsNumber next left fname w (some rfd, w') =
      (k : ℕ) × (k < left)
      × AllTaken next k fname w
      × (exists rfd.fname w ≡ false)
      × (rfd.fname ≡ fname ++ codes "." ++ decimal (next + k))
      × (rfd.fname_req ≡ fname)
      × ((rfd.fd, w') ≡ fopen rfd.fname w)

  later-FindsNumber :
      (next left : ℕ) (fname : Bytes) (w : World) (r : Option (Rotated File) × World)
      → exists (fname ++ codes "." ++ decimal next) w ≡ true
      → FindsNumber (next + 1) left fname w r
      → FindsNumber next (suc left) fname w r
  later-FindsNumber next left fname w (none, w') first (rest, same) = ((first, rest), same)
  later-FindsNumber next left fname w (some rfd, w') first (k, h, rest, free, name, req, opened) =
      let renamed =
        subst (λ i. rfd.fname ≡ fname ++ codes "." ++ decimal i) (next_number next k) name in
      (suc k, omega arith, (first, rest), free, renamed, req, opened)

  open_from-FindsNumber :
      (left next : ℕ) (fname : Bytes) (w : World)
      → next + left ≤ 1000
      → FindsNumber next left fname w (open_from files left next fname w)
  unfolding open_from
  open_from-FindsNumber zero next fname w h = (tt, refl)
  open_from-FindsNumber (suc left) next fname w h =
      let fits = numbered-fits fname next (omega arith) in
      elim (Bool-cases (exists (numbered fname next) w)) [
        | inl taken ↦ rw taken (
            later-FindsNumber next left fname w (open_from files left (next + 1) fname w)
              (rw fits at taken) (open_from-FindsNumber left (next + 1) fname w (omega arith)))
        | inr free ↦
            let name =
              subst (λ i. numbered fname next ≡ fname ++ codes "." ++ decimal i) (same_number next)
                fits in
            rw free (0, omega arith, tt, free, name, refl, refl)
      ]

  -- rfd_open takes the least number below a thousand whose file does not exist, and opens that file
  -- for the name asked for; when all of them exist it opens nothing. The buffer cuts no name short.
  pub rfd_open-FindsNumber :
      (fname : Bytes) (w : World) → FindsNumber 0 1000 fname w (rfd_open files fname w)
  unfolding rfd_open
  rfd_open-FindsNumber fname w = open_from-FindsNumber 1000 0 fname w (omega arith)
