-- ===== src/V3bw/Generate.antt =====
-- v3bw.c: v3bw_generate, which makes a numbered bandwidth file from the results. Log lines are left out.
use flashflow_research.Prelude.{
  ℕ, ◌+◌, ◌≡◌, ◌⊎◌, inl, inr, refl, ap, ◌∙◌, false, Option, none, some, List, [], ◌∷◌, ◌++◌, Result,
  ok, err, undefined, ◌>>=◌, ◌<◌, subst, arith,
}
use flashflow_research.Prelude.Int.{ℤ, pos, negsuc, minus_one}
use flashflow_research.Prelude.Text.{Bytes, codes, decimal}
use flashflow_research.RotateFd.{Files, Rotated, rfd_open, rfd_close}
use flashflow_research.RotateFd.Numbers.{AllTaken, FindsNumber, rfd_open-FindsNumber}
use flashflow_research.V3bw.Input.{Glib, generate}

-- What is used of the C library beside `Files`.
pub record Texts (files : Files) : Type 0 where
  -- `fopen(name, "r")`
  pub open_read : Bytes → files.World → Option files.File × files.World
  -- What the calls of `getline` give until the end of the file.
  pub lines : files.File → files.World → List Bytes
  -- The lines of a file that is opened, read to its end and closed, if it can be opened.
  pub read_all : Bytes → files.World → Option (List Bytes)
  -- A text that is printed to a file.
  pub fprintf : Bytes → files.File → files.World → files.World
  -- `time(NULL)`
  pub time : files.World → ℕ

zero_add : (k : ℕ) → 0 + k ≡ k
zero_add k = omega arith

module _ (glib : Glib) (files : Files) (texts : Texts files) where
  open files use {World, File, fclose}
  open texts use {open_read, lines, fprintf, time}

  unfoldable pub print_lines : List Bytes → File → World → World
  print_lines [] out w = w
  print_lines (line ∷ more) out w = print_lines more out (fprintf line out w)

  -- _v3bw_generate, with its output file. To print to a null pointer is undefined behaviour. (All that is
  -- printed is known once the input was read.)
  unfoldable pub generate_to : File → Option File → World → Result (ℤ × World)
  generate_to in_fd none w = err undefined
  generate_to in_fd (some out) w = do
    text ← generate glib (time w) (lines in_fd w)
    ok (pos 0, print_lines text out w)

  unfoldable pub v3bw_generate : Bytes → Bytes → World → Result (ℤ × World)
  v3bw_generate in_fname out_fname w = do
    let (in_fd, w1) = open_read in_fname w
    elim in_fd [
      | none ↦ ok (minus_one, w1)
      | some fd ↦ (do
        let (out_rfd, w2) = rfd_open files out_fname w1
        elim out_rfd [
          | none ↦ ok (negsuc 1, fclose fd w2)
          | some rfd ↦ (do
            (ret, w3) ← generate_to fd rfd.fd w2
            w4 ← rfd_close files (some rfd) (fclose fd w3)
            ok (ret, w4))
        ])
    ]

  -- The bandwidth file of a name that was opened: every line is printed to it, and then the link shows it.
  abbrev pub published : File → Bytes → Bytes → Option File × World → Result (ℤ × World)
  published in_fd fname name (none, w) = err undefined
  published in_fd fname name (some out, w) = do
    text ← generate glib (time w) (lines in_fd w)
    ok (
      pos 0,
      fclose out (
          files.symlink (files.basename name) fname
            (files.unlink fname (fclose in_fd (print_lines text out w)))),
    )

  -- What is to come of v3bw_generate: -1 with no input; -2 with all numbers taken, and the input closed; or
  -- a file with the least number that is free.
  abbrev pub Generates : Bytes → Bytes → Option File × World → Result (ℤ × World) → Type 0
  Generates in_fname out_fname (none, w) r = r ≡ ok (minus_one, w)
  Generates in_fname out_fname (some fd, w) r =
      (AllTaken files 0 1000 out_fname w × (r ≡ ok (negsuc 1, fclose fd w)))
      ⊎ ((k : ℕ) × (k < 1000)
          × AllTaken files 0 k out_fname w
          × (files.exists (out_fname ++ codes "." ++ decimal k) w ≡ false)
          × (r
              ≡ published fd out_fname (out_fname ++ codes "." ++ decimal k)
                  (files.fopen (out_fname ++ codes "." ++ decimal k) w)))

  -- The calls behind the text, on the output file that was opened.
  abbrev close_all : File → Bytes → Bytes → Option File → ℤ × World → Result (ℤ × World)
  close_all in_fd fname name out (ret, w) = do
    w' ←
        rfd_close files (some (record { fname_req = fname; fname = name; fd = out }))
          (fclose in_fd w)
    ok (ret, w')

  written :
      (in_fd : File) (fname name : Bytes) (opened : Option File × World)
      → (generate_to in_fd opened.0 opened.1 >>= close_all in_fd fname name opened.0)
        ≡ published in_fd fname name opened
  unfolding generate_to rfd_close
  written in_fd fname name (none, w) = refl
  written in_fd fname name (some out, w) = each (generate glib (time w) (lines in_fd w))
    where
      each :
          (r : Result (List Bytes))
          → ((do text ← r; ok (pos 0, print_lines text out w))
              >>= close_all in_fd fname name (some out))
            ≡ (do
              text ← r
              ok (
                pos 0,
                fclose out (
                    files.symlink
                      (files.basename name)
                      fname
                      (files.unlink fname (fclose in_fd (print_lines text out w)))),
              ))
      each (ok text) = refl
      each (err fault) = refl

  pub v3bw_generate-Generates :
      (in_fname out_fname : Bytes) (w : World)
      → Generates in_fname out_fname (open_read in_fname w) (v3bw_generate in_fname out_fname w)
  unfolding v3bw_generate
  v3bw_generate-Generates in_fname out_fname w = go (open_read in_fname w)
    where
      chosen :
          (fd : File) (w1 : World) (o : Option (Rotated File) × World)
          → FindsNumber files 0 1000 out_fname w1 o
          → Generates in_fname out_fname
              (some fd, w1)
              (elim o.0 [
                | none ↦ ok (negsuc 1, fclose fd o.1)
                | some rfd ↦ (do
                  (ret, w3) ← generate_to fd rfd.fd o.1
                  w4 ← rfd_close files (some rfd) (fclose fd w3)
                  ok (ret, w4))
              ])
      chosen fd w1 (none, w2) (taken, same) = inl (taken, ap (λ w. ok (negsuc 1, fclose fd w)) same)
      chosen fd w1 (some rfd, w2) (k, small, taken, free, name, req, opened) =
          let name' : rfd.fname ≡ out_fname ++ codes "." ++ decimal k =
            subst (λ i. rfd.fname ≡ out_fname ++ codes "." ++ decimal i) (zero_add k) name in
          let here : (rfd.fd, w2) ≡ files.fopen (out_fname ++ codes "." ++ decimal k) w1 =
            opened ∙ ap (λ n. files.fopen n w1) name' in
          inr (
            k,
            small,
            taken,
            subst (λ n. files.exists n w1 ≡ false) name' free,
            written fd rfd.fname_req rfd.fname (rfd.fd, w2)
                ∙ (λ i. published fd (req i) (name' i) (here i)),
          )

      go :
          (i : Option File × World)
          → Generates in_fname out_fname i (elim i.0 [
            | none ↦ ok (minus_one, i.1)
            | some fd ↦ (do
              let (out_rfd, w2) = rfd_open files out_fname i.1
              elim out_rfd [
                | none ↦ ok (negsuc 1, fclose fd w2)
                | some rfd ↦ (do
                  (ret, w3) ← generate_to fd rfd.fd w2
                  w4 ← rfd_close files (some rfd) (fclose fd w3)
                  ok (ret, w4))
              ])
          ])
      go (none, w1) = refl
      go (some fd, w1) =
          chosen fd w1 (rfd_open files out_fname w1) (rfd_open-FindsNumber files out_fname w1)
