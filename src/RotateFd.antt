-- ===== src/RotateFd.antt =====
-- rotatefd.c: an output file with the least free number behind its name, and the link that shows the
-- last one. The file system is a parameter. Log lines are left out, also that of rfd_free.
pub mod Numbers
use flashflow_research.Prelude.{
  ℕ, zero, suc, ◌+◌, Bool, Option, none, some, ◌++◌, Result, ok, err, undefined, if◌then◌else◌,
  length,
}
use flashflow_research.Prelude.Int.{ℤ}
use flashflow_research.Prelude.Text.{Bytes, codes, decimal, snprintf}

-- What the functions use of the C library.
pub record Files : Type 1 where
  pub World : Type 0
  pub File : Type 0
  -- `access(name, F_OK) >= 0`
  pub exists : Bytes → World → Bool
  pub fopen : Bytes → World → Option File × World
  pub fclose : File → World → World
  pub unlink : Bytes → World → World
  -- Target and link.
  pub symlink : Bytes → Bytes → World → World
  pub basename : Bytes → Bytes

-- `struct rotate_fd`; `none` stands for a null pointer.
pub record Rotated {ℓ} (File : Type ℓ) : Type ℓ where
  pub fname_req : Bytes
  pub fname : Bytes
  pub fd : Option File

-- The buffer has room for five characters more than the name.
unfoldable pub numbered : Bytes → ℕ → Bytes
numbered fname_in next = snprintf (length fname_in + 5) (fname_in ++ codes "." ++ decimal next)

module _ (files : Files) where
  open files use {World, File, exists, fopen, fclose, unlink, symlink, basename}

  -- The loop, with the number of turns that are left.
  unfoldable pub open_from : ℕ → ℕ → Bytes → World → Option (Rotated File) × World
  open_from zero next fname_in w = (none, w)
  open_from (suc left) next fname_in w =
      let name = numbered fname_in next in
      let opened = fopen name w in
      let later = open_from left (next + 1) fname_in w in
      if exists name w
      then later
      else (some (record { fname_req = fname_in; fname = name; fd = opened.0 }), opened.1)

  unfoldable pub rfd_open : Bytes → World → Option (Rotated File) × World
  unfolding open_from
  rfd_open fname_in w = open_from 1000 0 fname_in w

  -- The test `rfd->fd >= 0` holds of every pointer. To close a null pointer is undefined behaviour.
  unfoldable pub rfd_close : Option (Rotated File) → World → Result World
  rfd_close none w = ok w
  rfd_close (some rfd) w =
      let w1 = unlink rfd.fname_req w in
      let w2 = symlink (basename rfd.fname) rfd.fname_req w1 in
      elim rfd.fd [ none ↦ err undefined | some fd ↦ ok (fclose fd w2) ]
