-- ===== src/Tests/Files.antt =====
-- The rotating output files.
use flashflow_research.Prelude.{ℕ, ◌+◌, some, []}
use flashflow_research.Prelude.Text.{codes, bytes_eq}
use flashflow_research.V3bw.Generate.{Texts, Generates, v3bw_generate, v3bw_generate-Generates}
use flashflow_research.Tests.Results.{glib}
use flashflow_research.RotateFd.{Files, rfd_open}
use flashflow_research.RotateFd.Numbers.{FindsNumber, rfd_open-FindsNumber}

-- A directory with the one file out.txt.0; the state counts the calls.
abbrev pub directory : Files
directory = record {
  World = ℕ;
  File = ℕ;
  exists = λ name w. bytes_eq name (codes "out.txt.0");
  fopen = λ name w. (some w, w + 1);
  fclose = λ file w. w + 1;
  unlink = λ name w. w + 1;
  symlink = λ target link w. w + 1;
  basename = λ name. name;
}

rfd_open-FindsNumber_example :
    FindsNumber directory 0 1000 (codes "out.txt") 0 (rfd_open directory (codes "out.txt") 0)
rfd_open-FindsNumber_example = rfd_open-FindsNumber directory (codes "out.txt") 0

-- A results file with no line in it.
abbrev pub no_results : Texts directory
no_results = record {
  open_read = λ name w. (some w, w + 1);
  lines = λ file w. [];
  read_all = λ name w. some [];
  fprintf = λ text file w. w + 1;
  time = λ w. 1000;
}

v3bw_generate-Generates_example :
    Generates glib directory no_results
      (codes "results.txt")
      (codes "out.txt")
      (some 0, 1)
      (v3bw_generate glib directory no_results (codes "results.txt") (codes "out.txt") 0)
v3bw_generate-Generates_example =
    v3bw_generate-Generates glib directory no_results (codes "results.txt") (codes "out.txt") 0
