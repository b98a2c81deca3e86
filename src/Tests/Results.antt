-- ===== src/Tests/Results.antt =====
-- The results and the bandwidth file.
use mathlib.Core.List.Permᴰ
use flashflow_research.Prelude.{
  ℕ, zero, suc, ◌++◌, ap, ◌==◌, if◌then◌else◌, ◌≢◌, ◌≤◌, ◌<◌, ◌≡◌, refl, List, [], ◌∷◌, arith,
  Returns, All, length, count_if,
}
use flashflow_research.Prelude.Int.{ℤ, pos, ltb_ℤ}
use flashflow_research.Prelude.Text.{Bytes, codes, cons_head}
use flashflow_research.Os.{Timeval}
use flashflow_research.TorClient.Output.{result_line}
use flashflow_research.V3bw.Median.{leb_ℤ, calc_median, calc_median_lem}
use flashflow_research.V3bw.Info.{msm_info_init}
use flashflow_research.V3bw.Info.Sums.{Sample, total, Represents, add_all, add_all-sums}
use flashflow_research.V3bw.Words.{is_fp}
use flashflow_research.V3bw.Input.{Glib, join_words, add_line, read_line}
use flashflow_research.V3bw.Words.Laws.{NoBlank}
use flashflow_research.V3bw.RoundTrip.{report, read_line-result_line}
use flashflow_research.Tests.Samples.{busy_client}

-- The text cut at its first blanks into at most n + 1 parts.
cut : ℕ → Bytes → List Bytes
cut n [] = [] ∷ []
cut zero (c ∷ s) = (c ∷ s) ∷ []
cut (suc n) (c ∷ s) =
    let rest = cut (suc n) s in if c == b' ' then [] ∷ cut n s else cons_head c rest

cut-last : (n : ℕ) (w : Bytes) → NoBlank w → cut n w ≡ w ∷ []
unfolding cut
cut-last n [] h = refl
cut-last zero (c ∷ w) h = refl
cut-last (suc n) (c ∷ w) h = ground (arith, cut-last (suc n) w h.1)

cut-word : (n : ℕ) (w rest : Bytes) → NoBlank w → cut (suc n) (w ++ b' ' ∷ rest) ≡ w ∷ cut n rest
unfolding cut
cut-word n [] rest h = refl
cut-word n (c ∷ w) rest h = ground (arith, cut-word n w rest h.1)

cut-join_words :
    (n : ℕ) (w : Bytes) (ws : List Bytes)
    → length ws ≤ n
    → All NoBlank (w ∷ ws)
    → cut n (join_words (w ∷ ws)) ≡ w ∷ ws
unfolding join_words
cut-join_words n w [] h k = cut-last n w k.0
cut-join_words zero w (v ∷ vs) h k = absurd (omega arith)
cut-join_words (suc n) w (v ∷ vs) h k =
    rw (cut-word n w (join_words (v ∷ vs)) k.0)
      (ap (◌∷◌ w) (cut-join_words n v vs (omega arith) k.1))

pub strsplit : Bytes → List Bytes
strsplit [] = []
strsplit (c ∷ s) = cut 8 (c ∷ s)

strsplit-cut : (s : Bytes) → s ≢ [] → strsplit s ≡ cut 8 s
unfolding cut strsplit
strsplit-cut [] h = absurd (h refl)
strsplit-cut (c ∷ s) h = refl

pub strsplit-join_words :
    (ws : List Bytes)
    → join_words ws ≢ []
    → length ws ≤ 9
    → All NoBlank ws
    → strsplit (join_words ws) ≡ ws
unfolding join_words
strsplit-join_words [] h k l = absurd (h refl)
strsplit-join_words (w ∷ ws) h k l =
    rw (strsplit-cut (join_words (w ∷ ws)) h) (cut-join_words 8 w ws (omega arith) l)

abbrev pub glib : Glib
glib = record {
  g_strsplit = strsplit;
  g_strsplit_join = strsplit-join_words;
  walk = λ t. t;
  walk-perm = λ t. Permᴰ.refl t;
}

abbrev relay : Bytes
relay = codes "0123456789ABCDEF0123456789ABCDEF01234567"

abbrev printed_at : Timeval
printed_at = record { tv_sec = 1600000000; tv_usec = 42 }

read_line-result_line_example :
    read_line glib (result_line printed_at 7 relay busy_client (report 1600000000 5000 6000)) []
    ≡ add_line (record { fp = relay; ts = 1600000000; bwdown = 5000 }) []
unfolding is_fp
read_line-result_line_example =
    read_line-result_line glib printed_at 7 relay busy_client 1600000000 5000 6000 [] refl
      (omega arith) (omega arith) (omega arith) (omega arith) (omega arith)

abbrev sample : Sample
sample = record { ts = 100; bw = 7 }

abbrev later : Sample
later = record { ts = 102; bw = 9 }

add_all-sums_example :
    Returns
      (add_all (msm_info_init relay 100 7) (later ∷ later ∷ []))
      (λ m. Represents (sample ∷ later ∷ later ∷ []) m × (m.first ≡ 100) × (m.fp ≡ relay))
unfolding total
add_all-sums_example = add_all-sums relay sample (later ∷ later ∷ []) (omega arith) (omega arith)

abbrev numbers : List ℤ
numbers = pos 5 ∷ pos 3 ∷ pos 9 ∷ []

calc_median_lem_example :
    (count_if (λ x. ltb_ℤ x (calc_median numbers 3)) numbers ≤ 1)
    × (1 < count_if (λ x. leb_ℤ x (calc_median numbers 3)) numbers)
calc_median_lem_example = calc_median_lem numbers 3 (omega arith) (omega arith)
