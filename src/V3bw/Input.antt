-- ===== src/V3bw/Input.antt =====
-- read_input_to_ht and _v3bw_generate, over GLib's g_strsplit and hash table.
use mathlib.Core.List.{Permᴰ}
use flashflow_research.Prelude.{
  ℕ, ◌≤◌, ◌≡◌, ◌≢◌, none, some, List, [], ◌∷◌, ◌++◌, map, Result, ok, err, undefined, ◌>>=◌, ltb,
  if◌then◌else◌, length, All,
}
use flashflow_research.Prelude.Int.{ℤ, pos}
use flashflow_research.Prelude.Text.{Bytes, codes, bytes_eq, decimal}
use flashflow_research.Meta.{signed_decimal}
use flashflow_research.V3bw.Median.{calc_median}
use flashflow_research.V3bw.Info.{MsmInfo, msm_info_init, msm_info_add}
use flashflow_research.V3bw.Words.{Line, trim_newlines, parse_words}

-- Words joined by single blanks.
unfoldable pub join_words : List Bytes → Bytes
join_words [] = []
join_words (w ∷ []) = w
join_words (w ∷ v ∷ ws) = w ++ b' ' ∷ join_words (v ∷ ws)

-- What the program uses of GLib: `g_strsplit(text, " ", 9)`, and the order in which a table of
-- string keys is walked.
pub record Glib : Type 0 where
  pub g_strsplit : Bytes → List Bytes
  -- Up to nine words with no blank in them are what their join is split into. The empty text is split
  -- into no words.
  pub g_strsplit_join :
      (ws : List Bytes)
      → join_words ws ≢ []
      → length ws ≤ 9
      → All (λ w. All (λ c. c ≢ b' ') w) ws
      → g_strsplit (join_words ws) ≡ ws
  pub walk : List (Bytes × MsmInfo) → List (Bytes × MsmInfo)
  pub walk-perm : (t : List (Bytes × MsmInfo)) → Permᴰ (walk t) t

-- The hash table as the list of its entries. A line's result is added to its relay's entry, or makes
-- one.
unfoldable pub add_line : Line → List (Bytes × MsmInfo) → Result (List (Bytes × MsmInfo))
unfolding msm_info_init
add_line l [] = ok ((l.fp, msm_info_init l.fp l.ts l.bwdown) ∷ [])
add_line l ((fp, msm) ∷ t) =
    if bytes_eq fp l.fp
    then (do msm' ← msm_info_add msm l.ts l.bwdown; ok ((fp, msm') ∷ t))
    else (do t' ← add_line l t; ok ((fp, msm) ∷ t'))

module _ (glib : Glib) where
  open glib use {g_strsplit, walk}

  -- One round of the loop of read_input_to_ht, for a line with its line end.
  unfoldable pub read_line : Bytes → List (Bytes × MsmInfo) → Result (List (Bytes × MsmInfo))
  read_line line t = elim (trim_newlines line) [
    | none ↦ err undefined
    | some trimmed ↦ elim (parse_words (g_strsplit trimmed)) [ none ↦ ok t | some l ↦ add_line l t ]
  ]

  unfoldable pub read_input_to_ht :
      List Bytes → List (Bytes × MsmInfo) → Result (List (Bytes × MsmInfo))
  unfolding read_line
  read_input_to_ht [] t = ok t
  read_input_to_ht (line ∷ lines) t = do t' ← read_line line t; read_input_to_ht lines t'

  -- The bandwidth that is written for a relay: SECS_REQUIRED is 25 and MIN_BW is 20.
  unfoldable pub bandwidth : MsmInfo → ℤ
  unfolding calc_median
  bandwidth msm = if ltb msm.used 25 then pos 20 else calc_median (map pos msm.msms) msm.used

  unfoldable pub relay_line : Bytes × MsmInfo → Bytes
  relay_line (fp, msm) =
      codes "node_id=$" ++ fp ++ codes "\tbw=" ++ signed_decimal (bandwidth msm) ++ codes "\n"

  -- The lines that are written, from those that are read: the time, and a line for each relay.
  unfoldable pub generate : ℕ → List Bytes → Result (List Bytes)
  unfolding read_input_to_ht relay_line bandwidth
  generate time lines = do
    t ← read_input_to_ht lines []
    ok ((decimal time ++ codes "\n") ∷ map relay_line (walk t))
