-- ===== src/V3bw/RoundTrip.antt =====
-- The lines that tc_output_result prints, read by read_input_to_ht.
use mathlib.Core.List.{append_assoc}
use flashflow_research.Prelude.{
  ℕ, ◌-◌, ◌≤◌, ◌≡◌, ◌≢◌, refl, true, some, List, [], ◌∷◌, ◌++◌, arith, length, All, All-append,
  replicate,
}
use flashflow_research.Prelude.Text.{Bytes, codes, decimal, long_max}
use flashflow_research.Prelude.Decimal.{decimal-All, decimal-ne-nil}
use flashflow_research.Os.{Timeval}
use flashflow_research.Meta.{Meta}
use flashflow_research.TorClient.Output.{padded_usec, result_line}
use flashflow_research.V3bw.Info.{MsmInfo}
use flashflow_research.V3bw.Words.{Line, is_fp, trim_newlines, parse_fields, parse_words}
use flashflow_research.V3bw.Words.Laws.{
  NoBlank, IsHex, is_fp_iff, Hex-NoBlank, decimal-NoBlank, replicate-NoBlank,
  as_nonnegative_long-decimal, trim_newlines-append, trim_line_end,
}
use flashflow_research.V3bw.Input.{Glib, join_words, add_line, read_line}

-- A bandwidth report of a Tor client: its time, and the bytes down and up.
unfoldable pub report : ℕ → ℕ → ℕ → Bytes
report ts down up =
    codes "650 SPEEDTESTING " ++ decimal ts ++ codes " " ++ decimal down ++ codes " " ++ decimal up

abbrev result_words : Timeval → ℕ → Bytes → Meta → ℕ → ℕ → ℕ → List Bytes
result_words t m_id fp meta ts down up =
    (decimal t.tv_sec ++ codes "." ++ padded_usec t.tv_usec)
    ∷ decimal m_id
    ∷ fp
    ∷ (meta.class ++ codes ";" ++ meta.host ++ codes ":" ++ meta.port)
    ∷ codes "650"
    ∷ codes "SPEEDTESTING"
    ∷ decimal ts
    ∷ decimal down
    ∷ decimal up
    ∷ []

-- All words but the last, each with the blank behind it.
before_last : Timeval → ℕ → Bytes → Meta → ℕ → ℕ → Bytes
before_last t m_id fp meta ts down =
    decimal t.tv_sec
    ++ codes "."
    ++ padded_usec t.tv_usec
    ++ codes " "
    ++ decimal m_id
    ++ codes " "
    ++ fp
    ++ codes " "
    ++ meta.class
    ++ codes ";"
    ++ meta.host
    ++ codes ":"
    ++ meta.port
    ++ codes " 650 SPEEDTESTING "
    ++ decimal ts
    ++ codes " "
    ++ decimal down
    ++ codes " "

append-ne-nil : (xs ys : Bytes) → ys ≢ [] → xs ++ ys ≢ []
append-ne-nil [] ys h e = h e
append-ne-nil (x ∷ xs) ys h e = cc

module _ (t : Timeval) (m_id : ℕ) (fp : Bytes) (meta : Meta) (ts down up : ℕ) where
  result_line-before_last :
      result_line t m_id fp meta (report ts down up)
      ≡ before_last t m_id fp meta ts down ++ (decimal up ++ 10 ∷ [])
  unfolding result_line report before_last
  result_line-before_last = simp append_assoc

  join_words-before_last :
      join_words (result_words t m_id fp meta ts down up)
      ≡ before_last t m_id fp meta ts down ++ decimal up
  unfolding join_words before_last
  join_words-before_last = simp append_assoc

  result_words-NoBlank :
      All IsHex fp
      → NoBlank meta.class
      → NoBlank meta.host
      → NoBlank meta.port
      → All NoBlank (result_words t m_id fp meta ts down up)
  unfolding padded_usec
  result_words-NoBlank hex class host port = assumption (
    time,
    decimal-NoBlank m_id,
    decimal-NoBlank ts,
    decimal-NoBlank down,
    decimal-NoBlank up,
    Hex-NoBlank fp hex,
    client,
    codes_650,
    codes_name,
  )
    where
      codes_650 : NoBlank (codes "650")
      codes_650 = omega arith

      codes_name : NoBlank (codes "SPEEDTESTING")
      codes_name = omega arith

      usec : NoBlank (padded_usec t.tv_usec)
      usec =
          All-append _ (replicate (6 - length (decimal t.tv_usec)) b'0') _ (replicate-NoBlank _)
            (decimal-NoBlank t.tv_usec)

      time : NoBlank (decimal t.tv_sec ++ codes "." ++ padded_usec t.tv_usec)
      time =
          All-append _ (decimal t.tv_sec ++ codes ".") _
            (All-append _ (decimal t.tv_sec) _ (decimal-NoBlank t.tv_sec) (omega arith)) usec

      client : NoBlank (meta.class ++ codes ";" ++ meta.host ++ codes ":" ++ meta.port)
      client =
          All-append _ (meta.class ++ codes ";" ++ meta.host ++ codes ":") _
            (All-append _ (meta.class ++ codes ";" ++ meta.host) _
              (All-append _ (meta.class ++ codes ";") _
                (All-append _ meta.class _ class (omega arith)) host)
              (omega arith))
            port

  parse_words-result_words :
      is_fp fp ≡ true
      → ts ≤ long_max
      → down ≤ long_max
      → parse_words (result_words t m_id fp meta ts down up)
        ≡ some (record { fp = fp; ts = ts; bwdown = down })
  unfolding parse_words parse_fields
  parse_words-result_words h k l =
      rw (h, as_nonnegative_long-decimal ts k, as_nonnegative_long-decimal down l) refl

read_line_step :
    (glib : Glib) (table : List (Bytes × MsmInfo)) (line trimmed : Bytes) (words : List Bytes)
    (l : Line)
    → trim_newlines line ≡ some trimmed
    → glib.g_strsplit trimmed ≡ words
    → parse_words words ≡ some l
    → read_line glib line table ≡ add_line l table
unfolding read_line
read_line_step glib table line trimmed words l p q r =
    let parsed : parse_words (glib.g_strsplit trimmed) ≡ some l = rw q r in
    rw (p, read_line) (rw parsed refl)

-- A line that tc_output_result prints for a bandwidth report is read back by read_input_to_ht as the
-- fingerprint, time and bandwidth that went into it, whatever the other texts are, as long as no blank
-- is in the client's class, host and port.
pub read_line-result_line :
    (glib : Glib) (t : Timeval) (m_id : ℕ) (fp : Bytes) (meta : Meta) (ts down up : ℕ)
    (table : List (Bytes × MsmInfo))
    → is_fp fp ≡ true
    → NoBlank meta.class
    → NoBlank meta.host
    → NoBlank meta.port
    → ts ≤ long_max
    → down ≤ long_max
    → read_line glib (result_line t m_id fp meta (report ts down up)) table
      ≡ add_line (record { fp = fp; ts = ts; bwdown = down }) table
read_line-result_line glib t m_id fp meta ts down up table h class host port k l =
    let words = result_words t m_id fp meta ts down up in
    let trimmed =
      trim_newlines-append (before_last t m_id fp meta ts down) (decimal up ++ 10 ∷ []) (decimal up)
        (trim_line_end (decimal up) (decimal-ne-nil up) (decimal-All up)) in
    let split =
      glib.g_strsplit_join words
        (rw (join_words-before_last t m_id fp meta ts down up)
          (append-ne-nil _ (decimal up) (decimal-ne-nil up)))
        (omega arith)
        (result_words-NoBlank t m_id fp meta ts down up ((is_fp_iff fp).0 h).1 class host port) in
    rw result_line-before_last (
      read_line_step glib table _ _ _ _ trimmed
        (rw (← join_words-before_last t m_id fp meta ts down up) split)
        (parse_words-result_words t m_id fp meta ts down up h k l))
