-- ===== src/V3bw/Words.antt =====
-- is_fp, as_nonnegative_long, trim_newlines, and the test of one line's words.
pub mod Laws
use flashflow_research.Prelude.{
  ℕ, Bool, true, false, not, ◌&&◌, ◌||◌, Option, none, some, List, [], ◌∷◌, ltb, ◌==◌,
  if◌then◌else◌, length,
}
use flashflow_research.Prelude.Int.{ℤ, pos, negsuc, minus_one}
use flashflow_research.Prelude.Text.{Bytes, codes, has_prefix, strtol, is_empty}

-- The loop of is_fp. (A byte above 127 is negative as a `char`: it fails the first test in C, the
-- last one here.)
unfoldable pub fp_chars : Bytes → Bool
fp_chars [] = true
fp_chars (c ∷ s) =
    if ltb c b'0' || ltb b'9' c && ltb c b'A' || ltb b'F' c then false else fp_chars s

unfoldable pub is_fp : Bytes → Bool
unfolding fp_chars
is_fp word = if not (length word == 40) then false else fp_chars word

-- -1 stands for a word that is no number; a negative number is returned too.
unfoldable pub as_nonnegative_long : Bytes → ℤ
unfolding strtol
as_nonnegative_long [] = minus_one
as_nonnegative_long (c ∷ s) = if is_empty (strtol (c ∷ s)).1 then (strtol (c ∷ s)).0 else minus_one

-- The newlines at the end of a line are dropped. `none`: the line is nothing but newlines, and the
-- loop reads in front of it.
unfoldable pub trim_newlines : Bytes → Option Bytes
trim_newlines [] = none
trim_newlines (c ∷ s) = elim (trim_newlines s) [
  | some t ↦ some (c ∷ t)
  | none ↦ if c == 10 then none else some (c ∷ [])
]

-- What a line gives: a fingerprint, a time and a bandwidth.
pub record Line : Type 0 where
  pub fp : Bytes
  pub ts : ℕ
  pub bwdown : ℕ

-- The loop over the words looks at the third, the seventh and the eighth, and stops at the first of
-- them that is not as it should be.
unfoldable pub parse_fields : Bytes → Bytes → Bytes → Option Line
parse_fields fp_word ts_word bw_word =
    if not (is_fp fp_word) then none else elim (as_nonnegative_long ts_word) [
      | negsuc n ↦ none
      | pos ts ↦ elim (as_nonnegative_long bw_word) [
        | negsuc n ↦ none
        | pos bwdown ↦ some (record { fp = fp_word; ts = ts; bwdown = bwdown })
      ]
    ]

-- The tests on the words of a line, `none` where the line is passed over.
unfoldable pub parse_words : List Bytes → Option Line
unfolding parse_fields
parse_words (w0 ∷ w1 ∷ fp ∷ w3 ∷ code ∷ name ∷ ts ∷ bw ∷ w8 ∷ []) =
    if not (has_prefix (codes "650") code)
    then none
    else if not (has_prefix (codes "SPEEDTESTING") name)
    then none
    else parse_fields fp ts bw
parse_words _ = none
