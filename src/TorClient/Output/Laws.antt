-- ===== src/TorClient/Output/Laws.antt =====
-- What tc_output_result prints and when it takes a client to be done.
use flashflow_research.Prelude.{
  ℕ, ◌<◌, ◌≡◌, ◌≢◌, inl, inr, refl, Bool, true, false, not, Option, none, some, List, [], ◌∷◌, map,
  ok, ◌>>=◌, arith, lt→ltb, if◌then◌else◌, Bool-cases, Option-cases, length, keep_if,
}
use flashflow_research.Prelude.Text.{Bytes, codes, c_string, split_on, is_empty, has_substring}
use flashflow_research.Os.{Os, Timeval}
use flashflow_research.Meta.{Meta, measuring, done}
use flashflow_research.TorClient.State.{good_change, tc_change_state}
use flashflow_research.TorClient.Handshake.{read_buf_len}
use flashflow_research.TorClient.Output.{
  is_newline, trim_line_ends, result_line, print_line, print_tokens, output_received,
  tc_output_result,
}

-- The lines of a text that are not empty.
abbrev pub lines_of : Bytes → List Bytes
lines_of text = keep_if (λ t. not (is_empty t)) (split_on is_newline text)

-- What is left of a receipt: without line ends behind it, up to the first 0.
abbrev pub received_text : Bytes → Bytes
received_text b = elim (trim_line_ends b) [ none ↦ [] | some kept ↦ c_string kept ]

abbrev pub says_end : Bytes → Bool
says_end text = has_substring (codes "650 SPEEDTESTING END") text

finishes :
    (m : Meta) → m.state ≡ measuring → tc_change_state m done ≡ ok (record m { state = done })
unfolding tc_change_state good_change
finishes m h = ground arith

module _ (os : Os) where
  open os use {World, Stream, recv, gettimeofday, print}

  -- Texts printed one after the other.
  abbrev pub print_all : Stream → List Bytes → World → World
  print_all file [] w = w
  print_all file (t ∷ ts) w = print_all file ts (print file t w)

  print_tokens-print_all :
      (line : Bytes → Bytes) (tokens : List Bytes) (file : Stream) (w : World)
      → print_tokens os line tokens (some file) w
        ≡ ok (print_all file (map line (keep_if (λ t. not (is_empty t)) tokens)) w)
  unfolding print_tokens print_line
  print_tokens-print_all line [] file w = refl
  print_tokens-print_all line ([] ∷ ts) file w = print_tokens-print_all line ts file w
  print_tokens-print_all line ((c ∷ t) ∷ ts) file w =
      print_tokens-print_all line ts file (print file (line (c ∷ t)) w)

  -- The outcome of a receipt, for a client that measures.
  abbrev pub output_outcome :
      Meta → ℕ → Bytes → Stream → Timeval → Option Bytes × World → Bool × Meta × World
  output_outcome m m_id fp file t (none, w) = (false, m, w)
  output_outcome m m_id fp file t (some [], w) = (true, record m { state = done }, w)
  output_outcome m m_id fp file t (some (c ∷ b), w) =
      let text = received_text (c ∷ b) in
      let printed = print_all file (map (result_line t m_id fp m) (lines_of text)) w in
      (true, if says_end text then record m { state = done } else m, printed)

  -- A receipt that fits the buffer, and is empty or holds more than line ends.
  abbrev pub IsUsable : Option Bytes → Type 0
  IsUsable none = Unit
  IsUsable (some []) = Unit
  IsUsable (some (c ∷ b)) = (length (c ∷ b) < read_buf_len) × (trim_line_ends (c ∷ b) ≢ none)

  output_received-outcome :
      (m : Meta) (m_id : ℕ) (fp : Bytes) (file : Stream) (t : Timeval) (r : Option Bytes)
      (w : World)
      → m.state ≡ measuring
      → IsUsable r
      → (elim r [
        | none ↦ ok (false, m, w)
        | some [] ↦ (do meta' ← tc_change_state m done; ok (true, meta', w))
        | some (c ∷ s) ↦ output_received os t (c ∷ s) m m_id fp (some file) w
      ])
        ≡ ok (output_outcome m m_id fp file t (r, w))
  unfolding output_received
  output_received-outcome m m_id fp file t none w h u = refl
  output_received-outcome m m_id fp file t (some []) w h u = rw (finishes m h) refl
  output_received-outcome m m_id fp file t (some (c ∷ b)) w h u =
      elim (Option-cases (trim_line_ends (c ∷ b))) [
        | inl nothing ↦ absurd (u.1 nothing)
        | inr (kept, e) ↦
            let text : received_text (c ∷ b) ≡ c_string kept = rw (received_text, e) refl in
            rw (e, lt→ltb _ _ u.0, print_tokens-print_all _ _ file w, text)
              (elim (Bool-cases (says_end (c_string kept))) [
                | inl over ↦ rw (over, finishes m h) refl
                | inr more ↦ rw more refl
              ])
      ]

  -- While a client measures, the clock can be read and the output file is open, tc_output_result
  -- reads once, where the receipt fits the buffer and is not made of line ends only; when the read
  -- fails it returns false and changes nothing; at the end of the stream the client is done; else
  -- one line is printed for each line received that is not empty, in order, and the client is done
  -- exactly when the text has the end mark in it.
  pub tc_output_result-outcome :
      (m : Meta) (m_id : ℕ) (fp : Bytes) (file : Stream) (w : World) (t : Timeval)
      → m.state ≡ measuring
      → (gettimeofday w).0 ≡ some t
      → IsUsable (recv m.fd read_buf_len (gettimeofday w).1).0
      → tc_output_result os m m_id fp (some file) w
        ≡ ok (output_outcome m m_id fp file t (recv m.fd read_buf_len (gettimeofday w).1))
  unfolding tc_output_result
  tc_output_result-outcome m m_id fp file w t h clock u =
      rw (tc_output_result, clock)
        (output_received-outcome m m_id fp file t (recv m.fd read_buf_len (gettimeofday w).1).0
          (recv m.fd read_buf_len (gettimeofday w).1).1 h u)
