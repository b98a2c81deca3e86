-- ===== src/TorClient/Output.antt =====
-- tc_output_result: what a client reports while it measures goes to the results file, one line for
-- each line that it sent.
pub mod Laws
use flashflow_research.Prelude.{
  ℕ, ◌-◌, Bool, true, false, Option, none, some, List, [], ◌∷◌, ◌++◌, Result, ok, err, undefined,
  ◌>>=◌, ◌>>◌, guard, ltb, ◌==◌, if◌then◌else◌, length, replicate,
}
use flashflow_research.Prelude.Text.{
  Bytes, codes, decimal, c_string, split_on, is_empty, has_substring,
}
use flashflow_research.Os.{Os, Timeval}
use flashflow_research.Meta.{Meta, done}
use flashflow_research.TorClient.State.{tc_change_state}
use flashflow_research.TorClient.Handshake.{read_buf_len}

abbrev pub is_newline : ℕ → Bool
is_newline c = if c == 13 then true else c == 10

-- `for (j = len-1; buf[j] is '\r' or '\n'; j--) buf[j] = '\0'`: what is left in front, or `none`
-- when the loop runs below the array, as nothing but line ends was received.
unfoldable pub trim_line_ends : Bytes → Option Bytes
trim_line_ends [] = none
trim_line_ends (c ∷ s) = elim (trim_line_ends s) [
  | some t ↦ some (c ∷ t)
  | none ↦ if is_newline c then none else some (c ∷ [])
]

-- `%06ld`
unfoldable pub padded_usec : ℕ → Bytes
unfolding decimal
padded_usec n = replicate (6 - length (decimal n)) b'0' ++ decimal n

-- TS_FMT " %u %s %s;%s:%s %s\n"
unfoldable pub result_line : Timeval → ℕ → Bytes → Meta → Bytes → Bytes
unfolding padded_usec decimal
result_line t m_id fp meta token =
    decimal t.tv_sec
    ++ codes "."
    ++ padded_usec t.tv_usec
    ++ codes " "
    ++ decimal m_id
    ++ codes " "
    ++ fp
    ++ codes " "
    ++ meta.class
    ++ codes ";"
    ++ meta.host
    ++ codes ":"
    ++ meta.port
    ++ codes " "
    ++ token
    ++ codes "\n"

module _ (os : Os) where
  open os use {World, Stream, recv, gettimeofday, print}

  -- The call of `fprintf`. To print to a null pointer is undefined behaviour.
  unfoldable pub print_line : Option Stream → Bytes → World → Result World
  print_line none line w = err undefined
  print_line (some file) line w = ok (print file line w)

  -- The `strsep` loop: an empty token is passed over.
  unfoldable pub print_tokens : (Bytes → Bytes) → List Bytes → Option Stream → World → Result World
  print_tokens line [] out_fd w = ok w
  print_tokens line (t ∷ ts) out_fd w = do
    w' ← if is_empty t then ok w else print_line out_fd (line t) w
    print_tokens line ts out_fd w'

  -- The part of the function behind a receipt that is not empty.
  unfoldable pub output_received :
      Timeval → Bytes → Meta → ℕ → Bytes → Option Stream → World → Result (Bool × Meta × World)
  unfolding trim_line_ends result_line print_tokens
  output_received t received meta m_id fp out_fd w = do
    guard (ltb (length received) read_buf_len) undefined
    elim (trim_line_ends received) [
      | none ↦ err undefined
      | some kept ↦ (do
        let buf = c_string kept
        w' ← print_tokens (result_line t m_id fp meta) (split_on is_newline buf) out_fd w
        if has_substring (codes "650 SPEEDTESTING END") buf
            then (do meta' ← tc_change_state meta done; ok (true, meta', w'))
            else ok (true, meta, w'))
    ]

  -- `out_fd` is `none` for NULL.
  unfoldable pub tc_output_result :
      Meta → ℕ → Bytes → Option Stream → World → Result (Bool × Meta × World)
  unfolding output_received
  tc_output_result meta m_id fp out_fd w = do
    let (now, w1) = gettimeofday w
    elim now [
      | none ↦ ok (false, meta, w1)
      | some t ↦ (do
        let (r, w2) = recv meta.fd read_buf_len w1
        elim r [
          | none ↦ ok (false, meta, w2)
          | some [] ↦ (do meta' ← tc_change_state meta done; ok (true, meta', w2))
          | some (c ∷ s) ↦ output_received t (c ∷ s) meta m_id fp out_fd w2
        ])
    ]
