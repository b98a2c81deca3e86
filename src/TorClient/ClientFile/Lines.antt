-- ===== src/TorClient/ClientFile/Lines.antt =====
-- Which lines of the client file are clients.
use mathlib.Core.Path.{fun_ext}
use flashflow_research.Prelude.{
  ℕ, zero, suc, ◌≡◌, inl, inr, refl, ap, false, not, Option, none, some, List, [], ◌∷◌, Result,
  Returns, ok, err, undefined, ◌>>=◌, arith, ◌==◌, if◌then◌else◌, Bool-cases, All, keep_if, take,
}
use flashflow_research.Prelude.Text.{Bytes, split_on, is_empty}
use flashflow_research.Meta.{Meta}
use flashflow_research.TorClient.ClientFile.{
  is_delimiter, Tokens, no_tokens, take_token, take_tokens, make_meta, meta_of_tokens,
  read_client_line, read_clients, max_num_ctrl_socks, tc_client_file_read,
}

-- The tokens of a line that are not empty.
abbrev pub words : Bytes → List Bytes
words line = keep_if (λ t. not (is_empty t)) (split_on is_delimiter line)

take_words :
    (k : Tokens) (ts : List Bytes)
    → take_tokens k ts ≡ take_tokens k (keep_if (λ t. not (is_empty t)) ts)
unfolding take_tokens
take_words k [] = refl
take_words k ([] ∷ ts) = take_words k ts
take_words k ((c ∷ t) ∷ ts) = ap (λ f. take_token k (c ∷ t) >>= f) (fun_ext λ k'. take_words k' ts)

-- The fields of a line's words.
abbrev pub client_of : List Bytes → Option Meta
client_of (class ∷ host ∷ port ∷ pw ∷ []) = some (make_meta class host port pw)
client_of _ = none

-- Past the fifth word the texts have been freed, and one word more frees them again.
abbrev pub read_words : List Bytes → Result (Option Meta)
read_words (a ∷ b ∷ c ∷ d ∷ e ∷ f ∷ ws) = err undefined
read_words ws = ok (client_of ws)

take_tokens-words :
    (ws : List Bytes)
    → All (λ t. is_empty t ≡ false) ws
    → (take_tokens no_tokens ws >>= λ k. ok (meta_of_tokens k)) ≡ read_words ws
unfolding take_tokens meta_of_tokens take_token
take_tokens-words [] h = refl
take_tokens-words (a ∷ []) h = ground arith
take_tokens-words (a ∷ b ∷ []) h = ground arith
take_tokens-words (a ∷ b ∷ c ∷ []) h = ground arith
take_tokens-words (a ∷ b ∷ c ∷ d ∷ []) h = ground arith
take_tokens-words (a ∷ b ∷ c ∷ d ∷ e ∷ []) h = ground arith
take_tokens-words (a ∷ b ∷ c ∷ d ∷ e ∷ f ∷ ws) h = ground arith

words_not_empty :
    (ts : List Bytes) → All (λ t. is_empty t ≡ false) (keep_if (λ t. not (is_empty t)) ts)
words_not_empty [] = tt
words_not_empty ([] ∷ ts) = words_not_empty ts
words_not_empty ((c ∷ t) ∷ ts) = (refl, words_not_empty ts)

-- What a line is to give: nothing for a comment, a client for four words, nothing for any other
-- number up to five.
abbrev pub line_result : Bytes → Result (Option Meta)
line_result [] = ok none
line_result (c ∷ line) = if c == b'#' then ok none else read_words (words (c ∷ line))

-- A line that is no comment is a client exactly when it has four words between blanks, which are then
-- its fields; with three or fewer, or with five, it is passed over; with six or more the texts are
-- freed twice.
pub read_client_line_lem : (line : Bytes) → read_client_line line ≡ line_result line
unfolding read_client_line
read_client_line_lem [] = refl
read_client_line_lem (c ∷ line) = elim (Bool-cases (c == b'#')) [
  | inl comment ↦ rw comment refl
  | inr text ↦
      rw (text, take_words no_tokens (split_on is_delimiter (c ∷ line)))
        (take_tokens-words (words (c ∷ line)) (words_not_empty (split_on is_delimiter (c ∷ line))))
]

-- The clients of the lines, in order.
abbrev pub clients : List Bytes → List Meta
clients [] = []
clients (line ∷ lines) = elim (line_result line) [
  | err e ↦ clients lines
  | ok r ↦ elim r [ none ↦ clients lines | some m ↦ m ∷ clients lines ]
]

-- A line without a sixth word.
abbrev pub IsReadable : Bytes → Type 0
IsReadable line = Returns (line_result line) (λ r. Unit {0})

-- A round of the loop, by what its line gives.
read_round :
    (room : ℕ) (lines : List Bytes) (r : Result (Option Meta))
    → Returns r (λ m. Unit {0})
    → read_clients (suc room) lines ≡ ok (take (suc room) (clients lines))
    → read_clients room lines ≡ ok (take room (clients lines))
    → (r >>= λ read. elim read [
      | none ↦ read_clients (suc room) lines
      | some m ↦ read_clients room lines >>= λ ms. ok (m ∷ ms)
    ])
      ≡ ok (
          take (suc room) (elim r [
            | err e ↦ clients lines
            | ok r ↦ elim r [ none ↦ clients lines | some m ↦ m ∷ clients lines ]
          ]))
read_round room lines (ok none) h skip take_one = skip
read_round room lines (ok (some m)) h skip take_one = rw take_one refl
read_round room lines (err e) h skip take_one = elim h [ ]

read_clients-clients :
    (room : ℕ) (lines : List Bytes)
    → All IsReadable lines
    → read_clients room lines ≡ ok (take room (clients lines))
unfolding read_clients
read_clients-clients zero lines h = refl
read_clients-clients (suc room) [] h = refl
read_clients-clients (suc room) (line ∷ lines) h = rw read_client_line_lem (
    read_round room lines (line_result line) h.0 (read_clients-clients (suc room) lines h.1)
      (read_clients-clients room lines h.1))

-- A file in which no line has a sixth word is read: its clients are those of its lines, in order, as
-- many of them as the array has room for.
pub tc_client_file_read-clients :
    (lines : List Bytes)
    → All IsReadable lines
    → tc_client_file_read (some lines) ≡ ok (some (take max_num_ctrl_socks (clients lines)))
unfolding tc_client_file_read
tc_client_file_read-clients lines h = rw (read_clients-clients max_num_ctrl_socks lines h) refl
