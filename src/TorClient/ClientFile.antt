-- ===== src/TorClient/ClientFile.antt =====
-- tc_client_file_read: the file of Tor clients, one to a line, 'class host port ctrl_port_pw'.
pub mod Lines
use flashflow_research.Prelude.{
  ℕ, zero, suc, ◌+◌, ◌≡◌, Bool, true, false, ◌&&◌, ◌||◌, Option, none, some, List, [], ◌∷◌, ◌++◌,
  Result, ok, err, undefined, ◌>>=◌, ltb, ◌==◌, if◌then◌else◌,
}
use flashflow_research.Prelude.Int.{minus_one}
use flashflow_research.Prelude.Text.{Bytes, codes, has_prefix, split_on, is_empty}
use flashflow_research.Meta.{Meta, invalid}

-- MAX_NUM_CTRL_SOCKS
abbrev pub max_num_ctrl_socks : ℕ
max_num_ctrl_socks = 4096

abbrev pub is_delimiter : ℕ → Bool
is_delimiter c = if c == b' ' then true else c == 10

-- The four pointers of a round, the number of tokens so far, and whether the pointers were freed.
pub record Tokens : Type 0 where
  pub class : Option Bytes
  pub host : Option Bytes
  pub port : Option Bytes
  pub pw : Option Bytes
  pub token_num : ℕ
  pub freed : Bool

abbrev pub no_tokens : Tokens
no_tokens = record {
  class = none;
  host = none;
  port = none;
  pw = none;
  token_num = 0;
  freed = false;
}

-- The `switch` on the number of a token. Its `default` frees the four texts and keeps the pointers,
-- so to come there once more frees them twice.
unfoldable pub take_token : Tokens → Bytes → Result Tokens
take_token k token =
    let next = record k { token_num = k.token_num + 1 } in
    if k.token_num == 0
    then ok (record next { class = some token })
    else if k.token_num == 1
    then ok (record next { host = some token })
    else if k.token_num == 2
    then ok (record next { port = some token })
    else if k.token_num == 3
    then ok (record next { pw = some token })
    else if k.freed
    then err undefined
    else ok (record next { freed = true })

unfoldable pub take_tokens : Tokens → List Bytes → Result Tokens
unfolding take_token
take_tokens k [] = ok k
take_tokens k (t ∷ ts) =
    if is_empty t then take_tokens k ts else (do k' ← take_token k t; take_tokens k' ts)

unfoldable pub make_meta : Bytes → Bytes → Bytes → Bytes → Meta
make_meta class host port pw = record {
  fd = minus_one;
  state = invalid;
  class = class;
  host = host;
  port = port;
  pw = some pw;
  is_bg = has_prefix (codes "bg") class;
  current_m_id = 0;
}

-- The test behind the tokens: the client, or `none` where the line is passed over.
unfoldable pub meta_of_tokens : Tokens → Option Meta
unfolding make_meta
meta_of_tokens k = elim k.class [
  | none ↦ none
  | some class ↦ elim k.host [
    | none ↦ none
    | some host ↦ elim k.port [
      | none ↦ none
      | some port ↦ elim k.pw [
        | none ↦ none
        | some pw ↦ if k.token_num == 4 then some (make_meta class host port pw) else none
      ]
    ]
  ]
]

-- One line, as `getline` gives it.
unfoldable pub read_client_line : Bytes → Result (Option Meta)
unfolding take_tokens meta_of_tokens
read_client_line [] = ok none
read_client_line (c ∷ line) =
    if c == b'#'
    then ok none
    else (do k ← take_tokens no_tokens (split_on is_delimiter (c ∷ line)); ok (meta_of_tokens k))

-- The loop, with room for so many clients more. It returns at the end of the file or when the array
-- is full.
unfoldable pub read_clients : ℕ → List Bytes → Result (List Meta)
unfolding read_client_line
read_clients zero lines = ok []
read_clients (suc room) [] = ok []
read_clients (suc room) (line ∷ lines) = do
  read ← read_client_line line
  elim read [
    | none ↦ read_clients (suc room) lines
    | some m ↦ (do ms ← read_clients room lines; ok (m ∷ ms))
  ]

-- The clients of the file's lines, or `none` for -1 where the file cannot be opened.
unfoldable pub tc_client_file_read : Option (List Bytes) → Result (Option (List Meta))
unfolding read_clients
tc_client_file_read none = ok none
tc_client_file_read (some lines) = do ms ← read_clients max_num_ctrl_socks lines; ok (some ms)
