-- ===== src/Meta.antt =====
-- common.h and common.c: the states of a connection to a Tor client, and its record.
pub mod Names
use flashflow_research.Prelude.{ℕ, ◌+◌, ◌≡◌, Bool, true, false, Option, none, some, ◌++◌, [], ◌∷◌}
use flashflow_research.Prelude.Int.{ℤ, pos, negsuc}
use flashflow_research.Prelude.Text.{Bytes, codes, decimal, snprintf}

-- `enum csm_state`
pub data CsmState : Type 0 where
  invalid connected authing authed told_connect_target connected_target setting_bw bw_set measuring
        done failed :
      CsmState

pub CsmState-discrete : Discrete CsmState
CsmState-discrete = hlevel

-- `==` on the states.
abbrev pub state_number : CsmState → ℕ
state_number invalid = 0
state_number connected = 1
state_number authing = 2
state_number authed = 3
state_number told_connect_target = 4
state_number connected_target = 5
state_number setting_bw = 6
state_number bw_set = 7
state_number measuring = 8
state_number done = 9
state_number failed = 10

-- `struct ctrl_sock_meta`. A measurement id of 0 stands for no measurement.
pub record Meta : Type 0 where
  pub fd : ℤ
  pub state : CsmState
  pub class : Bytes
  pub host : Bytes
  pub port : Bytes
  pub pw : Option Bytes
  pub is_bg : Bool
  pub current_m_id : ℕ

unfoldable pub csm_st_str : CsmState → Bytes
csm_st_str invalid = codes "INVALID"
csm_st_str connected = codes "CONNECTED"
csm_st_str authing = codes "AUTHING"
csm_st_str authed = codes "AUTHED"
csm_st_str told_connect_target = codes "TOLD_CONNECT_TARGET"
csm_st_str connected_target = codes "CONNECTED_TARGET"
csm_st_str setting_bw = codes "SETTING_BW"
csm_st_str bw_set = codes "BW_SET"
csm_st_str measuring = codes "MEASURING"
csm_st_str done = codes "DONE"
csm_st_str failed = codes "FAILED"

-- `%d`
unfoldable pub signed_decimal : ℤ → Bytes
unfolding decimal
signed_decimal (pos n) = decimal n
signed_decimal (negsuc n) = b'-' ∷ decimal (n + 1)

-- DESC_META_BUF_SIZE
abbrev pub desc_meta_buf_size : ℕ
desc_meta_buf_size = 512

-- The text is returned; that it stands in one static buffer is not modelled.
unfoldable pub desc_meta : Option Meta → Bytes
unfolding signed_decimal decimal
desc_meta none = codes "(NULL)"
desc_meta (some m) = snprintf desc_meta_buf_size (
    codes "{"
    ++ m.class
    ++ codes " "
    ++ m.host
    ++ codes ":"
    ++ m.port
    ++ codes " fd="
    ++ signed_decimal m.fd
    ++ codes " m_id="
    ++ decimal m.current_m_id
    ++ codes "}")
