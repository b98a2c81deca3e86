-- ===== src/Meta/Names.antt =====
-- The names that common.c prints for the states and connections.
use flashflow_research.Prelude.{◌≡◌, arith}
use flashflow_research.Meta.{CsmState, csm_st_str}

-- Two states that print alike are one state.
pub csm_st_str-injective : (s t : CsmState) → csm_st_str s ≡ csm_st_str t → s ≡ t
unfolding csm_st_str
csm_st_str-injective s t h = ground arith
