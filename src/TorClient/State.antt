-- ===== src/TorClient/State.antt =====
-- tc_change_state_ and tc_assert_state_.
use flashflow_research.Prelude.{
  Bool, true, false, ok, err, Result, assertion, ◌==◌, if◌then◌else◌, guard,
}
use flashflow_research.Meta.{
  CsmState, invalid, connected, authing, authed, told_connect_target, connected_target, setting_bw,
  bw_set, measuring, done, failed, Meta, state_number,
}

-- The nested `switch`: whether it leaves by `tc_good_state_change`.
unfoldable pub good_change : CsmState → CsmState → Bool
good_change invalid connected = true
good_change connected failed = true
good_change connected authing = true
good_change authing failed = true
good_change authing authed = true
good_change authed failed = true
good_change authed told_connect_target = true
good_change told_connect_target failed = true
good_change told_connect_target connected_target = true
good_change connected_target failed = true
good_change connected_target setting_bw = true
good_change setting_bw failed = true
good_change setting_bw bw_set = true
good_change bw_set failed = true
good_change bw_set measuring = true
good_change measuring failed = true
good_change measuring done = true
good_change done failed = true
good_change done invalid = true
good_change failed invalid = true
good_change _ _ = false

unfoldable pub tc_change_state : Meta → CsmState → Result Meta
unfolding good_change
tc_change_state meta new_state =
    if good_change meta.state new_state
    then ok (record meta { state = new_state })
    else err assertion

unfoldable pub tc_assert_state : Meta → CsmState → Result (Unit {0})
tc_assert_state meta state = guard (state_number meta.state == state_number state) assertion
