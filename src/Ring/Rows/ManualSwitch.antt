-- ===== src/Ring/Rows/ManualSwitch.antt =====
-- Rows 30 to 43 of `ring_fsm`: the state MANUAL_SWITCH.
use erps.Common.{ℕ, Option}
use erps.Raps
use erps.Ring.{
  protection, manual_switch, forced_switch, pending, Request, invalid, raps_nr, raps_nr_rb,
  wtb_running, wtb_expires, wtr_running, wtr_expires, req_ms, req_raps_ms, req_raps_sf,
  req_clear_sf, req_sf, req_raps_fs, req_fs, req_clear, PortRef, Act, ◌>>◌, only_if, if_else,
  start_wtb_timer, start_guard_timer, start_tx, enter, stay,
}
use erps.Ring.Rows.{switch_to, open_both, open_nonfailed, reverts, some_blocked}

-- Rows 30, 36 and 44, with a port blocked.
unfoldable pub release_switch : ℕ → Act
unfolding start_guard_timer start_wtb_timer ◌>>◌ only_if
release_switch now = do
  start_guard_timer now
  start_tx Raps.nr 0
  only_if reverts (start_wtb_timer now)

unfoldable pub fsm_manual_switch : ℕ → Request → Option PortRef → Act
unfolding switch_to open_both open_nonfailed release_switch start_wtb_timer enter stay ◌>>◌ only_if
    if_else
fsm_manual_switch now req_clear port = do only_if some_blocked (release_switch now); enter pending
fsm_manual_switch now req_fs port = do switch_to Raps.fs port; enter forced_switch
fsm_manual_switch now req_raps_fs port = do open_both; enter forced_switch
fsm_manual_switch now req_sf port = do switch_to Raps.sf port; enter protection
fsm_manual_switch now req_clear_sf port = stay
fsm_manual_switch now req_raps_sf port = open_nonfailed
fsm_manual_switch now req_raps_ms port =
    if_else some_blocked (do release_switch now; enter pending) (enter manual_switch)
fsm_manual_switch now req_ms port = stay
fsm_manual_switch now wtr_expires port = stay
fsm_manual_switch now wtr_running port = stay
fsm_manual_switch now wtb_expires port = stay
fsm_manual_switch now wtb_running port = stay
fsm_manual_switch now raps_nr_rb port = enter pending
fsm_manual_switch now raps_nr port = do only_if reverts (start_wtb_timer now); enter pending
fsm_manual_switch now invalid port = stay
