-- ===== src/Ring/Rows/Protection.antt =====
-- Rows 16 to 29 of `ring_fsm`: the state PROTECTION.
use erps.Common.{ℕ, Option}
use erps.Raps
use erps.Ring.{
  forced_switch, pending, Request, invalid, raps_nr, raps_nr_rb, wtb_running, wtb_expires,
  wtr_running, wtr_expires, req_ms, req_raps_ms, req_raps_sf, req_clear_sf, req_sf, req_raps_fs,
  req_fs, req_clear, PortRef, Act, ◌>>◌, only_if, start_wtr_timer, start_guard_timer, start_tx,
  enter, stay,
}
use erps.Ring.Rows.{switch_to, open_both, reverts}

unfoldable pub fsm_protection : ℕ → Request → Option PortRef → Act
unfolding switch_to open_both start_guard_timer start_wtr_timer enter stay ◌>>◌ only_if
fsm_protection now req_clear port = stay
fsm_protection now req_fs port = do switch_to Raps.fs port; enter forced_switch
fsm_protection now req_raps_fs port = do open_both; enter forced_switch
fsm_protection now req_sf port = switch_to Raps.sf port
fsm_protection now req_clear_sf port = do
  start_guard_timer now
  start_tx Raps.nr 0
  only_if reverts (start_wtr_timer now)
  enter pending
fsm_protection now req_raps_sf port = stay
fsm_protection now req_raps_ms port = stay
fsm_protection now req_ms port = stay
fsm_protection now wtr_expires port = stay
fsm_protection now wtr_running port = stay
fsm_protection now wtb_expires port = stay
fsm_protection now wtb_running port = stay
fsm_protection now raps_nr_rb port = enter pending
fsm_protection now raps_nr port = do only_if reverts (start_wtr_timer now); enter pending
fsm_protection now invalid port = stay
