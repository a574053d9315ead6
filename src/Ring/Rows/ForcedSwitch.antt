-- ===== src/Ring/Rows/ForcedSwitch.antt =====
-- Rows 44 to 57 of `ring_fsm`: the state FORCED_SWITCH.
use erps.Common.{ℕ, Option}
use erps.Raps
use erps.Ring.{
  pending, Request, invalid, raps_nr, raps_nr_rb, wtb_running, wtb_expires, wtr_running,
  wtr_expires, req_ms, req_raps_ms, req_raps_sf, req_clear_sf, req_sf, req_raps_fs, req_fs,
  req_clear, PortRef, Act, ◌>>◌, only_if, start_wtb_timer, block_port, flush_fdb, start_tx, enter,
  stay,
}
use erps.Ring.Rows.{reverts, some_blocked}
use erps.Ring.Rows.ManualSwitch.{release_switch}

unfoldable pub fsm_forced_switch : ℕ → Request → Option PortRef → Act
unfolding release_switch start_wtb_timer block_port flush_fdb enter stay ◌>>◌ only_if
fsm_forced_switch now req_clear port = do only_if some_blocked (release_switch now); enter pending
fsm_forced_switch now req_fs port = do block_port port; start_tx Raps.fs 0; flush_fdb
fsm_forced_switch now req_raps_fs port = stay
fsm_forced_switch now req_sf port = stay
fsm_forced_switch now req_clear_sf port = stay
fsm_forced_switch now req_raps_sf port = stay
fsm_forced_switch now req_raps_ms port = stay
fsm_forced_switch now req_ms port = stay
fsm_forced_switch now wtr_expires port = stay
fsm_forced_switch now wtr_running port = stay
fsm_forced_switch now wtb_expires port = stay
fsm_forced_switch now wtb_running port = stay
fsm_forced_switch now raps_nr_rb port = enter pending
fsm_forced_switch now raps_nr port = do only_if reverts (start_wtb_timer now); enter pending
fsm_forced_switch now invalid port = stay
