-- ===== src/Ring/Rows/Pending.antt =====
-- Rows 58 to 71 of `ring_fsm`: the state PENDING.
use erps.Common.{not, ◌&&◌, Option}
use erps.Raps.{NodeId}
use erps.Raps
use erps.Ring.{
  idle, protection, manual_switch, forced_switch, Request, invalid, raps_nr, raps_nr_rb,
  wtb_running, wtb_expires, wtr_running, wtr_expires, req_ms, req_raps_ms, req_raps_sf,
  req_clear_sf, req_sf, req_raps_fs, req_fs, req_clear, PortRef, Act, ◌>>◌, only_if, with_rpl,
  stop_wtr_timer, stop_wtb_timer, block_port, unblock_port, er_ring_other_port, stop_tx, enter,
  stay,
}
use erps.Ring.Rows.Idle.{yield_to}
use erps.Ring.Rows.{switch_to, open_both, open_nonfailed, block_rpl, stop_owner_timers}

-- The branch of row 70 for the neighbour of the RPL.
unfoldable pub block_rpl_silently : Option PortRef → Act
unfolding block_port unblock_port er_ring_other_port stop_tx ◌>>◌
block_rpl_silently rpl_port = do
  block_port rpl_port
  unblock_port (er_ring_other_port rpl_port)
  stop_tx

-- Row 70: the owner has blocked the RPL.
unfoldable pub pending_nr_rb : Act
unfolding stop_owner_timers open_both block_rpl_silently enter ◌>>◌ only_if with_rpl
pending_nr_rb = do
  stop_owner_timers
  only_if (λ r. not r.is_rpl_owner && not r.is_rpl_neighbour) open_both
  only_if (λ r. r.is_rpl_neighbour) (with_rpl block_rpl_silently)
  enter idle

unfoldable pub fsm_pending : Request → Option PortRef → Option NodeId → Act
unfolding switch_to open_both open_nonfailed block_rpl stop_owner_timers stop_wtr_timer
    stop_wtb_timer pending_nr_rb yield_to enter stay ◌>>◌ only_if with_rpl
fsm_pending req_clear port remote_node_id = do
  only_if (λ r. r.is_rpl_owner) (do stop_wtr_timer; stop_wtb_timer; with_rpl block_rpl)
  enter idle
fsm_pending req_fs port remote_node_id = do
  switch_to Raps.fs port
  stop_owner_timers
  enter forced_switch
fsm_pending req_raps_fs port remote_node_id = do open_both; stop_owner_timers; enter forced_switch
fsm_pending req_sf port remote_node_id = do
  switch_to Raps.sf port
  stop_owner_timers
  enter protection
fsm_pending req_clear_sf port remote_node_id = stay
fsm_pending req_raps_sf port remote_node_id = do open_nonfailed; stop_owner_timers; enter protection
fsm_pending req_raps_ms port remote_node_id = do
  open_nonfailed
  stop_owner_timers
  enter manual_switch
fsm_pending req_ms port remote_node_id = do
  stop_owner_timers
  switch_to Raps.ms port
  enter manual_switch
fsm_pending wtr_expires port remote_node_id = do
  only_if (λ r. r.is_rpl_owner) (do stop_wtb_timer; with_rpl block_rpl)
  enter idle
fsm_pending wtr_running port remote_node_id = stay
fsm_pending wtb_expires port remote_node_id = do
  only_if (λ r. r.is_rpl_owner) (do stop_wtr_timer; with_rpl block_rpl)
  enter idle
fsm_pending wtb_running port remote_node_id = stay
fsm_pending raps_nr_rb port remote_node_id = pending_nr_rb
fsm_pending raps_nr port remote_node_id = yield_to remote_node_id
fsm_pending invalid port remote_node_id = stay
