-- ===== src/Ring/Rows/Idle.antt =====
-- Rows 02 to 15 of `ring_fsm`: the state IDLE.
use erps.Common.{Bool, not, ◌&&◌, Option, none, some, memcmp, is_lt}
use erps.Raps.{NodeId, bytes}
use erps.Raps
use erps.Ring.{
  protection, manual_switch, forced_switch, Request, invalid, raps_nr, raps_nr_rb, wtb_running,
  wtb_expires, wtr_running, wtr_expires, req_ms, req_raps_ms, req_raps_sf, req_clear_sf, req_sf,
  req_raps_fs, req_fs, req_clear, PortRef, Ring, Act, ◌>>◌, only_if, with_rpl, unblock_port,
  er_ring_other_port, stop_tx, enter, stay,
}
use erps.Ring.Rows.{switch_to, open_both, open_nonfailed}

-- The test of rows 15 and 71.
unfoldable pub remote_is_higher : NodeId → Ring → Bool
remote_is_higher remote r = is_lt (memcmp (bytes r.node_id) (bytes remote))

-- The body of rows 15 and 71 reads the address of the remote node.
unfoldable pub yield_to : Option NodeId → Act
unfolding open_nonfailed remote_is_higher only_if
yield_to none r = none
yield_to (some remote) r = only_if (remote_is_higher remote) open_nonfailed r

-- Row 15: the address is read only on a plain ring node.
unfoldable pub idle_nr : Option NodeId → Act
unfolding yield_to only_if
idle_nr remote_node_id =
    only_if (λ r. not r.is_rpl_owner && not r.is_rpl_neighbour) (yield_to remote_node_id)

unfoldable pub fsm_idle : Request → Option PortRef → Option NodeId → Act
unfolding switch_to open_both open_nonfailed unblock_port er_ring_other_port stop_tx idle_nr enter
    stay
fsm_idle req_clear port remote_node_id = stay
fsm_idle req_fs port remote_node_id = do switch_to Raps.fs port; enter forced_switch
fsm_idle req_raps_fs port remote_node_id = do open_both; enter forced_switch
fsm_idle req_sf port remote_node_id = do switch_to Raps.sf port; enter protection
fsm_idle req_clear_sf port remote_node_id = stay
fsm_idle req_raps_sf port remote_node_id = do open_nonfailed; enter protection
fsm_idle req_raps_ms port remote_node_id = do open_nonfailed; enter manual_switch
fsm_idle req_ms port remote_node_id = do switch_to Raps.ms port; enter manual_switch
fsm_idle wtr_expires port remote_node_id = stay
fsm_idle wtr_running port remote_node_id = stay
fsm_idle wtb_expires port remote_node_id = stay
fsm_idle wtb_running port remote_node_id = stay
fsm_idle raps_nr_rb port remote_node_id = do
  with_rpl (λ p. unblock_port (er_ring_other_port p))
  only_if (λ r. not r.is_rpl_owner) stop_tx
fsm_idle raps_nr port remote_node_id = idle_nr remote_node_id
fsm_idle invalid port remote_node_id = stay
